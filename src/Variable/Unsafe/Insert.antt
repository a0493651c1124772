-- ===== src/Variable/Unsafe/Insert.antt =====
-- `FindOrInsertUnsafe` of kv_variable.h at a key that the table does not hold.
use tfplus.Common.{
  ℕ, suc, ◌+◌, ◌%◌, ◌<◌, ◌≡◌, refl, Bool, true, false, none, some, List, arith, not, length,
  get_elem?, if◌then◌else◌,
}
use tfplus.Memory.{null, raw, row, Heap, write, allocate_raw}
use tfplus.HashMap.{IMap}
use tfplus.Embedding.Value.{EmbeddingValue, new_value, mem_storage}
use tfplus.Embedding.Context.{local, entry, EvContext, empty_context, update_value}
use tfplus.Table.{Store, load_meta, store_meta}
use tfplus.Table.Insertion.{insert_with_fn_unsafe_lem}
use tfplus.Table.Storage.{size_mod}
use tfplus.Table.Manager.{get_meta_and_value, find_or_insert_with_fn_unsafe}
use tfplus.Table.Ownership.{Inv, write-Inv, fresh_row-Fits}
use tfplus.Variable.{Floats, Config}
use tfplus.Variable.Values.{any}
use tfplus.Variable.Values.Steps.{generate_random_initial_value-ok, update_under_threshold-ok}
use tfplus.Variable.Unsafe.{Draw, insert_func, find_or_insert_unsafe}

-- the rows of the initial table that a draw chooses
pub record Drawn {V : Type 0} (config : Config V) (draw : Draw) (t₁ t₂ : List V) : Type 0 where
  pub first :
      get_elem? config.random_init_table (draw.rand1 % length config.random_init_table) ≡ some t₁
  pub second :
      get_elem? config.random_init_table (draw.rand2 % length config.random_init_table) ≡ some t₂

module _ {V T : Type 0} (m : IMap EmbeddingValue T) (floats : Floats V) (config : Config V)
    (draw : Draw) (t₁ t₂ : List V) where
  open m use {find_or_null, insert_or_assign}

  abbrev pub drawn_row : List V
  drawn_row = floats.average t₁ t₂

  abbrev new_record : EmbeddingValue
  new_record = record (new_value null false 1 false mem_storage) {
    under_threshold = not (any floats.exceeds_default drawn_row);
  }

  abbrev pub with_drawn : Heap V → Heap V
  with_drawn h = record {
    next = suc h.next;
    cell = write (write h.cell h.next (some raw)) h.next (some (row drawn_row));
  }

  insert_func_lem :
      (c : EvContext) (s : Store V T)
      → c.meta ≡ some local
      → c.buf_owner ≡ false
      → c.val < s.heap.next
      → 0 < s.heap.next
      → s.local_ev ≡ new_value null false 1 false mem_storage
      → Drawn config draw t₁ t₂
      → insert_func m floats config draw c s
        ≡ some (
          (record c { val = s.heap.next; buf_owner = true }, tt),
          record s { heap = with_drawn s.heap; local_ev = new_record },
        )
  unfolding insert_func update_value allocate_raw load_meta store_meta
  insert_func_lem c s meta owner lt pos local_new d =
      let h₁ : Heap V = record {
        next = suc s.heap.next;
        cell = write s.heap.cell s.heap.next (some raw);
      } in
      let ev : EmbeddingValue = new_value null false 1 false mem_storage in
      let s₁ : Store V T = record s { heap = h₁; local_ev = ev } in
      let s₂ : Store V T = record s { heap = with_drawn s.heap; local_ev = ev } in
      let s₃ : Store V T = record s { heap = with_drawn s.heap; local_ev = new_record } in
      let c' : EvContext = record c { val = s.heap.next; buf_owner = true } in
      ground (
        arith,
        d.first,
        d.second,
        generate_random_initial_value-ok floats config.random_init_table draw.rand1 draw.rand2
            s.heap.next s₁ {t₁ = t₁} {t₂ = t₂} {d = raw},
        update_under_threshold-ok m floats.exceeds_default c' local ev drawn_row s₂ s₃,
      )

  -- the record of the new key, which owns the fresh buffer
  abbrev pub drawn_record : Heap V → EmbeddingValue
  drawn_record h = record new_record { buf_owner = true; embedding_val = h.next }

  abbrev pub with_drawn_key : ℕ → Store V T → Store V T
  with_drawn_key key s = record s {
    request_count = if s.record_enabled then (s.request_count + 1) % size_mod else s.request_count;
    heap = with_drawn s.heap;
    ev_table = insert_or_assign key (drawn_record s.heap) s.ev_table;
    local_ev = record new_record { buf_owner = true };
    storage_size = (s.storage_size + 1) % size_mod;
  }

  pub find_or_insert_unsafe_new :
      (forward : Bool) (key : ℕ) (s : Store V T)
      → find_or_null key s.ev_table ≡ none
      → 0 < s.heap.next
      → Drawn config draw t₁ t₂
      → find_or_insert_unsafe m floats config forward draw key empty_context s
        ≡ some (
          (record empty_context { val = s.heap.next; meta = some (entry key) }, false),
          with_drawn_key key s,
        )
  unfolding find_or_insert_unsafe find_or_insert_with_fn_unsafe get_meta_and_value
  find_or_insert_unsafe_new forward key s absent pos d =
      let n : Store V T = record s {
        request_count =
            if s.record_enabled then (s.request_count + 1) % size_mod else s.request_count;
      } in
      let start : Store V T = record n { local_ev = new_value null false 1 false mem_storage } in
      let c : EvContext = record empty_context {
        val = s.heap.next;
        buf_owner = true;
        meta = some local;
      } in
      let s₁ : Store V T = record n { heap = with_drawn s.heap; local_ev = new_record } in
      ground (
        arith,
        insert_func_lem (record empty_context { meta = some local }) start refl refl pos pos refl d,
        insert_with_fn_unsafe_lem m key (insert_func m floats config draw) empty_context c tt n s₁,
      )

  pub with_drawn_key-Inv :
      (key : ℕ) (s : Store V T)
      → Inv m floats.zeros s.heap s.ev_table s.zero_val
      → Inv m floats.zeros (with_drawn s.heap) (with_drawn_key key s).ev_table s.zero_val
  with_drawn_key-Inv key s inv =
      write-Inv m floats.zeros s.heap _ s.ev_table s.zero_val key (drawn_record s.heap) inv (
        fresh_row-Fits m floats.zeros s.heap s.ev_table s.zero_val key (drawn_record s.heap)
          (some raw) _ inv refl)
