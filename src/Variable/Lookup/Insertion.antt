-- ===== src/Variable/Lookup/Insertion.antt =====
-- `FindOrInsertLocally` of kv_variable.h at a key that the table does not hold.
use tfplus.Common.{
  suc, ◌+◌, ◌%◌, ◌<◌, ◌≡◌, true, false, none, some, List, arith, not, length, get_elem?,
  if◌then◌else◌,
}
use tfplus.Utility.{make_uint32_from_uint16}
use tfplus.Memory.{Ptr, null, raw, row, Heap, write, allocate_raw}
use tfplus.HashMap.{IMap}
use tfplus.Embedding.Value.{EmbeddingValue, new_value, mem_storage}
use tfplus.Embedding.Context.{local, EvContext, update_value, buffer_context}
use tfplus.Table.{Store}
use tfplus.Table.Insertion.{insert_with_fn_unsafe_lem}
use tfplus.Table.Storage.{size_mod}
use tfplus.Table.Manager.{get_meta_and_value, find_or_insert_with_different_fn}
use tfplus.Variable.{Floats, Config, insert_key, note_delta_lem}
use tfplus.Variable.Values.{any}
use tfplus.Variable.Values.Steps.{
  generate_random_initial_value-ok, update_under_threshold-ok, output_embedding_data-ok,
}
use tfplus.Variable.Lookup.{
  Row, row_frequency, is_filtered, new_filter, insert_func, find_or_insert_row,
}

module _ {V T : Type 0} (m : IMap EmbeddingValue T) (floats : Floats V) (config : Config V)
    (r : Row) where
  open m use {find_or_null, insert_or_assign}

  -- the initial value and the record of a new key
  module _ (t₁ t₂ : List V) where
    abbrev pub initial : List V
    initial = floats.average t₁ t₂

    abbrev pub new_record : EmbeddingValue
    new_record = record {
      in_black = false;
      buf_owner = false;
      under_threshold = not (any floats.exceeds_default initial);
      storage_type = mem_storage;
      freq_val = make_uint32_from_uint16 r.last_update_time_in_days (row_frequency r);
      embedding_val = null;
    }

    abbrev pub with_row : Heap V → Heap V
    with_row h = record {
      next = suc h.next;
      cell = write (write h.cell h.next (some raw)) h.next (some (row initial));
    }

    insert_func_lem :
        (c : EvContext) (s : Store V T)
        → c.meta ≡ some local
        → c.buf_owner ≡ false
        → c.val < s.heap.next
        → 0 < s.heap.next
        → s.local_ev ≡ new_value null false 1 false mem_storage
        → get_elem? config.random_init_table (r.rand1 % length config.random_init_table) ≡ some t₁
        → get_elem? config.random_init_table (r.rand2 % length config.random_init_table) ≡ some t₂
        → insert_func m floats config r c s
          ≡ some (
            (
              record c { val = s.heap.next; buf_owner = true },
              record { values = some initial; filter_out = new_filter config.enter_threshold r },
            ),
            record s { heap = with_row s.heap; local_ev = new_record },
          )
    unfolding insert_func update_value allocate_raw
    insert_func_lem c s meta owner lt pos local_new e₁ e₂ =
        let h₁ : Heap V = record {
          next = suc s.heap.next;
          cell = write s.heap.cell s.heap.next (some raw);
        } in
        let ev : EmbeddingValue = record new_record { under_threshold = false } in
        let s₁ : Store V T = record s { heap = h₁; local_ev = ev } in
        let s₂ : Store V T = record s { heap = with_row s.heap; local_ev = ev } in
        let s₃ : Store V T = record s { heap = with_row s.heap; local_ev = new_record } in
        let c' : EvContext = record c { val = s.heap.next; buf_owner = true } in
        ground (
          arith,
          generate_random_initial_value-ok floats config.random_init_table r.rand1 r.rand2
              s.heap.next s₁ {t₁ = t₁} {t₂ = t₂} {d = raw},
          update_under_threshold-ok m floats.exceeds_default c' local ev initial s₂ s₃,
          output_embedding_data-ok m c' initial s₃,
        )

    -- the counters and the delta set that a lookup touches before it reads the table
    abbrev pub noted : Store V T → Store V T
    noted s = record s {
      train_deltalist =
          if config.support_delta_export
          then insert_key r.key s.train_deltalist
          else s.train_deltalist;
      request_count =
          if s.record_enabled then (s.request_count + 1) % size_mod else s.request_count;
    }

    -- the table with the record of the new key, which owns the fresh buffer
    abbrev pub with_new_key : Store V T → Store V T
    with_new_key s =
        let n = noted s in
        record n {
          heap = with_row s.heap;
          ev_table =
              insert_or_assign r.key
                (record new_record { buf_owner = true; embedding_val = s.heap.next }) s.ev_table;
          local_ev = record new_record { buf_owner = true };
          storage_size = (s.storage_size + 1) % size_mod;
        }

    pub find_or_insert_row_run :
        (buf : Ptr) (s : Store V T)
        → is_filtered r ≡ false
        → find_or_null r.key s.ev_table ≡ none
        → buf < s.heap.next
        → 0 < s.heap.next
        → get_elem? config.random_init_table (r.rand1 % length config.random_init_table) ≡ some t₁
        → get_elem? config.random_init_table (r.rand2 % length config.random_init_table) ≡ some t₂
        → find_or_insert_row m floats config buf r s
          ≡ some (
            record { values = some initial; filter_out = new_filter config.enter_threshold r },
            with_new_key s,
          )
    unfolding find_or_insert_row find_or_insert_with_different_fn get_meta_and_value
    find_or_insert_row_run buf s open' absent lt pos e₁ e₂ =
        let c₀ = buffer_context buf false in
        let n = noted s in
        let start : Store V T = record n { local_ev = new_value null false 1 false mem_storage } in
        let c : EvContext = record c₀ { val = s.heap.next; buf_owner = true; meta = some local } in
        let s₁ : Store V T = record n { heap = with_row s.heap; local_ev = new_record } in
        ground (
          arith,
          note_delta_lem config r.key s,
          insert_func_lem (record c₀ { meta = some local }) start,
          insert_with_fn_unsafe_lem m r.key (insert_func m floats config r) c₀ c
              (record { values = some initial; filter_out = new_filter config.enter_threshold r }) n
              s₁,
        )
