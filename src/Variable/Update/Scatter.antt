-- ===== src/Variable/Update/Scatter.antt =====
-- `ScatterUpdate` of kv_variable.h at a key whose record is in the blacklist.
use tfplus.Common.{ℕ, ◌≡◌, refl, ◌∙◌, ◌≢◌, true, false, some, List, arith, ==_refl}
use tfplus.Memory.{Ptr, null, row, Heap, write}
use tfplus.Memory.Access.{copy_row-ok, ne_null}
use tfplus.HashMap.{IMap}
use tfplus.Embedding.Value.{EmbeddingValue, update_embedding, release}
use tfplus.Embedding.Context
use tfplus.Embedding.Context.{EvContext, entry, empty_context, meta_context, update_value}
use tfplus.Table.{Store}
use tfplus.Table.Storage.{put}
use tfplus.Table.Manager.{update_with_fn, update_with_context, fetch_and_update_with_fn}
use tfplus.Table.Ownership.{Inv}
use tfplus.Variable.{Floats, Config, with_delta, note_delta_lem}
use tfplus.Variable.Values.Steps.{update_under_threshold_black}
use tfplus.Variable.Lookup.Hits.{counted, get_meta_and_value_hit}
use tfplus.Variable.Update.{
  scatter_update_fn, scatter_update_row, insert_or_update_fn, insert_or_update_row,
}

module _ {V T : Type 0} (m : IMap EmbeddingValue T) (floats : Floats V) where
  open m use {find_or_null, insert_or_assign}

  abbrev pub zeroed : ℕ → EmbeddingValue → Store V T → Store V T
  zeroed key ev s = record s {
    ev_table = insert_or_assign key (record ev { embedding_val = s.zero_val }) s.ev_table;
  }

  put_zero :
      (key : ℕ) (ev : EmbeddingValue) (c : EvContext) (s : Store V T)
      → find_or_null key s.ev_table ≡ some ev
      → ev.buf_owner ≡ false
      → c.meta ≡ some (entry key)
      → c.val ≡ s.zero_val
      → c.buf_owner ≡ false
      → put m c false s ≡ some (c, zeroed key ev s)
  unfolding put update_embedding release
  put_zero key ev c s found own meta val own' = ground arith

  scatter_update_fn_black :
      (op : List V → List V → List V) (rhs : List V) (key : ℕ) (ev : EmbeddingValue) (c : EvContext)
      (s : Store V T)
      → find_or_null key s.ev_table ≡ some ev
      → ev.in_black ≡ true
      → c.meta ≡ some (entry key)
      → scatter_update_fn m floats op rhs c s ≡ some ((c, tt), s)
  unfolding scatter_update_fn
  scatter_update_fn_black op rhs key ev c s found black meta = ground arith

  scatter_black :
      (config : Config V) (op : List V → List V → List V) (key : ℕ) (rhs : List V) (r₁ r₂ : ℕ)
      (ev : EmbeddingValue) (s : Store V T)
      → find_or_null key s.ev_table ≡ some ev
      → ev.in_black ≡ true
      → ev.buf_owner ≡ false
      → scatter_update_row m floats config op key rhs r₁ r₂ s
        ≡ some (tt, zeroed key ev (counted m ev (with_delta config key s)))
  unfolding scatter_update_row fetch_and_update_with_fn Context.destroy
  scatter_black config op key rhs r₁ r₂ ev s found black own =
      let n = with_delta config key s in
      let s₀ = counted m ev n in
      let c : EvContext = record {
        buf_owner = false;
        is_valid = true;
        val = s.zero_val;
        meta = some (entry key);
      } in
      ground (
        arith,
        note_delta_lem config key s,
        get_meta_and_value_hit m key empty_context ev n refl refl found,
        scatter_update_fn_black op rhs key ev c s₀ found black refl,
        put_zero key ev c s₀ found own refl refl refl,
      )

  -- the records after `InsertOrUpdate` of a key in the blacklist whose value is the zero row
  abbrev spoiled : ℕ → EmbeddingValue → List V → Store V T → Store V T
  spoiled key ev vs s =
      let h : Heap V = record s.heap { cell = write s.heap.cell s.zero_val (some (row vs)) } in
      let t = insert_or_assign key (record ev { under_threshold = true }) s.ev_table in
      record s { heap = h; ev_table = t }

  update_fn_zero :
      (key : ℕ) (value_ptr : Ptr) (vs zs : List V) (ev : EmbeddingValue) (s : Store V T)
      → find_or_null key s.ev_table ≡ some ev
      → ev.in_black ≡ true
      → s.zero_val ≢ null
      → s.heap.cell s.zero_val ≡ some (row zs)
      → s.heap.cell value_ptr ≡ some (row vs)
      → value_ptr ≢ s.zero_val
      → insert_or_update_fn m floats value_ptr (meta_context (entry key) s.zero_val) s
        ≡ some ((meta_context (entry key) s.zero_val, tt), spoiled key ev vs s)
  unfolding insert_or_update_fn update_value
  update_fn_zero key value_ptr vs zs ev s found black nz z given other =
      let s₁ : Store V T = record s {
        heap = record s.heap { cell = write s.heap.cell s.zero_val (some (row vs)) };
      } in
      ground (
        arith,
        copy_row-ok s.heap given z,
        update_under_threshold_black m floats.exceeds_default (meta_context (entry key) s.zero_val)
            (entry key) ev s₁ (spoiled key ev vs s),
      )

  update_zero :
      (config : Config V) (key : ℕ) (value_ptr : Ptr) (vs zs : List V) (ev : EmbeddingValue)
      (s : Store V T)
      → m.IsValid s.ev_table
      → find_or_null key s.ev_table ≡ some ev
      → ev.in_black ≡ true
      → ev.buf_owner ≡ false
      → ev.embedding_val ≡ s.zero_val
      → s.zero_val ≢ null
      → s.heap.cell s.zero_val ≡ some (row zs)
      → s.heap.cell value_ptr ≡ some (row vs)
      → value_ptr ≢ s.zero_val
      → insert_or_update_row m floats config key false false value_ptr s
        ≡ some (
          tt,
          zeroed key
              (record ev { under_threshold = true })
              (spoiled key ev vs (with_delta config key s)),
        )
  unfolding insert_or_update_row update_with_fn update_with_context Context.destroy
  update_zero config key value_ptr vs zs ev s valid found black own val nz z given other =
      let n = with_delta config key s in
      let e₁ : EmbeddingValue = record ev { under_threshold = true } in
      let found₁ : find_or_null key (spoiled key ev vs n).ev_table ≡ some e₁ =
        m.find-insert key key e₁ s.ev_table valid ∙ rw (==_refl key) in
      ground (
        arith,
        note_delta_lem config key s,
        update_fn_zero key value_ptr vs zs ev n found black nz z given other,
        put_zero key e₁ (meta_context (entry key) s.zero_val) (spoiled key ev vs n) found₁ own refl
            refl refl,
      )

  -- On a table whose ownership holds, a `ScatterUpdate` of a key whose record is in the blacklist
  -- and owns no buffer stores the shared row of zeros as the record's value, and changes no row. An
  -- `InsertOrUpdate` of the key, by a row that is neither filtered out nor marked for the blacklist
  -- and lies elsewhere, then writes its row over the shared one, which stays the record's value.
  pub scatter_then_update_lem :
      (config : Config V) (op : List V → List V → List V) (key : ℕ) (rhs : List V) (r₁ r₂ : ℕ)
      (value_ptr : Ptr) (vs : List V) (ev : EmbeddingValue) (s : Store V T)
      → Inv m floats.zeros s.heap s.ev_table s.zero_val
      → find_or_null key s.ev_table ≡ some ev
      → ev.in_black ≡ true
      → ev.buf_owner ≡ false
      → s.heap.cell value_ptr ≡ some (row vs)
      → value_ptr ≢ s.zero_val
      → (s₁ : Store V T) × (s₂ : Store V T) × (scatter_update_row m floats config op key rhs r₁ r₂ s
          ≡ some (tt, s₁))
        × (find_or_null key s₁.ev_table ≡ some (record ev { embedding_val = s.zero_val }))
        × (s₁.heap ≡ s.heap)
        × (s₁.zero_val ≡ s.zero_val)
        × (insert_or_update_row m floats config key false false value_ptr s₁ ≡ some (tt, s₂))
        × (find_or_null key s₂.ev_table
            ≡ some (record ev { embedding_val = s.zero_val; under_threshold = true }))
        × (s₂.zero_val ≡ s.zero_val)
        × (s₂.heap.cell s.zero_val ≡ some (row vs))
  scatter_then_update_lem config op key rhs r₁ r₂ value_ptr vs ev s inv found black own given
        other =
      let e₁ : EmbeddingValue = record ev { embedding_val = s.zero_val } in
      let s₁ = zeroed key ev (counted m ev (with_delta config key s)) in
      let found₁ : find_or_null key s₁.ev_table ≡ some e₁ =
        m.find-insert key key e₁ s.ev_table inv.valid ∙ rw (==_refl key) in
      (
        s₁,
        _,
        scatter_black config op key rhs r₁ r₂ ev s found black own,
        found₁,
        ground arith,
        ground arith,
        update_zero config key value_ptr vs floats.zeros e₁ s₁
            (m.insert-IsValid key e₁ s.ev_table inv.valid) found₁ black own refl
            (ne_null s.heap inv.fresh inv.zero) inv.zero given other,
        ground (
          arith,
          m.find-insert key key (record e₁ { under_threshold = true })
              (insert_or_assign key (record e₁ { under_threshold = true }) s₁.ev_table)
              (m.insert-IsValid key (record e₁ { under_threshold = true }) s₁.ev_table
                (m.insert-IsValid key e₁ s.ev_table inv.valid)),
          ==_refl key,
        ),
        ground arith,
        ground arith,
      )
