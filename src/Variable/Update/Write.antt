-- ===== src/Variable/Update/Write.antt =====
-- `InsertOrUpdate` of kv_variable.h at a key that the table holds.
use tfplus.Common.{ℕ, ◌≡◌, refl, ◌∙◌, ◌≢◌, true, false, some, List, arith, ==_ne, ==_refl}
use tfplus.Memory.{Ptr, row}
use tfplus.Memory.Access.{copy_row-ok}
use tfplus.HashMap.{IMap}
use tfplus.Embedding.Value.{EmbeddingValue, update_embedding, release}
use tfplus.Embedding.Context
use tfplus.Embedding.Context.{EvContext, entry, meta_context, update_value}
use tfplus.Table.{Store}
use tfplus.Table.Storage.{put}
use tfplus.Table.Manager.{update_with_fn, update_with_context}
use tfplus.Table.Ownership.{Inv, write-Inv, same_value-Fits}
use tfplus.Variable.{Floats, Config, with_delta, note_delta_lem}
use tfplus.Variable.Values.Overwrite.{copied, rewritten, stored, copied-Fits, Overwritten}
use tfplus.Variable.Values.Steps.{update_under_threshold-ok}
use tfplus.Variable.Update.{insert_or_update_fn, insert_or_update_row}

module _ {V T : Type 0} (m : IMap EmbeddingValue T) (floats : Floats V) where
  open m use {find_or_null, insert_or_assign}

  -- what the callback needs of the record and of the row that is given
  record Given (key : ℕ) (value_ptr : Ptr) (vs : List V) (ev : EmbeddingValue) (s : Store V T)
      : Type 0 where
    inv : Inv m floats.zeros s.heap s.ev_table s.zero_val
    found : find_or_null key s.ev_table ≡ some ev
    shown : ev.in_black ≡ false
    given : s.heap.cell value_ptr ≡ some (row vs)
    other : value_ptr ≢ ev.embedding_val

  insert_or_update_fn_hit :
      (key : ℕ) (value_ptr : Ptr) (vs : List V) (ev : EmbeddingValue) (s : Store V T)
      → Given key value_ptr vs ev s
      → insert_or_update_fn m floats value_ptr (meta_context (entry key) ev.embedding_val) s
        ≡ some ((meta_context (entry key) ev.embedding_val, tt), stored m floats key vs ev s)
  unfolding insert_or_update_fn update_value
  insert_or_update_fn_hit key value_ptr vs ev s g =
      let nz = g.inv.visible key ev g.found g.shown in
      let (ws, c) = g.inv.filled key ev g.found nz in
      let run = copy_row-ok s.heap g.given c in
      let s₁ : Store V T = record s { heap = copied ev.embedding_val vs s.heap } in
      ground (
        arith,
        run,
        g.found,
        g.shown,
        g.other,
        update_under_threshold-ok m floats.exceeds_default
            (meta_context (entry key) ev.embedding_val) (entry key) ev vs s₁
            (stored m floats key vs ev s),
      )

  -- the record is put back as it is
  put_same :
      (key : ℕ) (ev : EmbeddingValue) (s : Store V T)
      → find_or_null key s.ev_table ≡ some ev
      → put m (meta_context (entry key) ev.embedding_val) false s
        ≡ some (
          meta_context (entry key) ev.embedding_val,
          record s { ev_table = insert_or_assign key ev s.ev_table },
        )
  unfolding put update_embedding release
  put_same key ev s found = ground arith

  update_hit :
      (key : ℕ) (value_ptr : Ptr) (vs : List V) (ev : EmbeddingValue) (s : Store V T)
      → Given key value_ptr vs ev s
      → update_with_fn m key (insert_or_update_fn m floats value_ptr) s
        ≡ some (
          some tt,
          record (stored m floats key vs ev s) {
            ev_table =
                insert_or_assign key
                  (rewritten floats vs ev)
                  (stored m floats key vs ev s).ev_table;
          },
        )
  unfolding update_with_fn update_with_context Context.destroy
  update_hit key value_ptr vs ev s g =
      let nz = g.inv.visible key ev g.found g.shown in
      let found₁ : find_or_null key (stored m floats key vs ev s).ev_table
          ≡ some (rewritten floats vs ev) =
        m.find-insert key key (rewritten floats vs ev) s.ev_table g.inv.valid ∙ rw (==_refl key) in
      ground (
        arith,
        nz,
        g.found,
        insert_or_update_fn_hit key value_ptr vs ev s g,
        put_same key (rewritten floats vs ev) (stored m floats key vs ev s) found₁,
      )

  -- On a table whose ownership holds, an update of a key whose record is not in the blacklist and
  -- owns its buffer, by a row that is neither filtered out nor marked for the blacklist, copies
  -- the row into the record's buffer, and sets its flag by the new row. It changes no other
  -- buffer, no other record and not the storage size, and keeps the ownership.
  pub insert_or_update_row_hit :
      (config : Config V) (key : ℕ) (value_ptr : Ptr) (vs : List V) (ev : EmbeddingValue)
      (s : Store V T)
      → Inv m floats.zeros s.heap s.ev_table s.zero_val
      → find_or_null key s.ev_table ≡ some ev
      → ev.in_black ≡ false
      → ev.buf_owner ≡ true
      → s.heap.cell value_ptr ≡ some (row vs)
      → value_ptr ≢ ev.embedding_val
      → (s' : Store V T) × (insert_or_update_row m floats config key false false value_ptr s
          ≡ some (tt, s'))
        × Overwritten m floats key vs ev s s'
  unfolding insert_or_update_row
  insert_or_update_row_hit config key value_ptr vs ev s inv found shown own given other =
      let n = with_delta config key s in
      let g : Given key value_ptr vs ev n = record {
        inv = inv;
        found = found;
        shown = shown;
        given = given;
        other = other;
      } in
      let s₁ = stored m floats key vs ev n in
      let e₁ = rewritten floats vs ev in
      let inv₁ : Inv m floats.zeros s₁.heap s₁.ev_table s.zero_val =
        write-Inv m floats.zeros s.heap s₁.heap s.ev_table s.zero_val key e₁ inv
          (copied-Fits m floats key vs ev n inv found shown own) in
      let found₁ : find_or_null key s₁.ev_table ≡ some e₁ =
        m.find-insert key key e₁ s.ev_table inv.valid ∙ rw (==_refl key) in
      (
        record s₁ { ev_table = insert_or_assign key e₁ s₁.ev_table },
        ground (arith, note_delta_lem config key s, update_hit key value_ptr vs ev n g),
        record {
          inv = write-Inv m floats.zeros s₁.heap s₁.heap s₁.ev_table s.zero_val key e₁ inv₁ (
              same_value-Fits m floats.zeros s₁.heap s₁.ev_table s.zero_val key e₁ e₁ inv₁ found₁
                refl refl (λ b. b));
          record_after = rw (m.find-insert key key e₁ s₁.ev_table inv₁.valid, ==_refl);
          row_after = ground arith;
          keys = λ q ne. rw (
            m.find-insert q key e₁ s₁.ev_table inv₁.valid,
            ==_ne ne,
            m.find-insert q key e₁ s.ev_table inv.valid,
            ==_ne ne,
          );
          rows = λ p ne. ground arith;
          size = refl;
        },
      )
