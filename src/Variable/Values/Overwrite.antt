-- ===== src/Variable/Values/Overwrite.antt =====
-- The row of a record is overwritten in place and its flag is set anew, as `InsertOrUpdate` and the
-- training operations of tfplus/kv_variable do it.
use tfplus.Common.{ℕ, ◌≡◌, refl, sym, ◌∙◌, ◌≢◌, true, false, some, List, arith, not, ==_ne, ==_refl}
use tfplus.Memory.{Ptr, row, Heap, write}
use tfplus.Memory.Access.{write-IsFresh}
use tfplus.HashMap.{IMap}
use tfplus.Embedding.Value.{EmbeddingValue}
use tfplus.Table.{Store}
use tfplus.Table.Ownership.{Inv, Fits, write-Inv}
use tfplus.Variable.{Floats}
use tfplus.Variable.Values.{any}

-- the heap after a row was copied into the buffer `p`
abbrev pub copied : {V : Type 0} → Ptr → List V → Heap V → Heap V
copied p vs h = record h { cell = write h.cell p (some (row vs)) }

-- the record after its row was overwritten
abbrev pub rewritten : {V : Type 0} → Floats V → List V → EmbeddingValue → EmbeddingValue
rewritten floats vs ev = record ev { under_threshold = not (any floats.exceeds_default vs) }

module _ {V T : Type 0} (m : IMap EmbeddingValue T) (floats : Floats V) where
  open m use {find_or_null, insert_or_assign}

  abbrev pub stored : ℕ → List V → EmbeddingValue → Store V T → Store V T
  stored key vs ev s = record s {
    heap = copied ev.embedding_val vs s.heap;
    ev_table = insert_or_assign key (rewritten floats vs ev) s.ev_table;
  }

  pub copied-Fits :
      (key : ℕ) (vs : List V) (ev : EmbeddingValue) (s : Store V T)
      → Inv m floats.zeros s.heap s.ev_table s.zero_val
      → find_or_null key s.ev_table ≡ some ev
      → ev.in_black ≡ false
      → ev.buf_owner ≡ true
      → Fits m floats.zeros s.heap
          (copied ev.embedding_val vs s.heap)
          s.ev_table
          s.zero_val
          key
          (rewritten floats vs ev)
  copied-Fits key vs ev s inv found shown own =
      let nz = inv.visible key ev found shown in
      let (ws, c) = inv.filled key ev found nz in
      record {
        fresh = write-IsFresh ev.embedding_val (row ws) (some (row vs)) s.heap inv.fresh c;
        zero = ground (arith, inv.zero, inv.apart_zero key ev found own);
        others =
            λ j d n f nz'. ground (arith, inv.apart key j ev d (λ e. n (sym e)) found f own nz);
        filled = λ nz'. (vs, ground arith);
        visible = λ b. nz;
        apart_zero = λ o. inv.apart_zero key ev found own;
        apart = λ j d n f o nz' e. inv.apart key j ev d (λ q. n (sym q)) found f own nz (sym e);
      }

  -- the table after an update of the key's record `ev` with the row `vs`
  pub record Overwritten (key : ℕ) (vs : List V) (ev : EmbeddingValue) (s s' : Store V T)
      : Type 0 where
    pub inv : Inv m floats.zeros s'.heap s'.ev_table s'.zero_val
    pub record_after : find_or_null key s'.ev_table ≡ some (rewritten floats vs ev)
    pub row_after : s'.heap.cell ev.embedding_val ≡ some (row vs)
    pub keys : (q : ℕ) → q ≢ key → find_or_null q s'.ev_table ≡ find_or_null q s.ev_table
    pub rows : (p : Ptr) → p ≢ ev.embedding_val → s'.heap.cell p ≡ s.heap.cell p
    pub size : s'.storage_size ≡ s.storage_size

  pub stored-Overwritten :
      (key : ℕ) (vs : List V) (ev : EmbeddingValue) (s : Store V T)
      → Inv m floats.zeros s.heap s.ev_table s.zero_val
      → find_or_null key s.ev_table ≡ some ev
      → ev.in_black ≡ false
      → ev.buf_owner ≡ true
      → Overwritten key vs ev s (stored key vs ev s)
  stored-Overwritten key vs ev s inv found shown own = record {
    inv =
        write-Inv m floats.zeros s.heap _ s.ev_table s.zero_val key (rewritten floats vs ev) inv
          (copied-Fits key vs ev s inv found shown own);
    record_after =
        m.find-insert key key (rewritten floats vs ev) s.ev_table inv.valid ∙ rw (==_refl key);
    row_after = ground arith;
    keys = λ q n. rw (m.find-insert q key (rewritten floats vs ev) s.ev_table inv.valid, ==_ne n);
    rows = λ p n. ground arith;
    size = refl;
  }
