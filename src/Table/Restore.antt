-- ===== src/Table/Restore.antt =====
-- `RemoveBlacklistUnsafe` of table_manager.h: a record leaves the blacklist with a row of zeros.
use tfplus.Common.{
  ℕ, suc, ◌≡◌, refl, sym, ◌∙◌, ◌≢◌, inl, inr, true, false, some, List, arith, ◌==◌, ◌&&◌, not,
  Bool-cases, ==_refl, ==_ne,
}
use tfplus.Memory.{null, raw, row, Heap, write, allocate_raw, store_row}
use tfplus.Memory.Access.{lt_next, deallocate_raw-ok}
use tfplus.HashMap.{IMap}
use tfplus.Embedding.Value.{
  EmbeddingValue, release, update_embedding, set_buf_owner, remove_blacklist, set_under_threshold,
}
use tfplus.Embedding.Context.{EvContext, entry, update_value}
use tfplus.Table.{Store, load_meta, store_meta}
use tfplus.Table.Storage.{put}
use tfplus.Table.Blacklist.{remove_blacklist_unsafe}
use tfplus.Table.Ownership.{Inv, write-Inv, fresh_row-Fits, same_buffer-Fits}
use tfplus.Table.Release.{released, free-Inv}
use tfplus.Table.Owned.{Owned, write-Owned, below}

module _ {V T : Type 0} (m : IMap EmbeddingValue T) (zeros : List V) where
  open m use {find_or_null, insert_or_assign}

  abbrev zeroed : Heap V → Heap V
  zeroed h = record {
    next = suc h.next;
    cell = write (write h.cell h.next (some raw)) h.next (some (row zeros));
  }

  -- the record with its new buffer, before and after it leaves the blacklist
  abbrev given : Heap V → EmbeddingValue → EmbeddingValue
  given h ev = record ev { buf_owner = true; embedding_val = h.next }

  abbrev pub restored : Heap V → EmbeddingValue → EmbeddingValue
  restored h ev = record (given h ev) { in_black = false; under_threshold = true }

  abbrev pub with_restored : ℕ → EmbeddingValue → Store V T → Store V T
  with_restored key ev s = record s {
    heap = released m zeros ev (zeroed s.heap);
    ev_table =
        insert_or_assign key (restored s.heap ev)
          (insert_or_assign key (given s.heap ev) s.ev_table);
  }

  abbrev handed : ℕ → Store V T → EvContext
  handed key s = record {
    buf_owner = false;
    is_valid = true;
    val = s.heap.next;
    meta = some (entry key);
  }

  put_given :
      (key : ℕ) (ev : EmbeddingValue) (s : Store V T)
      → Owned m zeros s
      → find_or_null key s.ev_table ≡ some ev
      → put m (record (handed key s) { buf_owner = true }) false (record s { heap = zeroed s.heap })
        ≡ some (
          handed key s,
          record s {
            heap = released m zeros ev (zeroed s.heap);
            ev_table = insert_or_assign key (given s.heap ev) s.ev_table;
          },
        )
  unfolding put update_embedding release set_buf_owner
  put_given key ev s o found = elim (Bool-cases (ev.buf_owner && not (ev.embedding_val == null))) [
    | inl y ↦
        let (vs, c) = o.inv.filled key ev found (ground arith) in
        let lt = lt_next s.heap o.inv.fresh c in
        let live : (zeroed s.heap).cell ev.embedding_val ≡ some (row vs) = ground arith in
        ground (arith, deallocate_raw-ok (zeroed s.heap) live)
    | inr n ↦ ground arith
  ]

  pub remove_blacklist_run :
      (key : ℕ) (ev : EmbeddingValue) (c : EvContext) (s : Store V T)
      → Owned m zeros s
      → find_or_null key s.ev_table ≡ some ev
      → c ≡ record (handed key s) { val = s.zero_val }
      → remove_blacklist_unsafe m zeros c s ≡ some (handed key s, with_restored key ev s)
  unfolding remove_blacklist_unsafe allocate_raw store_row update_value remove_blacklist
      set_under_threshold load_meta store_meta
  remove_blacklist_run key ev c s o found e =
      let lt = lt_next s.heap o.inv.fresh o.inv.zero in
      let again : find_or_null key (insert_or_assign key (given s.heap ev) s.ev_table)
          ≡ some (given s.heap ev) =
        m.find-insert key key (given s.heap ev) s.ev_table o.inv.valid ∙ rw (==_refl key) in
      rw e (ground (arith, put_given key ev s o found))

  given-Inv :
      (key : ℕ) (ev : EmbeddingValue) (s : Store V T)
      → Owned m zeros s
      → Inv m zeros (zeroed s.heap) (insert_or_assign key (given s.heap ev) s.ev_table) s.zero_val
  given-Inv key ev s o =
      write-Inv m zeros s.heap _ s.ev_table s.zero_val key (given s.heap ev) o.inv (
        fresh_row-Fits m zeros s.heap s.ev_table s.zero_val key (given s.heap ev) (some raw) _ o.inv
          refl)

  freed-Inv :
      (key : ℕ) (ev : EmbeddingValue) (s : Store V T)
      → Owned m zeros s
      → find_or_null key s.ev_table ≡ some ev
      → Inv m zeros
          (released m zeros ev (zeroed s.heap))
          (insert_or_assign key (given s.heap ev) s.ev_table)
          s.zero_val
  freed-Inv key ev s o found = elim (Bool-cases (ev.buf_owner && not (ev.embedding_val == null))) [
    | inl y ↦
        let own : ev.buf_owner ≡ true = ground arith in
        let nz : ev.embedding_val ≢ null = ground arith in
        let (vs, c) = o.inv.filled key ev found nz in
        let lt = lt_next s.heap o.inv.fresh c in
        let live : (zeroed s.heap).cell ev.embedding_val ≡ some (row vs) = ground arith in
        rw y (
          free-Inv m zeros (zeroed s.heap) _ s.zero_val ev.embedding_val (given-Inv key ev s o) live
            (o.inv.apart_zero key ev found own)
            (λ j d f. elim (Bool-cases (j == key)) [
              | inl same ↦
                  ground (arith, m.find-insert j key (given s.heap ev) s.ev_table o.inv.valid)
              | inr differ ↦
                  let f' : find_or_null j s.ev_table ≡ some d =
                    sym (
                      m.find-insert j key (given s.heap ev) s.ev_table o.inv.valid ∙ rw differ refl)
                    ∙ f in
                  λ q. o.inv.apart key j ev d (λ e. ground arith) found f' own nz (sym q)
            ]))
    | inr n ↦ rw n (given-Inv key ev s o)
  ]

  -- a key whose record is in the blacklist gets a buffer of its own with a row of zeros
  pub record Restored (key : ℕ) (ev : EmbeddingValue) (s s' : Store V T) : Type 0 where
    pub owned : Owned m zeros s'
    pub stored : find_or_null key s'.ev_table ≡ some (restored s.heap ev)
    pub holds : s'.heap.cell s.heap.next ≡ some (row zeros)
    pub keys : (q : ℕ) → q ≢ key → find_or_null q s'.ev_table ≡ find_or_null q s.ev_table
    pub rows :
        (j : ℕ) (d : EmbeddingValue)
        → j ≢ key
        → find_or_null j s.ev_table ≡ some d
        → d.embedding_val ≢ null
        → s'.heap.cell d.embedding_val ≡ s.heap.cell d.embedding_val

  pub with_restored-Restored :
      (key : ℕ) (ev : EmbeddingValue) (s : Store V T)
      → Owned m zeros s
      → find_or_null key s.ev_table ≡ some ev
      → Restored key ev s (with_restored key ev s)
  with_restored-Restored key ev s o found =
      let g = given s.heap ev in
      let e = restored s.heap ev in
      let t₁ = insert_or_assign key g s.ev_table in
      let h' = released m zeros ev (zeroed s.heap) in
      let inv₁ = freed-Inv key ev s o found in
      let found₁ : find_or_null key t₁ ≡ some g =
        m.find-insert key key g s.ev_table o.inv.valid ∙ rw (==_refl key) in
      let inv₂ : Inv m zeros h' (insert_or_assign key e t₁) s.zero_val =
        write-Inv m zeros h' h' t₁ s.zero_val key e inv₁ (
          same_buffer-Fits m zeros h' t₁ s.zero_val key g e inv₁ found₁ refl refl
            (λ b. omega (arith, o.inv.fresh.next_pos))) in
      let stored : find_or_null key (insert_or_assign key e t₁) ≡ some e =
        m.find-insert key key e t₁ inv₁.valid ∙ rw (==_refl key) in
      let keys : (q : ℕ)
          → q ≢ key
          → find_or_null q (insert_or_assign key e t₁) ≡ find_or_null q s.ev_table =
        λ q n. rw (
          m.find-insert q key e t₁ inv₁.valid,
          ==_ne n,
          m.find-insert q key g s.ev_table o.inv.valid,
          ==_ne n,
        ) in
      record {
        owned = write-Owned m zeros key e s _ o inv₂ keys stored (λ nz. refl);
        stored = stored;
        holds = ground (arith, below m zeros key ev s o.inv found);
        keys = keys;
        rows = λ j d n f nz. ground (
          arith,
          below m zeros j d s o.inv f nz,
          o.inv.apart key j ev d (λ q. n (sym q)) found f,
        );
      }
