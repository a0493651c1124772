-- ===== src/Table/Removal.antt =====
-- What `DeleteKey` and `MarkBlacklistUnsafe` of table_manager.h do to the records and the buffers.
use tfplus.Common.{
  ℕ, ◌+◌, ◌-◌, ◌%◌, ◌≡◌, refl, sym, ◌∙◌, ◌≢◌, true, false, Option, none, some, List, arith, ◌==◌,
  if◌then◌else◌, ==_ne, ==_refl, Option-cases, Bool-cases, inl, inr,
}
use tfplus.Memory.{Ptr, null}
use tfplus.HashMap.{IMap}
use tfplus.Embedding.Context.{EvContext, entry, init_value}
use tfplus.Embedding.Value.{
  EmbeddingValue, new_value, mem_storage, delete_value, destroy, release, mark_blacklist,
  set_under_threshold,
}
use tfplus.Table.{Store}
use tfplus.Table.Storage.{size_mod, evict}
use tfplus.Table.Blacklist.{mark_blacklist_unsafe, delete_key, erase_unsafe}
use tfplus.Table.Ownership.{Inv, Fits, write-Inv, same_value-Fits}
use tfplus.Table.Release.{released-others, released, release-released, released-Fits, erase-Inv}

-- a record without its value
abbrev pub emptied : EmbeddingValue → EmbeddingValue
emptied ev = record ev { buf_owner = false; embedding_val = null }

module _ {V T : Type 0} (m : IMap EmbeddingValue T) (zeros : List V) where
  open m use {find_or_null, insert_or_assign, erase}

  abbrev pub evicted : ℕ → EmbeddingValue → Store V T → Store V T
  evicted key ev s = record s {
    heap = released m zeros ev s.heap;
    ev_table = insert_or_assign key (emptied ev) s.ev_table;
    storage_size = (s.storage_size + size_mod - 1) % size_mod;
  }

  pub evict_lem :
      (key : ℕ) (ev : EmbeddingValue) (s : Store V T)
      → Inv m zeros s.heap s.ev_table s.zero_val
      → find_or_null key s.ev_table ≡ some ev
      → evict m key s ≡ some (tt, evicted key ev s)
  unfolding evict delete_value
  evict_lem key ev s inv found =
      ground (arith, release-released m zeros s.heap s.ev_table s.zero_val key ev inv found)

  erase_emptied :
      (key : ℕ) (ev : EmbeddingValue) (s : Store V T)
      → find_or_null key s.ev_table ≡ some ev
      → ev.buf_owner ≡ false
      → erase_unsafe m key s ≡ some (tt, record s { ev_table = erase key s.ev_table })
  unfolding erase_unsafe destroy release
  erase_emptied key ev s found own = ground arith

  -- the table after the record `ev` of a key has been deleted
  pub record Deleted (key : ℕ) (ev : EmbeddingValue) (s s' : Store V T) : Type 0 where
    pub inv : Inv m zeros s'.heap s'.ev_table s'.zero_val
    pub reads :
        (q : ℕ)
        → find_or_null q s'.ev_table ≡ (if q == key then none else find_or_null q s.ev_table)
    pub freed : ev.buf_owner ≡ true → ev.embedding_val ≢ null → s'.heap.cell ev.embedding_val ≡ none
    pub rows :
        (p : Ptr) → (ev.buf_owner ≡ true → p ≢ ev.embedding_val) → s'.heap.cell p ≡ s.heap.cell p
    pub size : s'.storage_size ≡ (s.storage_size + size_mod - 1) % size_mod

  -- On a table whose ownership holds, the deletion of a key with a record frees the record's own
  -- buffer and nothing else, leaves every other record, lowers the storage size by one and keeps the
  -- ownership; without a record it changes nothing.
  pub delete_key_lem :
      (key : ℕ) (s : Store V T)
      → Inv m zeros s.heap s.ev_table s.zero_val
      → (find_or_null key s.ev_table ≡ none → delete_key m key s ≡ some (tt, s))
        × ((ev : EmbeddingValue)
            → find_or_null key s.ev_table ≡ some ev
            → (s' : Store V T) × (delete_key m key s ≡ some (tt, s')) × Deleted key ev s s')
  unfolding delete_key
  delete_key_lem key s inv = (
    λ absent. ground arith,
    λ ev found.
        let s₁ = evicted key ev s in
        let there : find_or_null key s₁.ev_table ≡ some (emptied ev) =
          m.find-insert key key (emptied ev) s.ev_table inv.valid ∙ rw (==_refl key) in
        let valid₁ = m.insert-IsValid key (emptied ev) s.ev_table inv.valid in
        let reads : (q : ℕ)
            → find_or_null q (erase key s₁.ev_table)
              ≡ (if q == key then none else find_or_null q s.ev_table) =
          λ q. ground (
            arith,
            m.find-erase q key s₁.ev_table valid₁,
            m.find-insert q key (emptied ev) s.ev_table inv.valid,
          ) in
        (
          record s₁ { ev_table = erase key s₁.ev_table },
          ground
              (arith, evict_lem key ev s inv found, erase_emptied key (emptied ev) s₁ there refl),
          record {
            inv =
                erase-Inv m zeros s.heap s.ev_table s.zero_val key ev inv found
                  (erase key s₁.ev_table) (m.erase-IsValid key s₁.ev_table valid₁) reads;
            reads = reads;
            freed = λ o nz. ground arith;
            rows = λ p ne. ground arith;
            size = refl;
          },
        ),
  )

  -- the record of a key after it has been marked; `found` is its record before
  abbrev pub blacklisted : Option EmbeddingValue → EmbeddingValue
  blacklisted found = elim found [
    | none ↦ new_value null true 1 false mem_storage
    | some ev ↦
        if ev.in_black then ev else record (emptied ev) { in_black = true; under_threshold = true }
  ]

  pub empty-Fits :
      (key : ℕ) (e : EmbeddingValue) (s : Store V T)
      → Inv m zeros s.heap s.ev_table s.zero_val
      → e.embedding_val ≡ null
      → e.buf_owner ≡ false
      → e.in_black ≡ true
      → Fits m zeros s.heap s.heap s.ev_table s.zero_val key e
  empty-Fits key e s inv v o b = record {
    fresh = inv.fresh;
    zero = inv.zero;
    others = λ j d n f nz. refl;
    filled = λ nz. absurd (nz v);
    visible = λ b'. cc;
    apart_zero = λ o'. cc;
    apart = λ j d n f own nz. absurd (nz v);
  }

  -- the table after a key has been marked
  pub record Marked (key : ℕ) (s s' : Store V T) : Type 0 where
    pub inv : Inv m zeros s'.heap s'.ev_table s'.zero_val
    pub stored : find_or_null key s'.ev_table ≡ some (blacklisted (find_or_null key s.ev_table))
    pub keys : (q : ℕ) → q ≢ key → find_or_null q s'.ev_table ≡ find_or_null q s.ev_table
    pub freed :
        (ev : EmbeddingValue)
        → find_or_null key s.ev_table ≡ some ev
        → ev.in_black ≡ false
        → ev.buf_owner ≡ true
        → s'.heap.cell ev.embedding_val ≡ none
    pub rows :
        (j : ℕ) (d : EmbeddingValue)
        → j ≢ key
        → find_or_null j s.ev_table ≡ some d
        → s'.heap.cell d.embedding_val ≡ s.heap.cell d.embedding_val

  mark_absent :
      (key : ℕ) (s : Store V T)
      → Inv m zeros s.heap s.ev_table s.zero_val
      → find_or_null key s.ev_table ≡ none
      → (s' : Store V T) × (mark_blacklist_unsafe m key none s ≡ some (none, s')) × Marked key s s'
  unfolding mark_blacklist_unsafe
  mark_absent key s inv absent =
      let e = new_value null true 1 false mem_storage in
      (
        record s { ev_table = insert_or_assign key e s.ev_table },
        ground arith,
        record {
          inv =
              write-Inv m zeros s.heap s.heap s.ev_table s.zero_val key e inv
                (empty-Fits key e s inv refl refl refl);
          stored = rw (m.find-insert key key e s.ev_table inv.valid, ==_refl, absent);
          keys = λ q n. rw (m.find-insert q key e s.ev_table inv.valid, ==_ne n);
          freed = λ ev f. cc;
          rows = λ j d n f. refl;
        },
      )

  mark_black :
      (key : ℕ) (ev : EmbeddingValue) (s : Store V T)
      → Inv m zeros s.heap s.ev_table s.zero_val
      → find_or_null key s.ev_table ≡ some ev
      → ev.in_black ≡ true
      → (s' : Store V T) × (mark_blacklist_unsafe m key none s ≡ some (none, s')) × Marked key s s'
  unfolding mark_blacklist_unsafe
  mark_black key ev s inv found black = (
    s,
    ground arith,
    record {
      inv = inv;
      stored = found ∙ sym (rw (found, black));
      keys = λ q n. refl;
      freed = λ e f. ground arith;
      rows = λ j d n f. refl;
    },
  )

  -- A context that points at the record of the key and owns nothing, or none.
  abbrev pub Points : ℕ → Option EvContext → Type 0
  Points key none = Unit
  Points key (some c) = (c.meta ≡ some (entry key)) × (c.buf_owner ≡ false)

  -- the context after the call shows the zero row
  abbrev pub pointed : Ptr → Option EvContext → Option EvContext
  pointed zero_val none = none
  pointed zero_val (some c) = some (record c { val = zero_val })

  abbrev flagged : EmbeddingValue → EmbeddingValue
  flagged ev = record ev { in_black = true; under_threshold = true }

  abbrev with_flagged : ℕ → EmbeddingValue → Store V T → Store V T
  with_flagged key ev s = record s { ev_table = insert_or_assign key (flagged ev) s.ev_table }

  mark_shown_run :
      (key : ℕ) (ev : EmbeddingValue) (context : Option EvContext) (s : Store V T)
      → Points key context
      → find_or_null key s.ev_table ≡ some ev
      → ev.in_black ≡ false
      → evict m key (with_flagged key ev s)
        ≡ some (tt, evicted key (flagged ev) (with_flagged key ev s))
      → mark_blacklist_unsafe m key context s
        ≡ some (pointed s.zero_val context, evicted key (flagged ev) (with_flagged key ev s))
  unfolding mark_blacklist_unsafe mark_blacklist set_under_threshold init_value
  mark_shown_run key ev none s at found shown run = ground arith
  mark_shown_run key ev (some c) s at found shown run = ground arith

  pub mark_shown :
      (key : ℕ) (ev : EmbeddingValue) (context : Option EvContext) (s : Store V T)
      → Inv m zeros s.heap s.ev_table s.zero_val
      → Points key context
      → find_or_null key s.ev_table ≡ some ev
      → ev.in_black ≡ false
      → (s' : Store V T) × (mark_blacklist_unsafe m key context s
          ≡ some (pointed s.zero_val context, s'))
        × Marked key s s'
  mark_shown key ev context s inv at found shown =
      let e₁ : EmbeddingValue = record ev { in_black = true; under_threshold = true } in
      let s₁ : Store V T = record s { ev_table = insert_or_assign key e₁ s.ev_table } in
      let inv₁ = write-Inv m zeros s.heap s.heap s.ev_table s.zero_val key e₁ inv (
        same_value-Fits m zeros s.heap s.ev_table s.zero_val key ev e₁ inv found refl refl
          (λ b. cc)) in
      let found₁ : find_or_null key s₁.ev_table ≡ some e₁ =
        m.find-insert key key e₁ s.ev_table inv.valid ∙ rw (==_refl key) in
      (
        evicted key e₁ s₁,
        mark_shown_run key ev context s at found shown (evict_lem key e₁ s₁ inv₁ found₁),
        record {
          inv =
              write-Inv m zeros s.heap (released m zeros e₁ s.heap) s₁.ev_table s.zero_val key
                (emptied e₁) inv₁
                (released-Fits m zeros s.heap s₁.ev_table s.zero_val key e₁ inv₁ found₁ (emptied e₁)
                  refl refl refl);
          stored =
              rw (m.find-insert key key (emptied e₁) s₁.ev_table inv₁.valid, ==_refl, found, shown);
          keys = λ q n. rw (
            m.find-insert q key (emptied e₁) s₁.ev_table inv₁.valid,
            ==_ne n,
            m.find-insert q key e₁ s.ev_table inv.valid,
            ==_ne n,
          );
          freed = λ e f b o. ground (arith, inv.visible key ev found);
          rows = λ j d n f.
              released-others m zeros s.heap s.ev_table s.zero_val key ev inv found j d n f;
        },
      )

  -- On a table whose ownership holds, marking a key puts its record in the blacklist: a new one with
  -- no value and the flag low, or its own, whose buffer is freed and whose flag is raised; a key in
  -- the blacklist keeps its record. No other record changes and the ownership is kept.
  pub mark_blacklist_lem :
      (key : ℕ) (s : Store V T)
      → Inv m zeros s.heap s.ev_table s.zero_val
      → (s' : Store V T) × (mark_blacklist_unsafe m key none s ≡ some (none, s')) × Marked key s s'
  mark_blacklist_lem key s inv = elim (Option-cases (find_or_null key s.ev_table)) [
    | inl absent ↦ mark_absent key s inv absent
    | inr (ev, found) ↦ elim (Bool-cases ev.in_black) [
      | inl black ↦ mark_black key ev s inv found black
      | inr shown ↦ mark_shown key ev none s inv tt found shown
    ]
  ]
