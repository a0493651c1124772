-- ===== src/Variable/Unsafe/Handed.antt =====
-- What `FindOrInsertUnsafe` of kv_variable.h hands to a training operation, and that of a new key.
use tfplus.Common.{
  ℕ, ◌≡◌, refl, ◌≢◌, ◌∙◌, Bool, true, false, ◌&&◌, Bool-cases, Option, none, some, List, arith,
  ==_ne, ==_refl,
}
use tfplus.Memory.{null, row}
use tfplus.HashMap.{IMap}
use tfplus.Embedding.Value.{EmbeddingValue}
use tfplus.Embedding.Context.{entry, EvContext, empty_context}
use tfplus.Table.{Store}
use tfplus.Table.Owned.{Owned, write-Owned, below}
use tfplus.Variable.{Floats, Config, has_low_frequency}
use tfplus.Variable.Unsafe.{Draw, find_or_insert_unsafe}
use tfplus.Variable.Unsafe.Insert.{
  Drawn, drawn_row, drawn_record, with_drawn_key, find_or_insert_unsafe_new, with_drawn_key-Inv,
}

-- a key that has a record already, of a frequency below the threshold
abbrev pub rare : (enter_threshold : ℕ) → Option EmbeddingValue → Bool
rare enter_threshold none = false
rare enter_threshold (some e) = has_low_frequency enter_threshold e.freq_val

module _ {V T : Type 0} (m : IMap EmbeddingValue T) (floats : Floats V) (config : Config V) where
  open m use {find_or_null, insert_or_assign}

  -- The context that a call hands out, `filter` being `*filter_out`: it borrows the value of the
  -- key's record, or the zero row of a record in the blacklist, which holds a row.
  pub record Handed (forward : Bool) (key : ℕ) (c : EvContext) (filter : Bool) (s s' : Store V T)
      : Type 0 where
    pub owned : Owned m floats.zeros s'
    pub at : c.meta ≡ some (entry key)
    pub borrowed : c.buf_owner ≡ false
    pub ev : EmbeddingValue
    pub stored : find_or_null key s'.ev_table ≡ some ev
    pub shows : ev.in_black ≡ false → c.val ≡ ev.embedding_val
    pub vs : List V
    pub holds : s'.heap.cell c.val ≡ some (row vs)
    pub trained : forward ≡ true → filter ≡ false → ev.in_black ≡ false
    pub filtered :
        filter ≡ true
        → (forward ≡ true) × (has_low_frequency config.enter_threshold ev.freq_val ≡ true)
    pub decided : filter ≡ (forward && rare config.enter_threshold (find_or_null key s.ev_table))
    pub visible :
        ((e : EmbeddingValue) → find_or_null key s.ev_table ≡ some e → e.in_black ≡ false)
        → ev.in_black ≡ false
    pub same :
        (e : EmbeddingValue) (us : List V)
        → find_or_null key s.ev_table ≡ some e
        → e.in_black ≡ false
        → s.heap.cell e.embedding_val ≡ some (row us)
        → vs ≡ us
    pub keys : (q : ℕ) → q ≢ key → find_or_null q s'.ev_table ≡ find_or_null q s.ev_table
    pub rows :
        (j : ℕ) (d : EmbeddingValue)
        → j ≢ key
        → find_or_null j s.ev_table ≡ some d
        → d.embedding_val ≢ null
        → s'.heap.cell d.embedding_val ≡ s.heap.cell d.embedding_val

  abbrev pub Hands : Bool → Draw → ℕ → Store V T → Type 0
  Hands forward draw key s =
      (c : EvContext) × (filter : Bool) × (s' : Store V T) × (find_or_insert_unsafe m floats config
          forward draw key empty_context s
        ≡ some ((c, filter), s'))
      × Handed forward key c filter s s'

  pub new_key :
      (forward : Bool) (draw : Draw) (t₁ t₂ : List V) (key : ℕ) (s : Store V T)
      → Owned m floats.zeros s
      → Drawn config draw t₁ t₂
      → find_or_null key s.ev_table ≡ none
      → Hands forward draw key s
  new_key forward draw t₁ t₂ key s o d absent =
      let e = drawn_record m floats config draw t₁ t₂ s.heap in
      let s' = with_drawn_key m floats config draw t₁ t₂ key s in
      let stored : find_or_null key s'.ev_table ≡ some e =
        m.find-insert key key e s.ev_table o.inv.valid ∙ rw (==_refl key) in
      let keys : (q : ℕ) → q ≢ key → find_or_null q s'.ev_table ≡ find_or_null q s.ev_table =
        λ q n. rw (m.find-insert q key e s.ev_table o.inv.valid, ==_ne n) in
      (
        record empty_context { val = s.heap.next; meta = some (entry key) },
        false,
        s',
        find_or_insert_unsafe_new m floats config draw t₁ t₂ forward key s absent
            o.inv.fresh.next_pos d,
        record {
          owned =
              write-Owned m floats.zeros key e s s' o
                (with_drawn_key-Inv m floats config draw t₁ t₂ key s o.inv) keys stored
                (λ nz. refl);
          at = refl;
          borrowed = refl;
          ev = e;
          stored = stored;
          shows = λ b. refl;
          vs = drawn_row m floats config draw t₁ t₂;
          holds = ground arith;
          trained = λ a b. refl;
          filtered = λ a. cc;
          decided = ground (arith, absent, Bool-cases forward);
          visible = λ v. refl;
          same = λ e' us f b c. ground (arith, absent);
          keys = keys;
          rows = λ j d n f nz. ground (arith, below m floats.zeros j d s o.inv f nz);
        },
      )
