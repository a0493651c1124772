-- ===== src/Variable/Import/Restored.antt =====
-- An import into a new variable (dynamic_restore.hpp).
use tfplus.Common.{ℕ, ◌≡◌, ◌≢◌, refl, ap, ◌∙◌, Bool, Option, none, some, List, [], ◌∷◌, arith}
use tfplus.Memory.{Ptr, null}
use tfplus.HashMap.{IMap}
use tfplus.HashMap.Bucket.{lookup, IsDistinct}
use tfplus.Embedding.Value.{EmbeddingValue}
use tfplus.Table.{Store}
use tfplus.Table.Blacklist.{clear_all}
use tfplus.Variable.{Floats}
use tfplus.Variable.Import.{
  Imported, is_last, import_keys, import_blacklist, import_frequencies, import_values,
}
use tfplus.Variable.Import.Keys.{
  keys_of, rows_of, after_import, import_keys_all, cleared, find-clear,
}

module _ {V T : Type 0} (m : IMap EmbeddingValue T) (floats : Floats V) where
  open m use {find_or_null, entries}

  -- what the import leaves outside the table
  abbrev pub imported_outside : List (List V) → Option Bool → Imported V → Imported V
  imported_outside init others_6 before = record {
    random_init_table = elim init [ [] ↦ before.random_init_table | t ∷ ts ↦ t ∷ ts ];
    random_init_table_set = is_last others_6 before.random_init_table_set;
    prediction_deltalist = [];
  }

  import_run :
      (keys : List ℕ) (values : List Ptr) (init : List (List V)) (others_6 : Option Bool)
      (before : Imported V) (s s₁ s₂ : Store V T)
      → clear_all m s ≡ some (tt, s₁)
      → import_keys m floats keys values s₁ ≡ some (tt, s₂)
      → import_values m floats keys values init [] [] others_6 before s
        ≡ some (imported_outside init others_6 before, record s₂ { train_deltalist = [] })
  unfolding import_values import_blacklist import_frequencies
  import_run keys values init others_6 before s s₁ s₂ a b = ground (arith, a, b)

  pub import_values_all :
      (pairs : List (ℕ × Ptr)) (init : List (List V)) (others_6 : Option Bool) (before : Imported V)
      (s : Store V T)
      → m.IsValid s.ev_table
      → entries s.ev_table ≡ []
      → IsDistinct pairs
      → ((k : ℕ) (q : Ptr) → lookup k pairs ≡ some q → q ≢ null)
      → (s' : Store V T) × (import_values m floats
            (keys_of m floats pairs)
            (rows_of m floats pairs)
            init
            []
            []
            others_6
            before
            s
          ≡ some (imported_outside init others_6 before, s'))
        × (s'.heap ≡ s.heap)
        × (s'.train_deltalist ≡ [])
        × ((q : ℕ) → find_or_null q s'.ev_table ≡ after_import m floats (lookup q pairs) none)
  import_values_all pairs init others_6 before s valid empty distinct nz =
      let none_left = λ (q : ℕ). find-clear m floats s.ev_table q valid in
      let s₁ : Store V T = record s { ev_table = m.clear s.ev_table } in
      let (s₂, run, holds) =
        import_keys_all m floats pairs s₁ (m.clear-IsValid s.ev_table valid) distinct
          (λ k q e. (nz k q e, none_left k)) in
      (
        record s₂ { train_deltalist = [] },
        import_run (keys_of m floats pairs) (rows_of m floats pairs) init others_6 before s s₁ s₂
            (cleared m floats s empty) run,
        holds.heap_same,
        refl,
        λ q. holds.found q ∙ ap (after_import m floats (lookup q pairs)) (none_left q),
      )
