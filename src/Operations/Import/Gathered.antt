-- ===== src/Operations/Import/Gathered.antt =====
-- An import by KvVariableImportOp and the lookups of KvVariableGatherOrZerosOp after it
-- (kv_variable_ops.cc).
use tfplus.Common.{
  ℕ, ◌≤◌, ◌≡◌, ◌≢◌, refl, sym, subst, ap, ◌∙◌, true, none, some, Option, List, [], ◌∷◌, arith, ◌==◌,
  ==_iff, Bool-cases, inl, inr,
}
use tfplus.Memory.{Ptr, null, row, Heap}
use tfplus.HashMap.{IMap}
use tfplus.HashMap.Bucket.{lookup, IsDistinct}
use tfplus.Embedding.Value.{EmbeddingValue}
use tfplus.Table.{Store}
use tfplus.Variable.{Floats}
use tfplus.Variable.Lookup.Hits.{counted}
use tfplus.Variable.Import.{Imported, is_last, import_values}
use tfplus.Variable.Import.Keys.{imported, keys_of, rows_of, after_import, find_shown}
use tfplus.Variable.Import.Restored.{imported_outside, import_values_all}
use tfplus.Operations.Gather.{find_or_zeros, gather_or_zeros}
use tfplus.Operations.Import.{Inputs, import_others, pass_import, import_op}

module _ {V T : Type 0} (m : IMap EmbeddingValue T) (floats : Floats V) where
  open m use {find_or_null, entries}

  -- the rows of the tensor, by their addresses
  abbrev pub Loaded : Heap V → List (ℕ × Ptr) → List (List V) → Type 0
  Loaded h [] [] = Unit {0}
  Loaded h ((key, p) ∷ pairs) (vs ∷ vss) =
      (p ≢ null) × (h.cell p ≡ some (row vs)) × Loaded h pairs vss
  Loaded h _ _ = ⊥

  -- each of the pairs asked for is found in all of them
  abbrev Looked : (all asked : List (ℕ × Ptr)) → Type 0
  Looked all [] = Unit {0}
  Looked all ((key, p) ∷ asked) = (lookup key all ≡ some p) × Looked all asked

  Looked-more :
      (key : ℕ) (p : Ptr) (all asked : List (ℕ × Ptr))
      → lookup key all ≡ none
      → Looked all asked
      → Looked ((key, p) ∷ all) asked
  Looked-more key p all [] once h = tt
  Looked-more key p all ((k, q) ∷ asked) once (here, h) =
      (ground (arith, once, here), Looked-more key p all asked once h)

  Looked-all : (pairs : List (ℕ × Ptr)) → IsDistinct pairs → Looked pairs pairs
  Looked-all [] distinct = tt
  Looked-all ((key, p) ∷ pairs) (once, distinct) = (
    ground (arith, (==_iff key key).1),
    Looked-more key p pairs pairs once (Looked-all pairs distinct),
  )

  abbrev pub found_rows : List (List V) → List (Option (List V))
  found_rows [] = []
  found_rows (vs ∷ vss) = some vs ∷ found_rows vss

  find_all :
      (all asked : List (ℕ × Ptr)) (vss : List (List V)) (s : Store V T)
      → ((q : ℕ) → find_or_null q s.ev_table ≡ after_import m floats (lookup q all) none)
      → Looked all asked
      → Loaded s.heap asked vss
      → (s' : Store V T) × (find_or_zeros m floats (keys_of m floats asked) s
          ≡ some (found_rows vss, s'))
  unfolding find_or_zeros
  find_all all [] [] s found looked loaded = (s, refl)
  find_all all [] (vs ∷ vss) s found looked loaded = elim loaded [ ]
  find_all all ((key, p) ∷ asked) [] s found looked loaded = elim loaded [ ]
  find_all all ((key, p) ∷ asked) (vs ∷ vss) s found (here, looked) (nz, cell, loaded) =
      let shows =
        find_shown m floats key p vs s (found key ∙ ap (λ x. after_import m floats x none) here) nz
          cell in
      let (s', run) = find_all all asked vss (counted m (imported p) s) found looked loaded in
      (s', ground (arith, shows, run))

  none_null :
      (h : Heap V) (pairs : List (ℕ × Ptr)) (vss : List (List V))
      → Loaded h pairs vss
      → (k : ℕ) (q : Ptr) → lookup k pairs ≡ some q
      → q ≢ null
  none_null h [] [] loaded k q e = cc
  none_null h [] (vs ∷ vss) loaded k q e = elim loaded [ ]
  none_null h ((key, p) ∷ pairs) [] loaded k q e = elim loaded [ ]
  none_null h ((key, p) ∷ pairs) (vs ∷ vss) (nz, cell, loaded) k q e =
      elim (Bool-cases (key == k)) [
        | inl same ↦ ground (arith, same, e, nz)
        | inr differ ↦ none_null h pairs vss loaded k q (ground (arith, differ, e))
      ]

  few_others :
      (ins : Inputs V) (first_n : ℕ) (keys : List ℕ) (values : List Ptr) (before : Imported V)
      → first_n ≤ 3
      → import_op m floats ins first_n keys values before
        ≡ import_values m floats keys values (ins.rows_at 3) [] [] none before
  unfolding import_op pass_import import_others
  few_others ins first_n keys values before h = ground arith

  gather_all :
      (pairs : List (ℕ × Ptr)) (vss : List (List V)) (s s' : Store V T)
      → find_or_zeros m floats (keys_of m floats pairs) s ≡ some (found_rows vss, s')
      → gather_or_zeros m floats (keys_of m floats pairs) s ≡ some (found_rows vss, s')
  unfolding gather_or_zeros find_or_zeros
  gather_all [] vss s s' e = e
  gather_all ((key, p) ∷ pairs) vss s s' e = ground (arith, e)

  -- KvVariableImportOp, for at most three outputs of an export, of different keys and their rows into a
  -- variable that has no records, ends, and KvVariableGatherOrZerosOp of these keys then gives their
  -- rows, in their order. The variable has the records of no other keys, its lists of changed keys
  -- are empty, and it is initialized.
  pub import_gather_lem :
      (ins : Inputs V) (first_n : ℕ) (pairs : List (ℕ × Ptr)) (vss : List (List V))
      (before : Imported V) (s : Store V T)
      → first_n ≤ 3
      → m.IsValid s.ev_table
      → entries s.ev_table ≡ []
      → IsDistinct pairs
      → Loaded s.heap pairs vss
      → (s' s'' : Store V T) × (import_op m floats ins first_n
            (keys_of m floats pairs)
            (rows_of m floats pairs)
            before
            s
          ≡ some (
            record (imported_outside m floats (ins.rows_at 3) none before) {
              random_init_table_set = true;
            },
            s',
          ))
        × (gather_or_zeros m floats (keys_of m floats pairs) s' ≡ some (found_rows vss, s''))
        × (s'.train_deltalist ≡ [])
        × ((q : ℕ) → find_or_null q s'.ev_table ≡ after_import m floats (lookup q pairs) none)
  unfolding gather_or_zeros is_last
  import_gather_lem ins first_n pairs vss before s few valid empty distinct loaded =
      let (s', run, heap, list, found) =
        import_values_all m floats pairs (ins.rows_at 3) none before s valid empty distinct
          (none_null s.heap pairs vss loaded) in
      let (s'', gathered) =
        find_all pairs pairs vss s' found (Looked-all pairs distinct)
          (subst (λ h. Loaded h pairs vss) (sym heap) loaded) in
      (
        s',
        s'',
        ap (λ f. f s)
              (few_others ins first_n (keys_of m floats pairs) (rows_of m floats pairs) before few)
            ∙ run,
        gather_all pairs vss s' s'' gathered,
        list,
        found,
      )
