-- ===== src/HashMap/MultiLevel/Tables.antt =====
-- The sub-tables of `MultiLevelHashMap` (hashmap.h) and its operations on keys. The sub-tables are
-- maps of any class that keeps the contract of `IMap`; `none` is the abort of `LOG(FATAL)`.
use mathlib.Core.Option.{some-injective}
use tfplus.Common.{
  ℕ, zero, suc, ◌+◌, ◌<◌, ◌≡◌, sym, subst, ap, ◌∙◌, ◌≢◌, inl, inr, Option, none, some, List, [],
  ◌∷◌, arith, ◌==◌, leb, if◌then◌else◌, length, get_elem?, set, Option-cases, Bool-cases,
  length-set, get_elem?-set_self, get_elem?-set_ne, get_elem?-lt, ==_refl, ==_iff, ==_ne,
}
use tfplus.Common.Int.{ℤ, pos, negsuc}
use tfplus.HashMap.{IMap}
use tfplus.HashMap.MultiLevel.Keys.{hi, lo, hi-lo_decode}

-- The test `id.hi >= tables_.size()` converts to an unsigned type: a negative part is too large.
unfoldable pub table_index : ℤ → ℕ → Option ℕ
table_index (pos n) size = if leb size n then none else some n
table_index (negsuc n) size = none

module _ {E T : Type 0} (m : IMap E T) where
  open m use {
    find_or_null as find_in, insert_or_assign as insert_in, erase as erase_in, size as size_of,
    IsValid, find-insert, find-erase,
  }

  -- `get_table(get_shard_id(key))`, as the index and the table
  unfoldable pub get_table : ℤ → List T → Option (ℕ × T)
  unfolding table_index
  get_table key tables = elim (table_index (hi key) (length tables)) [
    | none ↦ none
    | some i ↦ elim (get_elem? tables i) [ none ↦ none | some t ↦ some (i, t) ]
  ]

  unfoldable pub find_or_null : ℤ → List T → Option (Option E)
  unfolding get_table
  find_or_null key tables = elim (get_table key tables) [
    | none ↦ none
    | some (i, t) ↦ some (find_in (lo key) t)
  ]

  unfoldable pub insert_or_assign : ℤ → E → List T → Option (List T)
  unfolding get_table
  insert_or_assign key val tables = elim (get_table key tables) [
    | none ↦ none
    | some (i, t) ↦ some (set tables i (insert_in (lo key) val t))
  ]

  unfoldable pub erase : ℤ → List T → Option (List T)
  unfolding get_table
  erase key tables = elim (get_table key tables) [
    | none ↦ none
    | some (i, t) ↦ some (set tables i (erase_in (lo key) t))
  ]

  unfoldable pub size_unsafe : List T → ℕ
  size_unsafe [] = 0
  size_unsafe (t ∷ ts) = size_of t + size_unsafe ts

  abbrev pub AllValid : List T → Type 0
  AllValid [] = Unit {0}
  AllValid (t ∷ ts) = IsValid t × AllValid ts

  pub get_elem?-AllValid :
      (ts : List T) (i : ℕ) {t : T} → AllValid ts → get_elem? ts i ≡ some t → IsValid t
  get_elem?-AllValid [] i v e = cc
  get_elem?-AllValid (t ∷ ts) zero v e = subst IsValid (some-injective _ _ e) v.0
  get_elem?-AllValid (t ∷ ts) (suc i) v e = get_elem?-AllValid ts i v.1 e

-- An index stands for one high part, and is in range.
table_index_lem :
    (a b : ℤ) (size i : ℕ)
    → table_index a size ≡ some i
    → (i < size) × (table_index b size ≡ some i → b ≡ a)
unfolding table_index
table_index_lem (pos a) (pos b) size i h = ground arith
table_index_lem (pos a) (negsuc b) size i h = ground arith
table_index_lem (negsuc a) b size i h = cc

index_of_hi :
    (key : ℤ) (size n : ℕ) → hi key ≡ pos n → n < size → table_index (hi key) size ≡ some n
unfolding table_index
index_of_hi key size n e lt = rw e (ground arith)

module _ {E T : Type 0} (m : IMap E T) where
  open m use {
    find_or_null as find_in, insert_or_assign as insert_in, erase as erase_in, IsValid, find-insert,
    find-erase,
  }

  find-at :
      (q : ℤ) (ts : List T) (j : ℕ) (t : T)
      → table_index (hi q) (length ts) ≡ some j
      → get_elem? ts j ≡ some t
      → find_or_null m q ts ≡ some (find_in (lo q) t)
  unfolding find_or_null
  find-at q ts j t e f = ground arith

  insert-at :
      (q : ℤ) (e : E) (ts : List T) (j : ℕ) (t : T)
      → table_index (hi q) (length ts) ≡ some j
      → get_elem? ts j ≡ some t
      → insert_or_assign m q e ts ≡ some (set ts j (insert_in (lo q) e t))
  unfolding insert_or_assign
  insert-at q v ts j t e f = ground arith

  module _ (key : ℤ) (val : E) (ts : List T) (n : ℕ) (t : T)
      (here : table_index (hi key) (length ts) ≡ some n) (at : get_elem? ts n ≡ some t)
      (valid : IsValid t) where
    written : T
    written = insert_in (lo key) val t

    find_self : find_or_null m key (set ts n written) ≡ some (some val)
    unfolding written
    find_self =
        find-at key (set ts n written) n written (rw (length-set ts n written) here)
          (get_elem?-set_self ts n written (table_index_lem (hi key) (hi key) (length ts) n here).0)
        ∙ rw (find-insert (lo key) (lo key) val t valid, ==_refl)

    -- by the sub-table that the other key stands in
    find_other :
        (other : ℤ) (j : ℕ) (u : T)
        → other ≢ key
        → table_index (hi other) (length ts) ≡ some j
        → get_elem? ts j ≡ some u
        → find_or_null m other (set ts n written) ≡ some (find_in (lo other) u)
    unfolding written
    find_other other j u ne there at' = elim (Bool-cases (n == j)) [
      | inl same ↦
          let e : n ≡ j = (==_iff n j).0 same in
          let high =
            (table_index_lem (hi key) (hi other) (length ts) n here).1 (there ∙ ap some (sym e)) in
          let low : lo other ≢ lo key = λ l. ne ((hi-lo_decode other key).2 high l) in
          find-at other (set ts n written) n written
            (rw (length-set ts n written) (there ∙ ap some (sym e)))
            (get_elem?-set_self ts n written
              (table_index_lem (hi key) (hi key) (length ts) n here).0)
          ∙ rw (find-insert (lo other) (lo key) val t valid, ==_ne low)
              (ap (λ v. some (find_in (lo other) v)) (some-injective _ _ (sym at ∙ rw e at')))
      | inr apart ↦
          find-at other (set ts n written) j u (rw (length-set ts n written) there)
            (get_elem?-set_ne ts n j written (ground arith) ∙ at')
    ]

    find_outside :
        (other : ℤ)
        → table_index (hi other) (length ts) ≡ none
        → find_or_null m other (set ts n written) ≡ find_or_null m other ts
    unfolding find_or_null
    find_outside other e =
        let e' : table_index (hi other) (length (set ts n written)) ≡ none =
          rw (length-set ts n written) e in
        ground arith

  -- An insertion of a key whose high part names a sub-table succeeds; the key is found with its
  -- value afterwards, and every other key, in the same sub-table or in another, is as it was.
  pub find-insert_lem :
      (key : ℤ) (val : E) (ts : List T) (n : ℕ)
      → AllValid m ts
      → hi key ≡ pos n
      → n < length ts
      → (ts' : List T) × (insert_or_assign m key val ts ≡ some ts')
        × (find_or_null m key ts' ≡ some (some val))
        × ((other : ℤ) → other ≢ key → find_or_null m other ts' ≡ find_or_null m other ts)
  unfolding written
  find-insert_lem key val ts n v e lt =
      let (t, at) = get_elem?-lt ts n lt in
      let here = index_of_hi key (length ts) n e lt in
      let valid = get_elem?-AllValid m ts n v at in
      (
        set ts n (insert_in (lo key) val t),
        insert-at key val ts n t here at,
        find_self key val ts n t here at valid,
        λ other ne. elim (Option-cases (table_index (hi other) (length ts))) [
          | inl out ↦ find_outside key val ts n t here at valid other out
          | inr (j, there) ↦
              let (u, at') =
                get_elem?-lt ts j (table_index_lem (hi other) (hi other) (length ts) j there).0 in
              find_other key val ts n t here at valid other j u ne there at'
              ∙ sym (find-at other ts j u there at')
        ],
      )
