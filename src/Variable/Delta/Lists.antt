-- ===== src/Variable/Delta/Lists.antt =====
-- How `DeltaExport` (dynamic_save.hpp) sorts the changed keys.
use tfplus.Common.{
  ℕ, ◌≡◌, refl, ap, ◌∙◌, Bool, true, false, Option, none, some, List, [], ◌∷◌, ◌++◌, arith, ◌==◌,
  ◌&&◌, ◌||◌, if◌then◌else◌, ==_iff, Bool-cases, inl, inr, ltb,
}
use tfplus.HashMap.{IMap}
use tfplus.Embedding.Value.{EmbeddingValue}
use tfplus.Variable.{has_low_frequency}
use tfplus.Variable.Delta.{DeltaLists, push_key, classify, move_black_list}

abbrev pub member : ℕ → List ℕ → Bool
member q [] = false
member q (k ∷ ks) = (k == q) || member q ks

member-append : (q : ℕ) (xs ys : List ℕ) → member q (xs ++ ys) ≡ (member q xs || member q ys)
member-append q [] ys = refl
member-append q (k ∷ xs) ys = ground (arith, member-append q xs ys)

-- what a delta export does with a key, by its record
pub data Fate : Type 0 where
  updated blacklisted deleted ignored : Fate

abbrev pub fate : (enter_threshold first_n : ℕ) → Option EmbeddingValue → Fate
fate thr n found = elim found [
  | none ↦ deleted
  | some v ↦
      if has_low_frequency thr v.freq_val
      then ignored
      else if v.in_black
      then (if ltb 3 n then blacklisted else deleted)
      else updated
]

abbrev pub is_updated : Fate → Bool
is_updated updated = true
is_updated _ = false

abbrev pub is_blacklisted : Fate → Bool
is_blacklisted blacklisted = true
is_blacklisted _ = false

abbrev pub is_deleted : Fate → Bool
is_deleted deleted = true
is_deleted _ = false

push_key_lem :
    (thr q k : ℕ) (found : Option EmbeddingValue) (rest : DeltaLists)
    → (member q (push_key thr found k rest).update_list
        ≡ ((k == q) && is_updated (fate thr 4 found) || member q rest.update_list))
      × (member q (push_key thr found k rest).black_list
          ≡ ((k == q) && is_blacklisted (fate thr 4 found) || member q rest.black_list))
      × (member q (push_key thr found k rest).delete_list
          ≡ ((k == q) && is_deleted (fate thr 4 found) || member q rest.delete_list))
unfolding push_key
push_key_lem thr q k none rest = (ground arith, ground arith, ground arith)
push_key_lem thr q k (some v) rest = elim (Bool-cases (has_low_frequency thr v.freq_val)) [
  | inl low ↦ rw low (ground arith, ground arith, ground arith)
  | inr high ↦ elim (Bool-cases v.in_black) [
    | inl black ↦ rw (high, black) (ground arith, ground arith, ground arith)
    | inr shown ↦ rw (high, shown) (ground arith, ground arith, ground arith)
  ]
]

-- a test on what is at a key, over one more key
more_keys :
    {A : Type 0} (test : A → Bool) (at : ℕ → A) (q k : ℕ) (b : Bool)
    → ((k == q) && test (at k) || (b && test (at q))) ≡ (((k == q) || b) && test (at q))
more_keys test at q k b = elim (Bool-cases (k == q)) [
  | inl same ↦ ground (arith, ap test (ap at ((==_iff k q).0 same)))
  | inr differ ↦ rw differ refl
]

module _ {T : Type 0} (m : IMap EmbeddingValue T) (thr n : ℕ) (t : T) where
  open m use {find_or_null}

  abbrev pub of_key : ℕ → Fate
  of_key q = fate thr n (find_or_null q t)

  abbrev pub lists : List ℕ → DeltaLists
  lists keys = move_black_list n (classify m thr t keys)

  -- the three lists before the blacklist moves
  classify_lem :
      (q : ℕ) (keys : List ℕ)
      → (member q (classify m thr t keys).update_list
          ≡ (member q keys && is_updated (fate thr 4 (find_or_null q t))))
        × (member q (classify m thr t keys).black_list
            ≡ (member q keys && is_blacklisted (fate thr 4 (find_or_null q t))))
        × (member q (classify m thr t keys).delete_list
            ≡ (member q keys && is_deleted (fate thr 4 (find_or_null q t))))
  unfolding classify
  classify_lem q [] = (refl, refl, refl)
  classify_lem q (k ∷ keys) =
      let (updates, blacks, deletes) = classify_lem q keys in
      let step = push_key_lem thr q k (find_or_null k t) (classify m thr t keys) in
      let at : ℕ → Fate = λ j. fate thr 4 (find_or_null j t) in
      (
        step.0 ∙ rw updates (more_keys is_updated at q k (member q keys)),
        step.1 ∙ rw blacks (more_keys is_blacklisted at q k (member q keys)),
        step.2 ∙ rw deletes (more_keys is_deleted at q k (member q keys)),
      )

  -- A changed key is exported by exactly one of the lists, as its record says: with its row if it
  -- has a record of high enough frequency outside the blacklist, as blacklisted if that record
  -- is in it, and to be deleted if it has no record, or if it is blacklisted and no blacklist is
  -- wanted. A record of low frequency is passed over, and no other key is exported.
  pub delta_lists_lem :
      (q : ℕ) (keys : List ℕ)
      → (member q (lists keys).update_list ≡ (member q keys && is_updated (of_key q)))
        × (member q (lists keys).black_list ≡ (member q keys && is_blacklisted (of_key q)))
        × (member q (lists keys).delete_list ≡ (member q keys && is_deleted (of_key q)))
  unfolding move_black_list
  delta_lists_lem q keys =
      let (updates, blacks, deletes) = classify_lem q keys in
      let l = classify m thr t keys in
      (
        ground (arith, updates),
        ground (arith, blacks),
        ground (arith, blacks, deletes, member-append q l.delete_list l.black_list),
      )
