-- ===== src/Training/Rules/Shapes.antt =====
-- The rows that the rules of training_ops.cc write keep their length.
use tfplus.Common.{
  ℕ, suc, ◌≡◌, refl, sym, subst, ap, ◌∙◌, Bool, true, false, Bool-cases, inl, inr, none, some, List,
  [], ◌∷◌, arith, length, map, if◌then◌else◌,
}
use tfplus.Training.Scalars.{Scalars, zip, group_shrink, over, norm}
use tfplus.Training.Actions.{Action, assign}
use tfplus.Training.Rules.{Rates, group_actions, proximal}

module _ {V : Type 0} where
  -- `n` elements
  pub record IsRow (n : ℕ) (xs : List V) : Type 0 where
    pub is_row : length xs ≡ n

  zip-length :
      (f : V → V → V) (xs ys : List V) (n : ℕ)
      → length xs ≡ n
      → length ys ≡ n
      → length (zip f xs ys) ≡ n
  zip-length f [] ys n a b = a
  zip-length f (x ∷ xs) [] n a b = b
  zip-length f (x ∷ xs) (y ∷ ys) n a b =
      ground (arith, zip-length f xs ys (length xs) refl (ground (arith, a, b)))

  map-length : (f : V → V) (xs : List V) → length (map f xs) ≡ length xs
  map-length f [] = refl
  map-length f (x ∷ xs) = ap suc (map-length f xs)

  pub zip-IsRow :
      (f : V → V → V) (xs ys : List V) (n : ℕ) → IsRow n xs → IsRow n ys → IsRow n (zip f xs ys)
  zip-IsRow f xs ys n a b = record { is_row = zip-length f xs ys n a.is_row b.is_row }

  pub map-IsRow : (f : V → V) (xs : List V) (n : ℕ) → IsRow n xs → IsRow n (map f xs)
  map-IsRow f xs n a = record { is_row = map-length f xs ∙ a.is_row }

module _ {V : Type 0} (n : ℕ) where
  -- what an action writes
  abbrev pub Writes : Action V → Type 0
  Writes (assign vs) = IsRow n vs
  Writes _ = Unit {0}

  abbrev pub WritesAll : List (Action V) → Type 0
  WritesAll [] = Unit {0}
  WritesAll (a ∷ actions) = Writes a × WritesAll actions

  pub if-IsRow :
      (b : Bool) (xs ys : List V) → IsRow n xs → IsRow n ys → IsRow n (if b then xs else ys)
  if-IsRow true xs ys a b = a
  if-IsRow false xs ys a b = b

  group_shrink_rows :
      (r : Scalars V) (rates : Rates V) (inner : ℕ) (xs ys : List V)
      → IsRow n xs
      → IsRow n ys
      → WritesAll (group_actions r rates inner (group_shrink r rates.l21 inner xs ys))
  unfolding group_shrink
  group_shrink_rows r rates inner xs ys a b =
      elim (Bool-cases (r.less (r.mul rates.l21 (r.sqrt (r.of_size inner))) (norm r xs))) [
        | inl kept ↦
            subst
              (λ c. WritesAll (
                group_actions r rates inner (
                  if c
                  then some (
                      over r
                        (map
                          (λ x. r.mul x (
                            r.sub r.one
                              (r.div (r.mul rates.l21 (r.sqrt (r.of_size inner))) (norm r xs))))
                          xs)
                        ys)
                  else none)))
              (sym kept) (zip-IsRow _ _ _ _ (map-IsRow _ _ _ a) b, (tt, tt))
        | inr gone ↦
            subst
              (λ c. WritesAll (
                group_actions r rates inner (
                  if c
                  then some (
                      over r
                        (map
                          (λ x. r.mul x (
                            r.sub r.one
                              (r.div (r.mul rates.l21 (r.sqrt (r.of_size inner))) (norm r xs))))
                          xs)
                        ys)
                  else none)))
              (sym gone) (tt, tt)
      ]

module _ {V : Type 0} (r : Scalars V) (rates : Rates V) (inner n : ℕ) where
  pub proximal_rows :
      (linear y : List V)
      → IsRow n linear
      → IsRow n y
      → WritesAll n (proximal r rates inner linear y)
  proximal_rows linear y a b = group_shrink_rows n r rates inner _ y (map-IsRow _ linear n a) b
