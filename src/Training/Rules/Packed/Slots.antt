-- ===== src/Training/Rules/Packed/Slots.antt =====
-- The packed slots of the third Adam (training_ops.cc) against the separate ones of the second.
use tfplus.Common.{
  ℕ, zero, suc, ◌<◌, ◌≡◌, refl, sym, ◌∙◌, ap, true, List, [], ◌∷◌, ◌++◌, none, some, arith, length,
  ==_refl,
}
use tfplus.Training.Scalars.{Scalars}
use tfplus.Training.Actions.{Action, assign, cover}
use tfplus.Training.Actions.Plain.{last_row}
use tfplus.Training.Rules.{Rates}
use tfplus.Training.Rules.Packed.{cut, unpack, check_dim_size, adam_step, adam_v2, adam_v3}

module _ {V : Type 0} where
  cut-append : (n : ℕ) (a rest : List V) → length a ≡ n → cut n (a ++ rest) ≡ some (a, rest)
  cut-append zero [] rest e = refl
  cut-append zero (x ∷ a) rest e = absurd (omega (arith, e))
  cut-append (suc n) [] rest e = absurd (omega (arith, e))
  cut-append (suc n) (x ∷ a) rest e = rw (cut-append n a rest (omega (arith, e))) refl

  pub cut_short : (n : ℕ) (a : List V) → length a < n → cut n a ≡ none
  cut_short zero a e = absurd (omega (arith, e))
  cut_short (suc n) [] e = refl
  cut_short (suc n) (x ∷ a) e = rw (cut_short n a (omega (arith, e))) refl

  append_nil : (a : List V) → a ++ [] ≡ a
  append_nil [] = refl
  append_nil (x ∷ a) = ap (λ b. x ∷ b) (append_nil a)

  unpack_lem :
      (dim : ℕ) (m v linear : List V)
      → length m ≡ dim
      → length v ≡ dim
      → length linear ≡ dim
      → unpack dim (m ++ (v ++ linear)) ≡ some (m, v, linear, [])
  unfolding unpack
  unpack_lem dim m v linear a b c = ground (
    arith,
    cut-append dim m (v ++ linear) a,
    cut-append dim v linear b,
    ap (cut dim) (sym (append_nil linear)) ∙ cut-append dim linear [] c,
  )

  pub unpack_short : (dim : ℕ) (row : List V) → length row ≡ dim → 0 < dim → unpack dim row ≡ none
  unfolding unpack
  unpack_short dim row e pos =
      ground
        (arith, ap (cut dim) (sym (append_nil row)) ∙ cut-append dim row [] e, cut_short dim [] pos)

module _ {V : Type 0} (r : Scalars V) (rates : Rates V) (inner_dim : ℕ) where
  -- On a row that holds m, v and linear side by side, the third Adam does to the trained table what
  -- the second does with a table for each, and leaves the rows that the second leaves, side by side.
  pub adam_v3-adam_v2 :
      (dim : ℕ) (grad var m v linear : List V)
      → length m ≡ dim
      → length v ≡ dim
      → length linear ≡ dim
      → (actions on_linear on_m on_v on_packed : List (Action V)) × (adam_v2 r rates inner_dim grad
            var
            (linear ∷ m ∷ v ∷ [])
          ≡ some (actions, on_linear ∷ on_m ∷ on_v ∷ []))
        × (adam_v3 r rates inner_dim dim grad var ((m ++ (v ++ linear)) ∷ [])
            ≡ some (actions, on_packed ∷ []))
        × (last_row on_packed (m ++ (v ++ linear))
            ≡ last_row on_m m ++ (last_row on_v v ++ last_row on_linear linear))
  unfolding adam_v2 adam_v3
  adam_v3-adam_v2 dim grad var m v linear a b c =
      let n = adam_step r rates inner_dim grad var m v linear in
      (
        n.actions,
        assign n.next_linear ∷ cover ∷ [],
        assign n.next_m ∷ cover ∷ [],
        cover ∷ assign n.next_v ∷ [],
        assign (n.next_m ++ (n.next_v ++ (n.next_linear ++ []))) ∷ cover ∷ [],
        refl,
        rw (unpack_lem dim m v linear a b c) refl,
        ap (λ z. n.next_m ++ (n.next_v ++ z)) (append_nil n.next_linear),
      )

check_dim_size_refl : (shape : List ℕ) → check_dim_size shape shape ≡ true
unfolding check_dim_size
check_dim_size_refl [] = refl
check_dim_size_refl (d ∷ shape) = ground (arith, check_dim_size_refl shape, ==_refl d)

-- The shape check of the third Adam lets a slot table of the trained table's own shape pass, and
-- then the `TensorMap`s of `v` and `linear` lie beyond the end of the slot's row.
pub check_dim_size-adam_v3 :
    {V : Type 0} (r : Scalars V) (rates : Rates V) (inner_dim : ℕ) (shape : List ℕ) (dim : ℕ)
    (grad var row : List V)
    → length row ≡ dim
    → 0 < dim
    → (check_dim_size shape shape ≡ true)
      × (adam_v3 r rates inner_dim dim grad var (row ∷ []) ≡ none)
unfolding adam_v3
check_dim_size-adam_v3 r rates inner_dim shape dim grad var row e pos =
    (check_dim_size_refl shape, rw (unpack_short dim row e pos) refl)
