-- ===== src/Training/Checks/Accepted.antt =====
-- What holds of the inputs that pass the checks of the Adam family (training_ops.cc).
use tfplus.Common.{
  ℕ, zero, suc, ◌+◌, ◌*◌, ◌<◌, ◌≤◌, ◌≡◌, refl, sym, ap, inl, inr, ◌∙◌, Bool, true, false, List, [],
  ◌∷◌, ◌++◌, arith, ◌&&◌, ◌==◌, ==_iff, Bool-cases,
}
use tfplus.Training.Scalars.{Scalars, not_below_zero}
use tfplus.Training.Checks.{
  Inputs, Failure, Checked, passed, require, is_scalar, same_size, match_dims, all_initialized,
  same_shapes, grad_checks, shape_checks, input_checks, group_checks,
}

abbrev pub product : ℕ → List ℕ → ℕ
product acc [] = acc
product acc (d ∷ ds) = product (acc * d) ds

require_passed :
    (b : Bool) (f : Failure) (rest : Checked) (n : ℕ)
    → require b f rest ≡ passed n
    → (b ≡ true) × (rest ≡ passed n)
require_passed true f rest n e = (refl, e)
require_passed false f rest n e = cc

pub same_size-eq : (xs ys : List ℕ) → same_size xs ys ≡ true → xs ≡ ys
same_size-eq [] [] e = refl
same_size-eq [] (y ∷ ys) e = cc
same_size-eq (x ∷ xs) [] e = cc
same_size-eq (x ∷ xs) (y ∷ ys) e = ground (arith, same_size-eq xs ys, (==_iff x y).0)

pub and_true : (a b : Bool) → (a && b) ≡ true → (a ≡ true) × (b ≡ true)
and_true true true e = (refl, refl)
and_true true false e = cc
and_true false b e = cc

pub is_scalar_nil : (ds : List ℕ) → is_scalar ds ≡ true → ds ≡ []
is_scalar_nil [] e = refl
is_scalar_nil (d ∷ ds) e = cc

match_dims_lem :
    (d n : ℕ) (var_shape grad_shape : List ℕ) (first acc inner : ℕ)
    → match_dims d n var_shape grad_shape first acc ≡ passed inner
    → (first ≡ n) × (inner ≡ product acc var_shape) × (0 < inner)
unfolding match_dims
match_dims_lem d n [] grad_shape first acc inner e = ground arith
match_dims_lem d n (v ∷ var_shape) [] first acc inner e = cc
match_dims_lem d n (v ∷ var_shape) (g ∷ grad_shape) first acc inner e =
    let (same, e₁) = require_passed (v == g) _ _ inner e in
    let (a, b, c) = match_dims_lem (suc d) n var_shape grad_shape first (acc * g) inner e₁ in
    (a, b ∙ ap (λ x. product (acc * x) var_shape) (sym ((==_iff v g).0 same)), c)

match_dims_shape :
    (d n : ℕ) (var_shape grad_shape : List ℕ) (first acc inner : ℕ)
    (e : match_dims d n var_shape grad_shape first acc ≡ passed inner)
    → (more : List ℕ) × (grad_shape ≡ var_shape ++ more)
unfolding match_dims
match_dims_shape d n [] grad_shape first acc inner e = (grad_shape, refl)
match_dims_shape d n (v ∷ var_shape) [] first acc inner e = cc
match_dims_shape d n (v ∷ var_shape) (g ∷ grad_shape) first acc inner e =
    let (same, e₁) = require_passed (v == g) _ _ inner e in
    let (more, eq) = match_dims_shape (suc d) n var_shape grad_shape first (acc * g) inner e₁ in
    (more, ground (arith, (==_iff v g).0 same, eq))

module _ {V : Type 0} (inputs : Inputs V) where
  all_initialized_lem :
      (i n : ℕ) (rest : Checked) (inner : ℕ)
      → all_initialized inputs i n rest ≡ passed inner
      → ((j : ℕ) → i ≤ j → j < i + n → inputs.initialized j ≡ true) × (rest ≡ passed inner)
  unfolding all_initialized
  all_initialized_lem i zero rest inner e = (λ j a b. absurd (omega (arith, a, b)), e)
  all_initialized_lem i (suc n) rest inner e =
      let (here, e₁) = require_passed (inputs.initialized i) _ _ inner e in
      let (later, e₂) = all_initialized_lem (suc i) n rest inner e₁ in
      (
        λ j a b. elim (Bool-cases (j == i)) [
          | inl y ↦ ap inputs.initialized ((==_iff j i).0 y) ∙ here
          | inr differ ↦ later j (ground arith) (omega (arith, b))
        ],
        e₂,
      )

  same_shapes_lem :
      (keys i n : ℕ) (rest : Checked) (inner : ℕ)
      → same_shapes inputs keys i n rest ≡ passed inner
      → ((j : ℕ) → i ≤ j → j < i + n → inputs.value_shape j ≡ inputs.value_shape 0)
        × (rest ≡ passed inner)
  unfolding same_shapes
  same_shapes_lem keys i zero rest inner e = (λ j a b. absurd (omega (arith, a, b)), e)
  same_shapes_lem keys i (suc n) rest inner e =
      let (here, e₁) =
        require_passed (same_size (keys ∷ inputs.value_shape 0) (keys ∷ inputs.value_shape i)) _ _
          inner e in
      let (later, e₂) = same_shapes_lem keys (suc i) n rest inner e₁ in
      let same : inputs.value_shape i ≡ inputs.value_shape 0 =
        sym (same_size-eq (inputs.value_shape 0) (inputs.value_shape i) (ground arith)) in
      (
        λ j a b. elim (Bool-cases (j == i)) [
          | inl y ↦ ap inputs.value_shape ((==_iff j i).0 y) ∙ same
          | inr differ ↦ later j (ground arith) (omega (arith, b))
        ],
        e₂,
      )

  -- the inputs of an operation with `slots` tables after the variable's
  pub record Accepted (r : Scalars V) (slots inner : ℕ) : Type 0 where
    pub initialized : (j : ℕ) → j ≤ slots → inputs.initialized j ≡ true
    pub n : ℕ
    pub indices : inputs.dims (slots + 2) ≡ n ∷ []
    pub rate : r.less r.zero_of (inputs.scalar (slots + 3)) ≡ true
    pub regularized :
        (not_below_zero r (inputs.scalar (slots + 9)) ≡ true)
        × (not_below_zero r (inputs.scalar (slots + 10)) ≡ true)
        × (not_below_zero r (inputs.scalar (slots + 11)) ≡ true)
    pub shapes : (j : ℕ) → j ≤ slots → inputs.value_shape j ≡ inputs.value_shape 0
    pub more : List ℕ
    pub grad : inputs.dims (slots + 1) ≡ n ∷ (inputs.value_shape 0 ++ more)
    pub is_product : inner ≡ product 1 (inputs.value_shape 0)
    pub positive : 0 < inner

  grad_checks_lem :
      (n : ℕ) (grad_shape : List ℕ) (inner : ℕ)
      → grad_checks inputs n grad_shape ≡ passed inner
      → (more : List ℕ) × (grad_shape ≡ n ∷ (inputs.value_shape 0 ++ more))
        × (inner ≡ product 1 (inputs.value_shape 0))
        × (0 < inner)
  unfolding grad_checks
  grad_checks_lem n [] inner e = cc
  grad_checks_lem n (first ∷ rest) inner e =
      let (a, b, c) = match_dims_lem 1 n (inputs.value_shape 0) rest first 1 inner e in
      let (more, eq) = match_dims_shape 1 n (inputs.value_shape 0) rest first 1 inner e in
      (more, rw (a, eq) refl, b, c)

  input_checks_lem :
      (r : Scalars V) (slots : ℕ) (ds : List ℕ) (inner : ℕ)
      → inputs.dims (slots + 2) ≡ ds
      → input_checks inputs r slots ds ≡ passed inner
      → ((j : ℕ) → j ≤ slots → inputs.initialized j ≡ true)
      → Accepted r slots inner
  unfolding input_checks shape_checks
  input_checks_lem r slots [] inner d e ok = cc
  input_checks_lem r slots (n ∷ more) inner d e ok =
      let (vector, e₁) = require_passed (is_scalar more) _ _ inner e in
      let (lr, e₂) =
        require_passed
          (is_scalar (inputs.dims (slots + 3)) && r.less r.zero_of (inputs.scalar (slots + 3))) _ _
          inner e₁ in
      let (b1, e₃) = require_passed (is_scalar (inputs.dims (slots + 4))) _ _ inner e₂ in
      let (b2, e₄) = require_passed (is_scalar (inputs.dims (slots + 5))) _ _ inner e₃ in
      let (b3, e₅) = require_passed (is_scalar (inputs.dims (slots + 6))) _ _ inner e₄ in
      let (b4, e₆) = require_passed (is_scalar (inputs.dims (slots + 7))) _ _ inner e₅ in
      let (b5, e₇) = require_passed (is_scalar (inputs.dims (slots + 8))) _ _ inner e₆ in
      let (l1, e₈) =
        require_passed
          (is_scalar (inputs.dims (slots + 9)) && not_below_zero r (inputs.scalar (slots + 9))) _ _
          inner e₇ in
      let (l2, e₉) =
        require_passed
          (is_scalar (inputs.dims (slots + 10)) && not_below_zero r (inputs.scalar (slots + 10))) _
          _ inner e₈ in
      let (l21, e₀) =
        require_passed
          (is_scalar (inputs.dims (slots + 11)) && not_below_zero r (inputs.scalar (slots + 11))) _
          _ inner e₉ in
      let (same, last) = same_shapes_lem n 1 slots _ inner e₀ in
      let (behind, grad, product_is, positive) =
        grad_checks_lem n (inputs.dims (slots + 1)) inner last in
      record {
        initialized = ok;
        n = n;
        indices = d ∙ ap (λ z. n ∷ z) (is_scalar_nil more vector);
        rate = (and_true _ _ lr).1;
        regularized = ((and_true _ _ l1).1, (and_true _ _ l2).1, (and_true _ _ l21).1);
        shapes = λ j le. elim (Bool-cases (j == 0)) [
          | inl y ↦ ap inputs.value_shape ((==_iff j 0).0 y)
          | inr differ ↦ same j (ground arith) (omega (arith, le))
        ];
        more = behind;
        grad = grad;
        is_product = product_is;
        positive = positive;
      }

  -- Inputs that pass the checks have initialized tables whose values have the variable's shape, a
  -- vector of indices, a positive learning rate, strengths of regularization of at least zero, and a
  -- gradient whose first dimension is the number of the indices, with the dimensions of the values
  -- next. `inner_dim` is then the product of these, and positive.
  pub group_checks-Accepted :
      (r : Scalars V) (slots inner : ℕ)
      → group_checks inputs r slots ≡ passed inner
      → Accepted r slots inner
  unfolding group_checks
  group_checks-Accepted r slots inner e =
      let (ok, e₁) = all_initialized_lem 0 (suc slots) _ inner e in
      input_checks_lem r slots (inputs.dims (slots + 2)) inner refl e₁
        (λ j le. ok j (omega arith) (omega (arith, le)))
