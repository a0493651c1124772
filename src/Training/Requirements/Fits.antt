-- ===== src/Training/Requirements/Fits.antt =====
-- What all the operations on keyed variables make sure of before they touch a table
-- (training_ops.cc).
use tfplus.Common.{
  ℕ, zero, suc, ◌<◌, ◌≡◌, sym, ap, ◌∙◌, true, some, List, [], ◌∷◌, ◌++◌, arith, get_elem?, subst,
}
use tfplus.Training.Scalars.{Scalars}
use tfplus.Training.Checks.{Inputs}
use tfplus.Training.Requirements.{Requirement, initialized_table, accepted, run, behind_first}
use tfplus.Training.Requirements.Fulfilled.{Holds, Fulfilled, inner_after, run_iff}
use tfplus.Training.Requirements.Keyed.{keys_of, keyed_shape}
use tfplus.Training.Requirements.Operations.{
  Operation, requirements, tables_of, grad_of, indices_of,
}
use tfplus.Training.Requirements.Places.{places}

module _ {V : Type 0} (inputs : Inputs V) (r : Scalars V) where
  found_at :
      (shape : ℕ → List ℕ) (qs : List Requirement) (k i j : ℕ) (q : Requirement)
      → Fulfilled inputs r shape qs i j
      → get_elem? qs k ≡ some q
      → (m : ℕ) × Holds inputs r shape q m
  unfolding Fulfilled
  found_at shape [] k i j q all e = cc
  found_at shape (p ∷ qs) zero i j q (here, later) e =
      (i, subst (λ x. Holds inputs r shape x i) (ground (arith, e)) here)
  found_at shape (p ∷ qs) (suc k) i j q (here, later) e =
      found_at shape qs k (inner_after inputs r shape p i) j q later e

  -- what every operation is sure of
  pub record Fits (op : Operation) : Type 0 where
    pub initialized : (j : ℕ) → j < tables_of op → inputs.initialized j ≡ true
    pub keys : ℕ
    pub indices : inputs.dims (indices_of op) ≡ keys ∷ []
    pub more : List ℕ
    pub grad : inputs.dims (grad_of op) ≡ keys ∷ (inputs.value_shape 0 ++ more)

  fits_rows :
      (g x n : ℕ) (more : List ℕ)
      → inputs.dims x ≡ n ∷ []
      → behind_first (inputs.dims g) ≡ inputs.value_shape 0 ++ more
      → (k : ℕ) (behind others : List ℕ) → inputs.dims g ≡ k ∷ behind
      → inputs.dims x ≡ k ∷ others
      → inputs.dims g ≡ n ∷ (inputs.value_shape 0 ++ more)
  fits_rows g x n more a b k behind others c d =
      c
      ∙ ap (λ y. k ∷ y) (sym (ap behind_first c) ∙ b)
      ∙ ap (λ y. y ∷ (inputs.value_shape 0 ++ more)) (ap keys_of (sym d ∙ a))

  -- Whichever operation on keyed variables accepts its inputs, its tables are initialized, its keys
  -- are a vector, and its gradient has a row for each key whose dimensions start with those of the
  -- variable's values.
  pub accepted-Fits :
      (op : Operation) (inner : ℕ)
      → run inputs r (keyed_shape inputs (indices_of op)) (requirements op) 1 ≡ accepted inner
      → Fits op
  unfolding Holds
  accepted-Fits op inner e =
      let shape = keyed_shape inputs (indices_of op) in
      let all = (run_iff inputs r shape (requirements op) 1 inner).0 e in
      let (tables, (a, at_a), (b, at_b), (c, at_c)) = places op in
      let (_, (n, vector)) = found_at shape (requirements op) a 1 inner _ all at_a in
      let (_, (more, dims)) = found_at shape (requirements op) b 1 inner _ all at_b in
      let (_, (k, behind, others, rows, first)) =
        found_at shape (requirements op) c 1 inner _ all at_c in
      record {
        initialized = λ j h.
            let (place, at) = tables j h in
            (found_at shape (requirements op) place 1 inner (initialized_table j) all at).1;
        keys = n;
        indices = vector;
        more = more;
        grad = fits_rows (grad_of op) (indices_of op) n more vector dims k behind others rows first;
      }
