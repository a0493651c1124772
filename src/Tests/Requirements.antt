-- ===== src/Tests/Requirements.antt =====
-- The theorems on the requirements of training_ops.cc at concrete inputs.
use tfplus.Common.{ℕ, ◌≡◌, refl, ◌↔◌, true, List, [], ◌∷◌, ◌++◌, if◌then◌else◌, ◌==◌}
use tfplus.Training.Checks.{Inputs}
use tfplus.Training.Requirements.{
  Requirement, grad_rows, accepted, refused, run, check, match_inner, match_rows, is_legacy_scalar,
}
use tfplus.Training.Requirements.Fulfilled.{Holds, Fulfilled, run_iff}
use tfplus.Training.Requirements.Refused.{run_refused}
use tfplus.Training.Requirements.Keyed.{
  keyed_shape, sparse_adagrad_requires, group_sparse_ada_hessian_requires,
}
use tfplus.Training.Requirements.Operations.{op_sparse_adagrad, requirements}
use tfplus.Training.Requirements.Fits.{Fits, accepted-Fits}
use tfplus.Tests.Training.{whole}

-- two keys and rows of two elements
abbrev adagrad_inputs : Inputs ℕ
adagrad_inputs = record {
  initialized = λ i. true;
  value_shape = λ i. 2 ∷ [];
  dims = λ i. if i == 3 then 2 ∷ 2 ∷ [] else if i == 4 then 2 ∷ [] else 1 ∷ [];
  scalar = λ i. 1;
}

-- the same with three keys
abbrev three_keys : Inputs ℕ
three_keys = record adagrad_inputs {
  dims = λ i. if i == 3 then 2 ∷ 2 ∷ [] else if i == 4 then 3 ∷ [] else 1 ∷ [];
}

adagrad_accepted :
    run adagrad_inputs whole (keyed_shape adagrad_inputs 4) sparse_adagrad_requires 1 ≡ accepted 2
unfolding run check match_inner match_rows is_legacy_scalar sparse_adagrad_requires
adagrad_accepted = refl

three_keys_refused :
    run three_keys whole (keyed_shape three_keys 4) sparse_adagrad_requires 1
    ≡ refused (grad_rows 3 4)
unfolding run check match_inner match_rows is_legacy_scalar sparse_adagrad_requires
three_keys_refused = refl

run_iff_example :
    (run adagrad_inputs whole (keyed_shape adagrad_inputs 4) sparse_adagrad_requires 1 ≡ accepted 2)
    ↔ Fulfilled adagrad_inputs whole (keyed_shape adagrad_inputs 4) sparse_adagrad_requires 1 2
run_iff_example =
    run_iff adagrad_inputs whole (keyed_shape adagrad_inputs 4) sparse_adagrad_requires 1 2

run_refused_example :
    (before after : List Requirement) × (k : ℕ) × (sparse_adagrad_requires
      ≡ before ++ grad_rows 3 4 ∷ after)
    × Fulfilled three_keys whole (keyed_shape three_keys 4) before 1 k
    × ¬ Holds three_keys whole (keyed_shape three_keys 4) (grad_rows 3 4) k
run_refused_example =
    run_refused three_keys whole (keyed_shape three_keys 4) sparse_adagrad_requires 1
      (grad_rows 3 4) three_keys_refused

adagrad_requirements :
    run adagrad_inputs whole (keyed_shape adagrad_inputs 4) (requirements op_sparse_adagrad) 1
    ≡ accepted 2
unfolding requirements
adagrad_requirements = adagrad_accepted

accepted-Fits_example : Fits adagrad_inputs whole op_sparse_adagrad
accepted-Fits_example = accepted-Fits adagrad_inputs whole op_sparse_adagrad 2 adagrad_requirements

-- rows of the Hessian with seven elements for values of two
abbrev long_hessian : Inputs ℕ
long_hessian = record {
  initialized = λ i. true;
  value_shape = λ i. 2 ∷ [];
  dims = λ i.
      if i == 5 then 2 ∷ 2 ∷ [] else if i == 6 then 2 ∷ [] else if i == 7 then 2 ∷ 7 ∷ [] else [];
  scalar = λ i. 1;
}

long_hessian_accepted :
    run long_hessian whole (keyed_shape long_hessian 6) group_sparse_ada_hessian_requires 1
    ≡ accepted 2
unfolding run check match_inner match_rows is_legacy_scalar group_sparse_ada_hessian_requires
long_hessian_accepted = refl
