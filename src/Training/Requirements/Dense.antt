-- ===== src/Training/Requirements/Dense.antt =====
-- The requirements of the operations of training_ops.cc on TensorFlow's own dense variables.
use tfplus.Common.{ℕ, suc, List, [], ◌∷◌, ◌++◌}
use tfplus.Training.Requirements.{
  Requirement, initialized_table, one_dimensional, a_scalar, a_positive_scalar, same_shape,
  vector_or_higher,
}
use tfplus.Training.Requirements.Keyed.{each, grad_checks}

-- the input that is the learning rate, and the five behind it
abbrev rates_at : ℕ → List Requirement → List Requirement
rates_at i rest = a_positive_scalar i ∷ each a_scalar (suc i) 5 ++ rest

-- ApplyAdaHessianOp: m, v, grad and hessian have the variable's shape
unfoldable pub apply_ada_hessian_requires : List Requirement
apply_ada_hessian_requires = each initialized_table 0 3 ++ each same_shape 1 4 ++ rates_at 5 []

-- ApplyAdaBeliefOp
unfoldable pub apply_ada_belief_requires : List Requirement
apply_ada_belief_requires = each initialized_table 0 3 ++ each same_shape 1 3 ++ rates_at 4 []

-- ApplyLambOp
unfoldable pub apply_lamb_requires : List Requirement
apply_lamb_requires = each initialized_table 0 3 ++ each same_shape 1 3 ++ rates_at 4 []

-- ApplyLambHessianOp
unfoldable pub apply_lamb_hessian_requires : List Requirement
apply_lamb_hessian_requires = each initialized_table 0 3 ++ each same_shape 1 4 ++ rates_at 5 []

-- ApplyAdaDQHOp, which looks at no shape
unfoldable pub apply_ada_dqh_requires : List Requirement
apply_ada_dqh_requires = each initialized_table 0 3

-- SparseApplyAdaDQHOp
unfoldable pub sparse_apply_ada_dqh_requires : List Requirement
sparse_apply_ada_dqh_requires =
    each initialized_table 0 3
    ++ same_shape 1
      ∷ same_shape 2
      ∷ vector_or_higher
      ∷ one_dimensional 4
      ∷ rates_at 5 (grad_checks 3 4 [])

-- SparseApplyAdaBeliefOp
unfoldable pub sparse_apply_ada_belief_requires : List Requirement
sparse_apply_ada_belief_requires =
    each initialized_table 0 3
    ++ same_shape 1
      ∷ same_shape 2
      ∷ vector_or_higher
      ∷ one_dimensional 4
      ∷ rates_at 5 (grad_checks 3 4 [])

-- SparseApplyAdaHessianOp, which does not look at the Hessian, input 5
unfoldable pub sparse_apply_ada_hessian_requires : List Requirement
sparse_apply_ada_hessian_requires =
    each initialized_table 0 3
    ++ same_shape 1
      ∷ same_shape 2
      ∷ vector_or_higher
      ∷ one_dimensional 4
      ∷ rates_at 6 (grad_checks 3 4 [])
