-- ===== src/Training/Requirements/Keyed.antt =====
-- The requirements of the operations of training_ops.cc on keyed variables, as the lists of their
-- `OP_REQUIRES`.
use tfplus.Common.{ℕ, zero, suc, Bool, true, false, List, [], ◌∷◌, ◌++◌, if◌then◌else◌}
use tfplus.Training.Checks.{Inputs}
use tfplus.Training.Requirements.{
  Requirement, initialized_table, one_dimensional, a_scalar, a_legacy_scalar, a_positive_scalar,
  a_non_negative_scalar, a_non_positive_scalar, same_shape, packed_shape, vector_or_higher,
  grad_dims, grad_rows, positive_inner_dim,
}

abbrev pub each : (ℕ → Requirement) → (i n : ℕ) → List Requirement
each f i zero = []
each f i (suc n) = f i ∷ each f (suc i) n

-- the first dimension, the number of the keys, of an input that is a vector
abbrev pub keys_of : List ℕ → ℕ
keys_of [] = 0
keys_of (n ∷ ds) = n

-- `value_shape` with `InsertDim(0, N)`
abbrev pub keyed_shape : {V : Type 0} → Inputs V → (indices i : ℕ) → List ℕ
keyed_shape inputs indices i = keys_of (inputs.dims indices) ∷ inputs.value_shape i

-- `l2_shrinkage`, after all the other inputs
abbrev pub shrinkage_at : Bool → (i : ℕ) → List Requirement
shrinkage_at true i = a_non_negative_scalar i ∷ []
shrinkage_at false i = []

abbrev pub grad_checks : (grad indices : ℕ) → List Requirement → List Requirement
grad_checks g x rest = grad_dims g ∷ grad_rows g x ∷ positive_inner_dim ∷ rest

-- KvVariableSparseApplyFtrlOp, by `has_l2_shrinkage`
unfoldable pub sparse_ftrl_requires : Bool → List Requirement
sparse_ftrl_requires shrinkage =
    each initialized_table 0 3
    ++ one_dimensional 4
      ∷ a_positive_scalar 5
      ∷ a_non_negative_scalar 6
      ∷ a_non_negative_scalar 7
      ∷ a_non_positive_scalar (if shrinkage then 9 else 8)
      ∷ same_shape 1
      ∷ same_shape 2
      ∷ grad_checks 3 4 (shrinkage_at shrinkage 8)

-- KvVariableSparseGroupSparseApplyFtrlOp
unfoldable pub sparse_group_sparse_ftrl_requires : Bool → List Requirement
sparse_group_sparse_ftrl_requires shrinkage =
    each initialized_table 0 3
    ++ one_dimensional 4
      ∷ a_positive_scalar 5
      ∷ a_non_negative_scalar 6
      ∷ a_non_negative_scalar 7
      ∷ a_non_negative_scalar 8
      ∷ a_non_positive_scalar (if shrinkage then 10 else 9)
      ∷ same_shape 1
      ∷ same_shape 2
      ∷ grad_checks 3 4 (shrinkage_at shrinkage 9)

-- KvVariableGroupSparseApplyFtrlOp
unfoldable pub group_sparse_ftrl_requires : Bool → List Requirement
group_sparse_ftrl_requires shrinkage =
    each initialized_table 0 3
    ++ one_dimensional 4
      ∷ a_positive_scalar 5
      ∷ a_non_negative_scalar 6
      ∷ a_non_negative_scalar 7
      ∷ a_non_positive_scalar (if shrinkage then 9 else 8)
      ∷ same_shape 1
      ∷ same_shape 2
      ∷ grad_checks 3 4 (shrinkage_at shrinkage 8)

-- KvVariableSparseApplyAdagradOp
unfoldable pub sparse_adagrad_requires : List Requirement
sparse_adagrad_requires =
    each initialized_table 0 2
    ++ a_legacy_scalar 2
      ∷ one_dimensional 4
      ∷ grad_rows 3 4
      ∷ same_shape 1
      ∷ vector_or_higher
      ∷ grad_dims 3
      ∷ positive_inner_dim
      ∷ []

-- KvVariableSparseApplyAdadeltaOp
unfoldable pub sparse_adadelta_requires : List Requirement
sparse_adadelta_requires =
    each initialized_table 0 3
    ++ a_legacy_scalar 3
      ∷ a_scalar 4
      ∷ a_scalar 5
      ∷ one_dimensional 7
      ∷ grad_rows 6 7
      ∷ same_shape 1
      ∷ same_shape 2
      ∷ vector_or_higher
      ∷ grad_dims 6
      ∷ []

-- KvVariableGroupSparseApplyAdadeltaOp
unfoldable pub group_sparse_adadelta_requires : List Requirement
group_sparse_adadelta_requires =
    each initialized_table 0 4
    ++ a_legacy_scalar 4
      ∷ a_scalar 5
      ∷ a_scalar 6
      ∷ one_dimensional 8
      ∷ a_non_negative_scalar 9
      ∷ a_non_negative_scalar 10
      ∷ a_non_negative_scalar 11
      ∷ grad_rows 7 8
      ∷ same_shape 1
      ∷ same_shape 2
      ∷ same_shape 3
      ∷ vector_or_higher
      ∷ grad_dims 7
      ∷ positive_inner_dim
      ∷ []

-- KvVariableGroupSparseApplyMomentumOp
unfoldable pub group_sparse_momentum_requires : List Requirement
group_sparse_momentum_requires =
    each initialized_table 0 4
    ++ a_legacy_scalar 4
      ∷ one_dimensional 6
      ∷ a_legacy_scalar 7
      ∷ a_non_negative_scalar 8
      ∷ a_non_negative_scalar 9
      ∷ a_non_negative_scalar 10
      ∷ grad_rows 5 6
      ∷ same_shape 1
      ∷ same_shape 2
      ∷ same_shape 3
      ∷ vector_or_higher
      ∷ grad_dims 5
      ∷ positive_inner_dim
      ∷ []

-- KvVariableGroupSparseApplyAdaHessianOp, whose Hessian is input 7
unfoldable pub group_sparse_ada_hessian_requires : List Requirement
group_sparse_ada_hessian_requires =
    each initialized_table 0 5
    ++ one_dimensional 6 ∷ a_positive_scalar 8 ∷ each a_scalar 9 5
    ++ each a_non_negative_scalar 14 3
    ++ each same_shape 1 4
    ++ grad_dims 5 ∷ grad_rows 5 6 ∷ grad_rows 7 6 ∷ positive_inner_dim ∷ []

-- KvVariableGroupSparseApplyLambHessianOp
unfoldable pub group_sparse_lamb_hessian_requires : List Requirement
group_sparse_lamb_hessian_requires =
    each initialized_table 0 5
    ++ one_dimensional 6 ∷ a_positive_scalar 8 ∷ each a_scalar 9 5
    ++ each a_non_negative_scalar 14 3
    ++ each same_shape 1 4
    ++ grad_dims 5 ∷ grad_rows 5 6 ∷ grad_rows 7 6 ∷ positive_inner_dim ∷ []

-- KvVariableSparseApplyAdaDQHOp
unfoldable pub sparse_ada_dqh_requires : List Requirement
sparse_ada_dqh_requires =
    each initialized_table 0 3
    ++ one_dimensional 4 ∷ a_positive_scalar 5 ∷ each a_scalar 6 5
    ++ each same_shape 1 2
    ++ grad_checks 3 4 []

-- KvVariableGroupSparseApplyAdaDQHV2Op
unfoldable pub group_sparse_ada_dqh_v2_requires : List Requirement
group_sparse_ada_dqh_v2_requires =
    each initialized_table 0 4
    ++ one_dimensional 5 ∷ a_positive_scalar 6 ∷ each a_scalar 7 5
    ++ each a_non_negative_scalar 12 3
    ++ each same_shape 1 3
    ++ grad_checks 4 5 []

-- KvVariableGroupSparseApplyAdamV3Op
unfoldable pub group_sparse_adam_v3_requires : List Requirement
group_sparse_adam_v3_requires =
    each initialized_table 0 2
    ++ one_dimensional 3 ∷ a_positive_scalar 4 ∷ each a_scalar 5 5
    ++ each a_non_negative_scalar 10 3
    ++ packed_shape 3 1 ∷ grad_checks 2 3 []

-- KvVariableGroupSparseApplyAdamV4Op
unfoldable pub group_sparse_adam_v4_requires : List Requirement
group_sparse_adam_v4_requires =
    each initialized_table 0 2
    ++ one_dimensional 3 ∷ a_positive_scalar 4 ∷ each a_scalar 5 5
    ++ each a_non_negative_scalar 10 3
    ++ packed_shape 3 1 ∷ grad_checks 2 3 []

-- KvVariableGroupSparseApplyRectifiedAdamOp
unfoldable pub group_sparse_rectified_adam_requires : List Requirement
group_sparse_rectified_adam_requires =
    each initialized_table 0 2
    ++ one_dimensional 3 ∷ a_positive_scalar 4 ∷ each a_scalar 5 5
    ++ each a_non_negative_scalar 10 3
    ++ packed_shape 5 1 ∷ grad_checks 2 3 []

-- KvVariableComputeGroupAdaDQHHPOp
unfoldable pub compute_group_ada_dqh_hp_requires : List Requirement
compute_group_ada_dqh_hp_requires =
    each initialized_table 0 4
    ++ one_dimensional 5 ∷ each a_non_negative_scalar 12 3
    ++ each same_shape 1 3
    ++ grad_checks 4 5 []

-- KvVariableGroupSparseApplyAdamOp
unfoldable pub group_sparse_adam_requires : List Requirement
group_sparse_adam_requires =
    each initialized_table 0 5
    ++ one_dimensional 6 ∷ a_positive_scalar 7 ∷ each a_scalar 8 5
    ++ each a_non_negative_scalar 13 3
    ++ each same_shape 1 4
    ++ grad_checks 5 6 []

-- KvVariableGroupSparseApplyAMSGradOp
unfoldable pub group_sparse_ams_grad_requires : List Requirement
group_sparse_ams_grad_requires =
    each initialized_table 0 5
    ++ one_dimensional 6 ∷ a_positive_scalar 7 ∷ each a_scalar 8 5
    ++ each a_non_negative_scalar 13 3
    ++ each same_shape 1 4
    ++ grad_checks 5 6 []

-- KvVariableGroupSparseApplyAdaBeliefOp
unfoldable pub group_sparse_ada_belief_requires : List Requirement
group_sparse_ada_belief_requires =
    each initialized_table 0 5
    ++ one_dimensional 6 ∷ a_positive_scalar 7 ∷ each a_scalar 8 5
    ++ each a_non_negative_scalar 13 3
    ++ each same_shape 1 4
    ++ grad_checks 5 6 []

-- KvVariableGroupSparseApplyLambOp
unfoldable pub group_sparse_lamb_requires : List Requirement
group_sparse_lamb_requires =
    each initialized_table 0 5
    ++ one_dimensional 6 ∷ a_positive_scalar 7 ∷ each a_scalar 8 5
    ++ each a_non_negative_scalar 13 3
    ++ each same_shape 1 4
    ++ grad_checks 5 6 []

-- KvVariableGroupSparseApplyAdaDQHOp
unfoldable pub group_sparse_ada_dqh_requires : List Requirement
group_sparse_ada_dqh_requires =
    each initialized_table 0 4
    ++ one_dimensional 5 ∷ a_positive_scalar 6 ∷ each a_scalar 7 5
    ++ each a_non_negative_scalar 12 3
    ++ each same_shape 1 3
    ++ grad_checks 4 5 []

-- KvVariableGroupSparseApplyAdamV2Op
unfoldable pub group_sparse_adam_v2_requires : List Requirement
group_sparse_adam_v2_requires =
    each initialized_table 0 4
    ++ one_dimensional 5 ∷ a_positive_scalar 6 ∷ each a_scalar 7 5
    ++ each a_non_negative_scalar 12 3
    ++ each same_shape 1 3
    ++ grad_checks 4 5 []
