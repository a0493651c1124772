-- ===== src/Training/Requirements/Operations.antt =====
-- The operations of training_ops.cc on keyed variables as one type, with their requirements and the
-- places of their inputs.
use tfplus.Common.{ℕ, Bool, List}
use tfplus.Training.Requirements.{Requirement}
use tfplus.Training.Requirements.Keyed.{
  sparse_ftrl_requires, sparse_group_sparse_ftrl_requires, group_sparse_ftrl_requires,
  sparse_adagrad_requires, sparse_adadelta_requires, group_sparse_adadelta_requires,
  group_sparse_momentum_requires, group_sparse_ada_hessian_requires,
  group_sparse_lamb_hessian_requires, sparse_ada_dqh_requires, group_sparse_ada_dqh_v2_requires,
  group_sparse_adam_v3_requires, group_sparse_adam_v4_requires,
  group_sparse_rectified_adam_requires, compute_group_ada_dqh_hp_requires,
  group_sparse_adam_requires, group_sparse_ams_grad_requires, group_sparse_ada_belief_requires,
  group_sparse_lamb_requires, group_sparse_ada_dqh_requires, group_sparse_adam_v2_requires,
}

pub data Operation : Type 0 where
  op_sparse_ftrl : (has_l2_shrinkage : Bool) → Operation
  op_sparse_group_sparse_ftrl : (has_l2_shrinkage : Bool) → Operation
  op_group_sparse_ftrl : (has_l2_shrinkage : Bool) → Operation
  op_sparse_adagrad : Operation
  op_sparse_adadelta : Operation
  op_group_sparse_adadelta : Operation
  op_group_sparse_momentum : Operation
  op_group_sparse_ada_hessian : Operation
  op_group_sparse_lamb_hessian : Operation
  op_sparse_ada_dqh : Operation
  op_group_sparse_ada_dqh_v2 : Operation
  op_group_sparse_adam_v3 : Operation
  op_group_sparse_adam_v4 : Operation
  op_group_sparse_rectified_adam : Operation
  op_compute_group_ada_dqh_hp : Operation
  op_group_sparse_adam : Operation
  op_group_sparse_ams_grad : Operation
  op_group_sparse_ada_belief : Operation
  op_group_sparse_lamb : Operation
  op_group_sparse_ada_dqh : Operation
  op_group_sparse_adam_v2 : Operation

unfoldable pub requirements : Operation → List Requirement
unfolding sparse_ftrl_requires sparse_group_sparse_ftrl_requires group_sparse_ftrl_requires
    sparse_adagrad_requires sparse_adadelta_requires group_sparse_adadelta_requires
    group_sparse_momentum_requires group_sparse_ada_hessian_requires
    group_sparse_lamb_hessian_requires sparse_ada_dqh_requires group_sparse_ada_dqh_v2_requires
    group_sparse_adam_v3_requires group_sparse_adam_v4_requires group_sparse_rectified_adam_requires
    compute_group_ada_dqh_hp_requires group_sparse_adam_requires group_sparse_ams_grad_requires
    group_sparse_ada_belief_requires group_sparse_lamb_requires group_sparse_ada_dqh_requires
    group_sparse_adam_v2_requires
requirements (op_sparse_ftrl s) = sparse_ftrl_requires s
requirements (op_sparse_group_sparse_ftrl s) = sparse_group_sparse_ftrl_requires s
requirements (op_group_sparse_ftrl s) = group_sparse_ftrl_requires s
requirements op_sparse_adagrad = sparse_adagrad_requires
requirements op_sparse_adadelta = sparse_adadelta_requires
requirements op_group_sparse_adadelta = group_sparse_adadelta_requires
requirements op_group_sparse_momentum = group_sparse_momentum_requires
requirements op_group_sparse_ada_hessian = group_sparse_ada_hessian_requires
requirements op_group_sparse_lamb_hessian = group_sparse_lamb_hessian_requires
requirements op_sparse_ada_dqh = sparse_ada_dqh_requires
requirements op_group_sparse_ada_dqh_v2 = group_sparse_ada_dqh_v2_requires
requirements op_group_sparse_adam_v3 = group_sparse_adam_v3_requires
requirements op_group_sparse_adam_v4 = group_sparse_adam_v4_requires
requirements op_group_sparse_rectified_adam = group_sparse_rectified_adam_requires
requirements op_compute_group_ada_dqh_hp = compute_group_ada_dqh_hp_requires
requirements op_group_sparse_adam = group_sparse_adam_requires
requirements op_group_sparse_ams_grad = group_sparse_ams_grad_requires
requirements op_group_sparse_ada_belief = group_sparse_ada_belief_requires
requirements op_group_sparse_lamb = group_sparse_lamb_requires
requirements op_group_sparse_ada_dqh = group_sparse_ada_dqh_requires
requirements op_group_sparse_adam_v2 = group_sparse_adam_v2_requires

-- the tables come first, the variable's before its slots'
abbrev pub tables_of : Operation → ℕ
tables_of (op_sparse_ftrl _) = 3
tables_of (op_sparse_group_sparse_ftrl _) = 3
tables_of (op_group_sparse_ftrl _) = 3
tables_of op_sparse_adagrad = 2
tables_of op_sparse_adadelta = 3
tables_of op_group_sparse_adadelta = 4
tables_of op_group_sparse_momentum = 4
tables_of op_group_sparse_ada_hessian = 5
tables_of op_group_sparse_lamb_hessian = 5
tables_of op_sparse_ada_dqh = 3
tables_of op_group_sparse_ada_dqh_v2 = 4
tables_of op_group_sparse_adam_v3 = 2
tables_of op_group_sparse_adam_v4 = 2
tables_of op_group_sparse_rectified_adam = 2
tables_of op_compute_group_ada_dqh_hp = 4
tables_of op_group_sparse_adam = 5
tables_of op_group_sparse_ams_grad = 5
tables_of op_group_sparse_ada_belief = 5
tables_of op_group_sparse_lamb = 5
tables_of op_group_sparse_ada_dqh = 4
tables_of op_group_sparse_adam_v2 = 4

-- the number of the gradient's input
abbrev pub grad_of : Operation → ℕ
grad_of (op_sparse_ftrl _) = 3
grad_of (op_sparse_group_sparse_ftrl _) = 3
grad_of (op_group_sparse_ftrl _) = 3
grad_of op_sparse_adagrad = 3
grad_of op_sparse_adadelta = 6
grad_of op_group_sparse_adadelta = 7
grad_of op_group_sparse_momentum = 5
grad_of op_group_sparse_ada_hessian = 5
grad_of op_group_sparse_lamb_hessian = 5
grad_of op_sparse_ada_dqh = 3
grad_of op_group_sparse_ada_dqh_v2 = 4
grad_of op_group_sparse_adam_v3 = 2
grad_of op_group_sparse_adam_v4 = 2
grad_of op_group_sparse_rectified_adam = 2
grad_of op_compute_group_ada_dqh_hp = 4
grad_of op_group_sparse_adam = 5
grad_of op_group_sparse_ams_grad = 5
grad_of op_group_sparse_ada_belief = 5
grad_of op_group_sparse_lamb = 5
grad_of op_group_sparse_ada_dqh = 4
grad_of op_group_sparse_adam_v2 = 4

-- and of the keys'
abbrev pub indices_of : Operation → ℕ
indices_of (op_sparse_ftrl _) = 4
indices_of (op_sparse_group_sparse_ftrl _) = 4
indices_of (op_group_sparse_ftrl _) = 4
indices_of op_sparse_adagrad = 4
indices_of op_sparse_adadelta = 7
indices_of op_group_sparse_adadelta = 8
indices_of op_group_sparse_momentum = 6
indices_of op_group_sparse_ada_hessian = 6
indices_of op_group_sparse_lamb_hessian = 6
indices_of op_sparse_ada_dqh = 4
indices_of op_group_sparse_ada_dqh_v2 = 5
indices_of op_group_sparse_adam_v3 = 3
indices_of op_group_sparse_adam_v4 = 3
indices_of op_group_sparse_rectified_adam = 3
indices_of op_compute_group_ada_dqh_hp = 5
indices_of op_group_sparse_adam = 6
indices_of op_group_sparse_ams_grad = 6
indices_of op_group_sparse_ada_belief = 6
indices_of op_group_sparse_lamb = 6
indices_of op_group_sparse_ada_dqh = 5
indices_of op_group_sparse_adam_v2 = 5
