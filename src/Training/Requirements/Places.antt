-- ===== src/Training/Requirements/Places.antt =====
-- Where in the lists of requirements (training_ops.cc) those of the tables, the keys and the gradient
-- stand.
use tfplus.Common.{
  ℕ, zero, suc, ◌+◌, ◌<◌, ◌≡◌, refl, ap, ◌∙◌, true, false, some, List, [], ◌∷◌, ◌++◌, arith,
  get_elem?,
}
use tfplus.Training.Requirements.{
  Requirement, initialized_table, one_dimensional, grad_dims, grad_rows,
}
use tfplus.Training.Requirements.Keyed.{
  each, sparse_ftrl_requires, sparse_group_sparse_ftrl_requires, group_sparse_ftrl_requires,
  sparse_adagrad_requires, sparse_adadelta_requires, group_sparse_adadelta_requires,
  group_sparse_momentum_requires, group_sparse_ada_hessian_requires,
  group_sparse_lamb_hessian_requires, sparse_ada_dqh_requires, group_sparse_ada_dqh_v2_requires,
  group_sparse_adam_v3_requires, group_sparse_adam_v4_requires,
  group_sparse_rectified_adam_requires, compute_group_ada_dqh_hp_requires,
  group_sparse_adam_requires, group_sparse_ams_grad_requires, group_sparse_ada_belief_requires,
  group_sparse_lamb_requires, group_sparse_ada_dqh_requires, group_sparse_adam_v2_requires,
}
use tfplus.Training.Requirements.Operations.{
  Operation, op_sparse_ftrl, op_sparse_group_sparse_ftrl, op_group_sparse_ftrl, op_sparse_adagrad,
  op_sparse_adadelta, op_group_sparse_adadelta, op_group_sparse_momentum,
  op_group_sparse_ada_hessian, op_group_sparse_lamb_hessian, op_sparse_ada_dqh,
  op_group_sparse_ada_dqh_v2, op_group_sparse_adam_v3, op_group_sparse_adam_v4,
  op_group_sparse_rectified_adam, op_compute_group_ada_dqh_hp, op_group_sparse_adam,
  op_group_sparse_ams_grad, op_group_sparse_ada_belief, op_group_sparse_lamb,
  op_group_sparse_ada_dqh, op_group_sparse_adam_v2, requirements, tables_of, grad_of, indices_of,
}

each_at :
    (f : ℕ → Requirement) (i n k : ℕ) (rest : List Requirement)
    → k < n
    → get_elem? (each f i n ++ rest) k ≡ some (f (i + k))
each_at f i zero k rest h = absurd (omega (arith, h))
each_at f i (suc n) zero rest h = ap (λ x. some (f x)) (omega arith)
each_at f i (suc n) (suc k) rest h =
    each_at f (suc i) n k rest (omega (arith, h)) ∙ ap (λ x. some (f x)) (omega arith)

abbrev after : ℕ → List Requirement → List Requirement
after zero qs = qs
after (suc n) [] = []
after (suc n) (q ∷ qs) = after n qs

table_at :
    (n : ℕ) (rest : List Requirement) (j : ℕ)
    → j < n
    → get_elem? (each initialized_table 0 n ++ rest) j ≡ some (initialized_table j)
table_at n rest j h =
    each_at initialized_table 0 n j rest h ∙ ap (λ x. some (initialized_table x)) (omega arith)

-- where in an operation's list the four stand
abbrev pub Places : Operation → Type 0
Places op =
    ((j : ℕ)
      → j < tables_of op
      → (k : ℕ) × (get_elem? (requirements op) k ≡ some (initialized_table j)))
    × ((k : ℕ) × (get_elem? (requirements op) k ≡ some (one_dimensional (indices_of op))))
    × ((k : ℕ) × (get_elem? (requirements op) k ≡ some (grad_dims (grad_of op))))
    × ((k : ℕ) × (get_elem? (requirements op) k ≡ some (grad_rows (grad_of op) (indices_of op))))

pub places : (op : Operation) → Places op
unfolding requirements sparse_ftrl_requires sparse_group_sparse_ftrl_requires
    group_sparse_ftrl_requires sparse_adagrad_requires sparse_adadelta_requires
    group_sparse_adadelta_requires group_sparse_momentum_requires group_sparse_ada_hessian_requires
    group_sparse_lamb_hessian_requires sparse_ada_dqh_requires group_sparse_ada_dqh_v2_requires
    group_sparse_adam_v3_requires group_sparse_adam_v4_requires group_sparse_rectified_adam_requires
    compute_group_ada_dqh_hp_requires group_sparse_adam_requires group_sparse_ams_grad_requires
    group_sparse_ada_belief_requires group_sparse_lamb_requires group_sparse_ada_dqh_requires
    group_sparse_adam_v2_requires
places (op_sparse_ftrl false) = (
  λ j h. (j, table_at 3 (after 3 (requirements (op_sparse_ftrl false))) j h),
  (3, refl),
  (10, refl),
  (11, refl),
)
places (op_sparse_ftrl true) = (
  λ j h. (j, table_at 3 (after 3 (requirements (op_sparse_ftrl true))) j h),
  (3, refl),
  (10, refl),
  (11, refl),
)
places (op_sparse_group_sparse_ftrl false) = (
  λ j h. (j, table_at 3 (after 3 (requirements (op_sparse_group_sparse_ftrl false))) j h),
  (3, refl),
  (11, refl),
  (12, refl),
)
places (op_sparse_group_sparse_ftrl true) = (
  λ j h. (j, table_at 3 (after 3 (requirements (op_sparse_group_sparse_ftrl true))) j h),
  (3, refl),
  (11, refl),
  (12, refl),
)
places (op_group_sparse_ftrl false) = (
  λ j h. (j, table_at 3 (after 3 (requirements (op_group_sparse_ftrl false))) j h),
  (3, refl),
  (10, refl),
  (11, refl),
)
places (op_group_sparse_ftrl true) = (
  λ j h. (j, table_at 3 (after 3 (requirements (op_group_sparse_ftrl true))) j h),
  (3, refl),
  (10, refl),
  (11, refl),
)
places op_sparse_adagrad = (
  λ j h. (j, table_at 2 (after 2 (requirements op_sparse_adagrad)) j h),
  (3, refl),
  (7, refl),
  (4, refl),
)
places op_sparse_adadelta = (
  λ j h. (j, table_at 3 (after 3 (requirements op_sparse_adadelta)) j h),
  (6, refl),
  (11, refl),
  (7, refl),
)
places op_group_sparse_adadelta = (
  λ j h. (j, table_at 4 (after 4 (requirements op_group_sparse_adadelta)) j h),
  (7, refl),
  (16, refl),
  (11, refl),
)
places op_group_sparse_momentum = (
  λ j h. (j, table_at 4 (after 4 (requirements op_group_sparse_momentum)) j h),
  (5, refl),
  (15, refl),
  (10, refl),
)
places op_group_sparse_ada_hessian = (
  λ j h. (j, table_at 5 (after 5 (requirements op_group_sparse_ada_hessian)) j h),
  (5, refl),
  (19, refl),
  (20, refl),
)
places op_group_sparse_lamb_hessian = (
  λ j h. (j, table_at 5 (after 5 (requirements op_group_sparse_lamb_hessian)) j h),
  (5, refl),
  (19, refl),
  (20, refl),
)
places op_sparse_ada_dqh = (
  λ j h. (j, table_at 3 (after 3 (requirements op_sparse_ada_dqh)) j h),
  (3, refl),
  (12, refl),
  (13, refl),
)
places op_group_sparse_ada_dqh_v2 = (
  λ j h. (j, table_at 4 (after 4 (requirements op_group_sparse_ada_dqh_v2)) j h),
  (4, refl),
  (17, refl),
  (18, refl),
)
places op_group_sparse_adam_v3 = (
  λ j h. (j, table_at 2 (after 2 (requirements op_group_sparse_adam_v3)) j h),
  (2, refl),
  (13, refl),
  (14, refl),
)
places op_group_sparse_adam_v4 = (
  λ j h. (j, table_at 2 (after 2 (requirements op_group_sparse_adam_v4)) j h),
  (2, refl),
  (13, refl),
  (14, refl),
)
places op_group_sparse_rectified_adam = (
  λ j h. (j, table_at 2 (after 2 (requirements op_group_sparse_rectified_adam)) j h),
  (2, refl),
  (13, refl),
  (14, refl),
)
places op_compute_group_ada_dqh_hp = (
  λ j h. (j, table_at 4 (after 4 (requirements op_compute_group_ada_dqh_hp)) j h),
  (4, refl),
  (11, refl),
  (12, refl),
)
places op_group_sparse_adam = (
  λ j h. (j, table_at 5 (after 5 (requirements op_group_sparse_adam)) j h),
  (5, refl),
  (19, refl),
  (20, refl),
)
places op_group_sparse_ams_grad = (
  λ j h. (j, table_at 5 (after 5 (requirements op_group_sparse_ams_grad)) j h),
  (5, refl),
  (19, refl),
  (20, refl),
)
places op_group_sparse_ada_belief = (
  λ j h. (j, table_at 5 (after 5 (requirements op_group_sparse_ada_belief)) j h),
  (5, refl),
  (19, refl),
  (20, refl),
)
places op_group_sparse_lamb = (
  λ j h. (j, table_at 5 (after 5 (requirements op_group_sparse_lamb)) j h),
  (5, refl),
  (19, refl),
  (20, refl),
)
places op_group_sparse_ada_dqh = (
  λ j h. (j, table_at 4 (after 4 (requirements op_group_sparse_ada_dqh)) j h),
  (4, refl),
  (17, refl),
  (18, refl),
)
places op_group_sparse_adam_v2 = (
  λ j h. (j, table_at 4 (after 4 (requirements op_group_sparse_adam_v2)) j h),
  (4, refl),
  (17, refl),
  (18, refl),
)
