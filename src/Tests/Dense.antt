-- ===== src/Tests/Dense.antt =====
-- The theorems on the dense variables and on packed slots (training_ops.cc) at concrete inputs.
use tfplus.Common.{ℕ, ◌≡◌, refl, true, false, none, arith, some, List, [], ◌∷◌}
use tfplus.Training.Dense.{Three, Tensors, chip, sparse_apply}
use tfplus.Training.Dense.Rows.{Sized, in_range, stop_at, follow, sparse_apply_lem}
use tfplus.Training.Actions.{assign, cover, blacklist}
use tfplus.Training.Rules.{Rates}
use tfplus.Training.Rules.Dqh.{ada_dqh_v2, group_hypergradient}
use tfplus.Training.Rules.Rectified.{rectified_adam, check_opt_dim_size}
use tfplus.Training.Rules.Rectified.Slots.{check_opt_dim_size-rectified_adam}
use tfplus.Tests.Training.{whole, rates}

abbrev two_rows : Tensors ℕ
two_rows = record {
  var = (1 ∷ []) ∷ (2 ∷ []) ∷ [];
  m = (3 ∷ []) ∷ (4 ∷ []) ∷ [];
  v = (5 ∷ []) ∷ (6 ∷ []) ∷ [];
}

-- puts a number before the row of var
abbrev put : ℕ → Three ℕ → Three ℕ
put a (var, m, v) = (a ∷ var, m, v)

-- the third index is out of range
abbrev items : List (ℕ × ℕ)
items = (1, 7) ∷ (1, 8) ∷ (2, 9) ∷ (0, 9) ∷ []

sparse_apply_example :
    (t' : Tensors ℕ) × (sparse_apply put 2 0 items two_rows ≡ some (stop_at put 2 0 items, t'))
    × Sized 2 t'
    × (chip t' 1 ≡ some (follow put 2 1 (in_range put 2 items) (2 ∷ [], 4 ∷ [], 6 ∷ [])))
sparse_apply_example =
    sparse_apply_lem put 2 0 items two_rows 1 (2 ∷ [], 4 ∷ [], 6 ∷ []) (refl, refl, refl) refl

sparse_apply_stops : stop_at put 2 0 items ≡ some 2
sparse_apply_stops = refl

sparse_apply_row :
    follow put 2 1 (in_range put 2 items) (2 ∷ [], 4 ∷ [], 6 ∷ [])
    ≡ (8 ∷ 7 ∷ 2 ∷ [], 4 ∷ [], 6 ∷ [])
sparse_apply_row = refl

abbrev row : List ℕ
row = 1 ∷ 2 ∷ []

-- the slots of a key in a row as short as the trained table's
rectified_adam_example :
    (check_opt_dim_size (2 ∷ 2 ∷ []) (2 ∷ 2 ∷ []) ≡ true)
    × (rectified_adam whole rates 2
          (record { r_t = 2; tractable = true; amsgrad = true })
          2
          row
          row
          (row ∷ [])
        ≡ none)
rectified_adam_example =
    check_opt_dim_size-rectified_adam whole rates 2
      (record { r_t = 2; tractable = true; amsgrad = true }) (2 ∷ 2 ∷ []) 2 row row row refl
      (omega arith)

abbrev faster : Rates ℕ
faster = record rates { lr = 2; beta1 = 2; use_nesterov = true }

abbrev slots : List ℕ
slots = 1 ∷ 2 ∷ 3 ∷ 4 ∷ 5 ∷ 6 ∷ []

ada_dqh_v2_run :
    ada_dqh_v2 whole faster 2 row row (row ∷ row ∷ row ∷ [])
    ≡ some (
      blacklist ∷ [],
      (assign (5 ∷ 10 ∷ []) ∷ cover ∷ [])
          ∷ (assign (2 ∷ 4 ∷ []) ∷ cover ∷ [])
          ∷ (assign row ∷ cover ∷ [])
          ∷ [],
    )
unfolding ada_dqh_v2
ada_dqh_v2_run = refl

group_hypergradient_run : group_hypergradient whole faster 2 row row ≡ (0 ∷ 0 ∷ [], 0 ∷ 0 ∷ [])
unfolding group_hypergradient
group_hypergradient_run = refl

rectified_run :
    rectified_adam whole faster 2
      (record { r_t = 2; tractable = true; amsgrad = true })
      1
      (1 ∷ [])
      (2 ∷ [])
      (slots ∷ [])
    ≡ some (blacklist ∷ [], (assign (4 ∷ 2 ∷ 11 ∷ 3 ∷ 5 ∷ 6 ∷ []) ∷ cover ∷ []) ∷ [])
unfolding rectified_adam
rectified_run = refl

intractable_run :
    rectified_adam whole rates 2
      (record { r_t = 2; tractable = false; amsgrad = true })
      1
      (1 ∷ [])
      (2 ∷ [])
      (slots ∷ [])
    ≡ some (blacklist ∷ [], (assign (1 ∷ 2 ∷ 4 ∷ 1 ∷ 5 ∷ 6 ∷ []) ∷ cover ∷ []) ∷ [])
unfolding rectified_adam
intractable_run = refl
