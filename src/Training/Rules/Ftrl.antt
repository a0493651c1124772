-- ===== src/Training/Rules/Ftrl.antt =====
-- The macros COMPUTE_FTRL of training_ops.cc, which are registered with shrinkage. Their argument
-- `grad + 2 * l2_shrinkage * var` is an expression over the trained row: the sums into `accum` at
-- the end evaluate it once more, over the row as it is then.
use tfplus.Common.{ℕ, List, [], ◌∷◌, Option, none, some, if◌then◌else◌, map}
use tfplus.Training.Scalars.{
  Scalars, plus, minus, times, over, scaled, divided, shifted, square, roots, norm, l1_shrink,
  group_shrink,
}
use tfplus.Training.Actions.{Action, assign, cover, blacklist, reread}
use tfplus.Training.Rules.{Rates, Rule, kept}

module _ {V : Type 0} (r : Scalars V) (rates : Rates V) (inner_dim : ℕ) where
  -- `row.sqrt()` if the power is -0.5, else `row.pow(-lr_power)`
  abbrev power : List V → List V
  power row =
      if r.equal rates.lr_power r.minus_half
      then roots r row
      else map (λ x. r.pow x (r.neg rates.lr_power)) row

  abbrev pub with_shrinkage : (grad var : List V) → List V
  with_shrinkage grad var = plus r grad (scaled r (r.mul r.two rates.l2_shrinkage) var)

  abbrev pub next_accum : (grad var accum : List V) → List V
  next_accum grad var accum = plus r accum (square r (with_shrinkage grad var))

  abbrev pub next_linear : (grad var linear accum : List V) → List V
  next_linear grad var linear accum = plus r linear (
      minus r (with_shrinkage grad var) (
        times r (divided r (minus r (power (next_accum grad var accum)) (power accum)) rates.lr)
          var))

  -- `new_accum.sqrt() / lr + 2 * l2`
  abbrev pub denominator : (grad var accum : List V) → List V
  denominator grad var accum =
      shifted r (divided r (power (next_accum grad var accum)) rates.lr) (r.mul r.two rates.l2)

  -- the row that is trained, or the blacklist and the further reads of the freed row
  abbrev pub reading_actions : (reads : List (Action V)) → Option (List V) → List (Action V)
  reading_actions reads none = blacklist ∷ reads
  reading_actions reads (some vs) = assign vs ∷ cover ∷ reads

  -- the row that `var` holds after the branch
  abbrev pub row_then : (var : List V) → Option (List V) → List V
  row_then var none = var
  row_then var (some vs) = vs

  -- KvVariableSparseApplyFtrlOp, which sets no flags
  unfoldable pub sparse_ftrl : Rule V
  sparse_ftrl grad var (linear ∷ accum ∷ []) =
      let linear' = next_linear grad var linear accum in
      let var' = over r (l1_shrink r rates.l1 linear') (denominator grad var accum) in
      some
        (assign var' ∷ [], (assign linear' ∷ []) ∷ (assign (next_accum grad var' accum) ∷ []) ∷ [])
  sparse_ftrl _ _ _ = none

  -- KvVariableSparseGroupSparseApplyFtrlOp
  unfoldable pub sparse_group_ftrl : Rule V
  unfolding group_shrink
  sparse_group_ftrl grad var (linear ∷ accum ∷ []) =
      let linear' = next_linear grad var linear accum in
      let var' =
        group_shrink r rates.l21 inner_dim (l1_shrink r rates.l1 linear')
          (denominator grad var accum) in
      some (
        reading_actions (reread ∷ []) var',
        kept r rates inner_dim linear'
            ∷ kept r rates inner_dim (next_accum grad (row_then var var') accum)
            ∷ [],
      )
  sparse_group_ftrl _ _ _ = none

  -- the row of KvVariableGroupSparseApplyFtrlOp, if its norm is above `l1`
  unfoldable pub norm_shrink : (linear' y : List V) → Option (List V)
  norm_shrink linear' y =
      let linear_norm = norm r linear' in
      if r.less rates.l1 linear_norm
      then some
          (times r (map (λ e. r.div (r.sub rates.l1 linear_norm) (r.mul e linear_norm)) y) linear')
      else none

  -- KvVariableGroupSparseApplyFtrlOp, which adds the square to `accum` twice
  unfoldable pub group_ftrl : Rule V
  unfolding norm_shrink
  group_ftrl grad var (linear ∷ accum ∷ []) =
      let linear' = next_linear grad var linear accum in
      let var' = norm_shrink linear' (denominator grad var accum) in
      let then_var = row_then var var' in
      some (
        reading_actions (reread ∷ reread ∷ []) var',
        kept r rates inner_dim linear'
            ∷ (assign (next_accum grad then_var accum)
                ∷ kept r rates inner_dim
                    (next_accum grad then_var (next_accum grad then_var accum)))
            ∷ [],
      )
  group_ftrl _ _ _ = none
