-- ===== src/Training/Rules/Momentum.antt =====
-- The remaining rules of training_ops.cc with a table per slot: COMPUTE_MOMENTUM, COMPUTE_ADABELIEF
-- and COMPUTE_ADAHESSIAN, and the operations without groups.
use tfplus.Common.{ℕ, List, [], ◌∷◌, none, some, if◌then◌else◌, map, ltb}
use tfplus.Training.Scalars.{
  Scalars, plus, minus, times, over, scaled, by, divided, shifted, square, roots, constant,
  group_shrink,
}
use tfplus.Training.Actions.{Action, assign, cover}
use tfplus.Training.Rules.{Rates, Rule, kept, proximal, blend, denominator, shift_linear}

module _ {V : Type 0} (r : Scalars V) (rates : Rates V) (inner_dim : ℕ) where
  -- COMPUTE_MOMENTUM; the slots are linear, m, accum. `auto new_m = m` is a second name of the row
  -- `m`, so that the Nesterov step overwrites the slot.
  unfoldable pub momentum : Rule V
  unfolding group_shrink
  momentum grad var (linear ∷ m ∷ accum ∷ []) =
      let m' = plus r (by r m rates.momentum) grad in
      let new_m = if rates.use_nesterov then plus r (by r m' rates.momentum) grad else m' in
      let new_accum = constant r accum r.one in
      let linear' =
        shift_linear r rates inner_dim linear new_m (roots r new_accum) (roots r accum) var in
      some (
        proximal r rates inner_dim linear' (denominator r rates inner_dim (roots r new_accum)),
        kept r rates inner_dim linear'
            ∷ kept r rates inner_dim new_m
            ∷ kept r rates inner_dim new_accum
            ∷ [],
      )
  momentum _ _ _ = none

  -- the macros of AdaBelief and AdaHessian after `m` and `v`
  abbrev pub belief_step : (var linear accum m' v' : List V) → List (Action V) × List V × List V
  belief_step var linear accum m' v' =
      let new_accum = divided r v' (r.sub r.one rates.beta2_power) in
      let step = divided r m' (r.sub r.one rates.beta1_power) in
      let linear' =
        shift_linear r rates inner_dim linear step (roots r new_accum) (roots r accum) var in
      (
        proximal r rates inner_dim linear'
            (denominator r rates inner_dim (shifted r (roots r new_accum) rates.epsilon)),
        linear',
        new_accum,
      )

  -- COMPUTE_ADABELIEF; the slots are linear, accum, m, v
  unfoldable pub ada_belief : Rule V
  unfolding group_shrink
  ada_belief grad var (linear ∷ accum ∷ m ∷ v ∷ []) =
      let m' = blend r rates inner_dim rates.beta1 m grad in
      let v' = blend r rates inner_dim rates.beta2 v (square r (minus r grad m')) in
      let (actions, linear', new_accum) = belief_step var linear accum m' v' in
      some (
        actions,
        kept r rates inner_dim linear'
            ∷ kept r rates inner_dim new_accum
            ∷ kept r rates inner_dim m'
            ∷ kept r rates inner_dim v'
            ∷ [],
      )
  ada_belief _ _ _ = none

  -- COMPUTE_ADAHESSIAN, with the key's row of `hessian`; the slots are linear, accum, m, v
  unfoldable pub ada_hessian : List V → Rule V
  unfolding group_shrink
  ada_hessian hessian grad var (linear ∷ accum ∷ m ∷ v ∷ []) =
      let m' = blend r rates inner_dim rates.beta1 m grad in
      let v' = blend r rates inner_dim rates.beta2 v (square r hessian) in
      let (actions, linear', new_accum) = belief_step var linear accum m' v' in
      some (
        actions,
        (assign linear' ∷ cover ∷ cover ∷ [])
            ∷ kept r rates inner_dim new_accum
            ∷ kept r rates inner_dim m'
            ∷ kept r rates inner_dim v'
            ∷ [],
      )
  ada_hessian _ _ _ _ = none

  -- KvVariableSparseApplyAdagradOp
  unfoldable pub sparse_adagrad : Rule V
  sparse_adagrad grad var (accum ∷ []) =
      let accum' = if rates.update_slots then plus r accum (square r grad) else accum in
      let step =
        if ltb 1 inner_dim
        then times r (scaled r rates.lr grad) (map r.rsqrt accum')
        else over r (scaled r rates.lr grad) (roots r accum') in
      some (
        assign (minus r var step) ∷ [],
        (if rates.update_slots then assign accum' ∷ [] else []) ∷ [],
      )
  sparse_adagrad _ _ _ = none

  -- KvVariableSparseApplyAdadeltaOp
  unfoldable pub sparse_adadelta : Rule V
  sparse_adadelta grad var (accum ∷ accum_update ∷ []) =
      let rest = r.sub r.one rates.rho in
      let accum' = plus r (by r accum rates.rho) (by r (square r grad) rest) in
      let update =
        times r
          (times r (roots r (shifted r accum_update rates.epsilon))
            (map r.rsqrt (shifted r accum' rates.epsilon)))
          grad in
      some (
        assign (minus r var (by r update rates.lr)) ∷ [],
        (assign accum' ∷ [])
            ∷ (assign (plus r (by r accum_update rates.rho) (by r (square r update) rest)) ∷ [])
            ∷ [],
      )
  sparse_adadelta _ _ _ = none
