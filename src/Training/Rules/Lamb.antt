-- ===== src/Training/Rules/Lamb.antt =====
-- The rules of training_ops.cc for LAMB and AdaDQH: COMPUTE_LAMB, COMPUTE_LAMBHESSIAN and
-- COMPUTE_ADADQH.
use tfplus.Common.{ℕ, List, [], ◌∷◌, ◌&&◌, Option, none, some, if◌then◌else◌, map}
use tfplus.Training.Scalars.{
  Scalars, minus, over, by, divided, shifted, square, roots, norm, group_shrink,
}
use tfplus.Training.Actions.{Action, assign}
use tfplus.Training.Rules.{Rates, Rule, kept, proximal, blend, denominator, shift_linear}

module _ {V : Type 0} (r : Scalars V) (rates : Rates V) (inner_dim : ℕ) where
  -- `var_norm / (r_norm + 1e-8)`, or 1 if a norm is not positive
  unfoldable pub trust_ratio : (var step : List V) → V
  trust_ratio var step =
      let r_norm = norm r step in
      let var_norm = norm r var in
      if r.less r.zero_of r_norm && r.less r.zero_of var_norm
      then r.div var_norm (r.add r_norm r.tiny)
      else r.one

  -- the macros after `m` and `v`; the slots are linear, accum, m, v
  abbrev lamb_step :
      (var linear accum m' v' : List V) → Option (List (Action V) × List (List (Action V)))
  lamb_step var linear accum m' v' =
      let new_m = divided r m' (r.sub r.one rates.beta1_power) in
      let new_accum = divided r v' (r.sub r.one rates.beta2_power) in
      let root = shifted r (roots r new_accum) rates.epsilon in
      let ratio = trust_ratio var (over r new_m root) in
      let linear' =
        shift_linear r rates inner_dim linear (by r new_m ratio) (roots r new_accum) (roots r accum)
          var in
      some (
        proximal r rates inner_dim linear' (denominator r rates inner_dim root),
        kept r rates inner_dim linear'
            ∷ kept r rates inner_dim new_accum
            ∷ kept r rates inner_dim m'
            ∷ kept r rates inner_dim v'
            ∷ [],
      )

  unfoldable pub lamb : Rule V
  unfolding group_shrink trust_ratio
  lamb grad var (linear ∷ accum ∷ m ∷ v ∷ []) =
      lamb_step var linear accum (blend r rates inner_dim rates.beta1 m grad)
        (blend r rates inner_dim rates.beta2 v (square r grad))
  lamb _ _ _ = none

  -- with the key's row of `hessian`
  unfoldable pub lamb_hessian : List V → Rule V
  unfolding group_shrink trust_ratio
  lamb_hessian hessian grad var (linear ∷ accum ∷ m ∷ v ∷ []) =
      lamb_step var linear accum (blend r rates inner_dim rates.beta1 m grad)
        (blend r rates inner_dim rates.beta2 v (square r hessian))
  lamb_hessian _ _ _ _ = none

  -- `m / beta`, the old momentum without its bias
  abbrev pub old_momentum : List V → List V
  old_momentum m = divided r m (
      if r.less rates.beta1_power rates.beta1
      then r.sub r.one (r.div rates.beta1_power rates.beta1)
      else r.one)

  -- `m_new / (1 - beta1_power) - m_old`
  abbrev pub momentum_change : (m m_new : List V) → List V
  momentum_change m m_new =
      minus r (divided r m_new (r.sub r.one rates.beta1_power)) (old_momentum m)

  abbrev pub epsilon_adjust : V
  epsilon_adjust = r.mul rates.epsilon (r.sqrt (r.sub r.one rates.beta2_power))

  abbrev pub at_least : V → List V → List V
  at_least a = map (λ x. r.most x a)

  -- KvVariableGroupSparseApplyAdaDQHOp; the slots are linear, m, v
  unfoldable pub ada_dqh : Rule V
  unfolding group_shrink
  ada_dqh grad var (linear ∷ m ∷ v ∷ []) =
      let alpha = r.div (r.sqrt (r.sub r.one rates.beta2_power)) (r.sub r.one rates.beta1_power) in
      let gamma = if r.less rates.beta1_power rates.beta1 then epsilon_adjust else r.zero_of in
      let m_new = blend r rates inner_dim rates.beta1 m grad in
      let v_new = blend r rates inner_dim rates.beta2 v (square r (momentum_change m m_new)) in
      let root = at_least epsilon_adjust (roots r v_new) in
      let linear' =
        shift_linear r rates inner_dim linear (by r m_new alpha) root (at_least gamma (roots r v))
          var in
      some (
        proximal r rates inner_dim linear' (denominator r rates inner_dim root),
        kept r rates inner_dim linear'
            ∷ kept r rates inner_dim m_new
            ∷ kept r rates inner_dim v_new
            ∷ [],
      )
  ada_dqh _ _ _ = none

  -- KvVariableSparseApplyAdaDQHOp, which sets no flags; the slots are m, v
  unfoldable pub sparse_ada_dqh : Rule V
  sparse_ada_dqh grad var (m ∷ v ∷ []) =
      let alpha =
        r.div (r.mul rates.lr (r.sqrt (r.sub r.one rates.beta2_power)))
          (r.sub r.one rates.beta1_power) in
      let m_new = blend r rates inner_dim rates.beta1 m grad in
      let v' = blend r rates inner_dim rates.beta2 v (square r (momentum_change m m_new)) in
      let step = over r (by r m_new alpha) (at_least epsilon_adjust (roots r v')) in
      some (assign (minus r var step) ∷ [], (assign m_new ∷ []) ∷ (assign v' ∷ []) ∷ [])
  sparse_ada_dqh _ _ _ = none
