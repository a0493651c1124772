-- ===== src/Training/Rules/Dqh.antt =====
-- The second AdaDQH of training_ops.cc, COMPUTE_ADADQH of KvVariableGroupSparseApplyAdaDQHV2Op, and
-- COMPUTE_GROUPADADQHHG of KvVariableComputeGroupAdaDQHHPOp, which trains nothing.
use tfplus.Common.{ℕ, ◌||◌, List, [], ◌∷◌, none, some, if◌then◌else◌, map}
use tfplus.Training.Scalars.{
  Scalars, plus, minus, times, over, by, shifted, square, roots, norm, constant, l1_shrink,
  group_shrink,
}
use tfplus.Training.Rules.{Rates, Rule, kept, group_actions, blend}
use tfplus.Training.Rules.Lamb.{momentum_change, epsilon_adjust, at_least}

module _ {V : Type 0} (r : Scalars V) (rates : Rates V) (inner_dim : ℕ) where
  -- `sqrt(1 - beta2_power / beta2)`, the correction of the step before
  abbrev last_correction : V
  last_correction = r.sqrt (r.sub r.one (r.div rates.beta2_power rates.beta2))

  abbrev last_epsilon_adjust : V
  last_epsilon_adjust = r.mul rates.epsilon last_correction

  -- The slots are linear, m, v. The learning rate is in `alpha`, `l1`, `l2` and `l21`.
  unfoldable pub ada_dqh_v2 : Rule V
  unfolding group_shrink
  ada_dqh_v2 grad var (linear ∷ m ∷ v ∷ []) =
      let l1 = r.mul rates.l1 rates.lr in
      let l2 = r.mul rates.l2 rates.lr in
      let l21 = r.mul rates.l21 rates.lr in
      let alpha =
        r.div (r.mul rates.lr (r.sqrt (r.sub r.one rates.beta2_power)))
          (r.sub r.one rates.beta1_power) in
      let adjust = epsilon_adjust r rates inner_dim in
      let m_new = blend r rates inner_dim rates.beta1 m grad in
      let h = momentum_change r rates inner_dim m m_new in
      let v_new = blend r rates inner_dim rates.beta2 v (square r h) in
      let accum_new = at_least r rates inner_dim adjust (roots r v_new) in
      let accum = at_least r rates inner_dim last_epsilon_adjust (roots r v) in
      let linear' =
        plus r linear (minus r (by r m_new alpha) (times r (minus r accum_new accum) var)) in
      some (
        group_actions r rates inner_dim (
            group_shrink r l21 inner_dim (l1_shrink r l1 linear')
              (shifted r accum_new (r.mul r.two l2))),
        kept r rates inner_dim linear'
            ∷ kept r rates inner_dim m_new
            ∷ kept r rates inner_dim v_new
            ∷ [],
      )
  ada_dqh_v2 _ _ _ = none

  -- The rows of `lr_hg` and `eps_hg` of a key, from its rows of linear and v. The row of a filtered
  -- key is not written.
  unfoldable pub group_hypergradient : (linear v : List V) → List V × List V
  group_hypergradient linear v =
      let l1_linear = l1_shrink r rates.l1 linear in
      let l1_linear_norm = norm r l1_linear in
      let l21_norm = r.mul rates.l21 (r.sqrt (r.of_size inner_dim)) in
      let y = at_least r rates inner_dim last_epsilon_adjust (roots r v) in
      let deno = square r (shifted r y (r.mul (r.mul r.two rates.l2) rates.lr)) in
      let indicator =
        map
          (λ x.
            if r.less x last_epsilon_adjust || r.equal x last_epsilon_adjust
            then r.one
            else r.zero_of)
          (roots r v) in
      let ratio = r.sub r.one (r.div l21_norm l1_linear_norm) in
      let slope = r.mul (r.neg rates.lr) last_correction in
      if r.less l21_norm l1_linear_norm
      then (
        times r (by r (over r y deno) ratio) l1_linear,
        times r (by r (times r (map (λ x. r.div slope x) y) indicator) ratio) l1_linear,
      )
      else (constant r linear r.zero_of, constant r linear r.zero_of)
