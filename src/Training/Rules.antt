-- ===== src/Training/Rules.antt =====
-- The macros of training_ops.cc, each as a rule on the rows of one key: from the gradient, the row
-- that is trained and those of the slots to the actions on each table. An `auto` of Eigen is an
-- expression that is evaluated where it is used, over the rows as they are then.
pub mod Ftrl
pub mod Momentum
pub mod Lamb
pub mod Packed
pub mod Dqh
pub mod Rectified
pub mod Sound
pub mod Shapes
pub mod Freed
use tfplus.Common.{ℕ, Bool, List, [], ◌∷◌, Option, none, some, if◌then◌else◌}
use tfplus.Training.Scalars.{
  Scalars, plus, minus, times, over, scaled, by, divided, shifted, square, roots, larger, l1_shrink,
  group_shrink,
}
use tfplus.Training.Actions.{Action, assign, cover, blacklist, reread}

-- the actions on the table that is trained, and on each slot's
abbrev pub Actions : Type 0 → Type 0
Actions V = List (Action V) × List (List (Action V))

-- `none` is a wrong number of slots
abbrev pub Rule : Type 0 → Type 0
Rule V = (grad var : List V) → (slots : List (List V)) → Option (Actions V)

-- the scalars that the operations read from their inputs
pub record Rates (V : Type 0) : Type 0 where
  pub lr : V
  pub beta1_power : V
  pub beta2_power : V
  pub beta1 : V
  pub beta2 : V
  pub epsilon : V
  pub rho : V
  pub lr_power : V
  pub momentum : V
  pub l1 : V
  pub l2 : V
  pub l21 : V
  pub l2_shrinkage : V
  pub use_nesterov : Bool
  pub update_slots : Bool

module _ {V : Type 0} (r : Scalars V) (rates : Rates V) (inner_dim : ℕ) where
  -- what the end of a macro does to the trained table: the row and its flag, or the blacklist
  abbrev pub group_actions : Option (List V) → List (Action V)
  group_actions none = blacklist ∷ []
  group_actions (some vs) = assign vs ∷ cover ∷ []

  abbrev pub kept : List V → List (Action V)
  kept vs = assign vs ∷ cover ∷ []

  -- `l1_linear` and the branch on its norm
  abbrev pub proximal : (linear y : List V) → List (Action V)
  proximal linear y =
      group_actions (group_shrink r rates.l21 inner_dim (l1_shrink r rates.l1 linear) y)

  -- `(root + adjust) / lr + 2 * l2`
  abbrev pub denominator : List V → List V
  denominator root = shifted r (divided r root rates.lr) (r.mul r.two rates.l2)

  -- `linear + step - (new_root - old_root) / lr * var`
  abbrev pub shift_linear : (linear step new_root old_root var : List V) → List V
  shift_linear linear step new_root old_root var =
      plus r linear (minus r step (times r (divided r (minus r new_root old_root) rates.lr) var))

  -- `beta * row + (1 - beta) * next`
  abbrev pub blend : V → (row next : List V) → List V
  blend beta row next = plus r (scaled r beta row) (scaled r (r.sub r.one beta) next)

  -- COMPUTE_ADAM of KvVariableGroupSparseApplyAdamOp; the slots are m, v, linear, accum
  unfoldable pub adam : Rule V
  unfolding group_shrink
  adam grad var (m ∷ v ∷ linear ∷ accum ∷ []) =
      let m' = blend rates.beta1 m grad in
      let v' = blend rates.beta2 v (square r grad) in
      let new_accum = divided r v' (r.sub r.one rates.beta2_power) in
      let epsilon_adjust = r.div rates.epsilon (r.sqrt (r.sub r.one rates.beta2_power)) in
      let step = divided r m' (r.sub r.one rates.beta1_power) in
      let new_root = roots r new_accum in
      let linear' =
        if r.less rates.beta1_power rates.beta1
        then shift_linear linear step new_root (roots r accum) var
        else plus r linear (
            minus r step (
              times r
                (divided r (shifted r (minus r new_root (roots r accum)) epsilon_adjust) rates.lr)
                var)) in
      some (
        proximal linear' (denominator (shifted r new_root epsilon_adjust)),
        kept m' ∷ kept v' ∷ kept linear' ∷ kept new_accum ∷ [],
      )
  adam _ _ _ = none

  -- COMPUTE_AMSGrad; the slots are vhat, m, v, linear
  unfoldable pub ams_grad : Rule V
  unfolding group_shrink
  ams_grad grad var (vhat ∷ m ∷ v ∷ linear ∷ []) =
      let m' = blend rates.beta1 m grad in
      let v' = blend rates.beta2 v (square r grad) in
      let new_vhat = larger r vhat (divided r v' (r.sub r.one rates.beta2_power)) in
      let step = divided r m' (r.sub r.one rates.beta1_power) in
      let linear' = shift_linear linear step (roots r new_vhat) (roots r vhat) var in
      some (
        proximal linear' (denominator (shifted r (roots r new_vhat) rates.epsilon)),
        kept new_vhat ∷ kept m' ∷ kept v' ∷ kept linear' ∷ [],
      )
  ams_grad _ _ _ = none

  -- COMPUTE_ADADELTA; the slots are linear, accum, accum_update. The last assignment evaluates
  -- `new_accum` again, after `accum` has been overwritten by it.
  unfoldable pub adadelta : Rule V
  unfolding group_shrink
  adadelta grad var (linear ∷ accum ∷ accum_update ∷ []) =
      let new_accum = λ (row : List V).
        plus r (by r row rates.rho) (scaled r (r.sub r.one rates.rho) (square r grad)) in
      let m = times r (roots r (shifted r accum_update rates.epsilon)) grad in
      let accum' = new_accum accum in
      let linear' = shift_linear linear m (roots r accum') (roots r accum) var in
      some (
        proximal linear' (denominator (roots r (shifted r accum' rates.epsilon))),
        kept linear'
            ∷ kept accum'
            ∷ kept (
                plus r (by r accum_update rates.rho) (
                  over r (scaled r (r.sub r.one rates.rho) (square r m))
                    (shifted r (new_accum accum') rates.epsilon)))
            ∷ [],
      )
  adadelta _ _ _ = none
