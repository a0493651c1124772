-- ===== src/Training/Rules/Packed.antt =====
-- The rules of training_ops.cc of the second to the fourth Adam: one with a table per slot, and two
-- with one table for the slots m, v and linear of a key, side by side in one row.
pub mod Slots
use tfplus.Common.{
  ℕ, zero, suc, ◌+◌, ◌*◌, Bool, true, false, List, [], ◌∷◌, ◌++◌, Option, none, some, if◌then◌else◌,
  ◌==◌, ◌||◌, ◌&&◌,
}
use tfplus.Memory.{◌>>=◌}
use tfplus.Training.Scalars.{
  Scalars, plus, minus, times, over, scaled, divided, shifted, square, roots, l1_shrink,
  group_shrink,
}
use tfplus.Training.Actions.{Action, assign, cover, blacklist}
use tfplus.Training.Rules.{
  Rates, Rule, kept, proximal, group_actions, blend, denominator, shift_linear,
}

-- a `TensorMap` of `n` elements at the front of the memory; beyond the end it faults
abbrev pub cut : {V : Type 0} → ℕ → List V → Option (List V × List V)
cut zero row = some ([], row)
cut (suc n) [] = none
cut (suc n) (x ∷ row) = elim (cut n row) [ none ↦ none | some (a, rest) ↦ some (x ∷ a, rest) ]

-- the three `FlatVector`s of a packed row, and what lies behind them
unfoldable pub unpack : {V : Type 0} → ℕ → List V → Option (List V × List V × List V × List V)
unpack dim row = do
  (m, rest) ← cut dim row
  (v, rest') ← cut dim rest
  (linear, behind) ← cut dim rest'
  some (m, v, linear, behind)

-- `check_dim_size`, on the sizes of the dimensions of the two shapes
unfoldable pub check_dim_size : List ℕ → List ℕ → Bool
check_dim_size [] [] = true
check_dim_size (d ∷ var_shape) (e ∷ opt_shape) =
    ((d == e) || (d * 3 == e)) && check_dim_size var_shape opt_shape
check_dim_size _ _ = false

module _ {V : Type 0} (r : Scalars V) (rates : Rates V) (inner_dim : ℕ) where
  -- what a macro makes of the rows
  pub record Next : Type 0 where
    pub actions : List (Action V)
    pub next_m : List V
    pub next_v : List V
    pub next_linear : List V

  -- COMPUTE_ADAM of the second and of the third Adam
  abbrev pub adam_step : (grad var m v linear : List V) → Next
  adam_step grad var m v linear =
      let alpha = r.div (r.sqrt (r.sub r.one rates.beta2_power)) (r.sub r.one rates.beta1_power) in
      let m' = blend r rates inner_dim rates.beta1 m grad in
      let new_v = blend r rates inner_dim rates.beta2 v (square r grad) in
      let grown = minus r (roots r new_v) (roots r v) in
      let change =
        if r.less rates.beta1_power rates.beta1 then grown else shifted r grown rates.epsilon in
      let linear' =
        plus r linear (minus r (scaled r alpha m') (times r (divided r change rates.lr) var)) in
      record {
        actions =
            proximal r rates inner_dim linear'
              (denominator r rates inner_dim (shifted r (roots r new_v) rates.epsilon));
        next_m = m';
        next_v = new_v;
        next_linear = linear';
      }

  -- KvVariableGroupSparseApplyAdamV2Op; the slots are linear, m, v. The flag of `v` is set before its
  -- row.
  unfoldable pub adam_v2 : Rule V
  unfolding group_shrink
  adam_v2 grad var (linear ∷ m ∷ v ∷ []) =
      let n = adam_step grad var m v linear in
      some (
        n.actions,
        kept r rates inner_dim n.next_linear
            ∷ kept r rates inner_dim n.next_m
            ∷ (cover ∷ assign n.next_v ∷ [])
            ∷ [],
      )
  adam_v2 _ _ _ = none

  abbrev packed : Next → List V → List V
  packed n behind = n.next_m ++ (n.next_v ++ (n.next_linear ++ behind))

  -- KvVariableGroupSparseApplyAdamV3Op, whose slots lie in one row
  unfoldable pub adam_v3 : (embedding_dim_size : ℕ) → Rule V
  unfolding group_shrink unpack
  adam_v3 dim grad var (row ∷ []) = do
    (m, v, linear, behind) ← unpack dim row
    let n = adam_step grad var m v linear
    some (n.actions, kept r rates inner_dim (packed n behind) ∷ [])
  adam_v3 dim _ _ _ = none

  -- COMPUTE_ADAM of the fourth Adam, in which the learning rate is in `alpha`, `l1`, `l2` and `l21`
  abbrev pub adam_step_v4 : (grad var m v linear : List V) → Next
  adam_step_v4 grad var m v linear =
      let l1 = r.mul rates.l1 rates.lr in
      let l2 = r.mul rates.l2 rates.lr in
      let l21 = r.mul rates.l21 rates.lr in
      let alpha =
        r.div (r.mul rates.lr (r.sqrt (r.sub r.one rates.beta2_power)))
          (r.sub r.one rates.beta1_power) in
      let m' = blend r rates inner_dim rates.beta1 m grad in
      let new_v = blend r rates inner_dim rates.beta2 v (square r grad) in
      let change =
        if r.less rates.beta1_power rates.beta1
        then minus r (roots r new_v) (roots r v)
        else shifted r (roots r new_v) rates.epsilon in
      let linear' = plus r linear (minus r (scaled r alpha m') (times r change var)) in
      record {
        actions = group_actions r rates inner_dim (
            group_shrink r l21 inner_dim (l1_shrink r l1 linear')
              (shifted r (shifted r (roots r new_v) rates.epsilon) (r.mul r.two l2)));
        next_m = m';
        next_v = new_v;
        next_linear = linear';
      }

  -- KvVariableGroupSparseApplyAdamV4Op
  unfoldable pub adam_v4 : (embedding_dim_size : ℕ) → Rule V
  unfolding group_shrink unpack
  adam_v4 dim grad var (row ∷ []) = do
    (m, v, linear, behind) ← unpack dim row
    let n = adam_step_v4 grad var m v linear
    some (n.actions, kept r rates inner_dim (packed n behind) ∷ [])
  adam_v4 dim _ _ _ = none
