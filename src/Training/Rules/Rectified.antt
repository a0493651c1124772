-- ===== src/Training/Rules/Rectified.antt =====
-- The rectified Adam of training_ops.cc: COMPUTE_RECTFIED_ADAM and APPLY_RECTIFIED_ADAM of
-- KvVariableGroupSparseApplyRectifiedAdamOp, whose five slots lie in one row.
pub mod Slots
use tfplus.Common.{
  ℕ, Bool, true, false, ◌*◌, ◌==◌, ◌||◌, ◌&&◌, List, [], ◌∷◌, ◌++◌, Option, none, some,
  if◌then◌else◌,
}
use tfplus.Memory.{◌>>=◌}
use tfplus.Training.Scalars.{
  Scalars, plus, minus, times, by, scaled, divided, shifted, constant, square, roots, larger,
  group_shrink,
}
use tfplus.Training.Actions.{Action}
use tfplus.Training.Rules.{Rates, Rule, kept, proximal, blend}
use tfplus.Training.Rules.Packed.{cut, unpack}

-- the inputs that only this operation has
pub record Rectification (V : Type 0) : Type 0 where
  pub r_t : V
  pub tractable : Bool
  pub amsgrad : Bool

-- the five `FlatVector`s of a slot row, and what lies behind them
pub record SlotRows (V : Type 0) : Type 0 where
  pub m : List V
  pub v : List V
  pub linear : List V
  pub vhat : List V
  pub vamsgrad : List V
  pub behind : List V

unfoldable pub unpack_slots : {V : Type 0} → ℕ → List V → Option (SlotRows V)
unfolding unpack
unpack_slots dim row = do
  (m, v, linear, rest) ← unpack dim row
  (vhat, rest') ← cut dim rest
  (vamsgrad, behind) ← cut dim rest'
  some (record { m = m; v = v; linear = linear; vhat = vhat; vamsgrad = vamsgrad; behind = behind })

abbrev pub pack_slots : {V : Type 0} → SlotRows V → List V
pack_slots s = s.m ++ (s.v ++ (s.linear ++ (s.vhat ++ (s.vamsgrad ++ s.behind))))

-- `check_dim_size`, on the sizes of the dimensions of the two shapes
unfoldable pub check_opt_dim_size : List ℕ → List ℕ → Bool
check_opt_dim_size [] [] = true
check_opt_dim_size (d ∷ var_shape) (e ∷ opt_shape) =
    ((d == e) || (d * 5 == e)) && check_opt_dim_size var_shape opt_shape
check_opt_dim_size _ _ = false

module _ {V : Type 0} (r : Scalars V) (rates : Rates V) (inner_dim : ℕ) where
  -- `m` as the step uses it. `m_corr` is the row itself under another name, so the look ahead of
  -- Nesterov stays in the row of `m`.
  unfoldable pub corrected_m : (grad m : List V) → List V
  corrected_m grad m =
      let m' = blend r rates inner_dim rates.beta1 m grad in
      if rates.use_nesterov
      then plus r (by r grad (r.sub r.one rates.beta1)) (scaled r rates.beta1 m')
      else m'

  -- `(root / alpha + epsilon) / lr`
  abbrev scale : (root : List V) → List V
  scale root =
      let alpha = r.sqrt (r.sub r.one rates.beta2_power) in
      divided r (shifted r (divided r root alpha) rates.epsilon) rates.lr

  -- `radam_m`, `radam_v` and the new `vamsgrad`
  unfoldable pub rectify :
      Rectification V → (m new_v vamsgrad : List V) → List V × (List V × List V)
  rectify q m new_v vamsgrad =
      let rectified = divided r (scaled r q.r_t m) (r.sub r.one rates.beta1_power) in
      let greatest = larger r new_v vamsgrad in
      if q.tractable
      then if q.amsgrad
        then (rectified, (scale (roots r greatest), greatest))
        else (rectified, (scale (roots r new_v), vamsgrad))
      else (
        divided r m (r.sub r.one rates.beta1_power),
        (divided r (constant r new_v r.one) rates.lr, vamsgrad),
      )

  -- the macro on the slots of a key
  unfoldable pub rectified_step :
      Rectification V → (grad var : List V) → SlotRows V → List (Action V) × SlotRows V
  unfolding group_shrink corrected_m rectify
  rectified_step q grad var s =
      let m' = corrected_m grad s.m in
      let new_v = blend r rates inner_dim rates.beta2 s.v (square r grad) in
      let (radam_m, (radam_v, vamsgrad')) = rectify q m' new_v s.vamsgrad in
      let linear' = plus r s.linear (minus r radam_m (times r (minus r radam_v s.vhat) var)) in
      (
        proximal r rates inner_dim linear' (shifted r radam_v (r.mul r.two rates.l2)),
        record s { m = m'; v = new_v; linear = linear'; vhat = radam_v; vamsgrad = vamsgrad' },
      )

  unfoldable pub rectified_adam : Rectification V → (embedding_dim_size : ℕ) → Rule V
  unfolding rectified_step unpack_slots
  rectified_adam q dim grad var (row ∷ []) = do
    s ← unpack_slots dim row
    let (actions, s') = rectified_step q grad var s
    some (actions, kept r rates inner_dim (pack_slots s') ∷ [])
  rectified_adam q dim grad var _ = none
