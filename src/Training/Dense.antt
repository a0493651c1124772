-- ===== src/Training/Dense.antt =====
-- The training of TensorFlow's own dense variables in training_ops.cc: the functors that update a
-- variable and its slots m and v as a whole, and the loop of the operations that update the rows with
-- the given indices.
pub mod Rows
use tfplus.Common.{
  ℕ, zero, suc, Bool, true, false, List, [], ◌∷◌, ◌&&◌, ◌||◌, Option, none, some, if◌then◌else◌,
  map, ltb, get_elem?, set,
}
use tfplus.Memory.{◌>>=◌}
use tfplus.Training.Scalars.{
  Scalars, plus, minus, times, over, scaled, by, divided, shifted, square, roots, norm,
}
use tfplus.Training.Rules.{Rates}

-- the elements of var, m and v, of all of a tensor or of one row
abbrev pub Three : Type 0 → Type 0
Three V = List V × List V × List V

module _ {V : Type 0} (r : Scalars V) (rates : Rates V) where
  -- `sqrt(1 - beta2_power) / (1 - beta1_power)`
  abbrev adjust : V
  adjust = r.div (r.sqrt (r.sub r.one rates.beta2_power)) (r.sub r.one rates.beta1_power)

  -- the same with the learning rate before it
  abbrev alpha : V
  alpha =
      r.div (r.mul rates.lr (r.sqrt (r.sub r.one rates.beta2_power)))
        (r.sub r.one rates.beta1_power)

  -- `row += (next - row) * (1 - beta)`
  abbrev drift : V → (row next : List V) → List V
  drift beta row next = plus r row (by r (minus r next row) (r.sub r.one beta))

  -- ApplyAdaHessian
  unfoldable pub apply_ada_hessian : (hessian grad : List V) → Three V → Three V
  apply_ada_hessian hessian grad (var, m, v) =
      let m' = drift rates.beta1 m grad in
      let v' = drift rates.beta2 v (square r hessian) in
      (minus r var (over r (by r m' alpha) (shifted r (roots r v') rates.epsilon)), m', v')

  -- ApplyAdaBelief
  unfoldable pub apply_ada_belief : (grad : List V) → Three V → Three V
  apply_ada_belief grad (var, m, v) =
      let m' = drift rates.beta1 m grad in
      let v' = drift rates.beta2 v (square r (minus r grad m')) in
      (
        minus r var
            (over r (by r (by r m' rates.lr) adjust) (shifted r (roots r v') rates.epsilon)),
        m',
        v',
      )

  -- the last step of ApplyLamb and ApplyLambHessian, after m and v
  abbrev lamb_var : (var m' v' : List V) → List V
  lamb_var var m' v' =
      let root = shifted r (roots r v') rates.epsilon in
      let r_norm = norm r (over r (by r m' adjust) root) in
      let var_norm = norm r var in
      let ratio =
        if r.less r.zero_of r_norm && r.less r.zero_of var_norm
        then r.div var_norm (r.add r_norm r.tiny)
        else r.one in
      minus r var (over r (by r (by r (by r m' rates.lr) adjust) ratio) root)

  -- ApplyLamb
  unfoldable pub apply_lamb : (grad : List V) → Three V → Three V
  apply_lamb grad (var, m, v) =
      let m' = drift rates.beta1 m grad in
      let v' = drift rates.beta2 v (square r grad) in (lamb_var var m' v', m', v')

  -- ApplyLambHessian
  unfoldable pub apply_lamb_hessian : (hessian grad : List V) → Three V → Three V
  apply_lamb_hessian hessian grad (var, m, v) =
      let m' = drift rates.beta1 m grad in
      let v' = drift rates.beta2 v (square r hessian) in (lamb_var var m' v', m', v')

  -- `m_new / (1 - beta1_power) - m / beta`
  abbrev change : (m m_new : List V) → List V
  change m m_new =
      let beta =
        if r.less rates.beta1_power rates.beta1
        then r.sub r.one (r.div rates.beta1_power rates.beta1)
        else r.one in
      minus r (divided r m_new (r.sub r.one rates.beta1_power)) (divided r m beta)

  -- ApplyAdaDQH; `m_new` is evaluated before m is written
  unfoldable pub apply_ada_dqh : (grad : List V) → Three V → Three V
  apply_ada_dqh grad (var, m, v) =
      let m_new = plus r (by r grad (r.sub r.one rates.beta1)) (by r m rates.beta1) in
      let v' = drift rates.beta2 v (square r (change m m_new)) in
      let lowest = r.mul rates.epsilon (r.sqrt (r.sub r.one rates.beta2_power)) in
      (
        minus r var (over r (by r m_new alpha) (map (λ x. r.most x lowest) (roots r v'))),
        drift rates.beta1 m grad,
        v',
      )

  -- ComputeAdaDQHHG: the hypergradients of the learning rate and of epsilon
  unfoldable pub ada_dqh_hypergradient :
      (sam : Bool) → (sam_alpha : V) → (delta m v : List V) → List V × List V
  ada_dqh_hypergradient sam sam_alpha delta m v =
      let last_power2 = r.sub r.one (r.div rates.beta2_power rates.beta2) in
      let adjust_bias =
        r.div (r.sqrt last_power2) (r.sub r.one (r.div rates.beta1_power rates.beta1)) in
      let epsilon_adjust = r.mul rates.epsilon (r.sqrt last_power2) in
      let deno = map (λ x. r.most x epsilon_adjust) (roots r v) in
      let indicator =
        map (λ x. if r.less x epsilon_adjust || r.equal x epsilon_adjust then r.one else r.zero_of)
          (roots r v) in
      let lr_hg = over r (scaled r (r.neg adjust_bias) m) deno in
      (
        if sam then minus r lr_hg (scaled r (r.sub r.one sam_alpha) delta) else lr_hg,
        times r (over r (scaled r (r.mul rates.lr adjust_bias) m) (square r deno)) indicator,
      )

  -- `beta * row + (1 - beta) * next`
  abbrev mixed : V → (row next : List V) → List V
  mixed beta row next = plus r (scaled r beta row) (scaled r (r.sub r.one beta) next)

  -- the body of the loop of SparseApplyAdaDQHOp, whose bound is `epsilon` itself
  unfoldable pub sparse_apply_ada_dqh : (grad : List V) → Three V → Three V
  sparse_apply_ada_dqh grad (var, m, v) =
      let m_new = mixed rates.beta1 m grad in
      let v' = mixed rates.beta2 v (square r (change m m_new)) in
      (
        minus r var (over r (by r m_new alpha) (map (λ x. r.most x rates.epsilon) (roots r v'))),
        mixed rates.beta1 m grad,
        v',
      )

  -- of SparseApplyAdaBeliefOp
  unfoldable pub sparse_apply_ada_belief : (grad : List V) → Three V → Three V
  sparse_apply_ada_belief grad (var, m, v) =
      let m' = mixed rates.beta1 m grad in
      let v' = mixed rates.beta2 v (square r (minus r grad m')) in
      (minus r var (over r (by r m' alpha) (shifted r (roots r v') rates.epsilon)), m', v')

  -- of SparseApplyAdaHessianOp
  unfoldable pub sparse_apply_ada_hessian : (hessian grad : List V) → Three V → Three V
  sparse_apply_ada_hessian hessian grad (var, m, v) =
      let m' = mixed rates.beta1 m grad in
      let v' = mixed rates.beta2 v (square r hessian) in
      (minus r var (over r (by r m' alpha) (shifted r (roots r v') rates.epsilon)), m', v')

-- the rows of the three tensors
pub record Tensors (V : Type 0) : Type 0 where
  pub var : List (List V)
  pub m : List (List V)
  pub v : List (List V)

-- `chip<0>(index)` of each
abbrev pub chip : {V : Type 0} → Tensors V → ℕ → Option (Three V)
chip t index = do
  var ← get_elem? t.var index
  m ← get_elem? t.m index
  v ← get_elem? t.v index
  some (var, m, v)

abbrev pub write : {V : Type 0} → Tensors V → ℕ → Three V → Tensors V
write t index (var, m, v) = record {
  var = set t.var index var;
  m = set t.m index m;
  v = set t.v index v;
}

-- The loop over the indices from offset `i` on, each with its rows of the gradient and of what else the
-- body reads, and as `FastBoundsCheck` reads it, an unsigned number. The status is the offset of the
-- first index out of range, which ends the loop; `none` is a row that a tensor does not have.
unfoldable pub sparse_apply :
    {V A : Type 0}
    → (A → Three V → Three V)
    → (first_dim_size i : ℕ) → List (ℕ × A)
    → Tensors V
    → Option (Option ℕ × Tensors V)
sparse_apply body first i [] t = some (none, t)
sparse_apply body first i ((index, a) ∷ rest) t = elim (ltb index first) [
  | true ↦ do
    rows ← chip t index
    sparse_apply body first (suc i) rest (write t index (body a rows))
  | false ↦ some (some i, t)
]
