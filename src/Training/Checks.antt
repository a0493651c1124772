-- ===== src/Training/Checks.antt =====
-- The checks that the operations of the Adam family in training_ops.cc make of their inputs, in
-- order, and `Compute` around them. The inputs after the tables are the gradient, the indices, the
-- learning rate, the powers of the betas, the betas, epsilon, l1, l2 and l21. The tensors of
-- TensorFlow are parameters: their sizes, and the value of one that is a scalar.
pub mod Accepted
pub mod Compute
use tfplus.Common.{
  ℕ, zero, suc, ◌+◌, ◌*◌, Bool, true, false, Option, none, some, List, [], ◌∷◌, ◌&&◌, not, ◌==◌,
  ltb, if◌then◌else◌,
}
use tfplus.Memory.{◌>>=◌}
use tfplus.HashMap.{IMap}
use tfplus.Embedding.Value.{EmbeddingValue}
use tfplus.Variable.{Floats}
use tfplus.Training.Scalars.{Scalars, not_below_zero}
use tfplus.Training.Rules.{Rule}
use tfplus.Training.Apply.{Table}
use tfplus.Training.Work.{Item, do_work}

-- by the number of the input: of a table, whether it is initialized and the shape of its values
pub record Inputs (V : Type 0) : Type 0 where
  pub initialized : ℕ → Bool
  pub value_shape : ℕ → List ℕ
  pub dims : ℕ → List ℕ
  pub scalar : ℕ → V

pub data Failure : Type 0 where
  uninitialized : (input : ℕ) → Failure
  not_a_vector : Failure
  not_a_scalar : (input : ℕ) → Failure
  different_shape : (input : ℕ) → Failure
  grad_dimension : (d : ℕ) → Failure
  grad_first_dimension : Failure
  empty_inner_dimension : Failure

-- `passed` has `inner_dim`; `crashed` is a dimension that the gradient does not have
pub data Checked : Type 0 where
  passed : (inner_dim : ℕ) → Checked
  failed : Failure → Checked
  crashed : Checked

-- `OP_REQUIRES`
abbrev pub require : Bool → Failure → Checked → Checked
require true f rest = rest
require false f rest = failed f

abbrev pub is_scalar : List ℕ → Bool
is_scalar [] = true
is_scalar _ = false

-- `IsSameSize`
abbrev pub same_size : List ℕ → List ℕ → Bool
same_size [] [] = true
same_size (d ∷ ds) (e ∷ es) = (d == e) && same_size ds es
same_size _ _ = false

-- the loop over the dimensions from `d` on, and the checks after it
unfoldable pub match_dims :
    (d n : ℕ) → (var_shape grad_shape : List ℕ) → (first inner_dim : ℕ) → Checked
match_dims d n [] grad_shape first inner_dim =
    require (first == n) grad_first_dimension
      (require (ltb 0 inner_dim) empty_inner_dimension (passed inner_dim))
match_dims d n (v ∷ var_shape) [] first inner_dim = crashed
match_dims d n (v ∷ var_shape) (g ∷ grad_shape) first inner_dim =
    let rest = match_dims (suc d) n var_shape grad_shape first (inner_dim * g) in
    require (v == g) (grad_dimension d) rest

module _ {V : Type 0} (inputs : Inputs V) where
  unfoldable pub all_initialized : (i n : ℕ) → Checked → Checked
  all_initialized i zero rest = rest
  all_initialized i (suc n) rest =
      require (inputs.initialized i) (uninitialized i) (all_initialized (suc i) n rest)

  -- the shapes of the slots' values, after the number of keys, against the variable's
  unfoldable pub same_shapes : (keys i n : ℕ) → Checked → Checked
  same_shapes keys i zero rest = rest
  same_shapes keys i (suc n) rest =
      require (same_size (keys ∷ inputs.value_shape 0) (keys ∷ inputs.value_shape i))
        (different_shape i) (same_shapes keys (suc i) n rest)

  -- the gradient against the shape of the variable's values
  unfoldable pub grad_checks : (n : ℕ) → (grad_shape : List ℕ) → Checked
  unfolding match_dims
  grad_checks n [] = crashed
  grad_checks n (first ∷ rest) = match_dims 1 n (inputs.value_shape 0) rest first 1

  module _ (r : Scalars V) where
    abbrev pub scalar_at : ℕ → Checked → Checked
    scalar_at i rest = require (is_scalar (inputs.dims i)) (not_a_scalar i) rest

    abbrev pub positive_at : ℕ → Checked → Checked
    positive_at i rest =
        require (is_scalar (inputs.dims i) && r.less r.zero_of (inputs.scalar i)) (not_a_scalar i)
          rest

    abbrev pub non_negative_at : ℕ → Checked → Checked
    non_negative_at i rest =
        require (is_scalar (inputs.dims i) && not_below_zero r (inputs.scalar i)) (not_a_scalar i)
          rest

    -- what follows `const int64_t N = indices.dim_size(0)`
    unfoldable pub shape_checks : (slots : ℕ) → (grad_shape : List ℕ) → (n : ℕ) → Checked
    unfolding same_shapes grad_checks
    shape_checks slots grad_shape n = same_shapes n 1 slots (grad_checks n grad_shape)

    -- what follows the checks on the tables, by the shape of the indices
    unfoldable pub input_checks : (slots : ℕ) → (indices_shape : List ℕ) → Checked
    unfolding shape_checks
    input_checks slots [] = failed not_a_vector
    input_checks slots (n ∷ more) = require (is_scalar more) not_a_vector (
        positive_at (slots + 3) (
          scalar_at (slots + 4) (
            scalar_at (slots + 5) (
              scalar_at (slots + 6) (
                scalar_at (slots + 7) (
                  scalar_at (slots + 8) (
                    non_negative_at (slots + 9) (
                      non_negative_at (slots + 10) (
                        non_negative_at (slots + 11)
                          (shape_checks slots (inputs.dims (slots + 1)) n))))))))))

    -- the checks of an operation with `slots` tables after the variable's
    unfoldable pub group_checks : (slots : ℕ) → Checked
    unfolding all_initialized input_checks
    group_checks slots =
        all_initialized 0 (suc slots) (input_checks slots (inputs.dims (slots + 2)))

    -- KvVariableGroupSparseApplyAdamOp: accum, linear, m, v
    unfoldable pub adam_checks : Checked
    unfolding group_checks
    adam_checks = group_checks 4

    -- KvVariableGroupSparseApplyAMSGradOp: vhat, linear, m, v
    unfoldable pub ams_grad_checks : Checked
    unfolding group_checks
    ams_grad_checks = group_checks 4

    -- KvVariableGroupSparseApplyAdaBeliefOp: accum, linear, m, v
    unfoldable pub ada_belief_checks : Checked
    unfolding group_checks
    ada_belief_checks = group_checks 4

    -- KvVariableGroupSparseApplyLambOp: accum, linear, m, v
    unfoldable pub lamb_checks : Checked
    unfolding group_checks
    lamb_checks = group_checks 4

    -- KvVariableGroupSparseApplyAdaDQHOp: m, v, linear
    unfoldable pub ada_dqh_checks : Checked
    unfolding group_checks
    ada_dqh_checks = group_checks 3

    -- KvVariableGroupSparseApplyAdamV2Op: linear, m, v
    unfoldable pub adam_v2_checks : Checked
    unfolding group_checks
    adam_v2_checks = group_checks 3

-- `Compute`: the status, and the tables; `if (N > 0)` is no case of its own, as the loop over no keys
-- does nothing
unfoldable pub compute :
    {V T : Type 0}
    → IMap EmbeddingValue T
    → Floats V
    → Checked
    → (ℕ → Rule V)
    → List (Item V)
    → Table V T
    → List (Table V T)
    → Option (Option Failure × Table V T × List (Table V T))
unfolding do_work
compute m floats checked rule items t slots = elim checked [
  | crashed ↦ none
  | failed f ↦ some (some f, t, slots)
  | passed inner_dim ↦ do
    (t', slots') ← do_work m floats (rule inner_dim) items t slots
    some (none, t', slots')
]
