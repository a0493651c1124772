-- ===== src/Training/Requirements.antt =====
-- What the operations of training_ops.cc require of their inputs before they work, in the order of
-- their `OP_REQUIRES`, and the run of such a list. The tensors of TensorFlow are parameters, as in
-- Training/Checks.antt.
pub mod Fulfilled
pub mod Refused
pub mod Keyed
pub mod Operations
pub mod Places
pub mod Fits
pub mod Dense
use tfplus.Common.{
  ℕ, zero, suc, ◌+◌, ◌*◌, ◌<◌, ◌≤◌, ◌≡◌, Bool, true, false, List, [], ◌∷◌, ◌++◌, ◌&&◌, ◌||◌, ◌==◌,
  ltb, length, if◌then◌else◌,
}
use tfplus.Training.Scalars.{Scalars, not_below_zero, not_above_zero}
use tfplus.Training.Checks.{Inputs, is_scalar, same_size}

-- each by the numbers of the inputs it looks at
pub data Requirement : Type 0 where
  initialized_table : (i : ℕ) → Requirement
  one_dimensional : (i : ℕ) → Requirement
  a_scalar : (i : ℕ) → Requirement
  a_legacy_scalar : (i : ℕ) → Requirement
  a_positive_scalar : (i : ℕ) → Requirement
  a_non_negative_scalar : (i : ℕ) → Requirement
  a_non_positive_scalar : (i : ℕ) → Requirement
  same_shape : (i : ℕ) → Requirement
  packed_shape : (parts i : ℕ) → Requirement
  vector_or_higher : Requirement
  grad_dims : (grad : ℕ) → Requirement
  grad_rows : (grad indices : ℕ) → Requirement
  positive_inner_dim : Requirement

-- `aborted` is a dimension that a tensor does not have
pub data Outcome : Type 0 where
  accepted : (inner_dim : ℕ) → Outcome
  refused : Requirement → Outcome
  aborted : Requirement → Outcome

abbrev pub when_met : Bool → Requirement → ℕ → Outcome
when_met true q inner = accepted inner
when_met false q inner = refused q

abbrev pub behind_first : List ℕ → List ℕ
behind_first [] = []
behind_first (d ∷ ds) = ds

-- the lambda `check_dim_size`
unfoldable pub check_dims : (parts : ℕ) → (var_shape opt_shape : List ℕ) → Bool
check_dims parts [] [] = true
check_dims parts (v ∷ var_shape) (o ∷ opt_shape) =
    ((v == o) || (v * parts == o)) && check_dims parts var_shape opt_shape
check_dims parts _ _ = false

-- the loop over the dimensions behind the first, with the product so far
unfoldable pub match_inner : (q : Requirement) → (var_shape grad_shape : List ℕ) → ℕ → Outcome
match_inner q [] grad_shape inner = accepted inner
match_inner q (v ∷ var_shape) [] inner = aborted q
match_inner q (v ∷ var_shape) (g ∷ grad_shape) inner =
    let rest = match_inner q var_shape grad_shape (inner * g) in if v == g then rest else refused q

unfoldable pub match_rows : (q : Requirement) → (grad_shape indices_shape : List ℕ) → ℕ → Outcome
match_rows q (g ∷ grad_shape) (n ∷ indices_shape) inner = when_met (g == n) q inner
match_rows q _ _ inner = aborted q

-- `IsLegacyScalar` of utility.cc
unfoldable pub is_legacy_scalar : List ℕ → Bool
is_legacy_scalar [] = true
is_legacy_scalar (d ∷ []) = d == 1
is_legacy_scalar _ = false

abbrev pub is_vector : List ℕ → Bool
is_vector (n ∷ []) = true
is_vector _ = false

module _ {V : Type 0} (inputs : Inputs V) (r : Scalars V) (shape : ℕ → List ℕ) where
  -- one `OP_REQUIRES`, or the loop around one, with `inner_dim` before and after
  unfoldable pub check : Requirement → ℕ → Outcome
  unfolding check_dims match_inner match_rows is_legacy_scalar
  check (initialized_table i) inner = when_met (inputs.initialized i) (initialized_table i) inner
  check (one_dimensional i) inner = when_met (is_vector (inputs.dims i)) (one_dimensional i) inner
  check (a_scalar i) inner = when_met (is_scalar (inputs.dims i)) (a_scalar i) inner
  check (a_legacy_scalar i) inner =
      when_met (is_legacy_scalar (inputs.dims i)) (a_legacy_scalar i) inner
  check (a_positive_scalar i) inner =
      when_met (is_scalar (inputs.dims i) && r.less r.zero_of (inputs.scalar i))
        (a_positive_scalar i) inner
  check (a_non_negative_scalar i) inner =
      when_met (is_scalar (inputs.dims i) && not_below_zero r (inputs.scalar i))
        (a_non_negative_scalar i) inner
  check (a_non_positive_scalar i) inner =
      when_met (is_scalar (inputs.dims i) && not_above_zero r (inputs.scalar i))
        (a_non_positive_scalar i) inner
  check (same_shape i) inner = when_met (same_size (shape 0) (shape i)) (same_shape i) inner
  check (packed_shape parts i) inner =
      when_met (check_dims parts (shape 0) (shape i)) (packed_shape parts i) inner
  check vector_or_higher inner = when_met (ltb 0 (length (shape 0))) vector_or_higher inner
  check (grad_dims g) inner =
      match_inner (grad_dims g) (behind_first (shape 0)) (behind_first (inputs.dims g)) inner
  check (grad_rows g x) inner = match_rows (grad_rows g x) (inputs.dims g) (inputs.dims x) inner
  check positive_inner_dim inner = when_met (ltb 0 inner) positive_inner_dim inner

  -- the list, which the first that is not met ends
  unfoldable pub run : List Requirement → ℕ → Outcome
  unfolding check
  run [] inner = accepted inner
  run (q ∷ qs) inner = elim (check q inner) [
    | accepted next ↦ run qs next
    | refused p ↦ refused p
    | aborted p ↦ aborted p
  ]
