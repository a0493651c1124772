-- ===== src/Training/Requirements/Fulfilled.antt =====
-- What each requirement of training_ops.cc says of the inputs, and that a run accepts exactly the
-- inputs of which the whole list holds.
use tfplus.Common.{
  ℕ, ◌*◌, ◌<◌, ◌≡◌, refl, sym, ap, ◌∙◌, ◌↔◌, ◌⊎◌, Bool, true, false, List, [], ◌∷◌, ◌++◌, ◌&&◌,
  ◌||◌, ◌==◌, ltb, length, arith, ==_iff, Bool-cases, inl, inr, subst,
}
use tfplus.Training.Scalars.{Scalars, not_below_zero, not_above_zero}
use tfplus.Training.Checks.{Inputs, is_scalar, same_size}
use tfplus.Training.Checks.Accepted.{product, same_size-eq, is_scalar_nil, and_true}
use tfplus.Training.Requirements.{
  Requirement, initialized_table, one_dimensional, a_scalar, a_legacy_scalar, a_positive_scalar,
  a_non_negative_scalar, a_non_positive_scalar, same_shape, packed_shape, vector_or_higher,
  grad_dims, grad_rows, positive_inner_dim, Outcome, accepted, refused, aborted, when_met,
  behind_first, check_dims, match_inner, match_rows, is_vector, is_legacy_scalar, check, run,
}

-- a shape that is the other's, or `parts` times as long, in each dimension
pub data Packed (parts : ℕ) : List ℕ → List ℕ → Type 0 where
  none_left : Packed parts [] []
  as_long : {v : ℕ} → {vs os : List ℕ} → Packed parts vs os → Packed parts (v ∷ vs) (v ∷ os)
  times_as_long :
      {v : ℕ} → {vs os : List ℕ} → Packed parts vs os → Packed parts (v ∷ vs) (v * parts ∷ os)

same_size_refl : (ds : List ℕ) → same_size ds ds ≡ true
same_size_refl [] = refl
same_size_refl (d ∷ ds) = ground (arith, same_size_refl ds, (==_iff d d).1)

check_dims_lem : (parts : ℕ) (vs os : List ℕ) → check_dims parts vs os ≡ true → Packed parts vs os
unfolding check_dims
check_dims_lem parts [] [] e = none_left
check_dims_lem parts [] (o ∷ os) e = cc
check_dims_lem parts (v ∷ vs) [] e = cc
check_dims_lem parts (v ∷ vs) (o ∷ os) e =
    let (here, later) = and_true ((v == o) || (v * parts == o)) (check_dims parts vs os) e in
    let rest = check_dims_lem parts vs os later in
    elim (Bool-cases (v == o)) [
      | inl same ↦ subst (λ x. Packed parts (v ∷ vs) (x ∷ os)) ((==_iff v o).0 same) (as_long rest)
      | inr differ ↦
          subst (λ x. Packed parts (v ∷ vs) (x ∷ os))
            ((==_iff (v * parts) o).0 (ground (arith, here, differ))) (times_as_long rest)
    ]

check_dims_complete :
    (parts : ℕ) (vs os : List ℕ) → Packed parts vs os → check_dims parts vs os ≡ true
unfolding check_dims
check_dims_complete parts [] [] none_left = refl
check_dims_complete parts [] (o ∷ os) p = elim p [ ]
check_dims_complete parts (v ∷ vs) [] p = elim p [ ]
check_dims_complete parts (v ∷ vs) (_) (as_long {os = os} p) =
    ground (arith, check_dims_complete parts vs os p, (==_iff v v).1)
check_dims_complete parts (v ∷ vs) (_) (times_as_long {os = os} p) =
    ground (arith, check_dims_complete parts vs os p, (==_iff (v * parts) (v * parts)).1)

pub Outcome-cases :
    (o : Outcome)
    → ((k : ℕ) × (o ≡ accepted k))
      ⊎ ((q : Requirement) × (o ≡ refused q))
      ⊎ ((q : Requirement) × (o ≡ aborted q))
Outcome-cases (accepted k) = inl (k, refl)
Outcome-cases (refused q) = inr (inl (q, refl))
Outcome-cases (aborted q) = inr (inr (q, refl))

is_legacy_scalar_lem : (ds : List ℕ) → is_legacy_scalar ds ≡ true → (ds ≡ []) ⊎ (ds ≡ 1 ∷ [])
unfolding is_legacy_scalar
is_legacy_scalar_lem [] e = inl refl
is_legacy_scalar_lem (d ∷ []) e = inr (ap (λ x. x ∷ []) ((==_iff d 1).0 e))
is_legacy_scalar_lem (d ∷ c ∷ ds) e = cc

when_met_lem :
    (b : Bool) (q : Requirement) (i j : ℕ) → when_met b q i ≡ accepted j → (b ≡ true) × (j ≡ i)
when_met_lem true q i j e = (refl, cc)
when_met_lem false q i j e = cc

module _ {V : Type 0} (inputs : Inputs V) (r : Scalars V) (shape : ℕ → List ℕ) where
  -- a requirement as a proposition, with the product of the dimensions so far
  unfoldable pub Holds : Requirement → ℕ → Type 0
  Holds (initialized_table i) inner = inputs.initialized i ≡ true
  Holds (one_dimensional i) inner = (n : ℕ) × (inputs.dims i ≡ n ∷ [])
  Holds (a_scalar i) inner = inputs.dims i ≡ []
  Holds (a_legacy_scalar i) inner = (inputs.dims i ≡ []) ⊎ (inputs.dims i ≡ 1 ∷ [])
  Holds (a_positive_scalar i) inner =
      (inputs.dims i ≡ []) × (r.less r.zero_of (inputs.scalar i) ≡ true)
  Holds (a_non_negative_scalar i) inner =
      (inputs.dims i ≡ []) × (not_below_zero r (inputs.scalar i) ≡ true)
  Holds (a_non_positive_scalar i) inner =
      (inputs.dims i ≡ []) × (not_above_zero r (inputs.scalar i) ≡ true)
  Holds (same_shape i) inner = shape 0 ≡ shape i
  Holds (packed_shape parts i) inner = Packed parts (shape 0) (shape i)
  Holds vector_or_higher inner = 0 < length (shape 0)
  Holds (grad_dims g) inner =
      (more : List ℕ) × (behind_first (inputs.dims g) ≡ behind_first (shape 0) ++ more)
  Holds (grad_rows g x) inner =
      (n : ℕ) × (more others : List ℕ) × (inputs.dims g ≡ n ∷ more) × (inputs.dims x ≡ n ∷ others)
  Holds positive_inner_dim inner = 0 < inner

  abbrev pub inner_after : Requirement → ℕ → ℕ
  inner_after (grad_dims g) inner = product inner (behind_first (shape 0))
  inner_after _ inner = inner

  -- the whole list, from one product to another
  unfoldable pub Fulfilled : List Requirement → ℕ → ℕ → Type 0
  unfolding Holds
  Fulfilled [] i j = i ≡ j
  Fulfilled (q ∷ qs) i j = Holds q i × Fulfilled qs (inner_after q i) j

  match_inner_lem :
      (q : Requirement) (vs gs : List ℕ) (i j : ℕ)
      → match_inner q vs gs i ≡ accepted j
      → ((more : List ℕ) × (gs ≡ vs ++ more)) × (j ≡ product i vs)
  unfolding match_inner
  match_inner_lem q [] gs i j e = ((gs, refl), cc)
  match_inner_lem q (v ∷ vs) [] i j e = cc
  match_inner_lem q (v ∷ vs) (g ∷ gs) i j e = elim (Bool-cases (v == g)) [
    | inl same ↦
        let ((more, eq), p) = match_inner_lem q vs gs (i * g) j (ground (arith, same, e)) in
        let here = (==_iff v g).0 same in
        ((more, ground (arith, here, eq)), p ∙ ap (λ x. product (i * x) vs) (sym here))
    | inr differ ↦ ground (arith, differ, e)
  ]

  match_inner_complete :
      (q : Requirement) (vs more : List ℕ) (i : ℕ)
      → match_inner q vs (vs ++ more) i ≡ accepted (product i vs)
  unfolding match_inner
  match_inner_complete q [] more i = refl
  match_inner_complete q (v ∷ vs) more i =
      ground (arith, match_inner_complete q vs more (i * v), (==_iff v v).1)

  match_rows_lem :
      (q : Requirement) (gs ns : List ℕ) (i j : ℕ)
      → match_rows q gs ns i ≡ accepted j
      → ((n : ℕ) × (more others : List ℕ) × (gs ≡ n ∷ more) × (ns ≡ n ∷ others)) × (j ≡ i)
  unfolding match_rows
  match_rows_lem q [] ns i j e = cc
  match_rows_lem q (g ∷ gs) [] i j e = cc
  match_rows_lem q (g ∷ gs) (n ∷ ns) i j e =
      let (same, eq) = when_met_lem (g == n) q i j e in
      ((n, gs, ns, ap (λ x. x ∷ gs) ((==_iff g n).0 same), refl), eq)

  and_both : (a b : Bool) → a ≡ true → b ≡ true → (a && b) ≡ true
  and_both true b p e = e
  and_both false b p e = cc

  scalar_and :
      (i : ℕ) (b : Bool) (q : Requirement) (k j : ℕ)
      → when_met (is_scalar (inputs.dims i) && b) q k ≡ accepted j
      → ((inputs.dims i ≡ []) × (b ≡ true)) × (j ≡ k)
  scalar_and i b q k j e =
      let (both, same) = when_met_lem (is_scalar (inputs.dims i) && b) q k j e in
      let (ok, rest) = and_true (is_scalar (inputs.dims i)) b both in
      ((is_scalar_nil (inputs.dims i) ok, rest), same)

  is_vector_lem : (ds : List ℕ) → is_vector ds ≡ true → (n : ℕ) × (ds ≡ n ∷ [])
  is_vector_lem [] e = cc
  is_vector_lem (n ∷ []) e = (n, refl)
  is_vector_lem (n ∷ d ∷ ds) e = cc

  match_rows_same :
      (q : Requirement) (n : ℕ) (more others : List ℕ) (i : ℕ)
      → match_rows q (n ∷ more) (n ∷ others) i ≡ accepted i
  unfolding match_rows
  match_rows_same q n more others i = ground (arith, (==_iff n n).1)

  pub check_lem :
      (q : Requirement) (i j : ℕ)
      → check inputs r shape q i ≡ accepted j
      → Holds q i × (j ≡ inner_after q i)
  unfolding check Holds is_legacy_scalar
  check_lem (initialized_table k) i j e = when_met_lem (inputs.initialized k) _ i j e
  check_lem (one_dimensional k) i j e =
      let (ok, same) = when_met_lem (is_vector (inputs.dims k)) _ i j e in
      (is_vector_lem (inputs.dims k) ok, same)
  check_lem (a_scalar k) i j e =
      let (ok, same) = when_met_lem (is_scalar (inputs.dims k)) _ i j e in
      (is_scalar_nil (inputs.dims k) ok, same)
  check_lem (a_legacy_scalar k) i j e =
      let (ok, same) = when_met_lem (is_legacy_scalar (inputs.dims k)) _ i j e in
      (is_legacy_scalar_lem (inputs.dims k) ok, same)
  check_lem (a_positive_scalar k) i j e =
      scalar_and k (r.less r.zero_of (inputs.scalar k)) (a_positive_scalar k) i j e
  check_lem (a_non_negative_scalar k) i j e =
      scalar_and k (not_below_zero r (inputs.scalar k)) (a_non_negative_scalar k) i j e
  check_lem (a_non_positive_scalar k) i j e =
      scalar_and k (not_above_zero r (inputs.scalar k)) (a_non_positive_scalar k) i j e
  check_lem (same_shape k) i j e =
      let (ok, same) = when_met_lem (same_size (shape 0) (shape k)) _ i j e in
      (same_size-eq (shape 0) (shape k) ok, same)
  check_lem (packed_shape parts k) i j e =
      let (ok, same) = when_met_lem (check_dims parts (shape 0) (shape k)) _ i j e in
      (check_dims_lem parts (shape 0) (shape k) ok, same)
  check_lem vector_or_higher i j e =
      let (ok, same) = when_met_lem (ltb 0 (length (shape 0))) _ i j e in (ground (arith, ok), same)
  check_lem (grad_dims g) i j e =
      match_inner_lem (grad_dims g) (behind_first (shape 0)) (behind_first (inputs.dims g)) i j e
  check_lem (grad_rows g x) i j e =
      match_rows_lem (grad_rows g x) (inputs.dims g) (inputs.dims x) i j e
  check_lem positive_inner_dim i j e =
      let (ok, same) = when_met_lem (ltb 0 i) _ i j e in (ground (arith, ok), same)

  pub check_complete :
      (q : Requirement) (i : ℕ) → Holds q i → check inputs r shape q i ≡ accepted (inner_after q i)
  unfolding check Holds is_legacy_scalar
  check_complete (initialized_table k) i h = ap (λ b. when_met b (initialized_table k) i) h
  check_complete (one_dimensional k) i (n, h) =
      ap (λ ds. when_met (is_vector ds) (one_dimensional k) i) h
  check_complete (a_scalar k) i h = ap (λ ds. when_met (is_scalar ds) (a_scalar k) i) h
  check_complete (a_legacy_scalar k) i h = elim h [
    | inl no_dims ↦ ap (λ ds. when_met (is_legacy_scalar ds) (a_legacy_scalar k) i) no_dims
    | inr one ↦ ap (λ ds. when_met (is_legacy_scalar ds) (a_legacy_scalar k) i) one
  ]
  check_complete (a_positive_scalar k) i (h, p) =
      ap (λ b. when_met b (a_positive_scalar k) i) (and_both _ _ (ap is_scalar h) p)
  check_complete (a_non_negative_scalar k) i (h, p) =
      ap (λ b. when_met b (a_non_negative_scalar k) i) (and_both _ _ (ap is_scalar h) p)
  check_complete (a_non_positive_scalar k) i (h, p) =
      ap (λ b. when_met b (a_non_positive_scalar k) i) (and_both _ _ (ap is_scalar h) p)
  check_complete (same_shape k) i h =
      ap (λ b. when_met b (same_shape k) i)
        (sym (ap (same_size (shape 0)) h) ∙ same_size_refl (shape 0))
  check_complete (packed_shape parts k) i h =
      ap (λ b. when_met b (packed_shape parts k) i)
        (check_dims_complete parts (shape 0) (shape k) h)
  check_complete vector_or_higher i h = ground (arith, h)
  check_complete (grad_dims g) i (more, h) =
      ap (λ ds. match_inner (grad_dims g) (behind_first (shape 0)) ds i) h
      ∙ match_inner_complete (grad_dims g) (behind_first (shape 0)) more i
  check_complete (grad_rows g x) i (n, more, others, a, b) =
      ap (λ ds. match_rows (grad_rows g x) ds (inputs.dims x) i) a
      ∙ ap (λ ds. match_rows (grad_rows g x) (n ∷ more) ds i) b
      ∙ match_rows_same (grad_rows g x) n more others i
  check_complete positive_inner_dim i h = ground (arith, h)

  to : (qs : List Requirement) (i j : ℕ) → run inputs r shape qs i ≡ accepted j → Fulfilled qs i j
  unfolding run Fulfilled
  to [] i j e = ground arith
  to (q ∷ qs) i j e = elim (Outcome-cases (check inputs r shape q i)) [
    | inl (k, c) ↦
        let (here, same) = check_lem q i k c in
        (here, subst (λ x. Fulfilled qs x j) same (to qs k j (ground (arith, c, e))))
    | inr (inl (p, c)) ↦ ground (arith, c, e)
    | inr (inr (p, c)) ↦ ground (arith, c, e)
  ]

  from : (qs : List Requirement) (i j : ℕ) → Fulfilled qs i j → run inputs r shape qs i ≡ accepted j
  unfolding run Fulfilled
  from [] i j e = ap accepted e
  from (q ∷ qs) i j (here, later) =
      ground (arith, check_complete q i here, from qs (inner_after q i) j later)

  -- A run of requirements from one product of dimensions ends accepted at another exactly if each of
  -- them holds, with the product where its turn comes, and the products lead from the one to the
  -- other.
  pub run_iff :
      (qs : List Requirement) (i j : ℕ) → (run inputs r shape qs i ≡ accepted j) ↔ Fulfilled qs i j
  run_iff qs i j = (to qs i j, from qs i j)
