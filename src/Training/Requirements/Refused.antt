-- ===== src/Training/Requirements/Refused.antt =====
-- How a run that is refused or aborted ends (training_ops.cc).
use tfplus.Common.{
  ℕ, ◌*◌, ◌≡◌, refl, sym, ap, ◌∙◌, inl, inr, Bool, true, false, List, [], ◌∷◌, ◌++◌, ◌&&◌, ◌==◌,
  ltb, length, arith, Bool-cases, subst, ◌≢◌,
}
use tfplus.Training.Scalars.{Scalars, not_below_zero, not_above_zero}
use tfplus.Training.Checks.{Inputs, is_scalar, same_size}
use tfplus.Training.Requirements.{
  Requirement, initialized_table, one_dimensional, a_scalar, a_legacy_scalar, a_positive_scalar,
  a_non_negative_scalar, a_non_positive_scalar, same_shape, packed_shape, vector_or_higher,
  grad_dims, grad_rows, positive_inner_dim, accepted, refused, when_met, behind_first, check_dims,
  match_inner, match_rows, is_vector, is_legacy_scalar, check, run,
}
use tfplus.Training.Requirements.Fulfilled.{
  Holds, Fulfilled, Outcome-cases, check_lem, check_complete,
}

when_met_refused : (b : Bool) (q p : Requirement) (i : ℕ) → when_met b q i ≡ refused p → p ≡ q
when_met_refused true q p i e = cc
when_met_refused false q p i e = cc

refused_accepted : (k : ℕ) (q : Requirement) → refused q ≢ accepted k
refused_accepted k q e = cc

match_inner_refused :
    (q p : Requirement) (vs gs : List ℕ) (i : ℕ) → match_inner q vs gs i ≡ refused p → p ≡ q
unfolding match_inner
match_inner_refused q p [] gs i e = cc
match_inner_refused q p (v ∷ vs) [] i e = cc
match_inner_refused q p (v ∷ vs) (g ∷ gs) i e = elim (Bool-cases (v == g)) [
  | inl same ↦ match_inner_refused q p vs gs (i * g) (ground (arith, same, e))
  | inr differ ↦ ground (arith, differ, e)
]

match_rows_refused :
    (q p : Requirement) (gs ns : List ℕ) (i : ℕ) → match_rows q gs ns i ≡ refused p → p ≡ q
unfolding match_rows
match_rows_refused q p [] ns i e = cc
match_rows_refused q p (g ∷ gs) [] i e = cc
match_rows_refused q p (g ∷ gs) (n ∷ ns) i e = when_met_refused (g == n) q p i e

module _ {V : Type 0} (inputs : Inputs V) (r : Scalars V) (shape : ℕ → List ℕ) where
  check_refused : (q p : Requirement) (i : ℕ) → check inputs r shape q i ≡ refused p → p ≡ q
  unfolding check
  check_refused (initialized_table k) p i e =
      when_met_refused (inputs.initialized k) (initialized_table k) p i e
  check_refused (one_dimensional k) p i e =
      when_met_refused (is_vector (inputs.dims k)) (one_dimensional k) p i e
  check_refused (a_scalar k) p i e = when_met_refused (is_scalar (inputs.dims k)) (a_scalar k) p i e
  check_refused (a_legacy_scalar k) p i e =
      when_met_refused (is_legacy_scalar (inputs.dims k)) (a_legacy_scalar k) p i e
  check_refused (a_positive_scalar k) p i e =
      when_met_refused (is_scalar (inputs.dims k) && r.less r.zero_of (inputs.scalar k))
        (a_positive_scalar k) p i e
  check_refused (a_non_negative_scalar k) p i e =
      when_met_refused (is_scalar (inputs.dims k) && not_below_zero r (inputs.scalar k))
        (a_non_negative_scalar k) p i e
  check_refused (a_non_positive_scalar k) p i e =
      when_met_refused (is_scalar (inputs.dims k) && not_above_zero r (inputs.scalar k))
        (a_non_positive_scalar k) p i e
  check_refused (same_shape k) p i e =
      when_met_refused (same_size (shape 0) (shape k)) (same_shape k) p i e
  check_refused (packed_shape n k) p i e =
      when_met_refused (check_dims n (shape 0) (shape k)) (packed_shape n k) p i e
  check_refused vector_or_higher p i e =
      when_met_refused (ltb 0 (length (shape 0))) vector_or_higher p i e
  check_refused positive_inner_dim p i e = when_met_refused (ltb 0 i) positive_inner_dim p i e
  check_refused (grad_dims g) p i e =
      match_inner_refused (grad_dims g) p (behind_first (shape 0)) (behind_first (inputs.dims g)) i
        e
  check_refused (grad_rows g x) p i e =
      match_rows_refused (grad_rows g x) p (inputs.dims g) (inputs.dims x) i e

  -- A run that is refused stops at a requirement that does not hold, after a part of the list that
  -- was accepted.
  pub run_refused :
      (qs : List Requirement) (i : ℕ) (q : Requirement)
      → run inputs r shape qs i ≡ refused q
      → (before after : List Requirement) × (k : ℕ) × (qs ≡ before ++ q ∷ after)
        × Fulfilled inputs r shape before i k
        × ¬ Holds inputs r shape q k
  unfolding run Fulfilled
  run_refused [] i q e = cc
  run_refused (p ∷ qs) i q e = elim (Outcome-cases (check inputs r shape p i)) [
    | inl (k, c) ↦
        let (here, same) = check_lem inputs r shape p i k c in
        let (before, after, l, split, met, broken) = run_refused qs k q (ground (arith, c, e)) in
        (
          p ∷ before,
          after,
          l,
          ap (λ xs. p ∷ xs) split,
          (here, subst (λ x. Fulfilled inputs r shape before x l) same met),
          broken,
        )
    | inr (inl (s, c)) ↦
        let run_is : check inputs r shape p i ≡ refused q = ground (arith, c, e) in
        let own = check_refused p q i run_is in
        (
          [],
          qs,
          i,
          ap (λ x. x ∷ qs) (sym own),
          refl,
          λ h. refused_accepted _ q (
              sym run_is
              ∙ check_complete inputs r shape p i (subst (λ x. Holds inputs r shape x i) own h)),
        )
    | inr (inr (s, c)) ↦ ground (arith, c, e)
  ]
