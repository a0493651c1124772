-- ===== src/Training/Locks/Duplicates.antt =====
-- What happens to an operation of training_ops.cc that is given one variable twice.
use tfplus.Common.{
  ℕ, suc, ◌<◌, ◌≡◌, ◌≢◌, refl, sym, ap, ◌∙◌, Bool, true, List, [], ◌∷◌, arith, length, get_or,
}
use tfplus.Training.Apply.Slots.{Every}
use tfplus.Training.Locks.{Mode, Variables, collect, acquire, maybe_lock_in_order}
use tfplus.Training.Locks.Order.{
  Rearranged, none_moved, same_first, swapped, then_moved, by_key, StdSort, mode_of, Every-perm,
}

perm-length : {xs ys : List ℕ} → Rearranged xs ys → length xs ≡ length ys
perm-length none_moved = refl
perm-length (same_first d) = ap suc (perm-length d)
perm-length swapped = refl
perm-length (then_moved d e) = perm-length d ∙ perm-length e

two_alike :
    (vars : Variables) (mode : Mode) (a : ℕ) (order : List ℕ)
    → 0 < a
    → length order ≡ 2
    → Every (λ x. vars.mutex_of x ≡ a) order
    → acquire vars mode order ≡ (mode, a) ∷ (mode, a) ∷ []
unfolding acquire
two_alike vars mode a [] p e h = absurd (omega (arith, e))
two_alike vars mode a (x ∷ []) p e h = absurd (omega (arith, e))
two_alike vars mode a (x ∷ y ∷ []) p e (b, (c, _)) = ground (arith, p, b, c)
two_alike vars mode a (x ∷ y ∷ z ∷ order) p e h = absurd (omega (arith, e))

-- An operation on three variables whose first two inputs are the same variable, and that is to lock,
-- acquires that variable's mutex twice and never the mutex of the third.
pub duplicate_lem :
    (vars : Variables) (sort : (ℕ → ℕ → Bool) → List ℕ → List ℕ) (sparse : Bool) (a b : ℕ)
    → StdSort sort
    → 0 < a
    → a ≢ b
    → vars.mutex_of 0 ≡ a
    → vars.mutex_of 1 ≡ a
    → vars.mutex_of 2 ≡ b
    → maybe_lock_in_order vars sort true (0 ∷ 1 ∷ 2 ∷ []) sparse
      ≡ (mode_of true sparse, a) ∷ (mode_of true sparse, a) ∷ []
unfolding maybe_lock_in_order collect
duplicate_lem vars sort sparse a b std p differ e0 e1 e2 =
    let address = λ (x : ℕ). get_or (a ∷ b ∷ []) x 0 in
    let moved = std.permutes address (0 ∷ 1 ∷ []) in
    let run =
      two_alike vars (mode_of true sparse) a (sort (by_key address) (0 ∷ 1 ∷ [])) p
        (sym (perm-length moved)) (Every-perm (λ x. vars.mutex_of x ≡ a) moved (e0, (e1, tt))) in
    let collected : collect vars (0 ∷ 1 ∷ 2 ∷ []) [] [] ≡ (a ∷ b ∷ [], 0 ∷ 1 ∷ []) =
      ground (arith, e0, e1, e2, differ) in
    ground (arith, collected, run)
