-- ===== src/Training/Locks/Order.antt =====
-- The order in which an operation of training_ops.cc acquires its mutexes.
use tfplus.Common.{
  ℕ, zero, suc, ◌<◌, ◌≡◌, ◌≢◌, Bool, false, List, [], ◌∷◌, ◌||◌, not, ltb, if◌then◌else◌,
}
use tfplus.Training.Apply.Slots.{Every}
use tfplus.Training.Locks.{Mode, exclusive, shared, Variables}

-- the same elements in another order
pub data Rearranged : List ℕ → List ℕ → Type 0 where
  none_moved : Rearranged [] []
  same_first : {x : ℕ} → {xs ys : List ℕ} → Rearranged xs ys → Rearranged (x ∷ xs) (x ∷ ys)
  swapped : {x y : ℕ} → {xs : List ℕ} → Rearranged (x ∷ y ∷ xs) (y ∷ x ∷ xs)
  then_moved : {xs ys zs : List ℕ} → Rearranged xs ys → Rearranged ys zs → Rearranged xs zs

-- no element of the list is less than one before it
abbrev pub InOrder : (ℕ → ℕ → Bool) → List ℕ → Type 0
InOrder less [] = Unit {0}
InOrder less (x ∷ xs) = Every (λ y. less y x ≡ false) xs × InOrder less xs

-- each address less than any later one
abbrev pub Ascending : List ℕ → Type 0
Ascending [] = Unit {0}
Ascending (x ∷ xs) = Every (λ y. x < y) xs × Ascending xs

-- `{0, 1, ..., n - 1}`, which the operations pass, for `i` = 0
abbrev pub up_from : (i n : ℕ) → List ℕ
up_from i zero = []
up_from i (suc n) = i ∷ up_from (suc i) n

abbrev pub by_key : (ℕ → ℕ) → ℕ → ℕ → Bool
by_key key a b = ltb (key a) (key b)

-- `std::sort`, by a comparison of keys, permutes its input so that no element is less than one before
-- it
pub record StdSort (sort : (ℕ → ℕ → Bool) → List ℕ → List ℕ) : Type 0 where
  pub permutes : (key : ℕ → ℕ) (xs : List ℕ) → Rearranged xs (sort (by_key key) xs)
  pub sorts : (key : ℕ → ℕ) (xs : List ℕ) → InOrder (by_key key) (sort (by_key key) xs)

pub Every-perm : (P : ℕ → Type 0) {xs ys : List ℕ} → Rearranged xs ys → Every P xs → Every P ys
Every-perm P none_moved h = h
Every-perm P (same_first d) (a, h) = (a, Every-perm P d h)
Every-perm P swapped (a, (b, h)) = (b, (a, h))
Every-perm P (then_moved d e) h = Every-perm P e (Every-perm P d h)

abbrev AllDiffer : List ℕ → Type 0
AllDiffer [] = Unit {0}
AllDiffer (x ∷ xs) = Every (λ y. x ≢ y) xs × AllDiffer xs

module _ (vars : Variables) where
  abbrev mu : ℕ → ℕ
  mu = vars.mutex_of

abbrev pub mode_of : (do_lock sparse : Bool) → Mode
mode_of do_lock sparse = if not sparse || do_lock then exclusive else shared
