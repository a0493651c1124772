-- ===== src/Tests/Locks.antt =====
-- The theorems on the order of mutexes and on the creation of a variable at concrete inputs.
use tfplus.Common.{
  ℕ, ◌≡◌, refl, sym, subst, inl, inr, Bool, true, false, Bool-cases, List, [], ◌∷◌, arith,
  if◌then◌else◌, ◌-◌, ◌==◌,
}
use tfplus.Training.Apply.Slots.{Every}
use tfplus.Training.Locks.{shared, exclusive, Variables, maybe_lock_in_order}
use tfplus.Training.Locks.Duplicates.{duplicate_lem}
use tfplus.Training.Locks.Cycles.{Blocked}
use tfplus.Training.Locks.Order.{
  Rearranged, none_moved, same_first, swapped, then_moved, InOrder, by_key, StdSort,
}

-- a sort, by insertion
abbrev insert : (ℕ → ℕ → Bool) → ℕ → List ℕ → List ℕ
insert less x [] = x ∷ []
insert less x (y ∷ ys) = let rest = insert less x ys in if less y x then y ∷ rest else x ∷ y ∷ ys

abbrev insertion_sort : (ℕ → ℕ → Bool) → List ℕ → List ℕ
insertion_sort less [] = []
insertion_sort less (x ∷ xs) = insert less x (insertion_sort less xs)

insert-Rearranged :
    (less : ℕ → ℕ → Bool) (x : ℕ) (ys : List ℕ) → Rearranged (x ∷ ys) (insert less x ys)
insert-Rearranged less x [] = same_first none_moved
insert-Rearranged less x (y ∷ ys) = elim (Bool-cases (less y x)) [
  | inl before ↦
      subst (λ b. Rearranged (x ∷ y ∷ ys) (if b then y ∷ insert less x ys else x ∷ y ∷ ys))
        (sym before) (then_moved swapped (same_first (insert-Rearranged less x ys)))
  | inr behind ↦
      subst (λ b. Rearranged (x ∷ y ∷ ys) (if b then y ∷ insert less x ys else x ∷ y ∷ ys))
        (sym behind) (unmoved (x ∷ y ∷ ys))
]
  where
    unmoved : (zs : List ℕ) → Rearranged zs zs
    unmoved [] = none_moved
    unmoved (z ∷ zs) = same_first (unmoved zs)

sort-Rearranged : (less : ℕ → ℕ → Bool) (xs : List ℕ) → Rearranged xs (insertion_sort less xs)
sort-Rearranged less [] = none_moved
sort-Rearranged less (x ∷ xs) =
    then_moved (same_first (sort-Rearranged less xs))
      (insert-Rearranged less x (insertion_sort less xs))

insert-Every :
    (P : ℕ → Type 0) (less : ℕ → ℕ → Bool) (x : ℕ) (ys : List ℕ)
    → P x
    → Every P ys
    → Every P (insert less x ys)
insert-Every P less x [] p h = (p, tt)
insert-Every P less x (y ∷ ys) p (q, h) = elim (Bool-cases (less y x)) [
  | inl before ↦
      subst (λ b. Every P (if b then y ∷ insert less x ys else x ∷ y ∷ ys)) (sym before)
        (q, insert-Every P less x ys p h)
  | inr behind ↦
      subst (λ b. Every P (if b then y ∷ insert less x ys else x ∷ y ∷ ys)) (sym behind) (p, (q, h))
]

not_before :
    (key : ℕ → ℕ) (x y : ℕ) (ys : List ℕ)
    → by_key key y x ≡ false
    → Every (λ z. by_key key z y ≡ false) ys
    → Every (λ z. by_key key z x ≡ false) ys
not_before key x y [] e h = tt
not_before key x y (z ∷ ys) e (a, h) = (ground (arith, e, a), not_before key x y ys e h)

insert-InOrder :
    (key : ℕ → ℕ) (x : ℕ) (ys : List ℕ)
    → InOrder (by_key key) ys
    → InOrder (by_key key) (insert (by_key key) x ys)
insert-InOrder key x [] h = (tt, tt)
insert-InOrder key x (y ∷ ys) (first, h) = elim (Bool-cases (by_key key y x)) [
  | inl before ↦
      subst (λ b. InOrder (by_key key) (if b then y ∷ insert (by_key key) x ys else x ∷ y ∷ ys))
        (sym before)
        (
          insert-Every (λ z. by_key key z y ≡ false) (by_key key) x ys (ground (arith, before))
              first,
          insert-InOrder key x ys h,
        )
  | inr behind ↦
      subst (λ b. InOrder (by_key key) (if b then y ∷ insert (by_key key) x ys else x ∷ y ∷ ys))
        (sym behind) ((behind, not_before key x y ys behind first), (first, h))
]

sort-InOrder : (key : ℕ → ℕ) (xs : List ℕ) → InOrder (by_key key) (insertion_sort (by_key key) xs)
sort-InOrder key [] = tt
sort-InOrder key (x ∷ xs) = insert-InOrder key x _ (sort-InOrder key xs)

insertion_sort-StdSort : StdSort insertion_sort
insertion_sort-StdSort = record {
  permutes = λ key xs. sort-Rearranged (by_key key) xs;
  sorts = sort-InOrder;
}

-- three variables, the later ones at lower addresses
abbrev three_variables : Variables
three_variables = record { is_resource = λ i. true; mutex_of = λ i. 70 - i }

locks_run :
    maybe_lock_in_order three_variables insertion_sort false (0 ∷ 1 ∷ 2 ∷ []) true
    ≡ (shared, 68) ∷ (shared, 69) ∷ (shared, 70) ∷ []
unfolding maybe_lock_in_order
locks_run = refl

-- the first two inputs are one variable
abbrev one_twice : Variables
one_twice = record { is_resource = λ i. true; mutex_of = λ i. if i == 2 then 9 else 8 }

duplicate_example :
    maybe_lock_in_order one_twice insertion_sort true (0 ∷ 1 ∷ 2 ∷ []) true
    ≡ (exclusive, 8) ∷ (exclusive, 8) ∷ []
duplicate_example =
    duplicate_lem one_twice insertion_sort true 8 9 insertion_sort-StdSort (omega arith)
      (λ e. omega (arith, e)) refl refl refl

-- it holds the first of its mutexes and waits for the second
abbrev second_of_three : Blocked insertion_sort
second_of_three = record {
  vars = three_variables;
  do_lock = false;
  sparse = true;
  inputs = 3;
  locks = refl;
  present = λ x h. omega (arith, h);
  distinct = λ x y h h' e. omega (arith, h, h', e);
  held = 68 ∷ [];
  wanted = 69;
  later = 70 ∷ [];
  order = locks_run;
}
