-- ===== src/Utility/Gcd.antt =====
-- `HasPublicKeys` (utility.cc), whose greatest common divisor is computed on fuel.
use native.Mathlib.Nat.{
  dvd_refl, dvd-zero, dvd-mod_iff, dvd-add, dvd-sub, dvd-mul_left_of_dvd, mod-eq-zero_of_dvd,
}
use tfplus.Common.{
  ℕ, zero, suc, ◌+◌, ◌-◌, ◌*◌, ◌%◌, ◌<◌, ◌≡◌, ◌∣◌, sym, subst, ap, ◌∙◌, inl, inr, true, arith, ◌==◌,
  ==_iff, Bool-cases, if◌then◌else◌,
}
use tfplus.Common.Int.{ℤ, pos, pos_part, neg_part, sub_ℕ}
use tfplus.Utility.{gcd_loop, gcd, mod_key, has_public_keys}
use tfplus.Utility.Shards.{mod_key_lem}

-- on more fuel than the second number the loop ends with a divisor of both
gcd_loop_lem : (fuel m n : ℕ) → n < fuel → (gcd_loop fuel m n ∣ m) × (gcd_loop fuel m n ∣ n)
unfolding gcd_loop
gcd_loop_lem zero m n h = absurd (omega (arith, h))
gcd_loop_lem (suc fuel) m n h = elim (Bool-cases (n == 0)) [
  | inl ends ↦
      subst
        (λ b.
          ((if b then m else gcd_loop fuel n (m % n)) ∣ m)
          × ((if b then m else gcd_loop fuel n (m % n)) ∣ n))
        (sym ends) (dvd_refl m, subst (λ x. m ∣ x) (sym ((==_iff n 0).0 ends)) (dvd-zero m))
  | inr goes_on ↦
      let (of_n, of_rest) = gcd_loop_lem fuel n (m % n) (ground (arith, goes_on, h)) in
      subst
        (λ b.
          ((if b then m else gcd_loop fuel n (m % n)) ∣ m)
          × ((if b then m else gcd_loop fuel n (m % n)) ∣ n))
        (sym goes_on) ((dvd-mod_iff (gcd_loop fuel n (m % n)) {m = m} of_n).0 of_rest, of_n)
]

difference : (a b : ℕ) → pos_part (sub_ℕ a b) + neg_part (sub_ℕ a b) ≡ (a - b) + (b - a)
difference a b = ground arith

pos_is : (a b : ℕ) → pos a ≡ pos b → a ≡ b
pos_is a b e = cc

-- The loop of `Gcd` ends on its fuel with a divisor of both numbers of shards, so that two shards of
-- two partitions that share a key, negative ones included, are never told to share none.
pub has_public_keys_lem :
    (key : ℤ) (old new old_index new_index : ℕ)
    → 0 < old
    → 0 < new
    → mod_key key (pos old) ≡ pos old_index
    → mod_key key (pos new) ≡ pos new_index
    → (gcd old new ∣ old)
      × (gcd old new ∣ new)
      × (has_public_keys old new old_index new_index ≡ true)
unfolding gcd has_public_keys
has_public_keys_lem key old new old_index new_index p q in_old in_new =
    let (of_old, of_new) = gcd_loop_lem (suc new) old new (omega arith) in
    let g = gcd_loop (suc new) old new in
    let (s, is_s, _, k, l, e) = mod_key_lem key old p in
    let (s', is_s', _, k', l', e') = mod_key_lem key new q in
    let same = pos_is s old_index (sym is_s ∙ in_old) in
    let same' = pos_is s' new_index (sym is_s' ∙ in_new) in
    let a = k * old + l' * new in
    let b = l * old + k' * new in
    let left : g ∣ a =
      dvd-add g (dvd-mul_left_of_dvd g of_old k) (dvd-mul_left_of_dvd g of_new l') in
    let right : g ∣ b =
      dvd-add g (dvd-mul_left_of_dvd g of_old l) (dvd-mul_left_of_dvd g of_new k') in
    let level : new_index + a ≡ old_index + b = omega (arith, e, e', same, same') in
    let apart : g ∣ (old_index - new_index) + (new_index - old_index) =
      subst (λ x. g ∣ x) (omega (arith, level))
        (dvd-add g (dvd-sub g left right) (dvd-sub g right left)) in
    (
      of_old,
      of_new,
      (==_iff _ 0).1
          (ap (λ x. x % g) (difference old_index new_index) ∙ mod-eq-zero_of_dvd g apart),
    )
