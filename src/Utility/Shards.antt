-- ===== src/Utility/Shards.antt =====
-- The shard of a key (`ModKeyImpl`), and when two shards of two partitions share keys.
use native.Mathlib.Nat.{div-add-mod, add-zero}
use tfplus.Common.{ℕ, zero, suc, ◌+◌, ◌-◌, ◌*◌, ◌/◌, ◌%◌, ◌<◌, ◌≡◌, ap, ◌∙◌, arith}
use tfplus.Common.Int.{ℤ, pos, negsuc, pos_part, neg_part, sub_ℕ}
use tfplus.Utility.{trunc_mod, mod_key, add_ℤ}

-- The second remainder, of the truncated one plus `n`.
again : (r n : ℕ) → r < n → trunc_mod (add_ℤ (sub_ℕ 0 r) (pos n)) (pos n) ≡ pos ((n - r) % n)
unfolding trunc_mod
again zero n h = ground arith
again (suc r) n h = ground arith

first : (a n : ℕ) → trunc_mod (negsuc a) (pos n) ≡ sub_ℕ 0 (suc a % n)
unfolding trunc_mod
first a n = ap (λ m. sub_ℕ 0 (suc a % m)) (add-zero n)

-- With a positive number of shards `n` the shard of any key, negative ones included, lies in
-- [0, n) and differs from the key by a multiple of `n`.
pub mod_key_lem :
    (key : ℤ) (n : ℕ)
    → 0 < n
    → (shard : ℕ) × (mod_key key (pos n) ≡ pos shard)
      × (shard < n)
      × (k : ℕ) × (l : ℕ) × (pos_part key + k * n ≡ neg_part key + shard + l * n)
unfolding mod_key
mod_key_lem (pos a) n h =
    (a % n, ground arith, omega arith, 0, a / n, omega (arith, div-add-mod a n))
mod_key_lem (negsuc a) n h =
    let r = suc a % n in
    (
      (n - r) % n,
      ap (λ t. trunc_mod (add_ℤ t (pos n)) (pos n)) (first a n) ∙ again r n (omega arith),
      omega arith,
      suc a / n + 1,
      (n - r) / n,
      omega (arith, div-add-mod (suc a) n, div-add-mod (n - r) n),
    )
