-- ===== src/Utility.antt =====
-- tfplus/kv_variable/kernels/utility.h and utility.cc: saturating frequencies, the two halves of
-- the 32-bit word that a key's frequency and last update day are packed in, and the shard of a key.
pub mod Frequency
pub mod Shards
pub mod Gcd
use tfplus.Common.{
  ℕ, zero, suc, ◌+◌, ◌-◌, ◌*◌, ◌/◌, ◌%◌, ◌^◌, min, Bool, true, false, ◌==◌, ltb, if◌then◌else◌,
}
use tfplus.Common.Int.{ℤ, pos, negsuc, pos_part, neg_part, sub_ℕ}

abbrev pub u16_mod : ℕ
u16_mod = 2 ^ 16

abbrev pub u16_max : ℕ
u16_max = 0xffff

-- `std::min<int32_t>(freq, 65535)`, converted to `uint16_t`
unfoldable pub saturate_max_frequency : ℤ → ℕ
saturate_max_frequency (pos n) = min n u16_max % u16_mod
saturate_max_frequency (negsuc n) = u16_mod - 1 - n % u16_mod

-- `uint16_t new_val = val + delta`, replaced by -1 when it wrapped
unfoldable pub saturate_add_frequency : ℕ → ℕ → ℕ
saturate_add_frequency val delta =
    let new_val = (val + delta) % u16_mod in if ltb new_val val then u16_max else new_val

unfoldable pub get_uint16_from_uint32 : ℕ → Bool → ℕ
get_uint16_from_uint32 source true = source % u16_mod
get_uint16_from_uint32 source false = source / u16_mod % u16_mod

-- the two halves have no bit in common, so `|` is the sum
unfoldable pub make_uint32_from_uint16 : ℕ → ℕ → ℕ
make_uint32_from_uint16 high low = high * u16_mod + low

-- `std::time(nullptr) / divisor`, converted to `uint16`; the seconds are an argument
unfoldable pub current_unix_time_by_divisor : ℕ → ℕ → ℕ
current_unix_time_by_divisor seconds divisor = seconds / divisor % u16_mod

-- C's `%`, which takes the sign of `x`
unfoldable pub trunc_mod : ℤ → ℤ → ℤ
trunc_mod (pos a) y = pos (a % (pos_part y + neg_part y))
trunc_mod (negsuc a) y = sub_ℕ 0 (suc a % (pos_part y + neg_part y))

abbrev pub is_negative : ℤ → Bool
is_negative (pos a) = false
is_negative (negsuc a) = true

abbrev same : Bool → Bool → Bool
same true b = b
same false true = false
same false false = true

abbrev pub add_ℤ : ℤ → ℤ → ℤ
add_ℤ a b = sub_ℕ (pos_part a + pos_part b) (neg_part a + neg_part b)

-- `google_floor_mod`
unfoldable pub floor_mod : ℤ → ℤ → ℤ
unfolding trunc_mod
floor_mod x y =
    let t = trunc_mod x y in
    if same (is_negative x) (is_negative y) then t else trunc_mod (add_ℤ t y) y

-- `ModKeyImpl` at an integer key type
unfoldable pub mod_key : ℤ → ℤ → ℤ
unfolding floor_mod
mod_key key num_shards = floor_mod key num_shards

-- `std::__gcd` on natural numbers: Euclid's loop, on fuel
pub gcd_loop : ℕ → ℕ → ℕ → ℕ
gcd_loop zero m n = m
gcd_loop (suc fuel) m n = let rest = gcd_loop fuel n (m % n) in if n == 0 then m else rest

unfoldable pub gcd : ℕ → ℕ → ℕ
unfolding gcd_loop
gcd m n = gcd_loop (suc n) m n

-- `(old_num_index - new_num_index) % g == 0`; a remainder of C is zero whatever the sign
unfoldable pub has_public_keys : ℕ → ℕ → ℕ → ℕ → Bool
unfolding gcd
has_public_keys old_num_shards new_num_shards old_num_index new_num_index =
    let g = gcd old_num_shards new_num_shards in
    let d = sub_ℕ old_num_index new_num_index in (pos_part d + neg_part d) % g == 0
