-- ===== src/Tests/Utility.antt =====
-- The theorems on utility.h and utility.cc at concrete inputs.
use tfplus.Common.{ℕ, ◌∣◌, ◌+◌, ◌*◌, ◌<◌, min, ◌≡◌, refl, true, false, arith}
use tfplus.Common.Int.{pos, negsuc, pos_part, neg_part}
use tfplus.Utility.{
  u16_max, saturate_max_frequency, saturate_add_frequency, get_uint16_from_uint32,
  make_uint32_from_uint16, mod_key, gcd, has_public_keys,
}
use tfplus.Utility.Frequency.{saturate_add_frequency-eq-min, make_uint32-get_uint16}
use tfplus.Utility.Gcd.{has_public_keys_lem}
use tfplus.Utility.Shards.{mod_key_lem}

saturate_add_frequency-eq-min_example :
    saturate_add_frequency 65000 1000 ≡ min (65000 + 1000) u16_max
saturate_add_frequency-eq-min_example =
    saturate_add_frequency-eq-min 65000 1000 (omega arith) (omega arith)

saturate_minus_one : saturate_max_frequency (negsuc 0) ≡ 65535
unfolding saturate_max_frequency
saturate_minus_one = refl

make_uint32-get_uint16_example :
    (get_uint16_from_uint32 (make_uint32_from_uint16 18303 7) true ≡ 7)
    × (get_uint16_from_uint32 (make_uint32_from_uint16 18303 7) false ≡ 18303)
    × (make_uint32_from_uint16
          (get_uint16_from_uint32 0xffff0001 false)
          (get_uint16_from_uint32 0xffff0001 true)
        ≡ 0xffff0001)
make_uint32-get_uint16_example =
    make_uint32-get_uint16 18303 7 0xffff0001 (omega arith) (omega arith) (omega arith)

-- -7 of 3 shards
mod_key_lem_example :
    (shard : ℕ) × (mod_key (negsuc 6) (pos 3) ≡ pos shard)
    × (shard < 3)
    × (k : ℕ) × (l : ℕ) × (pos_part (negsuc 6) + k * 3 ≡ neg_part (negsuc 6) + shard + l * 3)
mod_key_lem_example = mod_key_lem (negsuc 6) 3 (omega arith)

mod_key_minus_seven : mod_key (negsuc 6) (pos 3) ≡ pos 2
unfolding mod_key
mod_key_minus_seven = refl

shared_keys : has_public_keys 4 6 3 1 ≡ true
unfolding has_public_keys
shared_keys = refl

no_shared_keys : has_public_keys 4 6 3 2 ≡ false
unfolding has_public_keys
no_shared_keys = refl

mod_key_four : mod_key (negsuc 6) (pos 4) ≡ pos 1
unfolding mod_key
mod_key_four = refl

mod_key_six : mod_key (negsuc 6) (pos 6) ≡ pos 5
unfolding mod_key
mod_key_six = refl

-- the key -7 in 4 shards and in 6
has_public_keys_example : (gcd 4 6 ∣ 4) × (gcd 4 6 ∣ 6) × (has_public_keys 4 6 1 5 ≡ true)
has_public_keys_example =
    has_public_keys_lem (negsuc 6) 4 6 1 5 (omega arith) (omega arith) mod_key_four mod_key_six
