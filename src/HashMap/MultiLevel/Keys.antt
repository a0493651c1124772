-- ===== src/HashMap/MultiLevel/Keys.antt =====
-- `do_get_shard_id_` of hashmap.h: the two parts of a key. `>>` on a negative `int64` keeps the
-- sign, and `& LOW_MASK` takes the low bits of the two's complement.
use tfplus.Common.{ℕ, ◌+◌, ◌-◌, ◌*◌, ◌/◌, ◌%◌, ◌^◌, ◌<◌, ◌≡◌, arith}
use tfplus.Common.Int.{ℤ, pos, negsuc, pos_part, neg_part}

-- `1LL << KEY_LENGTH`
abbrev pub low_count : ℕ
low_count = 2 ^ 52

unfoldable pub hi : ℤ → ℤ
hi (pos n) = pos (n / low_count)
hi (negsuc n) = negsuc (n / low_count)

unfoldable pub lo : ℤ → ℕ
lo (pos n) = n % low_count
lo (negsuc n) = low_count - 1 - n % low_count

-- The low part is below 2^52 and the key is hi * 2^52 + lo, so that two keys with the same parts
-- are the same key.
pub hi-lo_decode :
    (key other : ℤ)
    → (lo key < low_count)
      × (pos_part key + neg_part (hi key) * low_count
          ≡ neg_part key + pos_part (hi key) * low_count + lo key)
      × (hi key ≡ hi other → lo key ≡ lo other → key ≡ other)
unfolding hi lo
hi-lo_decode (pos a) (pos b) = ground arith
hi-lo_decode (pos a) (negsuc b) = ground arith
hi-lo_decode (negsuc a) (pos b) = ground arith
hi-lo_decode (negsuc a) (negsuc b) = ground arith
