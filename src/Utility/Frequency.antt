-- ===== src/Utility/Frequency.antt =====
-- Saturating frequencies and the packed 32-bit word (utility.h, utility.cc).
use tfplus.Common.{ℕ, ◌+◌, ◌*◌, ◌≤◌, ◌<◌, min, ◌≡◌, true, false, arith}
use tfplus.Utility.{
  u16_mod, u16_max, saturate_add_frequency, get_uint16_from_uint32, make_uint32_from_uint16,
}

-- A sum of two 16-bit frequencies is exact up to 65535 and stays there beyond: the test on the
-- wrapped sum finds every overflow.
pub saturate_add_frequency-eq-min :
    (val delta : ℕ)
    → val ≤ u16_max
    → delta ≤ u16_max
    → saturate_add_frequency val delta ≡ min (val + delta) u16_max
unfolding saturate_add_frequency
saturate_add_frequency-eq-min val delta hv hd = ground arith

pub saturate_add_frequency-le : (val delta : ℕ) → saturate_add_frequency val delta ≤ u16_max
unfolding saturate_add_frequency
saturate_add_frequency-le val delta = ground arith

-- The two halves of a packed word are read back, and a 32-bit word is the pack of its halves.
pub make_uint32-get_uint16 :
    (high low word : ℕ)
    → high ≤ u16_max
    → low ≤ u16_max
    → word < u16_mod * u16_mod
    → (get_uint16_from_uint32 (make_uint32_from_uint16 high low) true ≡ low)
      × (get_uint16_from_uint32 (make_uint32_from_uint16 high low) false ≡ high)
      × (make_uint32_from_uint16
            (get_uint16_from_uint32 word false)
            (get_uint16_from_uint32 word true)
          ≡ word)
unfolding make_uint32_from_uint16 get_uint16_from_uint32
make_uint32-get_uint16 high low word hh hl hw = (omega arith, omega arith, omega arith)
