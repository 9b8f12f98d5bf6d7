-- ===== src/ApInt/Width.antt =====
-- `fits_unsigned` and `fits_signed`, against the ranges of a width.
use vexel_lang.Base.{ℕ, zero, suc, ◌-◌, ◌^◌, ◌<◌, ◌≤◌, true, ◌≡◌, arith, ◌↔◌}
use vexel_lang.Base.Int.{ℤ, pos_part, neg_part}
use vexel_lang.Base.Power.{two-pow-pos}
use vexel_lang.Limbs.{sub_small_inplace}
use vexel_lang.Limbs.Length.{bit_length_limbs-le}
use vexel_lang.Limbs.Difference.{value-sub_small_inplace, sub_small_inplace-IsMagnitude}
use vexel_lang.ApInt.{
  ApInt, abs_bit_length, signed_bit_width, fits_unsigned, fits_signed, fits_u64, fits_i64,
}
use vexel_lang.ApInt.Meaning.{to_ℤ, IsApInt, is_empty_lem}

-- 0 to 2 ^ bits - 1, and -2 ^ (bits - 1) to 2 ^ (bits - 1) - 1.
abbrev pub FitsUnsigned : ℕ → ℤ → Type 0
FitsUnsigned bits z = (0 < bits) × (neg_part z ≡ 0) × (pos_part z < 2 ^ bits)

abbrev pub FitsSigned : ℕ → ℤ → Type 0
FitsSigned bits z = (0 < bits) × (pos_part z < 2 ^ (bits - 1)) × (neg_part z ≤ 2 ^ (bits - 1))

-- For a value of the class, `fits_unsigned(bits)` holds exactly when `bits` is not 0 and the integer is from 0 to
-- 2 ^ bits - 1.
pub fits_unsigned_iff :
    (a : ApInt) (bits : ℕ) → IsApInt a → (fits_unsigned a bits ≡ true) ↔ FitsUnsigned bits (to_ℤ a)
unfolding fits_unsigned abs_bit_length
fits_unsigned_iff a bits h = ground (arith, h.sign, bit_length_limbs-le a.limbs bits h.magnitude)

-- The width is enough exactly when the value is in its range.
signed_bit_width_iff :
    (a : ApInt) (k : ℕ)
    → IsApInt a
    → (signed_bit_width a ≤ suc k) ↔ ((pos_part (to_ℤ a) < 2 ^ k) × (neg_part (to_ℤ a) ≤ 2 ^ k))
unfolding signed_bit_width
signed_bit_width_iff a k h = ground (
  arith,
  is_empty_lem a.limbs h.magnitude,
  h.sign,
  bit_length_limbs-le a.limbs k h.magnitude,
  bit_length_limbs-le (sub_small_inplace a.limbs 1) k
      (sub_small_inplace-IsMagnitude a.limbs 1 h.magnitude.limbs (omega arith)),
  value-sub_small_inplace a.limbs 1 h.magnitude.limbs (omega arith),
  two-pow-pos k,
)

-- For a value of the class, `fits_signed(bits)` holds exactly when `bits` is not 0 and the integer is from
-- -2 ^ (bits - 1) to 2 ^ (bits - 1) - 1.
pub fits_signed_iff :
    (a : ApInt) (bits : ℕ) → IsApInt a → (fits_signed a bits ≡ true) ↔ FitsSigned bits (to_ℤ a)
unfolding fits_signed
fits_signed_iff a zero h = ground arith
fits_signed_iff a (suc k) h =
    let e : suc k - 1 ≡ k = omega arith in rw e (ground (arith, signed_bit_width_iff a k h))

pub fits_u64_iff : (a : ApInt) → IsApInt a → (fits_u64 a ≡ true) ↔ FitsUnsigned 64 (to_ℤ a)
unfolding fits_u64 abs_bit_length
fits_u64_iff a h = ground (arith, h.sign, bit_length_limbs-le a.limbs 64 h.magnitude)

pub fits_i64_iff : (a : ApInt) → IsApInt a → (fits_i64 a ≡ true) ↔ FitsSigned 64 (to_ℤ a)
unfolding fits_i64
fits_i64_iff a h = ground (arith, signed_bit_width_iff a 63 h)
