-- ===== src/Division.antt =====
-- frontend/src/core/apint.cpp: `divmod_abs_limbs`, binary long division on magnitudes.
pub mod Loop
pub mod Quotient
use Prim.Native.Nat.{Ordering}
use vexel_lang.Base.{ℕ, zero, suc, Bool, true, false, if◌then◌else◌, List, [], ◌∷◌}
use vexel_lang.Error.{Result, ok, throw, division_by_zero_in_exact_integer, no_location}
use vexel_lang.Limbs.{
  compare_abs_limbs, add_small_inplace, sub_abs_inplace, bit_length_limbs, normalize_limbs,
}
use vexel_lang.LimbBits.{shl1_inplace, test_bit_limbs, set_bit_limbs}

pub record DivMod : Type 0 where
  pub quotient : List ℕ
  pub remainder : List ℕ

-- `shl1_inplace(remainder); if (test_bit_limbs(dividend, i)) add_small_inplace(remainder, 1);`
unfoldable pub bring_down : List ℕ → ℕ → List ℕ → List ℕ
bring_down dividend i remainder =
    if test_bit_limbs dividend i
    then add_small_inplace (shl1_inplace remainder) 1
    else shl1_inplace remainder

unfoldable pub subtract_divisor : List ℕ → ℕ → DivMod → DivMod
subtract_divisor divisor i s = elim (compare_abs_limbs s.remainder divisor) [
  | Ordering.lt ↦ s
  | _ ↦ record {
    quotient = set_bit_limbs s.quotient i;
    remainder = sub_abs_inplace s.remainder divisor;
  }
]

-- The loop over the bits of the dividend; the count is `i` before it is decremented.
unfoldable pub divmod_loop : List ℕ → List ℕ → ℕ → DivMod → DivMod
divmod_loop dividend divisor zero s = s
divmod_loop dividend divisor (suc i) s =
    divmod_loop dividend divisor i
      (subtract_divisor divisor i (record s { remainder = bring_down dividend i s.remainder }))

unfoldable pub divmod_abs_limbs : List ℕ → List ℕ → Result DivMod
divmod_abs_limbs dividend [] = throw division_by_zero_in_exact_integer no_location
divmod_abs_limbs dividend (d ∷ ds) = elim (compare_abs_limbs dividend (d ∷ ds)) [
  | Ordering.lt ↦ ok (record { quotient = []; remainder = dividend })
  | _ ↦
      let out =
        divmod_loop dividend (d ∷ ds) (bit_length_limbs dividend)
          (record { quotient = []; remainder = [] }) in
      ok (record {
        quotient = normalize_limbs out.quotient;
        remainder = normalize_limbs out.remainder;
      })
]
