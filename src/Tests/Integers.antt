-- ===== src/Tests/Integers.antt =====
-- Exact integers at concrete values: 70000, which has two limbs, -3, -65536, whose low limb is 0,
-- and 5 at a width of 2 ^ 64 - 1 bits.
use vexel_lang.Limbs.{normalize_limbs, push_limbs}
use vexel_lang.LimbBits.{test_bit_limbs}
use vexel_lang.TwosComplement.{fit_words, mask_back, mask_top_bits, mask_top_bits_preserve_size}
use vexel_lang.Base.{[], ◌^◌, ◌-◌, arith, false, refl, true, ◌↔◌, ◌∷◌, ◌≡◌}
use vexel_lang.Base.Int.{negsuc, pos, ◌*ℤ◌, ◌+ℤ◌, ◌-ℤ◌}
use vexel_lang.Error.{
  division_by_zero_in_exact_integer, does_not_fit_in_int64, no_location, ok, throw,
}
use vexel_lang.ApInt.{
  ApInt, add, complement, divide, equal, from_parts, from_twos_complement_words, from_u64,
  to_twos_complement_words, fits_signed, fits_unsigned, lt, multiply, remainder, shift_left,
  shift_right, subtract, to_i64, wrapped_signed, wrapped_unsigned,
}
use vexel_lang.ApInt.Meaning.{IsApInt, to_ℤ}
use vexel_lang.ApInt.Ring.{to_ℤ-add, to_ℤ-complement, to_ℤ-multiply, to_ℤ-subtract}
use vexel_lang.ApInt.Order.{equal_iff, lt_lem}
use vexel_lang.ApInt.Quotient.{IsTruncated, divide_remainder, divide_zero}
use vexel_lang.ApInt.Shift.{to_ℤ-shift_left, to_ℤ-shift_right}
use vexel_lang.ApInt.Width.{FitsSigned, FitsUnsigned, fits_signed_iff, fits_unsigned_iff}
use vexel_lang.ApInt.Machine.{to_i64_fits, to_i64_throws}
use vexel_lang.ApInt.Wrap.{wrapped_unsigned_lem}
use vexel_lang.ApInt.Wrap.Signed.{wrapped_signed_lem}

abbrev big : ApInt
big = record { negative = false; limbs = 4464 ∷ 1 ∷ [] }

abbrev minus_three : ApInt
minus_three = record { negative = true; limbs = 3 ∷ [] }

abbrev minus_word : ApInt
minus_word = record { negative = true; limbs = 0 ∷ 1 ∷ [] }

big-IsApInt : IsApInt big
big-IsApInt = record {
  magnitude = record { limbs = (omega arith, (omega arith, tt)); normal = omega arith };
  sign = λ e. cc;
}

minus_three-IsApInt : IsApInt minus_three
minus_three-IsApInt = record {
  magnitude = record { limbs = (omega arith, tt); normal = omega arith };
  sign = λ e. omega arith;
}

to_ℤ-add_example : to_ℤ (add big minus_three) ≡ pos 69997
unfolding ◌+ℤ◌
to_ℤ-add_example = to_ℤ-add big minus_three big-IsApInt minus_three-IsApInt

to_ℤ-multiply_example : to_ℤ (multiply big minus_three) ≡ to_ℤ big *ℤ to_ℤ minus_three
to_ℤ-multiply_example = to_ℤ-multiply big minus_three big-IsApInt minus_three-IsApInt

to_ℤ-subtract_example : to_ℤ (subtract big minus_three) ≡ to_ℤ big -ℤ to_ℤ minus_three
to_ℤ-subtract_example = to_ℤ-subtract big minus_three big-IsApInt minus_three-IsApInt

to_ℤ-complement_example : to_ℤ (complement minus_three) ≡ pos 0 -ℤ to_ℤ minus_three -ℤ pos 1
to_ℤ-complement_example = to_ℤ-complement minus_three minus_three-IsApInt

divide_remainder_example :
    (q r : ApInt) × (divide big minus_three ≡ ok q)
    × (remainder big minus_three ≡ ok r)
    × IsTruncated big minus_three q r
divide_remainder_example =
    divide_remainder big minus_three big-IsApInt minus_three-IsApInt (ground arith)

divide_zero_example :
    (divide big (record { negative = false; limbs = [] })
      ≡ throw division_by_zero_in_exact_integer no_location)
    × (remainder big (record { negative = false; limbs = [] })
        ≡ throw division_by_zero_in_exact_integer no_location)
divide_zero_example =
    divide_zero big (record { negative = false; limbs = [] })
      (record { magnitude = record { limbs = tt; normal = tt }; sign = λ e. cc }) refl

lt_lem_example : lt minus_three big ≡ true
lt_lem_example = lt_lem minus_three big minus_three-IsApInt big-IsApInt

equal_iff_example : (equal big minus_three ≡ true) ↔ (to_ℤ big ≡ to_ℤ minus_three)
equal_iff_example = equal_iff big minus_three big-IsApInt minus_three-IsApInt

to_ℤ-shift_left_example : to_ℤ (shift_left big 4) ≡ to_ℤ big *ℤ pos 16
to_ℤ-shift_left_example = to_ℤ-shift_left big 4 big-IsApInt

to_ℤ-shift_right_example : to_ℤ (shift_right minus_three 1) ≡ negsuc 1
to_ℤ-shift_right_example = to_ℤ-shift_right minus_three 1 minus_three-IsApInt

fits_unsigned_iff_example : (fits_unsigned big 16 ≡ true) ↔ FitsUnsigned 16 (pos 70000)
fits_unsigned_iff_example = fits_unsigned_iff big 16 big-IsApInt

fits_signed_iff_example : (fits_signed minus_three 3 ≡ true) ↔ FitsSigned 3 (negsuc 2)
fits_signed_iff_example = fits_signed_iff minus_three 3 minus_three-IsApInt

to_i64_fits_example : to_i64 minus_three ≡ ok (negsuc 2)
to_i64_fits_example = to_i64_fits minus_three minus_three-IsApInt (ground arith)

-- 2 ^ 63.
abbrev above : ApInt
above = record { negative = false; limbs = 0 ∷ 0 ∷ 0 ∷ 32768 ∷ [] }

above-IsApInt : IsApInt above
above-IsApInt = record {
  magnitude = record {
    limbs = (omega arith, (omega arith, (omega arith, (omega arith, tt))));
    normal = omega arith;
  };
  sign = λ e. cc;
}

to_i64_throws_example : to_i64 above ≡ throw does_not_fit_in_int64 no_location
to_i64_throws_example = to_i64_throws above above-IsApInt (ground arith)

wrapped_unsigned_lem_example :
    (to_ℤ (wrapped_unsigned minus_three 8) ≡ pos 253) × IsApInt (wrapped_unsigned minus_three 8)
wrapped_unsigned_lem_example =
    wrapped_unsigned_lem 8 (omega arith) (omega arith) minus_three minus_three-IsApInt
      (λ h. omega arith)

abbrev five : ApInt
five = record { negative = false; limbs = 5 ∷ [] }

-- A width of 2 ^ 64 - 1 bits takes no words.
wrapped-five :
    (wrapped_unsigned five (2 ^ 64 - 1) ≡ from_u64 0)
    × (wrapped_signed five (2 ^ 64 - 1) ≡ from_u64 0)
unfolding wrapped_unsigned wrapped_signed to_twos_complement_words fit_words
    mask_top_bits_preserve_size mask_back from_parts from_u64 normalize_limbs push_limbs
    from_twos_complement_words mask_top_bits test_bit_limbs
wrapped-five = (refl, refl)

wrapped_signed_lem_example :
    (to_ℤ (wrapped_signed minus_three 8) ≡ negsuc 2) × IsApInt (wrapped_signed minus_three 8)
wrapped_signed_lem_example =
    wrapped_signed_lem 8 minus_three (omega arith) (omega arith) minus_three-IsApInt
      (λ h. omega arith)
