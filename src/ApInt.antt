-- ===== src/ApInt.antt =====
-- frontend/src/core/apint.h and apint.cpp: the class `APInt`, a sign and a magnitude. Operators are
-- named by words: `add` is `operator+`, `complement` is `operator~`, and so on. `int64_t` values are
-- integers, `uint64_t` values are numbers. `to_double` stands with the floats in Evaluator/Binary.
pub mod Meaning
pub mod Ring
pub mod Order
pub mod Quotient
pub mod Shift
pub mod Width
pub mod Wrap
pub mod Machine
use Prim.Native.Nat.{Ordering}
use vexel_lang.Base.{ℕ, zero, suc, ◌+◌, ◌-◌, ◌*◌, ◌%◌, ◌^◌, max, bit_and, bit_or, bit_xor, ltb, leb}
use vexel_lang.Base.{◌==◌, Bool, true, false, not, ◌&&◌, if◌then◌else◌, List, [], ◌∷◌}
use vexel_lang.Base.Int.{ℤ, pos, negsuc, ◌-ℤ◌}
use vexel_lang.Error.{
  Result, ok, throw, ◌>>=◌, no_location, division_by_zero_in_exact_integer, does_not_fit_in_uint64,
  does_not_fit_in_int64,
}
use vexel_lang.Limbs.{
  limb_bits, u64, normalize_limbs, bit_length_limbs, compare_abs_limbs, push_limbs,
  add_small_inplace, add_abs_limbs, sub_abs_limbs, sub_small_inplace, mul_abs_limbs,
}
use vexel_lang.LimbBits.{test_bit_limbs, any_low_bits}
use vexel_lang.LimbShift.{shift_left_limbs, shift_right_limbs}
use vexel_lang.Division.{DivMod, divmod_abs_limbs}
use vexel_lang.TwosComplement.{
  mask_top_bits, mask_top_bits_preserve_size, twos_complement_negate_inplace, fit_words, word_count,
}

pub record ApInt : Type 0 where
  pub negative : Bool
  pub limbs : List ℕ

abbrev pub is_empty : List ℕ → Bool
is_empty [] = true
is_empty (l ∷ ls) = false

unfoldable pub from_parts : Bool → List ℕ → ApInt
from_parts negative limbs =
    let kept = normalize_limbs limbs in
    record { negative = negative && not (is_empty kept); limbs = kept }

-- `APInt(uint64_t)` and `APInt(int64_t)`.
unfoldable pub from_u64 : ℕ → ApInt
from_u64 value = record { negative = false; limbs = push_limbs 4 value }

unfoldable pub from_i64 : ℤ → ApInt
from_i64 (pos n) = record { negative = false; limbs = push_limbs 4 n }
from_i64 (negsuc n) = record { negative = true; limbs = push_limbs 4 (suc n) }

unfoldable pub from_twos_complement_words : List ℕ → ℕ → ApInt
from_twos_complement_words words bit_width =
    let masked = mask_top_bits words bit_width in
    if bit_width == 0
    then from_u64 0
    else if is_empty masked
    then from_u64 0
    else if test_bit_limbs masked (bit_width - 1)
    then from_parts true (twos_complement_negate_inplace masked bit_width)
    else from_parts false masked

unfoldable pub abs_bit_length : ApInt → ℕ
abs_bit_length a = bit_length_limbs a.limbs

unfoldable pub signed_bit_width : ApInt → ℕ
signed_bit_width a =
    if is_empty a.limbs
    then 1
    else if a.negative
    then max 1 (bit_length_limbs (sub_small_inplace a.limbs 1) + 1)
    else bit_length_limbs a.limbs + 1

unfoldable pub to_twos_complement_words : ApInt → ℕ → List ℕ
to_twos_complement_words a bit_width =
    let words = fit_words (word_count bit_width) a.limbs in
    if bit_width == 0
    then []
    else if a.negative
    then twos_complement_negate_inplace words bit_width
    else mask_top_bits_preserve_size words bit_width

unfoldable pub is_zero : ApInt → Bool
is_zero a = is_empty a.limbs

unfoldable pub is_negative : ApInt → Bool
is_negative a = a.negative

unfoldable pub fits_u64 : ApInt → Bool
fits_u64 a = not a.negative && leb (abs_bit_length a) 64

unfoldable pub fits_i64 : ApInt → Bool
fits_i64 a = leb (signed_bit_width a) 64

unfoldable pub limbs_to_u64 : List ℕ → ℕ
limbs_to_u64 [] = 0
limbs_to_u64 (l ∷ ls) = bit_or (u64 (limbs_to_u64 ls * 2 ^ limb_bits)) l

unfoldable pub to_u64 : ApInt → Result ℕ
to_u64 a =
    if fits_u64 a then ok (limbs_to_u64 a.limbs) else throw does_not_fit_in_uint64 no_location

-- `int64_t(x)` of a uint64_t.
abbrev pub as_i64 : ℕ → ℤ
as_i64 x = if ltb x (2 ^ 63) then pos x else negsuc (2 ^ 64 - x - 1)

unfoldable pub to_i64 : ApInt → Result ℤ
to_i64 a =
    let magnitude = limbs_to_u64 a.limbs in
    if not (fits_i64 a)
    then throw does_not_fit_in_int64 no_location
    else if not a.negative
    then ok (as_i64 magnitude)
    else if magnitude == 2 ^ 63
    then ok (negsuc (2 ^ 63 - 1))
    else ok (pos 0 -ℤ as_i64 magnitude)

unfoldable pub fits_unsigned : ApInt → ℕ → Bool
fits_unsigned a bits = not (bits == 0) && (not a.negative && leb (abs_bit_length a) bits)

unfoldable pub fits_signed : ApInt → ℕ → Bool
fits_signed a bits = not (bits == 0) && leb (signed_bit_width a) bits

unfoldable pub wrapped_unsigned : ApInt → ℕ → ApInt
wrapped_unsigned a bits =
    if bits == 0 then from_u64 0 else from_parts false (to_twos_complement_words a bits)

unfoldable pub wrapped_signed : ApInt → ℕ → ApInt
wrapped_signed a bits =
    if bits == 0
    then from_u64 0
    else from_twos_complement_words (to_twos_complement_words a bits) bits

abbrev pub same_sign : Bool → Bool → Bool
same_sign true s = s
same_sign false s = not s

unfoldable pub lt : ApInt → ApInt → Bool
lt a b =
    if not (same_sign a.negative b.negative)
    then a.negative
    else elim (compare_abs_limbs a.limbs b.limbs) [
      | Ordering.lt ↦ not a.negative
      | Ordering.eq ↦ false
      | Ordering.gt ↦ a.negative
    ]

abbrev pub same_limbs : List ℕ → List ℕ → Bool
same_limbs [] [] = true
same_limbs [] (y ∷ b) = false
same_limbs (x ∷ a) [] = false
same_limbs (x ∷ a) (y ∷ b) = x == y && same_limbs a b

unfoldable pub equal : ApInt → ApInt → Bool
equal a b = same_sign a.negative b.negative && same_limbs a.limbs b.limbs

unfoldable pub negate : ApInt → ApInt
negate a = from_parts (not a.negative) a.limbs

unfoldable pub add : ApInt → ApInt → ApInt
add a b =
    if same_sign a.negative b.negative
    then from_parts a.negative (add_abs_limbs a.limbs b.limbs)
    else elim (compare_abs_limbs a.limbs b.limbs) [
      | Ordering.eq ↦ from_u64 0
      | Ordering.gt ↦ from_parts a.negative (sub_abs_limbs a.limbs b.limbs)
      | Ordering.lt ↦ from_parts b.negative (sub_abs_limbs b.limbs a.limbs)
    ]

unfoldable pub subtract : ApInt → ApInt → ApInt
subtract a b = add a (negate b)

unfoldable pub multiply : ApInt → ApInt → ApInt
multiply a b = from_parts (not (same_sign a.negative b.negative)) (mul_abs_limbs a.limbs b.limbs)

unfoldable pub divide : ApInt → ApInt → Result ApInt
divide a b =
    if is_zero b
    then throw division_by_zero_in_exact_integer no_location
    else divmod_abs_limbs a.limbs b.limbs >>= λ out.
        ok (from_parts (not (same_sign a.negative b.negative)) out.quotient)

unfoldable pub remainder : ApInt → ApInt → Result ApInt
remainder a b =
    if is_zero b
    then throw division_by_zero_in_exact_integer no_location
    else divmod_abs_limbs a.limbs b.limbs >>= λ out. ok (from_parts a.negative out.remainder)

-- `lhs[i] op= rhs[i]`; the two have one size, so the last clause is a read past the end of `rhs`.
unfoldable pub zip_words : (ℕ → ℕ → ℕ) → List ℕ → List ℕ → List ℕ
zip_words op [] rhs = []
zip_words op (x ∷ lhs) (y ∷ rhs) = op x y ∷ zip_words op lhs rhs
zip_words op (x ∷ lhs) [] = x ∷ lhs

unfoldable pub bitwise : (ℕ → ℕ → ℕ) → ApInt → ApInt → ApInt
bitwise op a b =
    let width = max (signed_bit_width a) (signed_bit_width b) in
    from_twos_complement_words
      (zip_words op (to_twos_complement_words a width) (to_twos_complement_words b width)) width

unfoldable pub bitwise_and : ApInt → ApInt → ApInt
bitwise_and a b = bitwise bit_and a b

unfoldable pub bitwise_or : ApInt → ApInt → ApInt
bitwise_or a b = bitwise bit_or a b

unfoldable pub bitwise_xor : ApInt → ApInt → ApInt
bitwise_xor a b = bitwise bit_xor a b

unfoldable pub complement : ApInt → ApInt
complement a = subtract (negate a) (from_u64 1)

unfoldable pub shift_left : ApInt → ℕ → ApInt
shift_left a shift = from_parts a.negative (shift_left_limbs a.limbs shift)

-- Towards minus infinity: a negative magnitude is rounded up.
unfoldable pub shift_right : ApInt → ℕ → ApInt
shift_right a shift =
    let shifted = shift_right_limbs a.limbs shift in
    if shift == 0
    then a
    else if is_empty a.limbs
    then a
    else if not a.negative
    then from_parts false shifted
    else if any_low_bits a.limbs shift
    then from_parts true (add_small_inplace shifted 1)
    else from_parts true shifted
