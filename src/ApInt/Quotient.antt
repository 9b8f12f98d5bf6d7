-- ===== src/ApInt/Quotient.antt =====
-- Division and remainder of the class, against truncated division of the integers.
use vexel_lang.Limbs.{normalize_limbs}
use vexel_lang.Base.{
  ◌≢◌, ℕ, ◌+◌, ◌*◌, ◌<◌, Bool, true, false, not, List, ◌≡◌, sym, ap, ap₂, ◌∙◌, arith,
}
use vexel_lang.Base.Int.{ℤ, pos, ◌+ℤ◌, ◌*ℤ◌}
use vexel_lang.Error.{ok, throw, no_location, division_by_zero_in_exact_integer}
use vexel_lang.Limbs.Value.{value}
use vexel_lang.Division.{DivMod}
use vexel_lang.Division.Quotient.{IsDivMod, divmod_abs_limbs_pos}
use vexel_lang.ApInt.{ApInt, is_empty, from_parts, same_sign, is_zero, divide, remainder}
use vexel_lang.ApInt.Meaning.{
  signed, to_ℤ, IsApInt, from_parts-IsApInt, to_ℤ-from_parts, value-from_parts, is_empty_lem,
  is_empty_pos,
}
use vexel_lang.ApInt.Ring.{signed-mul, signed-add}

-- The quotient `q` and remainder `r` of `a` by `b`, with the sign of `a` on the remainder.
pub record IsTruncated (a b q r : ApInt) : Type 0 where
  pub quotient_valid : IsApInt q
  pub remainder_valid : IsApInt r
  pub divided : to_ℤ q *ℤ to_ℤ b +ℤ to_ℤ r ≡ to_ℤ a
  pub below : value r.limbs < value b.limbs
  pub sign : r.negative ≡ true → a.negative ≡ true
  pub sign_kept : a.negative ≡ true → 0 < value r.limbs → r.negative ≡ true

sign_of_product : (s t : Bool) → not (same_sign (not (same_sign s t)) t) ≡ s
sign_of_product s t = ground arith

signed_division :
    (s t : Bool) (q n r m : ℕ)
    → q * n + r ≡ m
    → signed (not (same_sign s t)) q *ℤ signed t n +ℤ signed s r ≡ signed s m
signed_division s t q n r m e =
    ap (λ (x : ℤ). x +ℤ signed s r)
      (sym (signed-mul (not (same_sign s t)) t q n)
        ∙ ap (λ (u : Bool). signed u (q * n)) (sign_of_product s t))
    ∙ (sym (signed-add s (q * n) r) ∙ ap (signed s) e)

from_parts_sign : (s : Bool) (ls : List ℕ) → (from_parts s ls).negative ≡ true → s ≡ true
unfolding from_parts
from_parts_sign s ls h = ground arith

from_parts_kept :
    (ls : List ℕ) → 0 < value (from_parts true ls).limbs → (from_parts true ls).negative ≡ true
unfolding from_parts
from_parts_kept ls h = rw (is_empty_pos (normalize_limbs ls) h)

kept_sign :
    (s : Bool) (ls : List ℕ)
    → s ≡ true
    → 0 < value (from_parts s ls).limbs
    → (from_parts s ls).negative ≡ true
kept_sign true ls e h = from_parts_kept ls h
kept_sign false ls e h = cc

truncated :
    (a b : ApInt) (out : DivMod)
    → IsDivMod a.limbs b.limbs out
    → IsTruncated a b
        (from_parts (not (same_sign a.negative b.negative)) out.quotient)
        (from_parts a.negative out.remainder)
truncated a b out d = record {
  quotient_valid = from_parts-IsApInt _ _ d.quotient_magnitude.limbs;
  remainder_valid = from_parts-IsApInt _ _ d.remainder_magnitude.limbs;
  divided =
      ap₂ (λ (x y : ℤ). x *ℤ to_ℤ b +ℤ y)
        (to_ℤ-from_parts (not (same_sign a.negative b.negative)) out.quotient)
        (to_ℤ-from_parts a.negative out.remainder)
      ∙ signed_division a.negative b.negative (value out.quotient) (value b.limbs)
          (value out.remainder) (value a.limbs) d.divided;
  below = rw (value-from_parts a.negative out.remainder) d.below;
  sign = from_parts_sign a.negative out.remainder;
  sign_kept = kept_sign a.negative out.remainder;
}

-- A divisor of the class that stands for 0 makes both `/` and `%` throw the division by zero.
pub divide_zero :
    (a b : ApInt)
    → IsApInt b
    → to_ℤ b ≡ pos 0
    → (divide a b ≡ throw division_by_zero_in_exact_integer no_location)
      × (remainder a b ≡ throw division_by_zero_in_exact_integer no_location)
unfolding divide remainder is_zero
divide_zero a b hb z =
    let empty : is_empty b.limbs ≡ true =
      is_empty_lem b.limbs hb.magnitude ∙ ground (arith, hb.sign) in
    (rw empty, rw empty)

-- For values of the class with a divisor that does not stand for 0, `/` and `%` both return: the quotient times
-- the divisor plus the remainder is the dividend, the remainder is below the divisor in magnitude, and it is
-- negative only with a negative dividend, and then whenever it is not 0. Both results are values of the class.
pub divide_remainder :
    (a b : ApInt)
    → IsApInt a
    → IsApInt b
    → to_ℤ b ≢ pos 0
    → (q r : ApInt) × (divide a b ≡ ok q) × (remainder a b ≡ ok r) × IsTruncated a b q r
unfolding divide remainder is_zero
divide_remainder a b ha hb nz =
    let positive : 0 < value b.limbs = ground arith in
    let some_left = is_empty_pos b.limbs positive in
    let (out, found, d) = divmod_abs_limbs_pos a.limbs b.limbs ha.magnitude hb.magnitude positive in
    (
      from_parts (not (same_sign a.negative b.negative)) out.quotient,
      from_parts a.negative out.remainder,
      rw (some_left, found),
      rw (some_left, found),
      truncated a b out d,
    )
