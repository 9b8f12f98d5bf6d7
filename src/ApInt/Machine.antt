-- ===== src/ApInt/Machine.antt =====
-- Conversions from and to `uint64_t` and `int64_t`, against the integer of the value.
use vexel_lang.Base.{
  ℕ, suc, ◌-◌, ◌*◌, ◌^◌, ◌<◌, Bool, true, false, not, List, [], ◌∷◌, ◌≡◌, refl, ap, ◌∙◌, arith,
  if◌then◌else◌, ◌==◌,
}
use vexel_lang.Base.Int.{ℤ, pos, negsuc, pos_part, ◌-ℤ◌}
use vexel_lang.Base.Bits.{or_fields}
use vexel_lang.Error.{ok, throw, no_location, does_not_fit_in_uint64, does_not_fit_in_int64}
use vexel_lang.Limbs.{u64}
use vexel_lang.Limbs.Value.{value, IsLimbs}
use vexel_lang.Limbs.Sum.{value-push_limbs}
use vexel_lang.Limbs.Carry.{push_limbs-IsMagnitude}
use vexel_lang.ApInt.{ApInt, from_u64, from_i64, limbs_to_u64, to_u64, to_i64, as_i64}
use vexel_lang.ApInt.Meaning.{signed, to_ℤ, IsApInt, to_ℤ-from_u64, from_u64-IsApInt}
use vexel_lang.ApInt.Width.{FitsUnsigned, FitsSigned, fits_u64_iff, fits_i64_iff}

limbs_to_u64_lem : (ls : List ℕ) → IsLimbs ls → value ls < 2 ^ 64 → limbs_to_u64 ls ≡ value ls
unfolding limbs_to_u64
limbs_to_u64_lem [] h lt = refl
limbs_to_u64_lem (l ∷ ls) h lt =
    let rest = limbs_to_u64_lem ls h.1 (omega (arith, lt)) in
    let shifted : u64 (value ls * 2 ^ 16) ≡ value ls * 2 ^ 16 = omega (arith, lt) in
    rw (rest, shifted, or_fields 16 (value ls) l h.0) (omega arith)

not_true : {b : Bool} → ¬ (b ≡ true) → b ≡ false
not_true {b} h = ground arith

-- A value of the class from 0 to 2 ^ 64 - 1 is converted to that number by `to_u64`.
pub to_u64_fits :
    (a : ApInt) → IsApInt a → FitsUnsigned 64 (to_ℤ a) → to_u64 a ≡ ok (pos_part (to_ℤ a))
unfolding to_u64
to_u64_fits a h fits =
    rw ((fits_u64_iff a h).1 fits)
      (ground (arith, h.sign, limbs_to_u64_lem a.limbs h.magnitude.limbs))

-- A value of the class that is negative or above 2 ^ 64 - 1 makes `to_u64` throw.
pub to_u64_throws :
    (a : ApInt)
    → IsApInt a
    → ¬ FitsUnsigned 64 (to_ℤ a)
    → to_u64 a ≡ throw does_not_fit_in_uint64 no_location
unfolding to_u64
to_u64_throws a h no_fit = rw (not_true (λ e. no_fit ((fits_u64_iff a h).0 e)))

pub from_i64_lem : (z : ℤ) → FitsSigned 64 z → IsApInt (from_i64 z) × (to_ℤ (from_i64 z) ≡ z)
unfolding from_i64
from_i64_lem (pos n) h = (
  record { magnitude = push_limbs-IsMagnitude 4 n (omega arith); sign = λ e. cc },
  ap pos (value-push_limbs 4 n (omega arith)),
)
from_i64_lem (negsuc n) h =
    let v = value-push_limbs 4 (suc n) (omega arith) in
    (
      record {
        magnitude = push_limbs-IsMagnitude 4 (suc n) (omega arith);
        sign = λ e. omega (arith, v);
      },
      rw v (ground arith),
    )

signed_result :
    (s : Bool) (m : ℕ)
    → FitsSigned 64 (signed s m)
    → (if not s
        then ok (as_i64 m)
        else if m == 2 ^ 63
        then ok (negsuc (2 ^ 63 - 1))
        else ok (pos 0 -ℤ as_i64 m))
      ≡ ok (signed s m)
unfolding ◌-ℤ◌
signed_result false m h = ground arith
signed_result true m h = ground arith

-- A value of the class in the range of int64_t is converted to that integer by `to_i64`, the lowest included.
pub to_i64_fits : (a : ApInt) → IsApInt a → FitsSigned 64 (to_ℤ a) → to_i64 a ≡ ok (to_ℤ a)
unfolding to_i64
to_i64_fits a h fits =
    let magnitude = limbs_to_u64_lem a.limbs h.magnitude.limbs (ground (arith, h.sign, fits)) in
    rw ((fits_i64_iff a h).1 fits, magnitude) (signed_result a.negative (value a.limbs) fits)

-- A value of the class outside the range of int64_t makes `to_i64` throw.
pub to_i64_throws :
    (a : ApInt)
    → IsApInt a
    → ¬ FitsSigned 64 (to_ℤ a)
    → to_i64 a ≡ throw does_not_fit_in_int64 no_location
unfolding to_i64
to_i64_throws a h no_fit = rw (not_true (λ e. no_fit ((fits_i64_iff a h).0 e)))

-- For each number below 2 ^ 64, `to_u64` of the value built from it is the number.
pub to_u64-from_u64 : (n : ℕ) → n < 2 ^ 64 → to_u64 (from_u64 n) ≡ ok n
to_u64-from_u64 n h =
    let v = to_ℤ-from_u64 n h in
    to_u64_fits (from_u64 n) (from_u64-IsApInt n h) (rw v (omega arith))
    ∙ ap (λ (z : ℤ). ok (pos_part z)) v

-- For each integer in the range of int64_t, `to_i64` of the value built from it is the integer.
pub to_i64-from_i64 : (z : ℤ) → FitsSigned 64 z → to_i64 (from_i64 z) ≡ ok z
to_i64-from_i64 z h =
    let (valid, v) = from_i64_lem z h in to_i64_fits (from_i64 z) valid (rw v h) ∙ ap ok v
