-- ===== src/ApInt/Shift.antt =====
-- Shifts of the class, against products and quotients by powers of two.
use native.Mathlib.Nat.{zero-div, div-one, div-eq_of_lt-le, div-add-mod, mod-lt}
use vexel_lang.Base.{
  ℕ, zero, suc, ◌+◌, ◌-◌, ◌*◌, ◌/◌, ◌%◌, ◌^◌, ◌<◌, Bool, true, false, not, List, ◌≡◌, sym, ap, ◌∙◌,
  arith, if◌then◌else◌, ◌==◌, ==_iff, Bool-cases, inl, inr,
}
use vexel_lang.Base.Int.{ℤ, pos, negsuc, ◌*ℤ◌}
use vexel_lang.Base.Power.{two-pow-pos}
use vexel_lang.Limbs.{add_small_inplace}
use vexel_lang.Limbs.Value.{value, IsLimbs}
use vexel_lang.Limbs.Sum.{value-add_small_inplace, add_small_inplace-IsLimbs}
use vexel_lang.LimbBits.{any_low_bits}
use vexel_lang.LimbShift.{shift_left_limbs, shift_right_limbs}
use vexel_lang.LimbShift.Left.{value-shift_left_limbs, shift_left_limbs-IsMagnitude}
use vexel_lang.LimbShift.Right.{value-shift_right_limbs, shift_right_limbs-IsMagnitude}
use vexel_lang.LimbShift.Low.{any_low_bits_lem}
use vexel_lang.ApInt.{ApInt, from_parts, is_empty, same_sign, shift_left, shift_right}
use vexel_lang.ApInt.Meaning.{
  signed, to_ℤ, IsApInt, from_parts-IsApInt, to_ℤ-from_parts, is_empty_lem,
}
use vexel_lang.ApInt.Ring.{signed-mul}

-- For a value of the class, `<<` multiplies the integer by 2 ^ shift.
pub to_ℤ-shift_left :
    (a : ApInt) (shift : ℕ) → IsApInt a → to_ℤ (shift_left a shift) ≡ to_ℤ a *ℤ pos (2 ^ shift)
unfolding shift_left
to_ℤ-shift_left a shift h =
    to_ℤ-from_parts a.negative (shift_left_limbs a.limbs shift)
    ∙ (ap (signed a.negative) (value-shift_left_limbs a.limbs shift h.magnitude.limbs)
        ∙ (sign_of_positive a.negative (value a.limbs * 2 ^ shift)
            ∙ signed-mul a.negative false (value a.limbs) (2 ^ shift)))
  where
    sign_of_positive : (s : Bool) (n : ℕ) → signed s n ≡ signed (not (same_sign s false)) n
    sign_of_positive s n = ground arith

pub shift_left-IsApInt : (a : ApInt) (shift : ℕ) → IsApInt a → IsApInt (shift_left a shift)
unfolding shift_left
shift_left-IsApInt a shift h =
    from_parts-IsApInt a.negative _ (shift_left_limbs-IsMagnitude a.limbs shift h.magnitude).limbs

-- The largest integer that is at most z / 2 ^ shift.
abbrev pub floor_shift : ℤ → ℕ → ℤ
floor_shift (pos n) shift = pos (n / 2 ^ shift)
floor_shift (negsuc n) shift = negsuc (n / 2 ^ shift)

-- A negative magnitude is rounded up where a bit is lost.
round_up :
    (m p q r : ℕ)
    → 0 < m
    → m ≡ p * q + r
    → r < p
    → q + (if r == 0 then 0 else 1) ≡ suc ((m - 1) / p)
round_up m p zero zero hm e hr = absurd (omega (arith, e))
round_up m p (suc q) zero hm e hr =
    let back : (m - 1) / p ≡ q = div-eq_of_lt-le {k = q} p (omega (arith, e)) (omega (arith, e)) in
    rw back (omega arith)
round_up m p q (suc r) hm e hr =
    let back : (m - 1) / p ≡ q = div-eq_of_lt-le {k = q} p (omega (arith, e)) (omega (arith, e)) in
    rw back (ground arith)

rounded :
    (m shift lost : ℕ)
    → 0 < m
    → lost ≡ (if m % 2 ^ shift == 0 then 0 else 1)
    → signed true (m / 2 ^ shift + lost) ≡ floor_shift (signed true m) shift
rounded zero shift lost h e = absurd (omega arith)
rounded (suc n) shift lost h e =
    let up =
      round_up (suc n) (2 ^ shift) (suc n / 2 ^ shift) (suc n % 2 ^ shift) (omega arith)
        (sym (div-add-mod (suc n) (2 ^ shift))) (mod-lt (suc n) (two-pow-pos shift)) in
    let sum : suc n / 2 ^ shift + lost ≡ suc (n / 2 ^ shift) =
      rw e (up ∙ ap (λ (t : ℕ). suc (t / 2 ^ shift)) (omega arith)) in
    rw sum (ground arith)

unshifted : (z : ℤ) → floor_shift z 0 ≡ z
unshifted (pos n) = ap pos (div-one n)
unshifted (negsuc n) = ap negsuc (div-one n)

module _ (a : ApInt) (shift : ℕ) (h : IsApInt a) where
  ShiftsRight : ApInt → Type 0
  ShiftsRight c = (to_ℤ c ≡ floor_shift (to_ℤ a) shift) × IsApInt c

  positive_shift :
      a.negative ≡ false → ShiftsRight (from_parts false (shift_right_limbs a.limbs shift))
  unfolding ShiftsRight
  positive_shift e = (
    to_ℤ-from_parts false (shift_right_limbs a.limbs shift)
        ∙ rw e (ap pos (value-shift_right_limbs a.limbs shift h.magnitude.limbs)),
    from_parts-IsApInt false _ (shift_right_limbs-IsMagnitude a.limbs shift h.magnitude).limbs,
  )

  -- With a magnitude that stands for the rounded quotient.
  negative_shift :
      (shifted : List ℕ) (lost : ℕ)
      → a.negative ≡ true
      → IsLimbs shifted
      → value shifted ≡ value a.limbs / 2 ^ shift + lost
      → lost ≡ (if value a.limbs % 2 ^ shift == 0 then 0 else 1)
      → ShiftsRight (from_parts true shifted)
  unfolding ShiftsRight
  negative_shift shifted lost e hl v hlost = (
    to_ℤ-from_parts true shifted
        ∙ (ap (signed true) v ∙ rw e (rounded (value a.limbs) shift lost (h.sign e) hlost)),
    from_parts-IsApInt true shifted hl,
  )

  down_shift :
      a.negative ≡ true
      → any_low_bits a.limbs shift ≡ false
      → ShiftsRight (from_parts true (shift_right_limbs a.limbs shift))
  down_shift e none_lost =
      negative_shift (shift_right_limbs a.limbs shift) 0 e
        (shift_right_limbs-IsMagnitude a.limbs shift h.magnitude).limbs
        (omega (arith, value-shift_right_limbs a.limbs shift h.magnitude.limbs))
        (ground (arith, any_low_bits_lem a.limbs shift h.magnitude.limbs, none_lost))

  up_shift :
      a.negative ≡ true
      → any_low_bits a.limbs shift ≡ true
      → ShiftsRight (from_parts true (add_small_inplace (shift_right_limbs a.limbs shift) 1))
  up_shift e some_lost =
      let limbs = (shift_right_limbs-IsMagnitude a.limbs shift h.magnitude).limbs in
      negative_shift (add_small_inplace (shift_right_limbs a.limbs shift) 1) 1 e
        (add_small_inplace-IsLimbs _ 1 limbs)
        (omega (
          arith,
          value-add_small_inplace (shift_right_limbs a.limbs shift) 1 limbs (omega arith),
          value-shift_right_limbs a.limbs shift h.magnitude.limbs,
        ))
        (ground (arith, any_low_bits_lem a.limbs shift h.magnitude.limbs, some_lost))

  unshifted_value : shift ≡ 0 → ShiftsRight a
  unfolding ShiftsRight
  unshifted_value e = (sym (rw e (unshifted (to_ℤ a))), h)

  zero_value : is_empty a.limbs ≡ true → ShiftsRight a
  unfolding ShiftsRight
  zero_value e =
      let z : to_ℤ a ≡ pos 0 = ground (arith, is_empty_lem a.limbs h.magnitude, h.sign) in
      (z ∙ sym (ap (λ (x : ℤ). floor_shift x shift) z ∙ ap pos (zero-div (2 ^ shift))), h)

  shifts_right : ShiftsRight (shift_right a shift)
  unfolding shift_right
  shifts_right = elim (Bool-cases (shift == 0)) [
    | inl z ↦ rw z (unshifted_value ((==_iff shift 0).0 z))
    | inr z ↦ elim (Bool-cases (is_empty a.limbs)) [
      | inl empty ↦ rw (z, empty) (zero_value empty)
      | inr full ↦ elim (Bool-cases a.negative) [
        | inr e ↦ rw (shift_right, z, full, e) (positive_shift e)
        | inl e ↦ elim (Bool-cases (any_low_bits a.limbs shift)) [
          | inl l ↦ rw (shift_right, z, full, e, l) (up_shift e l)
          | inr l ↦ rw (shift_right, z, full, e, l) (down_shift e l)
        ]
      ]
    ]
  ]

  -- For a value of the class, `>>` divides the integer by 2 ^ shift, rounded towards minus infinity.
  pub to_ℤ-shift_right : to_ℤ (shift_right a shift) ≡ floor_shift (to_ℤ a) shift
  unfolding ShiftsRight
  to_ℤ-shift_right = shifts_right.0

  pub shift_right-IsApInt : IsApInt (shift_right a shift)
  unfolding ShiftsRight
  shift_right-IsApInt = shifts_right.1
