-- ===== src/Evaluator/Scale.antt =====
-- Exact fixed-point helpers: division by a power of two and the remainder.
use native.Mathlib.Nat.{zero-div, div-one}
use vexel_lang.Evaluator.{fixed_raw_mod, trunc_div_pow2}
use vexel_lang.Base.{
  ==_iff, Bool, ap, ap₂, arith, false, if◌then◌else◌, refl, some, sym, true, ℕ, ◌/◌, ◌==◌, ◌^◌, ◌∙◌,
  ◌≡◌, ◌≢◌,
}
use vexel_lang.Base.Int.{
  +ℤ_cancel, +ℤ_comm, neg_part, negsuc, pos, pos_part, sub_ℕ, ℤ, ◌*ℤ◌, ◌+ℤ◌, ◌-ℤ◌,
}
use vexel_lang.Error.{ok}
use vexel_lang.ApInt.{
  ApInt, is_empty, is_negative, is_zero, multiply, negate, remainder, shift_right, subtract,
}
use vexel_lang.ApInt.Meaning.{IsApInt, is_empty_pos, to_ℤ, to_ℤ-injective}
use vexel_lang.ApInt.Ring.{
  multiply-IsApInt, negate-IsApInt, subtract-IsApInt, to_ℤ-multiply, to_ℤ-negate, to_ℤ-subtract,
}
use vexel_lang.ApInt.Shift.{floor_shift, shift_right-IsApInt, to_ℤ-shift_right}
use vexel_lang.ApInt.Quotient.{divide_remainder}

-- The integer nearest to z / 2 ^ shift from the side of 0.
abbrev pub truncated_shift : ℤ → ℕ → ℤ
truncated_shift z shift = sub_ℕ (pos_part z / 2 ^ shift) (neg_part z / 2 ^ shift)

floor_not_negative :
    (z : ℤ) (shift : ℕ) → neg_part z ≡ 0 → floor_shift z shift ≡ truncated_shift z shift
floor_not_negative (pos n) shift h = rw (zero-div (2 ^ shift)) (ground arith)
floor_not_negative (negsuc n) shift h = absurd (omega (arith, h))

floor_negative :
    (z : ℤ) (shift : ℕ)
    → pos_part z ≡ 0
    → pos 0 -ℤ floor_shift (pos 0 -ℤ z) shift ≡ truncated_shift z shift
unfolding ◌-ℤ◌
floor_negative (pos n) shift h =
    let e : n ≡ 0 = omega (arith, h) in
    rw e (rw (zero-div (2 ^ shift)) (ground (arith, zero-div (2 ^ shift))))
floor_negative (negsuc n) shift h = rw (zero-div (2 ^ shift)) (ground (arith, zero-div (2 ^ shift)))

choose :
    (P : ApInt → Type 0) (b : Bool) (x y : ApInt)
    → (b ≡ true → P x)
    → (b ≡ false → P y)
    → P (if b then x else y)
choose P true x y hx hy = hx refl
choose P false x y hx hy = hy refl

-- For a value of the class, `trunc_div_pow2` divides the integer by 2 ^ shift, rounded towards 0, and gives a value
-- of the class.
pub to_ℤ-trunc_div_pow2 :
    (a : ApInt) (shift : ℕ)
    → IsApInt a
    → (to_ℤ (trunc_div_pow2 a shift) ≡ truncated_shift (to_ℤ a) shift)
      × IsApInt (trunc_div_pow2 a shift)
unfolding trunc_div_pow2 is_negative
to_ℤ-trunc_div_pow2 a shift h =
    choose Truncates (shift == 0) a
      (if a.negative then negate (shift_right (negate a) shift) else shift_right a shift)
      (λ z. (unshifted ((==_iff shift 0).0 z), h))
      (λ z.
        choose Truncates a.negative (negate (shift_right (negate a) shift)) (shift_right a shift)
          negative_case
          (λ n. (
            to_ℤ-shift_right a shift h ∙ floor_not_negative (to_ℤ a) shift (ground (arith, n)),
            shift_right-IsApInt a shift h,
          )))
  where
    Truncates : ApInt → Type 0
    Truncates c = (to_ℤ c ≡ truncated_shift (to_ℤ a) shift) × IsApInt c

    unshifted : shift ≡ 0 → to_ℤ a ≡ truncated_shift (to_ℤ a) shift
    unshifted z = sym (
        ap (truncated_shift (to_ℤ a)) z
        ∙ (ap₂ sub_ℕ (div-one (pos_part (to_ℤ a))) (div-one (neg_part (to_ℤ a))) ∙ parts (to_ℤ a)))
      where
        parts : (z : ℤ) → sub_ℕ (pos_part z) (neg_part z) ≡ z
        parts z = ground arith

    negative_case : a.negative ≡ true → Truncates (negate (shift_right (negate a) shift))
    negative_case n =
        let flipped = negate-IsApInt a h in
        (
          to_ℤ-negate (shift_right (negate a) shift)
              ∙ (ap (λ (y : ℤ). pos 0 -ℤ y)
                    (to_ℤ-shift_right (negate a) shift flipped
                      ∙ ap (λ (y : ℤ). floor_shift y shift) (to_ℤ-negate a))
                  ∙ floor_negative (to_ℤ a) shift (ground (arith, n))),
          negate-IsApInt _ (shift_right-IsApInt (negate a) shift flipped),
        )

quotient_out : (x y r z : ℤ) → x *ℤ y +ℤ r ≡ z → z -ℤ x *ℤ y ≡ r
quotient_out x y r z e =
    ap (λ (t : ℤ). t -ℤ x *ℤ y) (sym e ∙ +ℤ_comm (x *ℤ y) r) ∙ +ℤ_cancel r (x *ℤ y)

-- For values of the class with a divisor that does not stand for 0, `fixed_raw_mod` returns the value that `%`
-- returns.
pub fixed_raw_mod_lem :
    (a b : ApInt) (frac_bits : ℤ)
    → IsApInt a
    → IsApInt b
    → to_ℤ b ≢ pos 0
    → (r : ApInt) × (remainder a b ≡ ok r) × (fixed_raw_mod a b frac_bits ≡ ok (some r))
unfolding fixed_raw_mod is_zero
fixed_raw_mod_lem a b frac_bits ha hb nz =
    let (q, r, found_q, found_r, t) = divide_remainder a b ha hb nz in
    let product = to_ℤ-multiply q b t.quotient_valid hb in
    let valid = subtract-IsApInt a (multiply q b) ha (multiply-IsApInt q b) in
    let same : subtract a (multiply q b) ≡ r =
      to_ℤ-injective (subtract a (multiply q b)) r valid t.remainder_valid (
        to_ℤ-subtract a (multiply q b) ha (multiply-IsApInt q b)
        ∙ (ap (λ (y : ℤ). to_ℤ a -ℤ y) product
            ∙ quotient_out (to_ℤ q) (to_ℤ b) (to_ℤ r) (to_ℤ a) t.divided)) in
    let full : is_empty b.limbs ≡ false = is_empty_pos b.limbs (ground (arith, nz)) in
    (r, found_r, rw (full, found_q) (ap (λ (x : ApInt). ok (some x)) same))
