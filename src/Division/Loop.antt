-- ===== src/Division/Loop.antt =====
-- What the division loop keeps of the bits that it has seen.
use Prim.Native.Nat.{Ordering}
use native.Mathlib.Nat.{div-div-eq-div-mul, mul-div_cancel, mul_comm}
use vexel_lang.Base.{
  ℕ, zero, suc, ◌+◌, ◌*◌, ◌/◌, ◌%◌, ◌^◌, ◌≤◌, ◌<◌, sym, List, ◌≡◌, refl, ap, ◌∙◌, arith, inl, inr,
  Bool-cases,
}
use vexel_lang.Base.Power.{two-pow-suc, two-pow-pos}
use vexel_lang.Limbs.{compare_abs_limbs}
use vexel_lang.Limbs.Value.{value, IsLimbs, IsMagnitude}
use vexel_lang.Limbs.Sum.{value-add_small_inplace}
use vexel_lang.Limbs.Carry.{add_small_inplace-IsMagnitude}
use vexel_lang.Limbs.Difference.{value-sub_abs_inplace, sub_abs_inplace-IsMagnitude}
use vexel_lang.Limbs.Order.{compare_abs_limbs_lem}
use vexel_lang.LimbBits.{shl1_inplace, test_bit_limbs}
use vexel_lang.LimbBits.Bit.{test_bit_limbs_lem, value-set_bit_limbs, set_bit_limbs-IsLimbs}
use vexel_lang.LimbBits.Double.{value-shl1_inplace, shl1_inplace-IsMagnitude}
use vexel_lang.Division.{DivMod, bring_down, subtract_divisor, divmod_loop}

value-bring_down :
    (dividend : List ℕ) (i : ℕ) (r : List ℕ)
    → IsLimbs dividend
    → IsMagnitude r
    → value (bring_down dividend i r) ≡ 2 * value r + value dividend / 2 ^ i % 2
unfolding bring_down
value-bring_down dividend i r hd mr =
    let m = shl1_inplace-IsMagnitude r mr in
    ground (
      arith,
      test_bit_limbs_lem dividend i hd,
      value-shl1_inplace r mr.limbs,
      value-add_small_inplace (shl1_inplace r) 1 m.limbs (omega arith),
    )

bring_down-IsMagnitude :
    (dividend : List ℕ) (i : ℕ) (r : List ℕ) → IsMagnitude r → IsMagnitude (bring_down dividend i r)
unfolding bring_down
bring_down-IsMagnitude dividend i r mr =
    let m = shl1_inplace-IsMagnitude r mr in
    elim (Bool-cases (test_bit_limbs dividend i)) [
      | inl e ↦ rw e (add_small_inplace-IsMagnitude (shl1_inplace r) 1 m (omega arith))
      | inr e ↦ rw e m
    ]

-- With bits `i` and up seen, the quotient's bits stand at `i` and up, and the remainder is right.
pub record IsDivided (dividend divisor : List ℕ) (i : ℕ) (s : DivMod) : Type 0 where
  pub high : ℕ
  pub quotient_limbs : IsLimbs s.quotient
  pub remainder_magnitude : IsMagnitude s.remainder
  pub quotient_high : value s.quotient ≡ high * 2 ^ i
  pub divided : high * value divisor + value s.remainder ≡ value dividend / 2 ^ i
  pub below : value s.remainder < value divisor

doubled : (high i : ℕ) → high * 2 ^ suc i ≡ high * 2 * 2 ^ i
doubled high i = omega (arith, ap (λ (t : ℕ). high * t) (two-pow-suc i))

-- The quotient so far is even at bit `i`.
clear_bit : (high q i : ℕ) → q ≡ high * 2 * 2 ^ i → q / 2 ^ i % 2 ≡ 0
clear_bit high q i e =
    omega (arith, ap (λ (t : ℕ). t / 2 ^ i) e ∙ mul-div_cancel (high * 2) (two-pow-pos i))

next_bit : (n i : ℕ) → 2 * (n / 2 ^ suc i) + n / 2 ^ i % 2 ≡ n / 2 ^ i
next_bit n i =
    let e : n / 2 ^ suc i ≡ n / 2 ^ i / 2 =
      rw (two-pow-suc i, mul_comm 2 (2 ^ i)) (sym (div-div-eq-div-mul n (2 ^ i) 2)) in
    omega (arith, e)

module _ (dividend divisor : List ℕ) (md : IsLimbs dividend) (mv : IsMagnitude divisor) where
  -- The remainder after its bit is brought down, against the divisor.
  subtract_divisor-IsDivided :
      (high i : ℕ) (s : DivMod) (c : Ordering)
      → IsLimbs s.quotient
      → IsMagnitude s.remainder
      → value s.quotient ≡ high * 2 * 2 ^ i
      → high * 2 * value divisor + value s.remainder ≡ value dividend / 2 ^ i
      → value s.remainder < 2 * value divisor
      → compare_abs_limbs s.remainder divisor ≡ c
      → IsDivided dividend divisor i (subtract_divisor divisor i s)
  unfolding subtract_divisor
  subtract_divisor-IsDivided high i s Ordering.lt lq mr hq hd lt e =
      let c = sym (compare_abs_limbs_lem s.remainder divisor mr mv) ∙ e in
      rw (e, subtract_divisor)
        (record {
          high = high * 2;
          quotient_limbs = lq;
          remainder_magnitude = mr;
          quotient_high = hq;
          divided = hd;
          below = ground (arith, c);
        })
  subtract_divisor-IsDivided high i s _ lq mr hq hd lt e =
      let c = sym (compare_abs_limbs_lem s.remainder divisor mr mv) ∙ e in
      let le : value divisor ≤ value s.remainder = ground (arith, c) in
      let sub = value-sub_abs_inplace s.remainder divisor mr.limbs mv.limbs le in
      rw (e, subtract_divisor)
        (record {
          high = high * 2 + 1;
          quotient_limbs = set_bit_limbs-IsLimbs s.quotient i lq;
          remainder_magnitude = sub_abs_inplace-IsMagnitude s.remainder divisor mr.limbs mv.limbs;
          quotient_high =
              value-set_bit_limbs s.quotient i lq (clear_bit high _ i hq) ∙ omega (arith, hq);
          divided = omega (arith, sub, hd);
          below = omega (arith, sub, lt);
        })

  step-IsDivided :
      (i : ℕ) (s : DivMod)
      → IsDivided dividend divisor (suc i) s
      → IsDivided dividend divisor i
          (subtract_divisor divisor i (record s { remainder = bring_down dividend i s.remainder }))
  step-IsDivided i s d =
      let down = value-bring_down dividend i s.remainder md d.remainder_magnitude in
      let bit = next_bit (value dividend) i in
      subtract_divisor-IsDivided d.high i
        (record s { remainder = bring_down dividend i s.remainder })
        (compare_abs_limbs (bring_down dividend i s.remainder) divisor) d.quotient_limbs
        (bring_down-IsMagnitude dividend i s.remainder d.remainder_magnitude)
        (d.quotient_high ∙ doubled d.high i) (omega (arith, down, d.divided, bit))
        (omega (arith, down, d.below)) refl

  pub divmod_loop-IsDivided :
      (i : ℕ) (s : DivMod)
      → IsDivided dividend divisor i s
      → IsDivided dividend divisor 0 (divmod_loop dividend divisor i s)
  unfolding divmod_loop
  divmod_loop-IsDivided zero s d = d
  divmod_loop-IsDivided (suc i) s d = divmod_loop-IsDivided i _ (step-IsDivided i s d)
