-- ===== src/LimbShift/Low.antt =====
-- `any_low_bits` and the bits that a shift to the right drops.
use native.Mathlib.Nat.{zero-mod, mul_assoc, div-div-eq-div-mul, div-add-mod}
use vexel_lang.Base.{
  ℕ, zero, suc, ◌+◌, ◌-◌, ◌*◌, ◌/◌, ◌%◌, ◌^◌, ◌<◌, List, [], ◌∷◌, ◌≡◌, ap, ◌∙◌, arith, not, ◌==◌,
  ==_iff, Bool-cases, inl, inr, zero,
}
use vexel_lang.Base.Power.{two-pow-add}
use vexel_lang.Limbs.{limb_base}
use vexel_lang.Limbs.Value.{value, IsLimbs}
use vexel_lang.LimbBits.{any_low_loop, any_low_bits}
use vexel_lang.LimbShift.Right.{remainder_limb, limb_split}

-- The remainder by a power past the first limb: that limb, and the remainder of the rest.
pub long_remainder :
    (l v n : ℕ) → l < limb_base → (l + limb_base * v) % 2 ^ (16 + n) ≡ l + limb_base * (v % 2 ^ n)
long_remainder l v n h =
    let q : (l + limb_base * v) / 2 ^ (16 + n) ≡ v / 2 ^ n =
      rw (two-pow-add 16 n, ← div-div-eq-div-mul (l + limb_base * v) limb_base (2 ^ n))
        (ap (λ (t : ℕ). t / 2 ^ n) (omega (arith, h))) in
    let whole = div-add-mod (l + limb_base * v) (2 ^ (16 + n)) in
    let part = ap (λ (t : ℕ). limb_base * t) (div-add-mod v (2 ^ n)) in
    let big : 2 ^ (16 + n) * (v / 2 ^ n) ≡ limb_base * (2 ^ n * (v / 2 ^ n)) =
      rw (two-pow-add 16 n) (mul_assoc limb_base (2 ^ n) (v / 2 ^ n)) in
    omega (arith, whole, part, big, ap (λ (t : ℕ). 2 ^ (16 + n) * t) q)

any_low_loop_lem :
    (ls : List ℕ) (full s : ℕ)
    → IsLimbs ls
    → s < 16
    → any_low_loop ls full s ≡ not (value ls % 2 ^ (16 * full + s) == 0)
unfolding any_low_loop
any_low_loop_lem [] full s h hs = rw (zero-mod (2 ^ (16 * full + s)))
any_low_loop_lem (l ∷ ls) zero s h hs =
    let e : 16 * 0 + s ≡ s = omega arith in
    rw (e, remainder_limb l (value ls) (2 ^ s) (2 ^ (16 - s)) (limb_split s (omega arith)))
      (elim (Bool-cases (s == 0)) [
        | inl z ↦ ground (arith, ap (λ (t : ℕ). l % 2 ^ t) ((==_iff s 0).0 z))
        | inr z ↦ rw z
      ])
any_low_loop_lem (l ∷ ls) (suc full) s h hs =
    let e : 16 * suc full + s ≡ 16 + (16 * full + s) = omega arith in
    rw (e, long_remainder l (value ls) (16 * full + s) h.0)
      (ground (arith, any_low_loop_lem ls full s h.1 hs))

pub any_low_bits_lem :
    (ls : List ℕ) (shift : ℕ) → IsLimbs ls → any_low_bits ls shift ≡ not (value ls % 2 ^ shift == 0)
unfolding any_low_bits
any_low_bits_lem ls shift h =
    any_low_loop_lem ls (shift / 16) (shift % 16) h (omega arith)
    ∙ ap (λ (n : ℕ). not (value ls % 2 ^ n == 0)) (omega arith)
