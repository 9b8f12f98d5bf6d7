-- ===== src/LimbShift/Left.antt =====
-- `shift_left_limbs`, on the number that a vector stands for.
use vexel_lang.Base.{
  ℕ, zero, suc, ◌+◌, ◌*◌, ◌/◌, ◌%◌, ◌^◌, ◌<◌, ◌≤◌, List, [], ◌∷◌, ◌++◌, ◌≡◌, ap, ◌∙◌, arith,
  replicate, ◌==◌, Bool-cases, ==_iff, inl, inr,
}
use native.Mathlib.Nat.{one-mul}
use vexel_lang.Base.Power.{two-pow-add, two-pow-pos}
use vexel_lang.Base.Bits.{or_fields}
use vexel_lang.Limbs.{limb_base, normalize_limbs}
use vexel_lang.Limbs.Value.{value, IsLimbs, IsMagnitude}
use vexel_lang.Limbs.Normal.{value-normalize_limbs, normalize_limbs-IsMagnitude}
use vexel_lang.LimbBits.Bit.{bit-lt}
use vexel_lang.LimbShift.{shift_left_loop, shift_left_limbs}

carry_bound : (l p carry : ℕ) → l < limb_base → carry < p → (l * p + carry) / limb_base < p
carry_bound l p carry hl hc =
    let fits : l * p + p ≤ limb_base * p = grind arith in omega (arith, fits)

value-shift_left_loop :
    (ls : List ℕ) (s carry : ℕ)
    → IsLimbs ls
    → carry < 2 ^ s
    → value (shift_left_loop ls s carry) ≡ value ls * 2 ^ s + carry
unfolding shift_left_loop
value-shift_left_loop [] s carry h hc = ground arith
value-shift_left_loop (l ∷ ls) s carry h hc = rw (or_fields s l carry hc) (
    omega (
      arith,
      value-shift_left_loop ls s ((l * 2 ^ s + carry) / limb_base) h.1
          (carry_bound l (2 ^ s) carry h.0 hc),
    ))

shift_left_loop-IsLimbs :
    (ls : List ℕ) (s carry : ℕ)
    → IsLimbs ls
    → s < 16
    → carry < 2 ^ s
    → IsLimbs (shift_left_loop ls s carry)
unfolding shift_left_loop
shift_left_loop-IsLimbs [] s carry h hs hc = ground (arith, bit-lt s hs)
shift_left_loop-IsLimbs (l ∷ ls) s carry h hs hc = rw (or_fields s l carry hc) (
  omega arith,
  shift_left_loop-IsLimbs ls s ((l * 2 ^ s + carry) / limb_base) h.1 hs
      (carry_bound l (2 ^ s) carry h.0 hc),
)

value-zeros : (n : ℕ) (ls : List ℕ) → value (replicate n 0 ++ ls) ≡ 2 ^ (16 * n) * value ls
value-zeros zero ls = omega (arith, one-mul (value ls))
value-zeros (suc n) ls =
    let e : 16 * suc n ≡ 16 + 16 * n = omega arith in
    rw (e, two-pow-add 16 (16 * n)) (omega (arith, value-zeros n ls))

zeros-IsLimbs : (n : ℕ) (ls : List ℕ) → IsLimbs ls → IsLimbs (replicate n 0 ++ ls)
zeros-IsLimbs zero ls h = h
zeros-IsLimbs (suc n) ls h = (omega arith, zeros-IsLimbs n ls h)

pub two-pow-split : (shift : ℕ) → 2 ^ shift ≡ 2 ^ (16 * (shift / 16)) * 2 ^ (shift % 16)
two-pow-split shift =
    ap (λ (n : ℕ). 2 ^ n) (omega arith) ∙ two-pow-add (16 * (shift / 16)) (shift % 16)

shifted :
    (l : ℕ) (ls : List ℕ) (shift : ℕ)
    → IsLimbs (l ∷ ls)
    → value (normalize_limbs (replicate (shift / 16) 0 ++ shift_left_loop (l ∷ ls) (shift % 16) 0))
      ≡ value (l ∷ ls) * 2 ^ shift
shifted l ls shift h =
    let out = shift_left_loop (l ∷ ls) (shift % 16) 0 in
    let v = value-shift_left_loop (l ∷ ls) (shift % 16) 0 h (two-pow-pos (shift % 16)) in
    value-normalize_limbs (replicate (shift / 16) 0 ++ out)
    ∙ (value-zeros (shift / 16) out
        ∙ rw (two-pow-split shift) (omega (arith, ap (λ (t : ℕ). 2 ^ (16 * (shift / 16)) * t) v)))

pub value-shift_left_limbs :
    (ls : List ℕ) (shift : ℕ)
    → IsLimbs ls
    → value (shift_left_limbs ls shift) ≡ value ls * 2 ^ shift
unfolding shift_left_limbs
value-shift_left_limbs [] shift h = omega arith
value-shift_left_limbs (l ∷ ls) shift h = elim (Bool-cases (shift == 0)) [
  | inl e ↦ rw (e, (==_iff shift 0).0 e) (omega arith)
  | inr e ↦ rw e (shifted l ls shift h)
]

pub shift_left_limbs-IsMagnitude :
    (ls : List ℕ) (shift : ℕ) → IsMagnitude ls → IsMagnitude (shift_left_limbs ls shift)
unfolding shift_left_limbs
shift_left_limbs-IsMagnitude [] shift m = m
shift_left_limbs-IsMagnitude (l ∷ ls) shift m = elim (Bool-cases (shift == 0)) [
  | inl e ↦ rw e m
  | inr e ↦ rw e (
      normalize_limbs-IsMagnitude _ (
        zeros-IsLimbs (shift / 16) _ (
          shift_left_loop-IsLimbs (l ∷ ls) (shift % 16) 0 m.limbs (omega arith)
            (two-pow-pos (shift % 16)))))
]
