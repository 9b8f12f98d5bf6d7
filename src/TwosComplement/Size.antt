-- ===== src/TwosComplement/Size.antt =====
-- The number of words behind masking, and of words that a number needs.
use native.Mathlib.Nat.{pow-le-pow_right}
use native.Mathlib.Decide.{dec_lt}
use vexel_lang.Base.{
  Bool-cases, List, [], ap, arith, false, inl, inr, length, refl, suc, ℕ, ◌%◌, ◌*◌, ◌<◌, ◌==◌, ◌^◌,
  ◌∷◌, ◌≡◌, ◌≤◌,
}
use vexel_lang.Limbs.{keep_limb, normalize_limbs}
use vexel_lang.Limbs.Value.{IsLimbs, value}
use vexel_lang.TwosComplement.{mask_back, mask_top_bits_preserve_size}
use vexel_lang.TwosComplement.Mask.{value-lt}

pub length-mask_back : (ls : List ℕ) (extra : ℕ) → length (mask_back ls extra) ≡ length ls
unfolding mask_back
length-mask_back [] extra = refl
length-mask_back (l ∷ []) extra = refl
length-mask_back (l ∷ x ∷ t) extra = ap suc (length-mask_back (x ∷ t) extra)

pub length-mask_top_bits_preserve_size :
    (words : List ℕ) (w : ℕ) → 0 < w → length (mask_top_bits_preserve_size words w) ≡ length words
unfolding mask_top_bits_preserve_size
length-mask_top_bits_preserve_size words w h =
    let nonzero : (w == 0) ≡ false = ground (arith, h) in
    elim (Bool-cases (w % 16 == 0)) [
      | inl z ↦ rw (nonzero, z) refl
      | inr z ↦ rw (nonzero, z) (length-mask_back words (w % 16))
    ]

pub length-normalize_limbs-le : (ls : List ℕ) → length (normalize_limbs ls) ≤ length ls
unfolding normalize_limbs
length-normalize_limbs-le [] = omega arith
length-normalize_limbs-le (l ∷ ls) =
    let ih = length-normalize_limbs-le ls in kept l (normalize_limbs ls) (length ls) ih
  where
    kept : (l : ℕ) (rest : List ℕ) (n : ℕ) → length rest ≤ n → length (keep_limb l rest) ≤ suc n
    kept l [] n h = ground arith
    kept l (x ∷ t) n h = omega (arith, h)

-- A number that needs the last word takes all of them.
pub length-from-value : (ls : List ℕ) (n : ℕ) → IsLimbs ls → 2 ^ (16 * n) ≤ value ls → n < length ls
length-from-value ls n h le = elim (dec_lt n (length ls)) [
  | yes p ↦ p
  | no q ↦
      let small : 2 ^ (16 * length ls) ≤ 2 ^ (16 * n) =
        pow-le-pow_right {n = 2} (omega arith) (omega (arith, q)) in
      absurd (omega (arith, value-lt ls h, small, le))
]
