-- ===== src/Limbs/Length.antt =====
-- `bit_length_limbs`, and the number of binary digits.
use vexel_lang.Base.{
  ℕ, zero, suc, ◌+◌, ◌*◌, ◌/◌, ◌^◌, ◌≤◌, ◌<◌, List, [], ◌∷◌, ◌≡◌, refl, arith, ◌↔◌,
}
use vexel_lang.Base.Power.{two-pow-suc, two-pow-add}
use native.Mathlib.Nat.{pow-le-pow_right, zero-add, add-zero}
use native.Mathlib.Decide.{dec_le}
use vexel_lang.Limbs.{limb_bits, bit_length_loop, bit_length_u32, bit_length_limbs}
use vexel_lang.Limbs.Value.{value, IsMagnitude}
use vexel_lang.Limbs.Normal.{value-pos, IsMagnitude-tail}

-- `n` is the number of binary digits of `v`.
abbrev pub IsBitLength : ℕ → ℕ → Type 0
IsBitLength v n = (v < 2 ^ n) × (0 < v → 2 ^ n ≤ 2 * v) × (v ≡ 0 → n ≡ 0)

bit_length_loop_shift :
    (fuel v bits : ℕ) → bit_length_loop fuel v bits ≡ bit_length_loop fuel v 0 + bits
unfolding bit_length_loop
bit_length_loop_shift zero v bits = omega arith
bit_length_loop_shift (suc fuel) v bits =
    ground
      (arith, bit_length_loop_shift fuel (v / 2) (bits + 1), bit_length_loop_shift fuel (v / 2) 1)

bit_length_loop-suc :
    (fuel v : ℕ) → 0 < v → bit_length_loop (suc fuel) v 0 ≡ suc (bit_length_loop fuel (v / 2) 0)
unfolding bit_length_loop
bit_length_loop-suc fuel v h = ground (arith, bit_length_loop_shift fuel (v / 2) 1)

bit_length_loop-zero : (fuel : ℕ) → bit_length_loop fuel 0 0 ≡ 0
unfolding bit_length_loop
bit_length_loop-zero zero = refl
bit_length_loop-zero (suc fuel) = refl

bit_length_loop_lem : (fuel v : ℕ) → v < 2 ^ fuel → IsBitLength v (bit_length_loop fuel v 0)
bit_length_loop_lem fuel zero h = rw (bit_length_loop-zero fuel) (omega arith)
bit_length_loop_lem zero (suc v) h = absurd (omega arith)
bit_length_loop_lem (suc fuel) (suc v) h =
    let n = bit_length_loop fuel (suc v / 2) 0 in
    let ih : IsBitLength (suc v / 2) n =
      bit_length_loop_lem fuel (suc v / 2) (omega (arith, two-pow-suc fuel)) in
    rw (bit_length_loop-suc fuel (suc v) (omega arith), two-pow-suc n)
      (omega (arith, ih.0), λ p. ground (arith, ih), λ e. absurd (omega arith))

pub bit_length_u32_lem : (v : ℕ) → v < 2 ^ 32 → IsBitLength v (bit_length_u32 v)
unfolding bit_length_u32
bit_length_u32_lem v h = bit_length_loop_lem 32 v h

bit_length_limbs-cons :
    (l h : ℕ) (t : List ℕ) → bit_length_limbs (l ∷ h ∷ t) ≡ limb_bits + bit_length_limbs (h ∷ t)
unfolding bit_length_limbs
bit_length_limbs-cons l h t = omega arith

-- For a magnitude, `bit_length_limbs` is its number of binary digits, 0 for the number 0.
pub bit_length_limbs_lem :
    (ls : List ℕ) → IsMagnitude ls → IsBitLength (value ls) (bit_length_limbs ls)
bit_length_limbs_lem [] m = unfold bit_length_limbs in omega arith
bit_length_limbs_lem (l ∷ []) m =
    unfold bit_length_limbs in
    rw (zero-add, add-zero) (bit_length_u32_lem l (omega (arith, m.limbs.0)))
bit_length_limbs_lem (l ∷ h ∷ t) m =
    let n = bit_length_limbs (h ∷ t) in
    let ih : IsBitLength (value (h ∷ t)) n = bit_length_limbs_lem (h ∷ t) (IsMagnitude-tail m) in
    let pos : 0 < value (h ∷ t) = value-pos h t m.normal in
    rw (bit_length_limbs-cons l h t, two-pow-add 16 n)
      (omega (arith, ih, m.limbs.0), λ p. omega (arith, ih, pos), λ e. absurd (omega (arith, pos)))

-- A length within `k` digits is a value below `2 ^ k`.
pub IsBitLength-le : (v n k : ℕ) → IsBitLength v n → (n ≤ k) ↔ (v < 2 ^ k)
IsBitLength-le v n k h = (
  λ p. omega (arith, h.0, pow-le-pow_right {n = 2} (omega arith) p),
  λ p. elim (dec_le n k) [
    | yes q ↦ q
    | no q ↦
        let larger : 2 ^ suc k ≤ 2 ^ n = pow-le-pow_right {n = 2} (omega arith) (omega arith) in
        absurd (ground (arith, h, larger, two-pow-suc k))
  ],
)

pub bit_length_limbs-le :
    (ls : List ℕ) (k : ℕ) → IsMagnitude ls → (bit_length_limbs ls ≤ k) ↔ (value ls < 2 ^ k)
bit_length_limbs-le ls k m = IsBitLength-le _ _ k (bit_length_limbs_lem ls m)
