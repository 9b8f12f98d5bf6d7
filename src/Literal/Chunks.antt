-- ===== src/Literal/Chunks.antt =====
-- Division by a small number, and the chunks of nine decimal digits.
use vexel_lang.Limbs.Normal.{value-pos}
use native.Mathlib.Nat.{pow-suc}
use vexel_lang.Base.{
  ℕ, zero, suc, ◌+◌, ◌*◌, ◌^◌, ◌<◌, List, [], ◌∷◌, ◌≡◌, refl, ap, ◌∙◌, arith, length, bit_or,
}
use vexel_lang.Base.Bits.{or_fields}
use vexel_lang.Limbs.{limb_base, u32, u64, div_small_loop, div_small_inplace}
use vexel_lang.Limbs.Value.{value, IsLimbs, IsMagnitude}
use vexel_lang.Limbs.Normal.{value-normalize_limbs, normalize_limbs-IsMagnitude}
use vexel_lang.Literal.{decimal_chunks}

abbrev pub giga : ℕ
giga = 1000000000

pub record IsDivided (ls : List ℕ) (quotient : List ℕ) (remainder : ℕ) : Type 0 where
  pub limbs : IsLimbs quotient
  pub divided : value quotient * giga + remainder ≡ value ls
  pub below : remainder < giga

div_small_loop_lem :
    (ls : List ℕ)
    → IsLimbs ls
    → IsDivided ls (div_small_loop ls giga).quotient (div_small_loop ls giga).remainder
unfolding div_small_loop
div_small_loop_lem [] h = record { limbs = tt; divided = refl; below = omega arith }
div_small_loop_lem (l ∷ ls) h =
    let ih = div_small_loop_lem ls h.1 in
    let r = (div_small_loop ls giga).remainder in
    let word : bit_or (u64 (r * 2 ^ 16)) l ≡ r * 2 ^ 16 + l =
      ap (λ (t : ℕ). bit_or t l) (omega (arith, ih.below)) ∙ or_fields 16 r l h.0 in
    record {
      limbs = (omega (arith, word, ih.below, h.0), ih.limbs);
      divided = omega (arith, word, ih.below, h.0, ih.divided);
      below = omega arith;
    }

pub div_small_inplace_lem :
    (ls : List ℕ)
    → IsLimbs ls
    → (value (div_small_inplace ls giga).quotient * giga + (div_small_inplace ls giga).remainder
        ≡ value ls)
      × ((div_small_inplace ls giga).remainder < giga)
      × IsMagnitude (div_small_inplace ls giga).quotient
unfolding div_small_inplace
div_small_inplace_lem ls h =
    let d = div_small_loop_lem ls h in
    let r = (div_small_loop ls giga).remainder in
    let kept : u32 r ≡ r = omega (arith, d.below) in
    (
      rw (kept, value-normalize_limbs (div_small_loop ls giga).quotient) d.divided,
      omega (arith, d.below, kept),
      normalize_limbs-IsMagnitude _ d.limbs,
    )

-- The number that chunks of nine digits stand for, the lowest first.
abbrev pub chunk_value : List ℕ → ℕ
chunk_value [] = 0
chunk_value (c ∷ cs) = c + giga * chunk_value cs

abbrev pub AreChunks : List ℕ → Type 0
AreChunks [] = Unit
AreChunks (c ∷ cs) = (c < giga) × AreChunks cs

-- Fuel that bounds the value in limbs is enough.
pub decimal_chunks_lem :
    (fuel : ℕ) (ls : List ℕ)
    → IsMagnitude ls
    → value ls < limb_base ^ fuel
    → (chunk_value (decimal_chunks fuel ls) ≡ value ls) × AreChunks (decimal_chunks fuel ls)
unfolding decimal_chunks
decimal_chunks_lem zero [] m h = (refl, tt)
decimal_chunks_lem (suc fuel) [] m h = (refl, tt)
decimal_chunks_lem zero (l ∷ ls) m h = absurd (omega (arith, value-pos l ls m.normal))
decimal_chunks_lem (suc fuel) (l ∷ ls) m h =
    let d = div_small_inplace_lem (l ∷ ls) m.limbs in
    let ih =
      decimal_chunks_lem fuel (div_small_inplace (l ∷ ls) giga).quotient d.2
        (omega (arith, d.0, pow-suc limb_base fuel)) in
    (omega (arith, ih.0, d.0), (d.1, ih.1))

pub value-lt-pow : (ls : List ℕ) → IsLimbs ls → value ls < limb_base ^ length ls
value-lt-pow [] h = omega arith
value-lt-pow (l ∷ ls) h = omega (arith, h.0, value-lt-pow ls h.1, pow-suc limb_base (length ls))
