-- ===== src/Division/Quotient.antt =====
-- `divmod_abs_limbs` as a division with remainder.
use Prim.Native.Nat.{Ordering}
use native.Mathlib.Nat.{div-eq_of_lt, div-one}
use vexel_lang.Base.{ℕ, ◌+◌, ◌*◌, ◌<◌, sym, List, [], ◌∷◌, ◌≡◌, refl, ◌∙◌, arith}
use vexel_lang.Error.{ok}
use vexel_lang.Limbs.{compare_abs_limbs, normalize_limbs, bit_length_limbs}
use vexel_lang.Limbs.Value.{value, IsMagnitude}
use vexel_lang.Limbs.Normal.{value-normalize_limbs, normalize_limbs-IsMagnitude, value-pos}
use vexel_lang.Limbs.Order.{compare_abs_limbs_lem}
use vexel_lang.Limbs.Length.{bit_length_limbs_lem}
use vexel_lang.Division.{DivMod, divmod_loop, divmod_abs_limbs}
use vexel_lang.Division.Loop.{IsDivided, divmod_loop-IsDivided}

-- What division with remainder promises.
pub record IsDivMod (dividend divisor : List ℕ) (out : DivMod) : Type 0 where
  pub quotient_magnitude : IsMagnitude out.quotient
  pub remainder_magnitude : IsMagnitude out.remainder
  pub divided : value out.quotient * value divisor + value out.remainder ≡ value dividend
  pub below : value out.remainder < value divisor

finished :
    (dividend divisor : List ℕ) (s : DivMod)
    → IsDivided dividend divisor 0 s
    → IsDivMod dividend divisor
        (record { quotient = normalize_limbs s.quotient; remainder = normalize_limbs s.remainder })
finished dividend divisor s d = record {
  quotient_magnitude = normalize_limbs-IsMagnitude s.quotient d.quotient_limbs;
  remainder_magnitude = normalize_limbs-IsMagnitude s.remainder d.remainder_magnitude.limbs;
  divided =
      let q : value s.quotient ≡ d.high = omega (arith, d.quotient_high) in
      rw (value-normalize_limbs s.quotient, value-normalize_limbs s.remainder, q)
        (d.divided ∙ div-one (value dividend));
  below = rw (value-normalize_limbs s.remainder) d.below;
}

start-IsDivided :
    (dividend divisor : List ℕ)
    → IsMagnitude dividend
    → 0 < value divisor
    → IsDivided dividend divisor
        (bit_length_limbs dividend)
        (record { quotient = []; remainder = [] })
start-IsDivided dividend divisor md pos = record {
  high = 0;
  quotient_limbs = tt;
  remainder_magnitude = record { limbs = tt; normal = tt };
  quotient_high = omega arith;
  divided = omega (arith, div-eq_of_lt (bit_length_limbs_lem dividend md).0);
  below = pos;
}

-- A divisor that is not empty gives a quotient and a remainder.
pub divmod_abs_limbs_lem :
    (dividend : List ℕ) (d : ℕ) (ds : List ℕ)
    → IsMagnitude dividend
    → IsMagnitude (d ∷ ds)
    → (out : DivMod) × (divmod_abs_limbs dividend (d ∷ ds) ≡ ok out)
      × IsDivMod dividend (d ∷ ds) out
unfolding divmod_abs_limbs
divmod_abs_limbs_lem dividend d ds md mv = go (compare_abs_limbs dividend (d ∷ ds)) refl
  where
    looped : DivMod
    looped =
        divmod_loop dividend (d ∷ ds) (bit_length_limbs dividend)
          (record { quotient = []; remainder = [] })

    divided : IsDivMod dividend (d ∷ ds) (record {
      quotient = normalize_limbs looped.quotient;
      remainder = normalize_limbs looped.remainder;
    })
    divided = finished dividend (d ∷ ds) looped (
        divmod_loop-IsDivided dividend (d ∷ ds) md.limbs mv (bit_length_limbs dividend) _
          (start-IsDivided dividend (d ∷ ds) md (value-pos d ds mv.normal)))

    go :
        (c : Ordering)
        → compare_abs_limbs dividend (d ∷ ds) ≡ c
        → (out : DivMod) × (divmod_abs_limbs dividend (d ∷ ds) ≡ ok out)
          × IsDivMod dividend (d ∷ ds) out
    go Ordering.lt e =
        let c = sym (compare_abs_limbs_lem dividend (d ∷ ds) md mv) ∙ e in
        (
          record { quotient = []; remainder = dividend },
          rw (divmod_abs_limbs, e),
          record {
            quotient_magnitude = record { limbs = tt; normal = tt };
            remainder_magnitude = md;
            divided = omega arith;
            below = ground (arith, c);
          },
        )
    go _ e = (
      record {
        quotient = normalize_limbs looped.quotient;
        remainder = normalize_limbs looped.remainder;
      },
      rw (divmod_abs_limbs, e),
      divided,
    )

-- For magnitudes with a divisor that does not stand for 0, the long division returns, with the quotient and the
-- remainder of the numbers, both magnitudes.
pub divmod_abs_limbs_pos :
    (dividend divisor : List ℕ)
    → IsMagnitude dividend
    → IsMagnitude divisor
    → 0 < value divisor
    → (out : DivMod) × (divmod_abs_limbs dividend divisor ≡ ok out) × IsDivMod dividend divisor out
divmod_abs_limbs_pos dividend [] md mv h = absurd (omega arith)
divmod_abs_limbs_pos dividend (d ∷ ds) md mv h = divmod_abs_limbs_lem dividend d ds md mv
