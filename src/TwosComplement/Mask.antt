-- ===== src/TwosComplement/Mask.antt =====
-- `mask_top_bits_preserve_size` and `fit_words`, on the number that words stand for.
use native.Mathlib.Nat.{zero-mod, mod-eq_of_lt, mod-one}
use vexel_lang.Base.{
  ℕ, zero, suc, ◌+◌, ◌*◌, ◌%◌, ◌^◌, ◌<◌, sym, List, [], ◌∷◌, ◌≡◌, refl, ap, ◌∙◌, arith, ◌==◌,
  ==_iff, Bool-cases, inl, inr, length,
}
use vexel_lang.Base.Power.{two-pow-add}
use vexel_lang.Limbs.Value.{value, IsLimbs}
use vexel_lang.LimbShift.Low.{long_remainder}
use vexel_lang.TwosComplement.{mask_back, mask_top_bits_preserve_size, fit_words, word_count}

pub value-mask_back :
    (l : ℕ) (ls : List ℕ) (extra : ℕ)
    → IsLimbs (l ∷ ls)
    → value (mask_back (l ∷ ls) extra) ≡ value (l ∷ ls) % 2 ^ (16 * length ls + extra)
unfolding mask_back
value-mask_back l [] extra h =
    let e : 16 * 0 + extra ≡ extra = omega arith in
    let v : value (l ∷ []) ≡ l = omega arith in rw (e, v) (omega arith)
value-mask_back l (x ∷ t) extra h =
    let e : 16 * length (x ∷ t) + extra ≡ 16 + (16 * length t + extra) = omega arith in
    rw (e, long_remainder l (value (x ∷ t)) (16 * length t + extra) h.0)
      (omega (arith, value-mask_back x t extra h.1))

pub mask_back-IsLimbs : (ls : List ℕ) (extra : ℕ) → IsLimbs ls → IsLimbs (mask_back ls extra)
unfolding mask_back
mask_back-IsLimbs [] extra h = tt
mask_back-IsLimbs (l ∷ []) extra h = (omega (arith, h.0), tt)
mask_back-IsLimbs (l ∷ x ∷ t) extra h = (h.0, mask_back-IsLimbs (x ∷ t) extra h.1)

-- A vector of `n` limbs stands for less than `2 ^ (16 * n)`.
pub value-lt : (ls : List ℕ) → IsLimbs ls → value ls < 2 ^ (16 * length ls)
value-lt [] h = omega arith
value-lt (l ∷ ls) h =
    let e : 16 * length (l ∷ ls) ≡ 16 + 16 * length ls = omega arith in
    rw (e, two-pow-add 16 (16 * length ls)) (omega (arith, h.0, value-lt ls h.1))

pub mask_top_bits_preserve_size-IsLimbs :
    (words : List ℕ) (w : ℕ) → IsLimbs words → IsLimbs (mask_top_bits_preserve_size words w)
unfolding mask_top_bits_preserve_size
mask_top_bits_preserve_size-IsLimbs words w h = elim (Bool-cases (w == 0)) [
  | inl e ↦ rw e tt
  | inr e ↦ rw e (elim (Bool-cases (w % 16 == 0)) [
    | inl z ↦ rw z h
    | inr z ↦ rw z (mask_back-IsLimbs words (w % 16) h)
  ])
]

partial_word :
    (words : List ℕ) (w : ℕ)
    → w + 15 < 2 ^ 64
    → IsLimbs words
    → 0 < w % 16
    → length words ≡ word_count w
    → value (mask_back words (w % 16)) ≡ value words % 2 ^ w
partial_word [] w narrow h pos e = absurd (omega arith)
partial_word (l ∷ ls) w narrow h pos e =
    value-mask_back l ls (w % 16) h ∙ ap (λ (n : ℕ). value (l ∷ ls) % 2 ^ n) (omega arith)

-- On as many words as the width takes, the mask is the remainder.
pub value-mask_top_bits_preserve_size :
    (words : List ℕ) (w : ℕ)
    → w + 15 < 2 ^ 64
    → IsLimbs words
    → length words ≡ word_count w
    → value (mask_top_bits_preserve_size words w) ≡ value words % 2 ^ w
unfolding mask_top_bits_preserve_size
value-mask_top_bits_preserve_size words w narrow h n = elim (Bool-cases (w == 0)) [
  | inl e ↦ rw (e, (==_iff w 0).0 e) (sym (mod-one (value words)))
  | inr e ↦ rw e (elim (Bool-cases (w % 16 == 0)) [
    | inl z ↦
        let width : 16 * length words ≡ w = ground (arith, (==_iff (w % 16) 0).0 z) in
        rw z (sym (mod-eq_of_lt (rw width at (value-lt words h))))
    | inr z ↦ rw z (partial_word words w narrow h (ground (arith, z)) n)
  ])
]

pub value-fit_words :
    (count : ℕ) (ls : List ℕ)
    → IsLimbs ls
    → value (fit_words count ls) ≡ value ls % 2 ^ (16 * count)
unfolding fit_words
value-fit_words zero ls h = sym (mod-one (value ls))
value-fit_words (suc count) [] h =
    rw (zero-mod (2 ^ (16 * suc count)))
      (omega (arith, value-fit_words count [] tt, zero-mod (2 ^ (16 * count))))
value-fit_words (suc count) (l ∷ ls) h =
    let e : 16 * suc count ≡ 16 + 16 * count = omega arith in
    rw (e, long_remainder l (value ls) (16 * count) h.0)
      (omega (arith, h.0, value-fit_words count ls h.1))

pub fit_words-IsLimbs : (count : ℕ) (ls : List ℕ) → IsLimbs (fit_words count ls)
unfolding fit_words
fit_words-IsLimbs zero ls = tt
fit_words-IsLimbs (suc count) [] = (omega arith, fit_words-IsLimbs count [])
fit_words-IsLimbs (suc count) (l ∷ ls) = (omega arith, fit_words-IsLimbs count ls)

pub length-fit_words : (count : ℕ) (ls : List ℕ) → length (fit_words count ls) ≡ count
unfolding fit_words
length-fit_words zero ls = refl
length-fit_words (suc count) [] = ap suc (length-fit_words count [])
length-fit_words (suc count) (l ∷ ls) = ap suc (length-fit_words count ls)
