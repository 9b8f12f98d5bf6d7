-- ===== src/ApInt/Wrap.antt =====
-- `wrapped_unsigned` against the remainder by a power of two, and where they differ.
mod Remainder
pub mod Signed
pub use Remainder.{mod_ℤ, wrap_signed}
use Remainder.{mod-product, negated_mod}
use native.Mathlib.Nat.{mod-lt, mul_comm, mod-eq_of_lt}
use vexel_lang.Base.{
  ℕ, zero, suc, ◌+◌, ◌-◌, ◌*◌, ◌/◌, ◌%◌, ◌^◌, ◌<◌, ◌≤◌, Bool, true, false, not, List, [], ◌∷◌, ◌≡◌,
  refl, sym, ap, ap₂, ◌∙◌, arith, if◌then◌else◌, ◌==◌, ==_iff, Bool-cases, inl, inr, ltb, leb, ◌↔◌,
  length,
}
use vexel_lang.Base.Int.{ℤ, pos, negsuc, pos_part, neg_part, sub_ℕ}
use vexel_lang.Base.Power.{two-pow-add, two-pow-pos, two-pow-suc}
use vexel_lang.Limbs.{normalize_limbs}
use vexel_lang.Limbs.Value.{value, IsLimbs, IsMagnitude}
use vexel_lang.TwosComplement.{
  mask_top_bits_preserve_size, twos_complement_negate_inplace, fit_words, word_count,
}
use vexel_lang.TwosComplement.Mask.{
  value-fit_words, fit_words-IsLimbs, length-fit_words, value-mask_top_bits_preserve_size,
  mask_top_bits_preserve_size-IsLimbs,
}
use vexel_lang.TwosComplement.Negate.{
  value-twos_complement_negate_inplace, twos_complement_negate_inplace-IsLimbs,
}
use vexel_lang.ApInt.{ApInt, from_u64, from_parts, to_twos_complement_words, wrapped_unsigned}
use vexel_lang.ApInt.Meaning.{
  signed, to_ℤ, IsApInt, to_ℤ-from_u64, to_ℤ-from_parts, from_parts-IsApInt, from_u64-IsApInt,
}

-- The magnitude of a negative value does not vanish in the words of the width.
abbrev pub IsWrappable : ℕ → ℤ → Type 0
IsWrappable w z = 0 < neg_part z → 0 < neg_part z % 2 ^ (16 * word_count w)

-- The words of a width hold it, with some bits to spare.
pub words_split :
    (w : ℕ) → w + 15 < 2 ^ 64 → 2 ^ (16 * word_count w) ≡ 2 ^ w * 2 ^ (16 * word_count w - w)
words_split w narrow =
    let e : 16 * word_count w ≡ w + (16 * word_count w - w) = omega arith in
    ap (λ (n : ℕ). 2 ^ n) e ∙ two-pow-add w (16 * word_count w - w)

nonzero : (w : ℕ) → 0 < w → (w == 0) ≡ false
nonzero w h = ground arith

module _ (w : ℕ) (positive : 0 < w) (narrow : w + 15 < 2 ^ 64) where
  fitted :
      (ls : List ℕ) → IsLimbs ls → value (fit_words (word_count w) ls) % 2 ^ w ≡ value ls % 2 ^ w
  fitted ls h =
      ap (λ (t : ℕ). t % 2 ^ w) (value-fit_words (word_count w) ls h)
      ∙ (ap (λ (t : ℕ). value ls % t % 2 ^ w) (words_split w narrow)
          ∙ mod-product (value ls) (2 ^ w) (2 ^ (16 * word_count w - w)))

  -- The value of the words, by the sign.
  abbrev pub Wraps : ApInt → Type 0
  Wraps a =
      (value (to_twos_complement_words a w) ≡ mod_ℤ (to_ℤ a) (2 ^ w))
      × IsLimbs (to_twos_complement_words a w)

  positive_words : (ls : List ℕ) → IsLimbs ls → Wraps (record { negative = false; limbs = ls })
  unfolding to_twos_complement_words
  positive_words ls h =
      let words = fit_words (word_count w) ls in
      let hw = fit_words-IsLimbs (word_count w) ls in
      rw (nonzero w positive) (
        value-mask_top_bits_preserve_size words w narrow hw (length-fit_words (word_count w) ls)
            ∙ fitted ls h,
        mask_top_bits_preserve_size-IsLimbs words w hw,
      )

  -- A negative value, whose magnitude is one more than `n`.
  negative_words :
      (n : ℕ) (ls : List ℕ)
      → IsLimbs ls
      → value ls ≡ suc n
      → 0 < suc n % 2 ^ (16 * word_count w)
      → (value (twos_complement_negate_inplace (fit_words (word_count w) ls) w)
          ≡ mod_ℤ (negsuc n) (2 ^ w))
        × IsLimbs (twos_complement_negate_inplace (fit_words (word_count w) ls) w)
  negative_words n ls h v left =
      let words = fit_words (word_count w) ls in
      let hw = fit_words-IsLimbs (word_count w) ls in
      let size = length-fit_words (word_count w) ls in
      let kept : value words ≡ suc n % 2 ^ (16 * word_count w) =
        value-fit_words (word_count w) ls h ∙ ap (λ (t : ℕ). t % 2 ^ (16 * word_count w)) v in
      let pos_words : 0 < value words = rw kept left in
      let split = words_split w narrow in
      (
        value-twos_complement_negate_inplace words w hw size narrow pos_words
            ∙ (ap (λ (t : ℕ). (2 ^ (16 * word_count w) - t) % 2 ^ w) kept
                ∙ (ap (λ (t : ℕ). (t - suc n % t) % 2 ^ w) split
                    ∙ negated_mod n (2 ^ w) (2 ^ (16 * word_count w - w)) (two-pow-pos w)
                        (rw (← split) (two-pow-pos (16 * word_count w))) (rw (← split) left))),
        twos_complement_negate_inplace-IsLimbs words w hw size pos_words,
      )

  words_lem :
      (s : Bool) (m : ℕ) (ls : List ℕ)
      → IsLimbs ls
      → value ls ≡ m
      → (s ≡ true → 0 < m)
      → IsWrappable w (signed s m)
      → Wraps (record { negative = s; limbs = ls })
  unfolding to_twos_complement_words
  words_lem false m ls h v hs wraps = positive_words ls h
  words_lem true zero ls h v hs wraps = absurd (omega (arith, hs refl))
  words_lem true (suc n) ls h v hs wraps =
      let part : neg_part (signed true (suc n)) ≡ suc n = ground arith in
      let left : 0 < suc n → 0 < suc n % 2 ^ (16 * word_count w) = rw part at wraps in
      let out = negative_words n ls h v (left (omega arith)) in
      rw (nonzero w positive, v) (out.0 ∙ ground arith, out.1)

  pub to_twos_complement_words_lem : (a : ApInt) → IsApInt a → IsWrappable w (to_ℤ a) → Wraps a
  to_twos_complement_words_lem a h wraps =
      words_lem a.negative (value a.limbs) a.limbs h.magnitude.limbs refl h.sign wraps

  -- For a width above 0 and below 2 ^ 64 - 15, and a value of the class that is not negative, or whose magnitude is not a multiple of
  -- 2 ^ (16 * word_count w), `wrapped_unsigned` is the remainder by 2 ^ w from 0 on, a value of the class.
  pub wrapped_unsigned_lem :
      (a : ApInt)
      → IsApInt a
      → IsWrappable w (to_ℤ a)
      → (to_ℤ (wrapped_unsigned a w) ≡ pos (mod_ℤ (to_ℤ a) (2 ^ w)))
        × IsApInt (wrapped_unsigned a w)
  unfolding wrapped_unsigned
  wrapped_unsigned_lem a h wraps =
      let out = to_twos_complement_words_lem a h wraps in
      rw (nonzero w positive) (
        to_ℤ-from_parts false (to_twos_complement_words a w) ∙ ap pos out.0,
        from_parts-IsApInt false _ out.1,
      )
