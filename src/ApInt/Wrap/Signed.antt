-- ===== src/ApInt/Wrap/Signed.antt =====
-- `wrapped_signed` against the remainder by a power of two, moved to the range of a signed width.
use native.Mathlib.Nat.{
  mod-eq_of_lt, div-eq_of_lt, div-eq_of_lt-le, mod-lt, add-mul-mod_self_left, pow-le-pow_right,
}
use vexel_lang.Base.{
  Bool, Bool-cases, List, ap, arith, false, if◌then◌else◌, inl, inr, length, ltb, ltb→lt, lt→ltb,
  refl, suc, sym, true, zero, ℕ, ◌%◌, ◌*◌, ◌+◌, ◌-◌, ◌/◌, ◌<◌, ◌==◌, ◌^◌, ◌∙◌, ◌≡◌, ◌≤◌,
}
use vexel_lang.Base.Int.{neg_part, negsuc, pos, sub_ℕ, ℤ}
use vexel_lang.Base.Power.{two-pow-pos, two-pow-suc}
use vexel_lang.Limbs.Value.{IsLimbs, IsMagnitude, value}
use vexel_lang.Limbs.Normal.{normalize_limbs-IsMagnitude, value-normalize_limbs}
use vexel_lang.LimbBits.{test_bit_limbs}
use vexel_lang.LimbBits.Bit.{test_bit_limbs_lem, to_digit}
use vexel_lang.TwosComplement.{
  fit_words, mask_top_bits, mask_top_bits_preserve_size, twos_complement_negate_inplace, word_count,
}
use vexel_lang.TwosComplement.Mask.{
  fit_words-IsLimbs, length-fit_words, mask_top_bits_preserve_size-IsLimbs, value-fit_words,
  value-mask_top_bits_preserve_size,
}
use vexel_lang.TwosComplement.Size.{
  length-from-value, length-mask_top_bits_preserve_size, length-normalize_limbs-le,
}
use vexel_lang.TwosComplement.Negate.{
  length-twos_complement_negate_inplace, twos_complement_negate_inplace-IsLimbs,
  value-twos_complement_negate_inplace,
}
use vexel_lang.ApInt.{
  ApInt, from_parts, from_twos_complement_words, from_u64, is_empty, lt, to_twos_complement_words,
  wrapped_signed,
}
use vexel_lang.ApInt.Meaning.{
  IsApInt, from_parts-IsApInt, from_u64-IsApInt, is_empty_lem, signed, to_ℤ, to_ℤ-from_parts,
  to_ℤ-from_u64,
}
use vexel_lang.ApInt.Wrap.{
  IsWrappable, mod_ℤ, to_twos_complement_words_lem, words_split, wrap_signed,
}

to_twos_complement_words_size :
    (w : ℕ) (s : Bool) (m : ℕ) (ls : List ℕ)
    → 0 < w
    → IsLimbs ls
    → value ls ≡ m
    → (s ≡ true → 0 < m)
    → IsWrappable w (signed s m)
    → length (to_twos_complement_words (record { negative = s; limbs = ls }) w) ≡ word_count w
unfolding to_twos_complement_words
to_twos_complement_words_size w false m ls positive h v hs wraps =
    let nonzero : (w == 0) ≡ false = ground (arith, positive) in
    rw nonzero (
      length-mask_top_bits_preserve_size (fit_words (word_count w) ls) w positive
      ∙ length-fit_words (word_count w) ls)
to_twos_complement_words_size w true m ls positive h v hs wraps =
    let nonzero : (w == 0) ≡ false = ground (arith, positive) in
    let part : neg_part (signed true m) ≡ m = ground arith in
    let left : 0 < m → 0 < m % 2 ^ (16 * word_count w) = rw part at wraps in
    let kept : value (fit_words (word_count w) ls) ≡ m % 2 ^ (16 * word_count w) =
      value-fit_words (word_count w) ls h ∙ ap (λ (t : ℕ). t % 2 ^ (16 * word_count w)) v in
    rw nonzero (
      length-twos_complement_negate_inplace (fit_words (word_count w) ls) w
        (fit_words-IsLimbs (word_count w) ls) (length-fit_words (word_count w) ls) positive
        (rw kept (left (hs refl))))

-- The top bit of a number of the width.
top_bit :
    (r w : ℕ) → 0 < w → r < 2 ^ w → r / 2 ^ (w - 1) % 2 ≡ (if ltb r (2 ^ (w - 1)) then 0 else 1)
top_bit r zero h lt = absurd (omega arith)
top_bit r (suc k) h lt =
    let e : suc k - 1 ≡ k = omega arith in
    rw e (elim (Bool-cases (ltb r (2 ^ k))) [
      | inl b ↦ rw (b, div-eq_of_lt (ltb→lt r (2 ^ k) b)) refl
      | inr b ↦
          let q : r / 2 ^ k ≡ 1 =
            div-eq_of_lt-le {k = 1} (2 ^ k) (ground (arith, b))
              (omega (arith, lt, two-pow-suc k)) in
          rw (b, q) refl
    ])

-- What is missing to all the words, at the width.
missing :
    (w r : ℕ)
    → w + 15 < 2 ^ 64
    → 0 < r
    → r < 2 ^ w
    → (2 ^ (16 * word_count w) - r) % 2 ^ w ≡ 2 ^ w - r
missing w r narrow pos_r lt =
    let d = 16 * word_count w - w in
    let p = two-pow-pos d in
    let room : 2 ^ w * 2 ^ d ≡ 2 ^ w + 2 ^ w * (2 ^ d - 1) =
      ap (λ (t : ℕ). 2 ^ w * t) (one_more (2 ^ d) p) ∙ omega arith in
    let whole : 2 ^ (16 * word_count w) - r ≡ 2 ^ w - r + 2 ^ w * (2 ^ d - 1) =
      ap (λ (t : ℕ). t - r) (words_split w narrow) ∙ omega (arith, room, lt) in
    ap (λ (t : ℕ). t % 2 ^ w) whole
    ∙ (add-mul-mod_self_left (2 ^ w - r) (2 ^ w) (2 ^ d - 1)
        ∙ mod-eq_of_lt (omega (arith, lt, pos_r)))
  where
    one_more : (n : ℕ) → 0 < n → n ≡ 1 + (n - 1)
    one_more n h = omega (arith, h)

module _ (words : List ℕ) (w : ℕ) (positive : 0 < w) (narrow : w + 15 < 2 ^ 64) (h : IsLimbs words)
    (size : length words ≡ word_count w) (lt : value words < 2 ^ w) where
  masked : List ℕ
  masked = mask_top_bits words w

  value-masked : value masked ≡ value words
  unfolding masked mask_top_bits
  value-masked =
      value-normalize_limbs (mask_top_bits_preserve_size words w)
      ∙ (value-mask_top_bits_preserve_size words w narrow h size ∙ mod-eq_of_lt lt)

  masked-IsMagnitude : IsMagnitude masked
  unfolding masked mask_top_bits
  masked-IsMagnitude =
      normalize_limbs-IsMagnitude (mask_top_bits_preserve_size words w)
        (mask_top_bits_preserve_size-IsLimbs words w h)

  length-masked : 2 ^ (w - 1) ≤ value words → length masked ≡ word_count w
  length-masked top =
      let below : 2 ^ (16 * (word_count w - 1)) ≤ 2 ^ (w - 1) =
        pow-le-pow_right {n = 2} (omega arith) (omega (arith, positive)) in
      let above =
        length-from-value masked (word_count w - 1) masked-IsMagnitude.limbs
          (omega (arith, below, top, value-masked)) in
      omega (arith, above, at_most, positive)
    where
      at_most : length masked ≤ word_count w
      at_most =
          unfold masked mask_top_bits in
          omega (
            arith,
            length-normalize_limbs-le (mask_top_bits_preserve_size words w),
            length-mask_top_bits_preserve_size words w positive,
            size,
          )

  abbrev StandsFor : ApInt → Type 0
  StandsFor a =
      (to_ℤ a ≡ (
        if ltb (value words) (2 ^ (w - 1)) then pos (value words) else sub_ℕ (value words) (2 ^ w)))
      × IsApInt a

  low_half :
      value words < 2 ^ (w - 1) → (a : ApInt) → to_ℤ a ≡ pos (value words) → IsApInt a → StandsFor a
  low_half low a e valid = rw (lt→ltb (value words) (2 ^ (w - 1)) low) (e, valid)

  high_half :
      2 ^ (w - 1) ≤ value words
      → StandsFor (from_parts true (twos_complement_negate_inplace masked w))
  high_half top =
      let n = length-masked top in
      let some_left : 0 < value words = omega (arith, top, two-pow-pos (w - 1)) in
      let pos_m : 0 < value masked = rw value-masked some_left in
      let limbs = masked-IsMagnitude.limbs in
      let v : value (twos_complement_negate_inplace masked w) ≡ 2 ^ w - value words =
        value-twos_complement_negate_inplace masked w limbs n narrow pos_m
        ∙ (ap (λ (t : ℕ). (2 ^ (16 * word_count w) - t) % 2 ^ w) value-masked
            ∙ missing w (value words) narrow some_left lt) in
      let above : ltb (value words) (2 ^ (w - 1)) ≡ false = ground (arith, top) in
      rw above (
        to_ℤ-from_parts true (twos_complement_negate_inplace masked w)
            ∙ (ap (λ (t : ℕ). sub_ℕ 0 t) v ∙ turned (value words) (2 ^ w) lt),
        from_parts-IsApInt true _ (twos_complement_negate_inplace-IsLimbs masked w limbs n pos_m),
      )
    where
      turned : (r p : ℕ) → r < p → sub_ℕ 0 (p - r) ≡ sub_ℕ r p
      turned r p h = ground (arith, h)

  from_twos_complement_words_lem : StandsFor (from_twos_complement_words words w)
  unfolding from_twos_complement_words masked
  from_twos_complement_words_lem =
      let nonzero : (w == 0) ≡ false = ground (arith, positive) in
      rw nonzero (by_empty (is_empty masked) refl)
    where
      bit :
          to_digit (test_bit_limbs masked (w - 1))
          ≡ (if ltb (value words) (2 ^ (w - 1)) then 0 else 1)
      bit =
          test_bit_limbs_lem masked (w - 1) masked-IsMagnitude.limbs
          ∙ (ap (λ (t : ℕ). t / 2 ^ (w - 1) % 2) value-masked ∙ top_bit (value words) w positive lt)

      by_bit :
          (b : Bool)
          → test_bit_limbs masked (w - 1) ≡ b
          → StandsFor (
              if b
              then from_parts true (twos_complement_negate_inplace masked w)
              else from_parts false masked)
      by_bit true e = high_half (ground (arith, bit, e))
      by_bit false e =
          low_half (ground (arith, bit, e)) (from_parts false masked)
            (to_ℤ-from_parts false masked ∙ ap pos value-masked)
            (from_parts-IsApInt false masked masked-IsMagnitude.limbs)

      by_empty :
          (b : Bool)
          → is_empty masked ≡ b
          → StandsFor (
              if b
              then from_u64 0
              else if test_bit_limbs masked (w - 1)
              then from_parts true (twos_complement_negate_inplace masked w)
              else from_parts false masked)
      by_empty true e =
          let z : value words ≡ 0 =
            sym value-masked ∙ ground (arith, is_empty_lem masked masked-IsMagnitude, e) in
          low_half (rw z (two-pow-pos (w - 1))) (from_u64 0)
            (to_ℤ-from_u64 0 (omega arith) ∙ ap pos (sym z)) (from_u64-IsApInt 0 (omega arith))
      by_empty false e = by_bit (test_bit_limbs masked (w - 1)) refl

-- For a width above 0 and below 2 ^ 64 - 15, and a value of the class that is not negative, or whose magnitude is not a multiple of
-- 2 ^ (16 * word_count w), `wrapped_signed` is the integer from -2 ^ (w - 1) to 2 ^ (w - 1) - 1 with the same remainder by
-- 2 ^ w, a value of the class.
pub wrapped_signed_lem :
    (w : ℕ) (a : ApInt)
    → 0 < w
    → w + 15 < 2 ^ 64
    → IsApInt a
    → IsWrappable w (to_ℤ a)
    → (to_ℤ (wrapped_signed a w) ≡ wrap_signed (to_ℤ a) w) × IsApInt (wrapped_signed a w)
unfolding wrapped_signed
wrapped_signed_lem w a positive narrow h wraps =
    let nonzero : (w == 0) ≡ false = ground (arith, positive) in
    let (v, limbs) = to_twos_complement_words_lem w positive narrow a h wraps in
    let words = to_twos_complement_words a w in
    let size =
      to_twos_complement_words_size w a.negative (value a.limbs) a.limbs positive h.magnitude.limbs
        refl h.sign wraps in
    let small : value words < 2 ^ w = rw v (mod_ℤ-lt (to_ℤ a) (2 ^ w) (two-pow-pos w)) in
    let out = from_twos_complement_words_lem words w positive narrow limbs size small in
    rw nonzero
      (out.0 ∙ ap (λ (r : ℕ). if ltb r (2 ^ (w - 1)) then pos r else sub_ℕ r (2 ^ w)) v, out.1)
  where
    mod_ℤ-lt : (z : ℤ) (m : ℕ) → 0 < m → mod_ℤ z m < m
    mod_ℤ-lt (pos n) m h = mod-lt n h
    mod_ℤ-lt (negsuc n) m h = omega (arith, h)
