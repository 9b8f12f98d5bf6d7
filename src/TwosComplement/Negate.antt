-- ===== src/TwosComplement/Negate.antt =====
-- `twos_complement_negate_inplace`, on words that are not all 0 and on those that are.
use native.Mathlib.Nat.{mod-eq_of_lt, pow-le-pow_right}
use vexel_lang.Base.{
  ℕ, zero, suc, ◌+◌, ◌-◌, ◌*◌, ◌/◌, ◌%◌, ◌^◌, ◌<◌, ◌≤◌, List, [], ◌∷◌, ◌≡◌, refl, ap, ◌∙◌, arith,
  map, ◌==◌, Bool-cases, inl, inr, length, length-map, false,
}
use native.Mathlib.Decide.{dec_lt}
use vexel_lang.Base.Power.{two-pow-add, two-pow-pos}
use vexel_lang.Limbs.{limb_base, push_limbs, add_small_inplace}
use vexel_lang.Limbs.Value.{value, IsLimbs}
use vexel_lang.Limbs.Sum.{value-add_small_inplace, add_small_inplace-IsLimbs}
use vexel_lang.TwosComplement.{
  mask_back, mask_top_bits_preserve_size, word_count, complement, grow,
  twos_complement_negate_inplace,
}
use vexel_lang.TwosComplement.Size.{length-mask_top_bits_preserve_size}
use vexel_lang.TwosComplement.Mask.{
  mask_back-IsLimbs, value-lt, value-mask_back, value-mask_top_bits_preserve_size,
  mask_top_bits_preserve_size-IsLimbs,
}

pow_step : (n : ℕ) → 2 ^ (16 * suc n) ≡ limb_base * 2 ^ (16 * n)
pow_step n = let e : 16 * suc n ≡ 16 + 16 * n = omega arith in rw e (two-pow-add 16 (16 * n))

-- A sum that fits the limbs pushes none.
length-add_small_inplace :
    (ls : List ℕ) (carry : ℕ)
    → IsLimbs ls
    → value ls + carry < 2 ^ (16 * length ls)
    → length (add_small_inplace ls carry) ≡ length ls
unfolding add_small_inplace push_limbs
length-add_small_inplace [] zero h lt = refl
length-add_small_inplace [] (suc c) h lt = absurd (omega arith)
length-add_small_inplace (l ∷ ls) carry h lt = ground (
  arith,
  length-add_small_inplace ls ((l + carry) / limb_base) h.1
      (omega (arith, pow_step (length ls), h.0)),
)

length-push_limbs-le : (carry : ℕ) → carry < limb_base → length (push_limbs 4 carry) ≤ 1
unfolding push_limbs
length-push_limbs-le carry h = ground arith

-- A limb pushes one at most.
length-add_small_inplace-le :
    (ls : List ℕ) (carry : ℕ)
    → IsLimbs ls
    → carry < limb_base
    → length (add_small_inplace ls carry) ≤ length ls + 1
unfolding add_small_inplace
length-add_small_inplace-le [] carry h lt = omega (arith, length-push_limbs-le carry lt)
length-add_small_inplace-le (l ∷ ls) carry h lt =
    ground
      (arith, length-add_small_inplace-le ls ((l + carry) / limb_base) h.1 (omega (arith, h.0)))

value-complement :
    (words : List ℕ)
    → IsLimbs words
    → value (map complement words) + value words + 1 ≡ 2 ^ (16 * length words)
value-complement [] h = refl
value-complement (l ∷ ls) h = omega (arith, h.0, pow_step (length ls), value-complement ls h.1)

complement-IsLimbs : (words : List ℕ) → IsLimbs (map complement words)
complement-IsLimbs [] = tt
complement-IsLimbs (l ∷ ls) = (omega arith, complement-IsLimbs ls)

grow_nothing : (size : ℕ) (words : List ℕ) → size ≤ length words → grow size words ≡ words
grow_nothing size words h = ground arith

-- The mask keeps a word that holds a single one at its foot.
top_word :
    (ls : List ℕ) (n extra : ℕ)
    → IsLimbs ls
    → length ls ≡ suc n
    → value ls ≡ 2 ^ (16 * n)
    → 0 < extra
    → value (mask_back ls extra) ≡ 2 ^ (16 * n)
top_word [] n extra h e v pos = absurd (omega (arith, e))
top_word (l ∷ ls) n extra h e v pos =
    let size : length ls ≡ n = omega (arith, e) in
    let lt : 2 ^ (16 * n) < 2 ^ (16 * n + extra) = rw (two-pow-add (16 * n) extra) (
      grind (
        arith,
        two-pow-pos (16 * n),
        pow-le-pow_right {n = 2} (omega arith) {i = 1} {j = extra} pos,
      )) in
    value-mask_back l ls extra h
    ∙ (ap (λ (m : ℕ). value (l ∷ ls) % 2 ^ (16 * m + extra)) size
        ∙ (ap (λ (m : ℕ). m % 2 ^ (16 * n + extra)) v ∙ mod-eq_of_lt lt))

module _ (words : List ℕ) (w : ℕ) (h : IsLimbs words) (size : length words ≡ word_count w) where
  increment : List ℕ
  increment = add_small_inplace (map complement words) 1

  increment-IsLimbs : IsLimbs increment
  unfolding increment
  increment-IsLimbs = add_small_inplace-IsLimbs (map complement words) 1 (complement-IsLimbs words)

  value-increment : value increment + value words ≡ 2 ^ (16 * word_count w)
  unfolding increment
  value-increment = rw (← size) (
      omega (
        arith,
        value-complement words h,
        value-add_small_inplace (map complement words) 1 (complement-IsLimbs words) (omega arith),
      ))

  length-complement : length (map complement words) ≡ word_count w
  length-complement = length-map words complement ∙ size

  length-increment : 0 < value words → length increment ≡ word_count w
  unfolding increment
  length-increment pos =
      length-add_small_inplace (map complement words) 1 (complement-IsLimbs words)
        (rw (length-complement, ← size) (omega (arith, value-complement words h)))
      ∙ length-complement

  -- For words of a width, of which a uint64_t counts the bits, that are limbs and do not all vanish, `twos_complement_negate_inplace` gives the two's
  -- complement: what is missing to 2 ^ (16 * word_count) by the remainder at 2 ^ bit_width.
  pub value-twos_complement_negate_inplace :
      w + 15 < 2 ^ 64
      → 0 < value words
      → value (twos_complement_negate_inplace words w)
        ≡ (2 ^ (16 * word_count w) - value words) % 2 ^ w
  unfolding twos_complement_negate_inplace
  value-twos_complement_negate_inplace narrow pos =
      let n = length-increment pos in
      let v : value increment ≡ 2 ^ (16 * word_count w) - value words =
        omega (arith, value-increment) in
      unfold increment in
      rw (grow_nothing (word_count w) increment (omega (arith, n))) (
        value-mask_top_bits_preserve_size increment w narrow increment-IsLimbs n
        ∙ ap (λ (t : ℕ). t % 2 ^ w) v)

  pub twos_complement_negate_inplace-IsLimbs :
      0 < value words → IsLimbs (twos_complement_negate_inplace words w)
  unfolding twos_complement_negate_inplace
  twos_complement_negate_inplace-IsLimbs pos =
      let n = length-increment pos in
      unfold increment in
      rw (grow_nothing (word_count w) increment (omega (arith, n)))
        (mask_top_bits_preserve_size-IsLimbs increment w increment-IsLimbs)

  pub length-twos_complement_negate_inplace :
      0 < w → 0 < value words → length (twos_complement_negate_inplace words w) ≡ word_count w
  unfolding twos_complement_negate_inplace
  length-twos_complement_negate_inplace positive pos =
      let n = length-increment pos in
      unfold increment in
      rw (grow_nothing (word_count w) increment (omega (arith, n)))
        (length-mask_top_bits_preserve_size increment w positive ∙ n)

  -- The case of words that are all 0.
  increment_overflows : value words ≡ 0 → length increment ≡ suc (word_count w)
  increment_overflows z =
      let longer : word_count w < length increment =
        not_short (value-lt increment increment-IsLimbs) in
      omega (arith, longer, at_most)
    where
      at_most : length increment ≤ word_count w + 1
      at_most =
          unfold increment in
          rw (← length-complement) (
            length-add_small_inplace-le (map complement words) 1 (complement-IsLimbs words)
              (omega arith))

      not_short : value increment < 2 ^ (16 * length increment) → word_count w < length increment
      not_short lt = elim (dec_lt (word_count w) (length increment)) [
        | yes p ↦ p
        | no q ↦
            let le : 2 ^ (16 * length increment) ≤ 2 ^ (16 * word_count w) =
              pow-le-pow_right {n = 2} (omega arith) (omega (arith, q)) in
            absurd (omega (arith, lt, le, value-increment, z))
      ]

  pub negate_zero :
      0 < w
      → value words ≡ 0
      → (value (twos_complement_negate_inplace words w) ≡ 2 ^ (16 * word_count w))
        × IsLimbs (twos_complement_negate_inplace words w)
  unfolding twos_complement_negate_inplace mask_top_bits_preserve_size
  negate_zero pos z =
      let n = increment_overflows z in
      let v : value increment ≡ 2 ^ (16 * word_count w) = omega (arith, value-increment, z) in
      unfold increment in
      rw (grow_nothing (word_count w) increment (omega (arith, n)))
        (elim (Bool-cases (w % 16 == 0)) [
          | inl whole ↦ rw (nonzero pos, whole) (v, increment-IsLimbs)
          | inr part ↦
              rw (nonzero pos, part)
                (
                  top_word increment (word_count w) (w % 16) increment-IsLimbs n v
                      (ground (arith, part)),
                  mask_back-IsLimbs increment (w % 16) increment-IsLimbs,
                )
        ])
    where
      nonzero : 0 < w → (w == 0) ≡ false
      nonzero pos = ground arith
