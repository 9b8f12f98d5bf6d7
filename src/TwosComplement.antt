-- ===== src/TwosComplement.antt =====
-- frontend/src/core/apint.cpp: words of a fixed width. `mask_top_bits`, `twos_complement_negate_inplace`,
-- and the copies of `APInt::to_twos_complement_words` and `APInt::from_twos_complement_words`.
pub mod Mask
pub mod Negate
pub mod Size
use vexel_lang.Base.{ℕ, zero, suc, ◌+◌, ◌-◌, ◌*◌, ◌/◌, ◌%◌, ◌^◌, ltb, ◌==◌, if◌then◌else◌}
use vexel_lang.Base.{List, [], ◌∷◌, ◌++◌, length, replicate, map}
use vexel_lang.Limbs.{limb_bits, limb_base, low_limb, u64, normalize_limbs, add_small_inplace}

-- `words.back() &= mask` with `extra` ones.
unfoldable pub mask_back : List ℕ → ℕ → List ℕ
mask_back [] extra = []
mask_back (l ∷ []) extra = l % 2 ^ extra ∷ []
mask_back (l ∷ h ∷ t) extra = l ∷ mask_back (h ∷ t) extra

unfoldable pub mask_top_bits_preserve_size : List ℕ → ℕ → List ℕ
mask_top_bits_preserve_size words bit_width =
    if bit_width == 0
    then []
    else if bit_width % limb_bits == 0
    then words
    else mask_back words (bit_width % limb_bits)

unfoldable pub mask_top_bits : List ℕ → ℕ → List ℕ
mask_top_bits words bit_width = normalize_limbs (mask_top_bits_preserve_size words bit_width)

-- `(bit_width + kLimbBits - 1) / kLimbBits`, of which the sum wraps around in a uint64_t.
abbrev pub word_count : ℕ → ℕ
word_count bit_width = u64 (bit_width + limb_bits - 1) / limb_bits

-- `(~word) & kLimbMask`, in 32 bits.
abbrev pub complement : ℕ → ℕ
complement word = low_limb (2 ^ 32 - 1 - word)

-- `resize(size, 0)` where the vector is shorter.
abbrev pub grow : ℕ → List ℕ → List ℕ
grow size words =
    if ltb (length words) size then words ++ replicate (size - length words) 0 else words

unfoldable pub twos_complement_negate_inplace : List ℕ → ℕ → List ℕ
twos_complement_negate_inplace words bit_width =
    mask_top_bits_preserve_size
      (grow (word_count bit_width) (add_small_inplace (map complement words) 1)) bit_width

-- `words[i] = limbs_[i] & kLimbMask` up to the smaller size, in a vector of `count` zeros.
unfoldable pub fit_words : ℕ → List ℕ → List ℕ
fit_words zero limbs = []
fit_words (suc count) [] = 0 ∷ fit_words count []
fit_words (suc count) (l ∷ ls) = low_limb l ∷ fit_words count ls
