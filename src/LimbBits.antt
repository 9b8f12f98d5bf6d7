-- ===== src/LimbBits.antt =====
-- frontend/src/core/apint.cpp: `test_bit_limbs`, `set_bit_limbs`, `shl1_inplace` and `any_low_bits`,
-- the single bits of a magnitude.
pub mod Bit
pub mod Double
use vexel_lang.Base.{
  ℕ, zero, suc, ◌+◌, ◌*◌, ◌/◌, ◌%◌, ◌^◌, bit_and, bit_or, Bool, true, false, not, none, some,
}
use vexel_lang.Base.{List, [], ◌∷◌, if◌then◌else◌, ◌==◌, get_elem?}
use vexel_lang.Limbs.{limb_bits, low_limb}

-- `limbs[limb_index] & (1 << bit_index)`, out of range false.
unfoldable pub test_bit_limbs : List ℕ → ℕ → Bool
test_bit_limbs limbs bit = elim (get_elem? limbs (bit / limb_bits)) [
  | none ↦ false
  | some l ↦ not (bit_and l (2 ^ (bit % limb_bits)) == 0)
]

-- `resize(limb_index + 1, 0)` where the vector is shorter, then `|=` at that index.
unfoldable pub set_limb_bit : List ℕ → ℕ → ℕ → List ℕ
set_limb_bit [] zero k = bit_or 0 (2 ^ k) ∷ []
set_limb_bit [] (suc i) k = 0 ∷ set_limb_bit [] i k
set_limb_bit (l ∷ ls) zero k = bit_or l (2 ^ k) ∷ ls
set_limb_bit (l ∷ ls) (suc i) k = l ∷ set_limb_bit ls i k

unfoldable pub set_bit_limbs : List ℕ → ℕ → List ℕ
set_bit_limbs limbs bit = set_limb_bit limbs (bit / limb_bits) (bit % limb_bits)

unfoldable pub shl1_loop : List ℕ → ℕ → List ℕ
shl1_loop [] carry = if carry == 0 then [] else carry ∷ []
shl1_loop (l ∷ ls) carry = bit_or (low_limb (l * 2)) carry ∷ shl1_loop ls (l / 2 ^ 15 % 2)

unfoldable pub shl1_inplace : List ℕ → List ℕ
shl1_inplace [] = []
shl1_inplace (l ∷ ls) = shl1_loop (l ∷ ls) 0

-- The whole limbs below the shift, then the low bits of the next one.
unfoldable pub any_low_loop : List ℕ → ℕ → ℕ → Bool
any_low_loop [] full_limbs bit_shift = false
any_low_loop (l ∷ ls) zero bit_shift =
    if bit_shift == 0 then false else not (l % 2 ^ bit_shift == 0)
any_low_loop (l ∷ ls) (suc full_limbs) bit_shift =
    if l == 0 then any_low_loop ls full_limbs bit_shift else true

unfoldable pub any_low_bits : List ℕ → ℕ → Bool
any_low_bits limbs shift = any_low_loop limbs (shift / limb_bits) (shift % limb_bits)
