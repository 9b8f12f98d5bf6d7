-- ===== src/Limbs.antt =====
-- frontend/src/core/apint.cpp, the anonymous namespace: magnitudes as little-endian vectors of
-- 16-bit limbs, each stored in a uint32_t. A vector is a list whose head is `limbs[0]`, and an
-- in-place operation returns the new vector. `x & kLimbMask` is the remainder by the base and
-- `x >> kLimbBits` the quotient; a cast is written out where the cast value could exceed it.
pub mod Value
pub mod Normal
pub mod Sum
pub mod Carry
pub mod Difference
pub mod Product
pub mod Order
pub mod Length
use Prim.Native.Nat.{compare, Ordering}
use vexel_lang.Base.{ℕ, zero, suc, ◌+◌, ◌-◌, ◌*◌, ◌/◌, ◌%◌, ◌^◌, ◌<◌, bit_or, ltb, ◌==◌}
use vexel_lang.Base.{List, [], ◌∷◌, if◌then◌else◌, length, replicate}

abbrev pub limb_bits : ℕ
limb_bits = 16

abbrev pub limb_base : ℕ
limb_base = 65536

abbrev pub u32 : ℕ → ℕ
u32 n = n % 2 ^ 32

abbrev pub u64 : ℕ → ℕ
u64 n = n % 2 ^ 64

-- `uint32_t(x & kLimbMask)` and `x >> kLimbBits`.
abbrev pub low_limb : ℕ → ℕ
low_limb x = x % limb_base

abbrev pub high_part : ℕ → ℕ
high_part x = x / limb_base

-- `limbs.back()`, which the code calls on no empty vector.
abbrev pub back : List ℕ → ℕ
back [] = 0
back (l ∷ []) = l
back (l ∷ h ∷ t) = back (h ∷ t)

-- A limb stays if it or one behind it is not 0.
abbrev pub keep_limb : ℕ → List ℕ → List ℕ
keep_limb l [] = if l == 0 then [] else l ∷ []
keep_limb l (h ∷ t) = l ∷ h ∷ t

unfoldable pub normalize_limbs : List ℕ → List ℕ
normalize_limbs [] = []
normalize_limbs (l ∷ ls) = keep_limb l (normalize_limbs ls)

-- The loop halves `value` until it is 0; 32 rounds are enough for a uint32_t.
unfoldable pub bit_length_loop : ℕ → ℕ → ℕ → ℕ
bit_length_loop zero value bits = bits
bit_length_loop (suc fuel) value bits =
    let rest = bit_length_loop fuel (value / 2) (bits + 1) in if value == 0 then bits else rest

unfoldable pub bit_length_u32 : ℕ → ℕ
bit_length_u32 value = bit_length_loop 32 value 0

unfoldable pub bit_length_limbs : List ℕ → ℕ
bit_length_limbs [] = 0
bit_length_limbs (l ∷ ls) = length ls * limb_bits + bit_length_u32 (back (l ∷ ls))

-- The vectors have one size here; the limbs behind decide first.
unfoldable pub compare_from_back : List ℕ → List ℕ → Ordering
compare_from_back [] b = Ordering.eq
compare_from_back (x ∷ a) [] = Ordering.eq
compare_from_back (x ∷ a) (y ∷ b) = elim (compare_from_back a b) [
  | Ordering.eq ↦ compare x y
  | Ordering.lt ↦ Ordering.lt
  | Ordering.gt ↦ Ordering.gt
]

-- -1, 0 and 1 are `lt`, `eq` and `gt`.
unfoldable pub compare_abs_limbs : List ℕ → List ℕ → Ordering
compare_abs_limbs a b = elim (compare (length a) (length b)) [
  | Ordering.lt ↦ Ordering.lt
  | Ordering.gt ↦ Ordering.gt
  | Ordering.eq ↦ compare_from_back a b
]

-- `while (carry != 0) { push_back(carry & kLimbMask); carry >>= kLimbBits; }`: four rounds are
-- enough for a uint64_t.
unfoldable pub push_limbs : ℕ → ℕ → List ℕ
push_limbs zero carry = []
push_limbs (suc fuel) carry =
    let rest = push_limbs fuel (high_part carry) in if carry == 0 then [] else low_limb carry ∷ rest

unfoldable pub add_small_inplace : List ℕ → ℕ → List ℕ
add_small_inplace [] carry = push_limbs 4 carry
add_small_inplace (l ∷ ls) carry =
    let sum = l + carry in
    let rest = add_small_inplace ls (high_part sum) in
    if carry == 0 then l ∷ ls else low_limb sum ∷ rest

unfoldable pub mul_small_loop : List ℕ → ℕ → ℕ → List ℕ
mul_small_loop [] value carry = push_limbs 4 carry
mul_small_loop (l ∷ ls) value carry =
    let prod = u64 (l * value + carry) in low_limb prod ∷ mul_small_loop ls value (high_part prod)

unfoldable pub mul_small_inplace : List ℕ → ℕ → List ℕ
mul_small_inplace [] value = []
mul_small_inplace (l ∷ ls) value =
    if value == 1 then l ∷ ls else if value == 0 then [] else mul_small_loop (l ∷ ls) value 0

-- The quotients, and the remainder that goes on to the limb in front.
unfoldable pub div_small_loop : List ℕ → ℕ → record { quotient : List ℕ; remainder : ℕ }
div_small_loop [] divisor = record { quotient = []; remainder = 0 }
div_small_loop (l ∷ ls) divisor =
    let behind = div_small_loop ls divisor in
    let cur = bit_or (u64 (behind.remainder * 2 ^ limb_bits)) l in
    record { quotient = u32 (cur / divisor) ∷ behind.quotient; remainder = cur % divisor }

unfoldable pub div_small_inplace : List ℕ → ℕ → record { quotient : List ℕ; remainder : ℕ }
div_small_inplace limbs divisor =
    let out = div_small_loop limbs divisor in
    record { quotient = normalize_limbs out.quotient; remainder = u32 out.remainder }

-- The loop to the larger size; a vector that has ended adds nothing.
unfoldable pub add_abs_loop : List ℕ → List ℕ → ℕ → List ℕ
add_abs_loop [] [] carry = if carry == 0 then [] else carry ∷ []
add_abs_loop (x ∷ a) [] carry =
    let sum = carry + x in low_limb sum ∷ add_abs_loop a [] (high_part sum)
add_abs_loop [] (y ∷ b) carry =
    let sum = carry + y in low_limb sum ∷ add_abs_loop [] b (high_part sum)
add_abs_loop (x ∷ a) (y ∷ b) carry =
    let sum = carry + x + y in low_limb sum ∷ add_abs_loop a b (high_part sum)

unfoldable pub add_abs_limbs : List ℕ → List ℕ → List ℕ
add_abs_limbs a b = normalize_limbs (add_abs_loop a b 0)

-- `diff < 0`, and `uint32_t(diff)` after the base is added where it is.
abbrev pub borrows : ℕ → ℕ → ℕ → ℕ
borrows x y borrow = if ltb x (y + borrow) then 1 else 0

abbrev pub difference : ℕ → ℕ → ℕ → ℕ
difference x y borrow =
    if ltb x (y + borrow) then u32 (x + limb_base + 2 ^ 32 - (y + borrow)) else x - (y + borrow)

unfoldable pub sub_abs_loop : List ℕ → List ℕ → ℕ → List ℕ
sub_abs_loop [] b borrow = []
sub_abs_loop (x ∷ a) [] borrow = difference x 0 borrow ∷ sub_abs_loop a [] (borrows x 0 borrow)
sub_abs_loop (x ∷ a) (y ∷ b) borrow = difference x y borrow ∷ sub_abs_loop a b (borrows x y borrow)

unfoldable pub sub_abs_inplace : List ℕ → List ℕ → List ℕ
sub_abs_inplace a b = normalize_limbs (sub_abs_loop a b 0)

unfoldable pub sub_abs_limbs : List ℕ → List ℕ → List ℕ
sub_abs_limbs a b = sub_abs_inplace a b

unfoldable pub sub_small_loop : List ℕ → ℕ → List ℕ
sub_small_loop [] borrow = []
sub_small_loop (l ∷ ls) borrow =
    let rest = sub_small_loop ls (borrows l 0 borrow) in
    if borrow == 0 then l ∷ ls else difference l 0 borrow ∷ rest

unfoldable pub sub_small_inplace : List ℕ → ℕ → List ℕ
sub_small_inplace limbs value = normalize_limbs (sub_small_loop limbs value)

-- `while (carry != 0)` behind a row: the carry runs on through `out`, which grows at its end.
unfoldable pub carry_row : List ℕ → ℕ → List ℕ
carry_row [] carry = push_limbs 4 carry
carry_row (o ∷ out) carry =
    let accum = u64 (o + carry) in
    let rest = carry_row out (high_part accum) in
    if carry == 0 then o ∷ out else low_limb accum ∷ rest

-- The loop over `j`, on the limbs of `out` from `i + j` on. `out` has room for every `j`; where it
-- had none, the write would be past its end, and the row stops.
unfoldable pub multiply_row : ℕ → List ℕ → List ℕ → ℕ → List ℕ
multiply_row x [] out carry = carry_row out carry
multiply_row x (y ∷ b) [] carry = []
multiply_row x (y ∷ b) (o ∷ out) carry =
    let accum = u64 (o + x * y + carry) in low_limb accum ∷ multiply_row x b out (high_part accum)

-- One step of the loop over `i` leaves `out[i]` behind.
unfoldable pub keep_first : (List ℕ → List ℕ) → List ℕ → List ℕ
keep_first rest [] = rest []
keep_first rest (o ∷ out) = o ∷ rest out

unfoldable pub multiply_rows : List ℕ → List ℕ → List ℕ → List ℕ
multiply_rows [] b out = out
multiply_rows (x ∷ a) b out = keep_first (multiply_rows a b) (multiply_row x b out 0)

unfoldable pub mul_abs_limbs : List ℕ → List ℕ → List ℕ
mul_abs_limbs [] b = []
mul_abs_limbs (x ∷ a) [] = []
mul_abs_limbs (x ∷ a) (y ∷ b) =
    normalize_limbs (multiply_rows (x ∷ a) (y ∷ b) (replicate (length (x ∷ a) + length (y ∷ b)) 0))
