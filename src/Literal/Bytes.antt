-- ===== src/Literal/Bytes.antt =====
-- `to_unsigned_le_bytes`, and the number that bytes stand for.
use native.Mathlib.Nat.{div-div-eq-div-mul, zero-div, mod-one, div-add-mod, mul_assoc, div-one}
use vexel_lang.Base.{
  ℕ, zero, suc, ◌+◌, ◌*◌, ◌/◌, ◌%◌, ◌^◌, ◌<◌, false, List, [], ◌∷◌, ◌≡◌, sym, ap, ◌∙◌, arith,
  get_elem?, none, some,
}
use vexel_lang.Base.Power.{two-pow-add}
use vexel_lang.Error.{ok}
use vexel_lang.Limbs.Value.{value, IsLimbs}
use vexel_lang.LimbBits.Bit.{rest_bit}
use vexel_lang.ApInt.{ApInt}
use vexel_lang.ApInt.Meaning.{IsApInt}
use vexel_lang.Literal.{le_byte, le_bytes_from, to_unsigned_le_bytes}

-- The number that bytes stand for, the lowest first.
abbrev pub bytes_value : List ℕ → ℕ
bytes_value [] = 0
bytes_value (b ∷ bs) = b + 256 * bytes_value bs

byte_at :
    (ls : List ℕ) (k r : ℕ)
    → IsLimbs ls
    → r < 2
    → elim (get_elem? ls k) [ none ↦ 0 | some l ↦ l / 2 ^ (r * 8) % 256 ]
      ≡ value ls / 2 ^ (16 * k + r * 8) % 256
byte_at [] k r h hr = sym (ap (λ (t : ℕ). t % 256) (zero-div (2 ^ (16 * k + r * 8))))
byte_at (l ∷ ls) zero zero h hr = omega arith
byte_at (l ∷ ls) zero (suc zero) h hr = omega arith
byte_at (l ∷ ls) zero (suc (suc r)) h hr = absurd (omega arith)
byte_at (l ∷ ls) (suc k) r h hr = rw (rest_bit l (value ls) k (r * 8) h.0) (byte_at ls k r h.1 hr)

-- Byte `i` is the byte of the number.
le_byte_lem : (ls : List ℕ) (i : ℕ) → IsLimbs ls → le_byte ls i ≡ value ls / 2 ^ (8 * i) % 256
unfolding le_byte
le_byte_lem ls i h =
    byte_at ls (i / 2) (i % 2) h (omega arith)
    ∙ ap (λ (n : ℕ). value ls / 2 ^ n % 256) (omega arith)

-- A remainder past the first byte: that byte, and the remainder of the rest.
byte_split : (x n : ℕ) → x % 2 ^ (8 + n) ≡ x % 256 + 256 * (x / 256 % 2 ^ n)
byte_split x n =
    let q : x / 2 ^ (8 + n) ≡ x / 256 / 2 ^ n =
      ap (λ (t : ℕ). x / t) (two-pow-add 8 n) ∙ sym (div-div-eq-div-mul x 256 (2 ^ n)) in
    let whole = div-add-mod x (2 ^ (8 + n)) in
    let part = ap (λ (t : ℕ). 256 * t) (div-add-mod (x / 256) (2 ^ n)) in
    let big : 2 ^ (8 + n) * (x / 256 / 2 ^ n) ≡ 256 * (2 ^ n * (x / 256 / 2 ^ n)) =
      ap (λ (t : ℕ). t * (x / 256 / 2 ^ n)) (two-pow-add 8 n)
      ∙ mul_assoc 256 (2 ^ n) (x / 256 / 2 ^ n) in
    omega (arith, whole, part, big, ap (λ (t : ℕ). 2 ^ (8 + n) * t) q)

-- The bytes from `i` on make up what is left of the number at them.
le_bytes_from_lem :
    (ls : List ℕ) (i count : ℕ)
    → IsLimbs ls
    → bytes_value (le_bytes_from ls i count) ≡ value ls / 2 ^ (8 * i) % 2 ^ (8 * count)
unfolding le_bytes_from
le_bytes_from_lem ls i zero h = omega (arith, mod-one (value ls / 2 ^ (8 * i)))
le_bytes_from_lem ls i (suc count) h =
    let x = value ls / 2 ^ (8 * i) in
    let next : value ls / 2 ^ (8 * (i + 1)) ≡ x / 256 =
      ap (λ (n : ℕ). value ls / 2 ^ n) (omega arith)
      ∙ (ap (λ (t : ℕ). value ls / t) (two-pow-add (8 * i) 8)
          ∙ sym (div-div-eq-div-mul (value ls) (2 ^ (8 * i)) 256)) in
    let size : 8 * suc count ≡ 8 + 8 * count = omega arith in
    rw (size, byte_split x (8 * count))
      (omega (
        arith,
        le_byte_lem ls i h,
        le_bytes_from_lem ls (i + 1) count h,
        ap (λ (t : ℕ). t % 2 ^ (8 * count)) next,
      ))

-- For a value of the class that is not negative, `to_unsigned_le_bytes` returns bytes that stand, the lowest first,
-- for its remainder by 2 ^ (8 * byte_count).
pub to_unsigned_le_bytes_lem :
    (a : ApInt) (count : ℕ)
    → IsApInt a
    → a.negative ≡ false
    → (bytes : List ℕ) × (to_unsigned_le_bytes a count ≡ ok bytes)
      × (bytes_value bytes ≡ value a.limbs % 2 ^ (8 * count))
unfolding to_unsigned_le_bytes
to_unsigned_le_bytes_lem a count h e = (
  le_bytes_from a.limbs 0 count,
  rw e,
  le_bytes_from_lem a.limbs 0 count h.magnitude.limbs
      ∙ ap (λ (t : ℕ). t % 2 ^ (8 * count)) (div-one (value a.limbs)),
)
