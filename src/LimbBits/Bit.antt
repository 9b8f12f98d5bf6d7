-- ===== src/LimbBits/Bit.antt =====
-- Reading and setting one bit of the number that a vector stands for.
use native.Mathlib.Nat.{zero-div, zero-add, div-div-eq-div-mul, add-mul-div_left}
use vexel_lang.Base.{
  ℕ, zero, suc, ◌+◌, ◌-◌, ◌*◌, ◌/◌, ◌%◌, ◌^◌, ◌<◌, bit_and, Bool, true, false, not, none, some, sym,
  List, [], ◌∷◌, ◌≡◌, ap, ◌∙◌, arith, ◌==◌, get_elem?,
}
use vexel_lang.Base.Power.{two-pow-suc, two-pow-add, two-pow-pos}
use vexel_lang.Base.Bits.{and_bit, or_bit, or-lt}
use vexel_lang.Limbs.{limb_base}
use vexel_lang.Limbs.Value.{value, IsLimbs}
use vexel_lang.LimbBits.{test_bit_limbs, set_limb_bit, set_bit_limbs}

abbrev pub to_digit : Bool → ℕ
to_digit true = 1
to_digit false = 0

-- The base is a multiple of each bit of a limb, by an even number.
pub base_split : (k : ℕ) → k < 16 → limb_base ≡ 2 ^ k * (2 * 2 ^ (15 - k))
base_split k h =
    let e : 16 ≡ k + suc (15 - k) = omega arith in
    ap (λ (n : ℕ). 2 ^ n) e
    ∙ (two-pow-add k (suc (15 - k)) ∙ ap (λ (t : ℕ). 2 ^ k * t) (two-pow-suc (15 - k)))

-- Bit `k` of the first limb is bit `k` of the number.
pub first_limb_bit : (l v k : ℕ) → k < 16 → (l + limb_base * v) / 2 ^ k % 2 ≡ l / 2 ^ k % 2
first_limb_bit l v k h =
    let e : (l + limb_base * v) / 2 ^ k ≡ l / 2 ^ k + 2 * (2 ^ (15 - k) * v) =
      ap (λ (t : ℕ). (l + t) / 2 ^ k) (omega (arith, ap (λ (t : ℕ). t * v) (base_split k h)))
      ∙ add-mul-div_left l (2 * (2 ^ (15 - k) * v)) (two-pow-pos k) in
    rw e (omega arith)

-- A bit past the first limb is a bit of the rest.
pub rest_bit :
    (l v i k : ℕ)
    → l < limb_base
    → (l + limb_base * v) / 2 ^ (16 * suc i + k) ≡ v / 2 ^ (16 * i + k)
rest_bit l v i k h =
    let e : 16 * suc i + k ≡ 16 + (16 * i + k) = omega arith in
    rw
      (
        e,
        two-pow-add 16 (16 * i + k),
        ← div-div-eq-div-mul (l + limb_base * v) limb_base (2 ^ (16 * i + k)),
      )
      (ap (λ (t : ℕ). t / 2 ^ (16 * i + k)) (omega (arith, h)))

limb_test : (l k : ℕ) → to_digit (not (bit_and l (2 ^ k) == 0)) ≡ l / 2 ^ k % 2
limb_test l k = rw (and_bit k l) (grind (arith, two-pow-pos k))

test_at :
    (ls : List ℕ) (i k : ℕ)
    → IsLimbs ls
    → k < 16
    → to_digit (elim (get_elem? ls i) [ none ↦ false | some l ↦ not (bit_and l (2 ^ k) == 0) ])
      ≡ value ls / 2 ^ (16 * i + k) % 2
test_at [] i k h hk = rw (zero-div (2 ^ (16 * i + k)))
test_at (l ∷ ls) zero k h hk =
    rw (limb_test l k, zero-add k) (sym (first_limb_bit l (value ls) k hk))
test_at (l ∷ ls) (suc i) k h hk = rw (rest_bit l (value ls) i k h.0) (test_at ls i k h.1 hk)

-- For limbs below the base, `test_bit_limbs` reads the binary digit of the number at any position.
pub test_bit_limbs_lem :
    (ls : List ℕ) (bit : ℕ) → IsLimbs ls → to_digit (test_bit_limbs ls bit) ≡ value ls / 2 ^ bit % 2
unfolding test_bit_limbs
test_bit_limbs_lem ls bit h =
    test_at ls (bit / 16) (bit % 16) h (omega arith)
    ∙ ap (λ (t : ℕ). value ls / 2 ^ t % 2) (omega arith)

pub bit-lt : (k : ℕ) → k < 16 → 2 ^ k < limb_base
bit-lt k h = grind (arith, base_split k h, two-pow-pos k, two-pow-pos (15 - k))

power_suc : (i k : ℕ) → 2 ^ (16 * suc i + k) ≡ limb_base * 2 ^ (16 * i + k)
power_suc i k =
    let e : 16 * suc i + k ≡ 16 + (16 * i + k) = omega arith in
    ap (λ (n : ℕ). 2 ^ n) e ∙ two-pow-add 16 (16 * i + k)

value-set_limb_bit :
    (ls : List ℕ) (i k : ℕ)
    → IsLimbs ls
    → k < 16
    → value ls / 2 ^ (16 * i + k) % 2 ≡ 0
    → value (set_limb_bit ls i k) ≡ value ls + 2 ^ (16 * i + k)
unfolding set_limb_bit
value-set_limb_bit [] zero k h hk clear =
    rw (zero-add k) (omega (arith, or_bit k 0 (rw (zero-div (2 ^ k)))))
value-set_limb_bit [] (suc i) k h hk clear =
    omega (arith, value-set_limb_bit [] i k tt hk (rw (zero-div (2 ^ (16 * i + k)))), power_suc i k)
value-set_limb_bit (l ∷ ls) zero k h hk clear =
    let below : 2 ^ (16 * 0 + k) ≡ 2 ^ k = rw (zero-add k) in
    omega (arith, below, or_bit k l (sym (first_limb_bit l (value ls) k hk) ∙ (rw (← below) clear)))
value-set_limb_bit (l ∷ ls) (suc i) k h hk clear = omega (
  arith,
  value-set_limb_bit ls i k h.1 hk (rw (← rest_bit l (value ls) i k h.0) clear),
  power_suc i k,
)

set_limb_bit-IsLimbs : (ls : List ℕ) (i k : ℕ) → IsLimbs ls → k < 16 → IsLimbs (set_limb_bit ls i k)
unfolding set_limb_bit
set_limb_bit-IsLimbs [] zero k h hk = (or-lt 16 0 (2 ^ k) (omega arith) (bit-lt k hk), tt)
set_limb_bit-IsLimbs [] (suc i) k h hk = (omega arith, set_limb_bit-IsLimbs [] i k tt hk)
set_limb_bit-IsLimbs (l ∷ ls) zero k h hk = (or-lt 16 l (2 ^ k) h.0 (bit-lt k hk), h.1)
set_limb_bit-IsLimbs (l ∷ ls) (suc i) k h hk = (h.0, set_limb_bit-IsLimbs ls i k h.1 hk)

-- Setting a clear bit adds its power.
pub value-set_bit_limbs :
    (ls : List ℕ) (bit : ℕ)
    → IsLimbs ls
    → value ls / 2 ^ bit % 2 ≡ 0
    → value (set_bit_limbs ls bit) ≡ value ls + 2 ^ bit
unfolding set_bit_limbs
value-set_bit_limbs ls bit h clear =
    let e : bit ≡ 16 * (bit / 16) + bit % 16 = omega arith in
    value-set_limb_bit ls (bit / 16) (bit % 16) h (omega arith)
      (ap (λ (t : ℕ). value ls / 2 ^ t % 2) (sym e) ∙ clear)
    ∙ ap (λ (t : ℕ). value ls + 2 ^ t) (sym e)

pub set_bit_limbs-IsLimbs : (ls : List ℕ) (bit : ℕ) → IsLimbs ls → IsLimbs (set_bit_limbs ls bit)
unfolding set_bit_limbs
set_bit_limbs-IsLimbs ls bit h = set_limb_bit-IsLimbs ls (bit / 16) (bit % 16) h (omega arith)
