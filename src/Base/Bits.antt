-- ===== src/Base/Bits.antt =====
-- Laws of `|`, `&` and `^` on native numbers: disjoint fields, one bit, and bounds.
mod Digit
pub use Digit.{bit_or-digit, bit_and-digit, bit_xor-digit, differ-lt}
use native.Mathlib.Nat.{pow-suc, div-div-eq-div-mul, div-one}
use Prim.Native.Nat.{differ, bit_or-bitwise}
use vexel_lang.Base.Power.{two-pow-suc}
use vexel_lang.Base.{
  ℕ, zero, suc, ◌+◌, ◌*◌, ◌/◌, ◌%◌, ◌^◌, ◌≤◌, ◌<◌, bit_and, bit_or, bit_xor, ◌≡◌, refl, ap, sym,
  arith,
}

-- Halving a number of fuel: each law is by recursion on a bound of its first argument.
or_nil_upto : (bound a : ℕ) → a ≤ bound → bit_or a 0 ≡ a
or_nil_upto bound zero h = refl
or_nil_upto zero (suc a) h = absurd (omega arith)
or_nil_upto (suc bound) (suc a) h =
    omega (arith, bit_or-digit (suc a) 0, or_nil_upto bound (suc a / 2) (omega arith))

pub or_nil : (a : ℕ) → bit_or a 0 ≡ a
or_nil a = or_nil_upto a a (omega arith)

and_nil_upto : (bound a : ℕ) → a ≤ bound → bit_and a 0 ≡ 0
and_nil_upto bound zero h = refl
and_nil_upto zero (suc a) h = absurd (omega arith)
and_nil_upto (suc bound) (suc a) h =
    omega (arith, bit_and-digit (suc a) 0, and_nil_upto bound (suc a / 2) (omega arith))

pub and_nil : (a : ℕ) → bit_and a 0 ≡ 0
and_nil a = and_nil_upto a a (omega arith)

times_two-pow-suc : (q k : ℕ) → q * 2 ^ suc k ≡ 2 * (q * 2 ^ k)
times_two-pow-suc q k = omega (arith, ap (λ (t : ℕ). q * t) (pow-suc 2 k))

-- `(high << k) | low` is a sum where `low` has at most `k` bits, in either order.
pub or_fields : (k high low : ℕ) → low < 2 ^ k → bit_or (high * 2 ^ k) low ≡ high * 2 ^ k + low
or_fields zero high low h = ground (arith, or_nil high)
or_fields (suc k) high low h = ground (
  arith,
  bit_or-digit (high * 2 ^ suc k) low,
  times_two-pow-suc high k,
  two-pow-suc k,
  or_fields k high (low / 2) (omega (arith, two-pow-suc k)),
)

or_zero : (b : ℕ) → bit_or 0 b ≡ b
or_zero b = bit_or-bitwise 0 b

pub or_fields_swap : (k high low : ℕ) → low < 2 ^ k → bit_or low (high * 2 ^ k) ≡ high * 2 ^ k + low
or_fields_swap zero high zero h = omega (arith, or_zero (high * 2 ^ 0))
or_fields_swap zero high (suc low) h = absurd (omega arith)
or_fields_swap (suc k) high low h = ground (
  arith,
  bit_or-digit low (high * 2 ^ suc k),
  times_two-pow-suc high k,
  two-pow-suc k,
  or_fields_swap k high (low / 2) (omega (arith, two-pow-suc k)),
)

-- The test of one bit.
halve : (k a : ℕ) → a / 2 ^ suc k ≡ a / 2 / 2 ^ k
halve k a = rw (two-pow-suc k) (sym (div-div-eq-div-mul a 2 (2 ^ k)))

double_half : (k : ℕ) → 2 ^ suc k / 2 ≡ 2 ^ k
double_half k = omega (arith, two-pow-suc k)

pub and_bit : (k a : ℕ) → bit_and a (2 ^ k) ≡ a / 2 ^ k % 2 * 2 ^ k
and_bit zero a = omega (arith, bit_and-digit a 1, and_nil (a / 2))
and_bit (suc k) a =
    rw (bit_and-digit a (2 ^ suc k), double_half k, and_bit k (a / 2), ← halve k a)
      (omega (arith, two-pow-suc k, times_two-pow-suc (a / 2 ^ suc k % 2) k))

-- Setting a bit that is clear.
pub or_bit : (k a : ℕ) → a / 2 ^ k % 2 ≡ 0 → bit_or a (2 ^ k) ≡ a + 2 ^ k
or_bit zero a h = omega (arith, bit_or-digit a 1, or_nil (a / 2), div-one a)
or_bit (suc k) a h =
    rw (bit_or-digit a (2 ^ suc k), double_half k, or_bit k (a / 2) (rw (← halve k a) h))
      (omega (arith, two-pow-suc k))

-- A bound by a power of two survives.
pub or-lt : (k a b : ℕ) → a < 2 ^ k → b < 2 ^ k → bit_or a b < 2 ^ k
or-lt zero zero zero ha hb = omega arith
or-lt zero (suc a) b ha hb = absurd (omega arith)
or-lt zero zero (suc b) ha hb = absurd (omega arith)
or-lt (suc k) a b ha hb = omega (
  arith,
  bit_or-digit a b,
  two-pow-suc k,
  or-lt k (a / 2) (b / 2) (omega (arith, two-pow-suc k)) (omega (arith, two-pow-suc k)),
)

pub and-lt : (k a b : ℕ) → a < 2 ^ k → b < 2 ^ k → bit_and a b < 2 ^ k
and-lt zero zero zero ha hb = omega arith
and-lt zero (suc a) b ha hb = absurd (omega arith)
and-lt zero zero (suc b) ha hb = absurd (omega arith)
and-lt (suc k) a b ha hb = omega (
  arith,
  bit_and-digit a b,
  two-pow-suc k,
  and-lt k (a / 2) (b / 2) (omega (arith, two-pow-suc k)) (omega (arith, two-pow-suc k)),
)

pub xor-lt : (k a b : ℕ) → a < 2 ^ k → b < 2 ^ k → bit_xor a b < 2 ^ k
xor-lt zero zero zero ha hb = omega arith
xor-lt zero (suc a) b ha hb = absurd (omega arith)
xor-lt zero zero (suc b) ha hb = absurd (omega arith)
xor-lt (suc k) a b ha hb = omega (
  arith,
  bit_xor-digit a b,
  two-pow-suc k,
  differ-lt (a % 2) (b % 2) (omega arith) (omega arith),
  xor-lt k (a / 2) (b / 2) (omega (arith, two-pow-suc k)) (omega (arith, two-pow-suc k)),
)
