-- ===== src/ApInt/Wrap/Remainder.antt =====
-- The remainder of an integer, and the arithmetic of remainders that wrapping rests on.
use native.Mathlib.Nat.{
  add-mul-mod_self_left, mod-eq_of_lt, div-add-mod, mod-lt, div-lt_iff_lt-mul, mul_assoc, mul_comm,
}
use vexel_lang.Base.{
  ℕ, suc, ◌+◌, ◌-◌, ◌*◌, ◌/◌, ◌%◌, ◌^◌, ◌<◌, ◌≡◌, sym, ap, ◌∙◌, arith, if◌then◌else◌, ltb,
}
use vexel_lang.Base.Int.{ℤ, pos, negsuc, sub_ℕ}

-- The remainder from 0 to m - 1, for either sign.
abbrev pub mod_ℤ : ℤ → ℕ → ℕ
mod_ℤ (pos n) m = n % m
mod_ℤ (negsuc n) m = m - 1 - n % m

-- The integer from -2 ^ (w - 1) on with the same remainder by 2 ^ w.
abbrev pub wrap_signed : ℤ → ℕ → ℤ
wrap_signed z w = let r = mod_ℤ z (2 ^ w) in if ltb r (2 ^ (w - 1)) then pos r else sub_ℕ r (2 ^ w)

pub mod-product : (n p q : ℕ) → n % (p * q) % p ≡ n % p
mod-product n p q =
    sym (add-mul-mod_self_left (n % (p * q)) p (q * (n / (p * q))))
    ∙ ap (λ (t : ℕ). t % p) (omega (arith, div-add-mod n (p * q), mul_assoc p q (n / (p * q))))

mod-pred : (n m : ℕ) → 0 < m → 0 < suc n % m → n % m ≡ suc n % m - 1
mod-pred n m pos_m h =
    let whole : n ≡ suc n % m - 1 + m * (suc n / m) = omega (arith, div-add-mod (suc n) m, h) in
    ap (λ (t : ℕ). t % m) whole
    ∙ (add-mul-mod_self_left (suc n % m - 1) m (suc n / m)
        ∙ mod-eq_of_lt (omega (arith, mod-lt (suc n) pos_m)))

-- The complement at a multiple of `p` is the complement at `p`.
complement_mod : (x p q : ℕ) → 0 < p → x < p * q → (p * q - suc x) % p ≡ p - 1 - x % p
complement_mod x p q hp lt =
    let s = mod-lt x hp in
    let t : x / p < q = (div-lt_iff_lt-mul hp).1 (omega (arith, lt, mul_comm p q)) in
    let room : q ≡ q - 1 - x / p + 1 + x / p = omega (arith, t) in
    let whole : p * q - suc x ≡ p - 1 - x % p + p * (q - 1 - x / p) =
      omega (arith, div-add-mod x p, s, ap (λ (k : ℕ). p * k) room) in
    ap (λ (k : ℕ). k % p) whole
    ∙ (add-mul-mod_self_left (p - 1 - x % p) p (q - 1 - x / p) ∙ mod-eq_of_lt (omega arith))

pub negated_mod :
    (n p q : ℕ)
    → 0 < p
    → 0 < p * q
    → 0 < suc n % (p * q)
    → (p * q - suc n % (p * q)) % p ≡ p - 1 - n % p
negated_mod n p q hp hpq h =
    let before = mod-pred n (p * q) hpq h in
    let e : suc n % (p * q) ≡ suc (n % (p * q)) = omega (arith, before, h) in
    rw e (
      complement_mod (n % (p * q)) p q hp (mod-lt n hpq)
      ∙ ap (λ (k : ℕ). p - 1 - k) (mod-product n p q))
