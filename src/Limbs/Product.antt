-- ===== src/Limbs/Product.antt =====
-- The multiplications, by one limb-sized number and by a vector row by row.
use vexel_lang.Base.{
  ℕ, ◌+◌, ◌*◌, ◌/◌, ◌^◌, ◌≤◌, ◌<◌, List, [], ◌∷◌, ◌≡◌, refl, arith, length, replicate, ◌∙◌,
}
use vexel_lang.Base.{length-replicate, zero, suc}
use vexel_lang.Limbs.{
  limb_base, mul_small_inplace, mul_small_loop, carry_row, multiply_row, multiply_rows, keep_first,
  mul_abs_limbs, u64,
}
use vexel_lang.Limbs.Value.{value, IsLimbs, IsMagnitude}
use vexel_lang.Limbs.Normal.{value-normalize_limbs, normalize_limbs-IsMagnitude}
use vexel_lang.Limbs.Sum.{value-push_limbs, push_limbs-IsLimbs}

product-le : (x y m n : ℕ) → x ≤ m → y ≤ n → x * y ≤ m * n
product-le x y m n p q = grind arith

-- A limb times a 32-bit number, with a 32-bit carry, does not wrap and carries 32 bits.
small_step :
    (l v carry : ℕ)
    → l < limb_base
    → v < 2 ^ 32
    → carry < 2 ^ 32
    → (u64 (l * v + carry) ≡ l * v + carry) × ((l * v + carry) / limb_base < 2 ^ 32)
small_step l v carry hl hv hc =
    let p = product-le l v 65535 4294967295 (omega arith) (omega arith) in omega (arith, p)

value-mul_small_loop :
    (ls : List ℕ) (v carry : ℕ)
    → IsLimbs ls
    → v < 2 ^ 32
    → carry < 2 ^ 32
    → value (mul_small_loop ls v carry) ≡ value ls * v + carry
unfolding mul_small_loop
value-mul_small_loop [] v carry h hv hc = omega (arith, value-push_limbs 4 carry (omega arith))
value-mul_small_loop (l ∷ ls) v carry h hv hc =
    let s = small_step l v carry h.0 hv hc in
    rw s.0 (omega (arith, value-mul_small_loop ls v ((l * v + carry) / limb_base) h.1 hv s.1))

mul_small_loop-IsLimbs : (ls : List ℕ) (v carry : ℕ) → IsLimbs (mul_small_loop ls v carry)
unfolding mul_small_loop
mul_small_loop-IsLimbs [] v carry = push_limbs-IsLimbs 4 carry
mul_small_loop-IsLimbs (l ∷ ls) v carry =
    (omega arith, mul_small_loop-IsLimbs ls v (u64 (l * v + carry) / limb_base))

pub value-mul_small_inplace :
    (ls : List ℕ) (v : ℕ) → IsLimbs ls → v < 2 ^ 32 → value (mul_small_inplace ls v) ≡ value ls * v
unfolding mul_small_inplace
value-mul_small_inplace [] v h hv = omega arith
value-mul_small_inplace (l ∷ ls) v h hv =
    ground (arith, value-mul_small_loop (l ∷ ls) v 0 h hv (omega arith))

pub mul_small_inplace-IsLimbs :
    (ls : List ℕ) (v : ℕ) → IsLimbs ls → IsLimbs (mul_small_inplace ls v)
unfolding mul_small_inplace
mul_small_inplace-IsLimbs [] v h = tt
mul_small_inplace-IsLimbs (l ∷ ls) v h = ground (arith, mul_small_loop-IsLimbs (l ∷ ls) v 0)

value-carry_row :
    (out : List ℕ) (carry : ℕ)
    → IsLimbs out
    → carry < limb_base
    → value (carry_row out carry) ≡ value out + carry
unfolding carry_row
value-carry_row [] carry h hc = omega (arith, value-push_limbs 4 carry (omega arith))
value-carry_row (o ∷ out) carry h hc =
    ground (arith, h.0, value-carry_row out (u64 (o + carry) / limb_base) h.1 (omega (arith, h.0)))

carry_row-IsLimbs : (out : List ℕ) (carry : ℕ) → IsLimbs out → IsLimbs (carry_row out carry)
unfolding carry_row
carry_row-IsLimbs [] carry h = push_limbs-IsLimbs 4 carry
carry_row-IsLimbs (o ∷ out) carry h =
    ground (arith, carry_row-IsLimbs out (u64 (o + carry) / limb_base) h.1)

carry_row-length : (out : List ℕ) (carry : ℕ) → length out ≤ length (carry_row out carry)
unfolding carry_row
carry_row-length [] carry = omega arith
carry_row-length (o ∷ out) carry =
    ground (arith, carry_row-length out (u64 (o + carry) / limb_base))

-- One limb product and what is there already, with a carry of one limb, fits 32 bits.
row_step :
    (o x y carry : ℕ)
    → o < limb_base
    → x < limb_base
    → y < limb_base
    → carry < limb_base
    → (u64 (o + x * y + carry) ≡ o + x * y + carry) × ((o + x * y + carry) / limb_base < limb_base)
row_step o x y carry ho hx hy hc =
    let p = product-le x y 65535 65535 (omega arith) (omega arith) in omega (arith, p)

value-multiply_row :
    (x : ℕ) (b out : List ℕ) (carry : ℕ)
    → x < limb_base
    → IsLimbs b
    → IsLimbs out
    → carry < limb_base
    → length b ≤ length out
    → value (multiply_row x b out carry) ≡ value out + x * value b + carry
unfolding multiply_row
value-multiply_row x [] out carry hx hb ho hc fits = omega (arith, value-carry_row out carry ho hc)
value-multiply_row x (y ∷ b) [] carry hx hb ho hc fits = absurd (omega arith)
value-multiply_row x (y ∷ b) (o ∷ out) carry hx hb ho hc fits =
    let s = row_step o x y carry ho.0 hx hb.0 hc in
    rw s.0 (
      omega (
        arith,
        value-multiply_row x b out ((o + x * y + carry) / limb_base) hx hb.1 ho.1 s.1 (omega arith),
      ))

multiply_row-IsLimbs :
    (x : ℕ) (b out : List ℕ) (carry : ℕ) → IsLimbs out → IsLimbs (multiply_row x b out carry)
unfolding multiply_row
multiply_row-IsLimbs x [] out carry ho = carry_row-IsLimbs out carry ho
multiply_row-IsLimbs x (y ∷ b) [] carry ho = tt
multiply_row-IsLimbs x (y ∷ b) (o ∷ out) carry ho =
    (omega arith, multiply_row-IsLimbs x b out (u64 (o + x * y + carry) / limb_base) ho.1)

multiply_row-length :
    (x : ℕ) (b out : List ℕ) (carry : ℕ)
    → length b ≤ length out
    → length out ≤ length (multiply_row x b out carry)
unfolding multiply_row
multiply_row-length x [] out carry h = carry_row-length out carry
multiply_row-length x (y ∷ b) [] carry h = absurd (omega arith)
multiply_row-length x (y ∷ b) (o ∷ out) carry h =
    omega (arith, multiply_row-length x b out (u64 (o + x * y + carry) / limb_base) (omega arith))

-- The rows over `a` add `a * b` to what `out` holds.
value-keep_first :
    (f : List ℕ → List ℕ) (out : List ℕ) (add room : ℕ)
    → ((tail : List ℕ) → IsLimbs tail → room ≤ length tail → value (f tail) ≡ value tail + add)
    → IsLimbs out
    → suc room ≤ length out
    → value (keep_first f out) ≡ value out + limb_base * add
unfolding keep_first
value-keep_first f [] add room h hl fits = absurd (omega arith)
value-keep_first f (o ∷ out) add room h hl fits = omega (arith, h out hl.1 (omega arith))

value-multiply_rows :
    (a b out : List ℕ)
    → IsLimbs a
    → IsLimbs b
    → IsLimbs out
    → length a + length b ≤ length out
    → value (multiply_rows a b out) ≡ value out + value a * value b
unfolding multiply_rows
value-multiply_rows [] b out ha hb ho fits = omega arith
value-multiply_rows (x ∷ a) b out ha hb ho fits = omega (
  arith,
  value-multiply_row x b out 0 ha.0 hb ho (omega arith) (omega arith),
  value-keep_first (multiply_rows a b) (multiply_row x b out 0) (value a * value b)
      (length a + length b) (λ tail ht fit. value-multiply_rows a b tail ha.1 hb ht fit)
      (multiply_row-IsLimbs x b out 0 ho)
      (omega (arith, multiply_row-length x b out 0 (omega arith))),
)

keep_first-IsLimbs :
    (f : List ℕ → List ℕ) (out : List ℕ)
    → ((tail : List ℕ) → IsLimbs tail → IsLimbs (f tail))
    → IsLimbs out
    → IsLimbs (keep_first f out)
unfolding keep_first
keep_first-IsLimbs f [] h ho = h [] tt
keep_first-IsLimbs f (o ∷ out) h ho = (ho.0, h out ho.1)

multiply_rows-IsLimbs : (a b out : List ℕ) → IsLimbs out → IsLimbs (multiply_rows a b out)
unfolding multiply_rows
multiply_rows-IsLimbs [] b out ho = ho
multiply_rows-IsLimbs (x ∷ a) b out ho =
    keep_first-IsLimbs (multiply_rows a b) (multiply_row x b out 0) (multiply_rows-IsLimbs a b)
      (multiply_row-IsLimbs x b out 0 ho)

value-replicate_zero : (n : ℕ) → value (replicate n 0) ≡ 0
value-replicate_zero zero = refl
value-replicate_zero (suc n) = omega (arith, value-replicate_zero n)

replicate_zero-IsLimbs : (n : ℕ) → IsLimbs (replicate n 0)
replicate_zero-IsLimbs zero = tt
replicate_zero-IsLimbs (suc n) = (omega arith, replicate_zero-IsLimbs n)

pub value-mul_abs_limbs :
    (a b : List ℕ) → IsLimbs a → IsLimbs b → value (mul_abs_limbs a b) ≡ value a * value b
unfolding mul_abs_limbs
value-mul_abs_limbs [] b ha hb = omega arith
value-mul_abs_limbs (x ∷ a) [] ha hb = omega arith
value-mul_abs_limbs (x ∷ a) (y ∷ b) ha hb =
    let n = length (x ∷ a) + length (y ∷ b) in
    value-normalize_limbs (multiply_rows (x ∷ a) (y ∷ b) (replicate n 0))
    ∙ omega (
      arith,
      value-replicate_zero n,
      value-multiply_rows (x ∷ a) (y ∷ b) (replicate n 0) ha hb (replicate_zero-IsLimbs n)
          (omega (arith, length-replicate {A = ℕ} n 0)),
    )

pub mul_abs_limbs-IsMagnitude : (a b : List ℕ) → IsMagnitude (mul_abs_limbs a b)
unfolding mul_abs_limbs
mul_abs_limbs-IsMagnitude [] b = record { limbs = tt; normal = tt }
mul_abs_limbs-IsMagnitude (x ∷ a) [] = record { limbs = tt; normal = tt }
mul_abs_limbs-IsMagnitude (x ∷ a) (y ∷ b) =
    normalize_limbs-IsMagnitude _
      (multiply_rows-IsLimbs (x ∷ a) (y ∷ b) _ (replicate_zero-IsLimbs _))
