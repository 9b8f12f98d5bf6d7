-- ===== src/Limbs/Sum.antt =====
-- The loops with a carry and with a borrow, on the number that a vector stands for.
use native.Mathlib.Nat.{pow-suc}
use vexel_lang.Base.{ℕ, zero, suc, ◌+◌, ◌/◌, ◌^◌, ◌≤◌, ◌<◌, List, [], ◌∷◌, ◌≡◌, arith}
use vexel_lang.Limbs.{limb_base, push_limbs, add_small_inplace, add_abs_loop, add_abs_limbs}
use vexel_lang.Limbs.Value.{value, IsLimbs, IsMagnitude}
use vexel_lang.Limbs.Normal.{value-normalize_limbs, normalize_limbs-IsMagnitude}

pub value-push_limbs :
    (fuel carry : ℕ) → carry < limb_base ^ fuel → value (push_limbs fuel carry) ≡ carry
unfolding push_limbs
value-push_limbs zero carry h = omega arith
value-push_limbs (suc fuel) carry h =
    ground
      (arith, value-push_limbs fuel (carry / limb_base) (omega (arith, pow-suc limb_base fuel)))

pub push_limbs-IsLimbs : (fuel carry : ℕ) → IsLimbs (push_limbs fuel carry)
unfolding push_limbs
push_limbs-IsLimbs zero carry = tt
push_limbs-IsLimbs (suc fuel) carry = ground (arith, push_limbs-IsLimbs fuel (carry / limb_base))

pub value-add_small_inplace :
    (ls : List ℕ) (carry : ℕ)
    → IsLimbs ls
    → carry < 2 ^ 32
    → value (add_small_inplace ls carry) ≡ value ls + carry
unfolding add_small_inplace
value-add_small_inplace [] carry h hc = omega (arith, value-push_limbs 4 carry (omega arith))
value-add_small_inplace (l ∷ ls) carry h hc =
    ground (arith, value-add_small_inplace ls ((l + carry) / limb_base) h.1 (omega (arith, h.0)))

pub add_small_inplace-IsLimbs :
    (ls : List ℕ) (carry : ℕ) → IsLimbs ls → IsLimbs (add_small_inplace ls carry)
unfolding add_small_inplace
add_small_inplace-IsLimbs [] carry h = push_limbs-IsLimbs 4 carry
add_small_inplace-IsLimbs (l ∷ ls) carry h =
    ground (arith, add_small_inplace-IsLimbs ls ((l + carry) / limb_base) h.1)

value-add_abs_loop :
    (a b : List ℕ) (carry : ℕ) → value (add_abs_loop a b carry) ≡ value a + value b + carry
unfolding add_abs_loop
value-add_abs_loop [] [] carry = ground arith
value-add_abs_loop (x ∷ a) [] carry =
    omega (arith, value-add_abs_loop a [] ((carry + x) / limb_base))
value-add_abs_loop [] (y ∷ b) carry =
    omega (arith, value-add_abs_loop [] b ((carry + y) / limb_base))
value-add_abs_loop (x ∷ a) (y ∷ b) carry =
    omega (arith, value-add_abs_loop a b ((carry + x + y) / limb_base))

add_abs_loop-IsLimbs :
    (a b : List ℕ) (carry : ℕ)
    → IsLimbs a
    → IsLimbs b
    → carry ≤ 1
    → IsLimbs (add_abs_loop a b carry)
unfolding add_abs_loop
add_abs_loop-IsLimbs [] [] carry ha hb hc = ground arith
add_abs_loop-IsLimbs (x ∷ a) [] carry ha hb hc =
    (omega arith, add_abs_loop-IsLimbs a [] ((carry + x) / limb_base) ha.1 tt (omega (arith, ha.0)))
add_abs_loop-IsLimbs [] (y ∷ b) carry ha hb hc =
    (omega arith, add_abs_loop-IsLimbs [] b ((carry + y) / limb_base) tt hb.1 (omega (arith, hb.0)))
add_abs_loop-IsLimbs (x ∷ a) (y ∷ b) carry ha hb hc = (
  omega arith,
  add_abs_loop-IsLimbs a b ((carry + x + y) / limb_base) ha.1 hb.1 (omega (arith, ha.0, hb.0)),
)

pub value-add_abs_limbs : (a b : List ℕ) → value (add_abs_limbs a b) ≡ value a + value b
unfolding add_abs_limbs
value-add_abs_limbs a b =
    omega (arith, value-normalize_limbs (add_abs_loop a b 0), value-add_abs_loop a b 0)

pub add_abs_limbs-IsMagnitude :
    (a b : List ℕ) → IsLimbs a → IsLimbs b → IsMagnitude (add_abs_limbs a b)
unfolding add_abs_limbs
add_abs_limbs-IsMagnitude a b ha hb =
    normalize_limbs-IsMagnitude _ (add_abs_loop-IsLimbs a b 0 ha hb (omega arith))
