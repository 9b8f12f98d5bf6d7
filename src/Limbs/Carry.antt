-- ===== src/Limbs/Carry.antt =====
-- Adding a small number to a magnitude: what is pushed at the back.
use native.Mathlib.Nat.{pow-suc}
use vexel_lang.Base.{ℕ, zero, suc, ◌+◌, ◌/◌, ◌%◌, ◌^◌, ◌<◌, List, [], ◌∷◌, ◌≡◌, refl, arith}
use vexel_lang.Limbs.{limb_base, push_limbs, add_small_inplace}
use vexel_lang.Limbs.Value.{value, IsNormal, IsMagnitude}
use vexel_lang.Limbs.Normal.{value-pos, IsNormal-cons, IsMagnitude-tail}
use vexel_lang.Limbs.Sum.{
  value-push_limbs, push_limbs-IsLimbs, value-add_small_inplace, add_small_inplace-IsLimbs,
}

push_limbs-suc :
    (fuel carry : ℕ)
    → 0 < carry
    → push_limbs (suc fuel) carry ≡ carry % limb_base ∷ push_limbs fuel (carry / limb_base)
unfolding push_limbs
push_limbs-suc fuel carry h = ground arith

push_limbs-zero : (fuel : ℕ) → push_limbs fuel 0 ≡ []
unfolding push_limbs
push_limbs-zero zero = refl
push_limbs-zero (suc fuel) = refl

-- A limb in front of the pushed carry: normal as soon as the two are not both 0.
front-IsNormal :
    (fuel l carry : ℕ)
    → IsNormal (push_limbs fuel carry)
    → carry < limb_base ^ fuel
    → 0 < l + carry
    → IsNormal (l ∷ push_limbs fuel carry)
front-IsNormal fuel l zero h hc pos = rw (push_limbs-zero fuel) (omega arith)
front-IsNormal fuel l (suc c) h hc pos =
    IsNormal-cons l (push_limbs fuel (suc c)) h (omega (arith, value-push_limbs fuel (suc c) hc))

pub push_limbs-IsNormal :
    (fuel carry : ℕ) → carry < limb_base ^ fuel → IsNormal (push_limbs fuel carry)
push_limbs-IsNormal fuel zero h = rw (push_limbs-zero fuel) tt
push_limbs-IsNormal zero (suc c) h = absurd (omega arith)
push_limbs-IsNormal (suc fuel) (suc c) h =
    let below : suc c / limb_base < limb_base ^ fuel = omega (arith, pow-suc limb_base fuel) in
    rw (push_limbs-suc fuel (suc c) (omega arith)) (
      front-IsNormal fuel (suc c % limb_base) (suc c / limb_base)
        (push_limbs-IsNormal fuel (suc c / limb_base) below) below (omega arith))

pub push_limbs-IsMagnitude :
    (fuel carry : ℕ) → carry < limb_base ^ fuel → IsMagnitude (push_limbs fuel carry)
push_limbs-IsMagnitude fuel carry h = record {
  limbs = push_limbs-IsLimbs fuel carry;
  normal = push_limbs-IsNormal fuel carry h;
}

add_small_inplace-nil : (carry : ℕ) → add_small_inplace [] carry ≡ push_limbs 4 carry
unfolding add_small_inplace
add_small_inplace-nil carry = refl

add_small_inplace-zero : (ls : List ℕ) → add_small_inplace ls 0 ≡ ls
unfolding add_small_inplace push_limbs
add_small_inplace-zero [] = refl
add_small_inplace-zero (l ∷ ls) = refl

add_small_inplace-cons :
    (l : ℕ) (ls : List ℕ) (carry : ℕ)
    → 0 < carry
    → add_small_inplace (l ∷ ls) carry
      ≡ (l + carry) % limb_base ∷ add_small_inplace ls ((l + carry) / limb_base)
unfolding add_small_inplace
add_small_inplace-cons l ls carry h = ground arith

add_small_inplace-IsNormal :
    (ls : List ℕ) (carry : ℕ)
    → IsMagnitude ls
    → carry < 2 ^ 32
    → IsNormal (add_small_inplace ls carry)
add_small_inplace-IsNormal [] carry m hc =
    rw (add_small_inplace-nil carry) (push_limbs-IsNormal 4 carry (omega arith))
add_small_inplace-IsNormal (l ∷ ls) zero m hc = rw (add_small_inplace-zero (l ∷ ls)) m.normal
add_small_inplace-IsNormal (l ∷ []) (suc c) m hc =
    rw
      (
        add_small_inplace-cons l [] (suc c) (omega arith),
        add_small_inplace-nil ((l + suc c) / limb_base),
      )
      (front-IsNormal 4 ((l + suc c) % limb_base) ((l + suc c) / limb_base)
        (push_limbs-IsNormal 4 ((l + suc c) / limb_base) (omega (arith, m.limbs.0)))
        (omega (arith, m.limbs.0)) (omega arith))
add_small_inplace-IsNormal (l ∷ h ∷ t) (suc c) m hc =
    let carry = (l + suc c) / limb_base in
    let below : carry < 2 ^ 32 = omega (arith, m.limbs.0) in
    let rest = add_small_inplace-IsNormal (h ∷ t) carry (IsMagnitude-tail m) below in
    let pos : 0 < value (add_small_inplace (h ∷ t) carry) =
      omega
        (arith, value-add_small_inplace (h ∷ t) carry m.limbs.1 below, value-pos h t m.normal) in
    rw (add_small_inplace-cons l (h ∷ t) (suc c) (omega arith))
      (IsNormal-cons ((l + suc c) % limb_base) (add_small_inplace (h ∷ t) carry) rest pos)

pub add_small_inplace-IsMagnitude :
    (ls : List ℕ) (carry : ℕ)
    → IsMagnitude ls
    → carry < 2 ^ 32
    → IsMagnitude (add_small_inplace ls carry)
add_small_inplace-IsMagnitude ls carry m hc = record {
  limbs = add_small_inplace-IsLimbs ls carry m.limbs;
  normal = add_small_inplace-IsNormal ls carry m hc;
}
