-- ===== src/Limbs/Order.antt =====
-- `compare_abs_limbs`, and the order of the numbers that magnitudes stand for.
use Prim.Native.Nat.{compare, Ordering}
use vexel_lang.Base.{ℕ, ◌+◌, ◌*◌, ◌<◌, List, [], ◌∷◌, ◌≡◌, refl, arith, length}
use vexel_lang.Limbs.{limb_base, compare_abs_limbs, compare_from_back}
use vexel_lang.Limbs.Value.{value, IsLimbs, IsNormal, IsMagnitude}
use vexel_lang.Limbs.Normal.{value-pos, IsNormal-tail}

-- A shorter vector of limbs stands for less than a longer normal one.
value-lt_of_length :
    (a b : List ℕ) → IsLimbs a → IsNormal b → length a < length b → value a < value b
value-lt_of_length [] [] ha hb h = absurd (omega arith)
value-lt_of_length [] (y ∷ b) ha hb h = value-pos y b hb
value-lt_of_length (x ∷ a) [] ha hb h = absurd (omega arith)
value-lt_of_length (x ∷ a) (y ∷ b) ha hb h =
    omega (arith, ha.0, value-lt_of_length a b ha.1 (IsNormal-tail y b hb) (omega arith))

compare_head :
    (x y v w : ℕ)
    → x < limb_base
    → y < limb_base
    → elim (compare v w) [
      | Ordering.eq ↦ compare x y
      | Ordering.lt ↦ Ordering.lt
      | Ordering.gt ↦ Ordering.gt
    ]
      ≡ compare (x + limb_base * v) (y + limb_base * w)
compare_head x y v w hx hy = ground arith

compare_from_back_lem :
    (a b : List ℕ)
    → IsLimbs a
    → IsLimbs b
    → length a ≡ length b
    → compare_from_back a b ≡ compare (value a) (value b)
unfolding compare_from_back
compare_from_back_lem [] [] ha hb h = refl
compare_from_back_lem [] (y ∷ b) ha hb h = absurd (omega arith)
compare_from_back_lem (x ∷ a) [] ha hb h = absurd (omega arith)
compare_from_back_lem (x ∷ a) (y ∷ b) ha hb h =
    rw (compare_from_back_lem a b ha.1 hb.1 (omega arith))
      (compare_head x y (value a) (value b) ha.0 hb.0)

-- For magnitudes, `compare_abs_limbs` is the order of the numbers that they stand for.
pub compare_abs_limbs_lem :
    (a b : List ℕ)
    → IsMagnitude a
    → IsMagnitude b
    → compare_abs_limbs a b ≡ compare (value a) (value b)
unfolding compare_abs_limbs
compare_abs_limbs_lem a b ma mb = ground (
  arith,
  compare_from_back_lem a b ma.limbs mb.limbs,
  value-lt_of_length a b ma.limbs mb.normal,
  value-lt_of_length b a mb.limbs ma.normal,
)
