-- ===== src/Limbs/Difference.antt =====
-- The borrow loops, on magnitudes.
use vexel_lang.Base.{ℕ, ◌+◌, ◌*◌, ◌≤◌, ◌<◌, List, [], ◌∷◌, ◌≡◌, arith}
use vexel_lang.Limbs.{
  limb_base, sub_abs_loop, sub_abs_inplace, sub_small_loop, sub_small_inplace, borrows, difference,
}
use vexel_lang.Limbs.Value.{value, IsLimbs, IsMagnitude}
use vexel_lang.Limbs.Normal.{value-normalize_limbs, normalize_limbs-IsMagnitude}

-- One limb: what is taken from the limb behind is the base.
difference_lem :
    (x y borrow : ℕ)
    → x < limb_base
    → y + borrow ≤ limb_base
    → (difference x y borrow + y + borrow ≡ x + limb_base * borrows x y borrow)
      × (difference x y borrow < limb_base)
      × (borrows x y borrow ≤ 1)
difference_lem x y borrow hx hy = ground arith

value-sub_abs_loop :
    (a b : List ℕ) (borrow : ℕ)
    → IsLimbs a
    → IsLimbs b
    → borrow ≤ 1
    → value b + borrow ≤ value a
    → value (sub_abs_loop a b borrow) + value b + borrow ≡ value a
unfolding sub_abs_loop
value-sub_abs_loop [] b borrow ha hb hw h = omega arith
value-sub_abs_loop (x ∷ a) [] borrow ha hb hw h =
    let d = difference_lem x 0 borrow ha.0 (omega arith) in
    omega
      (arith, d, value-sub_abs_loop a [] (borrows x 0 borrow) ha.1 tt d.2 (omega (arith, d, ha.0)))
value-sub_abs_loop (x ∷ a) (y ∷ b) borrow ha hb hw h =
    let d = difference_lem x y borrow ha.0 (omega (arith, hb.0)) in
    omega (
      arith,
      d,
      value-sub_abs_loop a b (borrows x y borrow) ha.1 hb.1 d.2 (omega (arith, d, ha.0, hb.0)),
    )

sub_abs_loop-IsLimbs :
    (a b : List ℕ) (borrow : ℕ)
    → IsLimbs a
    → IsLimbs b
    → borrow ≤ 1
    → IsLimbs (sub_abs_loop a b borrow)
unfolding sub_abs_loop
sub_abs_loop-IsLimbs [] b borrow ha hb hw = tt
sub_abs_loop-IsLimbs (x ∷ a) [] borrow ha hb hw =
    let d = difference_lem x 0 borrow ha.0 (omega arith) in
    (d.1, sub_abs_loop-IsLimbs a [] (borrows x 0 borrow) ha.1 tt d.2)
sub_abs_loop-IsLimbs (x ∷ a) (y ∷ b) borrow ha hb hw =
    let d = difference_lem x y borrow ha.0 (omega (arith, hb.0)) in
    (d.1, sub_abs_loop-IsLimbs a b (borrows x y borrow) ha.1 hb.1 d.2)

pub value-sub_abs_inplace :
    (a b : List ℕ)
    → IsLimbs a
    → IsLimbs b
    → value b ≤ value a
    → value (sub_abs_inplace a b) + value b ≡ value a
unfolding sub_abs_inplace
value-sub_abs_inplace a b ha hb h = omega (
  arith,
  value-normalize_limbs (sub_abs_loop a b 0),
  value-sub_abs_loop a b 0 ha hb (omega arith) (omega arith),
)

pub sub_abs_inplace-IsMagnitude :
    (a b : List ℕ) → IsLimbs a → IsLimbs b → IsMagnitude (sub_abs_inplace a b)
unfolding sub_abs_inplace
sub_abs_inplace-IsMagnitude a b ha hb =
    normalize_limbs-IsMagnitude _ (sub_abs_loop-IsLimbs a b 0 ha hb (omega arith))

value-sub_small_loop :
    (ls : List ℕ) (borrow : ℕ)
    → IsLimbs ls
    → borrow ≤ limb_base
    → borrow ≤ value ls
    → value (sub_small_loop ls borrow) + borrow ≡ value ls
unfolding sub_small_loop
value-sub_small_loop [] borrow h hw le = omega arith
value-sub_small_loop (l ∷ ls) borrow h hw le =
    let d = difference_lem l 0 borrow h.0 (omega arith) in
    ground (
      arith,
      d,
      value-sub_small_loop ls (borrows l 0 borrow) h.1 (omega (arith, d)) (omega (arith, d, h.0)),
    )

sub_small_loop-IsLimbs :
    (ls : List ℕ) (borrow : ℕ)
    → IsLimbs ls
    → borrow ≤ limb_base
    → IsLimbs (sub_small_loop ls borrow)
unfolding sub_small_loop
sub_small_loop-IsLimbs [] borrow h hw = tt
sub_small_loop-IsLimbs (l ∷ ls) borrow h hw =
    let d = difference_lem l 0 borrow h.0 (omega arith) in
    ground (arith, d, sub_small_loop-IsLimbs ls (borrows l 0 borrow) h.1 (omega (arith, d)))

pub value-sub_small_inplace :
    (ls : List ℕ) (v : ℕ)
    → IsLimbs ls
    → v ≤ limb_base
    → v ≤ value ls
    → value (sub_small_inplace ls v) + v ≡ value ls
unfolding sub_small_inplace
value-sub_small_inplace ls v h hv le =
    omega (arith, value-normalize_limbs (sub_small_loop ls v), value-sub_small_loop ls v h hv le)

pub sub_small_inplace-IsMagnitude :
    (ls : List ℕ) (v : ℕ) → IsLimbs ls → v ≤ limb_base → IsMagnitude (sub_small_inplace ls v)
unfolding sub_small_inplace
sub_small_inplace-IsMagnitude ls v h hv =
    normalize_limbs-IsMagnitude _ (sub_small_loop-IsLimbs ls v h hv)
