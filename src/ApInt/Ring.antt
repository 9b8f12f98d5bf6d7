-- ===== src/ApInt/Ring.antt =====
-- Sums, differences and products of the class, against those of the integers.
use Prim.Native.Nat.{Ordering}
use vexel_lang.Base.{
  ℕ, ◌+◌, ◌*◌, ◌≤◌, Bool, true, false, not, List, ◌≡◌, refl, sym, ap, ap₂, ◌∙◌, arith,
  if◌then◌else◌, Bool-cases, inl, inr,
}
use vexel_lang.Base.Int.{ℤ, pos, pos_part, neg_part, ◌+ℤ◌, ◌-ℤ◌, ◌*ℤ◌, int_laws}
use vexel_lang.Limbs.{
  compare_abs_limbs, add_abs_limbs, sub_abs_limbs, sub_abs_inplace, mul_abs_limbs,
}
use vexel_lang.Limbs.Value.{value, IsMagnitude}
use vexel_lang.Limbs.Sum.{value-add_abs_limbs, add_abs_limbs-IsMagnitude}
use vexel_lang.Limbs.Difference.{value-sub_abs_inplace, sub_abs_inplace-IsMagnitude}
use vexel_lang.Limbs.Product.{value-mul_abs_limbs, mul_abs_limbs-IsMagnitude}
use vexel_lang.Limbs.Order.{compare_abs_limbs_lem}
use vexel_lang.ApInt.{
  ApInt, from_parts, from_u64, same_sign, negate, add, subtract, multiply, complement,
}
use vexel_lang.ApInt.Meaning.{
  signed, to_ℤ, IsApInt, from_parts-IsApInt, to_ℤ-from_parts, to_ℤ-from_u64, from_u64-IsApInt,
}

signed-not : (s : Bool) (n : ℕ) → signed (not s) n ≡ pos 0 -ℤ signed s n
unfolding ◌-ℤ◌
signed-not s n = ground arith

pub signed-add : (s : Bool) (m n : ℕ) → signed s (m + n) ≡ signed s m +ℤ signed s n
unfolding ◌+ℤ◌
signed-add s m n = ground arith

-- Opposite signs: the larger magnitude less the smaller, with the sign of the larger.
signed-sub :
    (s t : Bool) (d m n : ℕ)
    → same_sign s t ≡ false
    → d + n ≡ m
    → signed s d ≡ signed s m +ℤ signed t n
unfolding ◌+ℤ◌
signed-sub s t d m n h e = ground arith

+ℤ_swap : (a b : ℤ) → a +ℤ b ≡ b +ℤ a
unfolding ◌+ℤ◌
+ℤ_swap a b = ground arith

signed_parts :
    (s : Bool) (n : ℕ)
    → (pos_part (signed s n) ≡ (if s then 0 else n))
      × (neg_part (signed s n) ≡ (if s then n else 0))
signed_parts s n = ground arith

pub signed-mul :
    (s t : Bool) (m n : ℕ) → signed (not (same_sign s t)) (m * n) ≡ signed s m *ℤ signed t n
unfolding ◌*ℤ◌
signed-mul s t m n = ground (arith, signed_parts s m, signed_parts t n)

pub to_ℤ-negate : (a : ApInt) → to_ℤ (negate a) ≡ pos 0 -ℤ to_ℤ a
unfolding negate
to_ℤ-negate a = to_ℤ-from_parts (not a.negative) a.limbs ∙ signed-not a.negative (value a.limbs)

pub negate-IsApInt : (a : ApInt) → IsApInt a → IsApInt (negate a)
unfolding negate
negate-IsApInt a h = from_parts-IsApInt (not a.negative) a.limbs h.magnitude.limbs

-- The difference of two magnitudes, with its sign.
apart :
    (s t : Bool) (a b : List ℕ)
    → IsMagnitude a
    → IsMagnitude b
    → same_sign s t ≡ false
    → value b ≤ value a
    → (to_ℤ (from_parts s (sub_abs_limbs a b)) ≡ signed s (value a) +ℤ signed t (value b))
      × IsApInt (from_parts s (sub_abs_limbs a b))
unfolding sub_abs_limbs
apart s t a b ma mb h le = (
  to_ℤ-from_parts s (sub_abs_inplace a b)
      ∙ signed-sub s t (value (sub_abs_inplace a b)) (value a) (value b) h
          (value-sub_abs_inplace a b ma.limbs mb.limbs le),
  from_parts-IsApInt s _ (sub_abs_inplace-IsMagnitude a b ma.limbs mb.limbs).limbs,
)

same_sign_comm : (s t : Bool) → same_sign s t ≡ same_sign t s
same_sign_comm s t = ground arith

cancels : (s t : Bool) (n : ℕ) → same_sign s t ≡ false → pos 0 ≡ signed s n +ℤ signed t n
unfolding ◌+ℤ◌
cancels s t n h = ground arith

module _ (a b : ApInt) (ha : IsApInt a) (hb : IsApInt b) where
  Sums : ApInt → Type 0
  Sums c = (to_ℤ c ≡ to_ℤ a +ℤ to_ℤ b) × IsApInt c

  add_apart :
      (c : Ordering)
      → compare_abs_limbs a.limbs b.limbs ≡ c
      → same_sign a.negative b.negative ≡ false
      → Sums (add a b)
  unfolding add Sums
  add_apart Ordering.eq e h =
      let order = sym (compare_abs_limbs_lem a.limbs b.limbs ha.magnitude hb.magnitude) ∙ e in
      let same : value a.limbs ≡ value b.limbs = ground (arith, order) in
      rw (add, h, e)
        (
          to_ℤ-from_u64 0 (omega arith)
              ∙ (cancels a.negative b.negative (value a.limbs) h
                  ∙ ap (λ (n : ℕ). to_ℤ a +ℤ signed b.negative n) same),
          from_u64-IsApInt 0 (omega arith),
        )
  add_apart Ordering.gt e h =
      let order = sym (compare_abs_limbs_lem a.limbs b.limbs ha.magnitude hb.magnitude) ∙ e in
      rw (add, h, e)
        (apart a.negative b.negative a.limbs b.limbs ha.magnitude hb.magnitude h
          (ground (arith, order)))
  add_apart Ordering.lt e h =
      let order = sym (compare_abs_limbs_lem a.limbs b.limbs ha.magnitude hb.magnitude) ∙ e in
      let turned = same_sign_comm b.negative a.negative ∙ h in
      let d =
        apart b.negative a.negative b.limbs a.limbs hb.magnitude ha.magnitude turned
          (ground (arith, order)) in
      rw (add, h, e) (d.0 ∙ +ℤ_swap (to_ℤ b) (to_ℤ a), d.1)

  add_together : same_sign a.negative b.negative ≡ true → Sums (add a b)
  unfolding add Sums
  add_together h =
      let signs : a.negative ≡ b.negative = ground (arith, h) in
      rw h (
        to_ℤ-from_parts a.negative (add_abs_limbs a.limbs b.limbs)
            ∙ (ap (signed a.negative) (value-add_abs_limbs a.limbs b.limbs)
                ∙ (signed-add a.negative (value a.limbs) (value b.limbs)
                    ∙ ap (λ (s : Bool). to_ℤ a +ℤ signed s (value b.limbs)) signs)),
        from_parts-IsApInt a.negative _
            (add_abs_limbs-IsMagnitude a.limbs b.limbs ha.magnitude.limbs hb.magnitude.limbs).limbs,
      )

  sums : Sums (add a b)
  sums = elim (Bool-cases (same_sign a.negative b.negative)) [
    | inl h ↦ add_together h
    | inr h ↦ add_apart (compare_abs_limbs a.limbs b.limbs) refl h
  ]

  -- For values of the class, the sum stands for the sum of the integers.
  pub to_ℤ-add : to_ℤ (add a b) ≡ to_ℤ a +ℤ to_ℤ b
  unfolding Sums
  to_ℤ-add = sums.0

  pub add-IsApInt : IsApInt (add a b)
  unfolding Sums
  add-IsApInt = sums.1

  -- For values of the class, the product stands for the product of the integers.
  pub to_ℤ-multiply : to_ℤ (multiply a b) ≡ to_ℤ a *ℤ to_ℤ b
  unfolding multiply
  to_ℤ-multiply =
      to_ℤ-from_parts (not (same_sign a.negative b.negative)) (mul_abs_limbs a.limbs b.limbs)
      ∙ (ap (signed (not (same_sign a.negative b.negative)))
            (value-mul_abs_limbs a.limbs b.limbs ha.magnitude.limbs hb.magnitude.limbs)
          ∙ signed-mul a.negative b.negative (value a.limbs) (value b.limbs))

pub multiply-IsApInt : (a b : ApInt) → IsApInt (multiply a b)
unfolding multiply
multiply-IsApInt a b = from_parts-IsApInt _ _ (mul_abs_limbs-IsMagnitude a.limbs b.limbs).limbs

add_negated : (x y : ℤ) → x +ℤ (pos 0 -ℤ y) ≡ x -ℤ y
add_negated x y = omega int_laws

-- For values of the class, the difference stands for the difference of the integers.
pub to_ℤ-subtract : (a b : ApInt) → IsApInt a → IsApInt b → to_ℤ (subtract a b) ≡ to_ℤ a -ℤ to_ℤ b
unfolding subtract
to_ℤ-subtract a b ha hb =
    to_ℤ-add a (negate b) ha (negate-IsApInt b hb)
    ∙ (ap (λ (y : ℤ). to_ℤ a +ℤ y) (to_ℤ-negate b) ∙ add_negated (to_ℤ a) (to_ℤ b))

pub subtract-IsApInt : (a b : ApInt) → IsApInt a → IsApInt b → IsApInt (subtract a b)
unfolding subtract
subtract-IsApInt a b ha hb = add-IsApInt a (negate b) ha (negate-IsApInt b hb)

-- For a value of the class, `~a` stands for -a - 1, the complement of every bit in two's complement.
pub to_ℤ-complement : (a : ApInt) → IsApInt a → to_ℤ (complement a) ≡ pos 0 -ℤ to_ℤ a -ℤ pos 1
unfolding complement
to_ℤ-complement a h =
    to_ℤ-subtract (negate a) (from_u64 1) (negate-IsApInt a h) (from_u64-IsApInt 1 (omega arith))
    ∙ ap₂ ◌-ℤ◌ (to_ℤ-negate a) (to_ℤ-from_u64 1 (omega arith))

pub complement-IsApInt : (a : ApInt) → IsApInt a → IsApInt (complement a)
unfolding complement
complement-IsApInt a h =
    subtract-IsApInt (negate a) (from_u64 1) (negate-IsApInt a h) (from_u64-IsApInt 1 (omega arith))
