-- ===== src/ApInt/Order.antt =====
-- The comparisons of the class, against those of the integers.
use Prim.Native.Nat.{compare, Ordering}
use vexel_lang.Base.{
  ℕ, ◌<◌, Bool, true, false, not, List, [], ◌∷◌, ◌≡◌, refl, sym, ap, arith, if◌then◌else◌, ◌↔◌,
}
use vexel_lang.Base.Int.{ltb_ℤ}
use vexel_lang.Limbs.{compare_abs_limbs}
use vexel_lang.Limbs.Value.{value}
use vexel_lang.Limbs.Order.{compare_abs_limbs_lem}
use vexel_lang.ApInt.{ApInt, lt, equal, same_sign, same_limbs}
use vexel_lang.ApInt.Meaning.{signed, to_ℤ, IsApInt, to_ℤ-injective}

-- The order of signed magnitudes, where a negative one is not 0.
signed_order :
    (s t : Bool) (m n : ℕ) (c : Ordering)
    → compare m n ≡ c
    → (s ≡ true → 0 < m)
    → (t ≡ true → 0 < n)
    → (if not (same_sign s t)
        then s
        else elim c [ Ordering.lt ↦ not s | Ordering.eq ↦ false | Ordering.gt ↦ s ])
      ≡ ltb_ℤ (signed s m) (signed t n)
signed_order false false m n c e hs ht = ground arith
signed_order false true m n c e hs ht = ground (arith, ht refl)
signed_order true false m n c e hs ht = ground (arith, hs refl)
signed_order true true m n c e hs ht = ground arith

-- For values of the class, `<` is the order of the integers that they stand for.
pub lt_lem : (a b : ApInt) → IsApInt a → IsApInt b → lt a b ≡ ltb_ℤ (to_ℤ a) (to_ℤ b)
unfolding lt
lt_lem a b ha hb =
    signed_order a.negative b.negative (value a.limbs) (value b.limbs)
      (compare_abs_limbs a.limbs b.limbs)
      (sym (compare_abs_limbs_lem a.limbs b.limbs ha.magnitude hb.magnitude)) ha.sign hb.sign

same_limbs_refl : (a : List ℕ) → same_limbs a a ≡ true
same_limbs_refl [] = refl
same_limbs_refl (x ∷ a) = ground (arith, same_limbs_refl a)

same_limbs_eq : (a b : List ℕ) → same_limbs a b ≡ true → a ≡ b
same_limbs_eq [] [] h = refl
same_limbs_eq [] (y ∷ b) h = cc
same_limbs_eq (x ∷ a) [] h = cc
same_limbs_eq (x ∷ a) (y ∷ b) h = ground (arith, same_limbs_eq a b)

equal_refl : (a : ApInt) → equal a a ≡ true
unfolding equal
equal_refl a = ground (arith, same_limbs_refl a.limbs)

equal_eq : (a b : ApInt) → equal a b ≡ true → a ≡ b
unfolding equal
equal_eq a b h =
    let signs : a.negative ≡ b.negative = ground arith in
    let limbs : a.limbs ≡ b.limbs = same_limbs_eq a.limbs b.limbs (ground arith) in
    λ i. record { negative = signs i; limbs = limbs i }

-- For values of the class, `==` holds exactly when the two stand for one integer.
pub equal_iff : (a b : ApInt) → IsApInt a → IsApInt b → (equal a b ≡ true) ↔ (to_ℤ a ≡ to_ℤ b)
equal_iff a b ha hb =
    (λ h. ap to_ℤ (equal_eq a b h), λ e. rw (to_ℤ-injective a b ha hb e) (equal_refl b))
