-- ===== src/Evaluator/Comparisons.antt =====
-- `eval_binary` on integers: comparisons.
use vexel_lang.Evaluator.{Primitive, is_fixed_primitive_type}
use vexel_lang.Evaluator.Operators.{
  Op, comparison, eq_op, ge_op, given, gt_op, integer_op, integer_unsigned_hint, le_op, lt_op,
  ne_op, of_bool,
}
use vexel_lang.Evaluator.Binary.{FloatOps, binary_values, eval_binary}
use vexel_lang.Evaluator.Integers.{on_integers}
use vexel_lang.CteValue.{CtValue, int64}
use vexel_lang.CteValue.Exact.{IsScalar, integer_of}
use vexel_lang.Base.{
  Bool, Bool-cases, Option, ap, ap₂, arith, false, inl, inr, not, refl, some, sym, true, ◌&&◌, ◌||◌,
  ◌∙◌, ◌≡◌,
}
use vexel_lang.Base.Int.{ltb_ℤ, ℤ}
use vexel_lang.Error.{ok}
use vexel_lang.ApInt.{ApInt, equal}
use vexel_lang.ApInt.Meaning.{IsApInt, to_ℤ}
use vexel_lang.ApInt.Order.{equal_iff, lt_lem}

pub data Comparison : Type 0 where
  equals differs below at_most above at_least : Comparison

abbrev pub comparison_of : Comparison → Op
comparison_of equals = eq_op
comparison_of differs = ne_op
comparison_of below = lt_op
comparison_of at_most = le_op
comparison_of above = gt_op
comparison_of at_least = ge_op

-- The order of the integers, as tests.
abbrev pub same_ℤ : ℤ → ℤ → Bool
same_ℤ m n = not (ltb_ℤ m n) && not (ltb_ℤ n m)

abbrev pub holds : Comparison → ℤ → ℤ → Bool
holds equals m n = same_ℤ m n
holds differs m n = not (same_ℤ m n)
holds below m n = ltb_ℤ m n
holds at_most m n = not (ltb_ℤ n m)
holds above m n = ltb_ℤ n m
holds at_least m n = not (ltb_ℤ m n)

same_refl : (m n : ℤ) → m ≡ n → same_ℤ m n ≡ true
same_refl m n e = rw e (itself n)
  where
    itself : (n : ℤ) → same_ℤ n n ≡ true
    itself n = ground arith

same_eq : (m n : ℤ) → same_ℤ m n ≡ true → m ≡ n
same_eq m n e = ground (arith, e)

equal-same : (a b : ApInt) → IsApInt a → IsApInt b → equal a b ≡ same_ℤ (to_ℤ a) (to_ℤ b)
equal-same a b ha hb = elim (Bool-cases (equal a b)) [
  | inl e ↦ e ∙ sym (same_refl (to_ℤ a) (to_ℤ b) ((equal_iff a b ha hb).0 e))
  | inr e ↦ elim (Bool-cases (same_ℤ (to_ℤ a) (to_ℤ b))) [
    | inl s ↦ absurd (clash ((equal_iff a b ha hb).1 (same_eq (to_ℤ a) (to_ℤ b) s)) e)
    | inr s ↦ e ∙ sym s
  ]
]
  where
    clash : {b : Bool} → b ≡ true → b ≡ false → ⊥
    clash p q = cc

module _ {F : Type 0} where
  integer_op-comparison :
      (k : Comparison) (l r : ApInt) (u : Bool)
      → IsApInt l
      → IsApInt r
      → integer_op {F = F} (comparison_of k) l r u
        ≡ ok (given (int64 (of_bool (holds k (to_ℤ l) (to_ℤ r)))))
  unfolding integer_op comparison
  integer_op-comparison equals l r u hl hr =
      ap (λ (b : Bool). ok (given (int64 (of_bool b)))) (equal-same l r hl hr)
  integer_op-comparison differs l r u hl hr =
      ap (λ (b : Bool). ok (given (int64 (of_bool (not b))))) (equal-same l r hl hr)
  integer_op-comparison below l r u hl hr =
      ap (λ (b : Bool). ok (given (int64 (of_bool b)))) (lt_lem l r hl hr)
  integer_op-comparison at_most l r u hl hr =
      ap (λ (b : Bool). ok (given (int64 (of_bool (not b))))) (lt_lem r l hr hl)
  integer_op-comparison above l r u hl hr =
      ap (λ (b : Bool). ok (given (int64 (of_bool b)))) (lt_lem r l hr hl)
  integer_op-comparison at_least l r u hl hr =
      ap (λ (b : Bool). ok (given (int64 (of_bool (not b))))) (lt_lem l r hl hr)

  module _ (floats : FloatOps F) (type : Option Primitive) (x y : CtValue F) (m n : ℤ)
      (hx : IsScalar x) (hy : IsScalar y) (ex : integer_of x ≡ some m) (ey : integer_of y ≡ some n)
      (plain : is_fixed_primitive_type type ≡ false) where
    -- For operands in the range of their types that stand for integers, and a type that is not fixed-point, each of
    -- the six comparisons gives the int64_t 1 where it holds of the integers, and 0 where it does not.
    pub eval_binary-comparison :
        (k : Comparison)
        → eval_binary floats type (comparison_of k) (ok (given x)) (ok (given y))
          ≡ ok (given (int64 (of_bool (holds k m n))))
    unfolding eval_binary
    eval_binary-comparison k =
        let (l, r, vl, vr, hl, hr, found) = on_integers floats type x y m n hx hy ex ey plain in
        step k
        ∙ (found (comparison_of k)
            ∙ (integer_op-comparison k l.value r.value
                  (integer_unsigned_hint x || integer_unsigned_hint y) hl hr
                ∙ ap₂ (λ (s t : ℤ). ok (given (int64 (of_bool (holds k s t))))) vl vr))
      where
        step :
            (k : Comparison)
            → eval_binary floats type (comparison_of k) (ok (given x)) (ok (given y))
              ≡ binary_values floats type (comparison_of k) x y
        step equals = refl
        step differs = refl
        step below = refl
        step at_most = refl
        step above = refl
        step at_least = refl
