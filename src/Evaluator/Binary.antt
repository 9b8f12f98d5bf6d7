-- ===== src/Evaluator/Binary.antt =====
-- frontend/src/transform/evaluator_binary.cpp: `CompileTimeEvaluator::eval_binary`, and `to_float` of
-- evaluator.cpp. The operands' evaluations are arguments, each an `Attempt` or a thrown error; what they do
-- to the evaluator's own state is not here. double arithmetic is a record of operations.
use vexel_lang.Evaluator.{
  Primitive, fixed_any_meta, fixed_native_meta, is_fixed_primitive_type, wrap_raw,
}
use vexel_lang.Evaluator.Operators.{
  Attempt, Op, add_op, div_op, eq_op, failed, fixed_op, ge_op, give_test, given, gt_op, integer_op,
  integer_unsigned_hint, is_integer_like, le_op, logical_and, logical_or, lt_op, mul_op, ne_op,
  other_op, string_op, sub_op, with_exact,
}
use vexel_lang.CteValue.{
  CtValue, boolean, cte_scalar_to_bool, ctvalue_to_exact_int, double, exact_int, int64, string,
  uint64,
}
use vexel_lang.Base.{
  Bool, List, Option, [], false, if◌then◌else◌, none, not, some, true, ℕ, ◌&&◌, ◌||◌, ◌∷◌,
}
use vexel_lang.Base.Int.{ℤ}
use vexel_lang.Error.{
  Result, cannot_convert_value_to_float, division_by_zero, err, no_location, ok, throw,
  unsupported_binary_operator, unsupported_fixed_point_operator, unsupported_fixed_point_type,
  unsupported_operands, unsupported_operands_for_fixed_point,
  unsupported_operands_for_logical_operation, ◌>>=◌,
}
use vexel_lang.ApInt.{ApInt}
use vexel_lang.Limbs.{limb_base}

pub record FloatOps (F : Type 0) : Type 0 where
  pub of_i64 : ℤ → F
  pub of_u64 : ℕ → F
  pub add_f : F → F → F
  pub sub_f : F → F → F
  pub mul_f : F → F → F
  pub div_f : F → F → F
  pub neg_f : F → F
  pub eq_f : F → F → Bool
  pub lt_f : F → F → Bool
  pub le_f : F → F → Bool

module _ {F : Type 0} (floats : FloatOps F) where
  abbrev pub is_nonzero : F → Bool
  is_nonzero x = not (floats.eq_f x (floats.of_u64 0))

  -- `APInt::to_double`, from the limb at the back on.
  unfoldable pub limbs_to_double : List ℕ → F
  limbs_to_double [] = floats.of_u64 0
  limbs_to_double (l ∷ ls) =
      floats.add_f (floats.mul_f (limbs_to_double ls) (floats.of_u64 limb_base)) (floats.of_u64 l)

  unfoldable pub to_double : ApInt → F
  to_double a =
      if a.negative then floats.neg_f (limbs_to_double a.limbs) else limbs_to_double a.limbs

  unfoldable pub to_float : CtValue F → Result F
  to_float (double x) = ok x
  to_float (int64 z) = ok (floats.of_i64 z)
  to_float (uint64 n) = ok (floats.of_u64 n)
  to_float (exact_int e) = ok (to_double e.value)
  to_float (boolean b) = ok (floats.of_u64 (if b then 1 else 0))
  to_float v = throw cannot_convert_value_to_float no_location

  abbrev pub give_float : F → Result (Attempt (CtValue F))
  give_float x = ok (given (double x))

  unfoldable pub eval_float : Op → F → F → Result (Attempt (CtValue F))
  eval_float add_op l r = give_float (floats.add_f l r)
  eval_float sub_op l r = give_float (floats.sub_f l r)
  eval_float mul_op l r = give_float (floats.mul_f l r)
  eval_float div_op l r =
      if floats.eq_f r (floats.of_u64 0)
      then ok (failed division_by_zero)
      else give_float (floats.div_f l r)
  eval_float eq_op l r = give_test (floats.eq_f l r)
  eval_float ne_op l r = give_test (not (floats.eq_f l r))
  eval_float lt_op l r = give_test (floats.lt_f l r)
  eval_float le_op l r = give_test (floats.le_f l r)
  eval_float gt_op l r = give_test (floats.lt_f r l)
  eval_float ge_op l r = give_test (floats.le_f r l)
  eval_float op l r = ok (failed unsupported_binary_operator)

  abbrev pub is_double : CtValue F → Bool
  is_double (double x) = true
  is_double v = false

  -- Strings, then floats, for operands that are not both integers.
  unfoldable pub other_values : Op → CtValue F → CtValue F → Result (Attempt (CtValue F))
  other_values op (string l) (string r) = string_op op l r
  other_values op l r =
      if is_double l || is_double r
      then (to_float l >>= λ x. to_float r >>= λ y. eval_float op x y)
      else ok (failed unsupported_operands)

  unfoldable pub plain_values : Op → CtValue F → CtValue F → Result (Attempt (CtValue F))
  plain_values op l r =
      if is_integer_like l && is_integer_like r
      then with_exact unsupported_operands (ctvalue_to_exact_int l) (ctvalue_to_exact_int r)
          (λ a b. integer_op op a b (integer_unsigned_hint l || integer_unsigned_hint r))
      else other_values op l r

  -- Fixed-point types. An operator that the first block does not list comes to the second, which has
  -- nothing for it.
  unfoldable pub fixed_values :
      Option Primitive → Op → CtValue F → CtValue F → Result (Attempt (CtValue F))
  fixed_values type other_op l r = elim (fixed_native_meta type) [
    | some meta ↦
        with_exact unsupported_operands_for_fixed_point (ctvalue_to_exact_int l)
          (ctvalue_to_exact_int r) (λ a b. ok (failed unsupported_fixed_point_operator))
    | none ↦ plain_values other_op l r
  ]
  fixed_values type op l r = elim (fixed_any_meta type) [
    | some meta ↦
        with_exact unsupported_operands_for_fixed_point (ctvalue_to_exact_int l)
          (ctvalue_to_exact_int r) (λ a b. fixed_op meta op (wrap_raw meta a) (wrap_raw meta b))
    | none ↦ ok (failed unsupported_fixed_point_type)
  ]

  unfoldable pub binary_values :
      Option Primitive → Op → CtValue F → CtValue F → Result (Attempt (CtValue F))
  binary_values type op l r =
      if is_fixed_primitive_type type then fixed_values type op l r else plain_values op l r

  abbrev pub to_boolean : Option Bool → Result (Attempt (CtValue F))
  to_boolean none = ok (failed unsupported_operands_for_logical_operation)
  to_boolean (some b) = ok (given (boolean b))

  abbrev pub when_given :
      Result (Attempt (CtValue F))
      → (CtValue F → Result (Attempt (CtValue F)))
      → Result (Attempt (CtValue F))
  when_given (ok (given v)) use_value = use_value v
  when_given (ok (failed message)) use_value = ok (failed message)
  when_given (err e) use_value = err e

  -- The left operand decides, or the right one does.
  unfoldable pub logical_op :
      Bool → Option Bool → Result (Attempt (CtValue F)) → Result (Attempt (CtValue F))
  logical_op decides none right = ok (failed unsupported_operands_for_logical_operation)
  logical_op true (some true) right = ok (given (boolean true))
  logical_op false (some false) right = ok (given (boolean false))
  logical_op true (some false) right =
      when_given right (λ r. to_boolean (cte_scalar_to_bool is_nonzero r))
  logical_op false (some true) right =
      when_given right (λ r. to_boolean (cte_scalar_to_bool is_nonzero r))

  unfoldable pub eval_binary :
      Option Primitive
      → Op
      → Result (Attempt (CtValue F))
      → Result (Attempt (CtValue F))
      → Result (Attempt (CtValue F))
  eval_binary type logical_and left right =
      when_given left (λ l. logical_op false (cte_scalar_to_bool is_nonzero l) right)
  eval_binary type logical_or left right =
      when_given left (λ l. logical_op true (cte_scalar_to_bool is_nonzero l) right)
  eval_binary type op left right =
      when_given left (λ l. when_given right (λ r. binary_values type op l r))
