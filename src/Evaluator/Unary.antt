-- ===== src/Evaluator/Unary.antt =====
-- frontend/src/transform/evaluator.cpp: `CompileTimeEvaluator::eval_unary`, on the result of its operand's
-- evaluation.
use vexel_lang.Evaluator.{FixedMeta, Primitive, fixed_any_meta, wrap_raw}
use vexel_lang.Evaluator.Operators.{Attempt, failed, give, given}
use vexel_lang.Evaluator.Binary.{FloatOps, is_nonzero, when_given}
use vexel_lang.CteValue.{
  CtExactInt, CtValue, boolean, ctvalue_is_integer, ctvalue_to_exact_int, double,
}
use vexel_lang.Base.{Bool, Option, false, if◌then◌else◌, none, not, some, true, ◌==◌, ◌||◌}
use vexel_lang.Base.Int.{negsuc, pos, ℤ}
use vexel_lang.Error.{
  Message, Result, fixed_point_bitwise_not, ok, unsupported_operand_for_bitwise_not,
  unsupported_operand_for_fixed_point, unsupported_unary_operand, unsupported_unary_operator,
}
use vexel_lang.ApInt.{ApInt, complement, is_zero, negate}

-- `expr->op`, by the spellings that the code tests.
pub data UnaryOp : Type 0 where
  minus_op complement_op not_op other_unary : UnaryOp

abbrev pub is_zero_ℤ : ℤ → Bool
is_zero_ℤ (pos n) = n == 0
is_zero_ℤ (negsuc n) = false

module _ {F : Type 0} (floats : FloatOps F) where
  unfoldable pub integer_unary : UnaryOp → CtExactInt → Result (Attempt (CtValue F))
  integer_unary minus_op e = give (negate e.value) false
  integer_unary not_op e = ok (given (boolean (is_zero e.value)))
  integer_unary op e = ok (failed unsupported_unary_operator)

  -- The test of the integer alternatives, then double and bool.
  unfoldable pub other_unary_values : UnaryOp → CtValue F → Result (Attempt (CtValue F))
  other_unary_values minus_op (double v) = ok (given (double (floats.neg_f v)))
  other_unary_values not_op (double v) = ok (given (boolean (not (is_nonzero floats v))))
  other_unary_values op (double v) = ok (failed unsupported_unary_operator)
  other_unary_values not_op (boolean v) = ok (given (boolean (not v)))
  other_unary_values op v = ok (failed unsupported_unary_operand)

  abbrev pub with_operand :
      Message
      → Option CtExactInt
      → (CtExactInt → Result (Attempt (CtValue F)))
      → Result (Attempt (CtValue F))
  with_operand message none use_value = ok (failed message)
  with_operand message (some e) use_value = use_value e

  unfoldable pub plain_unary : UnaryOp → CtValue F → Result (Attempt (CtValue F))
  plain_unary complement_op v =
      with_operand unsupported_operand_for_bitwise_not (ctvalue_to_exact_int v)
        (λ e. give (complement e.value) e.is_unsigned)
  plain_unary op v =
      if ctvalue_is_integer v
      then with_operand unsupported_unary_operand (ctvalue_to_exact_int v) (integer_unary op)
      else other_unary_values op v

  -- A fixed-point type, where `raw` was wrapped; an operator that has no case here goes on.
  unfoldable pub fixed_unary :
      FixedMeta → UnaryOp → ApInt → CtValue F → Result (Attempt (CtValue F))
  fixed_unary meta minus_op raw v = give (wrap_raw meta (negate raw)) (not meta.is_signed_raw)
  fixed_unary meta complement_op raw v =
      if meta.is_signed_raw || not (is_zero_ℤ meta.fractional_bits)
      then ok (failed fixed_point_bitwise_not)
      else give (wrap_raw meta (complement raw)) true
  fixed_unary meta not_op raw v = ok (given (boolean (is_zero raw)))
  fixed_unary meta other_unary raw v = plain_unary other_unary v

  unfoldable pub unary_value : Option Primitive → UnaryOp → CtValue F → Result (Attempt (CtValue F))
  unary_value type op v = elim (fixed_any_meta type) [
    | none ↦ plain_unary op v
    | some meta ↦
        with_operand unsupported_operand_for_fixed_point (ctvalue_to_exact_int v)
          (λ e. fixed_unary meta op (wrap_raw meta e.value) v)
  ]

  unfoldable pub eval_unary :
      Option Primitive → UnaryOp → Result (Attempt (CtValue F)) → Result (Attempt (CtValue F))
  eval_unary type op operand = when_given floats operand (unary_value type op)
