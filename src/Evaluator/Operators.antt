-- ===== src/Evaluator/Operators.antt =====
-- frontend/src/transform/evaluator_binary.cpp: what `eval_binary` does for each operator on exact integers,
-- on raw fixed-point values and on strings.
use vexel_lang.Evaluator.{
  FixedMeta, fixed_raw_div, fixed_raw_mod, scale_by_pow2_trunc_zero, wrap_raw,
}
use vexel_lang.CteValue.{
  CtExactInt, CtValue, boolean, ctvalue_from_exact_int, ctvalue_is_integer, exact_int, int64,
  uint64,
}
use vexel_lang.Base.{
  Bool, Option, [], false, if◌then◌else◌, ltb, none, not, some, true, ℕ, ◌&&◌, ◌==◌, ◌||◌, ◌∷◌,
}
use vexel_lang.Base.Int.{pos, ℤ, ◌-ℤ◌}
use vexel_lang.Error.{
  Message, Result, Text, division_by_zero, modulo_by_zero, negative_shift_count, ok,
  shift_count_too_large, unsupported_binary_operator, unsupported_binary_operator_for_strings,
  unsupported_fixed_point_operator, ◌>>=◌,
}
use vexel_lang.ApInt.{
  ApInt, add, bitwise_and, bitwise_or, bitwise_xor, divide, equal, fits_u64, is_negative, is_zero,
  lt, multiply, remainder, shift_left, shift_right, subtract, to_u64,
}

-- `expr->op`, by the spellings that the code tests.
pub data Op : Type 0 where
  logical_and logical_or : Op
  add_op sub_op mul_op div_op mod_op : Op
  and_op or_op xor_op shl_op shr_op : Op
  eq_op ne_op lt_op le_op gt_op ge_op : Op
  other_op : Op

-- `false` with `error_msg`, or `true` with the result.
pub data Attempt (A : Type 0) : Type 0 where
  failed : Message → Attempt A
  given : A → Attempt A

-- The comparison of two exact integers that an operator asks for.
unfoldable pub comparison : Op → Option (ApInt → ApInt → Bool)
comparison eq_op = some equal
comparison ne_op = some (λ l r. not (equal l r))
comparison lt_op = some lt
comparison le_op = some (λ l r. not (lt r l))
comparison gt_op = some (λ l r. lt r l)
comparison ge_op = some (λ l r. not (lt l r))
comparison op = none

-- `(int64_t)(b)`.
abbrev pub of_bool : Bool → ℤ
of_bool true = pos 1
of_bool false = pos 0

-- std::string compares byte by byte.
unfoldable pub text_eq : Text → Text → Bool
text_eq [] [] = true
text_eq (x ∷ a) (y ∷ b) = x == y && text_eq a b
text_eq [] (y ∷ b) = false
text_eq (x ∷ a) [] = false

unfoldable pub text_lt : Text → Text → Bool
text_lt a [] = false
text_lt [] (y ∷ b) = true
text_lt (x ∷ a) (y ∷ b) = ltb x y || x == y && text_lt a b

module _ {F : Type 0} where
  -- `result = ctvalue_from_exact_int(value, is_unsigned); return true;`
  abbrev pub give : ApInt → Bool → Result (Attempt (CtValue F))
  give value is_unsigned = ctvalue_from_exact_int value is_unsigned >>= λ v. ok (given v)

  -- The count of a shift, which is not negative and fits a uint64_t.
  unfoldable pub with_shift :
      ApInt → (ℕ → Result (Attempt (CtValue F))) → Result (Attempt (CtValue F))
  with_shift r use_shift =
      if is_negative r
      then ok (failed negative_shift_count)
      else if not (fits_u64 r)
      then ok (failed shift_count_too_large)
      else (to_u64 r >>= use_shift)

  -- The operators on integers, from the test of `expr->op` on.
  unfoldable pub integer_op : Op → ApInt → ApInt → Bool → Result (Attempt (CtValue F))
  integer_op or_op l r use_unsigned = give (bitwise_or l r) use_unsigned
  integer_op and_op l r use_unsigned = give (bitwise_and l r) use_unsigned
  integer_op xor_op l r use_unsigned = give (bitwise_xor l r) use_unsigned
  integer_op shl_op l r use_unsigned =
      with_shift r (λ shift. give (shift_left l shift) use_unsigned)
  integer_op shr_op l r use_unsigned =
      with_shift r (λ shift. give (shift_right l shift) use_unsigned)
  integer_op add_op l r use_unsigned = give (add l r) use_unsigned
  integer_op sub_op l r use_unsigned = give (subtract l r) use_unsigned
  integer_op mul_op l r use_unsigned = give (multiply l r) use_unsigned
  integer_op div_op l r use_unsigned =
      if is_zero r then ok (failed division_by_zero) else (divide l r >>= λ q. give q use_unsigned)
  integer_op mod_op l r use_unsigned =
      if is_zero r then ok (failed modulo_by_zero) else (remainder l r >>= λ q. give q use_unsigned)
  integer_op op l r use_unsigned = elim (comparison op) [
    | some test ↦ ok (given (int64 (of_bool (test l r))))
    | none ↦ ok (failed unsupported_binary_operator)
  ]

  abbrev pub raw_result :
      Message → (ApInt → ApInt) → Bool → Option ApInt → Result (Attempt (CtValue F))
  raw_result message wrap is_unsigned none = ok (failed message)
  raw_result message wrap is_unsigned (some raw) = give (wrap raw) is_unsigned

  -- The operators on wrapped raw values of a fixed-point type.
  unfoldable pub fixed_op : FixedMeta → Op → ApInt → ApInt → Result (Attempt (CtValue F))
  fixed_op meta add_op l r = give (wrap_raw meta (add l r)) (not meta.is_signed_raw)
  fixed_op meta sub_op l r = give (wrap_raw meta (subtract l r)) (not meta.is_signed_raw)
  fixed_op meta mul_op l r =
      give (wrap_raw meta (scale_by_pow2_trunc_zero (multiply l r) (pos 0 -ℤ meta.fractional_bits)))
        (not meta.is_signed_raw)
  fixed_op meta div_op l r =
      if is_zero r
      then ok (failed division_by_zero)
      else (fixed_raw_div l r meta.fractional_bits
          >>= raw_result division_by_zero (wrap_raw meta) (not meta.is_signed_raw))
  fixed_op meta mod_op l r =
      if is_zero r
      then ok (failed modulo_by_zero)
      else (fixed_raw_mod l r meta.fractional_bits
          >>= raw_result modulo_by_zero (wrap_raw meta) (not meta.is_signed_raw))
  fixed_op meta and_op l r = give (wrap_raw meta (bitwise_and l r)) (not meta.is_signed_raw)
  fixed_op meta or_op l r = give (wrap_raw meta (bitwise_or l r)) (not meta.is_signed_raw)
  fixed_op meta xor_op l r = give (wrap_raw meta (bitwise_xor l r)) (not meta.is_signed_raw)
  fixed_op meta shl_op l r =
      with_shift r (λ shift. give (wrap_raw meta (shift_left l shift)) (not meta.is_signed_raw))
  fixed_op meta shr_op l r =
      with_shift r (λ shift. give (wrap_raw meta (shift_right l shift)) (not meta.is_signed_raw))
  fixed_op meta op l r = elim (comparison op) [
    | some test ↦ ok (given (int64 (of_bool (test l r))))
    | none ↦ ok (failed unsupported_fixed_point_operator)
  ]

  -- Both operands as exact integers, or the message.
  abbrev pub with_exact :
      Message
      → Option CtExactInt
      → Option CtExactInt
      → (ApInt → ApInt → Result (Attempt (CtValue F)))
      → Result (Attempt (CtValue F))
  with_exact message (some l) (some r) use_both = use_both l.value r.value
  with_exact message none r use_both = ok (failed message)
  with_exact message (some l) none use_both = ok (failed message)

  abbrev pub is_integer_like : CtValue F → Bool
  is_integer_like (boolean b) = true
  is_integer_like v = ctvalue_is_integer v

  abbrev pub integer_unsigned_hint : CtValue F → Bool
  integer_unsigned_hint (uint64 n) = true
  integer_unsigned_hint (exact_int e) = e.is_unsigned
  integer_unsigned_hint (boolean b) = true
  integer_unsigned_hint v = false

  abbrev pub give_test : Bool → Result (Attempt (CtValue F))
  give_test b = ok (given (int64 (of_bool b)))

  unfoldable pub string_op : Op → Text → Text → Result (Attempt (CtValue F))
  string_op eq_op l r = give_test (text_eq l r)
  string_op ne_op l r = give_test (not (text_eq l r))
  string_op lt_op l r = give_test (text_lt l r)
  string_op le_op l r = give_test (not (text_lt r l))
  string_op gt_op l r = give_test (text_lt r l)
  string_op ge_op l r = give_test (not (text_lt l r))
  string_op op l r = ok (failed unsupported_binary_operator_for_strings)
