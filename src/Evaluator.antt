-- ===== src/Evaluator.antt =====
-- frontend/src/core/common.h, the primitive types, and frontend/src/transform/evaluator_binary.cpp,
-- exact fixed-point arithmetic on raw values.
pub mod Operators
pub mod Binary
pub mod Unary
pub mod Negation
pub mod Scale
pub mod Integers
pub mod Comparisons
use vexel_lang.Base.{
  Bool, Option, false, if◌then◌else◌, none, not, some, suc, true, zero, ℕ, ◌==◌, ◌||◌,
}
use vexel_lang.Base.Int.{negsuc, pos, ℤ, ◌+ℤ◌}
use vexel_lang.Error.{Result, ok, ◌>>=◌}
use vexel_lang.ApInt.{
  ApInt, as_i64, divide, is_negative, is_zero, multiply, negate, shift_left, shift_right, subtract,
  wrapped_signed, wrapped_unsigned,
}

pub data PrimitiveType : Type 0 where
  int_type uint_type fixed_int fixed_uint f16 f32 f64 bool_type string_type : PrimitiveType

abbrev pub is_signed_fixed : PrimitiveType → Bool
is_signed_fixed fixed_int = true
is_signed_fixed t = false

abbrev pub is_unsigned_fixed : PrimitiveType → Bool
is_unsigned_fixed fixed_uint = true
is_unsigned_fixed t = false

-- `Type` as far as the operators read it: a primitive, with its parameters.
pub record Primitive : Type 0 where
  pub primitive : PrimitiveType
  pub integer_bits : ℕ
  pub fractional_bits : ℤ

unfoldable pub type_bits : PrimitiveType → ℕ → ℤ → ℤ
type_bits int_type integer_bits fractional_bits = as_i64 integer_bits
type_bits uint_type integer_bits fractional_bits = as_i64 integer_bits
type_bits fixed_int integer_bits fractional_bits = as_i64 integer_bits +ℤ fractional_bits
type_bits fixed_uint integer_bits fractional_bits = as_i64 integer_bits +ℤ fractional_bits
type_bits bool_type integer_bits fractional_bits = pos 1
type_bits f16 integer_bits fractional_bits = pos 16
type_bits f32 integer_bits fractional_bits = pos 32
type_bits f64 integer_bits fractional_bits = pos 64
type_bits string_type integer_bits fractional_bits = negsuc 0

-- A null type and one of another kind are `none`.
unfoldable pub is_fixed_primitive_type : Option Primitive → Bool
is_fixed_primitive_type none = false
is_fixed_primitive_type (some t) = is_signed_fixed t.primitive || is_unsigned_fixed t.primitive

pub record FixedMeta : Type 0 where
  pub total_bits : ℕ
  pub is_signed_raw : Bool
  pub fractional_bits : ℤ

abbrev pub meta_of : ℤ → Primitive → Option FixedMeta
meta_of (negsuc n) t = none
meta_of (pos zero) t = none
meta_of (pos (suc n)) t = some (record {
  total_bits = suc n;
  is_signed_raw = is_signed_fixed t.primitive;
  fractional_bits = t.fractional_bits;
})

-- The out parameters, where the function returns true.
unfoldable pub fixed_any_meta : Option Primitive → Option FixedMeta
fixed_any_meta none = none
fixed_any_meta (some t) =
    if not (is_fixed_primitive_type (some t))
    then none
    else meta_of (type_bits t.primitive t.integer_bits t.fractional_bits) t

-- The storage widths.
unfoldable pub fixed_native_meta : Option Primitive → Option FixedMeta
fixed_native_meta type = elim (fixed_any_meta type) [
  | none ↦ none
  | some meta ↦
      if meta.total_bits == 8
        || meta.total_bits == 16
        || meta.total_bits == 32
        || meta.total_bits == 64
      then some meta
      else none
]

-- The lambda `wrap_raw` of `eval_binary`.
unfoldable pub wrap_raw : FixedMeta → ApInt → ApInt
wrap_raw meta raw =
    if meta.is_signed_raw
    then wrapped_signed raw meta.total_bits
    else wrapped_unsigned raw meta.total_bits

unfoldable pub trunc_div_pow2 : ApInt → ℕ → ApInt
trunc_div_pow2 value shift =
    if shift == 0
    then value
    else if is_negative value
    then negate (shift_right (negate value) shift)
    else shift_right value shift

unfoldable pub scale_by_pow2_trunc_zero : ApInt → ℤ → ApInt
scale_by_pow2_trunc_zero value (pos zero) = value
scale_by_pow2_trunc_zero value (pos (suc n)) = shift_left value (suc n)
scale_by_pow2_trunc_zero value (negsuc n) = trunc_div_pow2 value (suc n)

-- The out parameter, where the function returns true.
unfoldable pub fixed_raw_div : ApInt → ApInt → ℤ → Result (Option ApInt)
fixed_raw_div lhs rhs (pos n) =
    if is_zero rhs then ok none else (divide (shift_left lhs n) rhs >>= λ q. ok (some q))
fixed_raw_div lhs rhs (negsuc n) =
    let denom = shift_left rhs (suc n) in
    if is_zero rhs
    then ok none
    else if is_zero denom
    then ok none
    else (divide lhs denom >>= λ q. ok (some q))

unfoldable pub fixed_raw_mod : ApInt → ApInt → ℤ → Result (Option ApInt)
fixed_raw_mod lhs rhs frac_bits =
    if is_zero rhs
    then ok none
    else (divide lhs rhs >>= λ q. ok (some (subtract lhs (multiply q rhs))))
