-- ===== src/CteValue.antt =====
-- frontend/src/core/cte_value.h, cte_value.cpp and cte_value_utils.cpp: the values of the compile-time
-- evaluator. `F` stands for double. A std::shared_ptr is null or what it points at; that two values
-- share one object is not kept, and neither is the order of a std::unordered_map.
pub mod Exact
use vexel_lang.Base.{
  Bool, Option, false, if◌then◌else◌, ltb, none, not, some, true, ℕ, ◌-◌, ◌==◌, ◌^◌,
}
use vexel_lang.Base.Int.{negsuc, pos, ℤ}
use vexel_lang.Error.{Result, Text, ok, ◌>>=◌}
use vexel_lang.ApInt.{
  ApInt, as_i64, fits_i64, fits_u64, from_i64, from_u64, is_zero, to_i64, to_u64,
}

pub record CtExactInt : Type 0 where
  pub value : ApInt
  pub is_unsigned : Bool

mutual
  pub data CtValue (F : Type 0) : Type 0 where
    int64 : ℤ → CtValue F
    uint64 : ℕ → CtValue F
    exact_int : CtExactInt → CtValue F
    double : F → CtValue F
    boolean : Bool → CtValue F
    string : Text → CtValue F
    no_value : CtValue F
    uninitialized : CtValue F
    null_composite : CtValue F
    composite : Text → CtFields F → CtValue F
    null_array : CtValue F
    array : CtElements F → CtValue F

  pub data CtFields (F : Type 0) : Type 0 where
    no_fields : CtFields F
    field : Text → CtValue F → CtFields F → CtFields F

  pub data CtElements (F : Type 0) : Type 0 where
    no_elements : CtElements F
    element : CtValue F → CtElements F → CtElements F

module _ {F : Type 0} where
  unfoldable pub ctvalue_is_exact_int : CtValue F → Bool
  ctvalue_is_exact_int (exact_int e) = true
  ctvalue_is_exact_int v = false

  unfoldable pub ctvalue_is_integer : CtValue F → Bool
  ctvalue_is_integer (int64 n) = true
  ctvalue_is_integer (uint64 n) = true
  ctvalue_is_integer (exact_int e) = true
  ctvalue_is_integer v = false

  -- The two out parameters, where the function returns true.
  unfoldable pub ctvalue_to_exact_int : CtValue F → Option CtExactInt
  ctvalue_to_exact_int (int64 n) = some (record { value = from_i64 n; is_unsigned = false })
  ctvalue_to_exact_int (uint64 n) = some (record { value = from_u64 n; is_unsigned = true })
  ctvalue_to_exact_int (exact_int e) = some e
  ctvalue_to_exact_int (boolean b) =
      some (record { value = from_u64 (if b then 1 else 0); is_unsigned = true })
  ctvalue_to_exact_int v = none

  unfoldable pub ctvalue_from_exact_int : ApInt → Bool → Result (CtValue F)
  ctvalue_from_exact_int value true =
      if fits_u64 value
      then (to_u64 value >>= λ n. ok (uint64 n))
      else ok (exact_int (record { value = value; is_unsigned = true }))
  ctvalue_from_exact_int value false =
      if fits_i64 value
      then (to_i64 value >>= λ n. ok (int64 n))
      else ok (exact_int (record { value = value; is_unsigned = false }))

  -- The out parameter, where the function returns true.
  unfoldable pub ctvalue_to_i64_exact : CtValue F → Result (Option ℤ)
  ctvalue_to_i64_exact (int64 n) = ok (some n)
  ctvalue_to_i64_exact (uint64 n) = ok (if ltb (2 ^ 63 - 1) n then none else some (as_i64 n))
  ctvalue_to_i64_exact (exact_int e) =
      if not (fits_i64 e.value) then ok none else (to_i64 e.value >>= λ n. ok (some n))
  ctvalue_to_i64_exact (boolean b) = ok (some (if b then pos 1 else pos 0))
  ctvalue_to_i64_exact v = ok none

  unfoldable pub ctvalue_to_u64_exact : CtValue F → Result (Option ℕ)
  ctvalue_to_u64_exact (uint64 n) = ok (some n)
  ctvalue_to_u64_exact (int64 (pos n)) = ok (some n)
  ctvalue_to_u64_exact (int64 (negsuc n)) = ok none
  ctvalue_to_u64_exact (exact_int e) =
      if not (fits_u64 e.value) then ok none else (to_u64 e.value >>= λ n. ok (some n))
  ctvalue_to_u64_exact (boolean b) = ok (some (if b then 1 else 0))
  ctvalue_to_u64_exact v = ok none

  -- `is_nonzero x` is `x != 0.0`.
  unfoldable pub cte_scalar_to_bool : (F → Bool) → CtValue F → Option Bool
  cte_scalar_to_bool is_nonzero (int64 (pos n)) = some (not (n == 0))
  cte_scalar_to_bool is_nonzero (int64 (negsuc n)) = some true
  cte_scalar_to_bool is_nonzero (uint64 n) = some (not (n == 0))
  cte_scalar_to_bool is_nonzero (exact_int e) = some (not (is_zero e.value))
  cte_scalar_to_bool is_nonzero (boolean b) = some b
  cte_scalar_to_bool is_nonzero (double x) = some (is_nonzero x)
  cte_scalar_to_bool is_nonzero v = none
