-- ===== src/Tests/Values.antt =====
-- Compile-time values and operators at concrete values: 70000 as an exact integer, -3 and 0 as int64_t.
use vexel_lang.Evaluator.{fixed_raw_mod, is_fixed_primitive_type, trunc_div_pow2}
use vexel_lang.Evaluator.Operators.{div_op, failed, given, lt_op, mod_op}
use vexel_lang.Evaluator.Binary.{FloatOps, eval_binary}
use vexel_lang.Evaluator.Integers.{GivesInteger, eval_binary-division, eval_binary-zero}
use vexel_lang.Evaluator.Comparisons.{below, eval_binary-comparison}
use vexel_lang.Evaluator.Scale.{fixed_raw_mod_lem, to_ℤ-trunc_div_pow2}
use vexel_lang.CteValue.{CtValue, ctvalue_to_i64_exact, exact_int, int64, uint64}
use vexel_lang.CteValue.Exact.{KeptAs, ctvalue_from_exact_int_lem, ctvalue_to_i64_exact_fits}
use vexel_lang.Base.{[], arith, false, none, refl, some, true, ◌+◌, ◌<◌, ◌∷◌, ◌≡◌}
use vexel_lang.Base.Int.{neg_part, negsuc, pos, pos_part, ℤ, ◌*ℤ◌, ◌+ℤ◌}
use vexel_lang.Error.{division_by_zero, modulo_by_zero, ok}
use vexel_lang.ApInt.{ApInt, remainder}
use vexel_lang.ApInt.Meaning.{IsApInt, to_ℤ}

abbrev F : Type 0
F = Unit {0}

abbrev no_floats : FloatOps F
no_floats = record {
  of_i64 = λ z. tt;
  of_u64 = λ n. tt;
  add_f = λ x y. tt;
  sub_f = λ x y. tt;
  mul_f = λ x y. tt;
  div_f = λ x y. tt;
  neg_f = λ x. tt;
  eq_f = λ x y. true;
  lt_f = λ x y. false;
  le_f = λ x y. true;
}

abbrev big : ApInt
big = record { negative = false; limbs = 4464 ∷ 1 ∷ [] }

big-IsApInt : IsApInt big
big-IsApInt = record {
  magnitude = record { limbs = (omega arith, (omega arith, tt)); normal = omega arith };
  sign = λ e. cc;
}

abbrev minus_three : ApInt
minus_three = record { negative = true; limbs = 3 ∷ [] }

minus_three-IsApInt : IsApInt minus_three
minus_three-IsApInt = record {
  magnitude = record { limbs = (omega arith, tt); normal = omega arith };
  sign = λ e. omega arith;
}

abbrev left : CtValue F
left = exact_int (record { value = big; is_unsigned = false })

abbrev right : CtValue F
right = int64 (negsuc 2)

plain-none : is_fixed_primitive_type none ≡ false
unfolding is_fixed_primitive_type
plain-none = refl

abbrev all_ones : CtValue F
all_ones = uint64 18446744073709551615

eval_binary-division_example :
    (q r : ℤ) × GivesInteger
      (eval_binary no_floats none div_op (ok (given left)) (ok (given right)))
      q
    × GivesInteger (eval_binary no_floats none mod_op (ok (given left)) (ok (given right))) r
    × (q *ℤ negsuc 2 +ℤ r ≡ pos 70000)
    × (pos_part r + neg_part r < 3)
eval_binary-division_example =
    eval_binary-division no_floats none left right (pos 70000) (negsuc 2) big-IsApInt (ground arith)
      refl refl plain-none (ground arith)

eval_binary-zero_example :
    (eval_binary no_floats none div_op (ok (given left)) (ok (given (int64 (pos 0))))
      ≡ ok (failed division_by_zero))
    × (eval_binary no_floats none mod_op (ok (given left)) (ok (given (int64 (pos 0))))
        ≡ ok (failed modulo_by_zero))
eval_binary-zero_example =
    eval_binary-zero no_floats none left (int64 (pos 0)) (pos 70000) (pos 0) big-IsApInt
      (ground arith) refl refl plain-none refl

to_ℤ-trunc_div_pow2_example :
    (to_ℤ (trunc_div_pow2 minus_three 1) ≡ negsuc 0) × IsApInt (trunc_div_pow2 minus_three 1)
to_ℤ-trunc_div_pow2_example = to_ℤ-trunc_div_pow2 minus_three 1 minus_three-IsApInt

fixed_raw_mod_lem_example :
    (r : ApInt) × (remainder big minus_three ≡ ok r)
    × (fixed_raw_mod big minus_three (pos 4) ≡ ok (some r))
fixed_raw_mod_lem_example =
    fixed_raw_mod_lem big minus_three (pos 4) big-IsApInt minus_three-IsApInt (ground arith)

ctvalue_from_exact_int_lem_example : (v : CtValue F) × KeptAs big true v
ctvalue_from_exact_int_lem_example = ctvalue_from_exact_int_lem big true big-IsApInt

ctvalue_to_i64_exact_fits_example : ctvalue_to_i64_exact left ≡ ok (some (pos 70000))
ctvalue_to_i64_exact_fits_example =
    ctvalue_to_i64_exact_fits left (pos 70000) big-IsApInt refl (ground arith)

eval_binary-comparison_example :
    eval_binary no_floats none lt_op (ok (given left)) (ok (given right))
    ≡ ok (given (int64 (pos 0)))
eval_binary-comparison_example =
    eval_binary-comparison no_floats none left right (pos 70000) (negsuc 2) big-IsApInt
      (ground arith) refl refl plain-none below
