-- ===== src/Evaluator/Integers.antt =====
-- `eval_binary` on integers: exact arithmetic on what the operands stand for.
use vexel_lang.Evaluator.{Primitive, is_fixed_primitive_type}
use vexel_lang.Evaluator.Operators.{
  Attempt, Op, add_op, div_op, failed, give, given, integer_op, integer_unsigned_hint,
  is_integer_like, mod_op, mul_op, sub_op,
}
use vexel_lang.Evaluator.Binary.{FloatOps, binary_values, eval_binary, plain_values}
use vexel_lang.CteValue.{
  CtExactInt, CtValue, boolean, ctvalue_from_exact_int, ctvalue_is_integer, ctvalue_to_exact_int,
  exact_int, int64, uint64,
}
use vexel_lang.CteValue.Exact.{IsScalar, integer_of}
use vexel_lang.Base.{
  Bool, Bool-cases, Option, ap, arith, false, inl, inr, refl, some, sym, true, ◌+◌, ◌<◌, ◌||◌, ◌∙◌,
  ◌≡◌, ◌≢◌,
}
use vexel_lang.Base.Int.{neg_part, pos, pos_part, ℤ, ◌*ℤ◌, ◌+ℤ◌, ◌-ℤ◌}
use vexel_lang.Error.{Result, division_by_zero, modulo_by_zero, ok}
use vexel_lang.ApInt.{ApInt, fits_i64, fits_u64, from_i64, from_u64, is_empty, is_zero}
use vexel_lang.ApInt.Meaning.{
  IsApInt, from_u64-IsApInt, is_empty_lem, is_empty_pos, to_ℤ, to_ℤ-from_u64,
}
use vexel_lang.ApInt.Width.{fits_i64_iff, fits_u64_iff}
use vexel_lang.ApInt.Machine.{from_i64_lem, to_i64_fits, to_u64_fits}
use vexel_lang.ApInt.Quotient.{divide_remainder}

-- The operators that have a result for every pair of integers, and what they compute.
pub data Arithmetic : Type 0 where
  adds subtracts multiplies : Arithmetic

abbrev pub operator_of : Arithmetic → Op
operator_of adds = add_op
operator_of subtracts = sub_op
operator_of multiplies = mul_op

abbrev pub computed : Arithmetic → ℤ → ℤ → ℤ
computed adds m n = m +ℤ n
computed subtracts m n = m -ℤ n
computed multiplies m n = m *ℤ n

module _ {F : Type 0} where
  -- The exact integer of a value that stands for one.
  pub exact_of :
      (v : CtValue F) (z : ℤ)
      → IsScalar v
      → integer_of v ≡ some z
      → (e : CtExactInt) × (ctvalue_to_exact_int v ≡ some e)
        × (to_ℤ e.value ≡ z)
        × IsApInt e.value
        × (is_integer_like v ≡ true)
  unfolding ctvalue_to_exact_int ctvalue_is_integer
  exact_of (int64 n) z h e =
      let (valid, v) = from_i64_lem n h in
      (record { value = from_i64 n; is_unsigned = false }, refl, v ∙ ground (arith, e), valid, refl)
  exact_of (uint64 n) z h e = (
    record { value = from_u64 n; is_unsigned = true },
    refl,
    to_ℤ-from_u64 n h ∙ ground (arith, e),
    from_u64-IsApInt n h,
    refl,
  )
  exact_of (exact_int x) z h e = (x, refl, ground (arith, e), h, refl)
  exact_of (boolean true) z h e = (
    record { value = from_u64 1; is_unsigned = true },
    refl,
    to_ℤ-from_u64 1 (omega arith) ∙ ground (arith, e),
    from_u64-IsApInt 1 (omega arith),
    refl,
  )
  exact_of (boolean false) z h e = (
    record { value = from_u64 0; is_unsigned = true },
    refl,
    to_ℤ-from_u64 0 (omega arith) ∙ ground (arith, e),
    from_u64-IsApInt 0 (omega arith),
    refl,
  )
  exact_of v z h e = absurd (ground arith)

  -- A value in range that stands for an integer, as the result.
  abbrev pub GivesInteger : Result (Attempt (CtValue F)) → ℤ → Type 0
  GivesInteger r z = (v : CtValue F) × (r ≡ ok (given v)) × (integer_of v ≡ some z) × IsScalar v

  pub gives : (a : ApInt) (u : Bool) (z : ℤ) → IsApInt a → to_ℤ a ≡ z → GivesInteger (give a u) z
  unfolding ctvalue_from_exact_int
  gives a true z h e = elim (Bool-cases (fits_u64 a)) [
    | inl f ↦
        let fits = (fits_u64_iff a h).0 f in
        (
          uint64 (pos_part (to_ℤ a)),
          rw (f, to_u64_fits a h fits) refl,
          ap some (positive (to_ℤ a) fits.1 ∙ e),
          fits.2,
        )
    | inr f ↦ (exact_int (record { value = a; is_unsigned = true }), rw f refl, ap some e, h)
  ]
    where
      positive : (z : ℤ) → neg_part z ≡ 0 → pos (pos_part z) ≡ z
      positive z e = ground arith
  gives a false z h e = elim (Bool-cases (fits_i64 a)) [
    | inl f ↦
        let fits = (fits_i64_iff a h).0 f in
        (int64 (to_ℤ a), rw (f, to_i64_fits a h fits) refl, ap some e, fits)
    | inr f ↦ (exact_int (record { value = a; is_unsigned = false }), rw f refl, ap some e, h)
  ]

  module _ (floats : FloatOps F) (type : Option Primitive) (x y : CtValue F) (m n : ℤ)
      (hx : IsScalar x) (hy : IsScalar y) (ex : integer_of x ≡ some m) (ey : integer_of y ≡ some n)
      (plain : is_fixed_primitive_type type ≡ false) where
    -- The operands as exact integers.
    pub on_integers :
        (l r : CtExactInt) × (to_ℤ l.value ≡ m)
        × (to_ℤ r.value ≡ n)
        × IsApInt l.value
        × IsApInt r.value
        × ((op : Op)
            → binary_values floats type op x y
              ≡ integer_op op l.value r.value (integer_unsigned_hint x || integer_unsigned_hint y))
    unfolding binary_values plain_values
    on_integers =
        let (l, found_l, vl, hl, like_l) = exact_of x m hx ex in
        let (r, found_r, vr, hr, like_r) = exact_of y n hy ey in
        (l, r, vl, vr, hl, hr, λ op. rw (plain, like_l, like_r, found_l, found_r) refl)

    -- For such operands and a type that is not fixed-point, a right operand that stands for 0 makes `/` and `%` fail,
    -- each with its message.
    pub eval_binary-zero :
        n ≡ pos 0
        → (eval_binary floats type div_op (ok (given x)) (ok (given y))
            ≡ ok (failed division_by_zero))
          × (eval_binary floats type mod_op (ok (given x)) (ok (given y))
              ≡ ok (failed modulo_by_zero))
    unfolding eval_binary integer_op is_zero
    eval_binary-zero z =
        let (l, r, vl, vr, hl, hr, found) = on_integers in
        let empty : is_empty r.value.limbs ≡ true =
          is_empty_lem r.value.limbs hr.magnitude ∙ ground (arith, vr, z, hr.sign) in
        (found div_op ∙ rw empty refl, found mod_op ∙ rw empty refl)

    -- For such operands, a type that is not fixed-point and a right operand that does not stand for 0, `/` and `%`
    -- give integers whose quotient times the right operand plus the remainder is the left operand.
    pub eval_binary-division :
        n ≢ pos 0
        → (q r : ℤ) × GivesInteger (eval_binary floats type div_op (ok (given x)) (ok (given y))) q
          × GivesInteger (eval_binary floats type mod_op (ok (given x)) (ok (given y))) r
          × (q *ℤ n +ℤ r ≡ m)
          × (pos_part r + neg_part r < pos_part n + neg_part n)
    unfolding eval_binary integer_op is_zero
    eval_binary-division nz =
        let u = integer_unsigned_hint x || integer_unsigned_hint y in
        let (l, r, vl, vr, hl, hr, found) = on_integers in
        let other : to_ℤ r.value ≢ pos 0 = λ z. nz (sym vr ∙ z) in
        let (q, s, found_q, found_s, t) = divide_remainder l.value r.value hl hr other in
        let full : is_empty r.value.limbs ≡ false =
          is_empty_pos r.value.limbs (ground (arith, other)) in
        let (v, ev, zv, hv) = gives q u (to_ℤ q) t.quotient_valid refl in
        let (w, ew, zw, hw) = gives s u (to_ℤ s) t.remainder_valid refl in
        (
          to_ℤ q,
          to_ℤ s,
          (v, found div_op ∙ rw (full, found_q) ev, zv, hv),
          (w, found mod_op ∙ rw (full, found_s) ew, zw, hw),
          ap (λ (t : ℤ). to_ℤ q *ℤ t +ℤ to_ℤ s) (sym vr) ∙ (t.divided ∙ vl),
          ground (arith, t.below, vr),
        )
