-- ===== src/CteValue/Exact.antt =====
-- The integer that a value stands for, and the conversions between the two.
use vexel_lang.CteValue.{
  CtValue, boolean, cte_scalar_to_bool, ctvalue_from_exact_int, ctvalue_to_exact_int,
  ctvalue_to_i64_exact, exact_int, int64, uint64,
}
use vexel_lang.Base.{
  Bool, Bool-cases, Option, ap, arith, false, if◌then◌else◌, inl, inr, none, not, refl, some, true,
  ◌<◌, ◌==◌, ◌^◌, ◌↔◌, ◌∙◌, ◌≡◌,
}
use vexel_lang.Base.Int.{neg_part, negsuc, pos, pos_part, ℤ}
use vexel_lang.Error.{ok}
use vexel_lang.ApInt.{ApInt, fits_i64, fits_u64, from_i64, from_u64, is_empty, is_zero}
use vexel_lang.ApInt.Meaning.{
  IsApInt, from_u64-IsApInt, is_empty_lem, to_ℤ, to_ℤ-from_u64, to_ℤ-injective,
}
use vexel_lang.ApInt.Width.{FitsSigned, FitsUnsigned, fits_i64_iff, fits_u64_iff}
use vexel_lang.ApInt.Machine.{from_i64_lem, to_i64_fits, to_u64_fits}

-- The integer of a scalar, if it has one: a bool counts as 0 or 1.
abbrev pub integer_of : {F : Type 0} → CtValue F → Option ℤ
integer_of (int64 z) = some z
integer_of (uint64 n) = some (pos n)
integer_of (exact_int e) = some (to_ℤ e.value)
integer_of (boolean b) = some (if b then pos 1 else pos 0)
integer_of v = none

-- What a C++ object of the type can hold.
abbrev pub IsScalar : {F : Type 0} → CtValue F → Type 0
IsScalar (int64 z) = FitsSigned 64 z
IsScalar (uint64 n) = n < 2 ^ 64
IsScalar (exact_int e) = IsApInt e.value
IsScalar v = Unit

to_u64_back : (a : ApInt) → IsApInt a → FitsUnsigned 64 (to_ℤ a) → from_u64 (pos_part (to_ℤ a)) ≡ a
to_u64_back a h fits =
    let n = pos_part (to_ℤ a) in
    to_ℤ-injective (from_u64 n) a (from_u64-IsApInt n fits.2) h
      (to_ℤ-from_u64 n fits.2 ∙ positive (to_ℤ a) fits.1)
  where
    positive : (z : ℤ) → neg_part z ≡ 0 → pos (pos_part z) ≡ z
    positive z e = ground arith

to_i64_back : (a : ApInt) → IsApInt a → FitsSigned 64 (to_ℤ a) → from_i64 (to_ℤ a) ≡ a
to_i64_back a h fits =
    let (valid, v) = from_i64_lem (to_ℤ a) fits in to_ℤ-injective (from_i64 (to_ℤ a)) a valid h v

module _ {F : Type 0} where
  -- The value that an exact integer is kept as gives back the integer and its signedness.
  abbrev pub KeptAs : ApInt → Bool → CtValue F → Type 0
  KeptAs a is_unsigned v =
      (ctvalue_from_exact_int a is_unsigned ≡ ok v)
      × (ctvalue_to_exact_int v ≡ some (record { value = a; is_unsigned = is_unsigned }))
      × IsScalar v

  -- For a value of the class APInt and either signedness, `ctvalue_from_exact_int` returns a value that is in the
  -- range of its type, and from which `ctvalue_to_exact_int` gives back the same APInt and signedness.
  pub ctvalue_from_exact_int_lem :
      (a : ApInt) (is_unsigned : Bool) → IsApInt a → (v : CtValue F) × KeptAs a is_unsigned v
  unfolding ctvalue_from_exact_int ctvalue_to_exact_int
  ctvalue_from_exact_int_lem a true h = elim (Bool-cases (fits_u64 a)) [
    | inl e ↦
        let fits = (fits_u64_iff a h).0 e in
        (
          uint64 (pos_part (to_ℤ a)),
          (
            rw (e, to_u64_fits a h fits),
            ap (λ (b : ApInt). some (record { value = b; is_unsigned = true }))
                (to_u64_back a h fits),
            fits.2,
          ),
        )
    | inr e ↦ (exact_int (record { value = a; is_unsigned = true }), (rw e, refl, h))
  ]
  ctvalue_from_exact_int_lem a false h = elim (Bool-cases (fits_i64 a)) [
    | inl e ↦
        let fits = (fits_i64_iff a h).0 e in
        (
          int64 (to_ℤ a),
          (
            rw (e, to_i64_fits a h fits),
            ap (λ (b : ApInt). some (record { value = b; is_unsigned = false }))
                (to_i64_back a h fits),
            fits,
          ),
        )
    | inr e ↦ (exact_int (record { value = a; is_unsigned = false }), (rw e, refl, h))
  ]

  -- For a value in the range of its type that stands for an integer in the range of int64_t,
  -- `ctvalue_to_i64_exact` gives the integer.
  pub ctvalue_to_i64_exact_fits :
      (v : CtValue F) (z : ℤ)
      → IsScalar v
      → integer_of v ≡ some z
      → FitsSigned 64 z
      → ctvalue_to_i64_exact v ≡ ok (some z)
  unfolding ctvalue_to_i64_exact
  ctvalue_to_i64_exact_fits (int64 n) z h e fits = ap ok e
  ctvalue_to_i64_exact_fits (uint64 n) z h e fits = ground arith
  ctvalue_to_i64_exact_fits (exact_int x) z h e fits =
      let same : to_ℤ x.value ≡ z = ground arith in
      let inside : FitsSigned 64 (to_ℤ x.value) = rw same fits in
      rw ((fits_i64_iff x.value h).1 inside, to_i64_fits x.value h inside) (ap ok e)
  ctvalue_to_i64_exact_fits (boolean b) z h e fits = ap ok e
  ctvalue_to_i64_exact_fits v z h e fits = absurd (ground arith)

  -- A value that stands for no integer in the range of int64_t gives none, and no error.
  pub ctvalue_to_i64_exact-none :
      (v : CtValue F)
      → IsScalar v
      → ((z : ℤ) → integer_of v ≡ some z → ¬ FitsSigned 64 z)
      → ctvalue_to_i64_exact v ≡ ok none
  unfolding ctvalue_to_i64_exact
  ctvalue_to_i64_exact-none (int64 n) h no_fit = absurd (no_fit n refl h)
  ctvalue_to_i64_exact-none (uint64 n) h no_fit = ground (arith, no_fit (pos n) refl)
  ctvalue_to_i64_exact-none (exact_int x) h no_fit = elim (Bool-cases (fits_i64 x.value)) [
    | inl e ↦ absurd (no_fit (to_ℤ x.value) refl ((fits_i64_iff x.value h).0 e))
    | inr e ↦ rw e refl
  ]
  ctvalue_to_i64_exact-none (boolean true) h no_fit = absurd (no_fit (pos 1) refl (ground arith))
  ctvalue_to_i64_exact-none (boolean false) h no_fit = absurd (no_fit (pos 0) refl (ground arith))
  ctvalue_to_i64_exact-none v h no_fit = refl

  -- For a value in the range of its type that stands for an integer, `cte_scalar_to_bool` tells whether the integer
  -- is not 0.
  pub cte_scalar_to_bool_lem :
      (is_nonzero : F → Bool) (v : CtValue F) (z : ℤ)
      → IsScalar v
      → integer_of v ≡ some z
      → (b : Bool) × (cte_scalar_to_bool is_nonzero v ≡ some b) × ((b ≡ false) ↔ (z ≡ pos 0))
  unfolding cte_scalar_to_bool is_zero
  cte_scalar_to_bool_lem is_nonzero (int64 (pos n)) z h e = (not (n == 0), refl, ground arith)
  cte_scalar_to_bool_lem is_nonzero (int64 (negsuc n)) z h e = (true, refl, ground arith)
  cte_scalar_to_bool_lem is_nonzero (uint64 n) z h e = (not (n == 0), refl, ground arith)
  cte_scalar_to_bool_lem is_nonzero (exact_int x) z h e = (
    not (is_empty x.value.limbs),
    refl,
    ground (arith, is_empty_lem x.value.limbs h.magnitude, h.sign),
  )
  cte_scalar_to_bool_lem is_nonzero (boolean b) z h e = (b, refl, ground arith)
  cte_scalar_to_bool_lem is_nonzero v z h e = absurd (ground arith)
