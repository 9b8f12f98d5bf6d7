-- ===== src/Parser/Widths.antt =====
-- The name of an integer type, `#i8` or `#u64`, and the width that its digits spell.
use vexel_lang.Parser.Grammar.{is_space, leading_digits, skip_space, stoull}
use vexel_lang.Parser.TypeSyntax.{are_digits, as_some, width_type, parse_integer_primitive}
use vexel_lang.Literal.Parse.{AllOf, IsDecimal, decimal_digit, numeral}
use vexel_lang.Base.{
  Bool, [], ◌*◌, ◌+◌, ◌-◌, Option, arith, false, if◌then◌else◌, ltb, none, refl, some, true, ℕ,
  ◌==◌, ◌^◌, ◌∷◌, ◌≡◌,
}
use vexel_lang.Base.Int.{pos}
use vexel_lang.Lexer.Read.{is_digit}
use vexel_lang.Error.{
  Result, SourceLocation, Text, invalid_integer_width, ok, throw, zero_integer_width,
}
use vexel_lang.Ast.{AstType, primitive_kind}
use vexel_lang.Evaluator.{PrimitiveType}

leading_digits_lem :
    (acc : ℕ) (cs : Text)
    → AllOf IsDecimal cs
    → leading_digits acc cs ≡ numeral 10 decimal_digit acc cs
unfolding leading_digits
leading_digits_lem acc [] h = refl
leading_digits_lem acc (c ∷ cs) h =
    let digit : is_digit c ≡ true = ground (arith, h.0) in
    rw (leading_digits, digit) (leading_digits_lem (acc * 10 + (c - b'0')) cs h.1)

stoull_lem :
    (c : ℕ) (cs : Text)
    → AllOf IsDecimal (c ∷ cs)
    → stoull (c ∷ cs)
      ≡ (let n = numeral 10 decimal_digit 0 (c ∷ cs) in if ltb n (2 ^ 64) then some n else none)
unfolding stoull skip_space
stoull_lem c cs h =
    let space : is_space c ≡ false = ground (arith, h.0) in
    let minus : (c == b'-') ≡ false = ground (arith, h.0) in
    let plus : (c == b'+') ≡ false = ground (arith, h.0) in
    let digit : is_digit c ≡ true = ground (arith, h.0) in
    rw (stoull, skip_space, space, minus, plus, digit, leading_digits_lem 0 (c ∷ cs) h) refl

-- The type of an integer with `n` bits, for n that a uint64_t can hold and that is not 0.
abbrev pub integer_type_of :
    {F : Type 0} → PrimitiveType → SourceLocation → Text → ℕ → Result (Option (AstType F))
integer_type_of kind loc name n =
    if ltb n (2 ^ 64)
    then (if n == 0
        then throw (zero_integer_width name) loc
        else ok (some (primitive_kind kind n (pos 0) loc)))
    else throw (invalid_integer_width name) loc

AllOf-are_digits : (cs : Text) → AllOf IsDecimal cs → are_digits cs ≡ true
AllOf-are_digits [] h = refl
AllOf-are_digits (c ∷ cs) h =
    let digit : is_digit c ≡ true = ground (arith, h.0) in rw (digit, AllOf-are_digits cs h.1) refl

same_prefix : (c : ℕ) → (c == c) ≡ true
same_prefix c = ground arith

module _ {F : Type 0} (kind : PrimitiveType) (loc : SourceLocation) (name : Text) (n : ℕ) where
  typed :
      (fits zero_bits : Bool)
      → (n == 0) ≡ zero_bits
      → as_some {F = F} (width_type kind loc name (if fits then some n else none)) ≡ (
          if fits
          then (if n == 0
              then throw (zero_integer_width name) loc
              else ok (some (primitive_kind kind n (pos 0) loc)))
          else throw (invalid_integer_width name) loc)
  typed true true h = rw h refl
  typed true false h = rw h refl
  typed false zero_bits h = refl

-- The type that a prefix and decimal digits name has as many bits as the digits spell; where these are 0,
-- or more than 64 bits hold, the error says so.
pub parse_integer_primitive_lem :
    {F : Type 0} (prefix d : ℕ) (ds : Text) (kind : PrimitiveType) (loc : SourceLocation)
    → AllOf IsDecimal (d ∷ ds)
    → parse_integer_primitive {F = F} prefix kind loc (prefix ∷ d ∷ ds)
      ≡ integer_type_of kind loc (prefix ∷ d ∷ ds) (numeral 10 decimal_digit 0 (d ∷ ds))
unfolding parse_integer_primitive
parse_integer_primitive_lem prefix d ds kind loc h =
    let n = numeral 10 decimal_digit 0 (d ∷ ds) in
    rw (same_prefix prefix, AllOf-are_digits (d ∷ ds) h, stoull_lem d ds h)
      (typed kind loc (prefix ∷ d ∷ ds) n (ltb n (2 ^ 64)) (n == 0) refl)
