-- ===== src/Parser/TypeSyntax.antt =====
-- frontend/src/parse/parser.cpp, `parse_type`.
use vexel_lang.Parser.{
  Parsing, asks, check, consume, done, here, lift, match, no_fuel, rounds, throw_at, ◌>>=◌, ◌>>◌,
}
use vexel_lang.Parser.Grammar.{Parsers, name_token, stoull}
use vexel_lang.Lexer.Token.{
  colon, dot, hash, int_literal, left_bracket, left_paren, minus, right_bracket,
}
use vexel_lang.Base.{
  Bool, List, Option, [], false, if◌then◌else◌, leb, ltb, none, some, suc, true, zero, ℕ, ◌%◌, ◌&&◌,
  ◌-◌, ◌==◌, ◌^◌, ◌||◌, ◌∷◌,
}
use vexel_lang.Base.Int.{negsuc, pos, ℤ, ◌+ℤ◌, ◌-ℤ◌}
use vexel_lang.Error.{
  Result, SourceLocation, Text, err, expected_fractional_width, expected_hash,
  expected_right_bracket, expected_type_name, fractional_width_too_negative,
  invalid_fractional_width, invalid_integer_width, ok, shorthand_not_supported, throw,
  total_width_not_positive, total_width_too_large, zero_integer_width,
}
use vexel_lang.Ast.{AstType, Expr, array_kind, named_kind, no_type, primitive_kind, typeof_kind}
use vexel_lang.Evaluator.{
  PrimitiveType, bool_type, f16, f32, f64, fixed_int, fixed_uint, int_type, string_type, uint_type,
}
use vexel_lang.Evaluator.Operators.{text_eq}
use vexel_lang.Lexer.Read.{is_digit}
use vexel_lang.ApInt.{as_i64}

abbrev pub are_digits : Text → Bool
are_digits [] = true
are_digits (c ∷ cs) = is_digit c && are_digits cs

-- `frac_bits`; `none` where the code throws std::out_of_range.
abbrev signed_fraction : Bool → ℕ → Option ℤ
signed_fraction negative parsed =
    if negative
    then (if ltb (2 ^ 63) parsed then none else some (pos 0 -ℤ pos parsed))
    else (if leb (2 ^ 63) parsed then none else some (pos parsed))

abbrev pub fraction_bits : Bool → Option ℕ → Option ℤ
fraction_bits negative none = none
fraction_bits negative (some parsed) = signed_fraction negative parsed

abbrev is_minimum : ℤ → Bool
is_minimum (pos n) = false
is_minimum (negsuc n) = n == 2 ^ 63 - 1

abbrev is_positive : ℤ → Bool
is_positive (pos n) = ltb 0 n
is_positive (negsuc n) = false

-- The total width is an int64_t sum. Its overflow is undefined in C++; it is wrapped here.
abbrev wrap_i64 : ℤ → ℤ
wrap_i64 (pos n) = as_i64 (n % 2 ^ 64)
wrap_i64 (negsuc n) = negsuc n

module _ {F : Type 0} where
  abbrev pub width_type : PrimitiveType → SourceLocation → Text → Option ℕ → Result (AstType F)
  width_type kind loc name none = throw (invalid_integer_width name) loc
  width_type kind loc name (some bits) =
      if bits == 0
      then throw (zero_integer_width name) loc
      else ok (primitive_kind kind bits (pos 0) loc)

  abbrev pub as_some : Result (AstType F) → Result (Option (AstType F))
  as_some (ok t) = ok (some t)
  as_some (err e) = err e

  -- `prefix` and then digits only; `none` for a null pointer.
  unfoldable pub parse_integer_primitive :
      ℕ → PrimitiveType → SourceLocation → Text → Result (Option (AstType F))
  parse_integer_primitive prefix kind loc [] = ok none
  parse_integer_primitive prefix kind loc (c ∷ []) = ok none
  parse_integer_primitive prefix kind loc (c ∷ d ∷ ds) =
      if c == prefix && are_digits (d ∷ ds)
      then as_some (width_type kind loc (c ∷ d ∷ ds) (stoull (d ∷ ds)))
      else ok none

  abbrev pub fixed_type :
      PrimitiveType → ℕ → SourceLocation → Text → Bool → Text → Option ℤ → Result (AstType F)
  fixed_type kind bits loc name negative lexeme none =
      throw (invalid_fractional_width name negative lexeme) loc
  fixed_type kind bits loc name negative lexeme (some frac) =
      if is_minimum frac
      then throw (fractional_width_too_negative name negative lexeme) loc
      else if leb (2 ^ 63) bits
      then throw (total_width_too_large name negative lexeme) loc
      else if is_positive (wrap_i64 (pos bits +ℤ frac))
      then ok (primitive_kind kind bits frac loc)
      else throw (total_width_not_positive name negative lexeme) loc

  -- `try_parse_fixed_suffix`, on a type of `kind` and width `bits`, and the kind of the fixed-point type.
  unfoldable pub try_parse_fixed_suffix :
      PrimitiveType → PrimitiveType → ℕ → SourceLocation → Text → Parsing F (AstType F)
  try_parse_fixed_suffix kind fixed_kind bits loc name = do
    dotted ← match dot
    if dotted
        then (do
          negative ← match minus
          frac_tok ← consume int_literal expected_fractional_width
          lift (
              fixed_type fixed_kind bits loc name negative frac_tok.lexeme
                (fraction_bits negative (stoull frac_tok.lexeme))))
        else done (primitive_kind kind bits (pos 0) loc)

  abbrev pub with_suffix :
      PrimitiveType
      → SourceLocation
      → Text
      → Parsing F (AstType F)
      → Option (AstType F)
      → Parsing F (AstType F)
  with_suffix fixed_kind loc name otherwise (some (primitive_kind kind bits frac l)) =
      try_parse_fixed_suffix kind fixed_kind bits loc name
  with_suffix fixed_kind loc name otherwise t = otherwise

  abbrev pub integer_type : SourceLocation → Text → Parsing F (AstType F)
  integer_type loc name = do
    i_type ← lift (parse_integer_primitive b'i' int_type loc name)
    with_suffix fixed_int loc name
        (do
          u_type ← lift (parse_integer_primitive b'u' uint_type loc name)
          with_suffix fixed_uint loc name (done (named_kind name loc)) u_type)
        i_type

  unfoldable pub parse_type_name : SourceLocation → Text → Parsing F (AstType F)
  parse_type_name loc name = do
    paren ← asks (check left_paren)
    if (text_eq name (b'v' ∷ []) || text_eq name (b'm' ∷ [])) && paren
        then throw_at (shorthand_not_supported name) loc
        else if text_eq name (b'b' ∷ [])
        then done (primitive_kind bool_type 0 (pos 0) loc)
        else if text_eq name (b's' ∷ [])
        then done (primitive_kind string_type 0 (pos 0) loc)
        else if text_eq name (b'f' ∷ b'1' ∷ b'6' ∷ [])
        then done (primitive_kind f16 0 (pos 0) loc)
        else if text_eq name (b'f' ∷ b'3' ∷ b'2' ∷ [])
        then done (primitive_kind f32 0 (pos 0) loc)
        else if text_eq name (b'f' ∷ b'6' ∷ b'4' ∷ [])
        then done (primitive_kind f64 0 (pos 0) loc)
        else integer_type loc name

  unfoldable pub parse_base_type : Parsers F → SourceLocation → Parsing F (AstType F)
  parse_base_type p loc = do
    is_typeof ← match left_bracket
    if is_typeof
        then (do e ← p.expr; consume right_bracket expected_right_bracket; done (typeof_kind e loc))
        else (do name ← name_token expected_type_name; parse_type_name loc name)

  -- `while (match(LeftBracket)) ...`
  unfoldable pub dimensions_loop : Parsers F → ℕ → Parsing F (List (Expr F))
  dimensions_loop p zero = no_fuel
  dimensions_loop p (suc fuel) = do
    more ← match left_bracket
    elim more [
      | true ↦ do
        e ← p.expr
        consume right_bracket expected_right_bracket
        es ← dimensions_loop p fuel
        done (e ∷ es)
      | false ↦ done []
    ]

  -- From the last dimension to the first.
  abbrev pub shaped : AstType F → SourceLocation → List (Expr F) → AstType F
  shaped type loc [] = type
  shaped type loc (e ∷ es) = array_kind (shaped type loc es) e loc

  unfoldable pub parse_type : Parsers F → Parsing F (AstType F)
  parse_type p = do
    loc ← asks here
    consume hash expected_hash
    type ← parse_base_type p loc
    dimensions ← (λ s. dimensions_loop p (rounds s) s)
    done (shaped type loc dimensions)

  -- `if (match(TokenType::Colon)) type = parse_type();`
  unfoldable pub optional_type : Parsers F → Parsing F (AstType F)
  optional_type p = do typed ← match colon; if typed then parse_type p else done no_type
