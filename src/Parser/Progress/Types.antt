-- ===== src/Parser/Progress/Types.antt =====
-- The tokens that types take, and what the grammar's methods share.
use vexel_lang.Parser.Progress.{
  Moving, Moving-asks, Moving-done, Moving-if, Moving-lift, Moving-throw, Moving-weaken, bind0,
}
use vexel_lang.Parser.Progress.Tokens.{consume-Moving, match-Moving, match0}
use vexel_lang.Parser.Progress.Loops.{Moving-at, Moving-rounds, Moving-zero, separated-Moving}
use vexel_lang.Parser.{Parsing, check, done, here, no_fuel}
use vexel_lang.Parser.Kinds.{ordinal}
use vexel_lang.Parser.Grammar.{
  Parsers, arguments, exprs_of, joined, match_iteration, name_token, parse_qualified_name,
  parse_resource_path, parse_segment, stoull,
}
use vexel_lang.Parser.TypeSyntax.{
  dimensions_loop, fixed_type, fraction_bits, integer_type, optional_type, parse_base_type,
  parse_integer_primitive, parse_type, parse_type_name, shaped, try_parse_fixed_suffix, with_suffix,
}
use vexel_lang.Lexer.Token.{
  TokenType, at_sign, colon, comma, dot, double_at, double_colon, hash, identifier, int_literal,
  left_bracket, left_paren, minus, right_bracket,
}
use vexel_lang.Base.{
  Option, [], arith, false, if◌then◌else◌, none, refl, some, suc, true, zero, ℕ, ◌&&◌, ◌||◌, ◌∷◌,
  ◌≤◌,
}
use vexel_lang.Base.Int.{pos}
use vexel_lang.Error.{
  Message, SourceLocation, Text, expected_fractional_width, expected_hash, expected_identifier,
  expected_right_bracket, expected_type_name, shorthand_not_supported,
}
use vexel_lang.Ast.{
  AstType, array_kind, named_kind, no_type, primitive_kind, typeof_kind, typevar_kind,
}
use vexel_lang.Evaluator.{
  PrimitiveType, bool_type, f16, f32, f64, fixed_int, fixed_uint, int_type, string_type, uint_type,
}
use vexel_lang.Evaluator.Operators.{text_eq}

module _ {F : Type 0} where
  pub record Progressing (k : ℕ) (p : Parsers F) : Type 0 where
    pub expr : Moving k 1 p.expr
    pub assignment : Moving k 1 p.assignment
    pub conditional : Moving k 1 p.conditional
    pub unary : Moving k 1 p.unary
    pub stmt : Moving k 1 p.stmt

  pub name_token-Moving : {k : ℕ} (message : Message) → Moving k 0 (name_token {F = F} message)
  name_token-Moving message =
      bind0 (consume-Moving identifier message) (λ name. Moving-done name.lexeme)

  pub parse_qualified_name-Moving : {k : ℕ} → Moving k 0 (parse_qualified_name {F = F})
  unfolding parse_qualified_name ordinal
  parse_qualified_name-Moving =
      separated-Moving double_colon (name_token expected_identifier) refl
        (name_token-Moving expected_identifier)

  segment-Moving : {k : ℕ} → Moving k 0 (parse_segment {F = F})
  unfolding ordinal
  segment-Moving =
      bind0
        (separated-Moving dot (name_token expected_identifier) refl
          (name_token-Moving expected_identifier))
        (λ parts. Moving-done (joined (b'.' ∷ []) parts))

  pub parse_resource_path-Moving : {k : ℕ} → Moving k 0 (parse_resource_path {F = F})
  unfolding parse_resource_path ordinal
  parse_resource_path-Moving = separated-Moving double_colon parse_segment refl segment-Moving

  pub match_iteration-Moving : {k : ℕ} → Moving k 0 (match_iteration {F = F})
  unfolding match_iteration
  match_iteration-Moving = bind0 (match-Moving double_at) (λ sorted.
      Moving-if sorted (Moving-done (some true))
        (bind0 (match-Moving at_sign) (λ plain. Moving-done (if plain then some false else none))))

  suffix-Moving :
      {k : ℕ} (kind fixed_kind : PrimitiveType) (bits : ℕ) (loc : SourceLocation) (name : Text)
      → Moving k 0 (try_parse_fixed_suffix {F = F} kind fixed_kind bits loc name)
  unfolding try_parse_fixed_suffix
  suffix-Moving kind fixed_kind bits loc name = bind0 (match-Moving dot) (λ dotted.
      Moving-if dotted
        (bind0 (match-Moving minus) (λ negative.
          bind0 (consume-Moving int_literal expected_fractional_width) (λ frac_tok. Moving-lift (
            fixed_type fixed_kind bits loc name negative frac_tok.lexeme
              (fraction_bits negative (stoull frac_tok.lexeme))))))
        (Moving-done (primitive_kind kind bits (pos 0) loc)))

  with_suffix-Moving :
      {k : ℕ} (fixed_kind : PrimitiveType) (loc : SourceLocation) (name : Text)
      (otherwise : Parsing F (AstType F)) (t : Option (AstType F))
      → Moving k 0 otherwise
      → Moving k 0 (with_suffix fixed_kind loc name otherwise t)
  with_suffix-Moving fixed_kind loc name otherwise (some (primitive_kind kind bits frac l)) h =
      suffix-Moving kind fixed_kind bits loc name
  with_suffix-Moving fixed_kind loc name otherwise (some no_type) h = h
  with_suffix-Moving fixed_kind loc name otherwise (some (array_kind t e l)) h = h
  with_suffix-Moving fixed_kind loc name otherwise (some (named_kind t l)) h = h
  with_suffix-Moving fixed_kind loc name otherwise (some (typevar_kind t l)) h = h
  with_suffix-Moving fixed_kind loc name otherwise (some (typeof_kind e l)) h = h
  with_suffix-Moving fixed_kind loc name otherwise none h = h

  integer_type-Moving :
      {k : ℕ} (loc : SourceLocation) (name : Text) → Moving k 0 (integer_type {F = F} loc name)
  integer_type-Moving loc name =
      bind0 (Moving-lift (parse_integer_primitive b'i' int_type loc name)) (λ i_type.
        with_suffix-Moving fixed_int loc name _ i_type (
          bind0 (Moving-lift (parse_integer_primitive b'u' uint_type loc name)) (λ u_type.
            with_suffix-Moving fixed_uint loc name (done (named_kind name loc)) u_type
              (Moving-done (named_kind name loc)))))

  type_name-Moving :
      {k : ℕ} (loc : SourceLocation) (name : Text) → Moving k 0 (parse_type_name {F = F} loc name)
  unfolding parse_type_name
  type_name-Moving loc name = bind0 (Moving-asks (check left_paren)) (λ paren.
      Moving-if ((text_eq name (b'v' ∷ []) || text_eq name (b'm' ∷ [])) && paren)
        (Moving-throw (shorthand_not_supported name) loc)
        (Moving-if (text_eq name (b'b' ∷ [])) (Moving-done (primitive_kind bool_type 0 (pos 0) loc))
          (Moving-if (text_eq name (b's' ∷ []))
            (Moving-done (primitive_kind string_type 0 (pos 0) loc))
            (Moving-if (text_eq name (b'f' ∷ b'1' ∷ b'6' ∷ []))
              (Moving-done (primitive_kind f16 0 (pos 0) loc))
              (Moving-if (text_eq name (b'f' ∷ b'3' ∷ b'2' ∷ []))
                (Moving-done (primitive_kind f32 0 (pos 0) loc))
                (Moving-if (text_eq name (b'f' ∷ b'6' ∷ b'4' ∷ []))
                  (Moving-done (primitive_kind f64 0 (pos 0) loc))
                  (integer_type-Moving loc name)))))))

  module _ {k : ℕ} (p : Parsers F) (h : Progressing k p) where
    pub arguments-Moving : (close : TokenType) → Moving k 0 (arguments p close)
    unfolding arguments ordinal
    arguments-Moving close = bind0 (Moving-asks (check close)) (λ closed.
        bind0
          (Moving-if closed (Moving-done [])
            (separated-Moving comma p.expr refl (Moving-weaken p.expr h.expr)))
          (λ args. Moving-done (exprs_of args)))

    base_type-Moving : (loc : SourceLocation) → Moving k 0 (parse_base_type p loc)
    unfolding parse_base_type
    base_type-Moving loc = bind0 (match-Moving left_bracket) (λ is_typeof.
        Moving-if is_typeof
          (bind0 (Moving-weaken p.expr h.expr) (λ e.
            bind0 (consume-Moving right_bracket expected_right_bracket)
              (λ _. Moving-done (typeof_kind e loc))))
          (bind0 (name_token-Moving expected_type_name) (λ name. type_name-Moving loc name)))

    dimensions_loop-Moving : (fuel : ℕ) → fuel ≤ k → Moving fuel 0 (dimensions_loop p fuel)
    unfolding dimensions_loop ordinal
    dimensions_loop-Moving zero hk = Moving-zero no_fuel
    dimensions_loop-Moving (suc fuel) hk =
        match0 left_bracket _ refl
          (bind0 (Moving-at p.expr (omega arith) (Moving-weaken p.expr h.expr)) (λ e.
            bind0 (consume-Moving right_bracket expected_right_bracket) (λ _.
              bind0 (dimensions_loop-Moving fuel (omega arith)) (λ es. Moving-done (e ∷ es)))))
          (Moving-done [])

    pub parse_type-Moving : Moving k 0 (parse_type p)
    unfolding parse_type
    parse_type-Moving = bind0 (Moving-asks here) (λ loc.
        bind0 (consume-Moving hash expected_hash) (λ _. bind0 (base_type-Moving loc) (λ type.
          bind0 (Moving-rounds (dimensions_loop p) dimensions_loop-Moving)
            (λ dimensions. Moving-done (shaped type loc dimensions)))))

    pub optional_type-Moving : Moving k 0 (optional_type p)
    unfolding optional_type
    optional_type-Moving =
        bind0 (match-Moving colon)
          (λ typed. Moving-if typed parse_type-Moving (Moving-done no_type))
