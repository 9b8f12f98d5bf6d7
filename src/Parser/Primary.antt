-- ===== src/Parser/Primary.antt =====
-- frontend/src/parse/parser.cpp: blocks, arrays and primary expressions.
use vexel_lang.Parser.{
  Parser, Parsing, Position, asks, attempt, check, consume, current, done, here, lift, match,
  no_fuel, position, rewind, rounds, separated, skip_semis, step, take, throw_at, ◌>>=◌, ◌>>◌,
}
use vexel_lang.Parser.Kinds.{at_expression, is_type}
use vexel_lang.Parser.Annotations.{parse_annotations_disambiguated}
use vexel_lang.Parser.Lookahead.{kind_at, kinds}
use vexel_lang.Parser.Grammar.{
  Parsers, arguments, joined, name_token, parse_resource_path, stmts_of,
}
use vexel_lang.Parser.TypeSyntax.{parse_type}
use vexel_lang.Lexer.Token.{
  Token, TokenType, TokenValue, char_literal, colon, dollar, double_colon, double_value,
  end_of_file, float_literal, hash, identifier, int_literal, left_brace, left_bracket, left_paren,
  right_brace, right_bracket, right_paren, string_literal, string_value, uint64_value,
}
use vexel_lang.Base.{
  Bool, List, Option, [], drop, false, if◌then◌else◌, length, none, not, some, suc, true, zero, ℕ,
  ◌&&◌, ◌||◌, ◌∷◌,
}
use vexel_lang.Error.{
  SourceLocation, Text, expected_constructor_name, expected_constructor_paren, expected_hash,
  expected_identifier, expected_identifier_after_dollar, expected_left_brace, expected_left_bracket,
  expected_right_brace, expected_right_bracket, expected_right_paren, unexpected_token,
}
use vexel_lang.Ast.{Expr, Stmt, no_expr}
use vexel_lang.Ast.Make.{
  annotate, expr_param_ref, make_array, make_block, make_char, make_constructor_call, make_float,
  make_identifier, make_int_exact, make_resource, make_string, with_type,
}
use vexel_lang.Literal.{is_hex_prefix, parse_integer_literal}

-- `t.lexeme.size() > 2` and the prefix.
abbrev pub is_hex_lexeme : Text → Bool
is_hex_lexeme (a ∷ b ∷ c ∷ rest) = is_hex_prefix a b
is_hex_lexeme lexeme = false

abbrev pub last_or : Text → List Text → Text
last_or d [] = d
last_or d (t ∷ ts) = last_or t ts

-- `std::get` of another alternative throws std::bad_variant_access, which no token of the lexer does.
abbrev text_value : {F : Type 0} → TokenValue F → Text
text_value (string_value t) = t
text_value v = []

abbrev pub uint64_of : {F : Type 0} → TokenValue F → ℕ
uint64_of (uint64_value n) = n
uint64_of v = 0

-- The scan over `#a::b(`.
unfoldable pub constructor_path_loop : ℕ → List TokenType → Bool
constructor_path_loop zero ts = false
constructor_path_loop (suc fuel) ts = elim (is_type (kind_at 0 ts) double_colon) [
  | true ↦ elim (is_type (kind_at 1 ts) identifier) [
    | true ↦ constructor_path_loop fuel (drop 2 ts)
    | false ↦ false
  ]
  | false ↦ is_type (kind_at 0 ts) left_paren
]

-- Behind the `#`.
unfoldable pub looks_like_constructor : List TokenType → Bool
looks_like_constructor ts =
    is_type (kind_at 0 ts) identifier && constructor_path_loop (suc (length ts)) (drop 1 ts)

module _ {F : Type 0} where
  abbrev pub string_of : Token F → Text
  string_of token = text_value token.value

  -- The value of a float token, which the lexer gives a double.
  abbrev pub float_literal_of : Token F → TokenValue F → SourceLocation → Expr F
  float_literal_of token (double_value val) loc = make_float val loc token.lexeme
  float_literal_of token v loc = no_expr

  module _ (p : Parsers F) where
    abbrev pub block_end : Parser F → Bool
    block_end s = check right_brace s || check end_of_file s

    -- `true`, where the expression is the result of the block.
    abbrev pub is_result : Option (Expr F) → Parsing F Bool
    is_result none = done false
    is_result (some e) = do skip_semis; asks (check right_brace)

    abbrev pub or_null : Option (Expr F) → Expr F
    or_null none = no_expr
    or_null (some e) = e

    abbrev pub Block : Type 0
    Block = List (Stmt F) × Expr F

    abbrev pub next_stmt : Parsing F Block → Stmt F → Parsing F Block
    next_stmt more s = do skip_semis; block ← more; done (s ∷ block.0, block.1)

    -- Whether what was read ahead is the result; otherwise a statement starts there.
    abbrev pub block_case : Position F → Option (Expr F) → Parsing F Block → Bool → Parsing F Block
    block_case saved e more final = elim final [
      | true ↦ done ([], or_null e)
      | false ↦ rewind saved >> (p.stmt >>= next_stmt more)
    ]

    abbrev pub block_round : Position F → Option (Expr F) → Parsing F Block → Parsing F Block
    block_round saved e more = is_result e >>= block_case saved e more

    unfoldable pub block_loop : ℕ → Parsing F Block
    block_loop zero = no_fuel
    block_loop (suc fuel) = do
      ended ← asks block_end
      elim ended [
        | true ↦ done ([], no_expr)
        | false ↦ do
          saved ← asks position
          e ← attempt p.expr
          block_round saved e (block_loop fuel)
      ]

    unfoldable pub parse_block : Parsing F (Expr F)
    parse_block = do
      loc ← asks here
      consume left_brace expected_left_brace
      skip_semis
      block ← (λ s. block_loop (rounds s) s)
      consume right_brace expected_right_brace
      done (make_block (stmts_of block.0) block.1 loc)

    unfoldable pub parse_array : Parsing F (Expr F)
    parse_array = do
      loc ← asks here
      consume left_bracket expected_left_bracket
      elems ← arguments p right_bracket
      consume right_bracket expected_right_bracket
      done (make_array elems loc)

    abbrev int_expr : SourceLocation → Parsing F (Expr F)
    int_expr loc = do
      t ← take
      value ← lift (parse_integer_literal t.lexeme loc)
      done (make_int_exact value (is_hex_lexeme t.lexeme) loc t.lexeme)

    abbrev float_expr : SourceLocation → Parsing F (Expr F)
    float_expr loc = do t ← take; done (float_literal_of t t.value loc)

    abbrev string_expr : SourceLocation → Parsing F (Expr F)
    string_expr loc = do t ← take; done (make_string (string_of t) loc)

    abbrev char_expr : SourceLocation → Parsing F (Expr F)
    char_expr loc = do t ← take; done (make_char (uint64_of t.value) loc t.lexeme)

    abbrev resource_expr : SourceLocation → Parsing F (Expr F)
    resource_expr loc = do step; path ← parse_resource_path; done (make_resource path loc)

    abbrev pub path_separator : Text
    path_separator = b':' ∷ b':' ∷ []

    unfoldable pub constructor_expr : SourceLocation → Parsing F (Expr F)
    constructor_expr loc = do
      consume hash expected_hash
      path ← separated double_colon (name_token expected_constructor_name)
      consume left_paren expected_constructor_paren
      args ← arguments p right_paren
      consume right_paren expected_right_paren
      done (make_constructor_call (make_identifier (joined path_separator path) loc) args loc)

    abbrev expr_param_expr : SourceLocation → Parsing F (Expr F)
    expr_param_expr loc = do
      step
      name ← name_token expected_identifier_after_dollar
      done (expr_param_ref (make_identifier name loc))

    -- A type annotation, only where the colon is followed by `#`.
    unfoldable pub annotated : Expr F → Parsing F (Expr F)
    annotated id = do
      colon_pos ← asks position
      typed ← match colon
      is_type_next ← asks (check hash)
      if not typed
          then done id
          else if is_type_next
          then (do type ← parse_type p; done (with_type type id))
          else rewind colon_pos >> done id

    unfoldable pub identifier_expr : SourceLocation → Parsing F (Expr F)
    identifier_expr loc = do
      path ← separated double_colon (name_token expected_identifier)
      annotated (make_identifier (last_or [] path) loc)

    abbrev unexpected : SourceLocation → Parsing F (Expr F)
    unexpected loc = do tok ← asks current; throw_at (unexpected_token tok.lexeme) loc

    -- The case that the type of the current token chooses.
    unfoldable pub primary_case : SourceLocation → TokenType → Bool → Parsing F (Expr F)
    primary_case loc type constructs =
        if is_type type double_colon
        then resource_expr loc
        else if is_type type int_literal
        then int_expr loc
        else if is_type type float_literal
        then float_expr loc
        else if is_type type string_literal
        then string_expr loc
        else if is_type type char_literal
        then char_expr loc
        else if is_type type left_brace
        then parse_block
        else if is_type type left_bracket
        then parse_array
        else if is_type type hash && constructs
        then constructor_expr loc
        else if is_type type dollar
        then expr_param_expr loc
        else if is_type type identifier
        then identifier_expr loc
        else unexpected loc

    unfoldable pub parse_primary : Parsing F (Expr F)
    parse_primary = do
      annotations ← parse_annotations_disambiguated at_expression
      loc ← asks here
      tok ← asks current
      constructs ← asks (λ s. looks_like_constructor (drop 1 (kinds s)))
      e ← primary_case loc tok.type constructs
      done (annotate annotations e)
