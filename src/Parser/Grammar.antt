-- ===== src/Parser/Grammar.antt =====
-- frontend/src/parse/parser.cpp: what the methods of the grammar share. They call each other in a circle;
-- `Parsers` holds the ones that a method calls behind a token it has taken, and `Parser.Modules` ties
-- the knot.
use vexel_lang.Parser.{Parsing, asks, check, consume, done, match, separated, ◌>>=◌}
use vexel_lang.Lexer.Token.{TokenType, at_sign, comma, dot, double_at, double_colon, identifier}
use vexel_lang.Base.{
  Bool, List, Option, [], false, if◌then◌else◌, leb, ltb, none, some, true, ℕ, ◌%◌, ◌&&◌, ◌*◌, ◌++◌,
  ◌+◌, ◌-◌, ◌==◌, ◌^◌, ◌||◌, ◌∷◌,
}
use vexel_lang.Error.{Message, Text, expected_identifier}
use vexel_lang.Ast.{
  AstType, AstTypes, Expr, Exprs, Stmt, Stmts, a_stmt, a_type, an_expr, no_exprs, no_stmts,
  no_types,
}
use vexel_lang.Lexer.Read.{is_digit}

pub record Parsers (F : Type 0) : Type 0 where
  pub expr : Parsing F (Expr F)
  pub assignment : Parsing F (Expr F)
  pub conditional : Parsing F (Expr F)
  pub unary : Parsing F (Expr F)
  pub stmt : Parsing F (Stmt F)

abbrev text_join : Text → List Text → Text
text_join separator [] = []
text_join separator (t ∷ ts) = (separator ++ t) ++ text_join separator ts

-- `path.front()`, and for each further segment the separator and it.
abbrev pub joined : Text → List Text → Text
joined separator [] = []
joined separator (t ∷ ts) = t ++ text_join separator ts

module _ {F : Type 0} where
  abbrev pub exprs_of : List (Expr F) → Exprs F
  exprs_of [] = no_exprs
  exprs_of (e ∷ es) = an_expr e (exprs_of es)

  abbrev pub stmts_of : List (Stmt F) → Stmts F
  stmts_of [] = no_stmts
  stmts_of (s ∷ ss) = a_stmt s (stmts_of ss)

  abbrev pub types_from : List (AstType F) → AstTypes F
  types_from [] = no_types
  types_from (t ∷ ts) = a_type t (types_from ts)

  -- `if (!check(RightParen)) do { args.push_back(parse_expr()); } while (match(Comma));`
  unfoldable pub arguments : Parsers F → TokenType → Parsing F (Exprs F)
  arguments p close = do
    closed ← asks (check close)
    args ← (if closed then done [] else separated comma p.expr)
    done (exprs_of args)

  -- `consume(TokenType::Identifier, message).lexeme`.
  abbrev pub name_token : Message → Parsing F Text
  name_token message = do name ← consume identifier message; done name.lexeme

  unfoldable pub parse_qualified_name : Parsing F (List Text)
  parse_qualified_name = separated double_colon (name_token expected_identifier)

  abbrev pub parse_segment : Parsing F Text
  parse_segment = do
    parts ← separated dot (name_token expected_identifier)
    done (joined (b'.' ∷ []) parts)

  -- Behind the leading `::`.
  unfoldable pub parse_resource_path : Parsing F (List Text)
  parse_resource_path = separated double_colon parse_segment

  -- `if (match(DoubleAt)) sorted = has = true; else if (match(At)) has = true;`: `sorted`, where `has`.
  unfoldable pub match_iteration : Parsing F (Option Bool)
  match_iteration = do
    sorted ← match double_at
    if sorted
        then done (some true)
        else (do plain ← match at_sign; done (if plain then some false else none))

-- `std::stoull`: blanks, a sign, and the decimal digits behind them, of which there is one or more.
abbrev pub is_space : ℕ → Bool
is_space c = c == 32 || (leb 9 c && leb c 13)

unfoldable pub skip_space : Text → Text
skip_space [] = []
skip_space (c ∷ cs) = elim (is_space c) [ true ↦ skip_space cs | false ↦ c ∷ cs ]

unfoldable pub leading_digits : ℕ → Text → ℕ
leading_digits acc [] = acc
leading_digits acc (c ∷ cs) = elim (is_digit c) [
  | true ↦ leading_digits (acc * 10 + (c - b'0')) cs
  | false ↦ acc
]

abbrev pub in_range : (ℕ → ℕ) → ℕ → Option ℕ
in_range f n = if ltb n (2 ^ 64) then some (f n) else none

abbrev digits_from : (ℕ → ℕ) → Text → Option ℕ
digits_from f [] = none
digits_from f (c ∷ cs) = if is_digit c then in_range f (leading_digits 0 (c ∷ cs)) else none

abbrev behind_sign : Text → Option ℕ
behind_sign [] = none
behind_sign (c ∷ cs) =
    if c == b'-'
    then digits_from (λ n. (2 ^ 64 - n) % 2 ^ 64) cs
    else if c == b'+'
    then digits_from (λ n. n) cs
    else digits_from (λ n. n) (c ∷ cs)

unfoldable pub stoull : Text → Option ℕ
stoull text = behind_sign (skip_space text)
