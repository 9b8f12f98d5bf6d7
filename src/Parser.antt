-- ===== src/Parser.antt =====
-- frontend/src/parse/parser.h and parser.cpp: the state of `Parser`, what a method of it does, and the
-- methods on one token. `rest` is `tokens` from `pos` on, less the EndOfFile token that the lexer puts
-- last; `before` is the token in front of `pos`. `current()` and `peek()` return that EndOfFile token
-- from the end on, and no method moves past it. `int` depths are not bounded here, and -1, the root
-- depth of no initializer, is `none`. `tmp_counter` is the static counter of `parse_stmt_no_semi`.
-- A method that throws keeps what it did to the state.
pub mod Kinds
pub mod Annotations
pub mod Lookahead
pub mod Grammar
pub mod TypeSyntax
pub mod Operators
pub mod Primary
pub mod Unary
pub mod Variables
pub mod FunctionHead
pub mod Declarations
pub mod Statements
pub mod Modules
pub mod Progress
pub mod Verdict
pub mod Returns
pub mod Folds
pub mod Widths
pub mod Recovery
pub mod Receivers
use vexel_lang.Parser.Kinds.{is_type}
use vexel_lang.Lexer.Token.{
  Token, TokenType, dot, end_of_file, identifier, left_bracket, new_token, question, semicolon,
}
use vexel_lang.Base.{
  Bool, List, Option, [], drop, false, if◌then◌else◌, length, ltb, none, some, suc, true, zero, ℕ,
  ◌&&◌, ◌++◌, ◌+◌, ◌∷◌,
}
use vexel_lang.Error.{CompileError, Message, Result, SourceLocation, Text, err, ok}

pub record Position (F : Type 0) : Type 0 where
  pub before : Option (Token F)
  pub rest : List (Token F)

pub record Parser (F : Type 0) : Type 0 where
  pub pos : Position F
  pub end : SourceLocation
  pub errors : List CompileError
  pub panic_mode : Bool
  pub allow_statement_conditionals : Bool
  pub statement_expr_depth : ℕ
  pub statement_expr_allowed_depth : ℕ
  pub split_top_level_plain_ampersand_funcs : Bool
  pub top_level_init_expr_root_depth : Option ℕ
  pub tmp_counter : ℕ

abbrev pub new_parser : {F : Type 0} → List (Token F) → SourceLocation → Parser F
new_parser tokens end = record {
  pos = record { before = none; rest = tokens };
  end = end;
  errors = [];
  panic_mode = false;
  allow_statement_conditionals = false;
  statement_expr_depth = 0;
  statement_expr_allowed_depth = 0;
  split_top_level_plain_ampersand_funcs = false;
  top_level_init_expr_root_depth = none;
  tmp_counter = 0;
}

pub data Outcome (F : Type 0) (A : Type 0) : Type 0 where
  returned : A → Parser F → Outcome F A
  thrown : CompileError → Parser F → Outcome F A
  out_of_fuel : Outcome F A

-- A method of the class that returns an `A`, or throws.
abbrev pub Parsing : Type 0 → Type 0 → Type 0
Parsing F A = Parser F → Outcome F A

infixl 5 ◌>>=◌ ◌>>◌
abbrev pub ◌>>=◌ : {F A B : Type 0} → Parsing F A → (A → Parsing F B) → Parsing F B
◌>>=◌ m f s = elim (m s) [
  | returned a t ↦ f a t
  | thrown e t ↦ thrown e t
  | out_of_fuel ↦ out_of_fuel
]

abbrev pub ◌>>◌ : {F A B : Type 0} → Parsing F A → Parsing F B → Parsing F B
m >> k = m >>= λ _. k

module _ {F : Type 0} where
  abbrev pub done : {A : Type 0} → A → Parsing F A
  done a s = returned a s

  abbrev pub asks : {A : Type 0} → (Parser F → A) → Parsing F A
  asks f s = returned (f s) s

  abbrev pub no_fuel : {A : Type 0} → Parsing F A
  no_fuel s = out_of_fuel

  abbrev pub throw_at : {A : Type 0} → Message → SourceLocation → Parsing F A
  throw_at message loc s = thrown (record { message = message; location = loc }) s

  -- A throwing function that is not a method.
  abbrev pub lift : {A : Type 0} → Result A → Parsing F A
  lift (ok a) s = returned a s
  lift (err e) s = thrown e s

  abbrev pub end_token : Parser F → Token F
  end_token s = new_token end_of_file [] s.end

  abbrev pub head_or : Token F → List (Token F) → Token F
  head_or d [] = d
  head_or d (t ∷ ts) = t

  unfoldable pub current : Parser F → Token F
  current s = head_or (end_token s) s.pos.rest

  unfoldable pub peek : ℕ → Parser F → Token F
  peek offset s = head_or (end_token s) (drop offset s.pos.rest)

  abbrev previous_or : Token F → Option (Token F) → Token F
  previous_or d none = d
  previous_or d (some t) = t

  unfoldable pub previous : Parser F → Token F
  previous s = previous_or (current s) s.pos.before

  -- `pos++`, which no method does at the end.
  unfoldable pub next : Position F → Position F
  next p = elim p.rest [ [] ↦ p | t ∷ ts ↦ record { before = some t; rest = ts } ]

  unfoldable pub step : Parsing F (Unit {0})
  step s = returned tt (record s { pos = next s.pos })

  -- `pos = saved`.
  abbrev pub rewind : Position F → Parsing F (Unit {0})
  rewind saved s = returned tt (record s { pos = saved })

  abbrev pub position : Parser F → Position F
  position s = s.pos

  abbrev pub here : Parser F → SourceLocation
  here s = (current s).location

  unfoldable pub check : TokenType → Parser F → Bool
  check type s = is_type (current s).type type

  unfoldable pub match : TokenType → Parsing F Bool
  match type = do found ← asks (check type); if found then step >> done true else done false

  unfoldable pub record_error : Message → SourceLocation → Parsing F (Unit {0})
  record_error message loc s = returned tt (record s {
    errors = s.errors ++ record { message = message; location = loc } ∷ [];
    panic_mode = true;
  })

  unfoldable pub consume : TokenType → Message → Parsing F (Token F)
  consume type message = do
    token ← asks current
    if is_type token.type type
        then step >> done token
        else record_error message token.location >> done token

  -- `Token tok = current(); pos++;`
  unfoldable pub take : Parsing F (Token F)
  take = do token ← asks current; step; done token

  unfoldable pub check_dotted_operator : TokenType → Parser F → Bool
  check_dotted_operator inner_type s =
      check dot s && is_type (peek 1 s).type inner_type && ltb 1 (length s.pos.rest + 1)

  unfoldable pub check_member_dot : Parser F → Bool
  check_member_dot s = check_dotted_operator identifier s

  unfoldable pub check_probe_dot : Parser F → Bool
  check_probe_dot s =
      check dot s
      && is_type (peek 1 s).type question
      && is_type (peek 2 s).type identifier
      && ltb 2 (length s.pos.rest + 1)

  unfoldable pub match_dotted_operator : TokenType → Parsing F (Option Text)
  match_dotted_operator inner_type = do
    found ← asks (check_dotted_operator inner_type)
    inner ← asks (peek 1)
    if found then step >> step >> done (some (b'.' ∷ inner.lexeme)) else done none

  unfoldable pub is_annotation_start : Parser F → Bool
  is_annotation_start s =
      check left_bracket s
      && is_type (peek 1 s).type left_bracket
      && is_type (peek 2 s).type identifier

  -- `while (match(type));`
  unfoldable pub skip_loop : TokenType → ℕ → Parsing F (Unit {0})
  skip_loop type zero = no_fuel
  skip_loop type (suc fuel) = do
    found ← match type
    elim found [ true ↦ skip_loop type fuel | false ↦ done tt ]

  -- Rounds of a loop that takes a token or more in each: the tokens that are left, and the round that
  -- ends the loop.
  abbrev pub rounds : Parser F → ℕ
  rounds s = suc (length s.pos.rest)

  unfoldable pub skip_semis : Parsing F (Unit {0})
  skip_semis s = skip_loop semicolon (rounds s) s

  -- `do { items.push_back(item()); } while (match(TokenType::Comma));`
  unfoldable pub separated_loop : {A : Type 0} → TokenType → ℕ → Parsing F A → Parsing F (List A)
  separated_loop type zero item = no_fuel
  separated_loop type (suc fuel) item = do
    a ← item
    found ← match type
    elim found [
      | true ↦ do items ← separated_loop type fuel item; done (a ∷ items)
      | false ↦ done (a ∷ [])
    ]

  unfoldable pub separated : {A : Type 0} → TokenType → Parsing F A → Parsing F (List A)
  separated type item s = separated_loop type (rounds s) item s

  -- `try { a = m(); } catch (const CompileError&) { pos = saved; }`: `none` for what is caught.
  abbrev pub caught : {A : Type 0} → Position F → Outcome F A → Outcome F (Option A)
  caught saved (returned a t) = returned (some a) t
  caught saved (thrown e t) = returned none (record t { pos = saved })
  caught saved out_of_fuel = out_of_fuel

  unfoldable pub attempt : {A : Type 0} → Parsing F A → Parsing F (Option A)
  attempt m s = caught s.pos (m s)

  -- `m`, and behind it `pos = saved` and `otherwise` where it finds nothing.
  abbrev pub found_or : {A : Type 0} → Position F → Parsing F A → Option A → Parsing F A
  found_or saved otherwise (some a) = done a
  found_or saved otherwise none = rewind saved >> otherwise

  unfoldable pub or_rewind : {A : Type 0} → Parsing F (Option A) → Parsing F A → Parsing F A
  or_rewind m otherwise = do saved ← asks position; found ← m; found_or saved otherwise found
