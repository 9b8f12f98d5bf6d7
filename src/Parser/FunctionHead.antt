-- ===== src/Parser/FunctionHead.antt =====
-- frontend/src/parse/parser.cpp: a function's receivers, namespace and name.
use vexel_lang.Parser.{
  Parsing, asks, check, consume, current, done, here, match, no_fuel, or_rewind, peek, separated,
  step, take, throw_at, ◌>>=◌, ◌>>◌,
}
use vexel_lang.Parser.Kinds.{
  is_one_of, is_operator_function_token, is_per_element_operator_inner_token, is_type,
}
use vexel_lang.Parser.Lookahead.{kind_at, kinds}
use vexel_lang.Parser.Grammar.{name_token}
use vexel_lang.Lexer.Token.{
  TokenType, colon, comma, dollar, dot, double_colon, end_of_file, hash, identifier, left_paren,
  right_paren,
}
use vexel_lang.Base.{
  Bool, List, Option, [], drop, false, if◌then◌else◌, length, none, not, some, suc, true, zero, ℕ,
  ◌&&◌, ◌==◌, ◌∷◌,
}
use vexel_lang.Error.{
  Text, expected_function_name, expected_identifier, expected_left_paren, expected_right_paren,
  method_declaration_syntax, method_receiver_count,
}

abbrev pub some_text : Option Text → Text
some_text none = []
some_text (some t) = t

abbrev pub as_found : Option Text → Option (Option Text)
as_found none = none
as_found (some t) = some (some t)

module _ {F : Type 0} where
  -- Behind the receiver list's `(`: it holds names only, as far as the loop goes.
  unfoldable pub receivers_loop : ℕ → List TokenType → Parsing F Bool
  receivers_loop zero ts = no_fuel
  receivers_loop (suc fuel) ts = elim (is_one_of (kind_at 0 ts) (right_paren ∷ end_of_file ∷ [])) [
    | true ↦ done true
    | false ↦
        elim (is_type (kind_at 0 ts) identifier
          && not (is_one_of (kind_at 1 ts) (colon ∷ dollar ∷ []))) [
            | true ↦ elim (is_type (kind_at 1 ts) comma) [
              | true ↦ receivers_loop fuel (drop 2 ts)
              | false ↦ done true
            ]
            | false ↦ done false
          ]
  ]

  unfoldable pub looks_like_receivers : List TokenType → Parsing F Bool
  looks_like_receivers ts =
      if is_type (kind_at 0 ts) right_paren then done false else receivers_loop (suc (length ts)) ts

  unfoldable pub parse_ref_params : Parsing F (List Text)
  parse_ref_params = do
    consume left_paren expected_left_paren
    refs ← separated comma (name_token expected_identifier)
    consume right_paren expected_right_paren
    done refs

  unfoldable pub parse_receivers : Parsing F (List Text)
  parse_receivers = do
    opened ← asks (check left_paren)
    ts ← asks (λ s. drop 1 (kinds s))
    if opened
        then (do
          looks_like_ref ← looks_like_receivers ts
          if looks_like_ref then parse_ref_params else done [])
        else done []

  abbrev pub namespace_name : Parsing F (Option Text)
  namespace_name = do
    hashed ← match hash
    named ← asks (check identifier)
    if hashed && named
        then (do
          maybe_type ← take
          separator ← match double_colon
          done (if separator then some maybe_type.lexeme else none))
        else done none

  -- `#Type::`, or nothing taken.
  unfoldable pub parse_namespace : Parsing F (Option Text)
  parse_namespace = or_rewind (do name ← namespace_name; done (as_found name)) (done none)

  abbrev pub check_receivers : Option Text → List Text → Parsing F (Unit {0})
  check_receivers none refs = do
    qualified ← asks (λ s. check identifier s && is_type (peek 1 s).type double_colon)
    loc ← asks here
    if qualified then throw_at method_declaration_syntax loc else done tt
  check_receivers (some name) refs = do
    loc ← asks here
    if length refs == 1 then done tt else throw_at method_receiver_count loc

  unfoldable pub parse_function_name : Parsing F Text
  parse_function_name = do
    tok ← asks current
    inner ← asks (peek 1)
    if is_type tok.type identifier
        then name_token expected_function_name
        else if is_type tok.type dot && is_per_element_operator_inner_token inner.type
        then step >> step >> done (b'.' ∷ inner.lexeme)
        else if is_operator_function_token tok.type
        then step >> done tok.lexeme
        else throw_at expected_function_name tok.location
