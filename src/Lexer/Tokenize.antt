-- ===== src/Lexer/Tokenize.antt =====
-- frontend/src/parse/lexer.cpp: `tokenize`. Its loops have fuel for the characters that are left.
use vexel_lang.Lexer.{
  Lexing, at_comment, current_location, done, is_vexel_whitespace, peek, skip_comment,
  skip_whitespace, ◌>>=◌, ◌>>◌,
}
use vexel_lang.Lexer.Token.{Token, end_of_file, new_token}
use vexel_lang.Lexer.Read.{is_alpha, is_digit, read_char, read_identifier, read_number, read_string}
use vexel_lang.Lexer.Operator.{read_operator}
use vexel_lang.Base.{
  Bool, List, Option, [], false, if◌then◌else◌, length, suc, true, zero, ℕ, ◌==◌, ◌||◌, ◌∷◌,
}
use vexel_lang.Error.{Text}

-- `is_vexel_whitespace(peek()) || (peek() == '/' && peek(1) == '/')`.
unfoldable pub at_blank : Lexing Bool
at_blank = do c ← peek 0; if is_vexel_whitespace c then done true else at_comment

unfoldable pub skip_loop : ℕ → Lexing (Unit {0})
skip_loop zero = done tt
skip_loop (suc fuel) = do
  blank ← at_blank
  elim blank [ true ↦ do skip_whitespace; skip_comment; skip_loop fuel | false ↦ done tt ]

unfoldable pub skip_blank : Lexing (Unit {0})
skip_blank s = skip_loop (length s.rest) s

unfoldable pub read_token : {F : Type 0} → (Text → Option F) → ℕ → Lexing (Token F)
read_token stod c =
    if is_digit c
    then read_number stod
    else if is_alpha c || c == b'_'
    then read_identifier
    else if c == b'"'
    then read_string
    else if c == b'\''
    then read_char
    else read_operator c

unfoldable pub end_tokens : {F : Type 0} → Lexing (List (Token F))
end_tokens = do loc ← current_location; done (new_token end_of_file [] loc ∷ [])

unfoldable pub tokenize_loop : {F : Type 0} → (Text → Option F) → ℕ → Lexing (List (Token F))
tokenize_loop stod zero = end_tokens
tokenize_loop stod (suc fuel) = do
  c ← peek 0
  elim (c == 0) [
    | true ↦ end_tokens
    | false ↦ do
      skip_blank
      d ← peek 0
      elim (d == 0) [
        | true ↦ end_tokens
        | false ↦ do
          token ← read_token stod d
          tokens ← tokenize_loop stod fuel
          done (token ∷ tokens)
      ]
  ]

unfoldable pub tokenize : {F : Type 0} → (Text → Option F) → Lexing (List (Token F))
tokenize stod s = tokenize_loop stod (length s.rest) s
