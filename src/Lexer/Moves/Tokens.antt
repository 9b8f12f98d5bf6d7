-- ===== src/Lexer/Moves/Tokens.antt =====
-- What strings, characters, operators and the loop of `tokenize` move over.
use vexel_lang.Lexer.{
  Lexing, advance, current_location, done, fail, is_vexel_whitespace, match, peek, skip_comment,
  skip_whitespace, ◌>>=◌, ◌>>◌,
}
use vexel_lang.Lexer.Token.{
  Token, char_literal, new_token, string_literal, string_value, uint64_value, with_value,
}
use vexel_lang.Lexer.Read.{
  char_body, is_alpha, is_digit, read_char, read_escape, read_string, string_body, string_loop,
}
use vexel_lang.Lexer.Operator.{
  Switch, emit, on_match, operator_switch, read_operator, run_case, run_switch,
}
use vexel_lang.Lexer.Tokenize.{at_blank, read_token, skip_blank, skip_loop}
use vexel_lang.Lexer.Moves.{
  Moving, Moving-advance, Moving-bind, Moving-choose, Moving-current_location, Moving-done,
  Moving-fail, Moving-if, Moving-peek,
}
use vexel_lang.Lexer.Moves.Readers.{
  Moving-advance_while, Moving-at_comment, Moving-match, Moving-read_escape, Moving-read_identifier,
  Moving-read_number, Moving-skip_comment,
}
use vexel_lang.Base.{
  Option, [], if◌then◌else◌, length, none, some, suc, true, zero, ℕ, ◌==◌, ◌||◌, ◌∷◌,
}
use vexel_lang.Error.{Message, SourceLocation, Text, unterminated_char_literal, unterminated_string}

Moving-string_loop : (fuel : ℕ) → Moving (string_loop fuel)
unfolding string_loop
Moving-string_loop zero = Moving-done {A = Text} []
Moving-string_loop (suc fuel) = Moving-bind (peek 0) _ (Moving-peek 0) (λ c.
    Moving-choose (c == b'"' || c == 0) _ _ (Moving-done {A = Text} []) (
      Moving-bind (if c == b'\\' then read_escape else advance) _
        (Moving-if (c == b'\\') _ _ Moving-read_escape Moving-advance)
        (λ d. Moving-bind (string_loop fuel) _ (Moving-string_loop fuel) (λ str. Moving-done _))))

Moving-string_body : Moving string_body
unfolding string_body
Moving-string_body = record { moves = λ s. (Moving-string_loop (length s.rest)).moves s }

-- The closing quote and the token.
Moving-closed :
    {A : Type 0} (quote : ℕ) (a : A) (message : Message) (loc : SourceLocation)
    → Moving (peek 0 >>= λ q. if q == quote then (advance >> done a) else fail message loc)
Moving-closed quote a message loc = Moving-bind (peek 0) _ (Moving-peek 0) (λ q.
    Moving-if (q == quote) _ _ (Moving-bind advance _ Moving-advance (λ d. Moving-done a))
      (Moving-fail message loc))

Moving-char_body : (c : ℕ) (loc : SourceLocation) → Moving (char_body c loc)
unfolding char_body
Moving-char_body c loc = Moving-if (c == 0) _ _ (Moving-fail _ loc) (
    Moving-if (c == b'\'') _ _ (Moving-fail _ loc)
      (Moving-if (c == b'\\') _ _ Moving-read_escape Moving-advance))

Moving-at_blank : Moving at_blank
unfolding at_blank
Moving-at_blank =
    Moving-bind (peek 0) _ (Moving-peek 0)
      (λ c. Moving-if (is_vexel_whitespace c) _ _ (Moving-done true) Moving-at_comment)

Moving-skip_whitespace : Moving skip_whitespace
unfolding skip_whitespace
Moving-skip_whitespace = Moving-advance_while is_vexel_whitespace

pub Moving-skip_loop : (fuel : ℕ) → Moving (skip_loop fuel)
unfolding skip_loop
Moving-skip_loop zero = Moving-done tt
Moving-skip_loop (suc fuel) = Moving-bind at_blank _ Moving-at_blank (λ blank.
    Moving-choose blank _ _
      (Moving-bind skip_whitespace _ Moving-skip_whitespace
        (λ t. Moving-bind skip_comment _ Moving-skip_comment (λ u. Moving-skip_loop fuel)))
      (Moving-done tt))

pub Moving-skip_blank : Moving skip_blank
unfolding skip_blank
Moving-skip_blank = record { moves = λ s. (Moving-skip_loop (length s.rest)).moves s }

module _ {F : Type 0} where
  pub Moving-run_switch :
      (cases : Switch) (loc : SourceLocation) → Moving (run_switch {F = F} cases loc)
  unfolding run_switch
  Moving-run_switch (emit type lexeme) loc = Moving-done _
  Moving-run_switch (on_match expected matched other) loc =
      Moving-bind (match expected) _ (Moving-match expected) (λ found.
        Moving-choose found _ _ (Moving-run_switch matched loc) (Moving-run_switch other loc))

  pub Moving-run_case :
      (o : Option Switch) (c : ℕ) (loc : SourceLocation) → Moving (run_case {F = F} o c loc)
  Moving-run_case (some cases) c loc = Moving-run_switch cases loc
  Moving-run_case none c loc = Moving-fail _ loc

  pub Moving-string_rest :
      (loc : SourceLocation)
      → Moving (
          string_body >>= λ str. peek 0 >>= λ c.
          if c == b'"'
          then advance
            >> done (with_value (new_token {F = F} string_literal str loc) (string_value str))
          else fail unterminated_string loc)
  Moving-string_rest loc =
      Moving-bind string_body _ Moving-string_body (λ str. Moving-closed b'"' _ _ loc)

  pub Moving-char_rest :
      (loc : SourceLocation)
      → Moving (
          peek 0 >>= λ first. char_body first loc >>= λ c. peek 0 >>= λ q.
          if q == b'\''
          then advance
            >> done (with_value (new_token {F = F} char_literal (c ∷ []) loc) (uint64_value c))
          else fail unterminated_char_literal loc)
  Moving-char_rest loc = Moving-bind (peek 0) _ (Moving-peek 0) (λ first.
      Moving-bind (char_body first loc) _ (Moving-char_body first loc)
        (λ c. Moving-closed b'\'' _ _ loc))

  pub Moving-read_token : (stod : Text → Option F) (c : ℕ) → Moving (read_token stod c)
  unfolding read_token read_string read_char read_operator
  Moving-read_token stod c = Moving-if (is_digit c) _ _ (Moving-read_number stod) (
      Moving-if (is_alpha c || c == b'_') _ _ Moving-read_identifier (
        Moving-if (c == b'"') _ _ (opened _ Moving-string_rest) (
          Moving-if (c == b'\'') _ _ (opened _ Moving-char_rest)
            (opened _ (Moving-run_case (operator_switch c) c)))))
    where
      opened :
          (f : SourceLocation → Lexing (Token F))
          → ((loc : SourceLocation) → Moving (f loc))
          → Moving (current_location >>= λ loc. advance >> f loc)
      opened f h =
          Moving-bind current_location _ Moving-current_location
            (λ loc. Moving-bind advance _ Moving-advance (λ d. h loc))
