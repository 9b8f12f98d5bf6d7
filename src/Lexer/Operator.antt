-- ===== src/Lexer/Operator.antt =====
-- frontend/src/parse/lexer.cpp: the switch of `tokenize` on the first character of an operator. What
-- stands in a case, calls of `match` and the tokens, is a `Switch`.
use vexel_lang.Lexer.{Lexing, advance, current_location, done, fail, match, ◌>>=◌, ◌>>◌}
use vexel_lang.Lexer.Token.{
  Token, TokenType, ampersand, ampersand_bang, ampersand_caret, arrow, assign, at_sign,
  bit_and_assign, bit_not, bit_or, bit_or_assign, bit_xor, bit_xor_assign, break_arrow, colon,
  comma, continue_arrow, dollar, dot, dot_dot, double_at, double_colon, equal, greater,
  greater_equal, hash, left_brace, left_bracket, left_paren, left_shift, left_shift_assign, less,
  less_equal, logical_and, logical_and_assign, logical_not, logical_or, logical_or_assign, minus,
  minus_assign, new_token, not_equal, percent, percent_assign, plus, plus_assign, question,
  right_brace, right_bracket, right_paren, right_shift, right_shift_assign, semicolon, slash,
  slash_assign, star, star_assign,
}
use vexel_lang.Base.{Option, [], false, if◌then◌else◌, none, some, true, ℕ, ◌==◌, ◌∷◌}
use vexel_lang.Error.{SourceLocation, Text, unexpected_character}

pub data Switch : Type 0 where
  -- `tokens.emplace_back(type, lexeme, loc)`.
  emit : TokenType → Text → Switch
  -- `if (match(expected)) ... else ...`.
  on_match : ℕ → Switch → Switch → Switch

abbrev pub bar_switch : Switch
bar_switch =
    on_match b'|'
      (on_match b'=' (emit logical_or_assign (b'|' ∷ b'|' ∷ b'=' ∷ []))
        (emit logical_or (b'|' ∷ b'|' ∷ [])))
      (on_match b'=' (emit bit_or_assign (b'|' ∷ b'=' ∷ [])) (emit bit_or (b'|' ∷ [])))

abbrev pub ampersand_switch : Switch
ampersand_switch = on_match b'!' (emit ampersand_bang (b'&' ∷ b'!' ∷ [])) (
    on_match b'^' (emit ampersand_caret (b'&' ∷ b'^' ∷ [])) (
      on_match b'&'
        (on_match b'=' (emit logical_and_assign (b'&' ∷ b'&' ∷ b'=' ∷ []))
          (emit logical_and (b'&' ∷ b'&' ∷ [])))
        (on_match b'=' (emit bit_and_assign (b'&' ∷ b'=' ∷ [])) (emit ampersand (b'&' ∷ [])))))

abbrev pub less_switch : Switch
less_switch =
    on_match b'<'
      (on_match b'=' (emit left_shift_assign (b'<' ∷ b'<' ∷ b'=' ∷ []))
        (emit left_shift (b'<' ∷ b'<' ∷ [])))
      (on_match b'=' (emit less_equal (b'<' ∷ b'=' ∷ [])) (emit less (b'<' ∷ [])))

abbrev pub greater_switch : Switch
greater_switch =
    on_match b'>'
      (on_match b'=' (emit right_shift_assign (b'>' ∷ b'>' ∷ b'=' ∷ []))
        (emit right_shift (b'>' ∷ b'>' ∷ [])))
      (on_match b'=' (emit greater_equal (b'>' ∷ b'=' ∷ [])) (emit greater (b'>' ∷ [])))

abbrev pub minus_switch : Switch
minus_switch =
    on_match b'>'
      (on_match b'|' (emit break_arrow (b'-' ∷ b'>' ∷ b'|' ∷ [])) (
        on_match b'>' (emit continue_arrow (b'-' ∷ b'>' ∷ b'>' ∷ []))
          (emit arrow (b'-' ∷ b'>' ∷ []))))
      (on_match b'=' (emit minus_assign (b'-' ∷ b'=' ∷ [])) (emit minus (b'-' ∷ [])))

-- The characters that are a token alone.
unfoldable pub single_switch : ℕ → Option Switch
single_switch c =
    if c == b'$'
    then some (emit dollar (b'$' ∷ []))
    else if c == b'#'
    then some (emit hash (b'#' ∷ []))
    else if c == b'~'
    then some (emit bit_not (b'~' ∷ []))
    else if c == b'('
    then some (emit left_paren (b'(' ∷ []))
    else if c == b')'
    then some (emit right_paren (b')' ∷ []))
    else if c == b'{'
    then some (emit left_brace (b'{' ∷ []))
    else if c == b'}'
    then some (emit right_brace (b'}' ∷ []))
    else if c == b'['
    then some (emit left_bracket (b'[' ∷ []))
    else if c == b']'
    then some (emit right_bracket (b']' ∷ []))
    else if c == b','
    then some (emit comma (b',' ∷ []))
    else if c == b';'
    then some (emit semicolon (b';' ∷ []))
    else if c == b'?'
    then some (emit question (b'?' ∷ []))
    else none

-- Those that one other character may follow.
unfoldable pub double_switch : ℕ → Option Switch
double_switch c =
    if c == b'@'
    then some (on_match b'@' (emit double_at (b'@' ∷ b'@' ∷ [])) (emit at_sign (b'@' ∷ [])))
    else if c == b'+'
    then some (on_match b'=' (emit plus_assign (b'+' ∷ b'=' ∷ [])) (emit plus (b'+' ∷ [])))
    else if c == b'*'
    then some (on_match b'=' (emit star_assign (b'*' ∷ b'=' ∷ [])) (emit star (b'*' ∷ [])))
    else if c == b'/'
    then some (on_match b'=' (emit slash_assign (b'/' ∷ b'=' ∷ [])) (emit slash (b'/' ∷ [])))
    else if c == b'%'
    then some (on_match b'=' (emit percent_assign (b'%' ∷ b'=' ∷ [])) (emit percent (b'%' ∷ [])))
    else if c == b'^'
    then some (on_match b'=' (emit bit_xor_assign (b'^' ∷ b'=' ∷ [])) (emit bit_xor (b'^' ∷ [])))
    else if c == b'!'
    then some (on_match b'=' (emit not_equal (b'!' ∷ b'=' ∷ [])) (emit logical_not (b'!' ∷ [])))
    else if c == b'='
    then some (on_match b'=' (emit equal (b'=' ∷ b'=' ∷ [])) (emit assign (b'=' ∷ [])))
    else if c == b'.'
    then some (on_match b'.' (emit dot_dot (b'.' ∷ b'.' ∷ [])) (emit dot (b'.' ∷ [])))
    else if c == b':'
    then some (on_match b':' (emit double_colon (b':' ∷ b':' ∷ [])) (emit colon (b':' ∷ [])))
    else none

-- Those with longer operators.
unfoldable pub long_switch : ℕ → Option Switch
long_switch c =
    if c == b'|'
    then some bar_switch
    else if c == b'&'
    then some ampersand_switch
    else if c == b'<'
    then some less_switch
    else if c == b'>'
    then some greater_switch
    else if c == b'-'
    then some minus_switch
    else none

abbrev pub or_else : Option Switch → Option Switch → Option Switch
or_else (some s) other = some s
or_else none other = other

-- The case of `c`, `none` for the default.
unfoldable pub operator_switch : ℕ → Option Switch
operator_switch c = or_else (single_switch c) (or_else (double_switch c) (long_switch c))

unfoldable pub run_switch : {F : Type 0} → Switch → SourceLocation → Lexing (Token F)
run_switch (emit type lexeme) loc = done (new_token type lexeme loc)
run_switch (on_match expected matched other) loc = do
  found ← match expected
  elim found [ true ↦ run_switch matched loc | false ↦ run_switch other loc ]

abbrev pub run_case : {F : Type 0} → Option Switch → ℕ → SourceLocation → Lexing (Token F)
run_case (some cases) c loc = run_switch cases loc
run_case none c loc = fail (unexpected_character c) loc

unfoldable pub read_operator : {F : Type 0} → ℕ → Lexing (Token F)
read_operator c = do loc ← current_location; advance; run_case (operator_switch c) c loc
