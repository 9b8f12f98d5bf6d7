-- ===== src/Lexer/Read.antt =====
-- frontend/src/parse/lexer.cpp: the readers of numbers, identifiers, strings and characters.
-- `std::stod` is the argument `stod`, `none` where it throws.
use vexel_lang.Lexer.{
  Lexing, advance, advance_while, current_location, done, fail, fail_here, peek, ◌>>=◌, ◌>>◌,
}
use vexel_lang.Lexer.Token.{
  Token, char_literal, double_value, float_literal, identifier, int_literal, new_token,
  string_literal, string_value, uint64_value, with_value,
}
use vexel_lang.Base.{
  Bool, Option, [], false, if◌then◌else◌, leb, length, none, not, some, suc, true, zero, ℕ, ◌&&◌,
  ◌*◌, ◌++◌, ◌+◌, ◌-◌, ◌==◌, ◌||◌, ◌∷◌,
}
use vexel_lang.Error.{
  SourceLocation, Text, empty_character_literal, float_literal_overflow,
  identifier_starts_with_digit, invalid_escape_sequence, invalid_float_literal_exponent,
  invalid_hex_escape_sequence, invalid_hexadecimal_digits, unterminated_char_literal,
  unterminated_escape_sequence, unterminated_hex_escape_sequence, unterminated_string,
}

abbrev pub is_digit : ℕ → Bool
is_digit c = leb b'0' c && leb c b'9'

abbrev pub is_alpha : ℕ → Bool
is_alpha c = leb b'a' c && leb c b'z' || leb b'A' c && leb c b'Z'

abbrev pub is_xdigit : ℕ → Bool
is_xdigit c = is_digit c || leb b'a' c && leb c b'f' || leb b'A' c && leb c b'F'

abbrev pub is_octal : ℕ → Bool
is_octal c = leb b'0' c && leb c b'7'

abbrev pub to_lower : ℕ → ℕ
to_lower c = if leb b'A' c && leb c b'Z' then c + 32 else c

-- `isdigit(h) ? h-'0' : tolower(h)-'a'+10`.
abbrev pub hex_value : ℕ → ℕ
hex_value h = if is_digit h then h - b'0' else to_lower h - b'a' + 10

unfoldable pub read_hex_escape : Lexing ℕ
read_hex_escape = do
  h1 ← advance
  h2 ← advance
  if h1 == 0 || h2 == 0
      then fail_here unterminated_hex_escape_sequence
      else if not (is_xdigit h1) || not (is_xdigit h2)
      then fail_here invalid_hex_escape_sequence
      else done (hex_value h1 * 16 + hex_value h2)

-- The digit behind `o1`, which `val` has.
unfoldable pub more_octal : ℕ → Lexing ℕ
more_octal val = do
  advance
  o2 ← peek 0
  if is_octal o2 then (do advance; done (val * 8 + (o2 - b'0'))) else done val

unfoldable pub read_octal_escape : ℕ → Lexing ℕ
read_octal_escape c = do
  let first = c - b'0'
  o1 ← peek 0
  if is_octal o1 then more_octal (first * 8 + (o1 - b'0')) else done first

unfoldable pub escape_of : ℕ → Lexing ℕ
escape_of c =
    if c == 0
    then fail_here unterminated_escape_sequence
    else if c == b'n'
    then done b'\n'
    else if c == b'r'
    then done b'\r'
    else if c == b't'
    then done b'\t'
    else if c == b'\\'
    then done b'\\'
    else if c == b'\''
    then done b'\''
    else if c == b'"'
    then done b'"'
    else if c == b'x'
    then read_hex_escape
    else if leb b'0' c && leb c b'3'
    then read_octal_escape c
    else fail_here (invalid_escape_sequence c)

unfoldable pub read_escape : Lexing ℕ
read_escape = do advance; c ← advance; escape_of c

-- `ensure_no_identifier_tail`.
unfoldable pub ensure_no_identifier_tail : Text → SourceLocation → Lexing (Unit {0})
ensure_no_identifier_tail num loc = do
  trailing ← peek 0
  if is_alpha trailing || trailing == b'_'
      then fail (identifier_starts_with_digit (num ++ trailing ∷ [])) loc
      else done tt

-- `peek() == '0' && (peek(1) == 'x' || peek(1) == 'X')`.
unfoldable pub at_hex : Lexing Bool
at_hex = do
  a ← peek 0
  if a == b'0' then (do b ← peek 1; done (b == b'x' || b == b'X')) else done false

unfoldable pub hex_digits : {F : Type 0} → ℕ → ℕ → SourceLocation → Lexing (Token F)
hex_digits a b loc = do
  digits ← advance_while is_xdigit
  ensure_no_identifier_tail (a ∷ b ∷ digits) loc
  done (new_token int_literal (a ∷ b ∷ digits) loc)

unfoldable pub read_hex : {F : Type 0} → SourceLocation → Lexing (Token F)
read_hex loc = do
  a ← advance
  b ← advance
  c ← peek 0
  if is_xdigit c then hex_digits a b loc else fail invalid_hexadecimal_digits loc

-- The sign of an exponent, if there is one.
unfoldable pub read_sign : Lexing Text
read_sign = do
  c ← peek 0
  if c == b'+' || c == b'-' then (do sign ← advance; done (sign ∷ [])) else done []

unfoldable pub exponent_digits : SourceLocation → Lexing Text
exponent_digits loc = do
  mark ← advance
  sign ← read_sign
  d ← peek 0
  if is_digit d
      then (do digits ← advance_while is_digit; done (mark ∷ sign ++ digits))
      else fail invalid_float_literal_exponent loc

-- The optional exponent.
unfoldable pub read_exponent : SourceLocation → Lexing Text
read_exponent loc = do c ← peek 0; if c == b'e' || c == b'E' then exponent_digits loc else done []

unfoldable pub float_token : {F : Type 0} → Option F → Text → SourceLocation → Lexing (Token F)
float_token none num loc = fail (float_literal_overflow num) loc
float_token (some val) num loc =
    done (with_value (new_token float_literal num loc) (double_value val))

unfoldable pub read_float :
    {F : Type 0} → (Text → Option F) → Text → SourceLocation → Lexing (Token F)
read_float stod whole loc = do
  point ← advance
  fraction ← advance_while is_digit
  exponent ← read_exponent loc
  let num = whole ++ point ∷ fraction ++ exponent
  ensure_no_identifier_tail num loc
  float_token (stod num) num loc

-- `peek() == '.' && isdigit(peek(1))`.
unfoldable pub at_fraction : Lexing Bool
at_fraction = do a ← peek 0; if a == b'.' then (do b ← peek 1; done (is_digit b)) else done false

unfoldable pub read_decimal : {F : Type 0} → (Text → Option F) → SourceLocation → Lexing (Token F)
read_decimal stod loc = do
  num ← advance_while is_digit
  ensure_no_identifier_tail num loc
  fraction ← at_fraction
  if fraction then read_float stod num loc else done (new_token int_literal num loc)

unfoldable pub read_number : {F : Type 0} → (Text → Option F) → Lexing (Token F)
read_number stod = do
  loc ← current_location
  hex ← at_hex
  if hex then read_hex loc else read_decimal stod loc

unfoldable pub read_identifier : {F : Type 0} → Lexing (Token F)
read_identifier = do
  loc ← current_location
  id ← advance_while (λ c. is_alpha c || is_digit c || c == b'_')
  done (new_token identifier id loc)

-- The loop of `read_string`, with fuel for the characters that are left.
unfoldable pub string_loop : ℕ → Lexing Text
string_loop zero = done []
string_loop (suc fuel) = do
  c ← peek 0
  elim (c == b'"' || c == 0) [
    | true ↦ done []
    | false ↦ do
      d ← if c == b'\\' then read_escape else advance
      str ← string_loop fuel
      done (d ∷ str)
  ]

unfoldable pub string_body : Lexing Text
string_body s = string_loop (length s.rest) s

unfoldable pub read_string : {F : Type 0} → Lexing (Token F)
read_string = do
  loc ← current_location
  advance
  str ← string_body
  c ← peek 0
  if c == b'"'
      then (do advance; done (with_value (new_token string_literal str loc) (string_value str)))
      else fail unterminated_string loc

-- The character between the quotes.
unfoldable pub char_body : ℕ → SourceLocation → Lexing ℕ
char_body c loc =
    if c == 0
    then fail unterminated_char_literal loc
    else if c == b'\''
    then fail empty_character_literal loc
    else if c == b'\\'
    then read_escape
    else advance

unfoldable pub read_char : {F : Type 0} → Lexing (Token F)
read_char = do
  loc ← current_location
  advance
  first ← peek 0
  c ← char_body first loc
  q ← peek 0
  if q == b'\''
      then (do advance; done (with_value (new_token char_literal (c ∷ []) loc) (uint64_value c)))
      else fail unterminated_char_literal loc
