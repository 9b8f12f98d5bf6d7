-- ===== src/Lexer/Moves/Readers.antt =====
-- What the readers of lexer.cpp move over. A peek, and a test of what it saw.
use vexel_lang.Lexer.{
  Lexing, advance, advance_loop, advance_while, at_comment, current_location, done, fail, match,
  peek, skip_comment, ◌>>=◌, ◌>>◌,
}
use vexel_lang.Lexer.Token.{Token, identifier, int_literal, new_token}
use vexel_lang.Lexer.Read.{
  at_fraction, at_hex, ensure_no_identifier_tail, escape_of, exponent_digits, float_token,
  hex_digits, is_alpha, is_digit, is_octal, is_xdigit, more_octal, read_decimal, read_escape,
  read_exponent, read_float, read_hex, read_hex_escape, read_identifier, read_number,
  read_octal_escape, read_sign,
}
use vexel_lang.Lexer.Moves.{
  Moving, Moving-advance, Moving-bind, Moving-choose, Moving-current_location, Moving-done,
  Moving-fail, Moving-fail_here, Moving-if, Moving-peek,
}
use vexel_lang.Base.{
  Bool, Option, [], false, if◌then◌else◌, leb, length, none, not, some, suc, true, zero, ℕ, ◌&&◌,
  ◌*◌, ◌+◌, ◌-◌, ◌==◌, ◌||◌, ◌∷◌,
}
use vexel_lang.Error.{SourceLocation, Text, invalid_hexadecimal_digits}

Moving-test :
    {A : Type 0} (offset : ℕ) (test : ℕ → Bool) (m n : ℕ → Lexing A)
    → ((c : ℕ) → Moving (m c))
    → ((c : ℕ) → Moving (n c))
    → Moving (peek offset >>= λ c. if test c then m c else n c)
Moving-test offset test m n hm hn =
    Moving-bind (peek offset) _ (Moving-peek offset) (λ c. Moving-if (test c) _ _ (hm c) (hn c))

-- An advance, and what follows it.
Moving-step : {A : Type 0} (f : ℕ → Lexing A) → ((d : ℕ) → Moving (f d)) → Moving (advance >>= f)
Moving-step f h = Moving-bind advance f Moving-advance h

pub Moving-match : (expected : ℕ) → Moving (match expected)
unfolding match
Moving-match expected =
    Moving-test 0 (λ c. c == expected) _ _ (λ c. Moving-step _ (λ d. Moving-done true))
      (λ c. Moving-done false)

pub Moving-advance_loop : (test : ℕ → Bool) (fuel : ℕ) → Moving (advance_loop test fuel)
unfolding advance_loop
Moving-advance_loop test zero = Moving-done {A = Text} []
Moving-advance_loop test (suc fuel) = Moving-bind (peek 0) _ (Moving-peek 0) (λ c.
    Moving-choose (test c) _ _
      (Moving-step _ (λ d.
        Moving-bind (advance_loop test fuel) _ (Moving-advance_loop test fuel)
          (λ text. Moving-done (d ∷ text))))
      (Moving-done {A = Text} []))

pub Moving-advance_while : (test : ℕ → Bool) → Moving (advance_while test)
unfolding advance_while
Moving-advance_while test = record {
  moves = λ s. (Moving-advance_loop test (length s.rest)).moves s;
}

Moving-while :
    {A : Type 0} (test : ℕ → Bool) (f : Text → Lexing A)
    → ((text : Text) → Moving (f text))
    → Moving (advance_while test >>= f)
Moving-while test f h = Moving-bind (advance_while test) f (Moving-advance_while test) h

-- Two peeks, the second where the first sees `expected`.
Moving-ahead :
    (expected : ℕ) (test : ℕ → Bool)
    → Moving (peek 0 >>= λ a. if a == expected then peek 1 >>= (λ b. done (test b)) else done false)
Moving-ahead expected test =
    Moving-test 0 (λ a. a == expected) (λ a. peek 1 >>= (λ b. done (test b))) (λ a. done false)
      (λ a. Moving-bind (peek 1) _ (Moving-peek 1) (λ b. Moving-done (test b)))
      (λ a. Moving-done false)

pub Moving-at_comment : Moving at_comment
unfolding at_comment
Moving-at_comment = Moving-ahead b'/' (λ b. b == b'/')

pub Moving-at_hex : Moving at_hex
unfolding at_hex
Moving-at_hex = Moving-ahead b'0' (λ b. b == b'x' || b == b'X')

Moving-at_fraction : Moving at_fraction
unfolding at_fraction
Moving-at_fraction = Moving-ahead b'.' is_digit

pub Moving-skip_comment : Moving skip_comment
unfolding skip_comment
Moving-skip_comment =
    Moving-bind at_comment _ Moving-at_comment
      (λ c. Moving-if c _ _ (Moving-advance_while _) (Moving-done {A = Text} []))

Moving-read_hex_escape : Moving read_hex_escape
unfolding read_hex_escape
Moving-read_hex_escape = Moving-step _ (λ h1. Moving-step _ (λ h2.
    Moving-if (h1 == 0 || h2 == 0) _ _ (Moving-fail_here _) (
      Moving-if (not (is_xdigit h1) || not (is_xdigit h2)) _ _ (Moving-fail_here _)
        (Moving-done _))))

Moving-more_octal : (val : ℕ) → Moving (more_octal val)
unfolding more_octal
Moving-more_octal val = Moving-step _ (λ d.
    Moving-test 0 is_octal _ _ (λ o2. Moving-step _ (λ e. Moving-done (val * 8 + (o2 - b'0'))))
      (λ o2. Moving-done val))

Moving-read_octal_escape : (c : ℕ) → Moving (read_octal_escape c)
unfolding read_octal_escape
Moving-read_octal_escape c =
    Moving-test 0 is_octal _ _ (λ o1. Moving-more_octal _) (λ o1. Moving-done _)

Moving-escape_of : (c : ℕ) → Moving (escape_of c)
unfolding escape_of
Moving-escape_of c = Moving-if (c == 0) _ _ (Moving-fail_here _) (
    Moving-if (c == b'n') _ _ (Moving-done _) (
      Moving-if (c == b'r') _ _ (Moving-done _) (
        Moving-if (c == b't') _ _ (Moving-done _) (
          Moving-if (c == b'\\') _ _ (Moving-done _) (
            Moving-if (c == b'\'') _ _ (Moving-done _) (
              Moving-if (c == b'"') _ _ (Moving-done _) (
                Moving-if (c == b'x') _ _ Moving-read_hex_escape (
                  Moving-if (leb b'0' c && leb c b'3') _ _ (Moving-read_octal_escape c)
                    (Moving-fail_here _)))))))))

pub Moving-read_escape : Moving read_escape
unfolding read_escape
Moving-read_escape = Moving-step _ (λ c. Moving-step _ Moving-escape_of)

Moving-ensure_no_identifier_tail :
    (num : Text) (loc : SourceLocation) → Moving (ensure_no_identifier_tail num loc)
unfolding ensure_no_identifier_tail
Moving-ensure_no_identifier_tail num loc =
    Moving-test 0 (λ c. is_alpha c || c == b'_') _ _ (λ c. Moving-fail _ loc) (λ c. Moving-done tt)

Moving-read_sign : Moving read_sign
unfolding read_sign
Moving-read_sign =
    Moving-test 0 (λ c. c == b'+' || c == b'-') _ _ (λ c. Moving-step _ (λ d. Moving-done _))
      (λ c. Moving-done {A = Text} [])

Moving-exponent_digits : (loc : SourceLocation) → Moving (exponent_digits loc)
unfolding exponent_digits
Moving-exponent_digits loc = Moving-step _ (λ mark.
    Moving-bind read_sign _ Moving-read_sign (λ sign.
      Moving-test 0 is_digit _ _ (λ d. Moving-while is_digit _ (λ t. Moving-done _))
        (λ d. Moving-fail _ loc)))

Moving-read_exponent : (loc : SourceLocation) → Moving (read_exponent loc)
unfolding read_exponent
Moving-read_exponent loc =
    Moving-test 0 (λ c. c == b'e' || c == b'E') _ _ (λ c. Moving-exponent_digits loc)
      (λ c. Moving-done {A = Text} [])

module _ {F : Type 0} where
  Moving-tail :
      (num : Text) (loc : SourceLocation) (m : Lexing (Token F))
      → Moving m
      → Moving (ensure_no_identifier_tail num loc >> m)
  Moving-tail num loc m h = Moving-bind _ _ (Moving-ensure_no_identifier_tail num loc) (λ u. h)

  Moving-hex_digits : (a b : ℕ) (loc : SourceLocation) → Moving (hex_digits {F = F} a b loc)
  unfolding hex_digits
  Moving-hex_digits a b loc =
      Moving-while is_xdigit _ (λ digits. Moving-tail (a ∷ b ∷ digits) loc _ (Moving-done _))

  -- What follows the `0`.
  pub Moving-hex_rest :
      (loc : SourceLocation) (a : ℕ)
      → Moving (
          advance >>= λ b. peek 0 >>= λ c.
          if is_xdigit c then hex_digits {F = F} a b loc else fail invalid_hexadecimal_digits loc)
  Moving-hex_rest loc a =
      Moving-step _
        (λ b. Moving-test 0 is_xdigit _ _ (λ c. Moving-hex_digits a b loc) (λ c. Moving-fail _ loc))

  Moving-read_hex : (loc : SourceLocation) → Moving (read_hex {F = F} loc)
  unfolding read_hex
  Moving-read_hex loc = Moving-step _ (Moving-hex_rest loc)

  Moving-float_token :
      (o : Option F) (num : Text) (loc : SourceLocation) → Moving (float_token o num loc)
  unfolding float_token
  Moving-float_token none num loc = Moving-fail _ loc
  Moving-float_token (some v) num loc = Moving-done _

  Moving-read_float :
      (stod : Text → Option F) (whole : Text) (loc : SourceLocation)
      → Moving (read_float stod whole loc)
  unfolding read_float
  Moving-read_float stod whole loc = Moving-step _ (λ point. Moving-while is_digit _ (λ fraction.
      Moving-bind (read_exponent loc) _ (Moving-read_exponent loc)
        (λ exponent. Moving-tail _ loc _ (Moving-float_token _ _ loc))))

  -- What follows the digits.
  pub Moving-decimal_rest :
      (stod : Text → Option F) (loc : SourceLocation) (num : Text)
      → Moving (
          ensure_no_identifier_tail num loc
          >> (at_fraction >>= λ fraction.
              if fraction then read_float stod num loc else done (new_token int_literal num loc)))
  Moving-decimal_rest stod loc num = Moving-tail num loc _ (
      Moving-bind at_fraction _ Moving-at_fraction
        (λ f. Moving-if f _ _ (Moving-read_float stod num loc) (Moving-done _)))

  Moving-read_decimal :
      (stod : Text → Option F) (loc : SourceLocation) → Moving (read_decimal stod loc)
  unfolding read_decimal
  Moving-read_decimal stod loc = Moving-while is_digit _ (Moving-decimal_rest stod loc)

  pub Moving-read_number : (stod : Text → Option F) → Moving (read_number stod)
  unfolding read_number
  Moving-read_number stod = Moving-bind current_location _ Moving-current_location (λ loc.
      Moving-bind at_hex _ Moving-at_hex
        (λ hex. Moving-if hex _ _ (Moving-read_hex loc) (Moving-read_decimal stod loc)))

  pub Moving-read_identifier : Moving (read_identifier {F = F})
  unfolding read_identifier
  Moving-read_identifier = Moving-bind current_location _ Moving-current_location (λ loc.
      Moving-while (λ c. is_alpha c || is_digit c || c == b'_') _
        (λ id. Moving-done (new_token identifier id loc)))
