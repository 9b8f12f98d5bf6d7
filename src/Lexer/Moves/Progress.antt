-- ===== src/Lexer/Moves/Progress.antt =====
-- The characters that each token takes.
use vexel_lang.Lexer.{Lexer, Lexing, advance, advance_while, current_location, done, ◌>>=◌, ◌>>◌}
use vexel_lang.Lexer.Token.{Token, identifier, new_token}
use vexel_lang.Lexer.Read.{
  at_hex, is_alpha, is_digit, read_char, read_decimal, read_hex, read_identifier, read_number,
  read_string,
}
use vexel_lang.Lexer.Operator.{operator_switch, read_operator}
use vexel_lang.Lexer.Tokenize.{read_token}
use vexel_lang.Lexer.Moves.{Moving, Moving-done}
use vexel_lang.Lexer.Moves.Readers.{Moving-decimal_rest, Moving-hex_rest}
use vexel_lang.Lexer.Moves.Tokens.{Moving-char_rest, Moving-run_case, Moving-string_rest}
use vexel_lang.Lexer.Moves.Shrinks.{
  Shrinks, advance-Shrinks, at_hex-Keeps, bind-Shrinks, keep-Shrinks, while-Shrinks,
}
use vexel_lang.Base.{
  Bool, Bool-cases, Option, arith, false, if◌then◌else◌, inl, inr, refl, true, ℕ, ◌==◌, ◌||◌, ◌∷◌,
  ◌≡◌,
}
use vexel_lang.Error.{SourceLocation, Text}

module _ {F : Type 0} (stod : Text → Option F) where
  module _ (s : Lexer) (c : ℕ) (cs : Text) (h : s.rest ≡ c ∷ cs) where
    number-Shrinks : is_digit c ≡ true → Shrinks (read_number stod) s
    unfolding read_number read_hex read_decimal
    number-Shrinks d =
        keep-Shrinks current_location
          (λ loc. at_hex >>= λ hex. if hex then read_hex loc else read_decimal stod loc) s refl
          (λ loc.
            keep-Shrinks at_hex (λ hex. if hex then read_hex loc else read_decimal stod loc) s
              (at_hex-Keeps s) (number_from loc))
      where
        number_from :
            (loc : SourceLocation) (hex : Bool)
            → Shrinks (if hex then read_hex loc else read_decimal stod loc) s
        number_from loc true = advance-Shrinks _ s c cs (Moving-hex_rest {F = F} loc) h
        number_from loc false =
            bind-Shrinks (advance_while is_digit) _ s (while-Shrinks is_digit s c cs h d)
              (Moving-decimal_rest stod loc)

    identifier-Shrinks : (is_alpha c || c == b'_') ≡ true → Shrinks (read_identifier {F = F}) s
    unfolding read_identifier
    identifier-Shrinks d =
        keep-Shrinks current_location
          (λ loc. advance_while (λ x. is_alpha x || is_digit x || x == b'_') >>= λ id.
            done (new_token {F = F} identifier id loc))
          s refl
          (λ loc.
            bind-Shrinks (advance_while (λ x. is_alpha x || is_digit x || x == b'_')) _ s
              (while-Shrinks (λ x. is_alpha x || is_digit x || x == b'_') s c cs h
                (starts (is_alpha c) (is_digit c) (c == b'_') d))
              (λ id. Moving-done (new_token {F = F} identifier id loc)))
      where
        starts : (x y z : Bool) → (x || z) ≡ true → (x || y || z) ≡ true
        starts x y z e = ground arith

    opened-Shrinks :
        (f : SourceLocation → Lexing (Token F))
        → ((loc : SourceLocation) → Moving (f loc))
        → Shrinks (current_location >>= λ loc. advance >> f loc) s
    opened-Shrinks f hf =
        keep-Shrinks current_location (λ loc. advance >> f loc) s refl
          (λ loc. advance-Shrinks _ s c cs (λ d. hf loc) h)

    -- Where the source has a first character `c`, the reader of a token that `tokenize` picks for it leaves less of
    -- the source, where it returns.
    pub token-Shrinks : Shrinks (read_token stod c) s
    unfolding read_token read_string read_char read_operator
    token-Shrinks = elim (Bool-cases (is_digit c)) [
      | inl d ↦ rw d (number-Shrinks d)
      | inr d ↦ elim (Bool-cases (is_alpha c || c == b'_')) [
        | inl a ↦ rw (d, a) (identifier-Shrinks a)
        | inr a ↦ elim (Bool-cases (c == b'"')) [
          | inl q ↦ rw (d, a, q) (opened-Shrinks _ (Moving-string_rest {F = F}))
          | inr q ↦ elim (Bool-cases (c == b'\'')) [
            | inl r ↦ rw (d, a, q, r) (opened-Shrinks _ (Moving-char_rest {F = F}))
            | inr r ↦ rw (d, a, q, r) (opened-Shrinks _ (Moving-run_case (operator_switch c) c))
          ]
        ]
      ]
    ]
