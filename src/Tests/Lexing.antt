-- ===== src/Tests/Lexing.antt =====
-- The lexer on `x+=1`, on a number and on an operator.
use vexel_lang.Lexer.{
  Lexer, advance, advance_loop, advance_while, at_comment, match, new_lexer, peek, skip_comment,
  skip_whitespace,
}
use vexel_lang.Lexer.Token.{Token, end_of_file, identifier, int_literal, new_token, plus_assign}
use vexel_lang.Lexer.Read.{
  at_fraction, at_hex, ensure_no_identifier_tail, escape_of, hex_digits, read_decimal, read_escape,
  read_hex, read_identifier, read_number, read_string, string_body, string_loop,
}
use vexel_lang.Lexer.Operator.{
  double_switch, long_switch, operator_switch, read_operator, run_switch, single_switch,
}
use vexel_lang.Lexer.Tokenize.{
  at_blank, end_tokens, read_token, skip_blank, skip_loop, tokenize, tokenize_loop,
}
use vexel_lang.Lexer.Moves.Shrinks.{Shrinks}
use vexel_lang.Lexer.Moves.Progress.{token-Shrinks}
use vexel_lang.Lexer.Moves.Source.{Ends, tokenize-Ends}
use vexel_lang.Lexer.Moves.Lexeme.{read_operator-lexeme}
use vexel_lang.Base.{List, Option, [], none, refl, ℕ, ◌++◌, ◌∷◌, ◌≡◌}
use vexel_lang.Error.{SourceLocation, Text, ok}

abbrev no_stod : Text → Option (Unit {0})
no_stod num = none

abbrev sample : Text
sample = b'x' ∷ b'+' ∷ b'=' ∷ b'1' ∷ []

abbrev place : ℕ → SourceLocation
place column = record { filename = []; line = 1; column = column }

abbrev sample_tokens : List (Token (Unit {0}))
sample_tokens =
    new_token identifier (b'x' ∷ []) (place 1)
    ∷ new_token plus_assign (b'+' ∷ b'=' ∷ []) (place 2)
    ∷ new_token int_literal (b'1' ∷ []) (place 4)
    ∷ new_token end_of_file [] (place 5)
    ∷ []

abbrev sample_end : Lexer
sample_end = record { filename = []; rest = []; line = 1; column = 5 }

tokenize-sample : tokenize no_stod (new_lexer sample []) ≡ ok (sample_tokens, sample_end)
unfolding tokenize tokenize_loop end_tokens read_token skip_blank skip_loop at_blank peek advance
    match skip_whitespace skip_comment at_comment advance_while advance_loop read_number at_hex
    read_hex hex_digits read_identifier read_string string_body string_loop read_escape escape_of
    read_operator run_switch operator_switch single_switch double_switch long_switch
    ensure_no_identifier_tail read_decimal at_fraction
tokenize-sample = refl

tokenize-Ends_example : Ends no_stod (new_lexer sample []) sample_tokens sample_end
tokenize-Ends_example = tokenize-Ends no_stod (new_lexer sample []) tokenize-sample

token-Shrinks_example : Shrinks (read_token no_stod b'1') (new_lexer (b'1' ∷ []) [])
token-Shrinks_example = token-Shrinks no_stod (new_lexer (b'1' ∷ []) []) b'1' [] refl

abbrev plus_text : Text
plus_text = b'+' ∷ b'=' ∷ b'1' ∷ []

abbrev plus_end : Lexer
plus_end = record { filename = []; rest = b'1' ∷ []; line = 1; column = 3 }

read-plus :
    read_operator b'+' (new_lexer (b'+' ∷ b'=' ∷ b'1' ∷ []) [])
    ≡ ok (new_token {F = Unit {0}} plus_assign (b'+' ∷ b'=' ∷ []) (place 1), plus_end)
unfolding read_operator operator_switch single_switch double_switch long_switch run_switch match
    peek advance
read-plus = refl

read_operator-lexeme_example : plus_text ≡ (b'+' ∷ b'=' ∷ []) ++ plus_end.rest
read_operator-lexeme_example =
    read_operator-lexeme (Unit {0}) (new_lexer plus_text []) b'+' (b'=' ∷ b'1' ∷ []) refl read-plus
