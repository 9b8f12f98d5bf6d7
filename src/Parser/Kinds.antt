-- ===== src/Parser/Kinds.antt =====
-- frontend/src/parse/lexer.h and parser.cpp: the tests on the type of a token.
use vexel_lang.Lexer.Token.{
  TokenType, ampersand, ampersand_bang, ampersand_caret, arrow, assign, at_sign, bit_and_assign,
  bit_not, bit_or, bit_or_assign, bit_xor, bit_xor_assign, break_arrow, char_literal, colon, comma,
  continue_arrow, dollar, dot, dot_dot, double_at, double_colon, end_of_file, equal, float_literal,
  greater, greater_equal, hash, identifier, int_literal, left_brace, left_bracket, left_paren,
  left_shift, left_shift_assign, less, less_equal, logical_and, logical_and_assign, logical_not,
  logical_or, logical_or_assign, minus, minus_assign, not_equal, percent, percent_assign, plus,
  plus_assign, question, right_brace, right_bracket, right_paren, right_shift, right_shift_assign,
  semicolon, slash, slash_assign, star, star_assign, string_literal,
}
use vexel_lang.Base.{Bool, List, [], false, ℕ, ◌==◌, ◌||◌, ◌∷◌}

-- The enumerator's value, which `==` compares.
unfoldable pub ordinal : TokenType → ℕ
ordinal int_literal = 0
ordinal float_literal = 1
ordinal string_literal = 2
ordinal char_literal = 3
ordinal identifier = 4
ordinal dollar = 5
ordinal at_sign = 6
ordinal double_at = 7
ordinal ampersand = 8
ordinal hash = 9
ordinal plus = 10
ordinal minus = 11
ordinal star = 12
ordinal slash = 13
ordinal percent = 14
ordinal bit_or = 15
ordinal bit_xor = 16
ordinal bit_not = 17
ordinal left_shift = 18
ordinal right_shift = 19
ordinal plus_assign = 20
ordinal minus_assign = 21
ordinal star_assign = 22
ordinal slash_assign = 23
ordinal percent_assign = 24
ordinal bit_and_assign = 25
ordinal bit_or_assign = 26
ordinal bit_xor_assign = 27
ordinal left_shift_assign = 28
ordinal right_shift_assign = 29
ordinal equal = 30
ordinal not_equal = 31
ordinal less = 32
ordinal less_equal = 33
ordinal greater = 34
ordinal greater_equal = 35
ordinal assign = 36
ordinal arrow = 37
ordinal break_arrow = 38
ordinal continue_arrow = 39
ordinal dot = 40
ordinal comma = 41
ordinal semicolon = 42
ordinal colon = 43
ordinal double_colon = 44
ordinal logical_not = 45
ordinal logical_and = 46
ordinal logical_or = 47
ordinal logical_and_assign = 48
ordinal logical_or_assign = 49
ordinal question = 50
ordinal left_paren = 51
ordinal right_paren = 52
ordinal left_brace = 53
ordinal right_brace = 54
ordinal left_bracket = 55
ordinal right_bracket = 56
ordinal dot_dot = 57
ordinal end_of_file = 58
ordinal ampersand_bang = 59
ordinal ampersand_caret = 60

abbrev pub is_type : TokenType → TokenType → Bool
is_type t u = ordinal t == ordinal u

abbrev pub is_one_of : TokenType → List TokenType → Bool
is_one_of t [] = false
is_one_of t (u ∷ us) = is_type t u || is_one_of t us

unfoldable pub token_starts_expression : TokenType → Bool
token_starts_expression t = is_one_of t (
    int_literal ∷ float_literal ∷ string_literal ∷ char_literal ∷ left_brace ∷ left_bracket ∷ hash
    ∷ dollar ∷ identifier ∷ double_colon ∷ left_paren ∷ minus ∷ logical_not ∷ bit_not ∷ bit_or ∷ [])

unfoldable pub token_starts_statement : TokenType → Bool
token_starts_statement t =
    is_one_of t
      (arrow ∷ break_arrow ∷ continue_arrow ∷ hash ∷ ampersand ∷ double_colon ∷ logical_not ∷ [])
    || token_starts_expression t

unfoldable pub token_starts_top_level : TokenType → Bool
token_starts_top_level t = is_one_of t (
    ampersand ∷ ampersand_bang ∷ ampersand_caret ∷ hash ∷ double_colon ∷ bit_xor ∷ logical_not
    ∷ identifier ∷ [])

pub data AnnotationContext : Type 0 where
  at_top_level at_statement at_expression : AnnotationContext

unfoldable pub token_starts_annotation_target : TokenType → AnnotationContext → Bool
token_starts_annotation_target t at_top_level = token_starts_top_level t
token_starts_annotation_target t at_statement = token_starts_statement t
token_starts_annotation_target t at_expression = token_starts_expression t

unfoldable pub token_can_be_annotation_arg : TokenType → Bool
token_can_be_annotation_arg t =
    is_one_of t (identifier ∷ string_literal ∷ int_literal ∷ float_literal ∷ [])

unfoldable pub is_operator_function_token : TokenType → Bool
is_operator_function_token t = is_one_of t (
    plus ∷ minus ∷ star ∷ slash ∷ percent ∷ equal ∷ not_equal ∷ less ∷ less_equal ∷ greater
    ∷ greater_equal ∷ at_sign ∷ double_at ∷ [])

unfoldable pub is_per_element_operator_inner_token : TokenType → Bool
is_per_element_operator_inner_token t = is_one_of t (
    plus ∷ minus ∷ star ∷ slash ∷ percent ∷ ampersand ∷ bit_or ∷ bit_xor ∷ left_shift ∷ right_shift
    ∷ equal ∷ not_equal ∷ less ∷ less_equal ∷ greater ∷ greater_equal ∷ logical_and ∷ logical_or
    ∷ [])

-- Where `synchronize` stops: behind a semicolon, and elsewhere.
unfoldable pub starts_behind_semicolon : TokenType → Bool
starts_behind_semicolon t = is_one_of t (
    ampersand ∷ ampersand_bang ∷ ampersand_caret ∷ hash ∷ double_colon ∷ identifier ∷ logical_not
    ∷ [])

unfoldable pub starts_anywhere : TokenType → Bool
starts_anywhere t =
    is_one_of t
      (ampersand ∷ ampersand_bang ∷ ampersand_caret ∷ hash ∷ double_colon ∷ logical_not ∷ [])

-- `is_assignment_token`, and the list that `match_dotted_assignment` goes through less `assign`.
abbrev pub compound_assignments : List TokenType
compound_assignments =
    plus_assign ∷ minus_assign ∷ star_assign ∷ slash_assign ∷ percent_assign ∷ bit_and_assign
    ∷ bit_or_assign ∷ bit_xor_assign ∷ left_shift_assign ∷ right_shift_assign ∷ logical_and_assign
    ∷ logical_or_assign ∷ []

abbrev pub comparisons : List TokenType
comparisons = equal ∷ not_equal ∷ less ∷ less_equal ∷ greater ∷ greater_equal ∷ []
