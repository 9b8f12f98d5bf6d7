-- ===== src/Lexer/Token.antt =====
-- frontend/src/parse/lexer.h: `TokenType` and `Token`. `F` stands for double.
use vexel_lang.Base.{ℕ}
use vexel_lang.Base.Int.{pos, ℤ}
use vexel_lang.Error.{SourceLocation, Text}

pub data TokenType : Type 0 where
  int_literal float_literal string_literal char_literal : TokenType
  identifier : TokenType
  dollar at_sign double_at ampersand hash : TokenType
  plus minus star slash percent : TokenType
  bit_or bit_xor bit_not : TokenType
  left_shift right_shift : TokenType
  plus_assign minus_assign star_assign slash_assign percent_assign : TokenType
  bit_and_assign bit_or_assign bit_xor_assign : TokenType
  left_shift_assign right_shift_assign : TokenType
  equal not_equal less less_equal greater greater_equal : TokenType
  assign arrow break_arrow continue_arrow : TokenType
  dot comma semicolon colon double_colon : TokenType
  logical_not logical_and logical_or logical_and_assign logical_or_assign : TokenType
  question : TokenType
  left_paren right_paren left_brace right_brace left_bracket right_bracket : TokenType
  dot_dot : TokenType
  end_of_file : TokenType
  ampersand_bang ampersand_caret : TokenType

pub data TokenValue (F : Type 0) : Type 0 where
  int64_value : ℤ → TokenValue F
  uint64_value : ℕ → TokenValue F
  double_value : F → TokenValue F
  string_value : Text → TokenValue F

pub record Token (F : Type 0) : Type 0 where
  pub type : TokenType
  pub lexeme : Text
  pub location : SourceLocation
  pub value : TokenValue F

-- The constructor: the value is the first alternative's, 0.
abbrev pub new_token : {F : Type 0} → TokenType → Text → SourceLocation → Token F
new_token type lexeme location = record {
  type = type;
  lexeme = lexeme;
  location = location;
  value = int64_value (pos 0);
}

abbrev pub with_value : {F : Type 0} → Token F → TokenValue F → Token F
with_value token value = record token { value = value }
