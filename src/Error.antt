-- ===== src/Error.antt =====
-- frontend/src/core/common.h: source locations and `CompileError`, and what throws one as a value.
-- An error's text is a constructor of `Message` for each text of the modelled code, with the text that
-- is built into it as an argument. Every error here has the code `Generic`.
use vexel_lang.Base.{Bool, ℕ, List}

-- The bytes of a std::string.
abbrev pub Text : Type 0
Text = List ℕ

pub record SourceLocation : Type 0 where
  pub filename : Text
  pub line : ℕ
  pub column : ℕ

pub data Message : Type 0 where
  -- frontend/src/core/apint.cpp
  division_by_zero_in_exact_integer : Message
  invalid_hexadecimal_literal : Text → Message
  invalid_integer_literal : Text → Message
  invalid_empty_integer_literal : Message
  unsigned_bytes_from_negative : Message
  does_not_fit_in_uint64 : Message
  does_not_fit_in_int64 : Message
  -- frontend/src/parse/lexer.cpp
  non_ascii_character : Message
  unterminated_escape_sequence : Message
  unterminated_hex_escape_sequence : Message
  invalid_hex_escape_sequence : Message
  invalid_escape_sequence : ℕ → Message
  identifier_starts_with_digit : Text → Message
  invalid_hexadecimal_digits : Message
  invalid_float_literal_exponent : Message
  float_literal_overflow : Text → Message
  unterminated_string : Message
  unterminated_char_literal : Message
  empty_character_literal : Message
  unexpected_character : ℕ → Message
  -- frontend/src/transform/evaluator_binary.cpp
  unsupported_operands_for_logical_operation : Message
  unsupported_fixed_point_type : Message
  unsupported_operands_for_fixed_point : Message
  unsupported_fixed_point_operator : Message
  unsupported_operands : Message
  unsupported_binary_operator : Message
  unsupported_binary_operator_for_strings : Message
  division_by_zero : Message
  modulo_by_zero : Message
  negative_shift_count : Message
  shift_count_too_large : Message
  -- frontend/src/transform/evaluator.cpp, with the kind of the value left out
  cannot_convert_value_to_float : Message
  unsupported_operand_for_fixed_point : Message
  fixed_point_bitwise_not : Message
  unsupported_operand_for_bitwise_not : Message
  unsupported_unary_operator : Message
  unsupported_unary_operand : Message
  -- frontend/src/parse/parser.cpp, what was expected
  no_text : Message
  expected_annotation_start expected_annotation_name expected_annotation_close : Message
  expected_annotation_arguments_close expected_annotation_argument : Message
  expected_variable_name expected_type_name expected_member_name expected_method_name : Message
  expected_parameter_name expected_field_name expected_identifier : Message
  expected_function_declaration expected_function_name : Message
  expected_left_paren expected_right_paren expected_left_brace expected_right_brace : Message
  expected_left_bracket expected_right_bracket expected_bar expected_question : Message
  expected_semicolon expected_semicolon_after_external expected_hash : Message
  expected_double_colon expected_arrow_after_command expected_identifier_after_arrow : Message
  expected_constructor_name expected_constructor_paren expected_identifier_after_dollar : Message
  expected_fractional_width : Message
  -- the same, what is refused
  local_external_declaration : Message
  exported_and_external : Message
  external_without_type : Text → Message
  external_with_initializer : Text → Message
  global_without_type : Message
  method_declaration_syntax : Message
  method_receiver_count : Message
  tuple_return_type_size : Message
  ambiguous_nested_conditional : Message
  statement_conditional_not_expression : Message
  ambiguous_chained_comparison : Message
  probe_requires_call : Message
  unexpected_token : Text → Message
  invalid_integer_width : Text → Message
  zero_integer_width : Text → Message
  shorthand_not_supported : Text → Message
  -- the name of the type, the sign and the lexeme of the fractional width
  invalid_fractional_width : Text → Bool → Text → Message
  fractional_width_too_negative : Text → Bool → Text → Message
  total_width_too_large : Text → Bool → Text → Message
  total_width_not_positive : Text → Bool → Text → Message
  -- the number of errors; the text of each, which the code joins, is left out
  parse_failed : ℕ → Message

pub record CompileError : Type 0 where
  pub message : Message
  pub location : SourceLocation

-- `SourceLocation()`.
abbrev pub no_location : SourceLocation
no_location = record { filename = List.[]; line = 0; column = 0 }

pub data Result {ℓ} (A : Type ℓ) : Type ℓ where
  ok : A → Result A
  err : CompileError → Result A

infixl 5 ◌>>=◌ ◌>>◌
abbrev pub ◌>>=◌ {ℓ κ} : {A : Type ℓ} {B : Type κ} → Result A → (A → Result B) → Result B
ok a >>= f = f a
err e >>= f = err e

abbrev pub ◌>>◌ {ℓ κ} : {A : Type ℓ} {B : Type κ} → Result A → Result B → Result B
m >> k = m >>= λ _. k

-- `throw CompileError(message, location)`.
abbrev pub throw {ℓ} : {A : Type ℓ} → Message → SourceLocation → Result A
throw message location = err (record { message = message; location = location })
