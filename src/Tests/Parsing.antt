-- ===== src/Tests/Parsing.antt =====
-- The parser on a global with an initializer, a tuple, a local process import and a sum, and behind
-- an error.
use vexel_lang.Parser.Verdict.{Verdict, parse_module-Verdict}
use vexel_lang.Parser.Receivers.{at_tuple, behind_paren-error, with_error}
use vexel_lang.Parser.Folds.{Folds, binary_level-Folds}
use vexel_lang.Parser.Widths.{parse_integer_primitive_lem}
use vexel_lang.Parser.Recovery.{Recovers, synchronize-Recovers}
use vexel_lang.Parser.Progress.Types.{Progressing}
use vexel_lang.Parser.Progress.Passing.{Passing}
use vexel_lang.Parser.Progress.Modules.{grammar-Progressing, top_level-Passing}
use vexel_lang.Parser.Modules.{
  grammar, module_loop, parse_module, parse_top_level, recover, sync_loop, synchronize,
  top_level_case, top_level_round,
}
use vexel_lang.Parser.{
  Outcome, Parser, attempt, check, check_dotted_operator, check_member_dot, check_probe_dot,
  consume, current, is_annotation_start, match, match_dotted_operator, new_parser, next, or_rewind,
  out_of_fuel, peek, previous, record_error, returned, separated, separated_loop, skip_loop,
  skip_semis, step, take, thrown,
}
use vexel_lang.Parser.Kinds.{
  is_operator_function_token, is_per_element_operator_inner_token, ordinal, starts_anywhere,
  starts_behind_semicolon, token_can_be_annotation_arg, token_starts_annotation_target,
  token_starts_expression, token_starts_statement, token_starts_top_level,
}
use vexel_lang.Parser.Annotations.{
  annotation_block, annotations_loop, at_block, parse_annotation, parse_annotation_arg,
  parse_annotations, parse_annotations_disambiguated, scan, scan_annotation, scan_args, scan_blocks,
  scan_names, try_parse_annotation_block, type_at,
}
use vexel_lang.Parser.Lookahead.{
  looks_like_plain_func_decl_start, looks_like_var_decl_with_linkage, ref_list_loop,
  skip_function_name, skip_namespace, skip_parens, skip_receivers, type_then_brace,
}
use vexel_lang.Parser.Grammar.{
  arguments, leading_digits, match_iteration, parse_qualified_name, parse_resource_path, skip_space,
  stoull,
}
use vexel_lang.Parser.TypeSyntax.{
  dimensions_loop, optional_type, parse_base_type, parse_integer_primitive, parse_type,
  parse_type_name, try_parse_fixed_suffix,
}
use vexel_lang.Parser.Operators.{
  binary_level, binary_loop, check_operator, match_operator, never, parse_assignment, parse_bit_and,
  parse_bit_or, parse_bit_xor, parse_compare, parse_conditional, parse_expr,
  parse_expr_allowing_stmt_conditional, parse_logic_and, parse_logic_or, parse_prod, parse_range,
  parse_shift, parse_sum, starts_next_function, with_depth,
}
use vexel_lang.Parser.Primary.{
  annotated, block_loop, constructor_expr, constructor_path_loop, identifier_expr,
  looks_like_constructor, parse_array, parse_block, parse_primary, primary_case,
}
use vexel_lang.Parser.Unary.{
  behind_paren, call_arguments, make_signed, member_suffix, multi_receiver, parse_cast,
  parse_parenthesized, parse_postfix, parse_postfix_suffix, parse_unary, postfix_loop,
  postfix_suffix, receiver_method,
}
use vexel_lang.Parser.Variables.{parse_var_decl, with_boundary}
use vexel_lang.Parser.FunctionHead.{
  looks_like_receivers, parse_function_name, parse_namespace, parse_receivers, parse_ref_params,
  receivers_loop,
}
use vexel_lang.Parser.Declarations.{
  parse_field, parse_fields, parse_func_decl, parse_import, parse_param, parse_params,
  parse_return_type, parse_type_decl,
}
use vexel_lang.Parser.Statements.{
  desugar, multi_assignment, parse_expression_stmt, parse_stmt, parse_stmt_no_semi, stmt_case,
  target_stmts, targets_loop,
}
use vexel_lang.Lexer.Token.{
  Token, TokenType, ampersand, arrow, assign, comma, double_colon, identifier, int_literal,
  left_brace, left_paren, minus, new_token, plus, right_brace, right_paren, semicolon, star,
  string_literal, string_value, with_value,
}
use vexel_lang.Base.{
  Bool, List, [], arith, false, none, refl, some, true, ℕ, ◌-◌, ◌^◌, ◌↔◌, ◌∷◌, ◌≡◌,
}
use vexel_lang.Base.Int.{◌-ℤ◌, pos}
use vexel_lang.Error.{CompileError, SourceLocation, Text, expected_identifier, ok}
use vexel_lang.Ast.{
  Expr, Module, Stmts, a_stmt, expr, int_kind, no_stmts, no_type, normal, primitive_kind, var_decl,
}
use vexel_lang.Ast.Make.{
  expr_location, make_binary, make_identifier, mark, stmt_at, uint_val_of, with_raw,
}
use vexel_lang.Evaluator.{int_type}
use vexel_lang.Evaluator.Operators.{text_eq}
use vexel_lang.ApInt.{
  abs_bit_length, fits_i64, fits_u64, from_parts, limbs_to_u64, negate, signed_bit_width, to_i64,
  to_u64,
}
use vexel_lang.Literal.{
  parse_decimal_digits, parse_decimal_loop, parse_hex_digits, parse_integer_literal, print_limbs,
  show, to_string,
}
use vexel_lang.Limbs.{
  add_small_inplace, bit_length_limbs, bit_length_loop, bit_length_u32, mul_small_inplace,
  mul_small_loop, normalize_limbs, push_limbs, sub_small_inplace, sub_small_loop,
}

abbrev place : ℕ → SourceLocation
place column = record { filename = []; line = 1; column = column }

abbrev tok : TokenType → Text → ℕ → Token (Unit {0})
tok type lexeme column = new_token type lexeme (place column)

-- `x = 1 + 2 * -3;`
abbrev global_tokens : List (Token (Unit {0}))
global_tokens =
    tok identifier (b'x' ∷ []) 1
    ∷ tok assign (b'=' ∷ []) 3
    ∷ tok int_literal (b'1' ∷ []) 5
    ∷ tok plus (b'+' ∷ []) 7
    ∷ tok int_literal (b'2' ∷ []) 9
    ∷ tok star (b'*' ∷ []) 11
    ∷ tok minus (b'-' ∷ []) 13
    ∷ tok int_literal (b'3' ∷ []) 14
    ∷ tok semicolon (b';' ∷ []) 15
    ∷ []

abbrev global : Parser (Unit {0})
global = new_parser global_tokens (place 16)

-- What was returned, and the errors.
abbrev module_of : Outcome (Unit {0}) (Module (Unit {0})) → Stmts (Unit {0})
module_of (returned m t) = m.top_level
module_of (thrown e t) = no_stmts
module_of out_of_fuel = no_stmts

abbrev errors_of : Outcome (Unit {0}) (Module (Unit {0})) → List CompileError
errors_of (returned m t) = t.errors
errors_of (thrown e t) = t.errors
errors_of out_of_fuel = []

abbrev int_of : Bool → List ℕ → Text → ℕ → ℕ → Expr (Unit {0})
int_of negative limbs raw low column =
    expr (with_raw (place column) raw)
      (int_kind (record { negative = negative; limbs = limbs }) false low)

-- `&f(){(x,1)}`
abbrev tuple_tokens : List (Token (Unit {0}))
tuple_tokens =
    tok ampersand (b'&' ∷ []) 1
    ∷ tok identifier (b'f' ∷ []) 2
    ∷ tok left_paren (b'(' ∷ []) 3
    ∷ tok right_paren (b')' ∷ []) 4
    ∷ tok left_brace (b'{' ∷ []) 5
    ∷ tok left_paren (b'(' ∷ []) 6
    ∷ tok identifier (b'x' ∷ []) 7
    ∷ tok comma (b',' ∷ []) 8
    ∷ tok int_literal (b'1' ∷ []) 9
    ∷ tok right_paren (b')' ∷ []) 10
    ∷ tok right_brace (b'}' ∷ []) 11
    ∷ []

-- `&f(){::"c"->v;}`
abbrev process_tokens : List (Token (Unit {0}))
process_tokens =
    tok ampersand (b'&' ∷ []) 1
    ∷ tok identifier (b'f' ∷ []) 2
    ∷ tok left_paren (b'(' ∷ []) 3
    ∷ tok right_paren (b')' ∷ []) 4
    ∷ tok left_brace (b'{' ∷ []) 5
    ∷ tok double_colon (b':' ∷ b':' ∷ []) 6
    ∷ with_value (tok string_literal (b'c' ∷ []) 8) (string_value (b'c' ∷ []))
    ∷ tok arrow (b'-' ∷ b'>' ∷ []) 11
    ∷ tok identifier (b'v' ∷ []) 13
    ∷ tok semicolon (b';' ∷ []) 14
    ∷ tok right_brace (b'}' ∷ []) 15
    ∷ []

-- `a-b+c`
abbrev name : ℕ → ℕ → Token (Unit {0})
name c column = tok identifier (c ∷ []) column

abbrev difference : Parser (Unit {0})
difference =
    new_parser
      (name b'a' 1
        ∷ tok minus (b'-' ∷ []) 2
        ∷ name b'b' 3
        ∷ tok plus (b'+' ∷ []) 4
        ∷ name b'c' 5
        ∷ [])
      (place 6)

abbrev behind_difference : Parser (Unit {0})
behind_difference = record difference { pos = record { before = some (name b'c' 5); rest = [] } }

abbrev named : ℕ → ℕ → Expr (Unit {0})
named c column = make_identifier (c ∷ []) (place column)

abbrev difference_expr : Expr (Unit {0})
difference_expr =
    make_binary (b'+' ∷ []) (make_binary (b'-' ∷ []) (named b'a' 1) (named b'b' 3) (place 1))
      (named b'c' 5) (place 1)

-- The product binds tighter than the sum, and the minus sign is part of the literal; a tuple and a local
-- process import are refused; a sum is associated to the left.
parse-tokens :
    (module_of (parse_module [] [] global)
      ≡ a_stmt
          (stmt_at
            (var_decl
              (b'x' ∷ [])
              no_type
              (make_binary
                (b'+' ∷ [])
                (int_of false (1 ∷ []) (b'1' ∷ []) 1 5)
                (make_binary
                  (b'*' ∷ [])
                  (int_of false (2 ∷ []) (b'2' ∷ []) 2 9)
                  (int_of true (3 ∷ []) (b'-' ∷ b'3' ∷ []) (2 ^ 64 - 3) 13)
                  (place 9))
                (place 5))
              false
              false
              normal)
            (place 1))
          no_stmts)
    × (errors_of (parse_module [] [] (new_parser tuple_tokens (place 12)))
        ≡ record { message = expected_identifier; location = place 9 } ∷ [])
    × (errors_of (parse_module [] [] (new_parser process_tokens (place 16)))
        ≡ record { message = expected_identifier; location = place 8 } ∷ [])
    × (binary_level never (plus ∷ minus ∷ []) (grammar 9).unary difference
        ≡ returned difference_expr behind_difference)
unfolding uint_val_of expr_location mark current peek previous next step check match record_error
    consume take check_dotted_operator check_member_dot check_probe_dot match_dotted_operator
    is_annotation_start skip_loop skip_semis separated_loop separated attempt or_rewind type_at scan
    scan_args scan_annotation scan_names at_block scan_blocks try_parse_annotation_block
    parse_annotations_disambiguated parse_annotation_arg parse_annotation annotation_block
    annotations_loop parse_annotations receivers_loop looks_like_receivers parse_ref_params
    parse_receivers parse_namespace parse_function_name with_boundary parse_var_decl parse_param
    parse_params parse_field parse_fields parse_return_type parse_func_decl parse_type_decl
    parse_import arguments parse_qualified_name parse_resource_path match_iteration skip_space
    leading_digits stoull ordinal token_starts_expression token_starts_statement
    token_starts_top_level token_starts_annotation_target token_can_be_annotation_arg
    is_operator_function_token is_per_element_operator_inner_token starts_behind_semicolon
    starts_anywhere looks_like_var_decl_with_linkage ref_list_loop skip_receivers skip_namespace
    skip_function_name skip_parens type_then_brace looks_like_plain_func_decl_start grammar
    sync_loop synchronize top_level_case parse_top_level top_level_round recover module_loop
    parse_module check_operator match_operator binary_loop binary_level starts_next_function
    with_depth parse_prod parse_sum parse_range parse_shift parse_compare parse_bit_and
    parse_bit_xor parse_bit_or parse_logic_and parse_logic_or parse_conditional parse_assignment
    parse_expr parse_expr_allowing_stmt_conditional constructor_path_loop looks_like_constructor
    block_loop parse_block parse_array constructor_expr annotated identifier_expr primary_case
    parse_primary targets_loop target_stmts desugar multi_assignment parse_expression_stmt stmt_case
    parse_stmt_no_semi parse_stmt parse_integer_primitive try_parse_fixed_suffix parse_type_name
    parse_base_type dimensions_loop parse_type optional_type call_arguments member_suffix
    postfix_suffix postfix_loop parse_postfix_suffix parse_postfix make_signed receiver_method
    multi_receiver parse_cast parse_parenthesized behind_paren parse_unary bit_length_loop
    sub_small_loop ◌-ℤ◌ from_parts normalize_limbs push_limbs bit_length_limbs bit_length_u32
    sub_small_inplace parse_integer_literal parse_decimal_digits parse_decimal_loop parse_hex_digits
    text_eq to_string print_limbs negate show mul_small_inplace add_small_inplace mul_small_loop
    fits_i64 fits_u64 to_i64 to_u64 signed_bit_width abs_bit_length limbs_to_u64
parse-tokens = (refl, refl, refl, refl)

binary_level-Folds_example :
    (binary_level never (plus ∷ minus ∷ []) (grammar 9).unary difference
      ≡ returned difference_expr behind_difference)
    ↔ Folds never (plus ∷ minus ∷ []) (grammar 9).unary difference difference_expr behind_difference
binary_level-Folds_example =
    binary_level-Folds never (plus ∷ minus ∷ []) (grammar 9).unary 9 difference behind_difference
      difference_expr (grammar-Progressing 9).unary (omega arith)

parse_module-Verdict_example : Verdict (parse_module [] [] global)
parse_module-Verdict_example = parse_module-Verdict [] [] global

-- `1 ; x`, behind an error at the 1.
abbrev lost : Parser (Unit {0})
lost = record global {
  pos = record {
    before = none;
    rest = tok int_literal (b'1' ∷ []) 1 ∷ tok semicolon (b';' ∷ []) 2 ∷ name b'x' 3 ∷ [];
  };
  panic_mode = true;
}

synchronize-Recovers_example :
    Recovers (record lost { panic_mode = false }) none lost.pos.rest (synchronize lost)
synchronize-Recovers_example = synchronize-Recovers lost

grammar-Progressing_example : Progressing 10 (grammar {F = Unit {0}} 10)
grammar-Progressing_example = grammar-Progressing 10

top_level-Passing_example : Passing 9 (parse_top_level (grammar 9) global)
unfolding current ordinal
top_level-Passing_example =
    top_level-Passing (grammar 9) (grammar-Progressing 9) global refl (omega arith)

abbrev tuple_one : Token (Unit {0})
tuple_one = tok int_literal (b'1' ∷ []) 3

behind_paren-error_example :
    behind_paren
      (grammar 9)
      (place 0)
      (at_tuple global none (b'x' ∷ []) (place 1) (place 2) tuple_one [])
    ≡ parse_parenthesized (grammar 9) (place 0) (
        with_error expected_identifier
          (place 3)
          (at_tuple global none (b'x' ∷ []) (place 1) (place 2) tuple_one []))
unfolding ordinal
behind_paren-error_example =
    behind_paren-error (grammar 9) (place 0) global none (b'x' ∷ []) (place 1) (place 2) tuple_one
      [] refl refl refl

parse_integer_primitive_lem_example :
    parse_integer_primitive {F = Unit {0}} b'i' int_type (place 1) (b'i' ∷ b'3' ∷ b'2' ∷ [])
    ≡ ok (some (primitive_kind int_type 32 (pos 0) (place 1)))
parse_integer_primitive_lem_example =
    parse_integer_primitive_lem b'i' b'3' (b'2' ∷ []) int_type (place 1)
      ((omega arith, omega arith), ((omega arith, omega arith), tt))
