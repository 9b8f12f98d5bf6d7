-- ===== src/Parser/Declarations.antt =====
-- frontend/src/parse/parser.cpp: declarations of functions and types, and imports.
use vexel_lang.Parser.{
  Parsing, asks, check, consume, done, here, match, separated, take, throw_at, ◌>>=◌, ◌>>◌,
}
use vexel_lang.Parser.Annotations.{parse_annotations}
use vexel_lang.Parser.Grammar.{Parsers, name_token, parse_qualified_name, types_from}
use vexel_lang.Parser.TypeSyntax.{optional_type, parse_type}
use vexel_lang.Parser.Primary.{parse_block, string_of}
use vexel_lang.Parser.FunctionHead.{
  check_receivers, parse_function_name, parse_namespace, parse_receivers, some_text,
}
use vexel_lang.Lexer.Token.{
  ampersand, ampersand_bang, ampersand_caret, arrow, comma, dollar, double_colon, hash, left_brace,
  left_paren, right_paren, semicolon, string_literal,
}
use vexel_lang.Base.{Bool, List, [], false, if◌then◌else◌, length, ltb, not, true, ◌||◌, ◌∷◌}
use vexel_lang.Base.Int.{pos}
use vexel_lang.Error.{
  SourceLocation, expected_arrow_after_command, expected_double_colon, expected_field_name,
  expected_function_declaration, expected_hash, expected_identifier_after_arrow,
  expected_left_paren, expected_parameter_name, expected_right_paren, expected_semicolon,
  expected_semicolon_after_external, expected_type_name, tuple_return_type_size,
}
use vexel_lang.Ast.{
  AstType, Expr, Fields, Params, Stmt, a_field, a_param, func_decl, import_stmt, no_expr, no_fields,
  no_params, no_type, normal, primitive_kind, type_decl, var_decl,
}
use vexel_lang.Ast.Make.{make_process, stmt_at}
use vexel_lang.Evaluator.{string_type}

abbrev pub apply_all : {A : Type 0} → List (A → A) → A → A
apply_all [] a = a
apply_all (f ∷ fs) a = f (apply_all fs a)

module _ {F : Type 0} where
  module _ (p : Parsers F) where
    unfoldable pub parse_param : Parsing F (Params F → Params F)
    parse_param = do
      annotations ← parse_annotations
      loc ← asks here
      is_expr ← match dollar
      name ← name_token expected_parameter_name
      type ← optional_type p
      done (a_param name type is_expr loc annotations)

    unfoldable pub parse_params : Parsing F (Params F)
    parse_params = do
      closed ← asks (check right_paren)
      params ← (if closed then done [] else separated comma parse_param)
      done (apply_all params no_params)

    unfoldable pub parse_field : Parsing F (Fields F → Fields F)
    parse_field = do
      annotations ← parse_annotations
      loc ← asks here
      name ← name_token expected_field_name
      type ← optional_type p
      done (a_field name type loc annotations)

    unfoldable pub parse_fields : Parsing F (Fields F)
    parse_fields = do
      closed ← asks (check right_paren)
      fields ← (if closed then done [] else separated comma parse_field)
      done (apply_all fields no_fields)

    -- The return type, and the types of a tuple.
    abbrev pub Returns : Type 0
    Returns = AstType F × List (AstType F)

    abbrev pub return_tuple : SourceLocation → Parsing F Returns
    return_tuple loc = do
      types ← separated comma (parse_type p)
      consume right_paren expected_right_paren
      if ltb (length types) 2 then throw_at tuple_return_type_size loc else done (no_type, types)

    unfoldable pub parse_return_type : SourceLocation → Parsing F Returns
    parse_return_type loc = do
      arrowed ← match arrow
      bare ← asks (λ s. check left_brace s || check semicolon s)
      if not arrowed || bare then done (no_type, []) else (do
        tuple ← match left_paren
        if tuple then return_tuple loc else (do type ← parse_type p; done (type, [])))

    abbrev pub function_body : Bool → Parsing F (Expr F)
    function_body is_external =
        if is_external
        then consume semicolon expected_semicolon_after_external >> done no_expr
        else parse_block p

    -- Behind the `&`.
    abbrev pub func_decl_rest : SourceLocation → Bool → Bool → Parsing F (Stmt F)
    func_decl_rest loc is_external is_exported = do
      refs ← parse_receivers
      namespace ← parse_namespace
      check_receivers namespace refs
      name ← parse_function_name
      consume left_paren expected_left_paren
      params ← parse_params
      consume right_paren expected_right_paren
      returns ← parse_return_type loc
      body ← function_body is_external
      done (
          stmt_at
            (func_decl name params refs returns.0 body is_external is_exported (some_text namespace)
              (types_from returns.1))
            loc)

    unfoldable pub parse_func_decl : Parsing F (Stmt F)
    parse_func_decl = do
      loc ← asks here
      is_external ← match ampersand_bang
      if is_external
          then (do is_exported ← match ampersand_caret; func_decl_rest loc true is_exported)
          else (do
            is_exported ← match ampersand_caret
            if is_exported then func_decl_rest loc false true else (do
              consume ampersand expected_function_declaration
              func_decl_rest loc false false))

    unfoldable pub parse_type_decl : Parsing F (Stmt F)
    parse_type_decl = do
      loc ← asks here
      consume hash expected_hash
      name ← name_token expected_type_name
      consume left_paren expected_left_paren
      fields ← parse_fields
      consume right_paren expected_right_paren
      consume semicolon expected_semicolon
      done (stmt_at (type_decl name fields) loc)

  abbrev pub process_import : SourceLocation → Parsing F (Stmt F)
  process_import loc = do
    command ← take
    consume arrow expected_arrow_after_command
    var_name ← name_token expected_identifier_after_arrow
    consume semicolon expected_semicolon
    done (
        stmt_at
          (var_decl var_name (primitive_kind string_type 0 (pos 0) loc)
            (make_process (string_of command) loc) false false normal)
          loc)

  unfoldable pub parse_import : Parsing F (Stmt F)
  parse_import = do
    loc ← asks here
    consume double_colon expected_double_colon
    is_process ← asks (check string_literal)
    if is_process then process_import loc else (do
      path ← parse_qualified_name
      consume semicolon expected_semicolon
      done (stmt_at (import_stmt path) loc))
