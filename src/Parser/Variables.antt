-- ===== src/Parser/Variables.antt =====
-- frontend/src/parse/parser.cpp: declarations of variables.
use vexel_lang.Parser.{
  Outcome, Parser, Parsing, asks, consume, done, here, match, out_of_fuel, returned, throw_at,
  thrown, ◌>>=◌,
}
use vexel_lang.Parser.Grammar.{Parsers}
use vexel_lang.Parser.TypeSyntax.{optional_type}
use vexel_lang.Parser.Operators.{assigned}
use vexel_lang.Lexer.Token.{assign, bit_xor, identifier, logical_not}
use vexel_lang.Base.{Bool, Option, false, if◌then◌else◌, not, some, true, ℕ, ◌&&◌, ◌+◌, ◌||◌}
use vexel_lang.Error.{
  SourceLocation, Text, expected_variable_name, exported_and_external, external_with_initializer,
  external_without_type, global_without_type, local_external_declaration,
}
use vexel_lang.Ast.{
  AstType, Expr, Stmt, VarLinkageKind, backend_bound, external_symbol, no_expr, no_type, normal,
  var_decl,
}
use vexel_lang.Ast.Make.{stmt_at}

abbrev pub is_normal : VarLinkageKind → Bool
is_normal normal = true
is_normal linkage = false

module _ {F : Type 0} where
  abbrev pub is_null_type : AstType F → Bool
  is_null_type no_type = true
  is_null_type t = false

  abbrev pub is_null_expr : Expr F → Bool
  is_null_expr no_expr = true
  is_null_expr e = false

  module _ (p : Parsers F) where
    -- Behind a `!`.
    abbrev pub double_bang : Bool → SourceLocation → Parsing F VarLinkageKind
    double_bang allow_double_bang_local loc = do
      double ← match logical_not
      if double
          then done backend_bound
          else if allow_double_bang_local
          then throw_at local_external_declaration loc
          else done external_symbol

    abbrev pub var_linkage : Bool → SourceLocation → Parsing F VarLinkageKind
    var_linkage allow_double_bang_local loc = do
      bang ← match logical_not
      if bang then double_bang allow_double_bang_local loc else done normal

    abbrev pub leave_boundary : {A : Type 0} → Bool → Option ℕ → Outcome F A → Outcome F A
    leave_boundary split root (returned a t) = returned a (record t {
      split_top_level_plain_ampersand_funcs = split;
      top_level_init_expr_root_depth = root;
    })
    leave_boundary split root (thrown e t) = thrown e (record t {
      split_top_level_plain_ampersand_funcs = split;
      top_level_init_expr_root_depth = root;
    })
    leave_boundary split root out_of_fuel = out_of_fuel

    abbrev pub enter_boundary : Bool → Parser F → Parser F
    enter_boundary enable s =
        if enable
        then record s {
          split_top_level_plain_ampersand_funcs = true;
          top_level_init_expr_root_depth = some (s.statement_expr_depth + 1);
        }
        else s

    -- The guard's fields are put back however the initializer ends.
    unfoldable pub with_boundary : {A : Type 0} → Bool → Parsing F A → Parsing F A
    with_boundary enable m s =
        leave_boundary s.split_top_level_plain_ampersand_funcs s.top_level_init_expr_root_depth
          (m (enter_boundary enable s))

    abbrev pub initializer : Bool → Parsing F (Expr F)
    initializer allow_double_bang_local = do
      assigned ← match assign
      if assigned then with_boundary (not allow_double_bang_local) p.expr else done no_expr

    -- The checks behind the declaration, in their order.
    abbrev pub declared :
        Text → AstType F → Expr F → Bool → VarLinkageKind → SourceLocation → Parsing F (Stmt F)
    declared name type init is_exported linkage loc =
        if not (is_normal linkage) && is_null_type type
        then throw_at (external_without_type name) loc
        else if not (is_normal linkage) && not (is_null_expr init)
        then throw_at (external_with_initializer name) loc
        else if is_null_type type && is_null_expr init
        then throw_at global_without_type loc
        else done (
            stmt_at
              (var_decl name type init
                (not (is_normal linkage) || (is_null_expr init && not (is_null_type type)))
                is_exported linkage)
              loc)

    -- Behind the name, and behind the type.
    abbrev pub typed_decl :
        Bool → SourceLocation → Bool → VarLinkageKind → Text → AstType F → Parsing F (Stmt F)
    typed_decl allow_double_bang_local loc is_exported linkage name type = do
      init ← initializer allow_double_bang_local
      declared name type init is_exported linkage loc

    abbrev pub named_decl :
        Bool → SourceLocation → Bool → VarLinkageKind → Text → Parsing F (Stmt F)
    named_decl allow_double_bang_local loc is_exported linkage name =
        optional_type p >>= typed_decl allow_double_bang_local loc is_exported linkage name

    -- Behind the linkage.
    abbrev pub var_decl_rest : Bool → SourceLocation → Bool → VarLinkageKind → Parsing F (Stmt F)
    var_decl_rest allow_double_bang_local loc is_exported linkage =
        if is_exported && not (is_normal linkage)
        then throw_at exported_and_external loc
        else (consume identifier expected_variable_name >>= λ token.
            named_decl allow_double_bang_local loc is_exported linkage token.lexeme)

    unfoldable pub parse_var_decl : Bool → Parsing F (Stmt F)
    parse_var_decl allow_double_bang_local = do
      loc ← asks here
      is_exported ← match bit_xor
      linkage ← var_linkage allow_double_bang_local loc
      var_decl_rest allow_double_bang_local loc is_exported linkage
