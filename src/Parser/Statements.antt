-- ===== src/Parser/Statements.antt =====
-- frontend/src/parse/parser.cpp: statements.
use vexel_lang.Parser.{
  Parsing, asks, check, consume, current, done, match, no_fuel, or_rewind, peek, returned, rounds,
  skip_semis, step, take, ◌>>=◌, ◌>>◌,
}
use vexel_lang.Parser.Kinds.{at_statement, is_type}
use vexel_lang.Parser.Annotations.{parse_annotations_disambiguated}
use vexel_lang.Parser.Lookahead.{kinds, looks_like_var_decl_with_linkage}
use vexel_lang.Parser.Grammar.{Parsers, match_iteration}
use vexel_lang.Parser.Operators.{assigned, parse_expr_allowing_stmt_conditional}
use vexel_lang.Parser.Primary.{parse_block}
use vexel_lang.Parser.Unary.{parse_unary}
use vexel_lang.Parser.Variables.{parse_var_decl}
use vexel_lang.Parser.Declarations.{parse_func_decl, parse_import, parse_type_decl}
use vexel_lang.Lexer.Token.{
  Token, TokenType, ampersand, arrow, assign, break_arrow, comma, continue_arrow, double_colon,
  hash, identifier, left_brace, logical_not, question, semicolon,
}
use vexel_lang.Base.{
  Bool, List, Option, [], false, if◌then◌else◌, none, some, suc, true, zero, ℕ, ◌&&◌, ◌++◌, ◌∷◌,
}
use vexel_lang.Error.{SourceLocation, Text, expected_hash, expected_semicolon}
use vexel_lang.Ast.{
  Expr, Stmt, StmtKind, Stmts, a_stmt, break_stmt, conditional_stmt, continue_stmt, expr, expr_stmt,
  identifier_kind, no_expr, no_stmts, no_type, normal, return_stmt, var_decl,
}
use vexel_lang.Ast.Make.{
  annotate_stmt, make_assignment, make_block, make_identifier, make_iteration, make_member,
  optional_semantic_block, stmt_at,
}
use vexel_lang.Literal.{show}

-- TUPLE_TMP_PREFIX and MANGLED_PREFIX of frontend/src/core/constants.h.
abbrev mangled_prefix : Text
mangled_prefix = b'_' ∷ b'_' ∷ []

abbrev tuple_tmp_prefix : Text
tuple_tmp_prefix =
    b'_' ∷ b'_' ∷ b't' ∷ b'u' ∷ b'p' ∷ b'l' ∷ b'e' ∷ b'_' ∷ b't' ∷ b'm' ∷ b'p' ∷ b'_' ∷ []

module _ {F : Type 0} where
  abbrev pub with_target : Token F → Option (List (Token F)) → Option (List (Token F))
  with_target token none = none
  with_target token (some tokens) = some (token ∷ tokens)

  -- Behind a target, whether a comma was matched.
  abbrev pub more_targets :
      Token F → Parsing F (Option (List (Token F))) → Bool → Parsing F (Option (List (Token F)))
  more_targets token loop true = do others ← loop; done (with_target token others)
  more_targets token loop false = done (some (token ∷ []))

  -- `do { if (!check(Identifier)) ...; ids.push_back(...); } while (match(Comma));`: `none` where it
  -- backtracks.
  unfoldable pub targets_loop : ℕ → Parsing F (Option (List (Token F)))
  targets_loop zero = no_fuel
  targets_loop (suc fuel) = do
    named ← asks (check identifier)
    elim named [
      | true ↦ do token ← take; match comma >>= more_targets token (targets_loop fuel)
      | false ↦ done none
    ]

  abbrev pub next_counter : Parsing F ℕ
  next_counter s = returned s.tmp_counter (record s { tmp_counter = suc s.tmp_counter })

  -- `ids[i] = tmp.__i;` for each target from `i` on.
  unfoldable pub target_stmts : Text → SourceLocation → ℕ → List (Token F) → Stmts F
  target_stmts tmp_name loc i [] = no_stmts
  target_stmts tmp_name loc i (id ∷ ids) =
      let field =
        make_member (make_identifier tmp_name loc) (mangled_prefix ++ show 20 i) id.location in
      let target = make_identifier id.lexeme id.location in
      a_stmt
        (stmt_at (expr_stmt (make_assignment target field id.location (b'=' ∷ []))) id.location)
        (target_stmts tmp_name loc (suc i) ids)

  unfoldable pub desugar : SourceLocation → ℕ → Expr F → List (Token F) → Stmt F
  desugar loc counter rhs ids =
      let tmp_name = tuple_tmp_prefix ++ show 20 counter in
      let tmp = stmt_at (var_decl tmp_name no_type rhs true false normal) loc in
      stmt_at (expr_stmt (make_block (a_stmt tmp (target_stmts tmp_name loc 0 ids)) no_expr loc))
        loc

  module _ (p : Parsers F) where
    abbrev pub assign_targets :
        SourceLocation → Option (List (Token F)) → Parsing F (Option (Stmt F))
    assign_targets loc none = done none
    assign_targets loc (some ids) = do
      assigned ← match assign
      if assigned
          then (do rhs ← p.expr; counter ← next_counter; done (some (desugar loc counter rhs ids)))
          else done none

    -- Behind the first identifier.
    abbrev pub named_targets : SourceLocation → Token F → Parsing F (Option (Stmt F))
    named_targets loc first = do
      many ← match comma
      if many
          then (do
            others ← (λ s. targets_loop (rounds s) s)
            assign_targets loc (with_target first others))
          else done none

    -- `a, b, c = expr`; `none` where it is something else.
    unfoldable pub multi_assignment : SourceLocation → Parsing F (Option (Stmt F))
    multi_assignment loc = do
      named ← asks (check identifier)
      if named then take >>= named_targets loc else done none

    -- An identifier with a type declares a variable.
    abbrev pub expression_stmt : SourceLocation → Expr F → Stmt F
    expression_stmt loc (expr marks (identifier_kind name no_type)) =
        stmt_at (expr_stmt (expr marks (identifier_kind name no_type))) loc
    expression_stmt loc (expr marks (identifier_kind name type)) =
        stmt_at (var_decl name type no_expr true false normal) loc
    expression_stmt loc e = stmt_at (expr_stmt e) loc

    abbrev pub behind_expression : SourceLocation → Expr F → Option Bool → Parsing F (Stmt F)
    behind_expression loc e (some sorted) = do
      body ← p.expr
      done (stmt_at (expr_stmt (make_iteration e body sorted loc)) loc)
    behind_expression loc e none = do
      asked ← match question
      if asked
          then (do s ← p.stmt; done (stmt_at (conditional_stmt e s) loc))
          else done (expression_stmt loc e)

    unfoldable pub parse_expression_stmt : SourceLocation → Parsing F (Stmt F)
    parse_expression_stmt loc = do
      e ← parse_expr_allowing_stmt_conditional p (parse_unary p)
      iteration ← match_iteration
      behind_expression loc e iteration

    abbrev pub return_of : SourceLocation → Parsing F (Stmt F)
    return_of loc = do
      bare ← asks (check semicolon)
      ret_expr ← (if bare then done no_expr else p.expr)
      consume semicolon expected_semicolon
      done (stmt_at (return_stmt ret_expr) loc)

    abbrev pub jump : StmtKind F → SourceLocation → Parsing F (Stmt F)
    jump kind loc = do consume semicolon expected_semicolon; done (stmt_at kind loc)

    abbrev pub optional_block : SourceLocation → Parsing F (Stmt F)
    optional_block loc = do
      consume hash expected_hash
      block ← parse_block p
      done (stmt_at (expr_stmt (optional_semantic_block block)) loc)

    abbrev pub other_stmt : SourceLocation → Parsing F (Stmt F)
    other_stmt loc = or_rewind (multi_assignment loc) (parse_expression_stmt loc)

    -- The case that the current token chooses, where `brace` is whether a brace is behind it and `linked`
    -- whether a declaration with linkage starts there.
    unfoldable pub stmt_case : SourceLocation → TokenType → Bool → Bool → Parsing F (Stmt F)
    stmt_case loc type brace linked =
        if is_type type arrow
        then step >> return_of loc
        else if is_type type break_arrow
        then step >> jump break_stmt loc
        else if is_type type continue_arrow
        then step >> jump continue_stmt loc
        else if is_type type hash && brace
        then optional_block loc
        else if is_type type hash
        then parse_type_decl p
        else if is_type type double_colon
        then parse_import
        else if is_type type ampersand
        then parse_func_decl p
        else if is_type type logical_not && linked
        then parse_var_decl p true
        else other_stmt loc

    unfoldable pub parse_stmt_no_semi : Parsing F (Stmt F)
    parse_stmt_no_semi = do
      tok ← asks current
      behind ← asks (peek 1)
      linked ← asks (λ s. looks_like_var_decl_with_linkage false (kinds s))
      stmt_case tok.location tok.type (is_type behind.type left_brace) linked

    unfoldable pub parse_stmt : Parsing F (Stmt F)
    parse_stmt = do
      annotations ← parse_annotations_disambiguated at_statement
      s ← parse_stmt_no_semi
      skip_semis
      done (annotate_stmt annotations s)
