-- ===== src/Parser/Operators.antt =====
-- frontend/src/parse/parser.cpp: expressions by the precedence of their operators, from `parse_expr` down
-- to `parse_prod`. `p` holds the methods that are called behind a token that was taken.
use vexel_lang.Parser.{
  Outcome, Parser, Parsing, Position, asks, attempt, check, current, done, here, match, no_fuel,
  out_of_fuel, peek, position, previous, returned, rewind, rounds, step, take, throw_at, thrown,
  ◌>>=◌, ◌>>◌,
}
use vexel_lang.Parser.Kinds.{comparisons, compound_assignments, is_one_of}
use vexel_lang.Parser.Lookahead.{kinds, looks_like_plain_func_decl_start}
use vexel_lang.Parser.Grammar.{Parsers, match_iteration}
use vexel_lang.Lexer.Token.{
  TokenType, ampersand, assign, bit_or, bit_xor, colon, dot, dot_dot, left_shift, logical_and,
  logical_or, minus, percent, plus, question, right_shift, slash, star,
}
use vexel_lang.Base.{
  Bool, List, Option, [], false, if◌then◌else◌, length, ltb, none, not, some, suc, true, zero, ℕ,
  ◌&&◌, ◌+◌, ◌-◌, ◌==◌, ◌||◌, ◌∷◌,
}
use vexel_lang.Error.{
  SourceLocation, Text, ambiguous_chained_comparison, ambiguous_nested_conditional,
  statement_conditional_not_expression,
}
use vexel_lang.Ast.{Expr, conditional_kind, expr}
use vexel_lang.Ast.Make.{
  expr_location, make_assignment, make_binary, make_conditional, make_iteration, make_range,
}

abbrev is_root : ℕ → Option ℕ → Bool
is_root depth none = false
is_root depth (some root) = depth == root

module _ {F : Type 0} where
  abbrev pub check_any : List TokenType → Parser F → Bool
  check_any types s = is_one_of (current s).type types

  abbrev pub dotted_any : List TokenType → Parser F → Bool
  dotted_any types s =
      check dot s && is_one_of (peek 1 s).type types && ltb 1 (length s.pos.rest + 1)

  unfoldable pub check_operator : List TokenType → Parser F → Bool
  check_operator types s = check_any types s || dotted_any types s

  -- The operator of a level, with or without a dot in front, and its text.
  unfoldable pub match_operator : List TokenType → Parsing F (Option Text)
  match_operator types = do
    plain ← asks (check_any types)
    dotted ← asks (dotted_any types)
    if plain
        then (do op ← take; done (some op.lexeme))
        else if dotted
        then (do step; op ← take; done (some (b'.' ∷ op.lexeme)))
        else done none

  -- A round, where `op` is the operator that it found, and `loop` the rounds behind it.
  abbrev pub binary_round :
      Parsing F (Expr F) → (Expr F → Parsing F (Expr F)) → Expr F → Option Text → Parsing F (Expr F)
  binary_round operand loop left none = done left
  binary_round operand loop left (some op) = do
    right ← operand
    loop (make_binary op left right (expr_location left))

  -- `while (check(...)) { ...; right = operand(); left = make_binary(op, left, right, left->location); }`,
  -- which `stop` leaves early.
  unfoldable pub binary_loop :
      (Parser F → Bool) → List TokenType → Parsing F (Expr F) → ℕ → Expr F → Parsing F (Expr F)
  binary_loop stop types operand zero left = no_fuel
  binary_loop stop types operand (suc fuel) left = do
    stopped ← asks stop
    op ← (if stopped then done none else match_operator types)
    binary_round operand (binary_loop stop types operand fuel) left op

  unfoldable pub binary_level :
      (Parser F → Bool) → List TokenType → Parsing F (Expr F) → Parsing F (Expr F)
  binary_level stop types operand = do
    left ← operand
    λ s. binary_loop stop types operand (rounds s) left s

  abbrev pub never : Parser F → Bool
  never s = false

  -- Where an initializer at the top level leaves an `&` to the function declaration that it starts.
  unfoldable pub starts_next_function : Parser F → Bool
  starts_next_function s =
      s.split_top_level_plain_ampersand_funcs
      && is_root s.statement_expr_depth s.top_level_init_expr_root_depth
      && looks_like_plain_func_decl_start (kinds s)

  -- `depth++`, and `depth--` however the method ends.
  abbrev pub leave_depth : {A : Type 0} → Outcome F A → Outcome F A
  leave_depth (returned a t) =
      returned a (record t { statement_expr_depth = t.statement_expr_depth - 1 })
  leave_depth (thrown e t) =
      thrown e (record t { statement_expr_depth = t.statement_expr_depth - 1 })
  leave_depth out_of_fuel = out_of_fuel

  unfoldable pub with_depth : {A : Type 0} → Parsing F A → Parsing F A
  with_depth m s = leave_depth (m (record s { statement_expr_depth = suc s.statement_expr_depth }))

  module _ (p : Parsers F) (parse_unary : Parsing F (Expr F)) where
    unfoldable pub parse_prod : Parsing F (Expr F)
    parse_prod = binary_level never (star ∷ slash ∷ percent ∷ []) parse_unary

    unfoldable pub parse_sum : Parsing F (Expr F)
    parse_sum = binary_level never (plus ∷ minus ∷ []) parse_prod

    abbrev pub range_iteration : Expr F → Option Bool → Parsing F (Expr F)
    range_iteration range none = done range
    range_iteration range (some sorted) = do
      body ← p.expr
      done (make_iteration range body sorted (expr_location range))

    unfoldable pub parse_range : Parsing F (Expr F)
    parse_range = do
      left ← parse_sum
      ranged ← match dot_dot
      if ranged
          then (do
            right ← parse_sum
            iteration ← match_iteration
            range_iteration (make_range left right (expr_location left)) iteration)
          else done left

    unfoldable pub parse_shift : Parsing F (Expr F)
    parse_shift = binary_level never (left_shift ∷ right_shift ∷ []) parse_range

    abbrev pub compared : Expr F → SourceLocation → Option Text → Parsing F (Expr F)
    compared left op_loc none = done left
    compared left op_loc (some op) = do
      right ← parse_shift
      again ← asks (check_operator comparisons)
      if again
          then throw_at ambiguous_chained_comparison op_loc
          else done (make_binary op left right (expr_location left))

    unfoldable pub parse_compare : Parsing F (Expr F)
    parse_compare = do
      left ← parse_shift
      op_loc ← asks here
      op ← match_operator comparisons
      compared left op_loc op

    unfoldable pub parse_bit_and : Parsing F (Expr F)
    parse_bit_and = binary_level starts_next_function (ampersand ∷ []) parse_compare

    unfoldable pub parse_bit_xor : Parsing F (Expr F)
    parse_bit_xor = binary_level never (bit_xor ∷ []) parse_bit_and

    unfoldable pub parse_bit_or : Parsing F (Expr F)
    parse_bit_or = binary_level never (bit_or ∷ []) parse_bit_xor

    unfoldable pub parse_logic_and : Parsing F (Expr F)
    parse_logic_and = binary_level never (logical_and ∷ []) parse_bit_or

    unfoldable pub parse_logic_or : Parsing F (Expr F)
    parse_logic_or = binary_level never (logical_or ∷ []) parse_logic_and

    abbrev pub is_bare_conditional : Expr F → Bool
    is_bare_conditional (expr marks (conditional_kind c t f)) = not marks.was_parenthesized
    is_bare_conditional e = false

    abbrev pub require_parentheses : Expr F → Parsing F (Unit {0})
    require_parentheses branch =
        if is_bare_conditional branch
        then throw_at ambiguous_nested_conditional (expr_location branch)
        else done tt

    abbrev pub can_use_statement_conditional : Parser F → Bool
    can_use_statement_conditional s =
        s.allow_statement_conditionals && s.statement_expr_depth == s.statement_expr_allowed_depth

    -- No ':' behind the true branch.
    abbrev pub statement_conditional : Expr F → Position F → Parsing F (Expr F)
    statement_conditional e saved = do
      rewind saved
      allowed ← asks can_use_statement_conditional
      loc ← asks here
      if allowed then done e else throw_at statement_conditional_not_expression loc

    abbrev pub conditional_branches : Expr F → Position F → Option (Expr F) → Parsing F (Expr F)
    conditional_branches e saved none = statement_conditional e saved
    conditional_branches e saved (some true_expr) = do
      colon_found ← match colon
      if colon_found
          then (do
            false_expr ← p.conditional
            require_parentheses true_expr
            require_parentheses false_expr
            done (make_conditional e true_expr false_expr (expr_location e)))
          else statement_conditional e saved

    unfoldable pub parse_conditional : Parsing F (Expr F)
    parse_conditional = do
      e ← parse_logic_or
      saved ← asks position
      asked ← match question
      if asked
          then (do true_expr ← attempt p.expr; conditional_branches e saved true_expr)
          else done e

    abbrev pub assigned : Expr F → Option Text → Parsing F (Expr F)
    assigned e none = done e
    assigned e (some op) = do rhs ← p.assignment; done (make_assignment e rhs (expr_location e) op)

    unfoldable pub parse_assignment : Parsing F (Expr F)
    parse_assignment = do
      e ← parse_conditional
      plain ← asks (check assign)
      op ←
          (if plain
            then (do op ← take; done (some op.lexeme))
            else match_operator compound_assignments)
      assigned e op

    unfoldable pub parse_expr : Parsing F (Expr F)
    parse_expr = with_depth parse_assignment

    abbrev pub restore_conditionals : Bool → ℕ → Parsing F (Unit {0})
    restore_conditionals previous previous_allowed s = returned tt (record s {
      allow_statement_conditionals = previous;
      statement_expr_allowed_depth = previous_allowed;
    })

    -- What is set is put back where the expression returns, and stays where it throws.
    unfoldable pub parse_expr_allowing_stmt_conditional : Parsing F (Expr F)
    parse_expr_allowing_stmt_conditional = do
      previous ← asks (λ s. s.allow_statement_conditionals)
      previous_allowed ← asks (λ s. s.statement_expr_allowed_depth)
      depth ← asks (λ s. s.statement_expr_depth)
      restore_conditionals true (depth + 1)
      result ← parse_expr
      restore_conditionals previous previous_allowed
      done result
