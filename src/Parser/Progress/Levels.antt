-- ===== src/Parser/Progress/Levels.antt =====
-- The tokens that the levels of operators take, by those that an operand takes.
use vexel_lang.Parser.Progress.{
  Moving, Moving-asks, Moving-done, Moving-if, Moving-less, Moving-throw, Moving-weaken, Within,
  Within-bind, Within-from, bind0, bind1, bind10, remaining,
}
use vexel_lang.Parser.Progress.Tokens.{
  attempt-Moving, match-Moving, match_then, split_if, step-Moving, take-Moving,
}
use vexel_lang.Parser.Progress.Loops.{Moving-at, Moving-rounds, Moving-zero}
use vexel_lang.Parser.Progress.Types.{Progressing, match_iteration-Moving}
use vexel_lang.Parser.{
  Outcome, Parser, Parsing, Position, asks, attempt, check, done, here, match, no_fuel, out_of_fuel,
  position, returned, throw_at, thrown, ◌>>=◌, ◌>>◌,
}
use vexel_lang.Parser.Kinds.{comparisons, compound_assignments, ordinal}
use vexel_lang.Parser.Grammar.{Parsers}
use vexel_lang.Parser.Operators.{
  assigned, binary_level, binary_loop, binary_round, can_use_statement_conditional, check_any,
  check_operator, compared, conditional_branches, dotted_any, is_bare_conditional, leave_depth,
  match_operator, never, parse_assignment, parse_bit_and, parse_bit_or, parse_bit_xor,
  parse_compare, parse_conditional, parse_expr, parse_expr_allowing_stmt_conditional,
  parse_logic_and, parse_logic_or, parse_prod, parse_range, parse_shift, parse_sum, range_iteration,
  require_parentheses, restore_conditionals, starts_next_function, statement_conditional,
  with_depth,
}
use vexel_lang.Lexer.Token.{
  TokenType, ampersand, assign, bit_or, bit_xor, colon, dot_dot, left_shift, logical_and,
  logical_or, minus, percent, plus, question, right_shift, slash, star,
}
use vexel_lang.Base.{
  Bool, List, Option, [], arith, if◌then◌else◌, length, none, refl, some, suc, true, zero, ℕ, ◌+◌,
  ◌<◌, ◌∷◌, ◌≤◌,
}
use vexel_lang.Error.{
  SourceLocation, Text, ambiguous_chained_comparison, ambiguous_nested_conditional,
  statement_conditional_not_expression,
}
use vexel_lang.Ast.{Expr}
use vexel_lang.Ast.Make.{
  expr_location, make_assignment, make_binary, make_conditional, make_iteration, make_range,
}

module _ {F : Type 0} where
  pub match_operator-Moving :
      {k : ℕ} (types : List TokenType) → Moving k 0 (match_operator {F = F} types)
  unfolding match_operator
  match_operator-Moving types = bind0 (Moving-asks (check_any types)) (λ plain.
      bind0 (Moving-asks (dotted_any types)) (λ dotted.
        Moving-if plain (bind0 take-Moving (λ op. Moving-done (some op.lexeme))) (
          Moving-if dotted
            (bind0 step-Moving
              (λ _. bind0 take-Moving (λ op. Moving-done (some (b'.' ∷ op.lexeme)))))
            (Moving-done none))))

  with_depth-Moving :
      {A : Type 0} {k d : ℕ} (m : Parsing F A) → Moving k d m → Moving k d (with_depth m)
  unfolding with_depth
  with_depth-Moving {A} {k} {d} m hm = record {
    moves = λ s hs.
        left (remaining s) (m (record s { statement_expr_depth = suc s.statement_expr_depth }))
          (hm.moves (record s { statement_expr_depth = suc s.statement_expr_depth }) hs);
  }
    where
      left : (n : ℕ) (o : Outcome F A) → Within d n o → Within d n (leave_depth o)
      left n (returned a t) w = w
      left n (thrown e t) w = w
      left n out_of_fuel w = w

  binary_round-Moving :
      {k : ℕ} (operand : Parsing F (Expr F)) (loop : Expr F → Parsing F (Expr F)) (left : Expr F)
      → Moving (suc k) 1 operand
      → ((e : Expr F) → Moving k 0 (loop e))
      → (op : Option Text) → Moving (suc k) 0 (binary_round operand loop left op)
  binary_round-Moving operand loop left ho hl none = Moving-done left
  binary_round-Moving operand loop left ho hl (some op) =
      Moving-weaken _ (bind1 ho (λ right. hl (make_binary op left right (expr_location left))))

  binary_loop-Moving :
      {k : ℕ} (stop : Parser F → Bool) (types : List TokenType) (operand : Parsing F (Expr F))
      → Moving k 1 operand
      → (fuel : ℕ) → fuel ≤ k
      → (left : Expr F) → Moving fuel 0 (binary_loop stop types operand fuel left)
  unfolding binary_loop
  binary_loop-Moving stop types operand ho zero hk left = Moving-zero no_fuel
  binary_loop-Moving stop types operand ho (suc fuel) hk left = bind0 (Moving-asks stop) (λ stopped.
      bind0 (Moving-if stopped (Moving-done none) (match_operator-Moving types)) (
        binary_round-Moving operand (binary_loop stop types operand fuel) left
          (Moving-at operand hk ho) (binary_loop-Moving stop types operand ho fuel (omega arith))))

  binary_level-Moving :
      {k : ℕ} (stop : Parser F → Bool) (types : List TokenType) (operand : Parsing F (Expr F))
      → Moving k 1 operand
      → Moving k 1 (binary_level stop types operand)
  unfolding binary_level
  binary_level-Moving stop types operand ho = bind10 ho (λ left.
      Moving-rounds (λ fuel. binary_loop stop types operand fuel left)
        (λ fuel hk. binary_loop-Moving stop types operand ho fuel hk left))

  module _ {k : ℕ} (p : Parsers F) (h : Progressing k p) (unary : Parsing F (Expr F))
      (hu : Moving (suc k) 1 unary) where
    prod-Moving : Moving (suc k) 1 (parse_prod p unary)
    unfolding parse_prod
    prod-Moving = binary_level-Moving never (star ∷ slash ∷ percent ∷ []) unary hu

    sum-Moving : Moving (suc k) 1 (parse_sum p unary)
    unfolding parse_sum
    sum-Moving = binary_level-Moving never (plus ∷ minus ∷ []) (parse_prod p unary) prod-Moving

    range_iteration-Moving :
        (range : Expr F) (o : Option Bool) → Moving k 0 (range_iteration p unary range o)
    range_iteration-Moving range none = Moving-done range
    range_iteration-Moving range (some sorted) =
        bind0 (Moving-weaken p.expr h.expr)
          (λ body. Moving-done (make_iteration range body sorted (expr_location range)))

    range-Moving : Moving (suc k) 1 (parse_range p unary)
    unfolding parse_range
    range-Moving = bind1 sum-Moving (λ left. bind0 (match-Moving dot_dot) (λ ranged.
        Moving-if ranged
          (bind0 (Moving-weaken _ (Moving-less _ sum-Moving)) (λ right.
            bind0 match_iteration-Moving
              (range_iteration-Moving (make_range left right (expr_location left)))))
          (Moving-done left)))

    shift-Moving : Moving (suc k) 1 (parse_shift p unary)
    unfolding parse_shift
    shift-Moving =
        binary_level-Moving never (left_shift ∷ right_shift ∷ []) (parse_range p unary) range-Moving

    compared-Moving :
        (left : Expr F) (loc : SourceLocation) (op : Option Text)
        → Moving (suc k) 0 (compared p unary left loc op)
    compared-Moving left loc none = Moving-done left
    compared-Moving left loc (some op) = bind0 (Moving-weaken _ shift-Moving) (λ right.
        bind0 (Moving-asks (check_operator comparisons)) (λ again.
          Moving-if again (Moving-throw ambiguous_chained_comparison loc)
            (Moving-done (make_binary op left right (expr_location left)))))

    compare-Moving : Moving (suc k) 1 (parse_compare p unary)
    unfolding parse_compare
    compare-Moving = bind10 shift-Moving (λ left.
        bind0 (Moving-asks here)
          (λ op_loc. bind0 (match_operator-Moving comparisons) (compared-Moving left op_loc)))

    bit_and-Moving : Moving (suc k) 1 (parse_bit_and p unary)
    unfolding parse_bit_and
    bit_and-Moving =
        binary_level-Moving starts_next_function (ampersand ∷ []) (parse_compare p unary)
          compare-Moving

    bit_xor-Moving : Moving (suc k) 1 (parse_bit_xor p unary)
    unfolding parse_bit_xor
    bit_xor-Moving = binary_level-Moving never (bit_xor ∷ []) (parse_bit_and p unary) bit_and-Moving

    bit_or-Moving : Moving (suc k) 1 (parse_bit_or p unary)
    unfolding parse_bit_or
    bit_or-Moving = binary_level-Moving never (bit_or ∷ []) (parse_bit_xor p unary) bit_xor-Moving

    logic_and-Moving : Moving (suc k) 1 (parse_logic_and p unary)
    unfolding parse_logic_and
    logic_and-Moving =
        binary_level-Moving never (logical_and ∷ []) (parse_bit_or p unary) bit_or-Moving

    logic_or-Moving : Moving (suc k) 1 (parse_logic_or p unary)
    unfolding parse_logic_or
    logic_or-Moving =
        binary_level-Moving never (logical_or ∷ []) (parse_logic_and p unary) logic_and-Moving

    -- The true branch that is no conditional goes back to the question mark.
    statement_conditional-Within :
        (e : Expr F) (saved : Position F) (n : ℕ) (s : Parser F)
        → length saved.rest ≤ n
        → Within 0 n (statement_conditional p unary e saved s)
    statement_conditional-Within e saved n s hn =
        split_if 0 n (can_use_statement_conditional p unary t) (done e)
          (throw_at statement_conditional_not_expression (here t)) t (λ h. omega arith)
          (λ h. omega arith)
      where
        t : Parser F
        t = record s { pos = saved }

    colon-Moving :
        (e true_expr : Expr F)
        → Moving k 0 (do
          false_expr ← p.conditional
          require_parentheses p unary true_expr
          require_parentheses p unary false_expr
          done (make_conditional e true_expr false_expr (expr_location e)))
    colon-Moving e true_expr = bind0 (Moving-weaken p.conditional h.conditional) (λ false_expr.
        bind0 (parentheses-Moving true_expr) (λ _.
          bind0 (parentheses-Moving false_expr)
            (λ _. Moving-done (make_conditional e true_expr false_expr (expr_location e)))))
      where
        parentheses-Moving : (e : Expr F) → Moving k 0 (require_parentheses p unary e)
        parentheses-Moving e =
            Moving-if (is_bare_conditional p unary e)
              (Moving-throw ambiguous_nested_conditional (expr_location e)) (Moving-done tt)

    branches-Within :
        (e : Expr F) (saved : Position F) (o : Option (Expr F)) (n : ℕ) (s : Parser F)
        → remaining s < k
        → remaining s ≤ n
        → length saved.rest ≤ n
        → Within 0 n (conditional_branches p unary e saved o s)
    unfolding ordinal
    branches-Within e saved none n s hk hs hn = statement_conditional-Within e saved n s hn
    branches-Within e saved (some true_expr) n s hk hs hn =
        match_then colon 0 n _ s refl hs
          (λ t ht.
            Within-from 0 0 0 (remaining t) n _ (omega arith) (omega arith)
              ((colon-Moving e true_expr).moves t (omega arith)))
          (λ no. statement_conditional-Within e saved n s hn)

    asked-Moving :
        (e : Expr F)
        → Moving k 0 (do
          saved ← asks position
          asked ← match question
          if asked
              then (do true_expr ← attempt p.expr; conditional_branches p unary e saved true_expr)
              else done e)
    unfolding ordinal
    asked-Moving e = record {
      moves = λ s hs.
          match_then question 0 (remaining s) _ s refl (omega arith)
            (λ t ht.
              Within-bind 0 0 (remaining s) (attempt p.expr t)
                (conditional_branches p unary e s.pos)
                (Within-from 0 0 0 (remaining t) (remaining s) (attempt p.expr t) (omega arith)
                  (omega arith) ((attempt-Moving p.expr h.expr).moves t (omega arith)))
                (λ o u hu.
                  branches-Within e s.pos o (remaining s) u (omega arith) (omega arith)
                    (omega arith)))
            (λ no. omega arith);
    }

    pub conditional-Moving : Moving (suc k) 1 (parse_conditional p unary)
    unfolding parse_conditional
    conditional-Moving = bind1 logic_or-Moving asked-Moving

    assigned-Moving : (e : Expr F) (op : Option Text) → Moving k 0 (assigned p unary e op)
    assigned-Moving e none = Moving-done e
    assigned-Moving e (some op) =
        bind0 (Moving-weaken p.assignment h.assignment)
          (λ rhs. Moving-done (make_assignment e rhs (expr_location e) op))

    pub assignment-Moving : Moving (suc k) 1 (parse_assignment p unary)
    unfolding parse_assignment
    assignment-Moving = bind1 conditional-Moving (λ e. bind0 (Moving-asks (check assign)) (λ plain.
        bind0
          (Moving-if plain (bind0 take-Moving (λ op. Moving-done (some op.lexeme)))
            (match_operator-Moving compound_assignments))
          (assigned-Moving e)))

    pub expr-Moving : Moving (suc k) 1 (parse_expr p unary)
    unfolding parse_expr
    expr-Moving = with_depth-Moving (parse_assignment p unary) assignment-Moving

    restore-Moving : {j : ℕ} (b : Bool) (n : ℕ) → Moving j 0 (restore_conditionals p unary b n)
    restore-Moving b n = record { moves = λ s hs. omega arith }

    pub expr_allowing-Moving : Moving (suc k) 1 (parse_expr_allowing_stmt_conditional p unary)
    unfolding parse_expr_allowing_stmt_conditional
    expr_allowing-Moving = bind0 (Moving-asks (λ s. s.allow_statement_conditionals)) (λ previous.
        bind0 (Moving-asks (λ s. s.statement_expr_allowed_depth)) (λ previous_allowed.
          bind0 (Moving-asks (λ s. s.statement_expr_depth)) (λ depth.
            bind0 (restore-Moving true (depth + 1)) (λ _. bind1 expr-Moving (λ result.
              bind0 (restore-Moving previous previous_allowed) (λ _. Moving-done result))))))
