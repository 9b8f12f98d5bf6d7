-- ===== src/Parser/Progress/Statements.antt =====
-- The tokens that statements take.
use vexel_lang.Parser.Progress.{
  Moving, Moving-asks, Moving-done, Moving-elim, Moving-if, Moving-weaken, Within, Within-bind,
  Within-from, bind0, bind1, remaining,
}
use vexel_lang.Parser.Progress.Tokens.{
  &&-left, check-Live, consume-Moving, consume1, match-Moving, match0, match_then, split_if, step1,
  take-Moving, take1,
}
use vexel_lang.Parser.Progress.Loops.{
  Found, Moving-rounds, Moving-zero, Within-Found, or_rewind-Within, skip_semis-Moving,
}
use vexel_lang.Parser.Progress.Annotations.{parse_annotations_disambiguated-Moving}
use vexel_lang.Parser.Progress.Passing.{Passing-Within}
use vexel_lang.Parser.Progress.Types.{Progressing, match_iteration-Moving}
use vexel_lang.Parser.Progress.Levels.{expr_allowing-Moving}
use vexel_lang.Parser.Progress.Primary.{block-Moving}
use vexel_lang.Parser.Progress.Unary.{unary-Moving}
use vexel_lang.Parser.Progress.Variables.{double_bang-Moving, linkage-Moving, var_decl_rest-Moving}
use vexel_lang.Parser.Progress.Declarations.{func_decl-Passing, import-Passing, type_decl-Passing}
use vexel_lang.Parser.{
  Parser, Parsing, check, current, done, here, match, no_fuel, peek, take, ◌>>=◌,
}
use vexel_lang.Parser.Kinds.{at_statement, is_type, ordinal}
use vexel_lang.Parser.Lookahead.{kinds, looks_like_var_decl_with_linkage}
use vexel_lang.Parser.Grammar.{Parsers}
use vexel_lang.Parser.Unary.{parse_unary}
use vexel_lang.Parser.Variables.{parse_var_decl, var_decl_rest, var_linkage}
use vexel_lang.Parser.Statements.{
  assign_targets, behind_expression, desugar, expression_stmt, jump, more_targets, multi_assignment,
  named_targets, next_counter, optional_block, other_stmt, parse_expression_stmt, parse_stmt,
  parse_stmt_no_semi, return_of, stmt_case, targets_loop, with_target,
}
use vexel_lang.Lexer.Token.{
  Token, TokenType, ampersand, arrow, assign, bit_xor, break_arrow, comma, continue_arrow,
  double_colon, hash, identifier, left_brace, logical_not, question, semicolon,
}
use vexel_lang.Base.{
  Bool, List, Option, [], arith, false, if◌then◌else◌, none, refl, some, suc, true, zero, ℕ, ◌&&◌,
  ◌<◌, ◌∷◌, ◌≡◌,
}
use vexel_lang.Error.{SourceLocation, expected_hash, expected_semicolon}
use vexel_lang.Ast.{
  Expr, Stmt, StmtKind, break_stmt, conditional_stmt, continue_stmt, expr_stmt, no_expr,
  return_stmt,
}
use vexel_lang.Ast.Make.{annotate_stmt, make_iteration, optional_semantic_block, stmt_at}

module _ {F : Type 0} where
  targets_loop-Moving : (fuel : ℕ) → Moving fuel 0 (targets_loop {F = F} fuel)
  unfolding targets_loop ordinal
  targets_loop-Moving zero = Moving-zero no_fuel
  targets_loop-Moving (suc fuel) = bind0 (Moving-asks (check identifier)) (λ named.
      Moving-elim named (take >>= λ token. match comma >>= more_targets token (targets_loop fuel))
        (done none)
        (bind0 take-Moving (λ token.
          match0 comma (more_targets token (targets_loop fuel)) refl
            (bind0 (targets_loop-Moving fuel) (λ others. Moving-done (with_target token others)))
            (Moving-done (some (token ∷ [])))))
        (Moving-done none))

  module _ {k : ℕ} (p : Parsers F) (h : Progressing k p) where
    counter-Moving : {j : ℕ} → Moving {F = F} j 0 next_counter
    counter-Moving = record { moves = λ s hs. omega arith }

    assign_targets-Moving :
        (loc : SourceLocation) (ids : Option (List (Token F)))
        → Moving k 0 (assign_targets p loc ids)
    assign_targets-Moving loc none = Moving-done none
    assign_targets-Moving loc (some ids) = bind0 (match-Moving assign) (λ assigned.
        Moving-if assigned
          (bind0 (Moving-weaken p.expr h.expr) (λ rhs.
            bind0 counter-Moving (λ counter. Moving-done (some (desugar loc counter rhs ids)))))
          (Moving-done none))

    named_targets-Moving :
        (loc : SourceLocation) (first : Token F) → Moving k 0 (named_targets p loc first)
    named_targets-Moving loc first = bind0 (match-Moving comma) (λ many.
        Moving-if many
          (bind0 (Moving-rounds targets_loop (λ fuel hk. targets_loop-Moving fuel))
            (λ others. assign_targets-Moving loc (with_target first others)))
          (Moving-done none))

    multi-Found :
        (loc : SourceLocation) (s : Parser F)
        → remaining s < suc k
        → Found 1 (remaining s) (multi_assignment p loc s)
    unfolding multi_assignment ordinal check
    multi-Found loc s hs = named (check identifier s) refl
      where
        named :
            (b : Bool)
            → check identifier s ≡ b
            → Found 1 (remaining s) ((if b then take >>= named_targets p loc else done none) s)
        named true e = Within-Found 1 (remaining s) _ (
            take1 (named_targets p loc) s (check-Live identifier s refl e) hs
              (named_targets-Moving loc))
        named false e = tt

    behind_expression-Moving :
        (loc : SourceLocation) (e : Expr F) (o : Option Bool)
        → Moving k 0 (behind_expression p loc e o)
    behind_expression-Moving loc e (some sorted) =
        bind0 (Moving-weaken p.expr h.expr)
          (λ body. Moving-done (stmt_at (expr_stmt (make_iteration e body sorted loc)) loc))
    behind_expression-Moving loc e none = bind0 (match-Moving question) (λ asked.
        Moving-if asked
          (bind0 (Moving-weaken p.stmt h.stmt)
            (λ s. Moving-done (stmt_at (conditional_stmt e s) loc)))
          (Moving-done (expression_stmt p loc e)))

    expression_stmt-Moving : (loc : SourceLocation) → Moving (suc k) 1 (parse_expression_stmt p loc)
    unfolding parse_expression_stmt
    expression_stmt-Moving loc =
        bind1 (expr_allowing-Moving p h (parse_unary p) (unary-Moving p h))
          (λ e. bind0 match_iteration-Moving (behind_expression-Moving loc e))

    other-Within :
        (loc : SourceLocation) (s : Parser F)
        → remaining s < suc k
        → Within 1 (remaining s) (other_stmt p loc s)
    other-Within loc s hs =
        or_rewind-Within 1 (multi_assignment p loc) (parse_expression_stmt p loc) s hs
          (multi-Found loc s hs) (expression_stmt-Moving loc)

    return-Moving : (loc : SourceLocation) → Moving k 0 (return_of p loc)
    return-Moving loc = bind0 (Moving-asks (check semicolon)) (λ bare.
        bind0 (Moving-if bare (Moving-done no_expr) (Moving-weaken p.expr h.expr)) (λ ret_expr.
          bind0 (consume-Moving semicolon expected_semicolon)
            (λ _. Moving-done (stmt_at (return_stmt ret_expr) loc))))

    jump-Moving : (kind : StmtKind F) (loc : SourceLocation) → Moving k 0 (jump p kind loc)
    jump-Moving kind loc =
        bind0 (consume-Moving semicolon expected_semicolon) (λ _. Moving-done (stmt_at kind loc))

    optional_block-Within :
        (loc : SourceLocation) (s : Parser F)
        → check hash s ≡ true
        → remaining s < suc k
        → Within 1 (remaining s) (optional_block p loc s)
    unfolding ordinal
    optional_block-Within loc s c hs = consume1 hash expected_hash _ s refl c hs (λ _.
        bind0 (block-Moving p h)
          (λ block. Moving-done (stmt_at (expr_stmt (optional_semantic_block block)) loc)))

    linked-Within :
        (s : Parser F)
        → check logical_not s ≡ true
        → remaining s < suc k
        → Within 1 (remaining s) (parse_var_decl p true s)
    unfolding parse_var_decl ordinal check
    linked-Within s c hs =
        match_then bit_xor 1 (remaining s) _ s refl (omega arith)
          (λ t ht. Within-from 1 0 1 (remaining t) (remaining s) _ (omega arith) (omega arith) (
            (bind0 (linkage-Moving p h true (here s))
                (var_decl_rest-Moving p h true (here s) true)).moves
              t (omega arith)))
          (λ no.
            Within-bind 1 1 (remaining s) (var_linkage p true (here s) s)
              (var_decl_rest p true (here s) false) (bang-Within s c)
              (λ linkage t ht.
                Within-from 1 0 1 (remaining t) (remaining s) _ (omega arith) (omega arith)
                  ((var_decl_rest-Moving p h true (here s) false linkage).moves t (omega arith))))
      where
        bang-Within :
            (s : Parser F)
            → check logical_not s ≡ true
            → Within 1 (remaining s) (var_linkage p true (here s) s)
        bang-Within s c =
            match_then logical_not 1 (remaining s) _ s refl (omega arith)
              (λ t ht. Within-from 1 0 1 (remaining t) (remaining s) _ (omega arith) (omega arith) (
                (double_bang-Moving p h {j = suc (remaining t)} true (here s)).moves t
                  (omega arith)))
              (λ no. cc (c, no))

    stmt_case-Within :
        (s : Parser F) (brace linked : Bool)
        → remaining s < suc k
        → Within 1 (remaining s) (stmt_case p (here s) (current s).type brace linked s)
    unfolding stmt_case ordinal check
    stmt_case-Within s brace linked hs =
        split (is_type type arrow) _ _ s
          (λ c. step1 _ s (check-Live arrow s refl c) hs (λ _. return-Moving loc))
          (λ n0.
            split (is_type type break_arrow) _ _ s
              (λ c.
                step1 _ s (check-Live break_arrow s refl c) hs (λ _. jump-Moving break_stmt loc))
              (λ n1.
                split (is_type type continue_arrow) _ _ s
                  (λ c.
                    step1 _ s (check-Live continue_arrow s refl c) hs
                      (λ _. jump-Moving continue_stmt loc))
                  (λ n2.
                    split (is_type type hash && brace) _ _ s
                      (λ c. optional_block-Within loc s (&&-left (is_type type hash) brace c) hs)
                      (λ n3.
                        split (is_type type hash) _ _ s
                          (λ c. Passing-Within _ _ (type_decl-Passing p h s c hs))
                          (λ n4.
                            split (is_type type double_colon) _ _ s
                              (λ c. Passing-Within _ _ (import-Passing s c))
                              (λ n5.
                                split (is_type type ampersand) _ _ s
                                  (λ c. Passing-Within _ _ (func_decl-Passing p h s (rw c refl) hs))
                                  (λ n6.
                                    split (is_type type logical_not && linked) _ _ s
                                      (λ c.
                                        linked-Within s
                                          (&&-left (is_type type logical_not) linked c) hs)
                                      (λ n7. other-Within loc s hs))))))))
      where
        loc : SourceLocation
        loc = here s

        type : TokenType
        type = (current s).type

        split :
            (b : Bool) (x y : Parsing F (Stmt F)) (s : Parser F)
            → (b ≡ true → Within 1 (remaining s) (x s))
            → (b ≡ false → Within 1 (remaining s) (y s))
            → Within 1 (remaining s) ((if b then x else y) s)
        split b x y s = split_if 1 (remaining s) b x y s

    stmt_no_semi-Moving : Moving (suc k) 1 (parse_stmt_no_semi p)
    unfolding parse_stmt_no_semi
    stmt_no_semi-Moving = record {
      moves = λ s hs.
          stmt_case-Within s (is_type (peek 1 s).type left_brace)
            (looks_like_var_decl_with_linkage false (kinds s)) hs;
    }

    pub stmt-Moving : Moving (suc k) 1 (parse_stmt p)
    unfolding parse_stmt
    stmt-Moving = bind0 (parse_annotations_disambiguated-Moving at_statement) (λ annotations.
        bind1 stmt_no_semi-Moving
          (λ st. bind0 skip_semis-Moving (λ _. Moving-done (annotate_stmt annotations st))))
