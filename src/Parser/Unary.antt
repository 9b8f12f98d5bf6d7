-- ===== src/Parser/Unary.antt =====
-- frontend/src/parse/parser.cpp: postfix and unary expressions.
use vexel_lang.Parser.{
  Parser, Parsing, asks, attempt, check, check_member_dot, check_probe_dot, consume, done, here,
  match, no_fuel, or_rewind, rounds, separated, step, take, throw_at, ◌>>=◌, ◌>>◌,
}
use vexel_lang.Parser.Grammar.{Parsers, arguments, exprs_of, name_token}
use vexel_lang.Parser.TypeSyntax.{parse_type}
use vexel_lang.Parser.Operators.{check_any}
use vexel_lang.Parser.Primary.{parse_primary}
use vexel_lang.Lexer.Token.{
  at_sign, bit_not, bit_or, comma, hash, identifier, left_bracket, left_paren, logical_not, minus,
  question, right_bracket, right_paren,
}
use vexel_lang.Base.{
  Bool, List, Option, [], false, if◌then◌else◌, none, some, suc, true, zero, ℕ, ◌&&◌, ◌||◌, ◌∷◌,
}
use vexel_lang.Error.{
  SourceLocation, Text, expected_bar, expected_identifier, expected_member_name,
  expected_method_name, expected_question, expected_right_bracket, expected_right_paren, no_text,
  probe_requires_call,
}
use vexel_lang.Ast.{AstType, Expr, Exprs, an_expr, expr, int_kind, no_exprs}
use vexel_lang.Ast.Make.{
  expr_location, make_call, make_cast, make_identifier, make_index, make_int_exact, make_length,
  make_member, make_repeat, make_tuple, make_unary, parenthesized, probe, with_receivers,
}
use vexel_lang.Evaluator.Operators.{text_eq}
use vexel_lang.ApInt.{ApInt, negate}
use vexel_lang.Literal.{to_string}

module _ {F : Type 0} (p : Parsers F) where
  abbrev one_expr : Expr F → Exprs F
  one_expr e = an_expr e no_exprs

  -- `check(LeftParen) { pos++; args; consume(RightParen) }`.
  unfoldable pub call_arguments : Parsing F (Exprs F)
  call_arguments = do
    args ← arguments p right_paren
    consume right_paren expected_right_paren
    done args

  abbrev pub method_expr : Bool → Expr F → Text → Exprs F → Expr F
  method_expr is_probe e member args =
      let call = make_call (make_identifier member (expr_location e)) args (expr_location e) in
      probe is_probe (with_receivers (one_expr e) call)

  abbrev pub method_call : Bool → Expr F → Text → Parsing F (Expr F)
  method_call is_probe e member = do
    args ← call_arguments
    done (method_expr is_probe e member args)

  -- Behind `.` or `.?`.
  unfoldable pub member_suffix : Bool → Expr F → Parsing F (Expr F)
  member_suffix is_probe e = do
    member ← name_token expected_member_name
    called ← match left_paren
    if called
        then method_call is_probe e member
        else done (probe is_probe (make_member e member (expr_location e)))

  abbrev pub index_suffix : Expr F → Parsing F (Expr F)
  index_suffix e = do
    index ← p.expr
    consume right_bracket expected_right_bracket
    done (make_index e index (expr_location e))

  abbrev pub call_suffix : Expr F → Parsing F (Expr F)
  call_suffix e = do args ← call_arguments; done (make_call e args (expr_location e))

  abbrev pub found_expr : Parsing F (Expr F) → Parsing F (Option (Expr F))
  found_expr m = do e ← m; done (some e)

  -- The suffix that the current token starts, `none` for the `break`.
  unfoldable pub postfix_suffix : Expr F → Parser F → Option (Parsing F (Expr F))
  postfix_suffix e s =
      if check left_paren s
      then some (step >> call_suffix e)
      else if check left_bracket s
      then some (step >> index_suffix e)
      else if check_probe_dot s
      then some (step >> (consume question expected_question >> member_suffix true e))
      else if check_member_dot s
      then some (step >> member_suffix false e)
      else none

  abbrev pub postfix_round :
      (Expr F → Parsing F (Expr F)) → Expr F → Option (Parsing F (Expr F)) → Parsing F (Expr F)
  postfix_round loop e none = done e
  postfix_round loop e (some suffix) = suffix >>= loop

  unfoldable pub postfix_loop : ℕ → Expr F → Parsing F (Expr F)
  postfix_loop zero e = no_fuel
  postfix_loop (suc fuel) e = do
    suffix ← asks (postfix_suffix e)
    postfix_round (postfix_loop fuel) e suffix

  unfoldable pub parse_postfix_suffix : Expr F → Parsing F (Expr F)
  parse_postfix_suffix e s = postfix_loop (rounds s) e s

  unfoldable pub parse_postfix : Parsing F (Expr F)
  parse_postfix = do e ← parse_primary p; parse_postfix_suffix e

  abbrev minus_raw : ApInt → Text → Text
  minus_raw negated [] = b'-' ∷ to_string negated
  minus_raw negated (c ∷ cs) = b'-' ∷ c ∷ cs

  -- A minus in front of a literal becomes part of it.
  unfoldable pub make_signed : Text → Expr F → SourceLocation → Expr F
  make_signed op (expr marks (int_kind val false u)) loc =
      if text_eq op (b'-' ∷ [])
      then make_int_exact (negate val) false loc (minus_raw (negate val) marks.raw_literal)
      else make_unary op (expr marks (int_kind val false u)) loc
  make_signed op operand loc = make_unary op operand loc

  abbrev pub signed_expr : SourceLocation → Parsing F (Expr F)
  signed_expr loc = do op ← take; operand ← p.unary; done (make_signed op.lexeme operand loc)

  abbrev pub length_expr : SourceLocation → Parsing F (Expr F)
  length_expr loc = do
    operand ← p.unary
    consume bit_or expected_bar
    done (make_length operand loc)

  abbrev identifiers_at : SourceLocation → List Text → List (Expr F)
  identifiers_at loc [] = []
  identifiers_at loc (name ∷ names) = make_identifier name loc ∷ identifiers_at loc names

  abbrev pub receivers_call : SourceLocation → List Text → Bool → Text → Exprs F → Expr F
  receivers_call loc receivers is_probe method args =
      let call = make_call (make_identifier method loc) args loc in
      probe is_probe (with_receivers (exprs_of (identifiers_at loc receivers)) call)

  -- `.method(args)` or `.?method(args)` behind the receivers; `none` where it is no call.
  unfoldable pub receiver_method : SourceLocation → List Text → Parsing F (Option (Expr F))
  receiver_method loc receivers = do
    is_probe ← asks check_probe_dot
    step
    (if is_probe then (do consume question expected_question; done tt) else done tt)
    method ← name_token expected_method_name
    called ← match left_paren
    loc_here ← asks here
    if called
        then found_expr (do
          args ← call_arguments
          parse_postfix_suffix (receivers_call loc receivers is_probe method args))
        else if is_probe
        then throw_at probe_requires_call loc_here
        else done none

  abbrev pub behind_receivers : SourceLocation → List Text → Parsing F (Option (Expr F))
  behind_receivers loc receivers = do
    closed ← match right_paren
    dotted ← asks (λ s. check_member_dot s || check_probe_dot s)
    if closed && dotted then receiver_method loc receivers else done none

  -- `(r1, r2).method(...)`; `none` where it is something else.
  unfoldable pub multi_receiver : SourceLocation → Parsing F (Option (Expr F))
  multi_receiver loc = do
    named ← asks (check identifier)
    if named
        then (do
          first ← name_token no_text
          is_multi_receiver ← match comma
          if is_multi_receiver
              then (do
                others ← separated comma (name_token expected_identifier)
                behind_receivers loc (first ∷ others))
              else done none)
        else done none

  -- `(#T) operand`; `none` where it is something else.
  abbrev pub cast_of : SourceLocation → Option (AstType F) → Parsing F (Option (Expr F))
  cast_of loc none = done none
  cast_of loc (some type) = do
    closed ← match right_paren
    if closed
        then found_expr (do operand ← p.unary; done (make_cast type operand loc))
        else done none

  unfoldable pub parse_cast : SourceLocation → Parsing F (Option (Expr F))
  parse_cast loc = do
    hashed ← asks (check hash)
    if hashed then (do type ← attempt (parse_type p); cast_of loc type) else done none

  unfoldable pub parse_parenthesized : SourceLocation → Parsing F (Expr F)
  parse_parenthesized loc = do
    e ← p.expr
    is_tuple ← match comma
    if is_tuple
        then (do
          elements ← separated comma p.expr
          consume right_paren expected_right_paren
          done (make_tuple (exprs_of (e ∷ elements)) loc))
        else (do
          consume right_paren expected_right_paren
          repeated ← match at_sign
          if repeated
              then (do body ← p.expr; parse_postfix_suffix (make_repeat e body loc))
              else parse_postfix_suffix (parenthesized e))

  unfoldable pub behind_paren : SourceLocation → Parsing F (Expr F)
  behind_paren loc =
      or_rewind (multi_receiver loc) (or_rewind (parse_cast loc) (parse_parenthesized loc))

  unfoldable pub parse_unary : Parsing F (Expr F)
  parse_unary = do
    loc ← asks here
    signed ← asks (check_any (minus ∷ logical_not ∷ bit_not ∷ []))
    if signed then signed_expr loc else (do
      lengthed ← match bit_or
      if lengthed
          then length_expr loc
          else (do opened ← match left_paren; if opened then behind_paren loc else parse_postfix))
