-- ===== src/Parser/Progress/Unary.antt =====
-- The tokens that postfix and unary expressions take.
use vexel_lang.Parser.Progress.{
  Moving, Moving-asks, Moving-done, Moving-if, Moving-throw, Moving-weaken, Within, Within-bind,
  Within-from, bind0, bind1, remaining,
}
use vexel_lang.Parser.Progress.Tokens.{
  &&-left, Live, attempt-Moving, check-Live, check_any-Live, consume-Moving, match-Moving, match1,
  split_if, step-Moving, step1, take1,
}
use vexel_lang.Parser.Progress.Loops.{
  Moving-at, Moving-rounds, Moving-zero, or_rewind-Moving, separated-Moving,
}
use vexel_lang.Parser.Progress.Types.{
  Progressing, arguments-Moving, name_token-Moving, parse_type-Moving,
}
use vexel_lang.Parser.Progress.Primary.{primary-Moving}
use vexel_lang.Parser.{
  Parser, Parsing, check, check_dotted_operator, check_member_dot, check_probe_dot, consume, done,
  here, match, no_fuel, peek, step, ◌>>=◌, ◌>>◌,
}
use vexel_lang.Parser.Kinds.{is_type, ordinal}
use vexel_lang.Parser.Grammar.{Parsers, exprs_of, name_token}
use vexel_lang.Parser.TypeSyntax.{parse_type}
use vexel_lang.Parser.Operators.{check_any}
use vexel_lang.Parser.Unary.{
  behind_paren, behind_receivers, call_arguments, call_suffix, cast_of, found_expr, index_suffix,
  length_expr, make_signed, member_suffix, method_call, method_expr, multi_receiver, parse_cast,
  parse_parenthesized, parse_postfix, parse_postfix_suffix, parse_unary, postfix_loop,
  postfix_round, postfix_suffix, receiver_method, receivers_call, signed_expr,
}
use vexel_lang.Lexer.Token.{
  TokenType, at_sign, bit_not, bit_or, comma, dot, hash, identifier, left_bracket, left_paren,
  logical_not, minus, question, right_bracket, right_paren,
}
use vexel_lang.Base.{
  Bool, List, Option, [], arith, false, if◌then◌else◌, length, ltb, none, refl, some, suc, true,
  zero, ℕ, ◌&&◌, ◌+◌, ◌<◌, ◌||◌, ◌∷◌, ◌≡◌, ◌≤◌,
}
use vexel_lang.Error.{
  SourceLocation, Text, expected_bar, expected_identifier, expected_member_name,
  expected_method_name, expected_question, expected_right_bracket, expected_right_paren, no_text,
  probe_requires_call,
}
use vexel_lang.Ast.{AstType, Expr}
use vexel_lang.Ast.Make.{
  expr_location, make_call, make_cast, make_index, make_length, make_member, make_repeat,
  make_tuple, parenthesized, probe,
}

module _ {F : Type 0} {k : ℕ} (p : Parsers F) (h : Progressing k p) where
  call_arguments-Moving : Moving k 0 (call_arguments p)
  unfolding call_arguments
  call_arguments-Moving =
      bind0 (arguments-Moving p h right_paren)
        (λ args. bind0 (consume-Moving right_paren expected_right_paren) (λ _. Moving-done args))

  method_call-Moving :
      (is_probe : Bool) (e : Expr F) (member : Text) → Moving k 0 (method_call p is_probe e member)
  method_call-Moving is_probe e member =
      bind0 call_arguments-Moving (λ args. Moving-done (method_expr p is_probe e member args))

  member_suffix-Moving : (is_probe : Bool) (e : Expr F) → Moving k 0 (member_suffix p is_probe e)
  unfolding member_suffix
  member_suffix-Moving is_probe e = bind0 (name_token-Moving expected_member_name) (λ member.
      bind0 (match-Moving left_paren) (λ called.
        Moving-if called (method_call-Moving is_probe e member)
          (Moving-done (probe is_probe (make_member e member (expr_location e))))))

  some-Moving : {j : ℕ} (m : Parsing F (Expr F)) → Moving j 0 m → Moving j 0 (found_expr p m)
  some-Moving m hm = bind0 hm (λ e. Moving-done (some e))

  index_suffix-Moving : (e : Expr F) → Moving k 0 (index_suffix p e)
  index_suffix-Moving e = bind0 (Moving-weaken p.expr h.expr) (λ index.
      bind0 (consume-Moving right_bracket expected_right_bracket)
        (λ _. Moving-done (make_index e index (expr_location e))))

  call_suffix-Moving : (e : Expr F) → Moving k 0 (call_suffix p e)
  call_suffix-Moving e =
      bind0 call_arguments-Moving (λ args. Moving-done (make_call e args (expr_location e)))

  probe_dot : (s : Parser F) → check_probe_dot s ≡ true → check dot s ≡ true
  unfolding check_probe_dot
  probe_dot s c = &&-left (check dot s) (is_type (peek 1 s).type question) (
      &&-left (check dot s && is_type (peek 1 s).type question) (is_type (peek 2 s).type identifier)
        (&&-left
          (check dot s && is_type (peek 1 s).type question && is_type (peek 2 s).type identifier)
          (ltb 2 (length s.pos.rest + 1)) c))

  member_dot : (s : Parser F) → check_member_dot s ≡ true → check dot s ≡ true
  unfolding check_member_dot check_dotted_operator
  member_dot s c = &&-left (check dot s) (is_type (peek 1 s).type identifier) (
      &&-left (check dot s && is_type (peek 1 s).type identifier) (ltb 1 (length s.pos.rest + 1)) c)

  -- A round takes the token that starts the suffix.
  module _ (fuel : ℕ) (hk : suc fuel ≤ k) (loop : Expr F → Parsing F (Expr F))
      (hl : (e : Expr F) → Moving fuel 0 (loop e)) (e : Expr F) (s : Parser F)
      (hs : remaining s < suc fuel) where
    suffix-Within :
        (suffix : Parsing F (Expr F))
        → Live s
        → Moving k 0 suffix
        → Within 0 (remaining s) (postfix_round p loop e (some (step >> suffix)) s)
    suffix-Within suffix live hm =
        Within-bind 1 0 (remaining s) ((step >> suffix) s) loop
          (step1 (λ _. suffix) s live hs (λ _. Moving-at suffix (omega arith) hm))
          (λ e2 t ht.
            Within-from 0 0 0 (remaining t) (remaining s) (loop e2 t) (omega arith) (omega arith)
              ((hl e2).moves t (omega arith)))

    chosen :
        (b : Bool) (x y : Option (Parsing F (Expr F)))
        → (b ≡ true → Within 0 (remaining s) (postfix_round p loop e x s))
        → (b ≡ false → Within 0 (remaining s) (postfix_round p loop e y s))
        → Within 0 (remaining s) (postfix_round p loop e (if b then x else y) s)
    chosen true x y hx hy = hx refl
    chosen false x y hx hy = hy refl

    round-Within : Within 0 (remaining s) (postfix_round p loop e (postfix_suffix p e s) s)
    unfolding postfix_suffix ordinal check
    round-Within =
        chosen (check left_paren s) _ _
          (λ c.
            suffix-Within (call_suffix p e) (check-Live left_paren s refl c) (call_suffix-Moving e))
          (λ n0.
            chosen (check left_bracket s) _ _
              (λ c.
                suffix-Within (index_suffix p e) (check-Live left_bracket s refl c)
                  (index_suffix-Moving e))
              (λ n1.
                chosen (check_probe_dot s) _ _
                  (λ c.
                    suffix-Within (consume question expected_question >> member_suffix p true e)
                      (check-Live dot s refl (probe_dot s c))
                      (bind0 (consume-Moving question expected_question)
                        (λ _. member_suffix-Moving true e)))
                  (λ n2.
                    chosen (check_member_dot s) _ _
                      (λ c.
                        suffix-Within (member_suffix p false e)
                          (check-Live dot s refl (member_dot s c)) (member_suffix-Moving false e))
                      (λ n3. omega arith))))

  postfix_loop-Moving : (fuel : ℕ) → fuel ≤ k → (e : Expr F) → Moving fuel 0 (postfix_loop p fuel e)
  unfolding postfix_loop
  postfix_loop-Moving zero hk e = Moving-zero no_fuel
  postfix_loop-Moving (suc fuel) hk e = record {
    moves = λ s hs.
        round-Within fuel hk (postfix_loop p fuel) (postfix_loop-Moving fuel (omega arith)) e s hs;
  }

  suffix-Moving : (e : Expr F) → Moving k 0 (parse_postfix_suffix p e)
  unfolding parse_postfix_suffix
  suffix-Moving e =
      Moving-rounds (λ fuel. postfix_loop p fuel e) (λ fuel hk. postfix_loop-Moving fuel hk e)

  postfix-Moving : Moving (suc k) 1 (parse_postfix p)
  unfolding parse_postfix
  postfix-Moving = bind1 (primary-Moving p h) suffix-Moving

  question-Moving :
      {j : ℕ} (is_probe : Bool)
      → Moving {F = F} j 0
          (if is_probe then (do consume question expected_question; done tt) else done tt)
  question-Moving is_probe =
      Moving-if is_probe (bind0 (consume-Moving question expected_question) (λ _. Moving-done tt))
        (Moving-done tt)

  method-Moving :
      (loc : SourceLocation) (receivers : List Text) → Moving k 0 (receiver_method p loc receivers)
  unfolding receiver_method
  method-Moving loc receivers = bind0 (Moving-asks check_probe_dot) (λ is_probe.
      bind0 step-Moving (λ _. bind0 (question-Moving is_probe) (λ _.
        bind0 (name_token-Moving expected_method_name) (λ method.
          bind0 (match-Moving left_paren) (λ called. bind0 (Moving-asks here) (λ loc_here.
            Moving-if called
              (some-Moving _ (
                bind0 call_arguments-Moving
                  (λ args. suffix-Moving (receivers_call p loc receivers is_probe method args))))
              (Moving-if is_probe (Moving-throw probe_requires_call loc_here)
                (Moving-done none))))))))

  behind-Moving :
      (loc : SourceLocation) (receivers : List Text) → Moving k 0 (behind_receivers p loc receivers)
  behind-Moving loc receivers = bind0 (match-Moving right_paren) (λ closed.
      bind0 (Moving-asks (λ s. check_member_dot s || check_probe_dot s))
        (λ dotted. Moving-if (closed && dotted) (method-Moving loc receivers) (Moving-done none)))

  multi_receiver-Moving : (loc : SourceLocation) → Moving k 0 (multi_receiver p loc)
  unfolding multi_receiver ordinal
  multi_receiver-Moving loc = bind0 (Moving-asks (check identifier)) (λ named.
      Moving-if named
        (bind0 (name_token-Moving no_text) (λ first.
          bind0 (match-Moving comma) (λ is_multi_receiver.
            Moving-if is_multi_receiver
              (bind0
                (separated-Moving comma (name_token expected_identifier) refl
                  (name_token-Moving expected_identifier))
                (λ others. behind-Moving loc (first ∷ others)))
              (Moving-done none))))
        (Moving-done none))

  cast_of-Moving :
      (loc : SourceLocation) (type : Option (AstType F)) → Moving k 0 (cast_of p loc type)
  cast_of-Moving loc none = Moving-done none
  cast_of-Moving loc (some type) = bind0 (match-Moving right_paren) (λ closed.
      Moving-if closed
        (some-Moving _ (
          bind0 (Moving-weaken p.unary h.unary)
            (λ operand. Moving-done (make_cast type operand loc))))
        (Moving-done none))

  cast-Moving : (loc : SourceLocation) → Moving k 0 (parse_cast p loc)
  unfolding parse_cast
  cast-Moving loc = bind0 (Moving-asks (check hash)) (λ hashed.
      Moving-if hashed
        (bind0 (attempt-Moving (parse_type p) (parse_type-Moving p h)) (cast_of-Moving loc))
        (Moving-done none))

  parenthesized-Moving : (loc : SourceLocation) → Moving k 0 (parse_parenthesized p loc)
  unfolding parse_parenthesized ordinal
  parenthesized-Moving loc = bind0 (Moving-weaken p.expr h.expr) (λ e.
      bind0 (match-Moving comma) (λ is_tuple.
        Moving-if is_tuple
          (bind0 (separated-Moving comma p.expr refl (Moving-weaken p.expr h.expr)) (λ elements.
            bind0 (consume-Moving right_paren expected_right_paren)
              (λ _. Moving-done (make_tuple (exprs_of (e ∷ elements)) loc))))
          (bind0 (consume-Moving right_paren expected_right_paren) (λ _.
            bind0 (match-Moving at_sign) (λ repeated.
              Moving-if repeated
                (bind0 (Moving-weaken p.expr h.expr)
                  (λ body. suffix-Moving (make_repeat e body loc)))
                (suffix-Moving (parenthesized e)))))))

  behind_paren-Moving : (loc : SourceLocation) → Moving k 0 (behind_paren p loc)
  unfolding behind_paren
  behind_paren-Moving loc = or_rewind-Moving (multi_receiver p loc) _ (multi_receiver-Moving loc) (
      or_rewind-Moving (parse_cast p loc) (parse_parenthesized p loc) (cast-Moving loc)
        (parenthesized-Moving loc))

  length-Moving : (loc : SourceLocation) → Moving k 0 (length_expr p loc)
  length-Moving loc = bind0 (Moving-weaken p.unary h.unary) (λ operand.
      bind0 (consume-Moving bit_or expected_bar) (λ _. Moving-done (make_length operand loc)))

  abbrev signs : List TokenType
  signs = minus ∷ logical_not ∷ bit_not ∷ []

  -- An expression without a sign.
  unsigned-Moving :
      (loc : SourceLocation)
      → Moving (suc k) 1 (do
        lengthed ← match bit_or
        if lengthed then length_expr p loc else (do
          opened ← match left_paren
          if opened then behind_paren p loc else parse_postfix p))
  unfolding ordinal
  unsigned-Moving loc =
      match1 bit_or _ refl (length-Moving loc)
        (match1 left_paren _ refl (behind_paren-Moving loc) postfix-Moving)

  pub unary-Moving : Moving (suc k) 1 (parse_unary p)
  unfolding parse_unary ordinal
  unary-Moving = record {
    moves = λ s hs.
        split_if 1 (remaining s) (check_any signs s) (signed_expr p (here s)) _ s
          (λ c.
            take1 (λ op. p.unary >>= λ operand. done (make_signed p op.lexeme operand (here s))) s
              (check_any-Live signs s (refl, (refl, (refl, tt))) c) hs
              (λ op.
                bind0 (Moving-weaken p.unary h.unary)
                  (λ operand. Moving-done (make_signed p op.lexeme operand (here s)))))
          (λ n. (unsigned-Moving (here s)).moves s hs);
  }
