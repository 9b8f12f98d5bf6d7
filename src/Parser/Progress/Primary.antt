-- ===== src/Parser/Progress/Primary.antt =====
-- The tokens that blocks, arrays and primary expressions take.
use vexel_lang.Parser.Progress.{
  Moving, Moving-asks, Moving-done, Moving-lift, Within, Within-bind, Within-from, bind0, bind1,
  remaining,
}
use vexel_lang.Parser.Progress.Tokens.{
  &&-left, attempt-Moving, check-Live, consume-Moving, consume1, match_then, split_elim, split_if,
  step1, take1, weaken-Within,
}
use vexel_lang.Parser.Progress.Loops.{
  Moving-at, Moving-rounds, Moving-zero, separated-Moving, separated-Within, skip_semis-Moving,
}
use vexel_lang.Parser.Progress.Annotations.{parse_annotations_disambiguated-Moving}
use vexel_lang.Parser.Progress.Types.{
  Progressing, arguments-Moving, name_token-Moving, parse_resource_path-Moving, parse_type-Moving,
}
use vexel_lang.Parser.{
  Parser, Parsing, Position, asks, attempt, check, consume, current, done, here, no_fuel, position,
  rewind, rounds, separated, skip_semis, ◌>>=◌, ◌>>◌,
}
use vexel_lang.Parser.Kinds.{at_expression, is_type, ordinal}
use vexel_lang.Parser.Lookahead.{kinds}
use vexel_lang.Parser.Grammar.{Parsers, joined, name_token, stmts_of}
use vexel_lang.Parser.TypeSyntax.{parse_type}
use vexel_lang.Parser.Primary.{
  Block, annotated, block_case, block_end, block_loop, block_round, constructor_expr,
  float_literal_of, identifier_expr, is_hex_lexeme, is_result, last_or, looks_like_constructor,
  next_stmt, or_null, parse_array, parse_block, parse_primary, path_separator, primary_case,
  string_of, uint64_of,
}
use vexel_lang.Lexer.Token.{
  TokenType, char_literal, colon, dollar, double_colon, float_literal, hash, identifier,
  int_literal, left_brace, left_bracket, left_paren, right_brace, right_bracket, right_paren,
  string_literal,
}
use vexel_lang.Base.{
  Bool, Option, [], arith, drop, false, if◌then◌else◌, length, none, refl, some, suc, true, zero, ℕ,
  ◌&&◌, ◌<◌, ◌∷◌, ◌≡◌, ◌≤◌,
}
use vexel_lang.Error.{
  Message, SourceLocation, expected_constructor_name, expected_constructor_paren, expected_hash,
  expected_identifier, expected_identifier_after_dollar, expected_left_brace, expected_left_bracket,
  expected_right_brace, expected_right_bracket, expected_right_paren,
}
use vexel_lang.Ast.{Expr, Stmt, no_expr}
use vexel_lang.Ast.Make.{
  annotate, expr_param_ref, make_array, make_block, make_char, make_constructor_call,
  make_identifier, make_int_exact, make_resource, make_string, with_type,
}
use vexel_lang.Literal.{parse_integer_literal}

module _ {F : Type 0} {k : ℕ} (p : Parsers F) (h : Progressing k p) where
  is_result-Moving : {j : ℕ} (e : Option (Expr F)) → Moving j 0 (is_result p e)
  is_result-Moving none = Moving-done false
  is_result-Moving (some e) = bind0 skip_semis-Moving (λ _. Moving-asks (check right_brace))

  -- The statement of a round: what was read ahead is put back in front of it.
  statement_round :
      {A : Type 0} (saved : Position F) (f : Stmt F → Parsing F A) (s : Parser F) (fuel : ℕ)
      → length saved.rest < suc fuel
      → suc fuel ≤ k
      → ((st : Stmt F) → Moving fuel 0 (f st))
      → Within 0 (length saved.rest) ((rewind saved >> (p.stmt >>= f)) s)
  statement_round saved f s fuel hs hk hf =
      weaken-Within (length saved.rest) _
        ((bind1 (Moving-at p.stmt hk h.stmt) hf).moves (record s { pos = saved }) hs)

  block_round-Within :
      (fuel : ℕ) (saved : Position F) (e : Option (Expr F)) (more : Parsing F (Block p))
      (s : Parser F)
      → length saved.rest < suc fuel
      → suc fuel ≤ k
      → remaining s ≤ length saved.rest
      → Moving fuel 0 more
      → Within 0 (length saved.rest) (block_round p saved e more s)
  block_round-Within fuel saved e more s hs hk hn hm =
      Within-bind 0 0 (length saved.rest) (is_result p e s) (block_case p saved e more)
        (Within-from 0 0 0 (remaining s) (length saved.rest) (is_result p e s) (omega arith)
          (omega arith) ((is_result-Moving {j = suc (remaining s)} e).moves s (omega arith)))
        (λ final t ht.
          split_elim 0 (length saved.rest) final (done ([], or_null p e))
            (rewind saved >> (p.stmt >>= next_stmt p more)) t (λ y. omega arith)
            (λ n. statement_round saved (next_stmt p more) t fuel hs hk (λ st.
              bind0 skip_semis-Moving
                (λ _. bind0 hm (λ block. Moving-done (st ∷ block.0, block.1))))))

  block_loop-Moving : (fuel : ℕ) → fuel ≤ k → Moving fuel 0 (block_loop p fuel)
  unfolding block_loop
  block_loop-Moving zero hk = Moving-zero no_fuel
  block_loop-Moving (suc fuel) hk = record {
    moves = λ s hs.
        split_elim 0 (remaining s) (block_end p s) (done ([], no_expr))
          (do saved ← asks position; e ← attempt p.expr; block_round p saved e (block_loop p fuel))
          s (λ y. omega arith)
          (λ n.
            Within-bind 0 0 (remaining s) (attempt p.expr s)
              (λ e. block_round p s.pos e (block_loop p fuel))
              ((attempt-Moving p.expr h.expr).moves s (omega arith))
              (λ e t ht.
                block_round-Within fuel s.pos e (block_loop p fuel) t hs hk (omega arith)
                  (block_loop-Moving fuel (omega arith))));
  }

  block_rest-Moving :
      (loc : SourceLocation)
      → Moving k 0 (do
        skip_semis
        block ← (λ s. block_loop p (rounds s) s)
        consume right_brace expected_right_brace
        done (make_block (stmts_of block.0) block.1 loc))
  block_rest-Moving loc = bind0 skip_semis-Moving (λ _.
      bind0 (Moving-rounds (block_loop p) block_loop-Moving) (λ block.
        bind0 (consume-Moving right_brace expected_right_brace)
          (λ _. Moving-done (make_block (stmts_of block.0) block.1 loc))))

  pub block-Moving : Moving k 0 (parse_block p)
  unfolding parse_block
  block-Moving =
      bind0 (Moving-asks here)
        (λ loc. bind0 (consume-Moving left_brace expected_left_brace) (λ _. block_rest-Moving loc))

  block-Within :
      (s : Parser F)
      → check left_brace s ≡ true
      → remaining s < suc k
      → Within 1 (remaining s) (parse_block p s)
  unfolding parse_block ordinal
  block-Within s hc hs =
      consume1 left_brace expected_left_brace _ s refl hc hs (λ _. block_rest-Moving (here s))

  array-Within :
      (s : Parser F)
      → check left_bracket s ≡ true
      → remaining s < suc k
      → Within 1 (remaining s) (parse_array p s)
  unfolding parse_array ordinal
  array-Within s hc hs = consume1 left_bracket expected_left_bracket _ s refl hc hs (λ _.
      bind0 (arguments-Moving p h right_bracket) (λ elems.
        bind0 (consume-Moving right_bracket expected_right_bracket)
          (λ _. Moving-done (make_array elems (here s)))))

  name_token-Within :
      (message : Message) (s : Parser F)
      → check identifier s ≡ true
      → Within 1 (remaining s) (name_token message s)
  unfolding ordinal
  name_token-Within message s hc =
      consume1 {k = remaining s} identifier message (λ name. done name.lexeme) s refl hc
        (omega arith) (λ name. Moving-done name.lexeme)

  annotated-Moving : (id : Expr F) → Moving k 0 (annotated p id)
  unfolding annotated ordinal
  annotated-Moving id = record {
    moves = λ s hs.
        match_then colon 0 (remaining s) _ s refl (omega arith)
          (λ t ht.
            split_if 0 (remaining s) (check hash t)
              (parse_type p >>= λ type. done (with_type type id)) (rewind s.pos >> done id) t
              (λ y. Within-from 0 0 0 (remaining t) (remaining s) _ (omega arith) (omega arith) (
                (bind0 (parse_type-Moving p h) (λ type. Moving-done (with_type type id))).moves t
                  (omega arith)))
              (λ n. omega arith))
          (λ no. omega arith);
  }

  identifier-Within :
      (loc : SourceLocation) (s : Parser F)
      → check identifier s ≡ true
      → remaining s < suc k
      → Within 1 (remaining s) (identifier_expr p loc s)
  unfolding identifier_expr ordinal
  identifier-Within loc s hc hs =
      Within-bind 1 1 (remaining s) (separated double_colon (name_token expected_identifier) s)
        (λ path. annotated p (make_identifier (last_or [] path) loc))
        (separated-Within double_colon (name_token expected_identifier) s refl hs
          (name_token-Within expected_identifier s hc) (name_token-Moving expected_identifier))
        (λ path t ht.
          Within-from 1 0 1 (remaining t) (remaining s) _ (omega arith) (omega arith)
            ((annotated-Moving (make_identifier (last_or [] path) loc)).moves t (omega arith)))

  constructor-Within :
      (loc : SourceLocation) (s : Parser F)
      → check hash s ≡ true
      → remaining s < suc k
      → Within 1 (remaining s) (constructor_expr p loc s)
  unfolding constructor_expr ordinal
  constructor-Within loc s hc hs = consume1 hash expected_hash _ s refl hc hs (λ _.
      bind0
        (separated-Moving double_colon (name_token expected_constructor_name) refl
          (name_token-Moving expected_constructor_name))
        (λ path. bind0 (consume-Moving left_paren expected_constructor_paren) (λ _.
          bind0 (arguments-Moving p h right_paren) (λ args.
            bind0 (consume-Moving right_paren expected_right_paren) (λ _. Moving-done (
              make_constructor_call (make_identifier (joined (path_separator p) path) loc) args
                loc))))))

  primary_case-Within :
      (s : Parser F) (constructs : Bool)
      → remaining s < suc k
      → Within 1 (remaining s) (primary_case p (here s) (current s).type constructs s)
  unfolding primary_case ordinal check
  primary_case-Within s constructs hs =
      split (is_type type double_colon) _ _ s
        (λ c.
          step1 _ s (check-Live double_colon s refl c) hs
            (λ _. bind0 parse_resource_path-Moving (λ path. Moving-done (make_resource path loc))))
        (λ n0.
          split (is_type type int_literal) _ _ s
            (λ c. take1 _ s (check-Live int_literal s refl c) hs (λ t.
              bind0 (Moving-lift (parse_integer_literal t.lexeme loc)) (λ value.
                Moving-done (make_int_exact value (is_hex_lexeme t.lexeme) loc t.lexeme))))
            (λ n1.
              split (is_type type float_literal) _ _ s
                (λ c.
                  take1 _ s (check-Live float_literal s refl c) hs
                    (λ t. Moving-done (float_literal_of t t.value loc)))
                (λ n2.
                  split (is_type type string_literal) _ _ s
                    (λ c.
                      take1 _ s (check-Live string_literal s refl c) hs
                        (λ t. Moving-done (make_string (string_of t) loc)))
                    (λ n3.
                      split (is_type type char_literal) _ _ s
                        (λ c.
                          take1 _ s (check-Live char_literal s refl c) hs
                            (λ t. Moving-done (make_char (uint64_of t.value) loc t.lexeme)))
                        (λ n4.
                          split (is_type type left_brace) _ _ s (λ c. block-Within s c hs)
                            (λ n5.
                              split (is_type type left_bracket) _ _ s (λ c. array-Within s c hs)
                                (λ n6.
                                  split (is_type type hash && constructs) _ _ s
                                    (λ c.
                                      constructor-Within loc s
                                        (&&-left (is_type type hash) constructs c) hs)
                                    (λ n7.
                                      split (is_type type dollar) _ _ s
                                        (λ c. step1 _ s (check-Live dollar s refl c) hs (λ _.
                                          bind0 (name_token-Moving expected_identifier_after_dollar)
                                            (λ name.
                                              Moving-done
                                                (expr_param_ref (make_identifier name loc)))))
                                        (λ n8.
                                          split (is_type type identifier) _ _ s
                                            (λ c. identifier-Within loc s c hs)
                                            (λ n9. omega arith))))))))))
    where
      loc : SourceLocation
      loc = here s

      type : TokenType
      type = (current s).type

      split :
          (b : Bool) (x y : Parsing F (Expr F)) (s : Parser F)
          → (b ≡ true → Within 1 (remaining s) (x s))
          → (b ≡ false → Within 1 (remaining s) (y s))
          → Within 1 (remaining s) ((if b then x else y) s)
      split b x y s = split_if 1 (remaining s) b x y s

  pub primary-Moving : Moving (suc k) 1 (parse_primary p)
  unfolding parse_primary
  primary-Moving = bind0 (parse_annotations_disambiguated-Moving at_expression) (λ annotations.
      record {
        moves = λ s hs.
            Within-bind 1 1 (remaining s)
              (primary_case p (here s) (current s).type (looks_like_constructor (drop 1 (kinds s)))
                s)
              (λ e. done (annotate annotations e))
              (primary_case-Within s (looks_like_constructor (drop 1 (kinds s))) hs) (λ e t ht. ht);
      })
