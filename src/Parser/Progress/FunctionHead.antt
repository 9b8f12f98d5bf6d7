-- ===== src/Parser/Progress/FunctionHead.antt =====
-- The tokens that a function's receivers, namespace and name take.
use vexel_lang.Parser.Progress.{Moving, Moving-asks, Moving-done, Moving-if, Moving-throw, bind0}
use vexel_lang.Parser.Progress.Tokens.{consume-Moving, match-Moving, step-Moving, take-Moving}
use vexel_lang.Parser.Progress.Loops.{or_rewind-Moving, separated-Moving}
use vexel_lang.Parser.Progress.Types.{name_token-Moving}
use vexel_lang.Parser.{Parsing, check, current, done, here, peek, ◌>>=◌}
use vexel_lang.Parser.Kinds.{
  is_one_of, is_operator_function_token, is_per_element_operator_inner_token, is_type, ordinal,
}
use vexel_lang.Parser.Lookahead.{kind_at, kinds}
use vexel_lang.Parser.Grammar.{name_token}
use vexel_lang.Parser.FunctionHead.{
  as_found, check_receivers, looks_like_receivers, namespace_name, parse_function_name,
  parse_namespace, parse_receivers, parse_ref_params, receivers_loop,
}
use vexel_lang.Lexer.Token.{
  TokenType, colon, comma, dollar, dot, double_colon, end_of_file, hash, identifier, left_paren,
  right_paren,
}
use vexel_lang.Base.{
  Bool, List, Option, [], arith, drop, false, if◌then◌else◌, length, none, not, refl, some, suc,
  true, zero, ℕ, ◌&&◌, ◌<◌, ◌==◌, ◌∷◌, ◌≤◌,
}
use vexel_lang.Error.{
  Text, expected_function_name, expected_identifier, expected_left_paren, expected_right_paren,
  method_declaration_syntax, method_receiver_count,
}

module _ {F : Type 0} where
  choose_loop :
      {k : ℕ} (b : Bool) (x y : Parsing F Bool)
      → Moving k 0 x
      → Moving k 0 y
      → Moving k 0 (elim b as (λ _. Parsing F Bool) [ true ↦ x | false ↦ y ])
  choose_loop true x y hx hy = hx
  choose_loop false x y hx hy = hy

  receivers_loop-Moving :
      {k : ℕ} (fuel : ℕ) (ts : List TokenType)
      → length ts < fuel
      → Moving k 0 (receivers_loop {F = F} fuel ts)
  unfolding receivers_loop ordinal
  receivers_loop-Moving zero ts hf = absurd (omega (arith, hf))
  receivers_loop-Moving (suc fuel) [] hf = Moving-done true
  receivers_loop-Moving (suc fuel) (t ∷ ts) hf =
      choose_loop (is_one_of t (right_paren ∷ end_of_file ∷ [])) (done true) _ (Moving-done true) (
        choose_loop (is_type t identifier && not (is_one_of (kind_at 0 ts) (colon ∷ dollar ∷ []))) _
          (done false)
          (choose_loop (is_type (kind_at 0 ts) comma) (receivers_loop fuel (drop 1 ts)) (done true)
            (receivers_loop-Moving fuel (drop 1 ts) (omega (arith, drop-le ts))) (Moving-done true))
          (Moving-done false))
    where
      drop-le : (ts : List TokenType) → length (drop 1 ts) ≤ length ts
      drop-le [] = omega arith
      drop-le (t ∷ ts) = omega arith

  ref_params-Moving : {k : ℕ} → Moving k 0 (parse_ref_params {F = F})
  unfolding parse_ref_params ordinal
  ref_params-Moving = bind0 (consume-Moving left_paren expected_left_paren) (λ _.
      bind0
        (separated-Moving comma (name_token expected_identifier) refl
          (name_token-Moving expected_identifier))
        (λ refs. bind0 (consume-Moving right_paren expected_right_paren) (λ _. Moving-done refs)))

  pub receivers-Moving : {k : ℕ} → Moving k 0 (parse_receivers {F = F})
  unfolding parse_receivers looks_like_receivers
  receivers-Moving = bind0 (Moving-asks (check left_paren)) (λ opened.
      bind0 (Moving-asks (λ s. drop 1 (kinds s))) (λ ts.
        Moving-if opened
          (bind0
            (Moving-if (is_type (kind_at 0 ts) right_paren) (Moving-done false)
              (receivers_loop-Moving (suc (length ts)) ts (omega arith)))
            (λ looks_like_ref. Moving-if looks_like_ref ref_params-Moving (Moving-done [])))
          (Moving-done [])))

  namespace_name-Moving : {k : ℕ} → Moving k 0 (namespace_name {F = F})
  namespace_name-Moving = bind0 (match-Moving hash) (λ hashed.
      bind0 (Moving-asks (check identifier)) (λ named.
        Moving-if (hashed && named)
          (bind0 take-Moving (λ maybe_type.
            bind0 (match-Moving double_colon)
              (λ separator. Moving-done (if separator then some maybe_type.lexeme else none))))
          (Moving-done none)))

  pub namespace-Moving : {k : ℕ} → Moving k 0 (parse_namespace {F = F})
  unfolding parse_namespace
  namespace-Moving =
      or_rewind-Moving (do name ← namespace_name; done (as_found name)) (done none)
        (bind0 namespace_name-Moving (λ name. Moving-done (as_found name))) (Moving-done none)

  pub check_receivers-Moving :
      {k : ℕ} (namespace : Option Text) (refs : List Text)
      → Moving k 0 (check_receivers {F = F} namespace refs)
  check_receivers-Moving none refs =
      bind0 (Moving-asks (λ s. check identifier s && is_type (peek 1 s).type double_colon))
        (λ qualified. bind0 (Moving-asks here) (λ loc.
          Moving-if qualified (Moving-throw method_declaration_syntax loc) (Moving-done tt)))
  check_receivers-Moving (some name) refs = bind0 (Moving-asks here) (λ loc.
      Moving-if (length refs == 1) (Moving-done tt) (Moving-throw method_receiver_count loc))

  pub function_name-Moving : {k : ℕ} → Moving k 0 (parse_function_name {F = F})
  unfolding parse_function_name
  function_name-Moving = bind0 (Moving-asks current) (λ tok. bind0 (Moving-asks (peek 1)) (λ inner.
      Moving-if (is_type tok.type identifier) (name_token-Moving expected_function_name) (
        Moving-if (is_type tok.type dot && is_per_element_operator_inner_token inner.type)
          (bind0 (bind0 step-Moving (λ _. step-Moving)) (λ _. Moving-done (b'.' ∷ inner.lexeme)))
          (Moving-if (is_operator_function_token tok.type)
            (bind0 step-Moving (λ _. Moving-done tok.lexeme))
            (Moving-throw expected_function_name tok.location)))))
