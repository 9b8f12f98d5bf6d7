-- ===== src/Parser/Progress/Declarations.antt =====
-- The tokens that declarations take, also where their first token was checked.
use vexel_lang.Parser.Progress.{
  Moving, Moving-asks, Moving-done, Moving-if, Moving-throw, bind0, remaining,
}
use vexel_lang.Parser.Progress.Tokens.{
  consume-Moving, consume_split, match-Moving, match_split, take-Moving,
}
use vexel_lang.Parser.Progress.Loops.{separated-Moving}
use vexel_lang.Parser.Progress.Annotations.{parse_annotations-Moving}
use vexel_lang.Parser.Progress.Passing.{Moving-Passing, Passing}
use vexel_lang.Parser.Progress.Types.{
  Progressing, name_token-Moving, optional_type-Moving, parse_qualified_name-Moving,
  parse_type-Moving,
}
use vexel_lang.Parser.Progress.Primary.{block-Moving}
use vexel_lang.Parser.Progress.FunctionHead.{
  check_receivers-Moving, function_name-Moving, namespace-Moving, receivers-Moving,
}
use vexel_lang.Parser.{Parser, asks, check, consume, current, done, here, ◌>>=◌, ◌>>◌}
use vexel_lang.Parser.Kinds.{is_one_of, is_type, ordinal}
use vexel_lang.Parser.Grammar.{Parsers, name_token, parse_qualified_name, types_from}
use vexel_lang.Parser.TypeSyntax.{parse_type}
use vexel_lang.Parser.Primary.{string_of}
use vexel_lang.Parser.FunctionHead.{some_text}
use vexel_lang.Parser.Declarations.{
  apply_all, func_decl_rest, function_body, parse_field, parse_fields, parse_func_decl,
  parse_import, parse_param, parse_params, parse_return_type, parse_type_decl, process_import,
  return_tuple,
}
use vexel_lang.Lexer.Token.{
  ampersand, ampersand_bang, ampersand_caret, arrow, comma, dollar, double_colon, hash, left_brace,
  left_paren, right_paren, semicolon, string_literal,
}
use vexel_lang.Base.{
  Bool, [], arith, false, if◌then◌else◌, length, ltb, not, refl, suc, true, ℕ, ◌<◌, ◌||◌, ◌∷◌, ◌≡◌,
}
use vexel_lang.Base.Int.{pos}
use vexel_lang.Error.{
  SourceLocation, expected_arrow_after_command, expected_double_colon, expected_field_name,
  expected_function_declaration, expected_hash, expected_identifier_after_arrow,
  expected_left_paren, expected_parameter_name, expected_right_paren, expected_semicolon,
  expected_semicolon_after_external, expected_type_name, tuple_return_type_size,
}
use vexel_lang.Ast.{
  a_field, a_param, func_decl, import_stmt, no_expr, no_fields, no_params, no_type, normal,
  primitive_kind, type_decl, var_decl,
}
use vexel_lang.Ast.Make.{make_process, stmt_at}
use vexel_lang.Evaluator.{string_type}

first_of : (a b c : Bool) → (a || (b || (c || false))) ≡ true → b ≡ false → c ≡ false → a ≡ true
first_of true b c h hb hc = refl
first_of false true c h hb hc = cc hb
first_of false false true h hb hc = cc hc
first_of false false false h hb hc = h

module _ {F : Type 0} where
  module _ {k : ℕ} (p : Parsers F) (h : Progressing k p) where
    param-Moving : Moving k 0 (parse_param p)
    unfolding parse_param
    param-Moving = bind0 parse_annotations-Moving (λ annotations. bind0 (Moving-asks here) (λ loc.
        bind0 (match-Moving dollar) (λ is_expr.
          bind0 (name_token-Moving expected_parameter_name) (λ name.
            bind0 (optional_type-Moving p h)
              (λ type. Moving-done (a_param name type is_expr loc annotations))))))

    params-Moving : Moving k 0 (parse_params p)
    unfolding parse_params ordinal
    params-Moving = bind0 (Moving-asks (check right_paren)) (λ closed.
        bind0
          (Moving-if closed (Moving-done [])
            (separated-Moving comma (parse_param p) refl param-Moving))
          (λ params. Moving-done (apply_all params no_params)))

    field-Moving : Moving k 0 (parse_field p)
    unfolding parse_field
    field-Moving = bind0 parse_annotations-Moving (λ annotations. bind0 (Moving-asks here) (λ loc.
        bind0 (name_token-Moving expected_field_name) (λ name.
          bind0 (optional_type-Moving p h)
            (λ type. Moving-done (a_field name type loc annotations)))))

    fields-Moving : Moving k 0 (parse_fields p)
    unfolding parse_fields ordinal
    fields-Moving = bind0 (Moving-asks (check right_paren)) (λ closed.
        bind0
          (Moving-if closed (Moving-done [])
            (separated-Moving comma (parse_field p) refl field-Moving))
          (λ fields. Moving-done (apply_all fields no_fields)))

    return_tuple-Moving : (loc : SourceLocation) → Moving k 0 (return_tuple p loc)
    unfolding ordinal
    return_tuple-Moving loc =
        bind0 (separated-Moving comma (parse_type p) refl (parse_type-Moving p h)) (λ types.
          bind0 (consume-Moving right_paren expected_right_paren) (λ _.
            Moving-if (ltb (length types) 2) (Moving-throw tuple_return_type_size loc)
              (Moving-done (no_type, types))))

    return_type-Moving : (loc : SourceLocation) → Moving k 0 (parse_return_type p loc)
    unfolding parse_return_type
    return_type-Moving loc = bind0 (match-Moving arrow) (λ arrowed.
        bind0 (Moving-asks (λ s. check left_brace s || check semicolon s)) (λ bare.
          Moving-if (not arrowed || bare) (Moving-done (no_type, [])) (
            bind0 (match-Moving left_paren) (λ tuple.
              Moving-if tuple (return_tuple-Moving loc)
                (bind0 (parse_type-Moving p h) (λ type. Moving-done (type, [])))))))

    body-Moving : (is_external : Bool) → Moving k 0 (function_body p is_external)
    body-Moving is_external =
        Moving-if is_external
          (bind0 (consume-Moving semicolon expected_semicolon_after_external)
            (λ _. Moving-done no_expr))
          (block-Moving p h)

    func_rest-Moving :
        (loc : SourceLocation) (is_external is_exported : Bool)
        → Moving k 0 (func_decl_rest p loc is_external is_exported)
    func_rest-Moving loc is_external is_exported = bind0 receivers-Moving (λ refs.
        bind0 namespace-Moving (λ namespace. bind0 (check_receivers-Moving namespace refs) (λ _.
          bind0 function_name-Moving (λ name.
            bind0 (consume-Moving left_paren expected_left_paren) (λ _.
              bind0 params-Moving (λ params.
                bind0 (consume-Moving right_paren expected_right_paren) (λ _.
                  bind0 (return_type-Moving loc) (λ returns.
                    bind0 (body-Moving is_external) (λ body. Moving-done (
                      stmt_at
                        (func_decl name params refs returns.0 body is_external is_exported
                          (some_text namespace) (types_from returns.1))
                        loc))))))))))

    -- Where one of the three tokens of a function was checked.
    pub func_decl-Passing :
        (s : Parser F)
        → is_one_of (current s).type (ampersand ∷ ampersand_bang ∷ ampersand_caret ∷ []) ≡ true
        → remaining s < suc k
        → Passing (remaining s) (parse_func_decl p s)
    unfolding parse_func_decl ordinal check
    func_decl-Passing s c hs =
        match_split (Passing (remaining s)) ampersand_bang _ s refl
          (λ t ht.
            Moving-Passing _ s t
              (bind0 (match-Moving ampersand_caret) (func_rest-Moving (here s) true)) hs ht)
          (λ no_bang.
            match_split (Passing (remaining s)) ampersand_caret _ s refl
              (λ t ht. Moving-Passing _ s t (func_rest-Moving (here s) false true) hs ht)
              (λ no_caret.
                consume_split (Passing (remaining s)) ampersand expected_function_declaration _ s
                  refl (λ t ht. Moving-Passing _ s t (func_rest-Moving (here s) false false) hs ht)
                  (λ no.
                    cc (first_of (is_type (current s).type ampersand) _ _ c no_bang no_caret, no))))

    type_decl_rest-Moving :
        (loc : SourceLocation)
        → Moving k 0 (do
          name ← name_token expected_type_name
          consume left_paren expected_left_paren
          fields ← parse_fields p
          consume right_paren expected_right_paren
          consume semicolon expected_semicolon
          done (stmt_at (type_decl name fields) loc))
    type_decl_rest-Moving loc = bind0 (name_token-Moving expected_type_name) (λ name.
        bind0 (consume-Moving left_paren expected_left_paren) (λ _. bind0 fields-Moving (λ fields.
          bind0 (consume-Moving right_paren expected_right_paren) (λ _.
            bind0 (consume-Moving semicolon expected_semicolon)
              (λ _. Moving-done (stmt_at (type_decl name fields) loc))))))

    pub type_decl-Passing :
        (s : Parser F)
        → check hash s ≡ true
        → remaining s < suc k
        → Passing (remaining s) (parse_type_decl p s)
    unfolding parse_type_decl ordinal
    type_decl-Passing s c hs =
        consume_split (Passing (remaining s)) hash expected_hash _ s refl
          (λ t ht. Moving-Passing _ s t (type_decl_rest-Moving (here s)) hs ht) (λ no. cc (c, no))

  process_import-Moving : {k : ℕ} (loc : SourceLocation) → Moving k 0 (process_import {F = F} loc)
  process_import-Moving loc = bind0 take-Moving (λ command.
      bind0 (consume-Moving arrow expected_arrow_after_command) (λ _.
        bind0 (name_token-Moving expected_identifier_after_arrow) (λ var_name.
          bind0 (consume-Moving semicolon expected_semicolon) (λ _. Moving-done (
            stmt_at
              (var_decl var_name (primitive_kind string_type 0 (pos 0) loc)
                (make_process (string_of command) loc) false false normal)
              loc)))))

  import_rest-Moving :
      {k : ℕ} (loc : SourceLocation)
      → Moving {F = F} k 0 (do
        is_process ← asks (check string_literal)
        if is_process then process_import loc else (do
          path ← parse_qualified_name
          consume semicolon expected_semicolon
          done (stmt_at (import_stmt path) loc)))
  import_rest-Moving loc = bind0 (Moving-asks (check string_literal)) (λ is_process.
      Moving-if is_process (process_import-Moving loc) (
        bind0 parse_qualified_name-Moving (λ path.
          bind0 (consume-Moving semicolon expected_semicolon)
            (λ _. Moving-done (stmt_at (import_stmt path) loc)))))

  pub import-Passing :
      (s : Parser F) → check double_colon s ≡ true → Passing (remaining s) (parse_import s)
  unfolding parse_import ordinal
  import-Passing s c =
      consume_split (Passing (remaining s)) double_colon expected_double_colon _ s refl
        (λ t ht.
          Moving-Passing {k = remaining s} _ s t (import_rest-Moving (here s)) (omega arith) ht)
        (λ no. cc (c, no))
