-- ===== src/Parser/Annotations.antt =====
-- frontend/src/parse/parser.cpp: annotations, `[[name(args), ...]]`. A lookahead goes over tokens with a
-- cursor, here a `Position`; on the EndOfFile token `type_at` is `end_of_file`.
use vexel_lang.Parser.{
  Parsing, Position, asks, check, consume, current, done, is_annotation_start, match, next, no_fuel,
  peek, returned, rewind, rounds, separated, step, throw_at, ◌>>=◌, ◌>>◌,
}
use vexel_lang.Parser.Kinds.{
  AnnotationContext, is_type, token_can_be_annotation_arg, token_starts_annotation_target,
}
use vexel_lang.Lexer.Token.{
  Token, TokenType, comma, end_of_file, identifier, left_bracket, left_paren, right_bracket,
  right_paren,
}
use vexel_lang.Base.{
  Bool, List, Option, [], false, if◌then◌else◌, length, none, some, suc, true, zero, ℕ, ◌&&◌, ◌++◌,
  ◌∷◌,
}
use vexel_lang.Error.{
  Text, expected_annotation_argument, expected_annotation_arguments_close,
  expected_annotation_close, expected_annotation_name, expected_annotation_start,
}
use vexel_lang.Ast.{Annotation}

-- What a lookahead finds, with the cursor behind it, or `none` for `return false`.
abbrev pub Scan : Type 0 → Type 0 → Type 0
Scan F A = Position F → Option (A × Position F)

infixl 5 ◌>>>=◌
abbrev pub ◌>>>=◌ : {F A B : Type 0} → Scan F A → (A → Scan F B) → Scan F B
◌>>>=◌ m f p = elim (m p) [ some (a, q) ↦ f a q | none ↦ none ]

module _ {F : Type 0} where
  abbrev pub type_of : List (Token F) → TokenType
  type_of [] = end_of_file
  type_of (t ∷ ts) = t.type

  unfoldable pub type_at : Position F → TokenType
  type_at p = type_of p.rest

  -- A token of a type that `test` holds of.
  abbrev pub scan_token : (TokenType → Bool) → List (Token F) → Scan F (Token F)
  scan_token test [] p = none
  scan_token test (t ∷ ts) p =
      if test t.type then some (t, record { before = some t; rest = ts }) else none

  unfoldable pub scan : (TokenType → Bool) → Scan F (Token F)
  scan test p = scan_token test p.rest p

  abbrev pub found : {A : Type 0} → A → Scan F A
  found a p = some (a, p)

  unfoldable pub scan_args : ℕ → Scan F (List Text)
  scan_args zero p = none
  scan_args (suc fuel) p =
      (scan token_can_be_annotation_arg >>>= λ arg q. elim (is_type (type_at q) comma) [
        | true ↦ (scan_args fuel >>>= λ args. found (arg.lexeme ∷ args)) (next q)
        | false ↦ found (arg.lexeme ∷ []) q
      ])
        p

  abbrev pub scan_arguments : Scan F (List Text)
  scan_arguments p =
      if is_type (type_at p) left_paren
      then ((λ q.
              if is_type (type_at q) right_paren then found [] q else scan_args (length q.rest) q)
            >>>= λ args. scan (λ t. is_type t right_paren) >>>= λ close. found args)
          (next p)
      else found [] p

  abbrev pub annotation_of : Token F → List Text → Annotation
  annotation_of token args = record { name = token.lexeme; args = args; location = token.location }

  unfoldable pub scan_annotation : Scan F Annotation
  scan_annotation = scan (λ t. is_type t identifier) >>>= λ token.
      scan_arguments >>>= λ args. found (annotation_of token args)

  unfoldable pub scan_names : ℕ → Scan F (List Annotation)
  scan_names zero p = none
  scan_names (suc fuel) p =
      (scan_annotation >>>= λ ann q. elim (is_type (type_at q) comma) [
        | true ↦ (scan_names fuel >>>= λ anns. found (ann ∷ anns)) (next q)
        | false ↦ found (ann ∷ []) q
      ])
        p

  abbrev pub scan_close : Scan F (Token F)
  scan_close = scan (λ t. is_type t right_bracket) >>>= λ close. scan (λ t. is_type t right_bracket)

  unfoldable pub at_block : Position F → Bool
  at_block p = is_type (type_at p) left_bracket && is_type (type_at (next p)) left_bracket

  unfoldable pub scan_blocks : ℕ → Scan F (List Annotation)
  scan_blocks zero p = none
  scan_blocks (suc fuel) p = elim (at_block p) [
    | true ↦
        (scan_names (length p.rest) >>>= λ anns.
        scan_close >>>= λ close. scan_blocks fuel >>>= λ more. found (anns ++ more))
          (next (next p))
    | false ↦ found [] p
  ]

  abbrev pub unless_empty : List Annotation → Scan F (List Annotation)
  unless_empty [] p = none
  unless_empty (a ∷ anns) p = some (a ∷ anns, p)

  -- The annotations and `end`.
  unfoldable pub try_parse_annotation_block : Scan F (List Annotation)
  try_parse_annotation_block p =
      if at_block p then (scan_blocks (suc (length p.rest)) >>>= unless_empty) p else none

  abbrev pub take_annotations :
      AnnotationContext → Option (List Annotation × Position F) → Parsing F (List Annotation)
  take_annotations context none = done []
  take_annotations context (some (parsed, end)) =
      if token_starts_annotation_target (type_at end) context
      then rewind end >> done parsed
      else done []

  unfoldable pub parse_annotations_disambiguated : AnnotationContext → Parsing F (List Annotation)
  parse_annotations_disambiguated context s =
      if check left_bracket s && is_type (peek 1 s).type left_bracket
      then take_annotations context (try_parse_annotation_block s.pos) s
      else returned [] s

  unfoldable pub parse_annotation_arg : Parsing F Text
  parse_annotation_arg = do
    tok ← asks current
    if token_can_be_annotation_arg tok.type
        then step >> done tok.lexeme
        else throw_at expected_annotation_argument tok.location

  abbrev pub annotation_arguments : Parsing F (List Text)
  annotation_arguments = do
    opened ← match left_paren
    if opened
        then (do
          closed ← asks (check right_paren)
          args ← (if closed then done [] else separated comma parse_annotation_arg)
          consume right_paren expected_annotation_arguments_close
          done args)
        else done []

  unfoldable pub parse_annotation : Parsing F Annotation
  parse_annotation = do
    name_tok ← consume identifier expected_annotation_name
    args ← annotation_arguments
    done (annotation_of name_tok args)

  -- `[[...]]`, and `more` behind it.
  unfoldable pub annotation_block : Parsing F (List Annotation) → Parsing F (List Annotation)
  annotation_block more = do
    consume left_bracket expected_annotation_start
    consume left_bracket expected_annotation_start
    anns ← separated comma parse_annotation
    consume right_bracket expected_annotation_close
    consume right_bracket expected_annotation_close
    others ← more
    done (anns ++ others)

  unfoldable pub annotations_loop : ℕ → Parsing F (List Annotation)
  annotations_loop zero = no_fuel
  annotations_loop (suc fuel) = do
    starts ← asks is_annotation_start
    elim starts [ true ↦ annotation_block (annotations_loop fuel) | false ↦ done [] ]

  unfoldable pub parse_annotations : Parsing F (List Annotation)
  parse_annotations s = annotations_loop (rounds s) s
