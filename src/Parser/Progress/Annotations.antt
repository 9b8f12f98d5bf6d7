-- ===== src/Parser/Progress/Annotations.antt =====
-- The tokens that annotations take.
use vexel_lang.Parser.Progress.{
  Moving, Moving-asks, Moving-done, Moving-if, Moving-throw, Within, bind0, remaining,
}
use vexel_lang.Parser.Progress.Tokens.{
  &&-left, consume-Moving, consume1, match-Moving, split_elim, step-Moving, weaken-Within,
}
use vexel_lang.Parser.Progress.Loops.{Moving-rounds, Moving-zero, separated-Moving}
use vexel_lang.Parser.{
  Parser, Parsing, Position, check, consume, current, done, is_annotation_start, next, no_fuel,
  peek, returned, rewind, separated, ◌>>=◌, ◌>>◌,
}
use vexel_lang.Parser.Kinds.{
  AnnotationContext, is_type, ordinal, token_can_be_annotation_arg, token_starts_annotation_target,
}
use vexel_lang.Parser.Annotations.{
  Scan, annotation_arguments, annotation_block, annotation_of, annotations_loop, at_block, found,
  parse_annotation, parse_annotation_arg, parse_annotations, parse_annotations_disambiguated, scan,
  scan_annotation, scan_args, scan_arguments, scan_blocks, scan_close, scan_names, scan_token,
  take_annotations, try_parse_annotation_block, type_at, unless_empty, ◌>>>=◌,
}
use vexel_lang.Lexer.Token.{
  Token, TokenType, comma, identifier, left_bracket, left_paren, right_bracket, right_paren,
}
use vexel_lang.Base.{
  Bool, Bool-cases, List, Option, [], ap, arith, false, if◌then◌else◌, inl, inr, length, none, refl,
  some, suc, true, zero, ℕ, ◌&&◌, ◌++◌, ◌∷◌, ◌≡◌, ◌≤◌,
}
use vexel_lang.Error.{
  expected_annotation_argument, expected_annotation_arguments_close, expected_annotation_close,
  expected_annotation_name, expected_annotation_start,
}
use vexel_lang.Ast.{Annotation}

module _ {F : Type 0} where
  rewind-Within :
      (p : Position F) (s : Parser F) (n : ℕ) → length p.rest ≤ n → Within 0 n (rewind p s)
  rewind-Within p s n h = omega arith

  -- A lookahead that finds something ends no further back.
  abbrev pub Scanned : {A : Type 0} → Position F → Option (A × Position F) → Type 0
  Scanned p none = Unit
  Scanned p (some (a, q)) = length q.rest ≤ length p.rest

  Scanned-from :
      {A : Type 0} (p q : Position F) (o : Option (A × Position F))
      → length q.rest ≤ length p.rest
      → Scanned q o
      → Scanned p o
  Scanned-from p q none h w = tt
  Scanned-from p q (some (a, r)) h w = omega arith

  scan-bind :
      {A B : Type 0} (p : Position F) (o : Option (A × Position F)) (f : A → Scan F B)
      → Scanned p o
      → ((a : A) (q : Position F) → Scanned q (f a q))
      → Scanned p (elim o [ some (a, q) ↦ f a q | none ↦ none ])
  scan-bind p none f h hf = tt
  scan-bind p (some (a, q)) f h hf = Scanned-from p q (f a q) h (hf a q)

  next-le : (p : Position F) → length (next p).rest ≤ length p.rest
  unfolding next
  next-le p = behind p p.rest refl
    where
      behind :
          (p : Position F) (r : List (Token F)) → p.rest ≡ r → length (next p).rest ≤ length p.rest
      behind p [] e = rw e (omega arith)
      behind p (t ∷ ts) e = rw e (omega arith)

  from_next :
      {A : Type 0} (p : Position F) (o : Option (A × Position F)) → Scanned (next p) o → Scanned p o
  from_next p o = Scanned-from p (next p) o (next-le p)

  choose :
      {A : Type 0} (p : Position F) (b : Bool) (x y : Option (A × Position F))
      → Scanned p x
      → Scanned p y
      → Scanned p (if b then x else y)
  choose p true x y hx hy = hx
  choose p false x y hx hy = hy

  choose_scan :
      {A : Type 0} (b : Bool) (x y : Scan F A) (p q : Position F)
      → Scanned q (x p)
      → Scanned q (y q)
      → Scanned q (elim b as (λ _. Option (A × Position F)) [ true ↦ x p | false ↦ y q ])
  choose_scan true x y p q hx hy = hx
  choose_scan false x y p q hx hy = hy

  scan-Scanned : (test : TokenType → Bool) (p : Position F) → Scanned p (scan test p)
  unfolding scan
  scan-Scanned test p = scanned p.rest refl
    where
      scanned : (r : List (Token F)) → p.rest ≡ r → Scanned p (scan_token test r p)
      scanned [] e = tt
      scanned (t ∷ ts) e = elim (Bool-cases (test t.type)) [
        | inl y ↦ rw y (omega (arith, ap (λ (x : List (Token F)). length x) e))
        | inr n ↦ rw n tt
      ]

  scan_args-Scanned : (fuel : ℕ) (p : Position F) → Scanned p (scan_args fuel p)
  unfolding scan_args
  scan_args-Scanned zero p = tt
  scan_args-Scanned (suc fuel) p =
      scan-bind p (scan token_can_be_annotation_arg p) _
        (scan-Scanned token_can_be_annotation_arg p)
        (λ arg q.
          choose_scan (is_type (type_at q) comma)
            (scan_args fuel >>>= λ args. found (arg.lexeme ∷ args)) (found (arg.lexeme ∷ []))
            (next q) q
            (from_next q _ (
              scan-bind (next q) (scan_args fuel (next q)) _ (scan_args-Scanned fuel (next q))
                (λ args r. omega arith)))
            (omega arith))

  scan_arguments-Scanned : (p : Position F) → Scanned p (scan_arguments p)
  scan_arguments-Scanned p =
      choose p (is_type (type_at p) left_paren) _ _
        (from_next p _ (
          scan-bind (next p) _ _
            (choose (next p) (is_type (type_at (next p)) right_paren) _ _ (omega arith)
              (scan_args-Scanned (length (next p).rest) (next p)))
            (λ args q.
              scan-bind q _ _ (scan-Scanned (λ t. is_type t right_paren) q)
                (λ close r. omega arith))))
        (omega arith)

  scan_annotation-Scanned : (p : Position F) → Scanned p (scan_annotation p)
  unfolding scan_annotation
  scan_annotation-Scanned p =
      scan-bind p _ _ (scan-Scanned (λ t. is_type t identifier) p) (λ token q.
        scan-bind q (scan_arguments q) _ (scan_arguments-Scanned q) (λ args r. omega arith))

  scan_names-Scanned : (fuel : ℕ) (p : Position F) → Scanned p (scan_names fuel p)
  unfolding scan_names
  scan_names-Scanned zero p = tt
  scan_names-Scanned (suc fuel) p =
      scan-bind p (scan_annotation p) _ (scan_annotation-Scanned p) (λ ann q.
        choose_scan (is_type (type_at q) comma) (scan_names fuel >>>= λ anns. found (ann ∷ anns))
          (found (ann ∷ [])) (next q) q
          (from_next q _ (
            scan-bind (next q) (scan_names fuel (next q)) _ (scan_names-Scanned fuel (next q))
              (λ anns r. omega arith)))
          (omega arith))

  scan_close-Scanned : (p : Position F) → Scanned p (scan_close p)
  scan_close-Scanned p =
      scan-bind p _ _ (scan-Scanned (λ t. is_type t right_bracket) p)
        (λ close q. scan-Scanned (λ t. is_type t right_bracket) q)

  scan_blocks-Scanned : (fuel : ℕ) (p : Position F) → Scanned p (scan_blocks fuel p)
  unfolding scan_blocks
  scan_blocks-Scanned zero p = tt
  scan_blocks-Scanned (suc fuel) p =
      choose_scan (at_block p)
        (scan_names (length p.rest) >>>= λ anns.
          scan_close >>>= λ close. scan_blocks fuel >>>= λ more. found (anns ++ more))
        (found []) (next (next p)) p
        (from_next p _ (
          from_next (next p) _ (
            scan-bind (next (next p)) (scan_names (length p.rest) (next (next p))) _
              (scan_names-Scanned (length p.rest) (next (next p)))
              (λ anns q. scan-bind q (scan_close q) _ (scan_close-Scanned q) (λ close r.
                scan-bind r (scan_blocks fuel r) (λ more. found (anns ++ more))
                  (scan_blocks-Scanned fuel r) (λ more u. omega arith))))))
        (omega arith)

  unless_empty-Scanned : (anns : List Annotation) (p : Position F) → Scanned p (unless_empty anns p)
  unless_empty-Scanned [] p = tt
  unless_empty-Scanned (a ∷ anns) p = omega arith

  pub try_parse_annotation_block-Scanned :
      (p : Position F) → Scanned p (try_parse_annotation_block p)
  unfolding try_parse_annotation_block
  try_parse_annotation_block-Scanned p =
      choose p (at_block p) _ _
        (scan-bind p (scan_blocks (suc (length p.rest)) p) unless_empty
          (scan_blocks-Scanned (suc (length p.rest)) p) unless_empty-Scanned)
        tt

  pub parse_annotations_disambiguated-Moving :
      {k : ℕ} (context : AnnotationContext)
      → Moving k 0 (parse_annotations_disambiguated {F = F} context)
  unfolding parse_annotations_disambiguated
  parse_annotations_disambiguated-Moving context = record {
    moves = λ s hs.
        taken (check left_bracket s && is_type (peek 1 s).type left_bracket) s
          (try_parse_annotation_block s.pos) (try_parse_annotation_block-Scanned s.pos);
  }
    where
      accepted :
          (b : Bool) (s : Parser F) (parsed : List Annotation) (end : Position F)
          → length end.rest ≤ remaining s
          → Within 0 (remaining s) ((if b then rewind end >> done parsed else done []) s)
      accepted true s parsed end h = omega arith
      accepted false s parsed end h = omega arith

      taken :
          (b : Bool) (s : Parser F) (o : Option (List Annotation × Position F))
          → Scanned s.pos o
          → Within 0 (remaining s) (if b then take_annotations context o s else returned [] s)
      taken true s none h = omega arith
      taken true s (some (parsed, end)) h =
          accepted (token_starts_annotation_target (type_at end) context) s parsed end h
      taken false s o h = omega arith

  annotation_arg-Moving : {k : ℕ} → Moving k 0 (parse_annotation_arg {F = F})
  unfolding parse_annotation_arg
  annotation_arg-Moving = bind0 (Moving-asks current) (λ tok.
      Moving-if (token_can_be_annotation_arg tok.type)
        (bind0 step-Moving (λ _. Moving-done tok.lexeme))
        (Moving-throw expected_annotation_argument tok.location))

  annotation_arguments-Moving : {k : ℕ} → Moving k 0 (annotation_arguments {F = F})
  unfolding ordinal
  annotation_arguments-Moving = bind0 (match-Moving left_paren) (λ opened.
      Moving-if opened
        (bind0 (Moving-asks (check right_paren)) (λ closed.
          bind0
            (Moving-if closed (Moving-done [])
              (separated-Moving comma parse_annotation_arg refl annotation_arg-Moving))
            (λ args.
              bind0 (consume-Moving right_paren expected_annotation_arguments_close)
                (λ _. Moving-done args))))
        (Moving-done []))

  annotation-Moving : {k : ℕ} → Moving k 0 (parse_annotation {F = F})
  unfolding parse_annotation
  annotation-Moving = bind0 (consume-Moving identifier expected_annotation_name) (λ name_tok.
      bind0 annotation_arguments-Moving (λ args. Moving-done (annotation_of name_tok args)))

  block_rest-Moving :
      {k : ℕ} (more : Parsing F (List Annotation))
      → Moving k 0 more
      → Token F
      → Moving k 0 (do
        consume left_bracket expected_annotation_start
        anns ← separated comma parse_annotation
        consume right_bracket expected_annotation_close
        consume right_bracket expected_annotation_close
        others ← more
        done (anns ++ others))
  unfolding ordinal
  block_rest-Moving more hm open_tok =
      bind0 (consume-Moving left_bracket expected_annotation_start) (λ _.
        bind0 (separated-Moving comma parse_annotation refl annotation-Moving) (λ anns.
          bind0 (consume-Moving right_bracket expected_annotation_close) (λ _.
            bind0 (consume-Moving right_bracket expected_annotation_close)
              (λ _. bind0 hm (λ others. Moving-done (anns ++ others))))))

  bracket_of : (s : Parser F) → is_annotation_start s ≡ true → check left_bracket s ≡ true
  unfolding is_annotation_start
  bracket_of s h = &&-left (check left_bracket s) (is_type (peek 1 s).type left_bracket) (
      &&-left (check left_bracket s && is_type (peek 1 s).type left_bracket)
        (is_type (peek 2 s).type identifier) h)

  -- Where the loop is entered, a round takes a bracket.
  annotations_loop-Moving : (fuel : ℕ) → Moving fuel 0 (annotations_loop {F = F} fuel)
  unfolding annotations_loop annotation_block ordinal
  annotations_loop-Moving zero = Moving-zero no_fuel
  annotations_loop-Moving (suc fuel) = record {
    moves = λ s hs.
        split_elim 0 (remaining s) (is_annotation_start s)
          (annotation_block (annotations_loop fuel)) (done []) s
          (λ h. weaken-Within (remaining s) _ (
            consume1 left_bracket expected_annotation_start _ s refl (bracket_of s h) hs
              (block_rest-Moving (annotations_loop fuel) (annotations_loop-Moving fuel))))
          (λ h. omega arith);
  }

  pub parse_annotations-Moving : {k : ℕ} → Moving k 0 (parse_annotations {F = F})
  unfolding parse_annotations
  parse_annotations-Moving = Moving-rounds annotations_loop (λ fuel h. annotations_loop-Moving fuel)
