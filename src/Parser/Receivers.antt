-- ===== src/Parser/Receivers.antt =====
-- The lookahead for `(r1, r2).method(...)`, where it finds something else and the parser goes back.
use vexel_lang.Parser.Returns.{bind_returned}
use vexel_lang.Parser.Progress.Tokens.{noted}
use vexel_lang.Parser.{
  Parsing, or_rewind, found_or, Parser, check, consume, current, done, here, match, next,
  record_error, returned, separated, separated_loop, step, ◌>>◌,
}
use vexel_lang.Parser.Kinds.{is_type, ordinal}
use vexel_lang.Parser.Grammar.{Parsers, name_token}
use vexel_lang.Parser.Unary.{
  behind_receivers, multi_receiver, behind_paren, parse_cast, parse_parenthesized,
}
use vexel_lang.Lexer.Token.{Token, TokenType, comma, identifier, new_token, right_paren}
use vexel_lang.Base.{
  Bool, List, Option, [], false, if◌then◌else◌, length, none, refl, some, suc, true, ℕ, ◌++◌, ◌∙◌,
  ◌∷◌, ◌≡◌,
}
use vexel_lang.Error.{Message, SourceLocation, Text, expected_identifier}

module _ {F : Type 0} where
  abbrev pub identifier_token : Text → SourceLocation → Token F
  identifier_token name loc = new_token identifier name loc

  abbrev pub comma_token : SourceLocation → Token F
  comma_token loc = new_token comma (b',' ∷ []) loc

  consume-noted :
      (type : TokenType) (message : Message) (s : Parser F)
      → is_type (current s).type type ≡ false
      → consume type message s ≡ returned (current s) (noted message s)
  unfolding consume record_error
  consume-noted type message s h = consumed (is_type (current s).type type) h
    where
      consumed :
          (b : Bool)
          → b ≡ false
          → (if b
                then step >> done (current s)
                else record_error message (here s) >> done (current s))
              s
            ≡ returned (current s) (noted message s)
      consumed true h = cc h
      consumed false h = refl

  match-false :
      (type : TokenType) (s : Parser F)
      → is_type (current s).type type ≡ false
      → match type s ≡ returned false s
  unfolding match check
  match-false type s h = matched (is_type (current s).type type) h
    where
      matched :
          (b : Bool)
          → b ≡ false
          → (if b then step >> done true else done false) s ≡ returned false s
      matched true h = cc h
      matched false h = refl

  one_item :
      (s : Parser F) (n : ℕ)
      → is_type (current s).type identifier ≡ false
      → is_type (current (noted expected_identifier s)).type comma ≡ false
      → separated_loop comma (suc n) (name_token expected_identifier) s
        ≡ returned ((current s).lexeme ∷ []) (noted expected_identifier s)
  unfolding separated_loop
  one_item s n h1 h2 =
      bind_returned (name_token expected_identifier) _ s (
        bind_returned (consume identifier expected_identifier) (λ name. done name.lexeme) s
          (consume-noted identifier expected_identifier s h1))
      ∙ bind_returned (match comma) _ (noted expected_identifier s)
          (match-false comma (noted expected_identifier s) h2)

  multi_receiver-error :
      (p : Parsers F) (loc : SourceLocation) (s : Parser F) (before : Option (Token F))
      (name : Text) (l m : SourceLocation) (t : Token F) (ts : List (Token F))
      → is_type t.type identifier ≡ false
      → is_type t.type comma ≡ false
      → is_type t.type right_paren ≡ false
      → multi_receiver p loc (record s {
        pos = record { before = before; rest = identifier_token name l ∷ comma_token m ∷ t ∷ ts };
      })
        ≡ returned none (record s {
          pos = record { before = some (comma_token m); rest = t ∷ ts };
          errors = s.errors ++ record { message = expected_identifier; location = t.location } ∷ [];
          panic_mode = true;
        })
  unfolding multi_receiver match consume check step next current separated ordinal
  multi_receiver-error p loc s before name l m t ts h1 h2 h3 =
      bind_returned (separated comma (name_token expected_identifier))
        (λ others. behind_receivers p loc (name ∷ others)) behind
        (one_item behind (suc (length ts)) h1 h2)
      ∙ bind_returned (match right_paren) _ (noted expected_identifier behind)
          (match-false right_paren (noted expected_identifier behind) h3)
    where
      behind : Parser F
      behind = record s { pos = record { before = some (comma_token m); rest = t ∷ ts } }

  back :
      {A : Type 0} (m : Parsing F (Option A)) (otherwise : Parsing F A) (s t : Parser F)
      → m s ≡ returned none t
      → or_rewind m otherwise s ≡ otherwise (record t { pos = s.pos })
  unfolding or_rewind
  back m otherwise s t e = bind_returned m (found_or s.pos otherwise) s e

  -- `s` at the tokens `name , t ts`.
  abbrev pub at_tuple :
      Parser F
      → Option (Token F)
      → Text
      → SourceLocation
      → SourceLocation
      → Token F
      → List (Token F)
      → Parser F
  at_tuple s before name l m t ts = record s {
    pos = record { before = before; rest = identifier_token name l ∷ comma_token m ∷ t ∷ ts };
  }

  abbrev pub with_error : Message → SourceLocation → Parser F → Parser F
  with_error message loc s = record s {
    errors = s.errors ++ record { message = message; location = loc } ∷ [];
    panic_mode = true;
  }

  -- Behind a `(`, where an identifier, a comma and a token follow that is no identifier, comma or `)`, the
  -- parser goes back and reads a parenthesized expression from just behind the `(`, in panic mode and with
  -- one more error than before, "Expected identifier" at that token.
  pub behind_paren-error :
      (p : Parsers F) (loc : SourceLocation) (s : Parser F) (before : Option (Token F))
      (name : Text) (l m : SourceLocation) (t : Token F) (ts : List (Token F))
      → is_type t.type identifier ≡ false
      → is_type t.type comma ≡ false
      → is_type t.type right_paren ≡ false
      → behind_paren p loc (at_tuple s before name l m t ts)
        ≡ parse_parenthesized p loc
            (with_error expected_identifier t.location (at_tuple s before name l m t ts))
  unfolding behind_paren parse_cast check current ordinal
  behind_paren-error p loc s before name l m t ts h1 h2 h3 =
      let start = at_tuple s before name l m t ts in
      let failed = with_error expected_identifier t.location start in
      back (multi_receiver p loc) (or_rewind (parse_cast p loc) (parse_parenthesized p loc)) start _
        (multi_receiver-error p loc s before name l m t ts h1 h2 h3)
      ∙ back (parse_cast p loc) (parse_parenthesized p loc) failed failed refl
