-- ===== src/Parser/Progress/Modules.antt =====
-- The tokens that the methods of the grammar and the declarations of a module take.
use vexel_lang.Parser.Progress.{Moving-weaken, bind0, remaining}
use vexel_lang.Parser.Progress.Tokens.{Live, consume_split, match_split, noted}
use vexel_lang.Parser.Progress.Loops.{Moving-zero}
use vexel_lang.Parser.Progress.Passing.{IsPlain, Moving-Passing, Passing, Within-Passing}
use vexel_lang.Parser.Progress.Types.{Progressing, parse_type-Moving}
use vexel_lang.Parser.Progress.Levels.{assignment-Moving, conditional-Moving, expr-Moving}
use vexel_lang.Parser.Progress.Unary.{unary-Moving}
use vexel_lang.Parser.Progress.Variables.{
  boundary-Moving, declared-Moving, double_bang-Moving, initializer-Moving, linkage-Moving,
  named_decl-Moving, var_decl_rest-Moving,
}
use vexel_lang.Parser.Progress.Declarations.{func_decl-Passing, import-Passing, type_decl-Passing}
use vexel_lang.Parser.Progress.Statements.{stmt-Moving}
use vexel_lang.Parser.{
  Parser, Parsing, check, current, here, no_fuel, out_of_fuel, returned, thrown,
}
use vexel_lang.Parser.Kinds.{is_one_of, is_type, ordinal, starts_anywhere, starts_behind_semicolon}
use vexel_lang.Parser.Grammar.{Parsers}
use vexel_lang.Parser.TypeSyntax.{optional_type}
use vexel_lang.Parser.Unary.{parse_unary}
use vexel_lang.Parser.Variables.{declared, named_decl, parse_var_decl, typed_decl, var_decl_rest}
use vexel_lang.Parser.Modules.{grammar, parse_top_level, top_level_case}
use vexel_lang.Lexer.Token.{
  TokenType, ampersand, ampersand_bang, ampersand_caret, assign, bit_xor, colon, double_colon, hash,
  identifier, logical_not,
}
use vexel_lang.Base.{
  Bool, List, [], arith, false, if◌then◌else◌, inr, refl, suc, true, zero, ℕ, ◌<◌, ◌||◌, ◌∷◌, ◌≡◌,
  ◌≤◌,
}
use vexel_lang.Error.{SourceLocation, Text, expected_variable_name}
use vexel_lang.Ast.{Stmt, no_type, normal}

pub ||-left : (a b : Bool) → (a || b) ≡ false → a ≡ false
||-left true b h = h
||-left false b h = refl

||-right : (a b : Bool) → (a || b) ≡ false → b ≡ false
||-right true b h = cc h
||-right false b h = h

pub neither : {a b : Bool} → a ≡ false → b ≡ false → (a || b) ≡ false
neither {a} {b} ha hb = rw (ha, hb) refl

module _ {F : Type 0} where
  -- With fuel k, where fewer than k tokens are left, none of the five methods of the grammar runs out of
  -- fuel: each takes a token or more where it returns, and adds none where it throws.
  pub grammar-Progressing : (k : ℕ) → Progressing k (grammar {F = F} k)
  unfolding grammar
  grammar-Progressing zero = record {
    expr = Moving-zero no_fuel;
    assignment = Moving-zero no_fuel;
    conditional = Moving-zero no_fuel;
    unary = Moving-zero no_fuel;
    stmt = Moving-zero no_fuel;
  }
  grammar-Progressing (suc k) =
      let p = grammar {F = F} k in
      let h = grammar-Progressing k in
      let hu = unary-Moving p h in
      record {
        expr = expr-Moving p h (parse_unary p) hu;
        assignment = assignment-Moving p h (parse_unary p) hu;
        conditional = conditional-Moving p h (parse_unary p) hu;
        unary = hu;
        stmt = stmt-Moving p h;
      }

  module _ {k : ℕ} (p : Parsers F) (h : Progressing k p) where
    -- A declaration that begins with none of the tokens of one throws without taking any.
    unnamed-Passing :
        (loc : SourceLocation) (name : Text) (s : Parser F) (n : ℕ)
        → n < suc k
        → remaining s ≤ n
        → IsPlain s
        → Passing n (named_decl p false loc false normal name s)
    unfolding optional_type ordinal
    unnamed-Passing loc name s n hk hs plain =
        match_split
          (λ o. Passing n (elim o [
            | returned type t ↦ typed_decl p false loc false normal name type t
            | thrown e t ↦ thrown e t
            | out_of_fuel ↦ out_of_fuel
          ]))
          colon _ s refl
          (λ t ht. Within-Passing (remaining t) n _ (omega arith) (
            (bind0 (parse_type-Moving p h) (λ type.
                bind0 (initializer-Moving p h false)
                  (λ init. declared-Moving p h name type init false normal loc))).moves
              t (omega arith)))
          (λ no_colon.
            match_split
              (λ o. Passing n (elim o [
                | returned init t ↦ declared p name no_type init false normal loc t
                | thrown e t ↦ thrown e t
                | out_of_fuel ↦ out_of_fuel
              ]))
              assign _ s refl
              (λ t ht. Within-Passing (remaining t) n _ (omega arith) (
                (bind0 (boundary-Moving p h true p.expr (Moving-weaken p.expr h.expr))
                    (λ init. declared-Moving p h name no_type init false normal loc)).moves
                  t (omega arith)))
              (λ no_assign. inr (omega arith, plain)))

    abbrev unstarted : List TokenType
    unstarted = ampersand ∷ ampersand_bang ∷ ampersand_caret ∷ []

    plain_of :
        (t : TokenType)
        → is_one_of t unstarted ≡ false
        → is_type t hash ≡ false
        → is_type t double_colon ≡ false
        → is_type t logical_not ≡ false
        → is_type t identifier ≡ false
        → (starts_behind_semicolon t ≡ false) × (starts_anywhere t ≡ false)
    unfolding starts_behind_semicolon starts_anywhere
    plain_of t hf hh hd hl hi =
        let ha = ||-left (is_type t ampersand) _ hf in
        let hr = ||-right (is_type t ampersand) _ hf in
        let hb = ||-left (is_type t ampersand_bang) _ hr in
        let hc = ||-left (is_type t ampersand_caret) _ (||-right (is_type t ampersand_bang) _ hr) in
        (
          neither ha
              (neither hb (neither hc (neither hh (neither hd (neither hi (neither hl refl)))))),
          neither ha (neither hb (neither hc (neither hh (neither hd (neither hl refl))))),
        )

    var_decl-Passing :
        (s : Parser F)
        → remaining s < suc k
        → (check logical_not s ≡ false → check identifier s ≡ false → IsPlain s)
        → Passing (remaining s) (parse_var_decl p false s)
    unfolding parse_var_decl ordinal current
    var_decl-Passing s hs plain =
        match_split (Passing (remaining s)) bit_xor _ s refl
          (λ t ht.
            Moving-Passing _ s t
              (bind0 (linkage-Moving p h false (here s))
                (var_decl_rest-Moving p h false (here s) true))
              hs ht)
          (λ no_export.
            match_split
              (λ o. Passing (remaining s) (elim o [
                | returned linkage t ↦ var_decl_rest p false (here s) false linkage t
                | thrown e t ↦ thrown e t
                | out_of_fuel ↦ out_of_fuel
              ]))
              logical_not _ s refl
              (λ t ht.
                Moving-Passing _ s t
                  (bind0 (double_bang-Moving p h false (here s))
                    (var_decl_rest-Moving p h false (here s) false))
                  hs ht)
              (λ no_bang.
                consume_split (Passing (remaining s)) identifier expected_variable_name _ s refl
                  (λ t ht.
                    Moving-Passing _ s t
                      (named_decl-Moving p h false (here s) false normal (current s).lexeme) hs ht)
                  (λ no_name.
                    unnamed-Passing (here s) (current s).lexeme (noted expected_variable_name s)
                      (remaining s) hs (omega arith) (plain no_bang no_name))))

    split_case :
        (n : ℕ) (b : Bool) (x y : Parsing F (Stmt F)) (s : Parser F)
        → (b ≡ true → Passing n (x s))
        → (b ≡ false → Passing n (y s))
        → Passing n ((if b then x else y) s)
    split_case n true x y s hx hy = hx refl
    split_case n false x y s hx hy = hy refl

    -- Where fewer than k + 1 tokens are left, the first of them is not EndOfFile, and the methods that
    -- `parse_top_level` calls progress on fewer than k, it does not run out of fuel: it returns behind a
    -- token, or throws behind one or at a token where `synchronize` does not stop.
    pub top_level-Passing :
        (s : Parser F) → Live s → remaining s < suc k → Passing (remaining s) (parse_top_level p s)
    unfolding parse_top_level top_level_case check
    top_level-Passing s live hs =
        split_case (remaining s) (is_one_of type unstarted) _ _ s
          (λ c. func_decl-Passing p h s c hs)
          (λ n0.
            split_case (remaining s) (is_type type hash) _ _ s (λ c. type_decl-Passing p h s c hs)
              (λ n1.
                split_case (remaining s) (is_type type double_colon) _ _ s (λ c. import-Passing s c)
                  (λ n2.
                    var_decl-Passing s hs
                      (λ n3 n4. let (a, b) = plain_of type n0 n1 n2 n3 n4 in (live, a, b)))))
      where
        type : TokenType
        type = (current s).type
