-- ===== src/Parser/Recovery.antt =====
-- Where `synchronize` goes on behind an error, from the tokens alone.
use vexel_lang.Parser.{
  Outcome, Parsing, done, ◌>>◌, Parser, check, current, next, previous, returned, rounds, step,
}
use vexel_lang.Parser.Kinds.{is_one_of, is_type, ordinal, starts_anywhere, starts_behind_semicolon}
use vexel_lang.Parser.Modules.{at_sync_point, calm, sync_loop, synchronize}
use vexel_lang.Lexer.Token.{
  Token, TokenType, ampersand, ampersand_bang, ampersand_caret, double_colon, end_of_file, hash,
  identifier, logical_not, semicolon,
}
use vexel_lang.Base.{
  if◌then◌else◌, Bool, Bool-cases, List, Option, [], ap, arith, false, inl, inr, length, none, refl,
  some, suc, true, zero, ℕ, ◌&&◌, ◌++◌, ◌<◌, ◌||◌, ◌∙◌, ◌∷◌, ◌≡◌,
}

-- A declaration other than a variable's starts with a token of its own, and an external one with `!`.
abbrev pub starts_declaration : TokenType → Bool
starts_declaration type =
    is_one_of type
      (ampersand ∷ ampersand_bang ∷ ampersand_caret ∷ hash ∷ double_colon ∷ logical_not ∷ [])

-- The lists of the two branches, less and with the identifier.
with_identifier :
    (a b c d e i l : Bool)
    → (a || (b || (c || (d || (e || (i || (l || false)))))))
      ≡ ((a || (b || (c || (d || (e || (l || false)))))) || i)
with_identifier true b c d e i l = refl
with_identifier false true c d e i l = refl
with_identifier false false true d e i l = refl
with_identifier false false false true e i l = refl
with_identifier false false false false true i l = refl
with_identifier false false false false false true true = refl
with_identifier false false false false false true false = refl
with_identifier false false false false false false true = refl
with_identifier false false false false false false false = refl

or_false : (b : Bool) → b ≡ (b || false)
or_false true = refl
or_false false = refl

-- The two branches as one test, where `b` says whether a semicolon is in front.
chosen :
    (b : Bool) (type : TokenType)
    → (if b then starts_behind_semicolon type else starts_anywhere type)
      ≡ (starts_declaration type || (b && is_type type identifier))
unfolding starts_behind_semicolon starts_anywhere
chosen true type =
    with_identifier (is_type type ampersand) (is_type type ampersand_bang)
      (is_type type ampersand_caret) (is_type type hash) (is_type type double_colon)
      (is_type type identifier) (is_type type logical_not)
chosen false type = or_false (starts_declaration type)

-- The first token is its own previous one, and no identifier where that is a semicolon.
chosen_first :
    (b : Bool) (type : TokenType)
    → is_type type semicolon ≡ b
    → (if b then starts_behind_semicolon type else starts_anywhere type)
      ≡ (starts_declaration type || false)
unfolding ordinal
chosen_first true type h =
    let no_identifier : is_type type identifier ≡ false = ground (arith, h) in
    chosen true type ∙ ap (λ (i : Bool). starts_declaration type || i) no_identifier
chosen_first false type h = chosen false type

module _ {F : Type 0} where
  abbrev pub is_behind_semicolon : Option (Token F) → Bool
  is_behind_semicolon none = false
  is_behind_semicolon (some t) = is_type t.type semicolon

  -- The parser goes on at the end of the tokens, at a token that starts a declaration, and at an
  -- identifier just behind a semicolon.
  abbrev pub goes_on_at : Option (Token F) → Token F → Bool
  goes_on_at before t =
      is_type t.type end_of_file
      || (starts_declaration t.type || (is_behind_semicolon before && is_type t.type identifier))

  abbrev pub GoesOn : Option (Token F) → List (Token F) → Type 0
  GoesOn before [] = Unit
  GoesOn before (t ∷ ts) = goes_on_at before t ≡ true

  abbrev pub PassesOver : Option (Token F) → List (Token F) → Type 0
  PassesOver before [] = Unit
  PassesOver before (t ∷ ts) = (goes_on_at before t ≡ false) × PassesOver (some t) ts

  -- The last token, with `before` in front of all.
  abbrev pub last_token : Option (Token F) → List (Token F) → Option (Token F)
  last_token before [] = before
  last_token before (t ∷ ts) = last_token (some t) ts

  abbrev at : Parser F → Option (Token F) → List (Token F) → Parser F
  at s before rest = record s { pos = record { before = before; rest = rest } }

  stop_lem :
      (s : Parser F) (before : Option (Token F)) (t : Token F) (ts : List (Token F))
      → (check end_of_file (at s before (t ∷ ts)) || at_sync_point (at s before (t ∷ ts)))
        ≡ goes_on_at before t
  unfolding check current previous starts_anywhere starts_behind_semicolon ordinal
  stop_lem s (some u) t ts =
      ap (λ (b : Bool). is_type t.type end_of_file || b) (chosen (is_type u.type semicolon) t.type)
  stop_lem s none t ts =
      ap (λ (b : Bool). is_type t.type end_of_file || b)
        (chosen_first (is_type t.type semicolon) t.type refl)

  loop_stops :
      (fuel : ℕ) (s : Parser F)
      → (check end_of_file s || at_sync_point s) ≡ true
      → sync_loop (suc fuel) s ≡ returned tt s
  unfolding sync_loop
  loop_stops fuel s h = by_test (check end_of_file s || at_sync_point s) h
    where
      by_test :
          (b : Bool)
          → b ≡ true
          → (elim b as (λ _. Parsing F (Unit {0})) [
            | true ↦ done tt
            | false ↦ step >> sync_loop fuel
          ])
              s
            ≡ returned tt s
      by_test true h = refl
      by_test false h = cc h

  loop_goes :
      (fuel : ℕ) (s : Parser F)
      → (check end_of_file s || at_sync_point s) ≡ false
      → sync_loop (suc fuel) s ≡ sync_loop fuel (record s { pos = next s.pos })
  unfolding sync_loop step
  loop_goes fuel s h = by_test (check end_of_file s || at_sync_point s) h
    where
      by_test :
          (b : Bool)
          → b ≡ false
          → (elim b as (λ _. Parsing F (Unit {0})) [
            | true ↦ done tt
            | false ↦ step >> sync_loop fuel
          ])
              s
            ≡ sync_loop fuel (record s { pos = next s.pos })
      by_test true h = cc h
      by_test false h = refl

  -- The outcome is to go on from `before` and `rest` at the first place for it.
  abbrev pub Recovers : Parser F → Option (Token F) → List (Token F) → Outcome F (Unit {0}) → Type 0
  Recovers s before rest o =
      (skipped left : List (Token F)) × (o ≡ returned tt (at s (last_token before skipped) left))
      × (rest ≡ skipped ++ left)
      × PassesOver before skipped
      × GoesOn (last_token before skipped) left

  loop-Recovers :
      (fuel : ℕ) (s : Parser F) (before : Option (Token F)) (rest : List (Token F))
      → length rest < fuel
      → Recovers s before rest (sync_loop fuel (at s before rest))
  unfolding check current ordinal next
  loop-Recovers zero s before rest h = absurd (omega (arith, h))
  loop-Recovers (suc fuel) s before [] h =
      ([], [], loop_stops fuel (at s before []) refl, refl, tt, tt)
  loop-Recovers (suc fuel) s before (t ∷ ts) h = elim (Bool-cases (goes_on_at before t)) [
    | inl stops ↦ (
      [],
      t ∷ ts,
      loop_stops fuel (at s before (t ∷ ts)) (stop_lem s before t ts ∙ stops),
      refl,
      tt,
      stops,
    )
    | inr passes ↦
        let (skipped, left, ends, split, passed, stops) =
          loop-Recovers fuel s (some t) ts (omega (arith, h)) in
        (
          t ∷ skipped,
          left,
          loop_goes fuel (at s before (t ∷ ts)) (stop_lem s before t ts ∙ passes) ∙ ends,
          ap (λ (r : List (Token F)). t ∷ r) split,
          (passes, passed),
          stops,
        )
  ]

  -- `synchronize` returns, out of panic mode and with nothing else changed, behind the tokens that it
  -- passes over: all of those in front of the first where the parser goes on, which is a token that
  -- starts a declaration, an identifier just behind a semicolon, or the end of the tokens.
  pub synchronize-Recovers :
      (s : Parser F)
      → Recovers (record s { panic_mode = false }) s.pos.before s.pos.rest (synchronize s)
  unfolding synchronize
  synchronize-Recovers s = loop-Recovers (rounds s) (calm s) s.pos.before s.pos.rest (omega arith)
