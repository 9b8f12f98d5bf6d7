-- ===== src/Lexer/Moves/Lexeme.antt =====
-- An operator's lexeme and the text that it is read from.
use vexel_lang.Lexer.{Lexer, Lexing, advance, behind, done, location_of, match, peek, ◌>>◌}
use vexel_lang.Lexer.Token.{Token}
use vexel_lang.Lexer.Operator.{
  Switch, double_switch, emit, long_switch, on_match, operator_switch, or_else, read_operator,
  run_case, run_switch, single_switch,
}
use vexel_lang.Lexer.Moves.{append_assoc}
use vexel_lang.Lexer.Moves.Shrinks.{advance_cases, bind_err, bind_ok, peek_cases}
use vexel_lang.Base.{
  ==_iff, Bool, Bool-cases, Option, [], ap, ap₂, arith, false, if◌then◌else◌, inl, inr, none, refl,
  some, sym, true, ℕ, ◌++◌, ◌<◌, ◌==◌, ◌∙◌, ◌∷◌, ◌≡◌,
}
use vexel_lang.Error.{Result, SourceLocation, Text, err, ok}

-- What each token of the cases spells behind `text`.
abbrev pub Spells : Text → Switch → Type 0
Spells text (emit type lexeme) = lexeme ≡ text
Spells text (on_match expected matched other) =
    (0 < expected) × Spells (text ++ expected ∷ []) matched × Spells text other

abbrev SpellsCase : ℕ → Option Switch → Type 0
SpellsCase c none = Unit
SpellsCase c (some cases) = Spells (c ∷ []) cases

pick :
    (c k : ℕ) (cases : Switch) (other : Option Switch)
    → Spells (k ∷ []) cases
    → SpellsCase c other
    → SpellsCase c (if c == k then some cases else other)
pick c k cases other h ho = elim (Bool-cases (c == k)) [
  | inl e ↦ rw e (rw ((==_iff c k).0 e) h)
  | inr e ↦ rw e ho
]

single_switch-Spells : (c : ℕ) → SpellsCase c (single_switch c)
unfolding single_switch
single_switch-Spells c = pick c b'$' _ _ refl (
    pick c b'#' _ _ refl (
      pick c b'~' _ _ refl (
        pick c b'(' _ _ refl (
          pick c b')' _ _ refl (
            pick c b'{' _ _ refl (
              pick c b'}' _ _ refl (
                pick c b'[' _ _ refl (
                  pick c b']' _ _ refl
                    (pick c b',' _ _ refl (pick c b';' _ _ refl (pick c b'?' _ _ refl tt)))))))))))

double_switch-Spells : (c : ℕ) → SpellsCase c (double_switch c)
unfolding double_switch
double_switch-Spells c =
    pick c b'@' _ _ (omega arith, refl, refl)
      (pick c b'+' _ _ (omega arith, refl, refl)
        (pick c b'*' _ _ (omega arith, refl, refl)
          (pick c b'/' _ _ (omega arith, refl, refl)
            (pick c b'%' _ _ (omega arith, refl, refl)
              (pick c b'^' _ _ (omega arith, refl, refl)
                (pick c b'!' _ _ (omega arith, refl, refl)
                  (pick c b'=' _ _ (omega arith, refl, refl)
                    (pick c b'.' _ _ (omega arith, refl, refl)
                      (pick c b':' _ _ (omega arith, refl, refl) tt)))))))))

long_switch-Spells : (c : ℕ) → SpellsCase c (long_switch c)
unfolding long_switch
long_switch-Spells c =
    pick c b'|' _ _ (omega arith, (omega arith, refl, refl), (omega arith, refl, refl))
      (pick c b'&' _ _
        (
          omega arith,
          refl,
          (omega arith, refl, (omega arith, (omega arith, refl, refl), (omega arith, refl, refl))),
        )
        (pick c b'<' _ _ (omega arith, (omega arith, refl, refl), (omega arith, refl, refl))
          (pick c b'>' _ _ (omega arith, (omega arith, refl, refl), (omega arith, refl, refl))
            (pick c b'-' _ _
              (
                omega arith,
                (omega arith, refl, (omega arith, refl, refl)),
                (omega arith, refl, refl),
              )
              tt))))

operator_switch-Spells : (c : ℕ) → SpellsCase c (operator_switch c)
unfolding operator_switch
operator_switch-Spells c =
    first (single_switch c) (or_else (double_switch c) (long_switch c)) (single_switch-Spells c)
      (first (double_switch c) (long_switch c) (double_switch-Spells c) (long_switch-Spells c))
  where
    first :
        (o other : Option Switch)
        → SpellsCase c o
        → SpellsCase c other
        → SpellsCase c (or_else o other)
    first (some cases) other h ho = h
    first none other h ho = ho

behind-rest : (c : ℕ) (cs : Text) (s : Lexer) → (behind c cs s).rest ≡ cs
behind-rest c cs s = elim (Bool-cases (c == b'\n')) [ inl n ↦ rw n refl | inr n ↦ rw n refl ]

-- A match takes the expected character, or nothing.
abbrev Matched : ℕ → Lexer → Result (Bool × Lexer) → Type 0
Matched expected s (ok (true, t)) = s.rest ≡ expected ∷ t.rest
Matched expected s (ok (false, t)) = t ≡ s
Matched expected s (err e) = Unit

Matched-subst :
    (expected : ℕ) (s : Lexer) {r q : Result (Bool × Lexer)}
    → r ≡ q
    → Matched expected s q
    → Matched expected s r
Matched-subst expected s e h = rw e h

match-Matched : (expected : ℕ) (s : Lexer) → 0 < expected → Matched expected s (match expected s)
unfolding match
match-Matched expected s positive = elim (peek_cases s) [
  | inl (e, p) ↦
      Matched-subst expected s (bind_ok (peek 0) after s p) (nothing (ground (arith, positive)))
  | inr (inr (e, p)) ↦ Matched-subst expected s (bind_err (peek 0) after s p) tt
  | inr (inl (c, cs, e, p)) ↦
      Matched-subst expected s (bind_ok (peek 0) after s p) (elim (Bool-cases (c == expected)) [
        | inl same ↦ rw same (taken c cs e ((==_iff c expected).0 same))
        | inr other ↦ rw other refl
      ])
]
  where
    after : ℕ → Lexing Bool
    after c = if c == expected then advance >> done true else done false

    nothing : (0 == expected) ≡ false → Matched expected s (after 0 s)
    nothing e = rw e refl

    taken :
        (c : ℕ) (cs : Text)
        → s.rest ≡ c ∷ cs
        → c ≡ expected
        → Matched expected s ((advance >> done true) s)
    taken c cs e same = elim (advance_cases s c cs e) [
      | inl a ↦
          Matched-subst expected s (bind_ok advance (λ d. done true) s a)
            (e ∙ ap₂ (λ (x : ℕ) (r : Text). x ∷ r) same (sym (behind-rest c cs s)))
      | inr (x, a) ↦ Matched-subst expected s (bind_err advance (λ d. done true) s a) tt
    ]

module _ (F : Type 0) where
  -- The source from the operator on is the lexeme and what is left.
  abbrev LexemeOf : Text → Result (Token F × Lexer) → Type 0
  LexemeOf source (ok (token, t)) = source ≡ token.lexeme ++ t.rest
  LexemeOf source (err e) = Unit

  abbrev Runs : Text → Text → Switch → SourceLocation → Type 0
  Runs source text cases loc =
      (t : Lexer) → source ≡ text ++ t.rest → LexemeOf source (run_switch cases loc t)

  branch :
      (source text : Text) (expected : ℕ) (matched other : Switch) (loc : SourceLocation)
      (s : Lexer) (r : Result (Bool × Lexer))
      → Matched expected s r
      → source ≡ text ++ s.rest
      → Runs source (text ++ expected ∷ []) matched loc
      → Runs source text other loc
      → LexemeOf source (elim r as (λ _. Result (Token F × Lexer)) [
        | ok (found, t) ↦
            (elim found as (λ _. Lexing (Token F)) [
              | true ↦ run_switch matched loc
              | false ↦ run_switch other loc
            ])
              t
        | err e ↦ err e
      ])
  branch source text expected matched other loc s (ok (true, t)) m e hm ho =
      hm t (e ∙ (ap (λ (r : Text). text ++ r) m ∙ sym (append_assoc text (expected ∷ []) t.rest)))
  branch source text expected matched other loc s (ok (false, t)) m e hm ho =
      ho t (e ∙ ap (λ (u : Lexer). text ++ u.rest) (sym m))
  branch source text expected matched other loc s (err x) m e hm ho = tt

  run_switch-Runs :
      (source text : Text) (cases : Switch) (loc : SourceLocation)
      → Spells text cases
      → Runs source text cases loc
  unfolding run_switch
  run_switch-Runs source text (emit type lexeme) loc h t e =
      e ∙ ap (λ (r : Text). r ++ t.rest) (sym h)
  run_switch-Runs source text (on_match expected matched other) loc h t e =
      branch source text expected matched other loc t (match expected t)
        (match-Matched expected t h.0) e
        (run_switch-Runs source (text ++ expected ∷ []) matched loc h.1)
        (run_switch-Runs source text other loc h.2)

  run_case-lexeme :
      (o : Option Switch) (c : ℕ) (cs source : Text) (loc : SourceLocation) (t : Lexer)
      → SpellsCase c o
      → source ≡ c ∷ cs
      → t.rest ≡ cs
      → LexemeOf source (run_case o c loc t)
  run_case-lexeme none c cs source loc t h e r = tt
  run_case-lexeme (some cases) c cs source loc t h e r =
      run_switch-Runs source (c ∷ []) cases loc h t (e ∙ ap (λ (x : Text). c ∷ x) (sym r))

  LexemeOf-subst :
      (source : Text) {r q : Result (Token F × Lexer)}
      → r ≡ q
      → LexemeOf source q
      → LexemeOf source r
  LexemeOf-subst source e h = rw e h

  operator_lexeme :
      (s : Lexer) (c : ℕ) (cs : Text) → s.rest ≡ c ∷ cs → LexemeOf s.rest (read_operator c s)
  unfolding read_operator
  operator_lexeme s c cs e = elim (advance_cases s c cs e) [
    | inl a ↦
        LexemeOf-subst s.rest
          (bind_ok advance (λ d. run_case (operator_switch c) c (location_of s)) s a)
          (run_case-lexeme (operator_switch c) c cs s.rest (location_of s) (behind c cs s)
            (operator_switch-Spells c) e (behind-rest c cs s))
    | inr (x, a) ↦
        LexemeOf-subst s.rest
          (bind_err advance (λ d. run_case (operator_switch c) c (location_of s)) s a) tt
  ]

  -- Where the source has a first character `c` and `read_operator` returns a token, the source is the token's lexeme
  -- with what is left behind it.
  pub read_operator-lexeme :
      (s : Lexer) (c : ℕ) (cs : Text) {token : Token F} {t : Lexer}
      → s.rest ≡ c ∷ cs
      → read_operator c s ≡ ok (token, t)
      → s.rest ≡ token.lexeme ++ t.rest
  read_operator-lexeme s c cs e found = LexemeOf-subst s.rest (sym found) (operator_lexeme s c cs e)
