-- ===== src/Lexer/Moves/Source.antt =====
-- How far `tokenize` reads the source, and the fuel of its loop.
use vexel_lang.Lexer.{Lexer, Lexing, done, location_of, peek, ◌>>=◌}
use vexel_lang.Lexer.Token.{Token, end_of_file, new_token}
use vexel_lang.Lexer.Tokenize.{end_tokens, read_token, skip_blank, tokenize, tokenize_loop}
use vexel_lang.Lexer.Moves.{Moves, Moves-refl, Moves-trans, Within}
use vexel_lang.Lexer.Moves.Tokens.{Moving-read_token, Moving-skip_blank}
use vexel_lang.Lexer.Moves.Shrinks.{Moves-length-le, bind_err, bind_ok, peek_cases}
use vexel_lang.Lexer.Moves.Progress.{token-Shrinks}
use vexel_lang.Base.{
  ==_iff, Bool, List, Option, [], ap, arith, false, inl, inr, length, refl, suc, sym, true, zero, ℕ,
  ◌++◌, ◌<◌, ◌==◌, ◌∷◌, ◌≡◌, ◌≤◌,
}
use vexel_lang.Error.{Result, Text, err, ok}

module _ {F : Type 0} (stod : Text → Option F) where
  -- The end of the source, or a '\0'.
  abbrev pub IsEnd : Text → Type 0
  IsEnd [] = Unit
  IsEnd (c ∷ cs) = c ≡ 0

  -- The tokens end with the end of the file, at the place that the lexer has come to.
  pub record Ends (s : Lexer) (tokens : List (Token F)) (t : Lexer) : Type 0 where
    pub moves : Moves s t
    pub at_end : IsEnd t.rest
    pub front : List (Token F)
    pub closed : tokens ≡ front ++ new_token end_of_file [] (location_of t) ∷ []

  ended : (s : Lexer) → IsEnd s.rest → Ends s (new_token end_of_file [] (location_of s) ∷ []) s
  ended s h = record { moves = Moves-refl s; at_end = h; front = []; closed = refl }

  -- What holds of the tokens and of the state behind them, where there are any.
  abbrev pub Returns : (List (Token F) → Lexer → Type 0) → Result (List (Token F) × Lexer) → Type 0
  Returns P (ok (tokens, t)) = P tokens t
  Returns P (err e) = Unit

  abbrev Tokenizes : ℕ → Type 0
  Tokenizes fuel = (s : Lexer) → length s.rest ≤ fuel → Returns (Ends s) (tokenize_loop stod fuel s)

  Ends-further :
      (token : Token F) (s t u : Lexer) (tokens : List (Token F))
      → Moves s t
      → Ends t tokens u
      → Ends s (token ∷ tokens) u
  Ends-further token s t u tokens m n = record {
    moves = Moves-trans m n.moves;
    at_end = n.at_end;
    front = token ∷ n.front;
    closed = ap (λ (ts : List (Token F)). token ∷ ts) n.closed;
  }

  -- The tokens behind one that was read.
  round :
      (fuel : ℕ) (s : Lexer) (r : Result (Token F × Lexer))
      → Tokenizes fuel
      → length s.rest ≤ suc fuel
      → Within (Moves s) r
      → Within (λ t. length t.rest < length s.rest) r
      → Returns (Ends s) (elim r as (λ _. Result (List (Token F) × Lexer)) [
        | ok (token, t) ↦ (tokenize_loop stod fuel >>= λ tokens. done (token ∷ tokens)) t
        | err e ↦ err e
      ])
  round fuel s (err e) ih h m l = tt
  round fuel s (ok (token, t)) ih h m l =
      closed (tokenize_loop stod fuel t) (ih t (omega (arith, h, l)))
    where
      closed :
          (q : Result (List (Token F) × Lexer))
          → Returns (Ends t) q
          → Returns (Ends s) (elim q as (λ _. Result (List (Token F) × Lexer)) [
            | ok (tokens, u) ↦ ok (token ∷ tokens, u)
            | err e ↦ err e
          ])
      closed (ok (tokens, u)) n = Ends-further token s t u tokens m n
      closed (err e) n = tt

  Returns-subst :
      (P : List (Token F) → Lexer → Type 0) {r q : Result (List (Token F) × Lexer)}
      → r ≡ q
      → Returns P q
      → Returns P r
  Returns-subst P e h = rw e h

  Returns-choose :
      (P : List (Token F) → Lexer → Type 0) (b : Bool) (m n : Lexing (List (Token F))) (t : Lexer)
      → (b ≡ true → Returns P (m t))
      → (b ≡ false → Returns P (n t))
      → Returns P ((elim b as (λ _. Lexing (List (Token F))) [ true ↦ m | false ↦ n ]) t)
  Returns-choose P true m n t hm hn = hm refl
  Returns-choose P false m n t hm hn = hn refl

  -- The token at a character that is no blank, and those behind it.
  abbrev tokens_from : ℕ → ℕ → Lexing (List (Token F))
  tokens_from fuel d =
      read_token stod d >>= λ token. tokenize_loop stod fuel >>= λ tokens. done (token ∷ tokens)

  abbrev tokens_at : ℕ → ℕ → Lexing (List (Token F))
  tokens_at fuel d = elim (d == 0) [ true ↦ end_tokens | false ↦ tokens_from fuel d ]

  at_token :
      (fuel : ℕ) (t : Lexer)
      → Tokenizes fuel
      → length t.rest ≤ suc fuel
      → Returns (Ends t) ((peek 0 >>= tokens_at fuel) t)
  unfolding end_tokens
  at_token fuel t ih h = elim (peek_cases t) [
    | inl (e, p) ↦
        Returns-subst (Ends t) (bind_ok (peek 0) (tokens_at fuel) t p) (ended t (rw e tt))
    | inr (inr (e, p)) ↦ Returns-subst (Ends t) (bind_err (peek 0) (tokens_at fuel) t p) tt
    | inr (inl (d, ds, e, p)) ↦ Returns-subst (Ends t) (bind_ok (peek 0) (tokens_at fuel) t p) (
        Returns-choose (Ends t) (d == 0) end_tokens (tokens_from fuel d) t
          (λ z. ended t (rw e ((==_iff d 0).0 z)))
          (λ z.
            round fuel t (read_token stod d t) ih h ((Moving-read_token stod d).moves t)
              (token-Shrinks stod t d ds e)))
  ]

  skipped :
      (fuel : ℕ) (s : Lexer) (r : Result (Unit {0} × Lexer))
      → Tokenizes fuel
      → length s.rest ≤ suc fuel
      → Within (Moves s) r
      → Returns (Ends s) (elim r as (λ _. Result (List (Token F) × Lexer)) [
        | ok (u, t) ↦ (peek 0 >>= tokens_at fuel) t
        | err e ↦ err e
      ])
  skipped fuel s (err e) ih h m = tt
  skipped fuel s (ok (u, t)) ih h m =
      behind_blank ((peek 0 >>= tokens_at fuel) t)
        (at_token fuel t ih (omega (arith, h, Moves-length-le m)))
    where
      behind_blank : (q : Result (List (Token F) × Lexer)) → Returns (Ends t) q → Returns (Ends s) q
      behind_blank (ok (tokens, v)) n = record {
        moves = Moves-trans m n.moves;
        at_end = n.at_end;
        front = n.front;
        closed = n.closed;
      }
      behind_blank (err e) n = tt

  abbrev tokens_after : ℕ → ℕ → Lexing (List (Token F))
  tokens_after fuel c = elim (c == 0) [
    | true ↦ end_tokens
    | false ↦ skip_blank >>= λ u. peek 0 >>= tokens_at fuel
  ]

  nothing_left : (r : Text) → length r ≤ 0 → IsEnd r
  nothing_left [] h = tt
  nothing_left (c ∷ cs) h = absurd (omega arith)

  tokenize_loop-Ends : (fuel : ℕ) → Tokenizes fuel
  unfolding tokenize_loop end_tokens
  tokenize_loop-Ends zero s h = ended s (nothing_left s.rest h)
  tokenize_loop-Ends (suc fuel) s h = elim (peek_cases s) [
    | inl (e, p) ↦
        Returns-subst (Ends s) (bind_ok (peek 0) (tokens_after fuel) s p) (ended s (rw e tt))
    | inr (inr (e, p)) ↦ Returns-subst (Ends s) (bind_err (peek 0) (tokens_after fuel) s p) tt
    | inr (inl (c, cs, e, p)) ↦ Returns-subst (Ends s) (bind_ok (peek 0) (tokens_after fuel) s p) (
        Returns-choose (Ends s) (c == 0) end_tokens (skip_blank >>= λ u. peek 0 >>= tokens_at fuel)
          s (λ z. ended s (rw e ((==_iff c 0).0 z)))
          (λ z.
            skipped fuel s (skip_blank s) (tokenize_loop-Ends fuel) h (Moving-skip_blank.moves s)))
  ]

  -- Where `tokenize` returns, it has read the source up to its end or to a '\0', over ASCII characters alone; its
  -- line and column are those behind what it read, and the last token is the end of the file, at that place.
  pub tokenize-Ends :
      (s : Lexer) {tokens : List (Token F)} {t : Lexer}
      → tokenize stod s ≡ ok (tokens, t)
      → Ends s tokens t
  unfolding tokenize
  tokenize-Ends s e =
      Returns-subst (Ends s) (sym e) (tokenize_loop-Ends (length s.rest) s (omega arith))
