-- ===== src/Parser/Progress/Tokens.antt =====
-- The methods on one token, and the loops over separated items.
use vexel_lang.Parser.Progress.{
  Moving, Moving-asks, Moving-done, Moving-if, Within, Within-bind, Within-from, bind0, remaining,
}
use vexel_lang.Parser.{
  Outcome, Parser, Parsing, Position, attempt, caught, check, consume, current, done, end_token,
  head_or, here, match, next, out_of_fuel, record_error, returned, step, take, thrown, ◌>>=◌, ◌>>◌,
}
use vexel_lang.Parser.Kinds.{is_one_of, is_type, ordinal}
use vexel_lang.Lexer.Token.{Token, TokenType, end_of_file}
use vexel_lang.Base.{
  ==_iff, Bool, Bool-cases, List, [], arith, false, if◌then◌else◌, inl, inr, length, refl, suc,
  true, ℕ, ◌&&◌, ◌++◌, ◌+◌, ◌<◌, ◌∷◌, ◌≡◌, ◌≤◌,
}
use vexel_lang.Error.{Message, SourceLocation}

-- A type other than `end_of_file`.
abbrev pub IsTaken : TokenType → Type 0
IsTaken type = is_type type end_of_file ≡ false

is_type-same : (t u : TokenType) → is_type t u ≡ true → IsTaken u → IsTaken t
is_type-same t u h hu = rw ((==_iff (ordinal t) (ordinal u)).0 h) hu

abbrev AreTaken : List TokenType → Type 0
AreTaken [] = Unit
AreTaken (t ∷ ts) = IsTaken t × AreTaken ts

pub is_one_of-IsTaken :
    (t : TokenType) (us : List TokenType) → AreTaken us → is_one_of t us ≡ true → IsTaken t
is_one_of-IsTaken t [] h e = cc e
is_one_of-IsTaken t (u ∷ us) h e = elim (Bool-cases (is_type t u)) [
  | inl y ↦ is_type-same t u y h.0
  | inr n ↦ is_one_of-IsTaken t us h.1 (rw n at e)
]

module _ {F : Type 0} where
  abbrev pub Live : Parser F → Type 0
  Live s = is_type (current s).type end_of_file ≡ false

  pub check-Live :
      (type : TokenType) (s : Parser F)
      → IsTaken type
      → is_type (current s).type type ≡ true
      → Live s
  check-Live type s ht h = is_type-same (current s).type type h ht

  pub check_any-Live :
      (types : List TokenType) (s : Parser F)
      → AreTaken types
      → is_one_of (current s).type types ≡ true
      → Live s
  check_any-Live types s ht h = is_one_of-IsTaken (current s).type types ht h

  step-Within : (s : Parser F) → Live s → Within 1 (remaining s) (step s)
  unfolding step next current ordinal
  step-Within s h = stepped s s.pos.rest refl h
    where
      stepped :
          (s : Parser F) (r : List (Token F))
          → s.pos.rest ≡ r
          → is_type (head_or (end_token s) s.pos.rest).type end_of_file ≡ false
          → 1 + length (next s.pos).rest ≤ length s.pos.rest
      stepped s [] e h = cc (rw e at h)
      stepped s (t ∷ ts) e h = rw e (omega arith)

  pub step-Moving : {k : ℕ} → Moving k 0 (step {F = F})
  unfolding step next
  step-Moving = record { moves = λ s hs. stepped s.pos s.pos.rest refl }
    where
      stepped :
          (p : Position F) (r : List (Token F))
          → p.rest ≡ r
          → 0 + length (next p).rest ≤ length p.rest
      stepped p [] e = rw e (omega arith)
      stepped p (t ∷ ts) e = rw e (omega arith)

  take-Within : (s : Parser F) → Live s → Within 1 (remaining s) (take s)
  unfolding take
  take-Within s h =
      Within-bind 1 1 (remaining s) (step s) (λ _. done (current s)) (step-Within s h)
        (λ a t ht. ht)

  pub take-Moving : {k : ℕ} → Moving k 0 (take {F = F})
  unfolding take
  take-Moving = bind0 (Moving-asks _) (λ token. bind0 step-Moving (λ _. Moving-done token))

  -- Behind `match`: a token was taken, or nothing happened.
  pub match_split :
      {B : Type 0} (Q : Outcome F B → Type 0) (type : TokenType) (f : Bool → Parsing F B)
      (s : Parser F)
      → IsTaken type
      → ((t : Parser F) → 1 + remaining t ≤ remaining s → Q (f true t))
      → (check type s ≡ false → Q (f false s))
      → Q ((match type >>= f) s)
  unfolding match check step
  match_split Q type f s ht hy hn = matched (check type s) refl
    where
      matched :
          (b : Bool)
          → check type s ≡ b
          → Q (((if b then step >> done true else done false) >>= f) s)
      matched true h = hy (record s { pos = next s.pos }) (step-Within s (check-Live type s ht h))
      matched false h = hn h

  pub match_then :
      {B : Type 0} (type : TokenType) (e n : ℕ) (f : Bool → Parsing F B) (s : Parser F)
      → IsTaken type
      → remaining s ≤ n
      → ((t : Parser F) → 1 + remaining t ≤ remaining s → Within e n (f true t))
      → (check type s ≡ false → Within e n (f false s))
      → Within e n ((match type >>= f) s)
  match_then type e n f s ht hs hy hn = match_split (Within e n) type f s ht hy hn

  -- Behind `consume`: a token was taken, or an error was recorded.
  abbrev pub noted : Message → Parser F → Parser F
  noted message s = record s {
    errors = s.errors ++ record { message = message; location = here s } ∷ [];
    panic_mode = true;
  }

  pub consume_split :
      {B : Type 0} (Q : Outcome F B → Type 0) (type : TokenType) (message : Message)
      (f : Token F → Parsing F B) (s : Parser F)
      → IsTaken type
      → ((t : Parser F) → 1 + remaining t ≤ remaining s → Q (f (current s) t))
      → (check type s ≡ false → Q (f (current s) (noted message s)))
      → Q ((consume type message >>= f) s)
  unfolding consume check step record_error
  consume_split Q type message f s ht hy hn = consumed (check type s) refl
    where
      consumed :
          (b : Bool)
          → check type s ≡ b
          → Q (
              ((if b
                    then step >> done (current s)
                    else record_error message (here s) >> done (current s))
                  >>= f)
                s)
      consumed true h = hy (record s { pos = next s.pos }) (step-Within s (check-Live type s ht h))
      consumed false h = hn h

  -- `match` in front of a method: behind a token that was taken fewer are left.
  pub match0 :
      {B : Type 0} {k : ℕ} (type : TokenType) (f : Bool → Parsing F B)
      → IsTaken type
      → Moving k 0 (f true)
      → Moving (suc k) 0 (f false)
      → Moving (suc k) 0 (match type >>= f)
  match0 type f ht hy hn = record {
    moves = λ s hs.
        match_then type 0 (remaining s) f s ht (omega arith)
          (λ t h.
            Within-from 0 0 0 (remaining t) (remaining s) (f true t) (omega arith) (omega arith)
              (hy.moves t (omega arith)))
          (λ h. hn.moves s hs);
  }

  pub match1 :
      {B : Type 0} {k : ℕ} (type : TokenType) (f : Bool → Parsing F B)
      → IsTaken type
      → Moving k 0 (f true)
      → Moving (suc k) 1 (f false)
      → Moving (suc k) 1 (match type >>= f)
  match1 type f ht hy hn = record {
    moves = λ s hs.
        match_then type 1 (remaining s) f s ht (omega arith)
          (λ t h.
            Within-from 1 0 1 (remaining t) (remaining s) (f true t) (omega arith) (omega arith)
              (hy.moves t (omega arith)))
          (λ h. hn.moves s hs);
  }

  pub match-Moving : {k : ℕ} (type : TokenType) → Moving k 0 (match {F = F} type)
  unfolding match
  match-Moving type =
      bind0 (Moving-asks _)
        (λ found. Moving-if found (bind0 step-Moving (λ _. Moving-done true)) (Moving-done false))

  record_error-Moving :
      {k : ℕ} (message : Message) (loc : SourceLocation)
      → Moving k 0 (record_error {F = F} message loc)
  unfolding record_error
  record_error-Moving message loc = record { moves = λ s hs. omega arith }

  pub consume-Moving :
      {k : ℕ} (type : TokenType) (message : Message) → Moving k 0 (consume {F = F} type message)
  unfolding consume
  consume-Moving type message = bind0 (Moving-asks _) (λ token.
      Moving-if (is_type token.type type) (bind0 step-Moving (λ _. Moving-done token))
        (bind0 (record_error-Moving message token.location) (λ _. Moving-done token)))

  consume-Within :
      (type : TokenType) (message : Message) (s : Parser F)
      → IsTaken type
      → check type s ≡ true
      → Within 1 (remaining s) (consume type message s)
  unfolding consume check step
  consume-Within type message s ht h = consumed (is_type (current s).type type) refl
    where
      consumed :
          (b : Bool)
          → is_type (current s).type type ≡ b
          → Within 1 (remaining s) (
              (if b
                  then step >> done (current s)
                  else record_error message (current s).location >> done (current s))
                s)
      consumed true e = step-Within s (check-Live type s ht e)
      consumed false e = cc (h, e)

  -- `try`: the tokens in front of what is caught are put back.
  pub attempt-Moving :
      {A : Type 0} {k d : ℕ} (m : Parsing F A) → Moving k d m → Moving k 0 (attempt m)
  unfolding attempt
  attempt-Moving {A} {k} {d} m hm = record { moves = λ s hs. caught_within s (m s) (hm.moves s hs) }
    where
      caught_within :
          (s : Parser F) (o : Outcome F A)
          → Within d (remaining s) o
          → Within 0 (remaining s) (caught s.pos o)
      caught_within s (returned a t) w = omega arith
      caught_within s (thrown x t) w = omega arith
      caught_within s out_of_fuel w = w

  pub split_if :
      {A : Type 0} (d n : ℕ) (b : Bool) (x y : Parsing F A) (s : Parser F)
      → (b ≡ true → Within d n (x s))
      → (b ≡ false → Within d n (y s))
      → Within d n ((if b then x else y) s)
  split_if d n true x y s hx hy = hx refl
  split_if d n false x y s hx hy = hy refl

  pub split_elim :
      {A : Type 0} (d n : ℕ) (b : Bool) (x y : Parsing F A) (s : Parser F)
      → (b ≡ true → Within d n (x s))
      → (b ≡ false → Within d n (y s))
      → Within d n ((elim b as (λ _. Parsing F A) [ true ↦ x | false ↦ y ]) s)
  split_elim d n true x y s hx hy = hx refl
  split_elim d n false x y s hx hy = hy refl

  -- `consume` of a token that was checked.
  pub consume1 :
      {B : Type 0} {k : ℕ} (type : TokenType) (message : Message) (f : Token F → Parsing F B)
      (s : Parser F)
      → IsTaken type
      → check type s ≡ true
      → remaining s < suc k
      → ((a : Token F) → Moving k 0 (f a))
      → Within 1 (remaining s) ((consume type message >>= f) s)
  consume1 type message f s ht h hs hf =
      Within-bind 1 1 (remaining s) (consume type message s) f (consume-Within type message s ht h)
        (λ a t e.
          Within-from 1 0 1 (remaining t) (remaining s) (f a t) (omega arith) (omega arith)
            ((hf a).moves t (omega arith)))

  -- `step` and `take` where a token is left.
  pub step1 :
      {B : Type 0} {k : ℕ} (f : Unit {0} → Parsing F B) (s : Parser F)
      → Live s
      → remaining s < suc k
      → ((a : Unit {0}) → Moving k 0 (f a))
      → Within 1 (remaining s) ((step >>= f) s)
  step1 f s h hs hf = Within-bind 1 1 (remaining s) (step s) f (step-Within s h) (λ a t e.
      Within-from 1 0 1 (remaining t) (remaining s) (f a t) (omega arith) (omega arith)
        ((hf a).moves t (omega arith)))

  pub take1 :
      {B : Type 0} {k : ℕ} (f : Token F → Parsing F B) (s : Parser F)
      → Live s
      → remaining s < suc k
      → ((a : Token F) → Moving k 0 (f a))
      → Within 1 (remaining s) ((take >>= f) s)
  take1 f s h hs hf = Within-bind 1 1 (remaining s) (take s) f (take-Within s h) (λ a t e.
      Within-from 1 0 1 (remaining t) (remaining s) (f a t) (omega arith) (omega arith)
        ((hf a).moves t (omega arith)))

  pub weaken-Within : {A : Type 0} (n : ℕ) (o : Outcome F A) → Within 1 n o → Within 0 n o
  weaken-Within n o w = Within-from 0 1 0 n n o (omega arith) (omega arith) w

pub &&-left : (a b : Bool) → (a && b) ≡ true → a ≡ true
&&-left true b h = refl
&&-left false b h = h
