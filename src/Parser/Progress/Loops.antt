-- ===== src/Parser/Progress/Loops.antt =====
-- The rounds of the loops of the parser, and what looks ahead.
use vexel_lang.Parser.Progress.{
  Moving, Moving-done, Within, Within-bind, Within-from, bind0, by_bool, remaining,
}
use vexel_lang.Parser.Progress.Tokens.{IsTaken, match-Moving, match0}
use vexel_lang.Parser.{
  Outcome, Parser, Parsing, found_or, no_fuel, or_rewind, out_of_fuel, returned, rounds, separated,
  separated_loop, skip_loop, skip_semis, thrown,
}
use vexel_lang.Parser.Kinds.{ordinal}
use vexel_lang.Lexer.Token.{TokenType, semicolon}
use vexel_lang.Base.{Option, [], arith, none, refl, some, suc, zero, ℕ, ◌+◌, ◌<◌, ◌∷◌, ◌≤◌}

module _ {F : Type 0} where
  -- What `m` does from `s`, where it finds something or throws.
  abbrev pub Found : {A : Type 0} → ℕ → ℕ → Outcome F (Option A) → Type 0
  Found d n (returned none t) = Unit
  Found d n (returned (some a) t) = d + remaining t ≤ n
  Found d n (thrown e t) = remaining t ≤ n
  Found d n out_of_fuel = ⊥

  pub Within-Found : {A : Type 0} (d n : ℕ) (o : Outcome F (Option A)) → Within d n o → Found d n o
  Within-Found d n (returned none t) w = tt
  Within-Found d n (returned (some a) t) w = w
  Within-Found d n (thrown e t) w = w
  Within-Found d n out_of_fuel w = w

  pub or_rewind-Within :
      {A : Type 0} {k : ℕ} (d : ℕ) (m : Parsing F (Option A)) (otherwise : Parsing F A)
      (s : Parser F)
      → remaining s < k
      → Found d (remaining s) (m s)
      → Moving k d otherwise
      → Within d (remaining s) (or_rewind m otherwise s)
  unfolding or_rewind
  or_rewind-Within {A} {k} d m otherwise s hs hm ho = found_within (m s) hm
    where
      found_within :
          (o : Outcome F (Option A))
          → Found d (remaining s) o
          → Within d (remaining s) (elim o [
            | returned a t ↦ found_or s.pos otherwise a t
            | thrown x t ↦ thrown x t
            | out_of_fuel ↦ out_of_fuel
          ])
      found_within (returned none t) w = ho.moves (record t { pos = s.pos }) hs
      found_within (returned (some a) t) w = w
      found_within (thrown x t) w = w
      found_within out_of_fuel w = w

  pub or_rewind-Moving :
      {A : Type 0} {k d : ℕ} (m : Parsing F (Option A)) (otherwise : Parsing F A)
      → Moving k d m
      → Moving k d otherwise
      → Moving k d (or_rewind m otherwise)
  or_rewind-Moving {d = d} m otherwise hm ho = record {
    moves = λ s hs.
        or_rewind-Within d m otherwise s hs (Within-Found d (remaining s) (m s) (hm.moves s hs)) ho;
  }

  -- A loop with fuel for the tokens that are left.
  pub Moving-rounds :
      {A : Type 0} {k d : ℕ} (loop : ℕ → Parsing F A)
      → ((fuel : ℕ) → fuel ≤ k → Moving fuel d (loop fuel))
      → Moving k d (λ s. loop (rounds s) s)
  Moving-rounds loop h = record {
    moves = λ s hs. (h (rounds s) (omega arith)).moves s (omega arith);
  }

  pub Moving-zero : {A : Type 0} {d : ℕ} (m : Parsing F A) → Moving 0 d m
  Moving-zero m = record { moves = λ s hs. absurd (omega (arith, hs)) }

  pub Moving-at : {A : Type 0} {j k d : ℕ} (m : Parsing F A) → j ≤ k → Moving k d m → Moving j d m
  Moving-at m h hm = record { moves = λ s hs. hm.moves s (omega arith) }

  skip_loop-Moving :
      (type : TokenType) → IsTaken type → (fuel : ℕ) → Moving fuel 0 (skip_loop {F = F} type fuel)
  unfolding skip_loop
  skip_loop-Moving type ht zero = Moving-zero no_fuel
  skip_loop-Moving type ht (suc fuel) =
      match0 type _ ht (skip_loop-Moving type ht fuel) (Moving-done tt)

  pub skip_semis-Moving : {k : ℕ} → Moving k 0 (skip_semis {F = F})
  unfolding skip_semis ordinal
  skip_semis-Moving =
      Moving-rounds (skip_loop semicolon) (λ fuel h. skip_loop-Moving semicolon refl fuel)

  separated_loop-Moving :
      {A : Type 0} {k : ℕ} (type : TokenType) (item : Parsing F A)
      → IsTaken type
      → Moving k 0 item
      → (fuel : ℕ) → fuel ≤ k
      → Moving fuel 0 (separated_loop type fuel item)
  unfolding separated_loop
  separated_loop-Moving type item ht hi zero h = Moving-zero no_fuel
  separated_loop-Moving {A} {k} type item ht hi (suc fuel) h = bind0 (Moving-at item h hi) (λ a.
      match0 type _ ht
        (bind0 (separated_loop-Moving type item ht hi fuel (omega arith))
          (λ items. Moving-done (a ∷ items)))
        (Moving-done (a ∷ [])))

  pub separated-Moving :
      {A : Type 0} {k : ℕ} (type : TokenType) (item : Parsing F A)
      → IsTaken type
      → Moving k 0 item
      → Moving k 0 (separated type item)
  unfolding separated
  separated-Moving type item ht hi =
      Moving-rounds (λ fuel. separated_loop type fuel item) (separated_loop-Moving type item ht hi)

  -- The items take a token where the first does.
  pub separated-Within :
      {A : Type 0} {k : ℕ} (type : TokenType) (item : Parsing F A) (s : Parser F)
      → IsTaken type
      → remaining s < suc k
      → Within 1 (remaining s) (item s)
      → Moving k 0 item
      → Within 1 (remaining s) (separated type item s)
  unfolding separated separated_loop
  separated-Within {k = k} type item s ht hs hi hm =
      Within-bind 1 1 (remaining s) (item s) _ hi (λ a t h.
        Within-from 1 0 1 (remaining t) (remaining s) _ (omega arith) (omega arith) (
          (bind0 (match-Moving type) (
              by_bool _
                (bind0 (separated_loop-Moving type item ht hm (remaining s) (omega arith))
                  (λ items. Moving-done (a ∷ items)))
                (Moving-done (a ∷ [])))).moves
            t (omega arith)))
