-- ===== src/Parser/Verdict.antt =====
-- What `parse_module` returns and throws.
use vexel_lang.Parser.Progress.{Within, remaining}
use vexel_lang.Parser.Progress.Termination.{parse_module-ends}
use vexel_lang.Parser.{
  Outcome, Parser, Parsing, check, done, match, next, out_of_fuel, returned, rounds, skip_loop,
  skip_semis, step, thrown, ◌>>=◌, ◌>>◌,
}
use vexel_lang.Parser.Grammar.{Parsers}
use vexel_lang.Parser.Modules.{
  add_error, at_sync_point, calm, finish, grammar, module_loop, parse_module, pushed, recover,
  recovered, settle, sync_loop, synchronize, top_level_round,
}
use vexel_lang.Lexer.Token.{TokenType, end_of_file, semicolon}
use vexel_lang.Base.{
  Bool, List, [], false, if◌then◌else◌, length, none, not, refl, suc, true, zero, ℕ, ◌&&◌, ◌||◌,
  ◌∷◌, ◌≡◌,
}
use vexel_lang.Error.{CompileError, Text, parse_failed}
use vexel_lang.Ast.{Stmt}

module _ {F : Type 0} where
  -- A method that does not throw, and the states that it returns.
  abbrev Returning : {A : Type 0} → (Parser F → Type 0) → Outcome F A → Type 0
  Returning P (returned a t) = P t
  Returning P (thrown e t) = ⊥
  Returning P out_of_fuel = Unit

  abbrev Anything : Parser F → Type 0
  Anything t = Unit

  Returning-bind :
      {A B : Type 0} (P Q : Parser F → Type 0) (o : Outcome F A) (f : A → Parsing F B)
      → Returning P o
      → ((a : A) (t : Parser F) → P t → Returning Q (f a t))
      → Returning Q
          (elim o [ returned a t ↦ f a t | thrown e t ↦ thrown e t | out_of_fuel ↦ out_of_fuel ])
  Returning-bind P Q (returned a t) f w hf = hf a t w
  Returning-bind P Q (thrown e t) f w hf = absurd w
  Returning-bind P Q out_of_fuel f w hf = tt

  Returning-elim :
      {A : Type 0} (Q : Parser F → Type 0) (b : Bool) (x y : Parsing F A) (s : Parser F)
      → (b ≡ true → Returning Q (x s))
      → (b ≡ false → Returning Q (y s))
      → Returning Q ((elim b as (λ _. Parsing F A) [ true ↦ x | false ↦ y ]) s)
  Returning-elim Q true x y s hx hy = hx refl
  Returning-elim Q false x y s hx hy = hy refl

  abbrev pub IsSynced : Parser F → Type 0
  IsSynced t = ((check end_of_file t || at_sync_point t) ≡ true) × (t.panic_mode ≡ false)

  sync_loop-IsSynced :
      (fuel : ℕ) (s : Parser F) → s.panic_mode ≡ false → Returning IsSynced (sync_loop fuel s)
  unfolding sync_loop step
  sync_loop-IsSynced zero s h = tt
  sync_loop-IsSynced (suc fuel) s h =
      Returning-elim IsSynced (check end_of_file s || at_sync_point s) (done tt)
        (step >> sync_loop fuel) s (λ y. (y, h))
        (λ n. sync_loop-IsSynced fuel (record s { pos = next s.pos }) h)

  synchronize-Returning : (s : Parser F) → Returning IsSynced (synchronize s)
  unfolding synchronize
  synchronize-Returning s = sync_loop-IsSynced (rounds s) (calm s) refl

  skip_loop-Returning :
      (type : TokenType) (fuel : ℕ) (s : Parser F) → Returning Anything (skip_loop type fuel s)
  unfolding skip_loop match step
  skip_loop-Returning type zero s = tt
  skip_loop-Returning type (suc fuel) s =
      matched (check type s) (λ t. skip_loop-Returning type fuel t)
    where
      matched :
          (b : Bool)
          → ((t : Parser F) → Returning Anything (skip_loop type fuel t))
          → Returning Anything (
              ((if b then step >> done true else done false) >>= λ found. elim found [
                | true ↦ skip_loop type fuel
                | false ↦ done tt
              ])
                s)
      matched true loops = loops (record s { pos = next s.pos })
      matched false loops = tt

  settle-Returning : (s : Parser F) → Returning Anything (settle s)
  unfolding skip_semis
  settle-Returning s =
      Returning-bind Anything Anything (skip_semis s) _ (skip_loop-Returning semicolon (rounds s) s)
        (λ a t h. panicked (t.panic_mode && not (check end_of_file t)) t)
    where
      forget : (o : Outcome F (Unit {0})) → Returning IsSynced o → Returning Anything o
      forget (returned a t) w = tt
      forget (thrown e t) w = w
      forget out_of_fuel w = tt

      panicked :
          (b : Bool) (t : Parser F) → Returning Anything ((if b then synchronize else done tt) t)
      panicked true t = forget (synchronize t) (synchronize-Returning t)
      panicked false t = tt

  recovered-Returning : {A : Type 0} (o : Outcome F A) → Returning Anything (recovered o)
  recovered-Returning (returned a t) = tt
  recovered-Returning (thrown e t) =
      Returning-bind IsSynced Anything (synchronize (add_error e t)) (λ _. done none)
        (synchronize-Returning (add_error e t)) (λ a u h. tt)
  recovered-Returning out_of_fuel = tt

  abbrev pub IsAtEnd : Parser F → Type 0
  IsAtEnd t = check end_of_file t ≡ true

  module_loop-IsAtEnd :
      (p : Parsers F) (fuel : ℕ) (s : Parser F) → Returning IsAtEnd (module_loop p fuel s)
  unfolding module_loop recover
  module_loop-IsAtEnd p zero s = tt
  module_loop-IsAtEnd p (suc fuel) s =
      Returning-bind Anything IsAtEnd (settle s) _ (settle-Returning s) (λ a t h.
        Returning-elim IsAtEnd (check end_of_file t) (done [])
          (recover (top_level_round p) >>= λ top.
            module_loop p fuel >>= λ tops. done (pushed top tops))
          t (λ y. y)
          (λ n.
            Returning-bind Anything IsAtEnd (recover (top_level_round p) t) _
              (recovered-Returning (top_level_round p t))
              (λ top u hu.
                Returning-bind IsAtEnd IsAtEnd (module_loop p fuel u) _
                  (module_loop-IsAtEnd p fuel u) (λ tops v hv. hv))))

  -- A module is returned behind the last token and without an error; what is thrown is the number of
  -- the errors at the place of the first.
  abbrev Judged : {A : Type 0} → Type 0 → Outcome F A → Type 0
  Judged endless (returned m t) = (t.errors ≡ []) × IsAtEnd t
  Judged endless (thrown e t) =
      (first : CompileError) × (others : List CompileError) × (t.errors ≡ first ∷ others)
      × (e ≡ record { message = parse_failed (length (first ∷ others)); location = first.location })
  Judged endless out_of_fuel = endless

  abbrev pub Verdict : {A : Type 0} → Outcome F A → Type 0
  Verdict = Judged ⊥

  finish-Judged :
      (name path : Text) (tops : List (Stmt F)) (t : Parser F) (errors : List CompileError)
      → IsAtEnd t
      → t.errors ≡ errors
      → Judged Unit (finish name path tops errors t)
  finish-Judged name path tops t [] at_end h = (h, at_end)
  finish-Judged name path tops t (e ∷ es) at_end h = (e, es, h, refl)

  parse_module-Judged : (name path : Text) (s : Parser F) → Judged Unit (parse_module name path s)
  unfolding parse_module
  parse_module-Judged name path s =
      judged (module_loop (grammar (rounds s)) (rounds s) s)
        (module_loop-IsAtEnd (grammar (rounds s)) (rounds s) s)
    where
      judged :
          (o : Outcome F (List (Stmt F)))
          → Returning IsAtEnd o
          → Judged Unit (elim o [
            | returned tops t ↦ finish name path tops t.errors t
            | thrown e t ↦ thrown e t
            | out_of_fuel ↦ out_of_fuel
          ])
      judged (returned tops t) h = finish-Judged name path tops t t.errors h refl
      judged (thrown e t) h = absurd h
      judged out_of_fuel h = tt

  ended : {A : Type 0} (n : ℕ) (o : Outcome F A) → Within 0 n o → Judged Unit o → Verdict o
  ended n (returned m t) w v = v
  ended n (thrown e t) w v = v
  ended n out_of_fuel w v = w

  -- `parse_module` does not run out of fuel. Where it returns a module, no error was recorded and the parser
  -- stands at an EndOfFile token; where it throws, errors were recorded, and what is thrown has their number
  -- and the place of the first.
  pub parse_module-Verdict : (name path : Text) (s : Parser F) → Verdict (parse_module name path s)
  parse_module-Verdict name path s =
      ended (remaining s) (parse_module name path s) (parse_module-ends name path s)
        (parse_module-Judged name path s)
