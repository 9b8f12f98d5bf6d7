-- ===== src/Parser/Progress/Termination.antt =====
-- The rounds of `synchronize` and of `parse_module`.
use vexel_lang.Parser.Progress.{
  Moving, Moving-asks, Moving-done, Moving-if, Moving-throw, Within, Within-bind, Within-from,
  bind0, remaining,
}
use vexel_lang.Parser.Progress.Tokens.{Live, is_one_of-IsTaken, split_elim, step1, weaken-Within}
use vexel_lang.Parser.Progress.Loops.{Moving-zero, skip_semis-Moving}
use vexel_lang.Parser.Progress.Annotations.{Scanned, try_parse_annotation_block-Scanned}
use vexel_lang.Parser.Progress.Passing.{IsPlain, Passing, Within-Passing}
use vexel_lang.Parser.Progress.Types.{Progressing}
use vexel_lang.Parser.Progress.Modules.{grammar-Progressing, neither, top_level-Passing, ||-left}
use vexel_lang.Parser.{
  Outcome, Parser, Parsing, Position, check, current, done, end_token, head_or, no_fuel,
  out_of_fuel, peek, previous, returned, rewind, rounds, skip_semis, step, thrown, ◌>>=◌, ◌>>◌,
}
use vexel_lang.Parser.Kinds.{
  at_top_level, is_type, ordinal, starts_anywhere, starts_behind_semicolon,
  token_starts_annotation_target, token_starts_top_level,
}
use vexel_lang.Parser.Annotations.{
  parse_annotations_disambiguated, take_annotations, try_parse_annotation_block, type_at, type_of,
}
use vexel_lang.Parser.Grammar.{Parsers, stmts_of}
use vexel_lang.Parser.Modules.{
  add_error, at_sync_point, calm, finish, grammar, module_loop, parse_module, parse_top_level,
  pushed, recover, recovered, settle, sync_loop, synchronize, top_level_round,
}
use vexel_lang.Lexer.Token.{
  Token, ampersand, ampersand_bang, ampersand_caret, bit_xor, double_colon, end_of_file, hash,
  identifier, left_bracket, logical_not, semicolon,
}
use vexel_lang.Base.{
  Bool, List, Option, [], arith, false, if◌then◌else◌, inl, inr, length, none, not, refl, some, suc,
  true, zero, ℕ, ◌&&◌, ◌<◌, ◌||◌, ◌∷◌, ◌≡◌, ◌≤◌,
}
use vexel_lang.Error.{CompileError, Text, parse_failed}
use vexel_lang.Ast.{Annotation, Stmt}
use vexel_lang.Ast.Make.{annotate_stmt}

no_sync_point : (b x y : Bool) → x ≡ false → y ≡ false → (if b then x else y) ≡ false
no_sync_point true x y hx hy = hx
no_sync_point false x y hx hy = hy

module _ {F : Type 0} where
  sync_loop-Moving : (fuel : ℕ) → Moving fuel 0 (sync_loop {F = F} fuel)
  unfolding sync_loop check
  sync_loop-Moving zero = Moving-zero no_fuel
  sync_loop-Moving (suc fuel) = record {
    moves = λ s hs.
        split_elim 0 (remaining s) (check end_of_file s || at_sync_point s) (done tt)
          (step >> sync_loop fuel) s (λ y. omega arith)
          (λ n. weaken-Within (remaining s) _ (
            step1 (λ _. sync_loop fuel) s (||-left (check end_of_file s) (at_sync_point s) n) hs
              (λ _. sync_loop-Moving fuel)));
  }

  synchronize-Within : (s : Parser F) → Within 0 (remaining s) (synchronize s)
  unfolding synchronize
  synchronize-Within s = (sync_loop-Moving (rounds s)).moves (calm s) (omega arith)

  -- Behind an error at a token that starts nothing, that token is passed over.
  synchronize-IsPlain : (s : Parser F) → IsPlain s → Within 1 (remaining s) (synchronize s)
  unfolding synchronize sync_loop check current previous
  synchronize-IsPlain s (live, behind, anywhere) =
      split_elim 1 (remaining s) (check end_of_file s || at_sync_point s) (done tt)
        (step >> sync_loop (remaining s)) (calm s)
        (λ y. cc (
          y,
          neither live (
              no_sync_point (is_type (previous s).type semicolon)
                (starts_behind_semicolon (current s).type) (starts_anywhere (current s).type) behind
                anywhere),
        ))
        (λ n.
          step1 (λ _. sync_loop (remaining s)) (calm s) live (omega arith)
            (λ _. sync_loop-Moving (remaining s)))

  type-current : (s : Parser F) → (current s).type ≡ type_of s.pos.rest
  unfolding current
  type-current s = typed s.pos.rest
    where
      typed : (r : List (Token F)) → (head_or (end_token s) r).type ≡ type_of r
      typed [] = refl
      typed (t ∷ ts) = refl

  target-Live :
      (s : Parser F) (end : Position F)
      → token_starts_annotation_target (type_at end) at_top_level ≡ true
      → Live (record s { pos = end })
  unfolding token_starts_annotation_target token_starts_top_level type_at ordinal
  target-Live s end e = rw (type-current (record s { pos = end })) (
      is_one_of-IsTaken (type_of end.rest)
        (ampersand ∷ ampersand_bang ∷ ampersand_caret ∷ hash ∷ double_colon ∷ bit_xor ∷ logical_not
          ∷ identifier ∷ [])
        (refl, (refl, (refl, (refl, (refl, (refl, (refl, (refl, tt)))))))) e)

  -- Annotations leave a token that is not the last one.
  abbrev Leaves : ℕ → {A : Type 0} → Outcome F A → Type 0
  Leaves n (returned a t) = (remaining t ≤ n) × Live t
  Leaves n (thrown e t) = ⊥
  Leaves n out_of_fuel = ⊥

  annotations-Leaves :
      (s : Parser F)
      → Live s
      → Leaves (remaining s) (parse_annotations_disambiguated at_top_level s)
  unfolding parse_annotations_disambiguated
  annotations-Leaves s live =
      taken (check left_bracket s && is_type (peek 1 s).type left_bracket)
        (try_parse_annotation_block s.pos) (try_parse_annotation_block-Scanned s.pos)
    where
      accepted :
          (parsed : List Annotation) (end : Position F) (b : Bool)
          → token_starts_annotation_target (type_at end) at_top_level ≡ b
          → length end.rest ≤ remaining s
          → Leaves (remaining s) ((if b then rewind end >> done parsed else done []) s)
      accepted parsed end true e h = (h, target-Live s end e)
      accepted parsed end false e h = (omega arith, live)

      taken :
          (b : Bool) (o : Option (List Annotation × Position F))
          → Scanned s.pos o
          → Leaves (remaining s) (if b then take_annotations at_top_level o s else returned [] s)
      taken true none h = (omega arith, live)
      taken true (some (parsed, end)) h =
          accepted parsed end (token_starts_annotation_target (type_at end) at_top_level) refl h
      taken false o h = (omega arith, live)

  module _ {k : ℕ} (p : Parsers F) (h : Progressing k p) where
    behind_top-Moving :
        (annotations : List Annotation) (top : Stmt F)
        → Moving {F = F} k 0 (skip_semis >> done (annotate_stmt annotations top))
    behind_top-Moving annotations top =
        bind0 skip_semis-Moving (λ _. Moving-done (annotate_stmt annotations top))

    Passing-bind :
        {A B : Type 0} (n : ℕ) (o : Outcome F A) (f : A → Parsing F B)
        → Passing n o
        → n < suc k
        → ((a : A) → Moving k 0 (f a))
        → Passing n
            (elim o [ returned a t ↦ f a t | thrown e t ↦ thrown e t | out_of_fuel ↦ out_of_fuel ])
    Passing-bind n (returned a t) f w hn hf =
        Within-Passing (remaining t) n (f a t) w ((hf a).moves t (omega arith))
    Passing-bind n (thrown e t) f w hn hf = w
    Passing-bind n out_of_fuel f w hn hf = w

    Passing-from : {A : Type 0} (m n : ℕ) (o : Outcome F A) → m ≤ n → Passing m o → Passing n o
    Passing-from m n (returned a t) hm w = omega arith
    Passing-from m n (thrown e t) hm (inl w) = inl (omega arith)
    Passing-from m n (thrown e t) hm (inr (w, plain)) = inr (omega arith, plain)
    Passing-from m n out_of_fuel hm w = w

    round-Passing :
        (s : Parser F) → Live s → remaining s < suc k → Passing (remaining s) (top_level_round p s)
    unfolding top_level_round
    round-Passing s live hs =
        behind_annotations (parse_annotations_disambiguated at_top_level s)
          (annotations-Leaves s live)
      where
        behind_annotations :
            (o : Outcome F (List Annotation))
            → Leaves (remaining s) o
            → Passing (remaining s) (elim o [
              | returned annotations t ↦
                  (parse_top_level p >>= λ top. skip_semis >> done (annotate_stmt annotations top))
                    t
              | thrown e t ↦ thrown e t
              | out_of_fuel ↦ out_of_fuel
            ])
        behind_annotations (returned annotations t) (ht, live_t) =
            Passing-from (remaining t) (remaining s) _ ht (
              Passing-bind (remaining t) (parse_top_level p t)
                (λ top. skip_semis >> done (annotate_stmt annotations top))
                (top_level-Passing p h t live_t (omega arith)) (omega arith)
                (behind_top-Moving annotations))
        behind_annotations (thrown e t) w = absurd w
        behind_annotations out_of_fuel w = absurd w

    recovered-Within : (n : ℕ) (o : Outcome F (Stmt F)) → Passing n o → Within 1 n (recovered o)
    unfolding current
    recovered-Within n (returned a t) w = w
    recovered-Within n (thrown e t) (inl w) =
        Within-bind 1 1 n (synchronize (add_error e t)) (λ _. done none)
          (Within-from 1 0 1 (remaining t) n _ (omega arith) (omega arith)
            (synchronize-Within (add_error e t)))
          (λ a u hu. hu)
    recovered-Within n (thrown e t) (inr (w, plain)) =
        Within-bind 1 1 n (synchronize (add_error e t)) (λ _. done none)
          (Within-from 0 1 1 (remaining t) n _ (omega arith) (omega arith)
            (synchronize-IsPlain (add_error e t) plain))
          (λ a u hu. hu)
    recovered-Within n out_of_fuel w = w

    recover-Within :
        (s : Parser F)
        → Live s
        → remaining s < suc k
        → Within 1 (remaining s) (recover (top_level_round p) s)
    unfolding recover
    recover-Within s live hs =
        recovered-Within (remaining s) (top_level_round p s) (round-Passing s live hs)

    settle-Moving : {j : ℕ} → Moving {F = F} j 0 settle
    settle-Moving = bind0 skip_semis-Moving (λ _.
        bind0 (Moving-asks (λ s. s.panic_mode && not (check end_of_file s))) (λ panicked.
          Moving-if panicked (record { moves = λ s hs. synchronize-Within s }) (Moving-done tt)))

    module_loop-Moving : (fuel : ℕ) → fuel ≤ k → Moving fuel 0 (module_loop p fuel)
    unfolding module_loop check
    module_loop-Moving zero hk = Moving-zero no_fuel
    module_loop-Moving (suc fuel) hk = bind0 settle-Moving (λ _. record {
      moves = λ s hs.
          split_elim 0 (remaining s) (check end_of_file s) (done [])
            (recover (top_level_round p) >>= λ top.
              module_loop p fuel >>= λ tops. done (pushed top tops))
            s (λ y. omega arith)
            (λ live.
              Within-bind 1 0 (remaining s) (recover (top_level_round p) s) _
                (recover-Within s live (omega arith))
                (λ top t ht.
                  Within-from 0 0 0 (remaining t) (remaining s) _ (omega arith) (omega arith) (
                    (bind0 (module_loop-Moving fuel (omega arith))
                        (λ tops. Moving-done (pushed top tops))).moves
                      t (omega arith))));
    })

  finish-Moving :
      {j : ℕ} (name path : Text) (tops : List (Stmt F)) (errors : List CompileError)
      → Moving j 0 (finish name path tops errors)
  finish-Moving name path tops [] =
      Moving-done (record { name = name; path = path; top_level = stmts_of tops })
  finish-Moving name path tops (e ∷ es) = Moving-throw (parse_failed (length (e ∷ es))) e.location

  -- `parse_module` returns or throws, whatever the tokens are, and takes tokens from the front only.
  pub parse_module-ends :
      (name path : Text) (s : Parser F) → Within 0 (remaining s) (parse_module name path s)
  unfolding parse_module
  parse_module-ends name path s =
      (bind0
          (module_loop-Moving (grammar (rounds s)) (grammar-Progressing (rounds s)) (rounds s)
            (omega arith))
          (λ tops. bind0 (Moving-asks (λ t. t.errors)) (finish-Moving name path tops))).moves
        s (omega arith)
