-- ===== src/Parser/Folds.antt =====
-- A level of binary operators against what it is to read: operands, and the operators between them.
use vexel_lang.Parser.Returns.{bind_inv, bind_returned, returned-Within}
use vexel_lang.Parser.Progress.{Moving, Moving-asks, Moving-done, Moving-if, bind0, remaining}
use vexel_lang.Parser.Progress.Loops.{Moving-at}
use vexel_lang.Parser.Progress.Levels.{match_operator-Moving}
use vexel_lang.Parser.{Parser, Parsing, asks, done, returned, rounds, ◌>>=◌}
use vexel_lang.Parser.Operators.{binary_level, binary_loop, binary_round, match_operator}
use vexel_lang.Lexer.Token.{TokenType}
use vexel_lang.Base.{
  ap, sym, ◌↔◌, Bool, List, Option, [], arith, if◌then◌else◌, none, some, suc, zero, ℕ, ◌<◌, ◌∷◌,
  ◌≡◌, ◌∙◌,
}
use vexel_lang.Error.{Text}
use vexel_lang.Ast.{Expr}
use vexel_lang.Ast.Make.{expr_location, make_binary}

module _ {F : Type 0} where
  -- `first op1 e1 op2 e2 ...`, from the left.
  abbrev pub fold_left : Expr F → List (Text × Expr F) → Expr F
  fold_left left [] = left
  fold_left left ((op, right) ∷ pairs) =
      fold_left (make_binary op left right (expr_location left)) pairs

  -- The operator that the level takes from a state, if there is one.
  abbrev pub next_operator : (Parser F → Bool) → List TokenType → Parsing F (Option Text)
  next_operator stop types = do
    stopped ← asks stop
    if stopped then done none else match_operator types

  module _ (stop : Parser F → Bool) (types : List TokenType) (operand : Parsing F (Expr F)) where
    -- From `s` to `u` there are these operators, each with its operand behind it, and then none.
    abbrev pub Operands : Parser F → List (Text × Expr F) → Parser F → Type 0
    Operands s [] u = next_operator stop types s ≡ returned none u
    Operands s ((op, right) ∷ pairs) u =
        (t v : Parser F) × (next_operator stop types s ≡ returned (some op) t)
        × (operand t ≡ returned right v)
        × Operands v pairs u

    -- An operand, and those behind it.
    abbrev pub Folds : Parser F → Expr F → Parser F → Type 0
    Folds s e u =
        (first : Expr F) × (t : Parser F) × (pairs : List (Text × Expr F)) × (operand s
          ≡ returned first t)
        × Operands t pairs u
        × (e ≡ fold_left first pairs)

    next_operator-Moving : {k : ℕ} → Moving k 0 (next_operator stop types)
    next_operator-Moving =
        bind0 (Moving-asks stop)
          (λ stopped. Moving-if stopped (Moving-done none) (match_operator-Moving types))

    folds_from :
        (fuel : ℕ) (left : Expr F) (s : Parser F) (e : Expr F) (u : Parser F)
        → binary_loop stop types operand fuel left s ≡ returned e u
        → (pairs : List (Text × Expr F)) × Operands s pairs u × (e ≡ fold_left left pairs)
    unfolding binary_loop
    folds_from zero left s e u h = cc h
    folds_from (suc fuel) left s e u h =
        let (op, t, found, rest) =
          bind_inv (next_operator stop types)
            (binary_round operand (binary_loop stop types operand fuel) left) s h in
        by_operator op t found rest (folds_from fuel)
      where
        by_operator :
            (op : Option Text) (t : Parser F)
            → next_operator stop types s ≡ returned op t
            → binary_round operand (binary_loop stop types operand fuel) left op t ≡ returned e u
            → ((left : Expr F) (s : Parser F) (e : Expr F) (u : Parser F)
                → binary_loop stop types operand fuel left s ≡ returned e u
                → (pairs : List (Text × Expr F)) × Operands s pairs u × (e ≡ fold_left left pairs))
            → (pairs : List (Text × Expr F)) × Operands s pairs u × (e ≡ fold_left left pairs)
        by_operator none t found h ih = ([], cc (found, h), cc h)
        by_operator (some op) t found h ih =
            let (right, v, read, rest) =
              bind_inv operand
                (λ right.
                  binary_loop stop types operand fuel
                    (make_binary op left right (expr_location left)))
                t h in
            let (pairs, chain, folded) =
              ih (make_binary op left right (expr_location left)) v e u rest in
            ((op, right) ∷ pairs, (t, v, found, read, chain), folded)

    loop_reads :
        (fuel : ℕ) (left : Expr F) (pairs : List (Text × Expr F)) (s u : Parser F)
        → Moving fuel 1 operand
        → remaining s < fuel
        → Operands s pairs u
        → binary_loop stop types operand fuel left s ≡ returned (fold_left left pairs) u
    unfolding binary_loop
    loop_reads zero left pairs s u ho hs c = absurd (omega (arith, hs))
    loop_reads (suc fuel) left [] s u ho hs c =
        bind_returned (next_operator stop types)
          (binary_round operand (binary_loop stop types operand fuel) left) s c
    loop_reads (suc fuel) left ((op, right) ∷ pairs) s u ho hs (t, v, found, read, c) =
        let ht =
          returned-Within 0 (remaining s) (next_operator stop types s) found
            ((next_operator-Moving {k = suc fuel}).moves s hs) in
        let hv = returned-Within 1 (remaining t) (operand t) read (ho.moves t (omega arith)) in
        bind_returned (next_operator stop types)
          (binary_round operand (binary_loop stop types operand fuel) left) s found
        ∙ bind_returned operand
            (λ right.
              binary_loop stop types operand fuel (make_binary op left right (expr_location left)))
            t read
        ∙ loop_reads fuel (make_binary op left right (expr_location left)) pairs v u
            (Moving-at operand (omega arith) ho) (omega arith) c

    -- Where the operand takes a token or more, a level of binary operators returns an expression just where
    -- the tokens are operands with the level's operators between them and none behind them, and the
    -- expression is these, associated to the left.
    pub binary_level-Folds :
        (k : ℕ) (s u : Parser F) (e : Expr F)
        → Moving k 1 operand
        → remaining s < k
        → (binary_level stop types operand s ≡ returned e u) ↔ Folds s e u
    unfolding binary_level
    binary_level-Folds k s u e ho hs = (
      λ h.
          let (first, t, read, rest) = bind_inv operand loops s h in
          let (pairs, c, folded) = folds_from (rounds t) first t e u rest in
          (first, t, pairs, read, c, folded),
      λ folds.
          let (first, t, pairs, read, c, folded) = folds in
          let ht = returned-Within 1 (remaining s) (operand s) read (ho.moves s hs) in
          bind_returned operand loops s read
          ∙ loop_reads (rounds t) first pairs t u (Moving-at operand (omega arith) ho) (omega arith)
              c
          ∙ ap (λ (x : Expr F). returned x u) (sym folded),
    )
      where
        loops : Expr F → Parsing F (Expr F)
        loops left t = binary_loop stop types operand (rounds t) left t
