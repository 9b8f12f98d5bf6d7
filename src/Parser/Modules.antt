-- ===== src/Parser/Modules.antt =====
-- frontend/src/parse/parser.cpp: the knot of the grammar, and `parse_module`, which goes on behind errors.
use vexel_lang.Parser.{
  Outcome, Parser, Parsing, asks, check, current, done, no_fuel, out_of_fuel, previous, returned,
  rounds, skip_semis, step, throw_at, thrown, ◌>>=◌, ◌>>◌,
}
use vexel_lang.Parser.Kinds.{
  at_top_level, is_one_of, is_type, starts_anywhere, starts_behind_semicolon,
}
use vexel_lang.Parser.Annotations.{parse_annotations_disambiguated}
use vexel_lang.Parser.Grammar.{Parsers, stmts_of}
use vexel_lang.Parser.Operators.{parse_assignment, parse_conditional, parse_expr}
use vexel_lang.Parser.Unary.{parse_unary}
use vexel_lang.Parser.Variables.{parse_var_decl}
use vexel_lang.Parser.Declarations.{parse_func_decl, parse_import, parse_type_decl}
use vexel_lang.Parser.Statements.{parse_stmt}
use vexel_lang.Lexer.Token.{
  TokenType, ampersand, ampersand_bang, ampersand_caret, double_colon, end_of_file, hash, semicolon,
}
use vexel_lang.Base.{
  Bool, List, Option, [], false, if◌then◌else◌, length, none, not, some, suc, true, zero, ℕ, ◌&&◌,
  ◌++◌, ◌||◌, ◌∷◌,
}
use vexel_lang.Error.{CompileError, Text, parse_failed}
use vexel_lang.Ast.{Module, Stmt}
use vexel_lang.Ast.Make.{annotate_stmt}

module _ {F : Type 0} where
  abbrev no_parsers : Parsers F
  no_parsers = record {
    expr = no_fuel;
    assignment = no_fuel;
    conditional = no_fuel;
    unary = no_fuel;
    stmt = no_fuel;
  }

  -- The methods, where the calls behind a token go to `p`.
  abbrev one_deeper : Parsers F → Parsers F
  one_deeper p = record {
    expr = parse_expr p (parse_unary p);
    assignment = parse_assignment p (parse_unary p);
    conditional = parse_conditional p (parse_unary p);
    unary = parse_unary p;
    stmt = parse_stmt p;
  }

  -- With fuel for the depth of these calls.
  unfoldable pub grammar : ℕ → Parsers F
  grammar zero = no_parsers
  grammar (suc fuel) = one_deeper (grammar fuel)

  abbrev pub at_sync_point : Parser F → Bool
  at_sync_point s =
      if is_type (previous s).type semicolon
      then starts_behind_semicolon (current s).type
      else starts_anywhere (current s).type

  unfoldable pub sync_loop : ℕ → Parsing F (Unit {0})
  sync_loop zero = no_fuel
  sync_loop (suc fuel) = do
    stops ← asks (λ s. check end_of_file s || at_sync_point s)
    elim stops [ true ↦ done tt | false ↦ do step; sync_loop fuel ]

  abbrev pub calm : Parser F → Parser F
  calm s = record s { panic_mode = false }

  unfoldable pub synchronize : Parsing F (Unit {0})
  synchronize s = sync_loop (rounds s) (calm s)

  -- The case of `parse_top_level`.
  unfoldable pub top_level_case : Parsers F → TokenType → Parsing F (Stmt F)
  top_level_case p type =
      if is_one_of type (ampersand ∷ ampersand_bang ∷ ampersand_caret ∷ [])
      then parse_func_decl p
      else if is_type type hash
      then parse_type_decl p
      else if is_type type double_colon
      then parse_import
      else parse_var_decl p false

  unfoldable pub parse_top_level : Parsers F → Parsing F (Stmt F)
  parse_top_level p = do tok ← asks current; top_level_case p tok.type

  -- The body of the `try`.
  unfoldable pub top_level_round : Parsers F → Parsing F (Stmt F)
  top_level_round p = do
    annotations ← parse_annotations_disambiguated at_top_level
    top ← parse_top_level p
    skip_semis
    done (annotate_stmt annotations top)

  abbrev pub add_error : CompileError → Parser F → Parser F
  add_error e s = record s { errors = s.errors ++ e ∷ [] }

  -- The `catch`: the error is kept, and the parser goes on behind it.
  abbrev pub recovered : {A : Type 0} → Outcome F A → Outcome F (Option A)
  recovered (returned a t) = returned (some a) t
  recovered (thrown e t) = (synchronize >> done none) (add_error e t)
  recovered out_of_fuel = out_of_fuel

  unfoldable pub recover : {A : Type 0} → Parsing F A → Parsing F (Option A)
  recover m s = recovered (m s)

  abbrev pub pushed : Option (Stmt F) → List (Stmt F) → List (Stmt F)
  pushed none stmts = stmts
  pushed (some s) stmts = s ∷ stmts

  abbrev pub settle : Parsing F (Unit {0})
  settle = do
    skip_semis
    panicked ← asks (λ s. s.panic_mode && not (check end_of_file s))
    if panicked then synchronize else done tt

  unfoldable pub module_loop : Parsers F → ℕ → Parsing F (List (Stmt F))
  module_loop p zero = no_fuel
  module_loop p (suc fuel) = do
    settle
    ended ← asks (check end_of_file)
    elim ended [
      | true ↦ done []
      | false ↦ do
        top ← recover (top_level_round p)
        tops ← module_loop p fuel
        done (pushed top tops)
    ]

  -- The errors of the state, or the module.
  abbrev pub finish : Text → Text → List (Stmt F) → List CompileError → Parsing F (Module F)
  finish name path tops [] = done (record { name = name; path = path; top_level = stmts_of tops })
  finish name path tops (e ∷ es) = throw_at (parse_failed (length (e ∷ es))) e.location

  unfoldable pub parse_module : Text → Text → Parsing F (Module F)
  parse_module name path s =
      (do
        tops ← module_loop (grammar (rounds s)) (rounds s)
        errors ← asks (λ t. t.errors)
        finish name path tops errors)
        s
