-- ===== src/Parser/Progress/Variables.antt =====
-- The tokens that declarations of variables take.
use vexel_lang.Parser.Progress.{
  Moving, Moving-done, Moving-if, Moving-throw, Moving-weaken, Within, bind0, remaining,
}
use vexel_lang.Parser.Progress.Tokens.{consume-Moving, match-Moving}
use vexel_lang.Parser.Progress.Types.{Progressing, optional_type-Moving}
use vexel_lang.Parser.{Outcome, Parser, Parsing, out_of_fuel, returned, thrown}
use vexel_lang.Parser.Grammar.{Parsers}
use vexel_lang.Parser.Variables.{
  declared, double_bang, enter_boundary, initializer, is_normal, is_null_expr, is_null_type,
  leave_boundary, named_decl, var_decl_rest, var_linkage, with_boundary,
}
use vexel_lang.Lexer.Token.{assign, identifier, logical_not}
use vexel_lang.Base.{Bool, Option, false, not, some, true, ℕ, ◌&&◌, ◌+◌, ◌<◌, ◌||◌}
use vexel_lang.Error.{
  SourceLocation, Text, expected_variable_name, exported_and_external, external_with_initializer,
  external_without_type, global_without_type, local_external_declaration,
}
use vexel_lang.Ast.{
  AstType, Expr, VarLinkageKind, backend_bound, external_symbol, no_expr, normal, var_decl,
}
use vexel_lang.Ast.Make.{stmt_at}

module _ {F : Type 0} where
  module _ {k : ℕ} (p : Parsers F) (h : Progressing k p) where
    pub double_bang-Moving :
        {j : ℕ} (b : Bool) (loc : SourceLocation) → Moving j 0 (double_bang p b loc)
    double_bang-Moving b loc = bind0 (match-Moving logical_not) (λ double.
        Moving-if double (Moving-done backend_bound)
          (Moving-if b (Moving-throw local_external_declaration loc) (Moving-done external_symbol)))

    pub linkage-Moving :
        {j : ℕ} (b : Bool) (loc : SourceLocation) → Moving j 0 (var_linkage p b loc)
    linkage-Moving b loc =
        bind0 (match-Moving logical_not)
          (λ bang. Moving-if bang (double_bang-Moving b loc) (Moving-done normal))

    pub boundary-Moving :
        {A : Type 0} {j d : ℕ} (enable : Bool) (m : Parsing F A)
        → Moving j d m
        → Moving j d (with_boundary p enable m)
    unfolding with_boundary
    boundary-Moving {A} {j} {d} enable m hm = record {
      moves = λ s hs.
          left (remaining s) s.split_top_level_plain_ampersand_funcs
            s.top_level_init_expr_root_depth (m (enter_boundary p enable s)) (entered enable s hs);
    }
      where
        left :
            (n : ℕ) (split : Bool) (root : Option ℕ) (o : Outcome F A)
            → Within d n o
            → Within d n (leave_boundary p split root o)
        left n split root (returned a t) w = w
        left n split root (thrown e t) w = w
        left n split root out_of_fuel w = w

        entered :
            (b : Bool) (s : Parser F)
            → remaining s < j
            → Within d (remaining s) (m (enter_boundary p b s))
        entered true s hs =
            hm.moves
              (record s {
                split_top_level_plain_ampersand_funcs = true;
                top_level_init_expr_root_depth = some (s.statement_expr_depth + 1);
              })
              hs
        entered false s hs = hm.moves s hs

    pub initializer-Moving : (b : Bool) → Moving k 0 (initializer p b)
    initializer-Moving b = bind0 (match-Moving assign) (λ assigned.
        Moving-if assigned (boundary-Moving (not b) p.expr (Moving-weaken p.expr h.expr))
          (Moving-done no_expr))

    pub declared-Moving :
        (name : Text) (type : AstType F) (init : Expr F) (is_exported : Bool)
        (linkage : VarLinkageKind) (loc : SourceLocation)
        → Moving k 0 (declared p name type init is_exported linkage loc)
    declared-Moving name type init is_exported linkage loc =
        Moving-if (not (is_normal linkage) && is_null_type type)
          (Moving-throw (external_without_type name) loc)
          (Moving-if (not (is_normal linkage) && not (is_null_expr init))
            (Moving-throw (external_with_initializer name) loc)
            (Moving-if (is_null_type type && is_null_expr init)
              (Moving-throw global_without_type loc)
              (Moving-done (
                stmt_at
                  (var_decl name type init
                    (not (is_normal linkage) || (is_null_expr init && not (is_null_type type)))
                    is_exported linkage)
                  loc))))

    pub named_decl-Moving :
        (b : Bool) (loc : SourceLocation) (is_exported : Bool) (linkage : VarLinkageKind)
        (name : Text)
        → Moving k 0 (named_decl p b loc is_exported linkage name)
    named_decl-Moving b loc is_exported linkage name = bind0 (optional_type-Moving p h) (λ type.
        bind0 (initializer-Moving b)
          (λ init. declared-Moving name type init is_exported linkage loc))

    pub var_decl_rest-Moving :
        (b : Bool) (loc : SourceLocation) (is_exported : Bool) (linkage : VarLinkageKind)
        → Moving k 0 (var_decl_rest p b loc is_exported linkage)
    var_decl_rest-Moving b loc is_exported linkage =
        Moving-if (is_exported && not (is_normal linkage)) (Moving-throw exported_and_external loc)
          (bind0 (consume-Moving identifier expected_variable_name)
            (λ token. named_decl-Moving b loc is_exported linkage token.lexeme))
