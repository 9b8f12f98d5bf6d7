-- ===== src/Ast.antt =====
-- frontend/src/core/ast.h and ast.cpp: the syntax tree as the parser builds it. `F` stands for double.
-- A std::shared_ptr is null (`no_type`, `no_expr`) or what it points at. A struct of the source with a
-- field for each kind is a constructor for each kind here, with the fields that its `make_` function
-- sets; the marks that the parser sets afterwards are the fields of `ExprMarks` and `StmtMarks`. What
-- only the later passes write (resolved symbols, scope instances, inferred types) is left out.
pub mod Make
use vexel_lang.Base.{Bool, List, ℕ}
use vexel_lang.Base.Int.{ℤ}
use vexel_lang.Error.{SourceLocation, Text}
use vexel_lang.ApInt.{ApInt}
use vexel_lang.Evaluator.{PrimitiveType}

pub record Annotation : Type 0 where
  pub name : Text
  pub args : List Text
  pub location : SourceLocation

pub data VarLinkageKind : Type 0 where
  normal external_symbol backend_bound : VarLinkageKind

pub record ExprMarks : Type 0 where
  pub location : SourceLocation
  pub annotations : List Annotation
  pub raw_literal : Text
  pub is_expr_param_ref : Bool
  pub is_existence_probe : Bool
  pub is_optional_semantic_block : Bool
  pub was_parenthesized : Bool

pub record StmtMarks : Type 0 where
  pub location : SourceLocation
  pub annotations : List Annotation

mutual
  -- struct Type
  pub data AstType (F : Type 0) : Type 0 where
    no_type : AstType F
    primitive_kind : PrimitiveType → ℕ → ℤ → SourceLocation → AstType F
    array_kind : AstType F → Expr F → SourceLocation → AstType F
    named_kind : Text → SourceLocation → AstType F
    typevar_kind : Text → SourceLocation → AstType F
    typeof_kind : Expr F → SourceLocation → AstType F

  pub data Expr (F : Type 0) : Type 0 where
    no_expr : Expr F
    expr : ExprMarks → ExprKind F → Expr F

  pub data ExprKind (F : Type 0) : Type 0 where
    -- exact_int_val, literal_is_unsigned, uint_val
    int_kind : ApInt → Bool → ℕ → ExprKind F
    float_kind : F → ExprKind F
    string_kind : Text → ExprKind F
    char_kind : ℕ → ExprKind F
    -- name, type
    identifier_kind : Text → AstType F → ExprKind F
    binary_kind : Text → Expr F → Expr F → ExprKind F
    unary_kind : Text → Expr F → ExprKind F
    -- operand, args, receivers, is_constructor_call
    call_kind : Expr F → Exprs F → Exprs F → Bool → ExprKind F
    index_kind : Expr F → Expr F → ExprKind F
    member_kind : Expr F → Text → ExprKind F
    array_literal_kind : Exprs F → ExprKind F
    tuple_literal_kind : Exprs F → ExprKind F
    block_kind : Stmts F → Expr F → ExprKind F
    conditional_kind : Expr F → Expr F → Expr F → ExprKind F
    cast_kind : AstType F → Expr F → ExprKind F
    assignment_kind : Expr F → Expr F → Text → ExprKind F
    range_kind : Expr F → Expr F → ExprKind F
    length_kind : Expr F → ExprKind F
    -- operand, right, is_sorted_iteration
    iteration_kind : Expr F → Expr F → Bool → ExprKind F
    repeat_kind : Expr F → Expr F → ExprKind F
    resource_kind : List Text → ExprKind F
    process_kind : Text → ExprKind F

  pub data Exprs (F : Type 0) : Type 0 where
    no_exprs : Exprs F
    an_expr : Expr F → Exprs F → Exprs F

  pub data Stmt (F : Type 0) : Type 0 where
    stmt : StmtMarks → StmtKind F → Stmt F

  pub data StmtKind (F : Type 0) : Type 0 where
    expr_stmt : Expr F → StmtKind F
    return_stmt : Expr F → StmtKind F
    break_stmt continue_stmt : StmtKind F
    -- var_name, var_type, var_init, is_mutable, is_exported, var_linkage
    var_decl : Text → AstType F → Expr F → Bool → Bool → VarLinkageKind → StmtKind F
    -- func_name, params, ref_params, return_type, body, is_external, is_exported, type_namespace,
    -- return_types
    func_decl :
        Text
        → Params F
        → List Text
        → AstType F
        → Expr F
        → Bool
        → Bool
        → Text
        → AstTypes F
        → StmtKind F
    type_decl : Text → Fields F → StmtKind F
    import_stmt : List Text → StmtKind F
    conditional_stmt : Expr F → Stmt F → StmtKind F

  pub data Stmts (F : Type 0) : Type 0 where
    no_stmts : Stmts F
    a_stmt : Stmt F → Stmts F → Stmts F

  pub data AstTypes (F : Type 0) : Type 0 where
    no_types : AstTypes F
    a_type : AstType F → AstTypes F → AstTypes F

  -- name, type, is_expression_param, location, annotations
  pub data Params (F : Type 0) : Type 0 where
    no_params : Params F
    a_param : Text → AstType F → Bool → SourceLocation → List Annotation → Params F → Params F

  -- name, type, location, annotations
  pub data Fields (F : Type 0) : Type 0 where
    no_fields : Fields F
    a_field : Text → AstType F → SourceLocation → List Annotation → Fields F → Fields F

pub record Module (F : Type 0) : Type 0 where
  pub name : Text
  pub path : Text
  pub top_level : Stmts F
