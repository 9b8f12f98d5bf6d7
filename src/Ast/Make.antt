-- ===== src/Ast/Make.antt =====
-- frontend/src/core/ast.cpp: the `make_` functions, and what the parser reads and sets in an expression.
use vexel_lang.Ast.{
  Annotation, AstType, Expr, ExprMarks, Exprs, Stmt, StmtKind, Stmts, array_literal_kind,
  assignment_kind, binary_kind, block_kind, call_kind, cast_kind, char_kind, conditional_kind, expr,
  float_kind, identifier_kind, index_kind, int_kind, iteration_kind, length_kind, member_kind,
  no_expr, no_exprs, no_type, process_kind, range_kind, repeat_kind, resource_kind, stmt,
  string_kind, tuple_literal_kind, unary_kind,
}
use vexel_lang.Base.{Bool, List, [], false, if◌then◌else◌, not, suc, true, ℕ, ◌&&◌, ◌-◌, ◌^◌}
use vexel_lang.Base.Int.{negsuc, pos, ℤ}
use vexel_lang.Error.{Result, SourceLocation, Text, err, no_location, ok}
use vexel_lang.ApInt.{ApInt, fits_i64, fits_u64, to_i64, to_u64}

-- `static_cast<uint64_t>` of what is returned.
abbrev low_u64 : Result ℕ → ℕ
low_u64 (ok n) = n
low_u64 (err e) = 0

abbrev low_i64 : Result ℤ → ℕ
low_i64 (ok (pos n)) = n
low_i64 (ok (negsuc n)) = 2 ^ 64 - suc n
low_i64 (err e) = 0

abbrev marks_at : SourceLocation → ExprMarks
marks_at loc = record {
  location = loc;
  annotations = [];
  raw_literal = [];
  is_expr_param_ref = false;
  is_existence_probe = false;
  is_optional_semantic_block = false;
  was_parenthesized = false;
}

-- `exact_int_val` in 64 bits, where it fits.
unfoldable pub uint_val_of : ApInt → Bool → ℕ
uint_val_of val is_unsigned =
    if is_unsigned && fits_u64 val
    then low_u64 (to_u64 val)
    else if not is_unsigned && fits_i64 val
    then low_i64 (to_i64 val)
    else if fits_u64 val
    then low_u64 (to_u64 val)
    else 0

abbrev pub with_raw : SourceLocation → Text → ExprMarks
with_raw loc raw = record (marks_at loc) { raw_literal = raw }

module _ {F : Type 0} where
  abbrev pub make_int_exact : ApInt → Bool → SourceLocation → Text → Expr F
  make_int_exact val is_unsigned loc raw =
      expr (with_raw loc raw) (int_kind val is_unsigned (uint_val_of val is_unsigned))

  abbrev pub make_float : F → SourceLocation → Text → Expr F
  make_float val loc raw = expr (with_raw loc raw) (float_kind val)

  abbrev pub make_char : ℕ → SourceLocation → Text → Expr F
  make_char val loc raw = expr (with_raw loc raw) (char_kind val)

  abbrev pub make_string : Text → SourceLocation → Expr F
  make_string val loc = expr (marks_at loc) (string_kind val)

  abbrev pub make_identifier : Text → SourceLocation → Expr F
  make_identifier name loc = expr (marks_at loc) (identifier_kind name no_type)

  abbrev pub make_binary : Text → Expr F → Expr F → SourceLocation → Expr F
  make_binary op l r loc = expr (marks_at loc) (binary_kind op l r)

  abbrev pub make_unary : Text → Expr F → SourceLocation → Expr F
  make_unary op operand loc = expr (marks_at loc) (unary_kind op operand)

  abbrev pub make_call : Expr F → Exprs F → SourceLocation → Expr F
  make_call func args loc = expr (marks_at loc) (call_kind func args no_exprs false)

  abbrev pub make_constructor_call : Expr F → Exprs F → SourceLocation → Expr F
  make_constructor_call func args loc = expr (marks_at loc) (call_kind func args no_exprs true)

  abbrev pub make_index : Expr F → Expr F → SourceLocation → Expr F
  make_index arr idx loc = expr (marks_at loc) (index_kind arr idx)

  abbrev pub make_member : Expr F → Text → SourceLocation → Expr F
  make_member obj field loc = expr (marks_at loc) (member_kind obj field)

  abbrev pub make_array : Exprs F → SourceLocation → Expr F
  make_array elems loc = expr (marks_at loc) (array_literal_kind elems)

  abbrev pub make_tuple : Exprs F → SourceLocation → Expr F
  make_tuple elems loc = expr (marks_at loc) (tuple_literal_kind elems)

  abbrev pub make_block : Stmts F → Expr F → SourceLocation → Expr F
  make_block stmts result loc = expr (marks_at loc) (block_kind stmts result)

  abbrev pub make_conditional : Expr F → Expr F → Expr F → SourceLocation → Expr F
  make_conditional cond t f loc = expr (marks_at loc) (conditional_kind cond t f)

  abbrev pub make_cast : AstType F → Expr F → SourceLocation → Expr F
  make_cast type operand loc = expr (marks_at loc) (cast_kind type operand)

  abbrev pub make_assignment : Expr F → Expr F → SourceLocation → Text → Expr F
  make_assignment lhs rhs loc op = expr (marks_at loc) (assignment_kind lhs rhs op)

  abbrev pub make_range : Expr F → Expr F → SourceLocation → Expr F
  make_range start end loc = expr (marks_at loc) (range_kind start end)

  abbrev pub make_length : Expr F → SourceLocation → Expr F
  make_length operand loc = expr (marks_at loc) (length_kind operand)

  abbrev pub make_iteration : Expr F → Expr F → Bool → SourceLocation → Expr F
  make_iteration iterable body sorted loc =
      expr (marks_at loc) (iteration_kind iterable body sorted)

  abbrev pub make_repeat : Expr F → Expr F → SourceLocation → Expr F
  make_repeat cond body loc = expr (marks_at loc) (repeat_kind cond body)

  abbrev pub make_resource : List Text → SourceLocation → Expr F
  make_resource path loc = expr (marks_at loc) (resource_kind path)

  abbrev pub make_process : Text → SourceLocation → Expr F
  make_process command loc = expr (marks_at loc) (process_kind command)

  abbrev pub stmt_at : StmtKind F → SourceLocation → Stmt F
  stmt_at kind loc = stmt (record { location = loc; annotations = [] }) kind

  -- What the parser reads and sets.
  unfoldable pub expr_location : Expr F → SourceLocation
  expr_location no_expr = no_location
  expr_location (expr marks kind) = marks.location

  unfoldable pub mark : (ExprMarks → ExprMarks) → Expr F → Expr F
  mark f no_expr = no_expr
  mark f (expr marks kind) = expr (f marks) kind

  abbrev pub annotate : List Annotation → Expr F → Expr F
  annotate annotations = mark (λ marks. record marks { annotations = annotations })

  abbrev pub parenthesized : Expr F → Expr F
  parenthesized = mark (λ marks. record marks { was_parenthesized = true })

  abbrev pub probe : Bool → Expr F → Expr F
  probe is_probe = mark (λ marks. record marks { is_existence_probe = is_probe })

  abbrev pub expr_param_ref : Expr F → Expr F
  expr_param_ref = mark (λ marks. record marks { is_expr_param_ref = true })

  abbrev pub optional_semantic_block : Expr F → Expr F
  optional_semantic_block = mark (λ marks. record marks { is_optional_semantic_block = true })

  abbrev pub with_receivers : Exprs F → Expr F → Expr F
  with_receivers receivers (expr marks (call_kind func args old is_constructor)) =
      expr marks (call_kind func args receivers is_constructor)
  with_receivers receivers e = e

  abbrev pub with_type : AstType F → Expr F → Expr F
  with_type type (expr marks (identifier_kind name old)) = expr marks (identifier_kind name type)
  with_type type e = e

  abbrev pub annotate_stmt : List Annotation → Stmt F → Stmt F
  annotate_stmt annotations (stmt marks kind) =
      stmt (record marks { annotations = annotations }) kind
