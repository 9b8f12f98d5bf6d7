-- ===== src/Parser/Lookahead.antt =====
-- frontend/src/parse/parser.cpp: the lookaheads that tell declarations from expressions. A cursor is the
-- list of the types of the tokens from it on, with `end_of_file` behind them.
use vexel_lang.Parser.Kinds.{
  is_one_of, is_operator_function_token, is_per_element_operator_inner_token, is_type,
}
use vexel_lang.Parser.{Parser}
use vexel_lang.Lexer.Token.{
  Token, TokenType, ampersand, arrow, assign, bit_xor, colon, comma, dollar, dot, double_colon,
  end_of_file, hash, identifier, left_brace, left_bracket, left_paren, logical_not, right_bracket,
  right_paren, semicolon,
}
use vexel_lang.Base.{
  Bool, List, Option, [], drop, false, if◌then◌else◌, length, none, not, some, suc, true, zero, ℕ,
  ◌&&◌, ◌-◌, ◌==◌, ◌||◌, ◌∷◌,
}

abbrev pub kind_at : ℕ → List TokenType → TokenType
kind_at n [] = end_of_file
kind_at zero (t ∷ ts) = t
kind_at (suc n) (t ∷ ts) = kind_at n ts

-- The tests that `looks_like_var_decl_with_linkage` makes behind the name, given whether the linkage is normal.
abbrev behind_name : Bool → List TokenType → Bool
behind_name is_normal ts =
    let typed = is_type (kind_at 0 ts) colon in
    (typed || is_type (kind_at 0 ts) assign || is_type (kind_at 0 ts) semicolon)
    && (is_normal || typed)

abbrev name_and_type : Bool → List TokenType → Bool
name_and_type is_normal [] = false
name_and_type is_normal (t ∷ ts) = is_type t identifier && behind_name is_normal ts

-- The same from the linkage on.
abbrev from_linkage : Bool → List TokenType → Bool
from_linkage allow_double_bang_local ts =
    if is_type (kind_at 0 ts) logical_not
    then (if is_type (kind_at 1 ts) logical_not
        then name_and_type false (drop 2 ts)
        else not allow_double_bang_local && name_and_type false (drop 1 ts))
    else name_and_type true ts

unfoldable pub looks_like_var_decl_with_linkage : Bool → List TokenType → Bool
looks_like_var_decl_with_linkage allow_double_bang_local ts =
    if is_type (kind_at 0 ts) bit_xor
    then from_linkage allow_double_bang_local (drop 1 ts)
    else from_linkage allow_double_bang_local ts

-- `looks_like_ref`, and the cursor `j` at the end of the loop over a receiver list, where that is `)`.
unfoldable pub ref_list_loop : ℕ → List TokenType → Option (List TokenType)
ref_list_loop zero ts = none
ref_list_loop (suc fuel) ts = elim (is_type (kind_at 0 ts) right_paren) [
  | true ↦ some ts
  | false ↦
      elim (is_type (kind_at 0 ts) identifier
        && not (is_one_of (kind_at 1 ts) (colon ∷ dollar ∷ []))) [
          | true ↦ elim (is_type (kind_at 1 ts) comma) [
            | true ↦ ref_list_loop fuel (drop 2 ts)
            | false ↦ if is_type (kind_at 1 ts) right_paren then some (drop 1 ts) else none
          ]
          | false ↦ none
        ]
]

abbrev ref_list : List TokenType → Option (List TokenType)
ref_list ts =
    if is_type (kind_at 0 ts) right_paren then none else ref_list_loop (suc (length ts)) ts

abbrev behind_ref_list : List TokenType → Option (List TokenType) → List TokenType
behind_ref_list ts none = ts
behind_ref_list ts (some close) = drop 1 close

-- Behind the optional receiver list.
unfoldable pub skip_receivers : List TokenType → List TokenType
skip_receivers ts =
    if is_type (kind_at 0 ts) left_paren then behind_ref_list ts (ref_list (drop 1 ts)) else ts

-- Behind the optional `#Type::`.
unfoldable pub skip_namespace : List TokenType → Option (List TokenType)
skip_namespace ts =
    if is_type (kind_at 0 ts) hash
    then (if is_type (kind_at 1 ts) identifier && is_type (kind_at 2 ts) double_colon
        then some (drop 3 ts)
        else none)
    else some ts

unfoldable pub skip_function_name : List TokenType → Option (List TokenType)
skip_function_name ts =
    if is_type (kind_at 0 ts) dot && is_per_element_operator_inner_token (kind_at 1 ts)
    then some (drop 2 ts)
    else if is_type (kind_at 0 ts) identifier || is_operator_function_token (kind_at 0 ts)
    then some (drop 1 ts)
    else none

-- Where the loop over the value parameters ends: `none` where it goes on.
abbrev paren_stop : ℕ → TokenType → List TokenType → Option (Option (List TokenType))
paren_stop depth t ts =
    if is_type t end_of_file
    then some none
    else if is_type t right_paren && depth == 1
    then some (some ts)
    else if is_type t right_paren && depth == 0
    then some none
    else none

abbrev paren_depth_after : ℕ → TokenType → ℕ
paren_depth_after depth t =
    if is_type t left_paren then suc depth else if is_type t right_paren then depth - 1 else depth

-- Behind the parenthesis that brings `paren_depth` back to 0, or `none` where there is none.
unfoldable pub skip_parens : ℕ → List TokenType → Option (List TokenType)
skip_parens depth [] = none
skip_parens depth (t ∷ ts) = elim (paren_stop depth t ts) [
  | some end ↦ end
  | none ↦ skip_parens (paren_depth_after depth t) ts
]

-- Where the loop over the return type ends, and whether at the body's brace: `none` where it goes on.
abbrev type_stop : ℕ → ℕ → TokenType → Option Bool
type_stop parens brackets t =
    let outside = parens == 0 && brackets == 0 in
    if is_type t end_of_file
    then some false
    else if outside && is_type t left_brace
    then some true
    else if outside && is_type t semicolon
    then some false
    else none

abbrev brackets_after : ℕ → TokenType → ℕ
brackets_after brackets t =
    if is_type t left_bracket
    then suc brackets
    else if is_type t right_bracket
    then brackets - 1
    else brackets

-- `return token_type(i) == TokenType::LeftBrace` behind the return type. Both depths stop at 0.
unfoldable pub type_then_brace : ℕ → ℕ → List TokenType → Bool
type_then_brace parens brackets [] = false
type_then_brace parens brackets (t ∷ ts) = elim (type_stop parens brackets t) [
  | some end ↦ end
  | none ↦ type_then_brace (paren_depth_after parens t) (brackets_after brackets t) ts
]

abbrev return_then_brace : List TokenType → Bool
return_then_brace ts =
    if is_type (kind_at 0 ts) arrow
    then type_then_brace 0 0 (drop 1 ts)
    else is_type (kind_at 0 ts) left_brace

abbrev or_false : {A : Type 0} → (A → Bool) → Option A → Bool
or_false f none = false
or_false f (some a) = f a

abbrev params_then_brace : List TokenType → Bool
params_then_brace ts =
    is_type (kind_at 0 ts) left_paren && or_false return_then_brace (skip_parens 0 ts)

unfoldable pub looks_like_plain_func_decl_start : List TokenType → Bool
looks_like_plain_func_decl_start ts =
    is_type (kind_at 0 ts) ampersand
    && or_false (λ named. or_false params_then_brace (skip_function_name named))
        (skip_namespace (skip_receivers (drop 1 ts)))

abbrev types_of : {F : Type 0} → List (Token F) → List TokenType
types_of [] = []
types_of (t ∷ ts) = t.type ∷ types_of ts

abbrev pub kinds : {F : Type 0} → Parser F → List TokenType
kinds s = types_of s.pos.rest
