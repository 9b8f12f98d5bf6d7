-- ===== src/Lexer.antt =====
-- frontend/src/parse/lexer.h and lexer.cpp: the state of `Lexer`, and the operations on one character.
-- A `char` is its byte, 0 to 255. `rest` is `source` from `pos` on, which is all that the class reads of
-- the two. `int` line and column numbers are not bounded here.
pub mod Token
pub mod Read
pub mod Operator
pub mod Tokenize
pub mod Moves
use vexel_lang.Base.{
  Bool, Option, [], false, get_elem?, if◌then◌else◌, length, ltb, none, not, some, suc, true, zero,
  ℕ, ◌&&◌, ◌+◌, ◌==◌, ◌||◌, ◌∷◌,
}
use vexel_lang.Error.{Message, Result, SourceLocation, Text, err, non_ascii_character, ok, throw}

pub record Lexer : Type 0 where
  pub filename : Text
  pub rest : Text
  pub line : ℕ
  pub column : ℕ

abbrev pub new_lexer : Text → Text → Lexer
new_lexer source filename = record { filename = filename; rest = source; line = 1; column = 1 }

-- A method of the class that returns an `A`, or throws.
abbrev pub Lexing : Type 0 → Type 0
Lexing A = Lexer → Result (A × Lexer)

infixl 5 ◌>>=◌ ◌>>◌
abbrev pub ◌>>=◌ : {A B : Type 0} → Lexing A → (A → Lexing B) → Lexing B
◌>>=◌ m f s = elim (m s) [ ok (a, t) ↦ f a t | err e ↦ err e ]

abbrev pub ◌>>◌ : {A B : Type 0} → Lexing A → Lexing B → Lexing B
m >> k = m >>= λ _. k

abbrev pub done : {A : Type 0} → A → Lexing A
done a s = ok (a, s)

abbrev pub fail : {A : Type 0} → Message → SourceLocation → Lexing A
fail message location s = throw message location

abbrev pub location_of : Lexer → SourceLocation
location_of s = record { filename = s.filename; line = s.line; column = s.column }

abbrev pub current_location : Lexing SourceLocation
current_location s = ok (location_of s, s)

-- `throw CompileError(message, current_location())`.
abbrev pub fail_here : {A : Type 0} → Message → Lexing A
fail_here message s = throw message (location_of s)

abbrev pub ensure_ascii : ℕ → Lexing (Unit {0})
ensure_ascii c = if ltb 127 c then fail_here non_ascii_character else done tt

abbrev pub look : Option ℕ → Lexing ℕ
look none = done 0
look (some c) = ensure_ascii c >> done c

unfoldable pub peek : ℕ → Lexing ℕ
peek offset s = look (get_elem? s.rest offset) s

-- The state behind a character, which `advance` returns.
abbrev pub behind : ℕ → Text → Lexer → Lexer
behind c cs s =
    if c == b'\n'
    then record s { rest = cs; line = s.line + 1; column = 1 }
    else record s { rest = cs; column = s.column + 1 }

abbrev pub advance_over : Text → Lexing ℕ
advance_over [] = done 0
advance_over (c ∷ cs) = ensure_ascii c >> λ s. ok (c, behind c cs s)

unfoldable pub advance : Lexing ℕ
advance s = advance_over s.rest s

unfoldable pub match : ℕ → Lexing Bool
match expected = do c ← peek 0; if c == expected then advance >> done true else done false

-- `while (test(peek())) text += advance();` with fuel for the characters that are left. At the end of
-- the source every test of the code fails, on '\0'.
unfoldable pub advance_loop : (ℕ → Bool) → ℕ → Lexing Text
advance_loop test zero = done []
advance_loop test (suc fuel) = do
  c ← peek 0
  elim (test c) [
    | true ↦ do d ← advance; text ← advance_loop test fuel; done (d ∷ text)
    | false ↦ done []
  ]

unfoldable pub advance_while : (ℕ → Bool) → Lexing Text
advance_while test s = advance_loop test (length s.rest) s

abbrev pub is_vexel_whitespace : ℕ → Bool
is_vexel_whitespace c = c == b' ' || c == b'\t' || c == b'\n' || c == b'\r'

unfoldable pub skip_whitespace : Lexing Text
skip_whitespace = advance_while is_vexel_whitespace

-- `peek() == '/' && peek(1) == '/'`.
unfoldable pub at_comment : Lexing Bool
at_comment = do a ← peek 0; if a == b'/' then (do b ← peek 1; done (b == b'/')) else done false

unfoldable pub skip_comment : Lexing Text
skip_comment = do
  comment ← at_comment
  if comment then advance_while (λ c. not (c == b'\n') && not (c == 0)) else done []
