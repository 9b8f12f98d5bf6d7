-- ===== src/Lexer/Moves.antt =====
-- What a method of the lexer does to its state: the characters of the source that it moves over,
-- and the place.
pub mod Readers
pub mod Tokens
pub mod Shrinks
pub mod Progress
pub mod Source
pub mod Lexeme
use vexel_lang.Lexer.{
  Lexer, Lexing, advance, advance_over, behind, current_location, done, fail, fail_here, look, peek,
  ◌>>=◌,
}
use vexel_lang.Base.{
  Bool, Bool-cases, Option, [], ap, arith, false, get_elem?, if◌then◌else◌, inl, inr, ltb, none,
  refl, some, sym, true, ℕ, ◌++◌, ◌+◌, ◌==◌, ◌∙◌, ◌∷◌, ◌≡◌, ◌≤◌,
}
use vexel_lang.Error.{Message, Result, SourceLocation, Text, err, ok}

abbrev pub IsAscii : Text → Type 0
IsAscii [] = Unit
IsAscii (c ∷ cs) = (c ≤ 127) × IsAscii cs

-- The line and the column behind a text.
abbrev pub line_after : ℕ → Text → ℕ
line_after line [] = line
line_after line (c ∷ cs) = line_after (if c == b'\n' then line + 1 else line) cs

abbrev pub column_after : ℕ → Text → ℕ
column_after column [] = column
column_after column (c ∷ cs) = column_after (if c == b'\n' then 1 else column + 1) cs

-- `t` stands behind `text` in the source of `s`.
pub record Moves (s t : Lexer) : Type 0 where
  pub text : Text
  pub split : s.rest ≡ text ++ t.rest
  pub ascii : IsAscii text
  pub line : t.line ≡ line_after s.line text
  pub column : t.column ≡ column_after s.column text
  pub filename : t.filename ≡ s.filename

pub Moves-refl : (s : Lexer) → Moves s s
Moves-refl s = record {
  text = [];
  split = refl;
  ascii = tt;
  line = refl;
  column = refl;
  filename = refl;
}

IsAscii-append : (a b : Text) → IsAscii a → IsAscii b → IsAscii (a ++ b)
IsAscii-append [] b ha hb = hb
IsAscii-append (c ∷ a) b ha hb = (ha.0, IsAscii-append a b ha.1 hb)

line_after-append : (l : ℕ) (a b : Text) → line_after l (a ++ b) ≡ line_after (line_after l a) b
line_after-append l [] b = refl
line_after-append l (c ∷ a) b = line_after-append (if c == b'\n' then l + 1 else l) a b

column_after-append :
    (k : ℕ) (a b : Text) → column_after k (a ++ b) ≡ column_after (column_after k a) b
column_after-append k [] b = refl
column_after-append k (c ∷ a) b = column_after-append (if c == b'\n' then 1 else k + 1) a b

pub append_assoc : (a b c : Text) → (a ++ b) ++ c ≡ a ++ (b ++ c)
append_assoc [] b c = refl
append_assoc (x ∷ a) b c = ap (λ (t : Text). x ∷ t) (append_assoc a b c)

pub Moves-trans : {s t u : Lexer} → Moves s t → Moves t u → Moves s u
Moves-trans {s} {t} {u} m n = record {
  text = m.text ++ n.text;
  split =
      m.split ∙ (ap (λ (r : Text). m.text ++ r) n.split ∙ sym (append_assoc m.text n.text u.rest));
  ascii = IsAscii-append m.text n.text m.ascii n.ascii;
  line =
      n.line
      ∙ (ap (λ (l : ℕ). line_after l n.text) m.line ∙ sym (line_after-append s.line m.text n.text));
  column =
      n.column
      ∙ (ap (λ (k : ℕ). column_after k n.text) m.column
          ∙ sym (column_after-append s.column m.text n.text));
  filename = n.filename ∙ m.filename;
}

-- The state that a method returns, where it returns.
abbrev pub Within : {A : Type 0} → (Lexer → Type 0) → Result (A × Lexer) → Type 0
Within P (ok (a, t)) = P t
Within P (err e) = Unit

pub record Moving {A : Type 0} (m : Lexing A) : Type 0 where
  pub moves : (s : Lexer) → Within (Moves s) (m s)

Within-bind :
    {A B : Type 0} (s : Lexer) (r : Result (A × Lexer)) (f : A → Lexing B)
    → Within (Moves s) r
    → ((a : A) → Moving (f a))
    → Within (Moves s) (elim r [ ok (a, t) ↦ f a t | err e ↦ err e ])
Within-bind s (ok (a, t)) f h hf = further (f a t) h ((hf a).moves t)
  where
    further :
        {B : Type 0} {s t : Lexer} (r : Result (B × Lexer))
        → Moves s t
        → Within (Moves t) r
        → Within (Moves s) r
    further (ok (b, u)) m n = Moves-trans m n
    further (err e) m n = tt
Within-bind s (err e) f h hf = tt

pub Moving-bind :
    {A B : Type 0} (m : Lexing A) (f : A → Lexing B)
    → Moving m
    → ((a : A) → Moving (f a))
    → Moving (m >>= f)
Moving-bind m f hm hf = record { moves = λ s. Within-bind s (m s) f (hm.moves s) hf }

pub Moving-done : {A : Type 0} (a : A) → Moving (done a)
Moving-done a = record { moves = λ s. Moves-refl s }

pub Moving-if :
    {A : Type 0} (b : Bool) (m n : Lexing A) → Moving m → Moving n → Moving (if b then m else n)
Moving-if true m n hm hn = hm
Moving-if false m n hm hn = hn

pub Moving-choose :
    {A : Type 0} (b : Bool) (m n : Lexing A)
    → Moving m
    → Moving n
    → Moving (elim b [ true ↦ m | false ↦ n ])
Moving-choose true m n hm hn = hm
Moving-choose false m n hm hn = hn

pub Moving-fail :
    {A : Type 0} (message : Message) (loc : SourceLocation) → Moving (fail {A = A} message loc)
Moving-fail message loc = record { moves = λ s. tt }

pub Moving-fail_here : {A : Type 0} (message : Message) → Moving (fail_here {A = A} message)
Moving-fail_here message = record { moves = λ s. tt }

pub Moving-current_location : Moving current_location
Moving-current_location = record { moves = λ s. Moves-refl s }

pub Moving-peek : (offset : ℕ) → Moving (peek offset)
unfolding peek
Moving-peek offset = record { moves = λ s. looked (get_elem? s.rest offset) s }
  where
    looked : (o : Option ℕ) (s : Lexer) → Within (Moves s) (look o s)
    looked none s = Moves-refl s
    looked (some c) s = elim (Bool-cases (ltb 127 c)) [
      | inl e ↦ rw e tt
      | inr e ↦ rw e (Moves-refl s)
    ]

over_one : (c : ℕ) (cs : Text) (s : Lexer) → s.rest ≡ c ∷ cs → c ≤ 127 → Moves s (behind c cs s)
over_one c cs s e h = elim (Bool-cases (c == b'\n')) [
  | inl n ↦ rw n (record {
    text = c ∷ [];
    split = e;
    ascii = (h, tt);
    line = rw n;
    column = rw n;
    filename = refl;
  })
  | inr n ↦ rw n (record {
    text = c ∷ [];
    split = e;
    ascii = (h, tt);
    line = rw n;
    column = rw n;
    filename = refl;
  })
]

pub Moving-advance : Moving advance
unfolding advance
Moving-advance = record { moves = λ s. over s s.rest refl }
  where
    over : (s : Lexer) (r : Text) → s.rest ≡ r → Within (Moves s) (advance_over r s)
    over s [] e = Moves-refl s
    over s (c ∷ cs) e = elim (Bool-cases (ltb 127 c)) [
      | inl n ↦ rw n tt
      | inr n ↦ rw n (over_one c cs s e (ground (arith, n)))
    ]
