-- ===== src/Lexer/Moves/Shrinks.antt =====
-- Methods of the lexer that leave less of the source, where they return.
use vexel_lang.Lexer.{
  Lexer, Lexing, advance, advance_loop, advance_over, advance_while, behind, done, location_of,
  look, peek, ◌>>=◌,
}
use vexel_lang.Lexer.Read.{at_hex}
use vexel_lang.Lexer.Moves.{Moves, Moving, Moving-bind, Moving-done, Within}
use vexel_lang.Lexer.Moves.Readers.{Moving-advance_loop}
use vexel_lang.Base.{
  Bool, Bool-cases, Option, [], ap, arith, false, get_elem?, if◌then◌else◌, inl, inr, length,
  length-append, ltb, none, refl, some, suc, sym, true, ℕ, ◌<◌, ◌==◌, ◌||◌, ◌∙◌, ◌∷◌, ◌≡◌, ◌≤◌, ◌⊎◌,
}
use vexel_lang.Error.{CompileError, Result, Text, err, non_ascii_character, ok}

-- What `peek()` sees, if it returns: '\0' at the end, and the first character elsewhere.
pub peek_cases :
    (s : Lexer)
    → ((s.rest ≡ []) × (peek 0 s ≡ ok (0, s)))
      ⊎ ((c : ℕ) × (cs : Text) × (s.rest ≡ c ∷ cs) × (peek 0 s ≡ ok (c, s)))
      ⊎ ((e : CompileError) × (peek 0 s ≡ err e))
unfolding peek
peek_cases s = looked s s.rest refl
  where
    looked :
        (s : Lexer) (r : Text)
        → s.rest ≡ r
        → ((s.rest ≡ []) × (look (get_elem? s.rest 0) s ≡ ok (0, s)))
          ⊎ ((c : ℕ) × (cs : Text) × (s.rest ≡ c ∷ cs) × (look (get_elem? s.rest 0) s ≡ ok (c, s)))
          ⊎ ((e : CompileError) × (look (get_elem? s.rest 0) s ≡ err e))
    looked s [] h = inl (h, ap (λ (r : Text). look (get_elem? r 0) s) h)
    looked s (c ∷ cs) h = elim (Bool-cases (ltb 127 c)) [
      | inl n ↦ inr (
          inr (
            record { message = non_ascii_character; location = location_of s },
            ap (λ (r : Text). look (get_elem? r 0) s) h ∙ rw n refl,
          ))
      | inr n ↦ inr (inl (c, cs, h, ap (λ (r : Text). look (get_elem? r 0) s) h ∙ rw n refl))
    ]

pub Moves-length-le : {s t : Lexer} → Moves s t → length t.rest ≤ length s.rest
Moves-length-le {s} {t} m =
    omega (arith, ap (λ (r : Text). length r) m.split, length-append m.text t.rest)

-- A method that leaves less of the source, where it returns.
abbrev pub Shrinks : {A : Type 0} → Lexing A → Lexer → Type 0
Shrinks m s = Within (λ t. length t.rest < length s.rest) (m s)

pub below_all :
    {A : Type 0} (r : Result (A × Lexer)) (s : Lexer) (n : ℕ)
    → length s.rest < n
    → Within (Moves s) r
    → Within (λ t. length t.rest < n) r
below_all (ok (a, t)) s n h m = omega (arith, Moves-length-le m, h)
below_all (err e) s n h m = tt

length-behind : (c : ℕ) (cs : Text) (s : Lexer) → length (behind c cs s).rest ≡ length cs
length-behind c cs s = elim (Bool-cases (c == b'\n')) [ inl n ↦ rw n refl | inr n ↦ rw n refl ]

pub bind_ok :
    {A B : Type 0} (m : Lexing A) (f : A → Lexing B) (s : Lexer) {a : A} {t : Lexer}
    → m s ≡ ok (a, t)
    → (m >>= f) s ≡ f a t
bind_ok {A} {B} m f s e =
    ap
      (λ (r : Result (A × Lexer)). elim r as (λ _. Result (B × Lexer)) [
        | ok (a, t) ↦ f a t
        | err e ↦ err e
      ])
      e

pub bind_err :
    {A B : Type 0} (m : Lexing A) (f : A → Lexing B) (s : Lexer) {e : CompileError}
    → m s ≡ err e
    → (m >>= f) s ≡ err e
bind_err {A} {B} m f s e =
    ap
      (λ (r : Result (A × Lexer)). elim r as (λ _. Result (B × Lexer)) [
        | ok (a, t) ↦ f a t
        | err e ↦ err e
      ])
      e

pub advance_cases :
    (s : Lexer) (c : ℕ) (cs : Text)
    → s.rest ≡ c ∷ cs
    → (advance s ≡ ok (c, behind c cs s)) ⊎ ((e : CompileError) × (advance s ≡ err e))
unfolding advance
advance_cases s c cs h = elim (Bool-cases (ltb 127 c)) [
  | inl n ↦ inr (
    record { message = non_ascii_character; location = location_of s },
    ap (λ (r : Text). advance_over r s) h ∙ rw n refl,
  )
  | inr n ↦ inl (ap (λ (r : Text). advance_over r s) h ∙ rw n refl)
]

-- What holds of all results holds of the result of a call that is equal.
pub Within-subst :
    {A : Type 0} (P : Lexer → Type 0) {r q : Result (A × Lexer)} → r ≡ q → Within P q → Within P r
Within-subst P e h = rw e h

pub advance-Shrinks :
    {A : Type 0} (f : ℕ → Lexing A) (s : Lexer) (c : ℕ) (cs : Text)
    → ((d : ℕ) → Moving (f d))
    → s.rest ≡ c ∷ cs
    → Shrinks (advance >>= f) s
advance-Shrinks f s c cs hf h = elim (advance_cases s c cs h) [
  | inl a ↦
      Within-subst (λ t. length t.rest < length s.rest) (bind_ok advance f s a)
        (below_all (f c (behind c cs s)) (behind c cs s) (length s.rest)
          (omega (arith, length-behind c cs s, ap (λ (r : Text). length r) h))
          ((hf c).moves (behind c cs s)))
  | inr (e, a) ↦ Within-subst (λ t. length t.rest < length s.rest) (bind_err advance f s a) tt
]

-- A method that leaves less of the source leaves less with anything behind it.
pub bind-Shrinks :
    {A B : Type 0} (m : Lexing A) (f : A → Lexing B) (s : Lexer)
    → Shrinks m s
    → ((a : A) → Moving (f a))
    → Shrinks (m >>= f) s
bind-Shrinks {A} {B} m f s h hf = after (m s) h
  where
    after :
        (r : Result (A × Lexer))
        → Within (λ t. length t.rest < length s.rest) r
        → Within
            (λ t. length t.rest < length s.rest)
            (elim r as (λ _. Result (B × Lexer)) [ ok (a, t) ↦ f a t | err e ↦ err e ])
    after (ok (a, t)) h = below_all (f a t) t (length s.rest) h ((hf a).moves t)
    after (err e) h = tt

-- The first character passes the test of the loop.
pub while-Shrinks :
    (test : ℕ → Bool) (s : Lexer) (c : ℕ) (cs : Text)
    → s.rest ≡ c ∷ cs
    → test c ≡ true
    → Shrinks (advance_while test) s
unfolding advance_while
while-Shrinks test s c cs h passes =
    Within-subst (λ t. length t.rest < length s.rest)
      (ap (λ (r : Text). advance_loop test (length r) s) h) first
  where
    first : Shrinks (advance_loop test (suc (length cs))) s
    first = elim (peek_cases s) [
      | inl (e, p) ↦ absurd (omega (arith, ap (λ (r : Text). length r) (sym h ∙ e)))
      | inr (inr (e, p)) ↦
          unfold advance_loop in
          Within-subst (λ t. length t.rest < length s.rest) (bind_err (peek 0) _ s p) tt
      | inr (inl (d, ds, e, p)) ↦
          let same : d ≡ c = ground (arith, sym e ∙ h) in
          let passed : test d ≡ true = ap test same ∙ passes in
          unfold advance_loop in
          Within-subst (λ t. length t.rest < length s.rest) (bind_ok (peek 0) _ s p)
            (rw passed (
              advance-Shrinks _ s c cs
                (λ x.
                  Moving-bind (advance_loop test (length cs)) _
                    (Moving-advance_loop test (length cs)) (λ text. Moving-done (x ∷ text)))
                h))
    ]

-- A method that leaves the state, and what follows it.
abbrev pub Keeps : {A : Type 0} → Lexing A → Type 0
Keeps m = (s : Lexer) → Within (λ t. t ≡ s) (m s)

pub keep-Shrinks :
    {A B : Type 0} (m : Lexing A) (f : A → Lexing B) (s : Lexer)
    → Within (λ t. t ≡ s) (m s)
    → ((a : A) → Shrinks (f a) s)
    → Shrinks (m >>= f) s
keep-Shrinks {A} {B} m f s h hf = after (m s) h
  where
    after :
        (r : Result (A × Lexer))
        → Within (λ t. t ≡ s) r
        → Within
            (λ t. length t.rest < length s.rest)
            (elim r as (λ _. Result (B × Lexer)) [ ok (a, t) ↦ f a t | err e ↦ err e ])
    after (ok (a, t)) e = rw e (hf a)
    after (err e) h = tt

pub at_hex-Keeps : (s : Lexer) → Within (λ t. t ≡ s) (at_hex s)
unfolding at_hex peek
at_hex-Keeps s = seen (get_elem? s.rest 0)
  where
    second :
        (o : Option ℕ) → Within (λ t. t ≡ s) ((look o >>= λ b. done (b == b'x' || b == b'X')) s)
    second none = refl
    second (some c) = elim (Bool-cases (ltb 127 c)) [ inl n ↦ rw n tt | inr n ↦ rw n refl ]

    branch :
        (b : Bool)
        → Within
            (λ t. t ≡ s)
            ((if b
                then (λ s'. look (get_elem? s'.rest 1) s') >>= (λ c. done (c == b'x' || c == b'X'))
                else done false)
              s)
    branch true = second (get_elem? s.rest 1)
    branch false = refl

    seen :
        (o : Option ℕ)
        → Within
            (λ t. t ≡ s)
            ((look o >>= λ a.
                if a == b'0'
                then (λ s'. look (get_elem? s'.rest 1) s') >>= (λ c. done (c == b'x' || c == b'X'))
                else done false)
              s)
    seen none = refl
    seen (some c) = elim (Bool-cases (ltb 127 c)) [
      | inl n ↦ rw n tt
      | inr n ↦ rw n (branch (c == b'0'))
    ]
