-- ===== src/Literal/Print.antt =====
-- Printing a value, and reading it back.
use vexel_lang.ApInt.Meaning.{signed}
use native.Mathlib.Nat.{pow-suc, zero-add}
use vexel_lang.Base.{
  ℕ, zero, suc, ◌+◌, ◌-◌, ◌*◌, ◌/◌, ◌%◌, ◌^◌, ◌<◌, ◌≤◌, Bool, true, false, List, [], ◌∷◌, ◌++◌, ◌≡◌,
  refl, sym, ap, ◌∙◌, arith, length, replicate, ltb, Bool-cases, inl, inr, ltb→lt, length-append,
  length-replicate,
}
use vexel_lang.Base.Int.{pos}
use vexel_lang.Error.{Text, SourceLocation, ok}
use vexel_lang.Limbs.Normal.{value-pos}
use vexel_lang.Limbs.Value.{value, IsMagnitude}
use vexel_lang.ApInt.{ApInt}
use vexel_lang.ApInt.Meaning.{to_ℤ, IsApInt, to_ℤ-injective}
use vexel_lang.Literal.{
  show, show_padded, print_chunks, print_limbs, decimal_chunks, to_string, parse_integer_literal,
}
use vexel_lang.Literal.Parse.{
  decimal_digit, numeral, IsDecimal, AllOf, ReadsAs, parse_decimal_literal,
}
use vexel_lang.Literal.Chunks.{giga, chunk_value, AreChunks, decimal_chunks_lem, value-lt-pow}

numeral-append :
    (acc : ℕ) (xs ys : Text)
    → numeral 10 decimal_digit acc (xs ++ ys)
      ≡ numeral 10 decimal_digit (numeral 10 decimal_digit acc xs) ys
numeral-append acc [] ys = refl
numeral-append acc (x ∷ xs) ys = numeral-append (acc * 10 + decimal_digit x) xs ys

AllOf-append : (P : ℕ → Type 0) (xs ys : Text) → AllOf P xs → AllOf P ys → AllOf P (xs ++ ys)
AllOf-append P [] ys hx hy = hy
AllOf-append P (x ∷ xs) ys hx hy = (hx.0, AllOf-append P xs ys hx.1 hy)

suc-add_pow : (m n : ℕ) → suc m + n ≡ suc (m + n)
suc-add_pow m n = omega arith

ten-pow-add : (m n : ℕ) → 10 ^ (m + n) ≡ 10 ^ m * 10 ^ n
ten-pow-add zero n = rw zero-add (omega arith)
ten-pow-add (suc m) n = rw (suc-add_pow m n) (
    omega (
      arith,
      pow-suc 10 (m + n),
      pow-suc 10 m,
      ten-pow-add m n,
      ap (λ (t : ℕ). t * 10 ^ n) (pow-suc 10 m),
    ))

-- A text that puts `n` behind any number, in decimal.
pub record Spells (text : Text) (n : ℕ) : Type 0 where
  pub digits : AllOf IsDecimal text
  pub spelled : (acc : ℕ) → numeral 10 decimal_digit acc text ≡ acc * 10 ^ length text + n

push-Spells :
    (text : Text) (n d : ℕ) → Spells text n → d < 10 → Spells (text ++ (b'0' + d) ∷ []) (n * 10 + d)
push-Spells text n d s h = record {
  digits = AllOf-append IsDecimal text _ s.digits ((omega arith, omega arith), tt);
  spelled = λ acc.
      numeral-append acc text ((b'0' + d) ∷ [])
      ∙ rw (length-append text ((b'0' + d) ∷ []), ten-pow-add (length text) 1)
          (omega (arith, s.spelled acc, ap (λ (t : ℕ). t * 10) (s.spelled acc)));
}

digit-Spells : (n : ℕ) → n < 10 → Spells ((b'0' + n) ∷ []) n
digit-Spells n h = record {
  digits = ((omega arith, omega arith), tt);
  spelled = λ acc. omega arith;
}

pub show-Spells : (fuel n : ℕ) → n < 10 ^ suc fuel → Spells (show (suc fuel) n) n
unfolding show
show-Spells zero n h =
    let e : ltb n 10 ≡ true = ground (arith, h) in rw e (digit-Spells n (omega (arith, h)))
show-Spells (suc fuel) n h =
    let ih = show-Spells fuel (n / 10) (omega (arith, pow-suc 10 (suc fuel))) in
    let whole : n / 10 * 10 + n % 10 ≡ n = omega arith in
    let pushed = push-Spells (show (suc fuel) (n / 10)) (n / 10) (n % 10) ih (omega arith) in
    let more = rw whole at pushed in
    elim (Bool-cases (ltb n 10)) [
      | inl e ↦ rw e (digit-Spells n (ltb→lt n 10 e))
      | inr e ↦ rw e more
    ]

-- The number of digits is within the bound.
length-show-le : (k fuel n : ℕ) → n < 10 ^ suc k → length (show fuel n) ≤ suc k
unfolding show
length-show-le k zero n h = omega arith
length-show-le zero (suc fuel) n h = ground (arith, h)
length-show-le (suc k) (suc fuel) n h = ground (
  arith,
  length-show-le k fuel (n / 10) (omega (arith, pow-suc 10 (suc k))),
  length-append (show fuel (n / 10)) ((b'0' + n % 10) ∷ []),
)

zeros-Spells : (j : ℕ) (text : Text) (n : ℕ) → Spells text n → Spells (replicate j b'0' ++ text) n
zeros-Spells zero text n s = s
zeros-Spells (suc j) text n s =
    let ih = zeros-Spells j text n s in
    record {
      digits = ((omega arith, omega arith), ih.digits);
      spelled = λ acc.
          ih.spelled (acc * 10 + 0)
          ∙ omega (arith, ap (λ (t : ℕ). acc * t) (pow-suc 10 (length (replicate j b'0' ++ text))));
    }

show_padded-Spells : (n : ℕ) → n < giga → Spells (show_padded n) n × (length (show_padded n) ≡ 9)
unfolding show_padded
show_padded-Spells n h =
    let text = show 10 n in
    let short = length-show-le 8 10 n (omega arith) in
    (
      zeros-Spells (9 - length text) text n (show-Spells 9 n (omega arith)),
      omega (
        arith,
        short,
        length-append (replicate (9 - length text) b'0') text,
        length-replicate {A = ℕ} (9 - length text) b'0',
      ),
    )

-- Nine more digits behind a text.
append-Spells :
    (text more : Text) (m n : ℕ)
    → Spells text m
    → Spells more n
    → length more ≡ 9
    → Spells (text ++ more) (n + giga * m)
append-Spells text more m n s t e = record {
  digits = AllOf-append IsDecimal text more s.digits t.digits;
  spelled = λ acc.
      numeral-append acc text more
      ∙ (t.spelled (numeral 10 decimal_digit acc text)
          ∙ rw (length-append text more, ten-pow-add (length text) (length more), e)
              (omega (arith, s.spelled acc)));
}

print_chunks-Spells :
    (c : ℕ) (cs : List ℕ)
    → AreChunks (c ∷ cs)
    → Spells (print_chunks (c ∷ cs)) (chunk_value (c ∷ cs))
unfolding print_chunks
print_chunks-Spells c [] h =
    let e : chunk_value (c ∷ []) ≡ c = omega arith in rw e (show-Spells 9 c (omega (arith, h.0)))
print_chunks-Spells c (d ∷ cs) h =
    let p = show_padded-Spells c h.0 in
    append-Spells (print_chunks (d ∷ cs)) (show_padded c) (chunk_value (d ∷ cs)) c
      (print_chunks-Spells d cs h.1) p.0 p.1

chunks-Spells :
    (cs : List ℕ) → AreChunks cs → 0 < chunk_value cs → Spells (print_chunks cs) (chunk_value cs)
chunks-Spells [] h positive = absurd (omega arith)
chunks-Spells (c ∷ cs) h positive = print_chunks-Spells c cs h

-- A text that spells a number other than 0 is not empty, and is read as that number.
read_back :
    (text : Text) (n : ℕ) (loc : SourceLocation)
    → Spells text n
    → 0 < n
    → ReadsAs (parse_integer_literal text loc) n
read_back [] n loc s positive = absurd (omega (arith, s.spelled 0))
read_back (c ∷ cs) n loc s positive =
    let (a, found, v, valid) = parse_decimal_literal c cs loc s.digits in
    (a, found, v ∙ ap pos (omega (arith, s.spelled 0)), valid)

printed :
    (ls : List ℕ) (loc : SourceLocation)
    → IsMagnitude ls
    → ReadsAs (parse_integer_literal (print_limbs false ls) loc) (value ls)
unfolding print_limbs
printed [] loc m = parse_decimal_literal b'0' [] loc ((omega arith, omega arith), tt)
printed (l ∷ ls) loc m =
    let chunks = decimal_chunks_lem (length (l ∷ ls)) (l ∷ ls) m (value-lt-pow (l ∷ ls) m.limbs) in
    let positive = value-pos l ls m.normal in
    rw (← chunks.0) (
      read_back _ _ loc
        (chunks-Spells (decimal_chunks (length (l ∷ ls)) (l ∷ ls)) chunks.1
          (omega (arith, chunks.0, positive)))
        (omega (arith, chunks.0, positive)))

-- For a value of the class that is not negative, `parse_integer_literal` of what `to_string` prints is the value.
pub parse_integer_literal-to_string :
    (a : ApInt) (loc : SourceLocation)
    → IsApInt a
    → a.negative ≡ false
    → parse_integer_literal (to_string a) loc ≡ ok a
unfolding to_string
parse_integer_literal-to_string a loc h e =
    let (b, found, v, valid) = printed a.limbs loc h.magnitude in
    let same : to_ℤ a ≡ pos (value a.limbs) = ap (λ (s : Bool). signed s (value a.limbs)) e in
    ap (λ (s : Bool). parse_integer_literal (print_limbs s a.limbs) loc) e
    ∙ (found ∙ ap ok (to_ℤ-injective b a valid h (v ∙ sym same)))
