-- ===== src/Literal/Parse.antt =====
-- Reading a literal, and the number that its digits spell in its base.
use vexel_lang.Base.{
  ◌++◌, ℕ, ◌+◌, ◌-◌, ◌*◌, ◌^◌, ◌<◌, ◌≤◌, false, List, [], ◌∷◌, ◌≡◌, refl, ap, ◌∙◌, arith,
  if◌then◌else◌, ltb, ◌||◌, ◌⊎◌,
}
use vexel_lang.Error.{Text, SourceLocation, Result, ok, throw, ◌>>=◌, invalid_integer_literal}
use vexel_lang.ApInt.{ApInt, from_parts}
use vexel_lang.ApInt.Meaning.{to_ℤ, IsApInt, to_ℤ-from_parts, from_parts-IsApInt}
use vexel_lang.Base.Int.{pos}
use vexel_lang.Base.{true}
use vexel_lang.Literal.{
  parse_hex_loop, parse_integer_literal, parse_hex_digits, parse_decimal_digits,
}
use vexel_lang.Limbs.{mul_small_inplace}
use vexel_lang.Limbs.Value.{value, IsLimbs}
use vexel_lang.Limbs.Sum.{value-add_small_inplace, add_small_inplace-IsLimbs}
use vexel_lang.Limbs.Product.{value-mul_small_inplace, mul_small_inplace-IsLimbs}
use vexel_lang.Literal.{is_hex_prefix, between, push_digit, parse_decimal_loop}

-- The value of a decimal digit and of a hexadecimal one.
abbrev pub decimal_digit : ℕ → ℕ
decimal_digit c = c - b'0'

abbrev pub hex_digit : ℕ → ℕ
hex_digit c =
    if between b'0' b'9' c
    then c - b'0'
    else if between b'a' b'f' c
    then 10 + (c - b'a')
    else 10 + (c - b'A')

-- What a text of digits stands for, with `acc` in front of it.
abbrev pub numeral : ℕ → (ℕ → ℕ) → ℕ → Text → ℕ
numeral base digit acc [] = acc
numeral base digit acc (c ∷ cs) = numeral base digit (acc * base + digit c) cs

abbrev pub IsDecimal : ℕ → Type 0
IsDecimal c = (b'0' ≤ c) × (c ≤ b'9')

abbrev pub IsHex : ℕ → Type 0
IsHex c = IsDecimal c ⊎ ((b'a' ≤ c) × (c ≤ b'f')) ⊎ ((b'A' ≤ c) × (c ≤ b'F'))

abbrev pub AllOf : (ℕ → Type 0) → Text → Type 0
AllOf P [] = Unit
AllOf P (c ∷ cs) = P c × AllOf P cs

pub value-push_digit :
    (base digit : ℕ) (limbs : List ℕ)
    → base < 2 ^ 32
    → digit < 2 ^ 32
    → IsLimbs limbs
    → (value (push_digit base digit limbs) ≡ value limbs * base + digit)
      × IsLimbs (push_digit base digit limbs)
value-push_digit base digit limbs hb hd h =
    let scaled = mul_small_inplace-IsLimbs limbs base h in
    (
      value-add_small_inplace (mul_small_inplace limbs base) digit scaled hd
          ∙ ap (λ (t : ℕ). t + digit) (value-mul_small_inplace limbs base h hb),
      add_small_inplace-IsLimbs _ digit scaled,
    )

-- The limbs that a loop returns stand for `n`.
abbrev pub Reads : Result (List ℕ) → ℕ → Type 0
Reads r n = (limbs : List ℕ) × (r ≡ ok limbs) × (value limbs ≡ n) × IsLimbs limbs

pub parse_decimal_loop_lem :
    (digits : Text) (loc : SourceLocation) (cs : Text) (limbs : List ℕ)
    → AllOf IsDecimal cs
    → IsLimbs limbs
    → Reads (parse_decimal_loop digits loc cs limbs) (numeral 10 decimal_digit (value limbs) cs)
unfolding parse_decimal_loop
parse_decimal_loop_lem digits loc [] limbs hc h = (limbs, refl, refl, h)
parse_decimal_loop_lem digits loc (c ∷ cs) limbs hc h =
    let p = value-push_digit 10 (c - b'0') limbs (omega arith) (omega (arith, hc.0)) h in
    let test : (ltb c b'0' || ltb b'9' c) ≡ false = ground (arith, hc.0) in
    let (out, found, v, valid) =
      parse_decimal_loop_lem digits loc cs (push_digit 10 (c - b'0') limbs) hc.1 p.1 in
    (
      out,
      rw (parse_decimal_loop, test) found,
      v ∙ ap (λ (n : ℕ). numeral 10 decimal_digit n cs) p.0,
      valid,
    )

-- The decimal loop throws the invalid literal at a byte that is no digit behind digits, whatever stands after it.
pub parse_decimal_loop_throws :
    (digits : Text) (loc : SourceLocation) (front : Text) (c : ℕ) (back : Text) (limbs : List ℕ)
    → AllOf IsDecimal front
    → ¬ IsDecimal c
    → parse_decimal_loop digits loc (front ++ c ∷ back) limbs
      ≡ throw (invalid_integer_literal digits) loc
unfolding parse_decimal_loop
parse_decimal_loop_throws digits loc [] c back limbs hf hc =
    let test : (ltb c b'0' || ltb b'9' c) ≡ true = ground (arith, hc) in
    rw (parse_decimal_loop, test)
parse_decimal_loop_throws digits loc (d ∷ front) c back limbs hf hc =
    let test : (ltb d b'0' || ltb b'9' d) ≡ false = ground (arith, hf.0) in
    rw (parse_decimal_loop, test)
      (parse_decimal_loop_throws digits loc front c back (push_digit 10 (d - b'0') limbs) hf.1 hc)

hex_step :
    (digits : Text) (loc : SourceLocation) (c : ℕ) (cs : Text) (limbs : List ℕ)
    → IsHex c
    → parse_hex_loop digits loc (c ∷ cs) limbs
      ≡ parse_hex_loop digits loc cs (push_digit 16 (hex_digit c) limbs)
unfolding parse_hex_loop
hex_step digits loc c cs limbs h = ground arith

hex_digit-lt : (c : ℕ) → IsHex c → hex_digit c < 16
hex_digit-lt c h = ground arith

pub parse_hex_loop_lem :
    (digits : Text) (loc : SourceLocation) (cs : Text) (limbs : List ℕ)
    → AllOf IsHex cs
    → IsLimbs limbs
    → Reads (parse_hex_loop digits loc cs limbs) (numeral 16 hex_digit (value limbs) cs)
parse_hex_loop_lem digits loc [] limbs hc h = (limbs, unfold parse_hex_loop in refl, refl, h)
parse_hex_loop_lem digits loc (c ∷ cs) limbs hc h =
    let p =
      value-push_digit 16 (hex_digit c) limbs (omega arith) (omega (arith, hex_digit-lt c hc.0))
        h in
    let (out, found, v, valid) =
      parse_hex_loop_lem digits loc cs (push_digit 16 (hex_digit c) limbs) hc.1 p.1 in
    (
      out,
      hex_step digits loc c cs limbs hc.0 ∙ found,
      v ∙ ap (λ (n : ℕ). numeral 16 hex_digit n cs) p.0,
      valid,
    )

-- A literal that is read as the number `n`.
abbrev pub ReadsAs : Result ApInt → ℕ → Type 0
ReadsAs r n = (a : ApInt) × (r ≡ ok a) × (to_ℤ a ≡ pos n) × IsApInt a

built :
    (r : Result (List ℕ)) (n : ℕ)
    → Reads r n
    → ReadsAs (r >>= λ limbs. ok (from_parts false limbs)) n
built r n (limbs, found, v, valid) = (
  from_parts false limbs,
  rw found,
  to_ℤ-from_parts false limbs ∙ ap pos v,
  from_parts-IsApInt false limbs valid,
)

not_hex_prefix : (a b : ℕ) → IsDecimal b → is_hex_prefix a b ≡ false
not_hex_prefix a b h = ground arith

-- A literal of one decimal digit or more is read as the number that its digits spell, a value of the class.
pub parse_decimal_literal :
    (c : ℕ) (cs : Text) (loc : SourceLocation)
    → AllOf IsDecimal (c ∷ cs)
    → ReadsAs (parse_integer_literal (c ∷ cs) loc) (numeral 10 decimal_digit 0 (c ∷ cs))
unfolding parse_integer_literal parse_decimal_digits
parse_decimal_literal c [] loc h =
    built (parse_decimal_loop (c ∷ []) loc (c ∷ []) []) _
      (parse_decimal_loop_lem (c ∷ []) loc (c ∷ []) [] h tt)
parse_decimal_literal c (d ∷ []) loc h =
    built _ _ (parse_decimal_loop_lem (c ∷ d ∷ []) loc (c ∷ d ∷ []) [] h tt)
parse_decimal_literal c (d ∷ e ∷ rest) loc h =
    rw (not_hex_prefix c d h.1.0)
      (built _ _ (parse_decimal_loop_lem (c ∷ d ∷ e ∷ rest) loc (c ∷ d ∷ e ∷ rest) [] h tt))

-- A literal of `0x` or `0X` and one hexadecimal digit or more, of either case, is read as the number that its digits
-- spell, a value of the class.
pub parse_hex_literal :
    (x : ℕ) (c : ℕ) (cs : Text) (loc : SourceLocation)
    → (x ≡ b'x') ⊎ (x ≡ b'X')
    → AllOf IsHex (c ∷ cs)
    → ReadsAs (parse_integer_literal (b'0' ∷ x ∷ c ∷ cs) loc) (numeral 16 hex_digit 0 (c ∷ cs))
unfolding parse_integer_literal parse_hex_digits
parse_hex_literal x c cs loc hx h =
    let prefix : is_hex_prefix b'0' x ≡ true = ground (arith, hx) in
    rw prefix (built _ _ (parse_hex_loop_lem (c ∷ cs) loc (c ∷ cs) [] h tt))
