-- ===== src/Literal.antt =====
-- frontend/src/core/apint.cpp: `parse_hex_digits`, `parse_decimal_digits`, `APInt::parse_integer_literal`,
-- `APInt::to_string` and `APInt::to_unsigned_le_bytes`. A std::string is the list of its bytes; the
-- decimal digits and the padding of std::ostringstream are written out here.
pub mod Parse
pub mod Chunks
pub mod Print
pub mod Bytes
use vexel_lang.Base.{ℕ, zero, suc, ◌+◌, ◌-◌, ◌*◌, ◌/◌, ◌%◌, ◌^◌, ltb, leb, ◌==◌, ◌&&◌, ◌||◌, Bool}
use vexel_lang.Base.{
  if◌then◌else◌, List, [], ◌∷◌, ◌++◌, length, replicate, get_elem?, true, false, none, some,
}
use vexel_lang.Error.{
  Text, SourceLocation, Result, ok, err, throw, ◌>>=◌, no_location, invalid_hexadecimal_literal,
  invalid_integer_literal, invalid_empty_integer_literal, unsigned_bytes_from_negative,
}
use vexel_lang.Limbs.{mul_small_inplace, add_small_inplace, div_small_inplace}
use vexel_lang.ApInt.{ApInt, from_parts}

-- `c >= low && c <= high`.
abbrev pub between : ℕ → ℕ → ℕ → Bool
between low high c = leb low c && leb c high

abbrev pub push_digit : ℕ → ℕ → List ℕ → List ℕ
push_digit base digit limbs = add_small_inplace (mul_small_inplace limbs base) digit

unfoldable pub parse_hex_loop : Text → SourceLocation → Text → List ℕ → Result (List ℕ)
parse_hex_loop digits loc [] limbs = ok limbs
parse_hex_loop digits loc (c ∷ rest) limbs = elim (between b'0' b'9' c) [
  | true ↦ parse_hex_loop digits loc rest (push_digit 16 (c - b'0') limbs)
  | false ↦ elim (between b'a' b'f' c) [
    | true ↦ parse_hex_loop digits loc rest (push_digit 16 (10 + (c - b'a')) limbs)
    | false ↦ elim (between b'A' b'F' c) [
      | true ↦ parse_hex_loop digits loc rest (push_digit 16 (10 + (c - b'A')) limbs)
      | false ↦ throw (invalid_hexadecimal_literal digits) loc
    ]
  ]
]

unfoldable pub parse_hex_digits : Text → SourceLocation → Result (List ℕ)
parse_hex_digits digits loc = parse_hex_loop digits loc digits []

unfoldable pub parse_decimal_loop : Text → SourceLocation → Text → List ℕ → Result (List ℕ)
parse_decimal_loop digits loc [] limbs = ok limbs
parse_decimal_loop digits loc (c ∷ rest) limbs = elim (ltb c b'0' || ltb b'9' c) [
  | true ↦ throw (invalid_integer_literal digits) loc
  | false ↦ parse_decimal_loop digits loc rest (push_digit 10 (c - b'0') limbs)
]

unfoldable pub parse_decimal_digits : Text → SourceLocation → Result (List ℕ)
parse_decimal_digits digits loc = parse_decimal_loop digits loc digits []

-- The prefix `0x` or `0X` with something behind it.
abbrev pub is_hex_prefix : ℕ → ℕ → Bool
is_hex_prefix a b = a == b'0' && (b == b'x' || b == b'X')

unfoldable pub parse_integer_literal : Text → SourceLocation → Result ApInt
parse_integer_literal [] loc = throw invalid_empty_integer_literal loc
parse_integer_literal (a ∷ b ∷ c ∷ rest) loc =
    let digits =
      if is_hex_prefix a b
      then parse_hex_digits (c ∷ rest) loc
      else parse_decimal_digits (a ∷ b ∷ c ∷ rest) loc in
    digits >>= λ limbs. ok (from_parts false limbs)
parse_integer_literal lexeme loc =
    parse_decimal_digits lexeme loc >>= λ limbs. ok (from_parts false limbs)

-- `os << n`: ten digits are enough for a uint32_t.
unfoldable pub show : ℕ → ℕ → Text
show zero n = []
show (suc fuel) n =
    let rest = show fuel (n / 10) in
    if ltb n 10 then (b'0' + n) ∷ [] else rest ++ (b'0' + n % 10) ∷ []

-- `std::setw(9) << std::setfill('0') << n`.
unfoldable pub show_padded : ℕ → Text
show_padded n = let text = show 10 n in replicate (9 - length text) b'0' ++ text

-- `while (!temp.empty())`: a division by 10 ^ 9 drops a limb at least.
unfoldable pub decimal_chunks : ℕ → List ℕ → List ℕ
decimal_chunks fuel [] = []
decimal_chunks zero (l ∷ ls) = []
decimal_chunks (suc fuel) (l ∷ ls) =
    let out = div_small_inplace (l ∷ ls) 1000000000 in
    out.remainder ∷ decimal_chunks fuel out.quotient

-- The last chunk as it is, then the others from the back with nine digits each.
unfoldable pub print_chunks : List ℕ → Text
print_chunks [] = []
print_chunks (c ∷ []) = show 10 c
print_chunks (c ∷ d ∷ cs) = print_chunks (d ∷ cs) ++ show_padded c

unfoldable pub print_limbs : Bool → List ℕ → Text
print_limbs negative [] = b'0' ∷ []
print_limbs negative (l ∷ ls) =
    (if negative then b'-' ∷ [] else []) ++ print_chunks (decimal_chunks (length (l ∷ ls)) (l ∷ ls))

unfoldable pub to_string : ApInt → Text
to_string a = print_limbs a.negative a.limbs

unfoldable pub le_byte : List ℕ → ℕ → ℕ
le_byte limbs i = elim (get_elem? limbs (i / 2)) [ none ↦ 0 | some l ↦ l / 2 ^ (i % 2 * 8) % 256 ]

-- `out[i]` from `i` on, `count` of them.
unfoldable pub le_bytes_from : List ℕ → ℕ → ℕ → List ℕ
le_bytes_from limbs i zero = []
le_bytes_from limbs i (suc count) = le_byte limbs i ∷ le_bytes_from limbs (i + 1) count

unfoldable pub to_unsigned_le_bytes : ApInt → ℕ → Result (List ℕ)
to_unsigned_le_bytes a byte_count =
    if a.negative
    then throw unsigned_bytes_from_negative no_location
    else ok (le_bytes_from a.limbs 0 byte_count)
