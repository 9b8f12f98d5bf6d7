-- ===== src/Tests/Literals.antt =====
-- Literals at concrete texts.
use vexel_lang.Base.{List, [], arith, false, inl, inr, refl, ℕ, ◌∷◌, ◌≡◌}
use vexel_lang.Error.{no_location, ok}
use vexel_lang.ApInt.{ApInt}
use vexel_lang.ApInt.Meaning.{IsApInt}
use vexel_lang.Literal.{parse_integer_literal, to_string, to_unsigned_le_bytes}
use vexel_lang.Literal.Parse.{ReadsAs, parse_decimal_literal, parse_hex_literal}
use vexel_lang.Literal.Print.{parse_integer_literal-to_string}
use vexel_lang.Literal.Bytes.{bytes_value, to_unsigned_le_bytes_lem}

parse_decimal_literal_example : ReadsAs (parse_integer_literal (b'4' ∷ b'2' ∷ []) no_location) 42
parse_decimal_literal_example =
    parse_decimal_literal b'4' (b'2' ∷ []) no_location
      ((omega arith, omega arith), ((omega arith, omega arith), tt))

parse_hex_literal_example :
    ReadsAs (parse_integer_literal (b'0' ∷ b'x' ∷ b'f' ∷ b'F' ∷ []) no_location) 255
parse_hex_literal_example =
    parse_hex_literal b'x' b'f' (b'F' ∷ []) no_location (inl refl)
      (inr (inl (omega arith, omega arith)), (inr (inr (omega arith, omega arith)), tt))

-- 65537.
abbrev two_limbs : ApInt
two_limbs = record { negative = false; limbs = 1 ∷ 1 ∷ [] }

two_limbs-IsApInt : IsApInt two_limbs
two_limbs-IsApInt = record {
  magnitude = record { limbs = (omega arith, (omega arith, tt)); normal = omega arith };
  sign = λ e. cc;
}

parse_integer_literal-to_string_example :
    parse_integer_literal (to_string two_limbs) no_location ≡ ok two_limbs
parse_integer_literal-to_string_example =
    parse_integer_literal-to_string two_limbs no_location two_limbs-IsApInt refl

to_unsigned_le_bytes_lem_example :
    (bytes : List ℕ) × (to_unsigned_le_bytes two_limbs 2 ≡ ok bytes) × (bytes_value bytes ≡ 1)
to_unsigned_le_bytes_lem_example = to_unsigned_le_bytes_lem two_limbs 2 two_limbs-IsApInt refl
