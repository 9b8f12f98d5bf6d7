-- ===== src/LimbShift.antt =====
-- frontend/src/core/apint.cpp: `shift_left_limbs` and `shift_right_limbs`.
pub mod Left
pub mod Right
pub mod Low
use vexel_lang.Base.{ℕ, ◌-◌, ◌*◌, ◌/◌, ◌%◌, ◌^◌, bit_or, leb, ◌==◌, if◌then◌else◌}
use vexel_lang.Base.{List, [], ◌∷◌, ◌++◌, length, replicate, drop}
use vexel_lang.Limbs.{limb_bits, low_limb, high_part, u32, normalize_limbs}

unfoldable pub shift_left_loop : List ℕ → ℕ → ℕ → List ℕ
shift_left_loop [] bit_shift carry = if carry == 0 then [] else carry ∷ []
shift_left_loop (l ∷ ls) bit_shift carry =
    let cur = bit_or (l * 2 ^ bit_shift) carry in
    low_limb cur ∷ shift_left_loop ls bit_shift (high_part cur)

unfoldable pub shift_left_limbs : List ℕ → ℕ → List ℕ
shift_left_limbs [] shift = []
shift_left_limbs (l ∷ ls) shift =
    if shift == 0
    then l ∷ ls
    else normalize_limbs
        (replicate (shift / limb_bits) 0 ++ shift_left_loop (l ∷ ls) (shift % limb_bits) 0)

pub record Shifted : Type 0 where
  pub out : List ℕ
  pub carry : ℕ

-- From the back to the front, the low bits of a limb go on to the limb in front.
unfoldable pub shift_right_loop : List ℕ → ℕ → Shifted
shift_right_loop [] bit_shift = record { out = []; carry = 0 }
shift_right_loop (cur ∷ ls) bit_shift =
    let behind = shift_right_loop ls bit_shift in
    record {
      out =
          bit_or (cur / 2 ^ bit_shift) (u32 (behind.carry * 2 ^ (limb_bits - bit_shift)))
          ∷ behind.out;
      carry = cur % 2 ^ bit_shift;
    }

unfoldable pub shift_right_limbs : List ℕ → ℕ → List ℕ
shift_right_limbs [] shift = []
shift_right_limbs (l ∷ ls) shift =
    let kept = drop (shift / limb_bits) (l ∷ ls) in
    if shift == 0
    then l ∷ ls
    else if leb (length (l ∷ ls)) (shift / limb_bits)
    then []
    else if shift % limb_bits == 0
    then normalize_limbs kept
    else normalize_limbs (shift_right_loop kept (shift % limb_bits)).out
