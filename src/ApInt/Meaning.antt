-- ===== src/ApInt/Meaning.antt =====
-- The integer that an `APInt` stands for, and the values that the class keeps.
use vexel_lang.Base.{
  ◌==◌, ℕ, ◌<◌, ◌^◌, Bool, true, false, not, ◌&&◌, List, [], ◌∷◌, ◌≡◌, refl, ap, ◌∙◌, arith,
}
use vexel_lang.Base.Int.{ℤ, pos, sub_ℕ}
use vexel_lang.Limbs.{normalize_limbs}
use vexel_lang.Limbs.Value.{value, IsLimbs, IsMagnitude}
use vexel_lang.Limbs.Normal.{
  value-normalize_limbs, normalize_limbs-IsMagnitude, value-injective, value-pos,
}
use vexel_lang.Limbs.Sum.{value-push_limbs}
use vexel_lang.Limbs.Carry.{push_limbs-IsMagnitude}
use vexel_lang.ApInt.{ApInt, from_parts, from_u64, is_empty}

abbrev pub signed : Bool → ℕ → ℤ
signed false n = pos n
signed true n = sub_ℕ 0 n

abbrev pub to_ℤ : ApInt → ℤ
to_ℤ a = signed a.negative (value a.limbs)

-- A magnitude, and no negative zero.
pub record IsApInt (a : ApInt) : Type 0 where
  pub magnitude : IsMagnitude a.limbs
  pub sign : a.negative ≡ true → 0 < value a.limbs

from_kept :
    (negative : Bool) (kept : List ℕ)
    → IsMagnitude kept
    → IsApInt (record { negative = negative && not (is_empty kept); limbs = kept })
from_kept negative [] m = record { magnitude = m; sign = λ e. ground arith }
from_kept negative (l ∷ ls) m = record { magnitude = m; sign = λ e. value-pos l ls m.normal }

pub from_parts-IsApInt :
    (negative : Bool) (ls : List ℕ) → IsLimbs ls → IsApInt (from_parts negative ls)
unfolding from_parts
from_parts-IsApInt negative ls h =
    from_kept negative (normalize_limbs ls) (normalize_limbs-IsMagnitude ls h)

kept_value :
    (negative : Bool) (kept : List ℕ)
    → to_ℤ (record { negative = negative && not (is_empty kept); limbs = kept })
      ≡ signed negative (value kept)
kept_value false kept = refl
kept_value true [] = refl
kept_value true (l ∷ ls) = refl

pub to_ℤ-from_parts :
    (negative : Bool) (ls : List ℕ) → to_ℤ (from_parts negative ls) ≡ signed negative (value ls)
unfolding from_parts
to_ℤ-from_parts negative ls =
    kept_value negative (normalize_limbs ls) ∙ ap (signed negative) (value-normalize_limbs ls)

pub to_ℤ-from_u64 : (n : ℕ) → n < 2 ^ 64 → to_ℤ (from_u64 n) ≡ pos n
unfolding from_u64
to_ℤ-from_u64 n h = ap pos (value-push_limbs 4 n h)

pub from_u64-IsApInt : (n : ℕ) → n < 2 ^ 64 → IsApInt (from_u64 n)
unfolding from_u64
from_u64-IsApInt n h = record { magnitude = push_limbs-IsMagnitude 4 n h; sign = λ e. cc }

-- Two values of the class that stand for one integer are equal.
pub to_ℤ-injective : (a b : ApInt) → IsApInt a → IsApInt b → to_ℤ a ≡ to_ℤ b → a ≡ b
to_ℤ-injective a b ha hb e =
    let signs : a.negative ≡ b.negative = ground (arith, ha.sign, hb.sign) in
    let values : value a.limbs ≡ value b.limbs = ground (arith, ha.sign, hb.sign) in
    let limbs = value-injective a.limbs b.limbs ha.magnitude hb.magnitude values in
    λ i. record { negative = signs i; limbs = limbs i }

pub value-from_parts :
    (negative : Bool) (ls : List ℕ) → value (from_parts negative ls).limbs ≡ value ls
unfolding from_parts
value-from_parts negative ls = value-normalize_limbs ls

pub is_empty_lem : (ls : List ℕ) → IsMagnitude ls → is_empty ls ≡ (value ls == 0)
is_empty_lem [] m = refl
is_empty_lem (l ∷ ls) m = ground (arith, value-pos l ls m.normal)

pub is_empty_pos : (ls : List ℕ) → 0 < value ls → is_empty ls ≡ false
is_empty_pos [] h = absurd (omega arith)
is_empty_pos (l ∷ ls) h = refl
