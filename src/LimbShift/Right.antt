-- ===== src/LimbShift/Right.antt =====
-- `shift_right_limbs`, on the number that a vector stands for.
use vexel_lang.Base.{
  ℕ, zero, suc, ◌+◌, ◌-◌, ◌*◌, ◌/◌, ◌%◌, ◌^◌, ◌<◌, ◌≤◌, bit_or, sym, List, [], ◌∷◌, ◌≡◌, refl, ap,
  ◌∙◌, arith, length, drop, ◌==◌, leb, leb→le, ==_iff, Bool-cases, inl, inr,
}
use native.Mathlib.Nat.{
  div-div-eq-div-mul, add-mul-div_left, mod-eq_of_lt, mul_assoc, add-mul-mod_self_left, div-one,
  div-add-mod, div-lt_iff_lt-mul, mod-lt, zero-div, mul_comm,
}
use vexel_lang.Base.Power.{two-pow-add, two-pow-pos}
use vexel_lang.Base.Bits.{or_fields_swap}
use vexel_lang.Limbs.{limb_base, normalize_limbs, u32}
use vexel_lang.Limbs.Value.{value, IsLimbs, IsMagnitude}
use vexel_lang.Limbs.Normal.{value-normalize_limbs, normalize_limbs-IsMagnitude}
use vexel_lang.LimbShift.Left.{two-pow-split}
use vexel_lang.LimbShift.{Shifted, shift_right_loop, shift_right_limbs}

-- 16 bits split at `s`.
pub limb_split : (s : ℕ) → s ≤ 16 → limb_base ≡ 2 ^ s * 2 ^ (16 - s)
limb_split s h =
    let e : 16 ≡ s + (16 - s) = omega arith in ap (λ (n : ℕ). 2 ^ n) e ∙ two-pow-add s (16 - s)

-- The quotient of a limb and the rest by `p`, where `p * q` is the base.
quotient_limb :
    (l v p q : ℕ)
    → 0 < p
    → limb_base ≡ p * q
    → (l + limb_base * v) / p ≡ v % p * q + l / p + limb_base * (v / p)
quotient_limb l v p q hp e =
    let a : (l + limb_base * v) / p ≡ l / p + q * v =
      ap (λ (t : ℕ). (l + t) / p) (ap (λ (t : ℕ). t * v) e ∙ omega arith)
      ∙ add-mul-div_left l (q * v) hp in
    omega (arith, a, ap (λ (t : ℕ). t * q) (div-add-mod v p), ap (λ (t : ℕ). t * (v / p)) e)

pub remainder_limb : (l v p q : ℕ) → limb_base ≡ p * q → (l + limb_base * v) % p ≡ l % p
remainder_limb l v p q e =
    ap (λ (t : ℕ). (l + t) % p) (ap (λ (t : ℕ). t * v) e ∙ mul_assoc p q v)
    ∙ add-mul-mod_self_left l p (q * v)

pub record IsShiftedRight (ls : List ℕ) (s : ℕ) (out : Shifted) : Type 0 where
  pub limbs : IsLimbs out.out
  pub quotient : value out.out ≡ value ls / 2 ^ s
  pub remainder : out.carry ≡ value ls % 2 ^ s

shift_right_loop_lem :
    (ls : List ℕ) (s : ℕ) → IsLimbs ls → s < 16 → IsShiftedRight ls s (shift_right_loop ls s)
unfolding shift_right_loop
shift_right_loop_lem [] s h hs = record {
  limbs = tt;
  quotient = sym (zero-div (2 ^ s));
  remainder = sym (mod-eq_of_lt (two-pow-pos s));
}
shift_right_loop_lem (cur ∷ ls) s h hs =
    let ih = shift_right_loop_lem ls s h.1 hs in
    let p : ℕ = 2 ^ s in
    let q : ℕ = 2 ^ (16 - s) in
    let v : ℕ = value ls in
    let split : limb_base ≡ p * q = limb_split s (omega arith) in
    let carry_lt : v % p < p = mod-lt v (two-pow-pos s) in
    let low : cur / p < q =
      (div-lt_iff_lt-mul (two-pow-pos s)).1 (omega (arith, h.0, split, mul_comm p q)) in
    let high : v % p * q + q ≤ limb_base = grind (arith, split, carry_lt) in
    let word : bit_or (cur / p) (u32 ((shift_right_loop ls s).carry * q)) ≡ v % p * q + cur / p =
      rw (ih.remainder, mod-eq_of_lt {n = v % p * q} {m = 2 ^ 32} (omega (arith, high)))
        (or_fields_swap (16 - s) (v % p) (cur / p) low) in
    record {
      limbs = (omega (arith, word, high, low), ih.limbs);
      quotient = rw (word, ih.quotient) (sym (quotient_limb cur v p q (two-pow-pos s) split));
      remainder = sym (remainder_limb cur v p q split);
    }

value-drop : (n : ℕ) (ls : List ℕ) → IsLimbs ls → value (drop n ls) ≡ value ls / 2 ^ (16 * n)
value-drop zero ls h = sym (div-one (value ls))
value-drop (suc n) [] h = sym (zero-div (2 ^ (16 * suc n)))
value-drop (suc n) (l ∷ ls) h =
    let e : 16 * suc n ≡ 16 + 16 * n = omega arith in
    let first : (l + limb_base * value ls) / limb_base ≡ value ls = omega (arith, h.0) in
    rw
      (
        e,
        two-pow-add 16 (16 * n),
        ← div-div-eq-div-mul (l + limb_base * value ls) limb_base (2 ^ (16 * n)),
        first,
      )
      (value-drop n ls h.1)

drop-IsLimbs : (n : ℕ) (ls : List ℕ) → IsLimbs ls → IsLimbs (drop n ls)
drop-IsLimbs zero ls h = h
drop-IsLimbs (suc n) [] h = tt
drop-IsLimbs (suc n) (l ∷ ls) h = drop-IsLimbs n ls h.1

drop_all : (n : ℕ) (ls : List ℕ) → length ls ≤ n → drop n ls ≡ []
drop_all zero [] h = refl
drop_all zero (l ∷ ls) h = absurd (omega arith)
drop_all (suc n) [] h = refl
drop_all (suc n) (l ∷ ls) h = drop_all n ls (omega arith)

-- Whole limbs first, then the bits that are left.
two_stages : (n shift : ℕ) → n / 2 ^ (16 * (shift / 16)) / 2 ^ (shift % 16) ≡ n / 2 ^ shift
two_stages n shift =
    div-div-eq-div-mul n (2 ^ (16 * (shift / 16))) (2 ^ (shift % 16))
    ∙ ap (λ (t : ℕ). n / t) (sym (two-pow-split shift))

-- What the last two branches return, whichever it is.
module _ (ls : List ℕ) (shift : ℕ) (h : IsLimbs ls) where
  kept_quotient :
      (r : Shifted)
      → IsShiftedRight (drop (shift / 16) ls) (shift % 16) r
      → value (normalize_limbs r.out) ≡ value ls / 2 ^ shift
  kept_quotient r d =
      value-normalize_limbs r.out
      ∙ (d.quotient ∙ rw (value-drop (shift / 16) ls h) (two_stages (value ls) shift))

  whole_limbs :
      shift % 16 ≡ 0 → value (normalize_limbs (drop (shift / 16) ls)) ≡ value ls / 2 ^ shift
  whole_limbs e =
      value-normalize_limbs (drop (shift / 16) ls)
      ∙ (value-drop (shift / 16) ls h ∙ ap (λ (n : ℕ). value ls / 2 ^ n) (omega (arith, e)))

  nothing_left : length ls ≤ shift / 16 → 0 ≡ value ls / 2 ^ shift
  nothing_left le =
      let none_kept : 0 ≡ value ls / 2 ^ (16 * (shift / 16)) =
        ap value (sym (drop_all (shift / 16) ls le)) ∙ value-drop (shift / 16) ls h in
      sym (zero-div (2 ^ (shift % 16)))
      ∙ (ap (λ (t : ℕ). t / 2 ^ (shift % 16)) none_kept ∙ two_stages (value ls) shift)

pub value-shift_right_limbs :
    (ls : List ℕ) (shift : ℕ)
    → IsLimbs ls
    → value (shift_right_limbs ls shift) ≡ value ls / 2 ^ shift
unfolding shift_right_limbs
value-shift_right_limbs [] shift h = sym (zero-div (2 ^ shift))
value-shift_right_limbs (l ∷ ls) shift h = elim (Bool-cases (shift == 0)) [
  | inl e ↦ rw (e, (==_iff shift 0).0 e) (sym (div-one (value (l ∷ ls))))
  | inr e ↦ rw e (elim (Bool-cases (leb (length (l ∷ ls)) (shift / 16))) [
    | inl all ↦ rw all (nothing_left (l ∷ ls) shift h (leb→le (length (l ∷ ls)) (shift / 16) all))
    | inr some_left ↦ rw some_left (elim (Bool-cases (shift % 16 == 0)) [
      | inl whole ↦ rw whole (whole_limbs (l ∷ ls) shift h ((==_iff (shift % 16) 0).0 whole))
      | inr part ↦ rw part (
          kept_quotient (l ∷ ls) shift h
            (shift_right_loop (drop (shift / 16) (l ∷ ls)) (shift % 16))
            (shift_right_loop_lem (drop (shift / 16) (l ∷ ls)) (shift % 16)
              (drop-IsLimbs (shift / 16) (l ∷ ls) h) (omega arith)))
    ])
  ])
]

pub shift_right_limbs-IsMagnitude :
    (ls : List ℕ) (shift : ℕ) → IsMagnitude ls → IsMagnitude (shift_right_limbs ls shift)
unfolding shift_right_limbs
shift_right_limbs-IsMagnitude [] shift m = m
shift_right_limbs-IsMagnitude (l ∷ ls) shift m =
    let kept = drop (shift / 16) (l ∷ ls) in
    let kept_limbs = drop-IsLimbs (shift / 16) (l ∷ ls) m.limbs in
    let whole = normalize_limbs-IsMagnitude kept kept_limbs in
    let part =
      normalize_limbs-IsMagnitude (shift_right_loop kept (shift % 16)).out
        (shift_right_loop_lem kept (shift % 16) kept_limbs (omega arith)).limbs in
    elim (Bool-cases (shift == 0)) [
      | inl e ↦ rw e m
      | inr e ↦ rw e (elim (Bool-cases (leb (length (l ∷ ls)) (shift / 16))) [
        | inl e ↦ rw e (record { limbs = tt; normal = tt })
        | inr e ↦
            rw e (elim (Bool-cases (shift % 16 == 0)) [ inl e ↦ rw e whole | inr e ↦ rw e part ])
      ])
    ]
