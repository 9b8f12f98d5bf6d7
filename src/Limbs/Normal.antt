-- ===== src/Limbs/Normal.antt =====
-- `normalize_limbs`, and what a normal vector is: one for each number.
use vexel_lang.Base.{ℕ, ◌+◌, ◌*◌, ◌<◌, List, [], ◌∷◌, ◌≡◌, refl, ap₂, arith}
use vexel_lang.Limbs.{limb_base, normalize_limbs, keep_limb}
use vexel_lang.Limbs.Value.{value, IsLimbs, IsNormal, IsMagnitude}

value-keep_limb : (l : ℕ) (ls : List ℕ) → value (keep_limb l ls) ≡ l + limb_base * value ls
value-keep_limb l [] = ground arith
value-keep_limb l (h ∷ t) = refl

pub value-normalize_limbs : (ls : List ℕ) → value (normalize_limbs ls) ≡ value ls
unfolding normalize_limbs
value-normalize_limbs [] = refl
value-normalize_limbs (l ∷ ls) =
    omega (arith, value-keep_limb l (normalize_limbs ls), value-normalize_limbs ls)

keep_limb-IsMagnitude :
    (l : ℕ) (ls : List ℕ) → l < limb_base → IsMagnitude ls → IsMagnitude (keep_limb l ls)
keep_limb-IsMagnitude l [] h m = ground arith
keep_limb-IsMagnitude l (x ∷ t) h m = record { limbs = (h, m.limbs); normal = m.normal }

pub normalize_limbs-IsMagnitude : (ls : List ℕ) → IsLimbs ls → IsMagnitude (normalize_limbs ls)
unfolding normalize_limbs
normalize_limbs-IsMagnitude [] h = record { limbs = tt; normal = tt }
normalize_limbs-IsMagnitude (l ∷ ls) h =
    keep_limb-IsMagnitude l (normalize_limbs ls) h.0 (normalize_limbs-IsMagnitude ls h.1)

pub value-pos : (l : ℕ) (ls : List ℕ) → IsNormal (l ∷ ls) → 0 < value (l ∷ ls)
value-pos l [] h = omega arith
value-pos l (x ∷ t) h = omega (arith, value-pos x t h)

pub IsNormal-tail : (l : ℕ) (ls : List ℕ) → IsNormal (l ∷ ls) → IsNormal ls
IsNormal-tail l [] h = tt
IsNormal-tail l (x ∷ t) h = h

pub IsMagnitude-tail : {l : ℕ} {ls : List ℕ} → IsMagnitude (l ∷ ls) → IsMagnitude ls
IsMagnitude-tail {l} {ls} m = record { limbs = m.limbs.1; normal = IsNormal-tail l ls m.normal }

-- Two magnitudes with one value are one vector.
pub value-injective : (a b : List ℕ) → IsMagnitude a → IsMagnitude b → value a ≡ value b → a ≡ b
value-injective [] [] ma mb e = refl
value-injective [] (y ∷ b) ma mb e = absurd (omega (arith, value-pos y b mb.normal))
value-injective (x ∷ a) [] ma mb e = absurd (omega (arith, value-pos x a ma.normal))
value-injective (x ∷ a) (y ∷ b) ma mb e = ap₂ ◌∷◌ (omega (arith, ma.limbs.0, mb.limbs.0)) (
    value-injective a b (IsMagnitude-tail ma) (IsMagnitude-tail mb)
      (omega (arith, ma.limbs.0, mb.limbs.0)))

-- A normal vector is left as it is.
pub normalize_limbs-IsNormal : (ls : List ℕ) → IsNormal ls → normalize_limbs ls ≡ ls
unfolding normalize_limbs
normalize_limbs-IsNormal [] h = refl
normalize_limbs-IsNormal (l ∷ []) h = ground arith
normalize_limbs-IsNormal (l ∷ x ∷ t) h =
    ap₂ keep_limb {x = l} refl (normalize_limbs-IsNormal (x ∷ t) h)

pub IsNormal-cons : (l : ℕ) (ls : List ℕ) → IsNormal ls → 0 < value ls → IsNormal (l ∷ ls)
IsNormal-cons l [] h pos = absurd (omega arith)
IsNormal-cons l (x ∷ t) h pos = h
