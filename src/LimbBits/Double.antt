-- ===== src/LimbBits/Double.antt =====
-- `shl1_inplace` and `any_low_bits`, on the number that a vector stands for.
use vexel_lang.Base.{ℕ, ◌+◌, ◌*◌, ◌/◌, ◌%◌, ◌^◌, ◌<◌, bit_or, List, [], ◌∷◌, ◌≡◌, arith}
use vexel_lang.Base.Bits.{or_fields}
use vexel_lang.Limbs.{low_limb}
use vexel_lang.Limbs.Value.{value, IsLimbs, IsNormal, IsMagnitude}
use vexel_lang.Limbs.Normal.{IsMagnitude-tail}
use vexel_lang.LimbBits.{shl1_loop, shl1_inplace}

-- The doubled limb has a clear low bit, where the carry goes.
shifted_limb :
    (l carry : ℕ) → carry < 2 → bit_or (low_limb (l * 2)) carry ≡ low_limb (l * 2) + carry
shifted_limb l carry h =
    let e : low_limb (l * 2) ≡ l % 2 ^ 15 * 2 = omega arith in
    rw e (or_fields 1 (l % 2 ^ 15) carry h)

value-shl1_loop :
    (ls : List ℕ) (carry : ℕ)
    → IsLimbs ls
    → carry < 2
    → value (shl1_loop ls carry) ≡ 2 * value ls + carry
unfolding shl1_loop
value-shl1_loop [] carry h hc = ground arith
value-shl1_loop (l ∷ ls) carry h hc =
    omega
      (arith, h.0, shifted_limb l carry hc, value-shl1_loop ls (l / 2 ^ 15 % 2) h.1 (omega arith))

shl1_loop-IsLimbs :
    (ls : List ℕ) (carry : ℕ) → IsLimbs ls → carry < 2 → IsLimbs (shl1_loop ls carry)
unfolding shl1_loop
shl1_loop-IsLimbs [] carry h hc = ground arith
shl1_loop-IsLimbs (l ∷ ls) carry h hc = (
  omega (arith, shifted_limb l carry hc),
  shl1_loop-IsLimbs ls (l / 2 ^ 15 % 2) h.1 (omega arith),
)

pub value-shl1_inplace : (ls : List ℕ) → IsLimbs ls → value (shl1_inplace ls) ≡ 2 * value ls
unfolding shl1_inplace
value-shl1_inplace [] h = omega arith
value-shl1_inplace (l ∷ ls) h = omega (arith, value-shl1_loop (l ∷ ls) 0 h (omega arith))

pub shl1_inplace-IsLimbs : (ls : List ℕ) → IsLimbs ls → IsLimbs (shl1_inplace ls)
unfolding shl1_inplace
shl1_inplace-IsLimbs [] h = tt
shl1_inplace-IsLimbs (l ∷ ls) h = shl1_loop-IsLimbs (l ∷ ls) 0 h (omega arith)

shl1_loop-IsNormal :
    (l : ℕ) (ls : List ℕ) (carry : ℕ)
    → IsMagnitude (l ∷ ls)
    → carry < 2
    → IsNormal (shl1_loop (l ∷ ls) carry)
unfolding shl1_loop
shl1_loop-IsNormal l [] carry m hc = ground (arith, shifted_limb l carry hc, m.normal, m.limbs.0)
shl1_loop-IsNormal l (h ∷ t) carry m hc =
    shl1_loop-IsNormal h t (l / 2 ^ 15 % 2) (IsMagnitude-tail m) (omega arith)

pub shl1_inplace-IsMagnitude : (ls : List ℕ) → IsMagnitude ls → IsMagnitude (shl1_inplace ls)
shl1_inplace-IsMagnitude [] m = unfold shl1_inplace in record { limbs = tt; normal = tt }
shl1_inplace-IsMagnitude (l ∷ ls) m = record {
  limbs = shl1_inplace-IsLimbs (l ∷ ls) m.limbs;
  normal = unfold shl1_inplace in shl1_loop-IsNormal l ls 0 m (omega arith);
}
