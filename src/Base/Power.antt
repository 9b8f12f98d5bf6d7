-- ===== src/Base/Power.antt =====
-- Powers of two: the laws that shifts and widths rest on.
use native.Mathlib.Nat.{pow-suc, one-le-pow, zero-add}
use Prim.Native.Nat.add
use vexel_lang.Base.{ℕ, zero, suc, ◌+◌, ◌*◌, ◌^◌, ◌<◌, ◌≡◌, arith}

pub two-pow-suc : (k : ℕ) → 2 ^ suc k ≡ 2 * 2 ^ k
two-pow-suc k = omega (arith, pow-suc 2 k)

pub two-pow-add : (m n : ℕ) → 2 ^ (m + n) ≡ 2 ^ m * 2 ^ n
two-pow-add zero n = rw zero-add (omega arith)
two-pow-add (suc m) n =
    rw (add.suc m n, two-pow-suc (m + n), two-pow-suc m, two-pow-add m n) (omega arith)

pub two-pow-pos : (k : ℕ) → 0 < 2 ^ k
two-pow-pos k = one-le-pow k 2 (omega arith)
