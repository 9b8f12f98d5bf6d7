-- ===== src/Limbs/Value.antt =====
-- The number that a limb vector stands for, and the vectors that the code keeps: limbs below the
-- base, and none at the back that is 0.
use vexel_lang.Base.{ℕ, ◌+◌, ◌*◌, ◌<◌, List, [], ◌∷◌}
use vexel_lang.Limbs.{limb_base}

abbrev pub value : List ℕ → ℕ
value [] = 0
value (l ∷ ls) = l + limb_base * value ls

abbrev pub IsLimbs : List ℕ → Type 0
IsLimbs [] = Unit
IsLimbs (l ∷ ls) = (l < limb_base) × IsLimbs ls

abbrev pub IsNormal : List ℕ → Type 0
IsNormal [] = Unit
IsNormal (l ∷ []) = 0 < l
IsNormal (l ∷ h ∷ t) = IsNormal (h ∷ t)

pub record IsMagnitude (ls : List ℕ) : Type 0 where
  pub limbs : IsLimbs ls
  pub normal : IsNormal ls
