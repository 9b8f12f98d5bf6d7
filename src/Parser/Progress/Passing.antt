-- ===== src/Parser/Progress/Passing.antt =====
-- What starts at a token that begins a declaration: whether that token is taken, also where it
-- throws.
use vexel_lang.Parser.Progress.{Moving, Within, remaining}
use vexel_lang.Parser.Progress.Tokens.{Live}
use vexel_lang.Parser.{Outcome, Parser, Parsing, current, out_of_fuel, returned, thrown}
use vexel_lang.Parser.Kinds.{starts_anywhere, starts_behind_semicolon}
use vexel_lang.Base.{arith, false, inl, inr, suc, ℕ, ◌+◌, ◌<◌, ◌≡◌, ◌≤◌, ◌⊎◌}

module _ {F : Type 0} where
  -- The current token is not the last one, and none where `synchronize` stops.
  abbrev pub IsPlain : Parser F → Type 0
  IsPlain s =
      Live s
      × (starts_behind_semicolon (current s).type ≡ false)
      × (starts_anywhere (current s).type ≡ false)

  abbrev pub Passing : {A : Type 0} → ℕ → Outcome F A → Type 0
  Passing n (returned a t) = 1 + remaining t ≤ n
  Passing n (thrown e t) = (1 + remaining t ≤ n) ⊎ ((remaining t ≤ n) × IsPlain t)
  Passing n out_of_fuel = ⊥

  pub Within-Passing :
      {A : Type 0} (m n : ℕ) (o : Outcome F A) → 1 + m ≤ n → Within 0 m o → Passing n o
  Within-Passing m n (returned a t) h w = omega arith
  Within-Passing m n (thrown e t) h w = inl (omega arith)
  Within-Passing m n out_of_fuel h w = w

  pub Passing-Within : {A : Type 0} (n : ℕ) (o : Outcome F A) → Passing n o → Within 1 n o
  Passing-Within n (returned a t) w = w
  Passing-Within n (thrown e t) (inl w) = omega arith
  Passing-Within n (thrown e t) (inr w) = w.0
  Passing-Within n out_of_fuel w = w

  pub Moving-Passing :
      {A : Type 0} {k : ℕ} (m : Parsing F A) (s t : Parser F)
      → Moving k 0 m
      → remaining s < suc k
      → 1 + remaining t ≤ remaining s
      → Passing (remaining s) (m t)
  Moving-Passing m s t hm hs ht =
      Within-Passing (remaining t) (remaining s) (m t) ht (hm.moves t (omega arith))
