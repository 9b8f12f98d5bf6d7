-- ===== src/Parser/Returns.antt =====
-- What a chain of methods returns, from what its parts return.
use vexel_lang.Parser.Progress.{Within, remaining}
use vexel_lang.Parser.{Outcome, Parser, Parsing, out_of_fuel, returned, thrown, ◌>>=◌}
use vexel_lang.Base.{ap, ℕ, refl, ◌+◌, ◌≡◌, ◌≤◌}

module _ {F : Type 0} where
  pub bind_returned :
      {A B : Type 0} (m : Parsing F A) (f : A → Parsing F B) (s : Parser F) {a : A} {t : Parser F}
      → m s ≡ returned a t
      → (m >>= f) s ≡ f a t
  bind_returned {A} {B} m f s e =
      ap
        (λ (o : Outcome F A). elim o as (λ _. Outcome F B) [
          | returned a t ↦ f a t
          | thrown x t ↦ thrown x t
          | out_of_fuel ↦ out_of_fuel
        ])
        e

  -- The part in front of a chain that returns.
  pub bind_inv :
      {A B : Type 0} (m : Parsing F A) (f : A → Parsing F B) (s : Parser F) {b : B} {u : Parser F}
      → (m >>= f) s ≡ returned b u
      → (a : A) × (t : Parser F) × (m s ≡ returned a t) × (f a t ≡ returned b u)
  bind_inv {A} {B} m f s {b} {u} h = parts (m s) h
    where
      parts :
          (o : Outcome F A)
          → (elim o as (λ _. Outcome F B) [
            | returned a t ↦ f a t
            | thrown x t ↦ thrown x t
            | out_of_fuel ↦ out_of_fuel
          ])
            ≡ returned b u
          → (a : A) × (t : Parser F) × (o ≡ returned a t) × (f a t ≡ returned b u)
      parts (returned a t) h = (a, t, refl, h)
      parts (thrown x t) h = cc h
      parts out_of_fuel h = cc h

  pub returned-Within :
      {A : Type 0} (d n : ℕ) (o : Outcome F A) {a : A} {t : Parser F}
      → o ≡ returned a t
      → Within d n o
      → d + remaining t ≤ n
  returned-Within {A} d n o {a} {t} e w = coe 0 1 (i. Within {F = F} {A = A} d n (e i)) w
