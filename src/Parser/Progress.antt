-- ===== src/Parser/Progress.antt =====
-- What a method of the parser does to the tokens that are left. `Moving k d m` says of `m`, where
-- fewer than `k` tokens are left, that it does not run out of fuel, takes `d` or more where it
-- returns, and adds none where it throws.
pub mod Tokens
pub mod Loops
pub mod Annotations
pub mod Passing
pub mod Types
pub mod Levels
pub mod Primary
pub mod Unary
pub mod Variables
pub mod FunctionHead
pub mod Declarations
pub mod Statements
pub mod Modules
pub mod Termination
use vexel_lang.Parser.{
  Outcome, Parser, Parsing, asks, done, lift, out_of_fuel, returned, throw_at, thrown, ◌>>=◌,
}
use vexel_lang.Base.{Bool, arith, false, if◌then◌else◌, length, suc, true, ℕ, ◌+◌, ◌<◌, ◌≤◌}
use vexel_lang.Error.{Message, Result, SourceLocation, err, ok}

module _ {F : Type 0} where
  abbrev pub remaining : Parser F → ℕ
  remaining s = length s.pos.rest

  abbrev pub Within : {A : Type 0} → ℕ → ℕ → Outcome F A → Type 0
  Within d n (returned a t) = d + remaining t ≤ n
  Within d n (thrown e t) = remaining t ≤ n
  Within d n out_of_fuel = ⊥

  pub record Moving {A : Type 0} (k d : ℕ) (m : Parsing F A) : Type 0 where
    pub moves : (s : Parser F) → remaining s < k → Within d (remaining s) (m s)

  pub Within-from :
      {A : Type 0} (c d e m n : ℕ) (o : Outcome F A)
      → c + m ≤ n
      → e ≤ c + d
      → Within d m o
      → Within e n o
  Within-from c d e m n (returned a t) h he w = omega arith
  Within-from c d e m n (thrown x t) h he w = omega arith
  Within-from c d e m n out_of_fuel h he w = w

  pub Within-bind :
      {A B : Type 0} (d e n : ℕ) (o : Outcome F A) (f : A → Parsing F B)
      → Within d n o
      → ((a : A) (t : Parser F) → d + remaining t ≤ n → Within e n (f a t))
      → Within e n
          (elim o [ returned a t ↦ f a t | thrown x t ↦ thrown x t | out_of_fuel ↦ out_of_fuel ])
  Within-bind d e n (returned a t) f w hf = hf a t w
  Within-bind d e n (thrown x t) f w hf = w
  Within-bind d e n out_of_fuel f w hf = w

  -- Behind `m`, which takes `c` tokens or more, fewer than `j` are left.
  pub Moving-bind :
      {A B : Type 0} (c d e j k : ℕ) (m : Parsing F A) (f : A → Parsing F B)
      → k ≤ c + j
      → e ≤ c + d
      → Moving k c m
      → ((a : A) → Moving j d (f a))
      → Moving k e (m >>= f)
  Moving-bind c d e j k m f hk he hm hf = record {
    moves = λ s hs. Within-bind c e (remaining s) (m s) f (hm.moves s hs) (λ a t ht.
        Within-from c d e (remaining t) (remaining s) (f a t) (omega arith) he
          ((hf a).moves t (omega arith)));
  }

  pub bind0 :
      {A B : Type 0} {k d : ℕ} {m : Parsing F A} {f : A → Parsing F B}
      → Moving k 0 m
      → ((a : A) → Moving k d (f a))
      → Moving k d (m >>= f)
  bind0 {k = k} {d = d} {m = m} {f = f} hm hf =
      Moving-bind 0 d d k k m f (omega arith) (omega arith) hm hf

  -- Behind a token that was taken.
  pub bind1 :
      {A B : Type 0} {k : ℕ} {m : Parsing F A} {f : A → Parsing F B}
      → Moving (suc k) 1 m
      → ((a : A) → Moving k 0 (f a))
      → Moving (suc k) 1 (m >>= f)
  bind1 {k = k} {m = m} {f = f} hm hf =
      Moving-bind 1 0 1 k (suc k) m f (omega arith) (omega arith) hm hf

  pub bind10 :
      {A B : Type 0} {k : ℕ} {m : Parsing F A} {f : A → Parsing F B}
      → Moving k 1 m
      → ((a : A) → Moving k 0 (f a))
      → Moving k 1 (m >>= f)
  bind10 {k = k} {m = m} {f = f} hm hf = Moving-bind 1 0 1 k k m f (omega arith) (omega arith) hm hf

  pub Moving-weaken : {A : Type 0} {k : ℕ} (m : Parsing F A) → Moving k 1 m → Moving k 0 m
  Moving-weaken m hm = record {
    moves = λ s hs.
        Within-from 0 1 0 (remaining s) (remaining s) (m s) (omega arith) (omega arith)
          (hm.moves s hs);
  }

  pub Moving-less : {A : Type 0} {k d : ℕ} (m : Parsing F A) → Moving (suc k) d m → Moving k d m
  Moving-less m hm = record { moves = λ s hs. hm.moves s (omega arith) }

  pub Moving-done : {A : Type 0} {k : ℕ} (a : A) → Moving k 0 (done a)
  Moving-done a = record { moves = λ s hs. omega arith }

  pub Moving-asks : {A : Type 0} {k : ℕ} (f : Parser F → A) → Moving k 0 (asks f)
  Moving-asks f = record { moves = λ s hs. omega arith }

  pub Moving-throw :
      {A : Type 0} {k d : ℕ} (message : Message) (loc : SourceLocation)
      → Moving k d (throw_at {A = A} message loc)
  Moving-throw message loc = record { moves = λ s hs. omega arith }

  pub Moving-lift : {A : Type 0} {k : ℕ} (r : Result A) → Moving k 0 (lift r)
  Moving-lift (ok a) = record { moves = λ s hs. omega arith }
  Moving-lift (err e) = record { moves = λ s hs. omega arith }

  pub Moving-if :
      {A : Type 0} {k d : ℕ} (b : Bool) {m n : Parsing F A}
      → Moving k d m
      → Moving k d n
      → Moving k d (if b then m else n)
  Moving-if true hm hn = hm
  Moving-if false hm hn = hn

  pub Moving-elim :
      {A : Type 0} {k d : ℕ} (b : Bool) (m n : Parsing F A)
      → Moving k d m
      → Moving k d n
      → Moving k d (elim b as (λ _. Parsing F A) [ true ↦ m | false ↦ n ])
  Moving-elim true m n hm hn = hm
  Moving-elim false m n hm hn = hn

  pub by_bool :
      {A : Type 0} {k d : ℕ} (f : Bool → Parsing F A)
      → Moving k d (f true)
      → Moving k d (f false)
      → (b : Bool) → Moving k d (f b)
  by_bool f ht hf true = ht
  by_bool f ht hf false = hf
