-- ===== src/Prelude/Options.antt =====
-- Chains of steps that may have no result.
use mathlib.Core.Bool.{Bool, true, false}
use mathlib.Core.Option.{Option, none, some}
use mathlib.Core.Path.{◌≡◌, refl}
use poly_market_btc_arbitrag.Prelude.Tests.{if◌then◌else◌}

infixl 5 ◌>>=◌ ◌>>◌
abbrev pub ◌>>=◌ {ℓ κ} : {A : Type ℓ} {B : Type κ} → Option A → (A → Option B) → Option B
none >>= step = none
some a >>= step = step a

abbrev pub ◌>>◌ {ℓ} : {B : Type ℓ} → Option (Unit {0}) → Option B → Option B
first >> second = first >>= λ _. second

-- The step that has a result just when the test holds.
abbrev pub require : Bool → Option (Unit {0})
require false = none
require true = some tt

module _ {ℓ κ} {A : Type ℓ} (P : A → Type κ) where
  -- The result has the property, if there is one.
  abbrev pub Every : Option A → Type κ
  Every none = Unit
  Every (some a) = P a

  pub Every-bind {μ} :
      {B : Type μ} (first : Option B) (step : B → Option A)
      → ((b : B) → first ≡ some b → Every (step b))
      → Every (first >>= step)
  Every-bind none step h = tt
  Every-bind (some b) step h = h b refl

  pub Every-require :
      (test : Bool) (rest : Option A) → (test ≡ true → Every rest) → Every (require test >> rest)
  Every-require true rest h = h refl
  Every-require false rest h = tt

  pub Every-if :
      (test : Bool) (first second : Option A)
      → Every first
      → Every second
      → Every (if test then first else second)
  Every-if true first second h k = h
  Every-if false first second h k = k

pub Every-mono {ℓ κ} :
    {A : Type ℓ} (P Q : A → Type κ) (result : Option A)
    → ((a : A) → P a → Q a)
    → Every P result
    → Every Q result
Every-mono P Q none h e = e
Every-mono P Q (some a) h e = h a e

-- There is a result, and it has the property.
abbrev pub Gives {ℓ} : {A : Type ℓ} → (A → Type 0) → Option A → Type 0
Gives P none = ⊥
Gives P (some a) = P a

pub Gives-bind {ℓ κ} :
    {A : Type ℓ} {B : Type κ} (Q : B → Type 0) (P : A → Type 0) (first : Option B)
    (step : B → Option A)
    → Gives Q first
    → ((b : B) → Q b → Gives P (step b))
    → Gives P (first >>= step)
Gives-bind Q P none step g h = elim g [ ]
Gives-bind Q P (some b) step g h = h b g

pub Gives-mono {ℓ} :
    {A : Type ℓ} (P Q : A → Type 0) (result : Option A)
    → ((a : A) → P a → Q a)
    → Gives P result
    → Gives Q result
Gives-mono P Q none h g = g
Gives-mono P Q (some a) h g = h a g
