-- ===== src/Prelude/Equality.antt =====
-- Python's `==` on the types whose values the program compares: an interface with its law, and the
-- instances for numbers, texts and optional values.
use Prim.Native.Nat.{ℕ}
use Prim.Native.String.{String}
use mathlib.Core.Path.{◌≡◌, refl}
use mathlib.Core.Logic.{◌↔◌}
use mathlib.Core.Bool.{Bool, true, false, ◌&&◌}
use mathlib.Core.List.{List, [], ◌∷◌}
use mathlib.Core.Option.{Option, none, some}
use native.Mathlib.Omega.{arith}
use text.Mathlib.Text.{◌==◌ as text_equal}
use text.Mathlib.TextEquality.{eq_iff}
use poly_market_btc_arbitrag.Prelude.Tests.{eqb}

pub record Eq {ℓ} (K : Type ℓ) : Type ℓ where
  pub equals : K → K → Bool
  pub equals_iff : (x y : K) → (equals x y ≡ true) ↔ (x ≡ y)

module _ {ℓ} {K : Type ℓ} ⦃k : Eq K⦄ where
  pub equals_refl : (x : K) → k.equals x x ≡ true
  equals_refl x = (k.equals_iff x x).1 refl

  -- `None` equals only itself.
  abbrev pub option_equals : Option K → Option K → Bool
  option_equals (some x) (some y) = k.equals x y
  option_equals none none = true
  option_equals _ _ = false

  pub option_equals_iff : (u v : Option K) → (option_equals u v ≡ true) ↔ (u ≡ v)
  option_equals_iff (some x) (some y) = ground (arith, k.equals_iff x y)
  option_equals_iff (some x) none = ground arith
  option_equals_iff none (some y) = ground arith
  option_equals_iff none none = ground arith

  instance abbrev pub option_eq : Eq (Option K)
  option_eq = record { equals_iff = option_equals_iff; equals = option_equals }

module _ {ℓ κ} {K : Type ℓ} {L : Type κ} ⦃k : Eq K⦄ ⦃l : Eq L⦄ where
  -- Tuples are equal part by part.
  abbrev pub pair_equals : K × L → K × L → Bool
  pair_equals (a, b) (c, d) = k.equals a c && l.equals b d

  pub pair_equals_iff : (p q : K × L) → (pair_equals p q ≡ true) ↔ (p ≡ q)
  pair_equals_iff (a, b) (c, d) = ground (arith, k.equals_iff a c, l.equals_iff b d)

  instance abbrev pub pair_eq : Eq (K × L)
  pair_eq = record { equals_iff = pair_equals_iff; equals = pair_equals }

module _ {ℓ} {K : Type ℓ} ⦃k : Eq K⦄ where
  -- Lists are equal entry by entry.
  abbrev pub list_equals : List K → List K → Bool
  list_equals [] [] = true
  list_equals (x ∷ xs) (y ∷ ys) = k.equals x y && list_equals xs ys
  list_equals _ _ = false

  pub list_equals_iff : (xs ys : List K) → (list_equals xs ys ≡ true) ↔ (xs ≡ ys)
  list_equals_iff [] [] = ground arith
  list_equals_iff (x ∷ xs) [] = ground arith
  list_equals_iff [] (y ∷ ys) = ground arith
  list_equals_iff (x ∷ xs) (y ∷ ys) = ground (arith, k.equals_iff x y, list_equals_iff xs ys)

  instance abbrev pub list_eq : Eq (List K)
  list_eq = record { equals_iff = list_equals_iff; equals = list_equals }

infix 50 ◌==◌
abbrev pub ◌==◌ {ℓ} : {K : Type ℓ} ⦃k : Eq K⦄ → K → K → Bool
◌==◌ ⦃k⦄ = k.equals

pub eqb_iff : (m n : ℕ) → (eqb m n ≡ true) ↔ (m ≡ n)
eqb_iff m n = ground arith

instance abbrev pub nat_eq : Eq ℕ
nat_eq = record { equals_iff = eqb_iff; equals = eqb }

instance abbrev pub string_eq : Eq String
string_eq = record { equals_iff = eq_iff; equals = text_equal }
