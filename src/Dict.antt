-- ===== src/Dict.antt =====
-- Python's `dict` as its list of entries in insertion order. Assignment to a key that is there keeps
-- the key's place, a new key goes to the end, and `pop` takes the key's entry out.
pub mod Laws
use poly_market_btc_arbitrag.Prelude.{
  ◌≡◌, refl, Option, none, some, List, [], ◌∷◌, map, Bool, false, ◌||◌, Eq, ◌==◌, if◌then◌else◌,
}

abbrev pub Dict {ℓ κ} : Type ℓ → Type κ → Type (ℓ ⊔ κ)
Dict K V = List (K × V)

module _ {ℓ κ} {K : Type ℓ} {V : Type κ} where
  abbrev pub keys : Dict K V → List K
  keys [] = []
  keys ((k, v) ∷ d) = k ∷ keys d

module _ {ℓ κ} {K : Type ℓ} {V : Type κ} ⦃e : Eq K⦄ where
  -- `d.get(k)`
  unfoldable pub get : K → Dict K V → Option V
  get k [] = none
  get k ((j, v) ∷ d) = if j == k then some v else get k d

  -- `d[k] = v`
  unfoldable pub set : K → V → Dict K V → Dict K V
  set k v [] = (k, v) ∷ []
  set k v ((j, w) ∷ d) = if j == k then (j, v) ∷ d else (j, w) ∷ set k v d

  -- `d.pop(k, None)`, and `del d[k]` where the key is there
  unfoldable pub pop : K → Dict K V → Dict K V
  pop k [] = []
  pop k ((j, w) ∷ d) = let rest = pop k d in if j == k then rest else (j, w) ∷ rest

module _ {ℓ} {K : Type ℓ} ⦃e : Eq K⦄ where
  -- `k in d`
  unfoldable pub contains : K → List K → Bool
  contains k [] = false
  contains k (j ∷ ks) = (j == k) || contains k ks

  -- No entry twice.
  abbrev pub Distinct : List K → Type 0
  Distinct [] = Unit
  Distinct (k ∷ ks) = (contains k ks ≡ false) × Distinct ks
