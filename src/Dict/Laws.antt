-- ===== src/Dict/Laws.antt =====
-- Laws of the dictionary operations.
use poly_market_btc_arbitrag.Prelude.{
  is_some, ◌≡◌, none, some, [], ◌∷◌, ◌||◌, true, Eq, ◌==◌, arith, All, if◌then◌else◌, refl,
}
use poly_market_btc_arbitrag.Dict.{Dict, keys, get, set, pop, contains, Distinct}

module _ {ℓ κ} {K : Type ℓ} {V : Type κ} ⦃e : Eq K⦄ where
  pub get-set :
      (k j : K) (v : V) (d : Dict K V) → get j (set k v d) ≡ (if k == j then some v else get j d)
  unfolding get set
  get-set k j v [] = refl
  get-set k j v ((i, w) ∷ d) =
      ground (arith, e.equals_iff k j, e.equals_iff i k, e.equals_iff i j, get-set k j v d)

  pub get-pop : (k j : K) (d : Dict K V) → get j (pop k d) ≡ (if k == j then none else get j d)
  unfolding get pop
  get-pop k j [] = ground arith
  get-pop k j ((i, w) ∷ d) =
      ground (arith, e.equals_iff k j, e.equals_iff i k, e.equals_iff i j, get-pop k j d)

  pub contains-keys-set :
      (k j : K) (v : V) (d : Dict K V)
      → contains j (keys (set k v d)) ≡ ((k == j) || contains j (keys d))
  unfolding contains set
  contains-keys-set k j v [] = refl
  contains-keys-set k j v ((i, w) ∷ d) =
      ground
        (arith, e.equals_iff k j, e.equals_iff i k, e.equals_iff i j, contains-keys-set k j v d)

  pub contains-keys-pop :
      (k j : K) (d : Dict K V) → contains j (keys (pop k d)) ≡ true → contains j (keys d) ≡ true
  unfolding contains pop
  contains-keys-pop k j [] h = h
  contains-keys-pop k j ((i, w) ∷ d) h = ground (arith, contains-keys-pop k j d)

  pub set-Distinct :
      (k : K) (v : V) (d : Dict K V) → Distinct (keys d) → Distinct (keys (set k v d))
  unfolding contains set
  set-Distinct k v [] h = ground arith
  set-Distinct k v ((i, w) ∷ d) h =
      ground (
        arith,
        e.equals_iff i k,
        e.equals_iff k i,
        contains-keys-set k i v d,
        set-Distinct k v d h.1,
      )

  pub pop-Distinct : (k : K) (d : Dict K V) → Distinct (keys d) → Distinct (keys (pop k d))
  unfolding contains pop
  pop-Distinct k [] h = h
  pop-Distinct k ((i, w) ∷ d) h = ground (arith, contains-keys-pop k i d, pop-Distinct k d h.1)

  pub get-contains : (k : K) (v : V) (d : Dict K V) → get k d ≡ some v → contains k (keys d) ≡ true
  unfolding contains get
  get-contains k v [] h = ground arith
  get-contains k v ((i, w) ∷ d) h = ground (arith, get-contains k v d)

  pub is_some-get : (k : K) (d : Dict K V) → is_some (get k d) ≡ contains k (keys d)
  unfolding contains get
  is_some-get k [] = refl
  is_some-get k ((i, w) ∷ d) = ground (arith, is_some-get k d)

  module _ {μ} (P : K × V → Type μ) where
    pub get-All : (k : K) (v : V) (d : Dict K V) → All P d → get k d ≡ some v → P (k, v)
    unfolding get
    get-All k v [] a h = ground arith
    get-All k v ((i, w) ∷ d) a h = ground (arith, e.equals_iff i k, get-All k v d a.1)

    pub set-All : (k : K) (v : V) (d : Dict K V) → P (k, v) → All P d → All P (set k v d)
    unfolding set
    set-All k v [] p a = (p, tt)
    set-All k v ((i, w) ∷ d) p a = ground (arith, e.equals_iff i k, set-All k v d p a.1)
