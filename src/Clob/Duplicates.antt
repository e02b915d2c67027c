-- ===== src/Clob/Duplicates.antt =====
-- Which events a source publishes of those that it has seen.
use poly_market_btc_arbitrag.Prelude.{
  ℕ, zero, suc, ◌+◌, ◌-◌, ◌≤◌, ◌<◌, ◌≡◌, refl, true, false, not, List, [], ◌∷◌, ◌++◌, String,
  string_eq, arith, if◌then◌else◌, Bool-cases, inl, inr, length, length-append, equals_refl, ◌⊎◌,
  sym, subst, leb,
}
use poly_market_btc_arbitrag.Dict.{get, contains}
use poly_market_btc_arbitrag.Dict.Laws.{get-set}
use poly_market_btc_arbitrag.Clob.{ClobSource, cache_limit, drop_first, trim, cache_of, admit}

-- The identifiers that are kept of an asset's events.
abbrev pub seen : String → ClobSource → List String
seen asset s = cache_of (get asset s.deduplication)

-- The identifier stands in the list with at most so many behind it.
abbrev pub Within : ℕ → String → List String → Type 0
Within n id [] = ⊥
Within n id (x ∷ xs) = ((x ≡ id) × (length xs ≤ n)) ⊎ Within n id xs

-- The source after each of the identifiers of an asset.
unfoldable pub admit_all : String → List String → ClobSource → ClobSource
admit_all asset [] s = s
admit_all asset (id ∷ ids) s = admit_all asset ids (admit asset id s).0

Within-contains : (n : ℕ) (id : String) (xs : List String) → Within n id xs → contains id xs ≡ true
unfolding contains
Within-contains n id [] w = elim w [ ]
Within-contains n id (x ∷ xs) w = ground (arith, Within-contains n id xs, string_eq.equals_iff x id)

Within-snoc :
    (n : ℕ) (id y : String) (xs : List String) → Within n id xs → Within (suc n) id (xs ++ y ∷ [])
Within-snoc n id y [] w = elim w [ ]
Within-snoc n id y (x ∷ xs) w = ground (arith, Within-snoc n id y xs, length-append xs (y ∷ []))

Within-last : (id : String) (xs : List String) → Within 0 id (xs ++ id ∷ [])
Within-last id [] = inl (refl, omega arith)
Within-last id (x ∷ xs) = inr (Within-last id xs)

Within-weaken : (m n : ℕ) (id : String) (xs : List String) → m ≤ n → Within m id xs → Within n id xs
Within-weaken m n id [] le w = elim w [ ]
Within-weaken m n id (x ∷ xs) le w = ground (arith, Within-weaken m n id xs le)

Within-drop :
    (k n : ℕ) (id : String) (xs : List String)
    → k + n < length xs
    → Within n id xs
    → Within n id (drop_first k xs)
Within-drop zero n id xs le w = w
Within-drop (suc k) n id [] le w = elim w [ ]
Within-drop (suc k) n id (x ∷ xs) le w = ground (arith, Within-drop k n id xs)

trim-Within :
    (n : ℕ) (id : String) (xs : List String)
    → n < cache_limit
    → Within n id xs
    → Within n id (trim xs)
unfolding trim
trim-Within n id xs lt w = elim (Bool-cases (leb (length xs) cache_limit)) [
  | inl e ↦
      let short : length xs - cache_limit ≡ 0 = ground arith in
      subst (λ k. Within n id (drop_first k xs)) (sym short) w
  | inr e ↦ Within-drop (length xs - cache_limit) n id xs (ground arith) w
]

module _ (asset : String) where
  pub seen-admit :
      (id : String) (s : ClobSource)
      → seen asset (admit asset id s).0
        ≡ (if contains id (seen asset s) then seen asset s else trim (seen asset s ++ id ∷ []))
  unfolding admit
  seen-admit id s = ground (
    arith,
    get-set asset asset (seen asset s) s.deduplication,
    get-set asset asset (trim (seen asset s ++ id ∷ [])) s.deduplication,
    equals_refl asset,
  )

  published-admit :
      (id : String) (s : ClobSource) → (admit asset id s).1 ≡ not (contains id (seen asset s))
  unfolding admit
  published-admit id s = ground arith

  admit-Within :
      (n : ℕ) (id other : String) (s : ClobSource)
      → suc n < cache_limit
      → Within n id (seen asset s)
      → Within (suc n) id (seen asset (admit asset other s).0)
  admit-Within n id other s lt w = elim (Bool-cases (contains other (seen asset s))) [
    | inl e ↦ rw (seen-admit, e) (Within-weaken n (suc n) id (seen asset s) (omega arith) w)
    | inr e ↦
        rw (seen-admit, e)
          (trim-Within (suc n) id (seen asset s ++ other ∷ []) lt
            (Within-snoc n id other (seen asset s) w))
  ]

  admit_all-Within :
      (n : ℕ) (id : String) (ids : List String) (s : ClobSource)
      → n + length ids < cache_limit
      → Within n id (seen asset s)
      → Within (n + length ids) id (seen asset (admit_all asset ids s))
  unfolding admit_all
  admit_all-Within n id [] s lt w = Within-weaken n (n + 0) id (seen asset s) (omega arith) w
  admit_all-Within n id (other ∷ ids) s lt w =
      Within-weaken (suc n + length ids) (n + suc (length ids)) id _ (omega arith) (
        admit_all-Within (suc n) id ids (admit asset other s).0 (omega arith)
          (admit-Within n id other s (omega arith) w))

  -- An identifier that was published is not published again while fewer than 10000 events of its asset have
  -- come since, whatever these are.
  pub admit-again :
      (id : String) (ids : List String) (s : ClobSource)
      → (admit asset id s).1 ≡ true
      → length ids < cache_limit
      → (admit asset id (admit_all asset ids (admit asset id s).0)).1 ≡ false
  admit-again id ids s first few =
      let new : contains id (seen asset s) ≡ false = ground (arith, published-admit id s) in
      let last : Within 0 id (seen asset (admit asset id s).0) =
        rw (seen-admit, new)
          (trim-Within 0 id (seen asset s ++ id ∷ []) (omega arith)
            (Within-last id (seen asset s))) in
      let still = admit_all-Within 0 id ids (admit asset id s).0 (omega arith) last in
      ground (
        arith,
        published-admit id (admit_all asset ids (admit asset id s).0),
        Within-contains _ id _ still,
      )
