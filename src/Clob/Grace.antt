-- ===== src/Clob/Grace.antt =====
-- How long an asset that no market names is kept.
use poly_market_btc_arbitrag.Prelude.{
  ℕ, ◌+◌, ◌≡◌, refl, ◌∙◌, Bool, true, false, not, ◌&&◌, ◌||◌, Option, none, some, List, [], ◌∷◌,
  String, ◌==◌, string_eq, leb, arith, if◌then◌else◌, Bool-cases, inl, inr,
}
use poly_market_btc_arbitrag.Dict.{Dict, keys, get, pop, contains, Distinct}
use poly_market_btc_arbitrag.Dict.Laws.{get-set, get-pop, is_some-get, set-Distinct, pop-Distinct}
use poly_market_btc_arbitrag.Models.Enums.{Timeframe, timeframe_eq, timeframe_equals_iff}
use poly_market_btc_arbitrag.Discovery.Windows.{MarketWindow}
use poly_market_btc_arbitrag.Clob.{
  ClobAssetMetadata, ClobSource, insert_all, tokens, remember, set_default, retire_unlisted,
  unretire, on_market_snapshot, give_up, expire_entries, expire_assets,
}
use poly_market_btc_arbitrag.Clob.Assets.{contains-insert_all, contains-remove}

-- The time is at the deadline or behind it.
abbrev pub is_due : ℕ → Option ℕ → Bool
is_due now none = false
is_due now (some deadline) = leb deadline now

desired-expire_entries :
    (now : ℕ) (entries : Dict String ℕ) (s : ClobSource) (asset : String)
    → Distinct (keys entries)
    → contains asset (expire_entries now entries s).desired
      ≡ (contains asset s.desired && not (is_due now (get asset entries)))
unfolding expire_entries get contains give_up
desired-expire_entries now [] s asset d = ground arith
desired-expire_entries now ((name, deadline) ∷ entries) s asset d = ground (
  arith,
  desired-expire_entries now entries s asset d.1,
  desired-expire_entries now entries (give_up name s) asset d.1,
  contains-remove asset name s.desired,
  string_eq.equals_iff name asset,
  is_some-get asset entries,
)

-- Just the assets whose deadline has come are no longer wanted after an expiry.
pub expire_assets-desired :
    (now : ℕ) (s : ClobSource) (asset : String)
    → Distinct (keys s.retire_at)
    → contains asset (expire_assets now s).desired
      ≡ (contains asset s.desired && not (is_due now (get asset s.retire_at)))
unfolding expire_assets
expire_assets-desired now s asset d = desired-expire_entries now s.retire_at s asset d

get-unretire :
    (required : List String) (retire_at : Dict String ℕ) (asset : String)
    → get asset (unretire required retire_at)
      ≡ (if contains asset required then none else get asset retire_at)
unfolding unretire contains
get-unretire [] retire_at asset = refl
get-unretire (name ∷ required) retire_at asset =
    ground (arith, get-unretire required (pop name retire_at) asset, get-pop name asset retire_at)

get-set_default :
    (name : String) (deadline : ℕ) (retire_at : Dict String ℕ) (asset : String)
    → get asset (set_default name deadline retire_at) ≡ (
        if (name == asset) && not (contains asset (keys retire_at))
        then some deadline
        else get asset retire_at)
get-set_default name deadline retire_at asset =
    ground (arith, get-set name asset deadline retire_at, string_eq.equals_iff name asset)

retire_unlisted-keeps :
    (timeframe : Timeframe) (required : List String) (deadline : ℕ)
    (assets : Dict String ClobAssetMetadata) (retire_at : Dict String ℕ) (asset : String) (old : ℕ)
    → get asset retire_at ≡ some old
    → get asset (retire_unlisted timeframe required deadline assets retire_at) ≡ some old
unfolding retire_unlisted
retire_unlisted-keeps timeframe required deadline [] retire_at asset old h = h
retire_unlisted-keeps timeframe required deadline ((name, other) ∷ assets) retire_at asset old h =
    retire_unlisted-keeps timeframe required deadline assets _ asset old
      (ground (arith, get-set_default name deadline retire_at asset, is_some-get asset retire_at))

get-retire_unlisted :
    (timeframe : Timeframe) (required : List String) (deadline : ℕ)
    (assets : Dict String ClobAssetMetadata) (retire_at : Dict String ℕ) (asset : String)
    (metadata : ClobAssetMetadata)
    → get asset assets ≡ some metadata
    → metadata.timeframe ≡ timeframe
    → contains asset required ≡ false
    → get asset retire_at ≡ none
    → get asset (retire_unlisted timeframe required deadline assets retire_at) ≡ some deadline
unfolding retire_unlisted get contains
get-retire_unlisted timeframe required deadline [] retire_at asset metadata h t r n = ground arith
get-retire_unlisted timeframe required deadline ((name, other) ∷ assets) retire_at asset metadata h
      t r n =
    let step = get-set_default name deadline retire_at asset in
    let absent = is_some-get asset retire_at in
    elim (Bool-cases (name == asset)) [
      | inl e ↦ retire_unlisted-keeps timeframe required deadline assets _ asset deadline (
          ground (
            arith,
            step,
            absent,
            string_eq.equals_iff name asset,
            timeframe_equals_iff other.timeframe timeframe,
          ))
      | inr e ↦
          get-retire_unlisted timeframe required deadline assets _ asset metadata (ground arith) t r
            (ground (arith, step))
    ]

set_default-Distinct :
    (name : String) (deadline : ℕ) (retire_at : Dict String ℕ)
    → Distinct (keys retire_at)
    → Distinct (keys (set_default name deadline retire_at))
set_default-Distinct name deadline retire_at d =
    ground (arith, set-Distinct name deadline retire_at d)

retire_unlisted-Distinct :
    (timeframe : Timeframe) (required : List String) (deadline : ℕ)
    (assets : Dict String ClobAssetMetadata) (retire_at : Dict String ℕ)
    → Distinct (keys retire_at)
    → Distinct (keys (retire_unlisted timeframe required deadline assets retire_at))
unfolding retire_unlisted
retire_unlisted-Distinct timeframe required deadline [] retire_at d = d
retire_unlisted-Distinct timeframe required deadline ((name, other) ∷ assets) retire_at d =
    retire_unlisted-Distinct timeframe required deadline assets _
      (ground (arith, set_default-Distinct name deadline retire_at d))

unretire-Distinct :
    (required : List String) (retire_at : Dict String ℕ)
    → Distinct (keys retire_at)
    → Distinct (keys (unretire required retire_at))
unfolding unretire
unretire-Distinct [] retire_at d = d
unretire-Distinct (name ∷ required) retire_at d =
    unretire-Distinct required (pop name retire_at) (pop-Distinct name retire_at d)

get-remember :
    (timeframe : Timeframe) (market : Option MarketWindow) (assets : Dict String ClobAssetMetadata)
    (asset : String)
    → contains asset (tokens market) ≡ false
    → get asset (remember timeframe market assets) ≡ get asset assets
unfolding remember contains
get-remember timeframe none assets asset h = refl
get-remember timeframe (some market) assets asset h = rw (get-set, get-set) (ground arith)

module _ (now grace later : ℕ) (timeframe : Timeframe) (current next : Option MarketWindow)
    (s : ClobSource) (asset : String) (distinct : Distinct (keys s.retire_at)) where
  retire_at-Distinct :
      Distinct (keys (on_market_snapshot now grace timeframe current next s).retire_at)
  unfolding on_market_snapshot
  retire_at-Distinct =
      unretire-Distinct (insert_all (tokens next) (insert_all (tokens current) [])) _
        (retire_unlisted-Distinct timeframe _ (now + grace) _ s.retire_at distinct)

  required_of : List String
  required_of = insert_all (tokens next) (insert_all (tokens current) [])

  contains-required_of :
      contains asset required_of ≡ (contains asset (tokens next) || contains asset (tokens current))
  unfolding required_of contains
  contains-required_of = ground (
    arith,
    contains-insert_all asset (tokens next) (insert_all (tokens current) []),
    contains-insert_all asset (tokens current) [],
  )

  desired-on_market_snapshot :
      contains asset (on_market_snapshot now grace timeframe current next s).desired
      ≡ (contains asset required_of || contains asset s.desired)
  unfolding on_market_snapshot required_of
  desired-on_market_snapshot = contains-insert_all asset required_of s.desired

  retire_at-on_market_snapshot :
      get asset (on_market_snapshot now grace timeframe current next s).retire_at ≡ (
        if contains asset required_of
        then none
        else get asset (
            retire_unlisted timeframe required_of
              (now + grace)
              (remember timeframe next (remember timeframe current s.assets))
              s.retire_at))
  unfolding on_market_snapshot required_of
  retire_at-on_market_snapshot = get-unretire required_of _ asset

  -- An asset that a snapshot of the discovery names is wanted, and no expiry gives it up, whenever it comes.
  pub on_market_snapshot-keeps :
      (contains asset (tokens current) || contains asset (tokens next)) ≡ true
      → contains asset
          (expire_assets later (on_market_snapshot now grace timeframe current next s)).desired
        ≡ true
  on_market_snapshot-keeps named = ground (
    arith,
    contains-required_of,
    desired-on_market_snapshot,
    retire_at-on_market_snapshot,
    expire_assets-desired later (on_market_snapshot now grace timeframe current next s) asset
        retire_at-Distinct,
  )

  -- An asset of the timeframe that the snapshot does not name, and that was not to be given up before, is
  -- given up by an expiry just when the grace is over.
  pub on_market_snapshot-grace :
      (metadata : ClobAssetMetadata)
      → get asset s.assets ≡ some metadata
      → metadata.timeframe ≡ timeframe
      → contains asset (tokens current) ≡ false
      → contains asset (tokens next) ≡ false
      → get asset s.retire_at ≡ none
      → contains asset
          (expire_assets later (on_market_snapshot now grace timeframe current next s)).desired
        ≡ (contains asset s.desired && not (leb (now + grace) later))
  on_market_snapshot-grace metadata h t c n r =
      let assets = remember timeframe next (remember timeframe current s.assets) in
      let known : get asset assets ≡ some metadata =
        get-remember timeframe next (remember timeframe current s.assets) asset n
        ∙ get-remember timeframe current s.assets asset c
        ∙ h in
      let unnamed : contains asset required_of ≡ false = ground (arith, contains-required_of) in
      let retired =
        get-retire_unlisted timeframe required_of (now + grace) assets s.retire_at asset metadata
          known t unnamed r in
      ground (
        arith,
        desired-on_market_snapshot,
        retire_at-on_market_snapshot,
        expire_assets-desired later (on_market_snapshot now grace timeframe current next s) asset
            retire_at-Distinct,
      )
