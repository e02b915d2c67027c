-- ===== src/Clob/Follows.antt =====
-- What the caches of identifiers hold behind a step of the loop.
use mathlib.Core.List.{append_assoc}
use poly_market_btc_arbitrag.Prelude.{
  ◌-◌, ◌≤◌, ◌≡◌, refl, sym, ap, subst, ◌∙◌, true, false, List, [], ◌∷◌, ◌++◌, String, ◌==◌,
  string_eq, if◌then◌else◌, arith, length, length-append, Bool-cases, inl, inr, append_nil,
  equals_refl,
}
use poly_market_btc_arbitrag.Dict.{contains, Distinct}
use poly_market_btc_arbitrag.Dict.Laws.{get-set}
use poly_market_btc_arbitrag.Models.Enums.{polymarket_clob}
use poly_market_btc_arbitrag.Models.Payloads.{MarketDataEvent}
use poly_market_btc_arbitrag.Health.{record_duplicate}
use poly_market_btc_arbitrag.Clob.{ClobSource, admit, trim, drop_first, cache_limit}
use poly_market_btc_arbitrag.Clob.Duplicates.{seen, seen-admit}
use poly_market_btc_arbitrag.Clob.Assets.{contains-append}
use poly_market_btc_arbitrag.Clob.Frames.{Connected, asset_of, publish_new}

-- The identifiers of an asset's events.
unfoldable pub ids_of : String → List MarketDataEvent → List String
ids_of asset [] = []
ids_of asset (event ∷ events) =
    let rest = ids_of asset events in
    if asset_of event == asset then event.event_id ∷ rest else rest

pub ids_of-append :
    (asset : String) (xs ys : List MarketDataEvent)
    → ids_of asset (xs ++ ys) ≡ ids_of asset xs ++ ids_of asset ys
unfolding ids_of
ids_of-append asset [] ys = refl
ids_of-append asset (event ∷ xs) ys = elim (Bool-cases (asset_of event == asset)) [
  | inl e ↦ rw e (ap (◌∷◌ event.event_id) (ids_of-append asset xs ys))
  | inr e ↦ rw e (ids_of-append asset xs ys)
]

pub Distinct-snoc :
    (x : String) (xs : List String) → contains x xs ≡ false → Distinct xs → Distinct (xs ++ x ∷ [])
unfolding contains
Distinct-snoc x [] h d = ground arith
Distinct-snoc x (y ∷ xs) h d = ground (
  arith,
  contains-append y xs (x ∷ []),
  string_eq.equals_iff x y,
  string_eq.equals_iff y x,
  Distinct-snoc x xs,
)

pub trim-short : (xs : List String) → length xs ≤ cache_limit → trim xs ≡ xs
unfolding trim
trim-short xs h =
    let none_over : length xs - cache_limit ≡ 0 = ground arith in
    ap (λ n. drop_first n xs) none_over

pub publish_known :
    (event : MarketDataEvent) (s : Connected)
    → contains event.event_id (seen (asset_of event) s.source) ≡ true
    → publish_new event s ≡ (
      [],
      record {
        source = (admit (asset_of event) event.event_id s.source).0;
        health = record_duplicate polymarket_clob s.health;
      },
    )
unfolding publish_new admit
publish_known event s e = rw (admit, e) refl

pub publish_fresh :
    (event : MarketDataEvent) (s : Connected)
    → contains event.event_id (seen (asset_of event) s.source) ≡ false
    → publish_new event s ≡ (
      event ∷ [],
      record { source = (admit (asset_of event) event.event_id s.source).0; health = s.health },
    )
unfolding publish_new admit
publish_fresh event s e = rw (admit, e) refl

module _ (asset : String) where
  -- As long as an asset has few identifiers, all that are published of it are kept, and no two are equal.
  abbrev pub Follows : Connected → List MarketDataEvent × Connected → Type 0
  Follows s (events, after) =
      length (seen asset s.source ++ ids_of asset events) ≤ cache_limit
      → Distinct (seen asset s.source)
      → (seen asset after.source ≡ seen asset s.source ++ ids_of asset events)
        × Distinct (seen asset after.source)

  pub Follows-nothing :
      (s after : Connected) → seen asset after.source ≡ seen asset s.source → Follows s ([], after)
  unfolding ids_of
  Follows-nothing s after e few d =
      (e ∙ sym (append_nil (seen asset s.source)), subst Distinct (sym e) d)

  pub Follows-append :
      (s middle after : Connected) (xs ys : List MarketDataEvent)
      → Follows s (xs, middle)
      → Follows middle (ys, after)
      → Follows s (xs ++ ys, after)
  Follows-append s middle after xs ys f g few d =
      let few_xs : length (seen asset s.source ++ ids_of asset xs) ≤ cache_limit = ground (
        arith,
        ids_of-append asset xs ys,
        length-append (seen asset s.source) (ids_of asset xs),
        length-append (seen asset s.source) (ids_of asset (xs ++ ys)),
        length-append (ids_of asset xs) (ids_of asset ys),
      ) in
      let first = f few_xs d in
      let all : seen asset s.source ++ ids_of asset (xs ++ ys)
          ≡ seen asset middle.source ++ ids_of asset ys =
        rw (ids_of-append asset xs ys, first.0)
          (sym (append_assoc (seen asset s.source) (ids_of asset xs) (ids_of asset ys))) in
      let second = g (subst (λ ids. length ids ≤ cache_limit) all few) first.1 in
      (second.0 ∙ sym all, second.1)

  pub seen-admit-other :
      (other id : String) (s : ClobSource)
      → (other == asset) ≡ false
      → seen asset (admit other id s).0 ≡ seen asset s
  unfolding admit
  seen-admit-other other id s differs = elim (Bool-cases (contains id (seen other s))) [
    | inl e ↦ rw (admit, e, get-set other asset (seen other s) s.deduplication, differs) refl
    | inr e ↦
        rw (admit, e, get-set other asset (trim (seen other s ++ id ∷ [])) s.deduplication, differs)
          refl
  ]

  -- An event of another asset.
  pub publish_new-other :
      (event : MarketDataEvent) (s : Connected)
      → (asset_of event == asset) ≡ false
      → Follows s (publish_new event s)
  unfolding ids_of
  publish_new-other event s differs =
      let same = seen-admit-other (asset_of event) event.event_id s.source differs in
      elim (Bool-cases (contains event.event_id (seen (asset_of event) s.source))) [
        | inl e ↦
            rw (publish_known event s e)
              λ few d. (same ∙ sym (append_nil (seen asset s.source)), subst Distinct (sym same) d)
        | inr e ↦
            rw (publish_fresh event s e, differs)
              λ few d. (same ∙ sym (append_nil (seen asset s.source)), subst Distinct (sym same) d)
      ]

-- An event of the asset itself.
pub publish_new-same :
    (event : MarketDataEvent) (s : Connected) → Follows (asset_of event) s (publish_new event s)
unfolding ids_of
publish_new-same event s =
    elim (Bool-cases (contains event.event_id (seen (asset_of event) s.source))) [
      | inl e ↦
          let kept : seen (asset_of event) (admit (asset_of event) event.event_id s.source).0
              ≡ seen (asset_of event) s.source =
            seen-admit (asset_of event) event.event_id s.source ∙ rw e refl in
          rw (publish_known event s e) (
            Follows-nothing (asset_of event) s
              (record {
                source = (admit (asset_of event) event.event_id s.source).0;
                health = record_duplicate polymarket_clob s.health;
              })
              kept)
      | inr e ↦
          let added : seen (asset_of event) (admit (asset_of event) event.event_id s.source).0
              ≡ trim (seen (asset_of event) s.source ++ event.event_id ∷ []) =
            seen-admit (asset_of event) event.event_id s.source ∙ rw e refl in
          rw (publish_fresh event s e, equals_refl (asset_of event))
            λ few d.
              let all =
                added ∙ trim-short (seen (asset_of event) s.source ++ event.event_id ∷ []) few in
              (
                all,
                subst Distinct (sym all)
                    (Distinct-snoc event.event_id (seen (asset_of event) s.source) e d),
              )
    ]
