-- ===== src/Clob/Made.antt =====
-- What the events of CLOB messages are like, for each kind of message.
use poly_market_btc_arbitrag.Prelude.{
  ℕ, suc, ◌<◌, ◌≡◌, refl, Bool, true, false, ◌||◌, Option, none, some, List, [], ◌∷◌, String, ◌==◌,
  string_eq, arith, All, All-mono, Every, Every-bind, Every-if, Every-mono, subst, length,
  equals_refl,
}
use poly_market_btc_arbitrag.Dict.{Dict, get, contains}
use poly_market_btc_arbitrag.Json.{Json, Items, nil, cons, array}
use poly_market_btc_arbitrag.Json.Fields.{get_field, as_object}
use poly_market_btc_arbitrag.Json.Messages.{Received}
use poly_market_btc_arbitrag.Models.Enums.{polymarket_clob}
use poly_market_btc_arbitrag.Models.Payloads.{EventPayload, MarketDataEvent}
use poly_market_btc_arbitrag.Clob.{ClobAssetMetadata}
use poly_market_btc_arbitrag.Clob.Messages.{
  make_event, resolved_payload, resolved_events, resolve_assets, resolution, change_event,
  change_events, price_changes, asset_event, typed_events,
}
use poly_market_btc_arbitrag.Clob.Parsing.{
  Texts, updated, listed_assets, text_or_empty, change_payload, asset_payload,
}
use poly_market_btc_arbitrag.Clob.Payloads.{WellClob, change_payload-Well, asset_payload-Well}

module _ (t : Texts) (assets : Dict String ClobAssetMetadata) (received : Received)
    (session : Option String) where
  -- The event says what the source knows of one of its assets, and its payload is well formed.
  pub record WellMade (time sequence : ℕ) (e : MarketDataEvent) : Type 0 where
    pub asset : String
    pub metadata : ClobAssetMetadata
    pub found : get asset assets ≡ some metadata
    pub asset_id : e.asset_id ≡ some metadata.asset_id
    pub market_id : e.market_id ≡ some metadata.market_id
    pub condition_id : e.condition_id ≡ some metadata.condition_id
    pub timeframe : e.timeframe ≡ some metadata.timeframe
    pub outcome : e.outcome ≡ some metadata.outcome
    pub payload : WellClob asset e.payload
    pub version : e.schema_version ≡ 2
    pub source : e.source ≡ polymarket_clob
    pub session_id : e.source_session_id ≡ session
    pub source_time : e.source_timestamp_ns ≡ some time
    pub numbered : e.ingest_sequence ≡ sequence

  -- All of them have the time, and they are numbered from the sequence on.
  abbrev pub MadeFrom : ℕ → ℕ → List MarketDataEvent → Type 0
  MadeFrom time sequence [] = Unit
  MadeFrom time sequence (e ∷ events) =
      WellMade time sequence e × MadeFrom time (suc sequence) events

  -- There is an event, and the events are numbered from the message's number on.
  abbrev pub Made : ℕ → List MarketDataEvent → Type 0
  Made time events = (0 < length events) × MadeFrom time received.sequence events

  pub make_event-WellMade :
      (asset : String) (metadata : ClobAssetMetadata) (event_type : String) (payload : EventPayload)
      (message : Json) (time sequence : ℕ)
      → get asset assets ≡ some metadata
      → WellClob asset payload
      → WellMade time sequence
          (make_event t assets received session metadata event_type payload message time sequence)
  unfolding make_event
  make_event-WellMade asset metadata event_type payload message time sequence found well = record {
    asset = asset;
    metadata = metadata;
    found = found;
    asset_id = refl;
    market_id = refl;
    condition_id = refl;
    timeframe = refl;
    outcome = refl;
    payload = well;
    version = refl;
    source = refl;
    session_id = refl;
    source_time = refl;
    numbered = refl;
  }

  pub resolved_events-MadeFrom :
      (message : Json) (time : ℕ) (payload : EventPayload) (sequence : ℕ) (affected : List String)
      → All (λ asset. WellClob asset payload) affected
      → Every
          (λ events. MadeFrom time sequence events × (length events ≡ length affected))
          (resolved_events t assets received session message time payload sequence affected)
  unfolding resolved_events
  resolved_events-MadeFrom message time payload sequence [] well = (tt, refl)
  resolved_events-MadeFrom message time payload sequence (asset ∷ affected) well =
      Every-bind _ (get asset assets) _ λ metadata found.
        Every-bind _
          (resolved_events t assets received session message time payload (suc sequence) affected) _
          λ rest e.
            let more =
              subst
                (Every (λ events.
                  MadeFrom time (suc sequence) events × (length events ≡ length affected)))
                e (resolved_events-MadeFrom message time payload (suc sequence) affected well.1) in
            (
              (
                make_event-WellMade asset metadata "market_resolved" payload message time sequence
                    found well.0,
                more.0,
              ),
              omega (arith, more.1),
            )

  pub All-contains : (whole : List String) → All (λ asset. contains asset whole ≡ true) whole
  unfolding contains
  All-contains [] = tt
  All-contains (asset ∷ rest) = (
    rw (equals_refl asset) refl,
    All-mono (λ other h. rw h (or_true (asset == other))) rest (All-contains rest),
  )
    where
      or_true : (b : Bool) → (b || true) ≡ true
      or_true true = refl
      or_true false = refl

  pub resolve_assets-Made :
      (message : Json) (time : ℕ) (affected : List String)
      → Every (Made time) (resolve_assets t assets received session message time affected)
  unfolding resolve_assets resolved_payload
  resolve_assets-Made message time [] = tt
  resolve_assets-Made message time (asset ∷ affected) =
      Every-bind (Made time) (get asset assets) _ λ first _.
        Every-mono _ (Made time)
          (resolved_events t assets received session message time
            (resolved_payload t assets received session message first (asset ∷ affected))
            received.sequence (asset ∷ affected))
          (λ events h. (omega (arith, h.1), h.0))
          (resolved_events-MadeFrom message time
            (resolved_payload t assets received session message first (asset ∷ affected))
            received.sequence (asset ∷ affected) (All-contains (asset ∷ affected)))

  pub change_event-WellMade :
      (message : Json) (time sequence : ℕ) (change : Json)
      → Every
          (WellMade time sequence)
          (change_event t assets received session message time sequence change)
  unfolding change_event
  change_event-WellMade message time sequence change =
      Every-bind (WellMade time sequence) (as_object (some change)) _ λ fields _.
        Every-bind (WellMade time sequence)
          (get (text_or_empty t (get_field "asset_id" fields)) assets) _
          λ metadata found.
            Every-bind (WellMade time sequence) (change_payload t fields) _ λ payload e.
              let asset = text_or_empty t (get_field "asset_id" fields) in
              make_event-WellMade asset metadata "price_change" payload (updated message fields)
                time sequence found
                (subst (Every (WellClob asset)) e (change_payload-Well t asset fields))

  pub change_events-MadeFrom :
      (message : Json) (time sequence : ℕ) (changes : Items)
      → Every
          (MadeFrom time sequence)
          (change_events t assets received session message time sequence changes)
  unfolding change_events
  change_events-MadeFrom message time sequence nil = tt
  change_events-MadeFrom message time sequence (cons change changes) =
      Every-bind (MadeFrom time sequence)
        (change_event t assets received session message time sequence change) _
        λ event e.
          Every-bind (MadeFrom time sequence)
            (change_events t assets received session message time (suc sequence) changes) _
            λ rest f. (
              subst (Every (WellMade time sequence)) e
                  (change_event-WellMade message time sequence change),
              subst (Every (MadeFrom time (suc sequence))) f
                  (change_events-MadeFrom message time (suc sequence) changes),
            )

  pub price_changes-Made :
      (message : Json) (time : ℕ) (value : Option Json)
      → Every (Made time) (price_changes t assets received session message time value)
  unfolding price_changes change_events
  price_changes-Made message time (some (array (cons change changes))) =
      Every-bind (Made time)
        (change_event t assets received session message time received.sequence change) _
        λ event e.
          Every-bind (Made time)
            (change_events t assets received session message time (suc received.sequence) changes) _
            λ rest f. (
              ground arith,
              (
                subst (Every (WellMade time received.sequence)) e
                    (change_event-WellMade message time received.sequence change),
                subst (Every (MadeFrom time (suc received.sequence))) f
                    (change_events-MadeFrom message time (suc received.sequence) changes),
              ),
            )
  price_changes-Made message time _ = tt

  pub asset_event-Made :
      (event_type : String) (message : Json) (time : ℕ)
      → Every (Made time) (asset_event t assets received session event_type message time)
  unfolding asset_event
  asset_event-Made event_type message time =
      Every-bind (Made time) (get (text_or_empty t (get_field "asset_id" message)) assets) _
        λ metadata found. Every-bind (Made time) (asset_payload t event_type message) _ λ payload e.
          let asset = text_or_empty t (get_field "asset_id" message) in
          (
            ground arith,
            (
              make_event-WellMade asset metadata event_type payload message time received.sequence
                  found
                  (subst (Every (WellClob asset)) e
                    (asset_payload-Well t asset event_type message)),
              tt,
            ),
          )

  pub resolution-Made :
      (message : Json) (time : ℕ)
      → Every (Made time) (resolution t assets received session message time)
  unfolding resolution
  resolution-Made message time =
      Every-bind (Made time) (listed_assets (get_field "assets_ids" message)) _
        λ listed _. resolve_assets-Made message time _

  pub typed_events-Made :
      (event_type : Option String) (message : Json) (time : ℕ)
      → Every (Made time) (typed_events t assets received session event_type message time)
  typed_events-Made none message time = tt
  typed_events-Made (some event_type) message time =
      Every-if (Made time) (event_type == "market_resolved") _ _ (resolution-Made message time) (
        Every-if (Made time) (event_type == "price_change") _ _
          (price_changes-Made message time (get_field "price_changes" message))
          (asset_event-Made event_type message time))
