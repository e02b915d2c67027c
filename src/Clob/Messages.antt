-- ===== src/Clob/Messages.antt =====
-- `apply_clob_message` of market_data/sources/polymarket_clob.py.
use poly_market_btc_arbitrag.Prelude.{
  ℕ, suc, Option, none, some, List, [], ◌∷◌, String, ◌==◌, string_eq, if◌then◌else◌, ◌>>=◌,
}
use poly_market_btc_arbitrag.Dict.{Dict, get}
use poly_market_btc_arbitrag.Json.{Json, array, Items, nil, cons}
use poly_market_btc_arbitrag.Json.Fields.{get_field, as_object}
use poly_market_btc_arbitrag.Json.Messages.{Received}
use poly_market_btc_arbitrag.Models.Enums.{polymarket_clob, Outcome}
use poly_market_btc_arbitrag.Models.Payloads.{
  EventPayload, MarketDataEvent, polymarket_market_resolved,
}
use poly_market_btc_arbitrag.Codec.Values.{text_or_none}
use poly_market_btc_arbitrag.Codec.Enums.{outcome_from}
use poly_market_btc_arbitrag.Clob.{ClobAssetMetadata}
use poly_market_btc_arbitrag.Clob.Parsing.{
  Texts, updated, listed_assets, assets_of, or_else, first_of, timestamp, message_id, text_or_empty,
  change_payload, asset_payload,
}

module _ (t : Texts) where
  module _ (assets : Dict String ClobAssetMetadata) (received : Received)
      (session : Option String) where
    -- `_make_event`
    unfoldable pub make_event :
        ClobAssetMetadata → String → EventPayload → Json → ℕ → ℕ → MarketDataEvent
    make_event metadata event_type payload message time sequence = record {
      schema_version = 2;
      ingest_sequence = sequence;
      event_id = message_id t message metadata.asset_id event_type time;
      source = polymarket_clob;
      instrument = metadata.asset_id;
      source_timestamp_ns = some time;
      server_timestamp_ns = none;
      received_wall_timestamp_ns = received.wall_ns;
      received_monotonic_ns = received.monotonic_ns;
      source_sequence = text_or_none (get_field "hash" message);
      timeframe = some metadata.timeframe;
      market_id = some metadata.market_id;
      condition_id = some metadata.condition_id;
      asset_id = some metadata.asset_id;
      outcome = some metadata.outcome;
      payload = payload;
      source_session_id = session;
    }

    -- An event for each asset, with its number.
    unfoldable pub resolved_events :
        Json → ℕ → EventPayload → ℕ → List String → Option (List MarketDataEvent)
    resolved_events message time payload sequence [] = some []
    resolved_events message time payload sequence (asset ∷ affected) = do
      metadata ← get asset assets
      rest ← resolved_events message time payload (suc sequence) affected
      some (make_event metadata "market_resolved" payload message time sequence ∷ rest)

    -- The outcome that the message names, or that of the asset that it names.
    unfoldable pub winning_outcome : Json → Option Outcome
    winning_outcome message =
        first_of
          (text_or_none (get_field "winning_outcome" message) >>= λ value.
            outcome_from (t.lower value))
          (do
            asset ← text_or_none (get_field "winning_asset_id" message)
            metadata ← get asset assets
            some metadata.outcome)

    unfoldable pub resolved_payload : Json → ClobAssetMetadata → List String → EventPayload
    resolved_payload message first affected = polymarket_market_resolved (record {
      winning_asset_id = text_or_none (get_field "winning_asset_id" message);
      winning_outcome = winning_outcome message;
      affected_asset_ids = affected;
      market_id = some (or_else (text_or_none (get_field "market" message)) first.market_id);
      condition_id =
          some (or_else (text_or_none (get_field "condition_id" message)) first.condition_id);
    })

    unfoldable pub resolve_assets : Json → ℕ → List String → Option (List MarketDataEvent)
    resolve_assets message time [] = none
    resolve_assets message time (asset ∷ affected) = do
      first ← get asset assets
      resolved_events message time (resolved_payload message first (asset ∷ affected))
          received.sequence (asset ∷ affected)

    unfoldable pub resolution : Json → ℕ → Option (List MarketDataEvent)
    resolution message time = do
      listed ← listed_assets (get_field "assets_ids" message)
      resolve_assets message time (
          or_else listed (
            assets_of (text_or_none (get_field "market" message))
              (text_or_none (get_field "condition_id" message)) assets))

    unfoldable pub change_event : Json → ℕ → ℕ → Json → Option MarketDataEvent
    change_event message time sequence change = do
      fields ← as_object (some change)
      metadata ← get (text_or_empty t (get_field "asset_id" fields)) assets
      payload ← change_payload t fields
      some (make_event metadata "price_change" payload (updated message fields) time sequence)

    unfoldable pub change_events : Json → ℕ → ℕ → Items → Option (List MarketDataEvent)
    change_events message time sequence nil = some []
    change_events message time sequence (cons change changes) = do
      event ← change_event message time sequence change
      rest ← change_events message time (suc sequence) changes
      some (event ∷ rest)

    unfoldable pub price_changes : Json → ℕ → Option Json → Option (List MarketDataEvent)
    price_changes message time (some (array (cons change changes))) =
        change_events message time received.sequence (cons change changes)
    price_changes message time _ = none

    unfoldable pub asset_event : String → Json → ℕ → Option (List MarketDataEvent)
    asset_event event_type message time = do
      metadata ← get (text_or_empty t (get_field "asset_id" message)) assets
      payload ← asset_payload t event_type message
      some (make_event metadata event_type payload message time received.sequence ∷ [])

    abbrev pub typed_events : Option String → Json → ℕ → Option (List MarketDataEvent)
    typed_events none message time = none
    typed_events (some event_type) message time =
        if event_type == "market_resolved"
        then resolution message time
        else if event_type == "price_change"
        then price_changes message time (get_field "price_changes" message)
        else asset_event event_type message time

    unfoldable pub apply_clob_message : Json → Option (List MarketDataEvent)
    apply_clob_message message = do
      fields ← as_object (some message)
      time ← timestamp t fields
      typed_events (text_or_none (get_field "event_type" fields)) fields time
