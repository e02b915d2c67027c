-- ===== src/Codec/Write.antt =====
-- `_jsonable` of an event and its parts, with the keys in the order in which `json_dumps` writes them.
use poly_market_btc_arbitrag.Prelude.{ℕ, Option, none, some, List, [], ◌∷◌, String}
use poly_market_btc_arbitrag.Decimals.{pos}
use poly_market_btc_arbitrag.Json.{
  Json, null, boolean, integer, text, array, object, Items, nil, cons, Entries, end, entry,
}
use poly_market_btc_arbitrag.Models.Enums.{EventSource, timeframe_value}
use poly_market_btc_arbitrag.Models.Payloads.{
  Decimal, MarketDataEvent, EventPayload, stream_of, PriceLevel, SourceHealthSnapshot,
  MarketWindowPayload, chainlink_price, binance_agg_trade, binance_book_ticker, binance_depth20,
  polymarket_book, polymarket_price_change, polymarket_best_bid_ask, polymarket_last_trade,
  polymarket_tick_size_change, polymarket_market_resolved, source_status, snapshot_tick,
  market_window_state,
}
use poly_market_btc_arbitrag.Codec.Values.{Python}
use poly_market_btc_arbitrag.Codec.Enums.{
  source_value, stream_value, taker_side_value, outcome_value,
}

-- A dictionary from its entries.
abbrev pub entries_of : List (String × Json) → Entries
entries_of [] = end
entries_of ((key, value) ∷ entries) = entry key value (entries_of entries)

abbrev pub dict_of : List (String × Json) → Json
dict_of entries = object (entries_of entries)

abbrev pub number : ℕ → Json
number n = integer (pos n)

abbrev pub optional_json {ℓ} : {A : Type ℓ} → (A → Json) → Option A → Json
optional_json write none = null
optional_json write (some a) = write a

abbrev pub each {ℓ} : {A : Type ℓ} → (A → Json) → List A → Items
each write [] = nil
each write (a ∷ list) = cons (write a) (each write list)

unfoldable pub health_json : SourceHealthSnapshot → Json
health_json p = dict_of (
    ("age_ms", optional_json number p.age_ms)
    ∷ ("connected", boolean p.connected)
    ∷ ("current_session_id", optional_json text p.current_session_id)
    ∷ ("divergence_count", number p.divergence_count)
    ∷ ("duplicate_count", number p.duplicate_count)
    ∷ ("invalid_count", number p.invalid_count)
    ∷ ("last_message_timestamp_ns", optional_json number p.last_message_timestamp_ns)
    ∷ ("protocol_error_count", number p.protocol_error_count)
    ∷ ("reconnect_count", number p.reconnect_count)
    ∷ ("stale", boolean p.stale)
    ∷ ("stale_session_count", number p.stale_session_count)
    ∷ [])

abbrev pub health_row_json : EventSource × SourceHealthSnapshot → Json
health_row_json row = array (cons (text (source_value row.0)) (cons (health_json row.1) nil))

unfoldable pub market_window_json : MarketWindowPayload → Json
market_window_json p = dict_of (
    ("condition_id", text p.condition_id)
    ∷ ("down_token_id", text p.down_token_id)
    ∷ ("end_timestamp_ns", number p.end_timestamp_ns)
    ∷ ("market_id", text p.market_id)
    ∷ ("resolution_source", text p.resolution_source)
    ∷ ("slug", text p.slug)
    ∷ ("start_timestamp_ns", number p.start_timestamp_ns)
    ∷ ("timeframe", text (timeframe_value p.timeframe))
    ∷ ("up_token_id", text p.up_token_id)
    ∷ [])

module _ (py : Python) where
  abbrev pub amount : Decimal → Json
  amount d = text (py.show_decimal d)

  unfoldable pub level_json : PriceLevel → Json
  level_json p = dict_of (("price", amount p.price) ∷ ("quantity", amount p.quantity) ∷ [])

  unfoldable pub payload_json : EventPayload → Json
  payload_json (chainlink_price p) =
      dict_of (("price", amount p.price) ∷ ("symbol", text p.symbol) ∷ [])
  payload_json (binance_agg_trade p) = dict_of (
      ("aggregate_trade_id", number p.aggregate_trade_id)
      ∷ ("first_trade_id", number p.first_trade_id)
      ∷ ("last_trade_id", number p.last_trade_id)
      ∷ ("price", amount p.price)
      ∷ ("quantity", amount p.quantity)
      ∷ ("symbol", text p.symbol)
      ∷ ("taker_side", text (taker_side_value p.taker_side))
      ∷ ("trade_timestamp_ns", number p.trade_timestamp_ns)
      ∷ [])
  payload_json (binance_book_ticker p) = dict_of (
      ("best_ask_price", amount p.best_ask_price)
      ∷ ("best_ask_quantity", amount p.best_ask_quantity)
      ∷ ("best_bid_price", amount p.best_bid_price)
      ∷ ("best_bid_quantity", amount p.best_bid_quantity)
      ∷ ("symbol", text p.symbol)
      ∷ ("update_id", number p.update_id)
      ∷ [])
  payload_json (binance_depth20 p) = dict_of (
      ("asks", array (each level_json p.asks))
      ∷ ("bids", array (each level_json p.bids))
      ∷ ("last_update_id", number p.last_update_id)
      ∷ ("symbol", text p.symbol)
      ∷ [])
  payload_json (polymarket_book p) = dict_of (
      ("asks", array (each level_json p.asks))
      ∷ ("bids", array (each level_json p.bids))
      ∷ ("book_hash", optional_json text p.book_hash)
      ∷ [])
  payload_json (polymarket_price_change p) = dict_of (
      ("best_ask", optional_json amount p.best_ask)
      ∷ ("best_bid", optional_json amount p.best_bid)
      ∷ ("change_hash", optional_json text p.change_hash)
      ∷ ("price", amount p.price)
      ∷ ("quantity", amount p.quantity)
      ∷ ("side", text p.side)
      ∷ [])
  payload_json (polymarket_best_bid_ask p) = dict_of (
      ("best_ask", optional_json amount p.best_ask)
      ∷ ("best_bid", optional_json amount p.best_bid)
      ∷ ("spread", optional_json amount p.spread)
      ∷ [])
  payload_json (polymarket_last_trade p) = dict_of (
      ("fee_rate_bps", optional_json amount p.fee_rate_bps)
      ∷ ("price", amount p.price)
      ∷ ("quantity", amount p.quantity)
      ∷ ("side", text p.side)
      ∷ [])
  payload_json (polymarket_tick_size_change p) =
      dict_of
        (("new_tick_size", amount p.new_tick_size) ∷ ("old_tick_size", amount p.old_tick_size) ∷ [])
  payload_json (polymarket_market_resolved p) = dict_of (
      ("affected_asset_ids", array (each text p.affected_asset_ids))
      ∷ ("condition_id", optional_json text p.condition_id)
      ∷ ("market_id", optional_json text p.market_id)
      ∷ ("winning_asset_id", optional_json text p.winning_asset_id)
      ∷ ("winning_outcome", optional_json (λ m. text (outcome_value m)) p.winning_outcome)
      ∷ [])
  payload_json (source_status p) = dict_of (
      ("connected", boolean p.connected)
      ∷ ("reason", optional_json text p.reason)
      ∷ ("reconnect_count", number p.reconnect_count)
      ∷ ("session_id", optional_json text p.session_id)
      ∷ ("source", text (source_value p.source))
      ∷ [])
  payload_json (snapshot_tick p) = dict_of (
      ("health", array (each health_row_json p.health))
      ∷ ("scheduled_timestamp_ns", number p.scheduled_timestamp_ns)
      ∷ ("snapshot_sequence", number p.snapshot_sequence)
      ∷ [])
  payload_json (market_window_state p) = dict_of (
      ("attempt_count", number p.attempt_count)
      ∷ ("current_market", optional_json market_window_json p.current_market)
      ∷ (
        "expected_transition_timestamp_ns",
        optional_json number p.expected_transition_timestamp_ns,
      )
      ∷ ("last_error", optional_json text p.last_error)
      ∷ ("next_market", optional_json market_window_json p.next_market)
      ∷ ("state", text p.state)
      ∷ ("timeframe", text (timeframe_value p.timeframe))
      ∷ ("updated_at_timestamp_ns", number p.updated_at_timestamp_ns)
      ∷ [])

  -- The value of a line of a raw segment.
  unfoldable pub event_json : MarketDataEvent → Json
  event_json e = dict_of (
      ("asset_id", optional_json text e.asset_id)
      ∷ ("condition_id", optional_json text e.condition_id)
      ∷ ("event_id", text e.event_id)
      ∷ ("ingest_sequence", number e.ingest_sequence)
      ∷ ("instrument", text e.instrument)
      ∷ ("market_id", optional_json text e.market_id)
      ∷ ("outcome", optional_json (λ m. text (outcome_value m)) e.outcome)
      ∷ ("payload", payload_json e.payload)
      ∷ ("received_monotonic_ns", number e.received_monotonic_ns)
      ∷ ("received_wall_timestamp_ns", number e.received_wall_timestamp_ns)
      ∷ ("schema_version", number e.schema_version)
      ∷ ("server_timestamp_ns", optional_json number e.server_timestamp_ns)
      ∷ ("source", text (source_value e.source))
      ∷ ("source_sequence", optional_json text e.source_sequence)
      ∷ ("source_session_id", optional_json text e.source_session_id)
      ∷ ("source_timestamp_ns", optional_json number e.source_timestamp_ns)
      ∷ ("stream", text (stream_value (stream_of e.payload)))
      ∷ ("timeframe", optional_json (λ m. text (timeframe_value m)) e.timeframe)
      ∷ [])
