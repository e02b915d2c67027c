-- ===== src/Codec/Read.antt =====
-- `event_from_dict` of market_data/models.py.
use poly_market_btc_arbitrag.Prelude.{
  ℕ, ◌||◌, Option, none, some, eqb, if◌then◌else◌, ◌>>=◌, ◌>>◌, require, is_some, ◌&&◌,
}
use poly_market_btc_arbitrag.Json.{Json}
use poly_market_btc_arbitrag.Json.Fields.{get_field, as_object}
use poly_market_btc_arbitrag.Models.Enums.{EventStream, Timeframe}
use poly_market_btc_arbitrag.Models.Payloads.{
  MarketDataEvent, EventPayload, MarketWindowPayload, chainlink_price, binance_agg_trade,
  binance_book_ticker, binance_depth20, polymarket_book, polymarket_price_change,
  polymarket_best_bid_ask, polymarket_last_trade, polymarket_tick_size_change,
  polymarket_market_resolved, source_status, snapshot_tick, market_window_state,
}
use poly_market_btc_arbitrag.Codec.Values.{
  Python, text_or_none, optional, text_of, int_of, decimal_of, text_at, int_at, truth_at,
  decimal_at,
}
use poly_market_btc_arbitrag.Codec.Enums.{
  source_from, stream_from, taker_side_from, outcome_from, timeframe_from,
}
use poly_market_btc_arbitrag.Codec.Parts.{
  not_none, level_from_dict, member_at, read_list, read_texts, read_health, market_window_from_dict,
}

module _ (py : Python) where
  unfoldable pub legacy_fields : Timeframe → Json → Json → Option (Option MarketWindowPayload)
  legacy_fields timeframe value raw = do
    market_id ← text_at py "market_id" value
    condition_id ← text_at py "condition_id" value
    start ← int_at py "start_timestamp_ns" raw
    finish ← int_at py "end_timestamp_ns" raw
    up_token ← text_at py "up_token_id" raw
    down_token ← text_at py "down_token_id" raw
    some (
        some (record {
          timeframe = timeframe;
          market_id = market_id;
          condition_id = condition_id;
          slug = market_id;
          start_timestamp_ns = start;
          end_timestamp_ns = finish;
          up_token_id = up_token;
          down_token_id = down_token;
          resolution_source = "";
        }))

  -- The market of the first version, where the six values that it needs are there.
  unfoldable pub legacy_market : Timeframe → Json → Json → Option (Option MarketWindowPayload)
  legacy_market timeframe value raw =
      if is_some (not_none (get_field "market_id" value))
        && (is_some (not_none (get_field "condition_id" value))
            && (is_some (not_none (get_field "start_timestamp_ns" raw))
                && (is_some (not_none (get_field "end_timestamp_ns" raw))
                    && (is_some (not_none (get_field "up_token_id" raw))
                        && is_some (not_none (get_field "down_token_id" raw))))))
      then legacy_fields timeframe value raw
      else some none

  -- The state of a market in an event of the first version.
  unfoldable pub legacy_state : Json → Json → Option EventPayload
  legacy_state value raw = do
    timeframe ← member_at py timeframe_from "timeframe" value
    market ← legacy_market timeframe value raw
    state ← text_at py "state" raw
    updated ← int_at py "received_wall_timestamp_ns" value
    some (
        market_window_state (record {
          state = state;
          timeframe = timeframe;
          current_market = market;
          next_market = none;
          expected_transition_timestamp_ns = none;
          updated_at_timestamp_ns = updated;
          attempt_count = 0;
          last_error = none;
        }))

  unfoldable pub window_state : Json → Option EventPayload
  window_state raw = do
    state ← text_at py "state" raw
    timeframe ← member_at py timeframe_from "timeframe" raw
    current_market ← market_window_from_dict py (get_field "current_market" raw)
    next_market ← market_window_from_dict py (get_field "next_market" raw)
    expected_transition_timestamp_ns ←
        optional (int_of py) (get_field "expected_transition_timestamp_ns" raw)
    updated_at_timestamp_ns ← int_at py "updated_at_timestamp_ns" raw
    attempt_count ← int_at py "attempt_count" raw
    some (
        market_window_state (record {
          state = state;
          timeframe = timeframe;
          current_market = current_market;
          next_market = next_market;
          expected_transition_timestamp_ns = expected_transition_timestamp_ns;
          updated_at_timestamp_ns = updated_at_timestamp_ns;
          attempt_count = attempt_count;
          last_error = text_or_none (get_field "last_error" raw);
        }))

  -- The payload by the stream; the version and the whole value matter for the state of a market only.
  unfoldable pub payload_from : EventStream → ℕ → Json → Json → Option EventPayload
  payload_from EventStream.chainlink_price version value raw = do
    symbol ← text_at py "symbol" raw
    price ← decimal_at py "price" raw
    some (chainlink_price (record { symbol = symbol; price = price }))
  payload_from EventStream.binance_agg_trade version value raw = do
    symbol ← text_at py "symbol" raw
    aggregate_trade_id ← int_at py "aggregate_trade_id" raw
    price ← decimal_at py "price" raw
    quantity ← decimal_at py "quantity" raw
    first_trade_id ← int_at py "first_trade_id" raw
    last_trade_id ← int_at py "last_trade_id" raw
    trade_timestamp_ns ← int_at py "trade_timestamp_ns" raw
    taker_side ← member_at py taker_side_from "taker_side" raw
    some (
        binance_agg_trade (record {
          symbol = symbol;
          aggregate_trade_id = aggregate_trade_id;
          price = price;
          quantity = quantity;
          first_trade_id = first_trade_id;
          last_trade_id = last_trade_id;
          trade_timestamp_ns = trade_timestamp_ns;
          taker_side = taker_side;
        }))
  payload_from EventStream.binance_book_ticker version value raw = do
    symbol ← text_at py "symbol" raw
    update_id ← int_at py "update_id" raw
    best_bid_price ← decimal_at py "best_bid_price" raw
    best_bid_quantity ← decimal_at py "best_bid_quantity" raw
    best_ask_price ← decimal_at py "best_ask_price" raw
    best_ask_quantity ← decimal_at py "best_ask_quantity" raw
    some (
        binance_book_ticker (record {
          symbol = symbol;
          update_id = update_id;
          best_bid_price = best_bid_price;
          best_bid_quantity = best_bid_quantity;
          best_ask_price = best_ask_price;
          best_ask_quantity = best_ask_quantity;
        }))
  payload_from EventStream.binance_depth20 version value raw = do
    symbol ← text_at py "symbol" raw
    last_update_id ← int_at py "last_update_id" raw
    bids ← read_list py (level_from_dict py) (get_field "bids" raw)
    asks ← read_list py (level_from_dict py) (get_field "asks" raw)
    some (
        binance_depth20
          (record { symbol = symbol; last_update_id = last_update_id; bids = bids; asks = asks }))
  payload_from EventStream.polymarket_book version value raw = do
    bids ← read_list py (level_from_dict py) (get_field "bids" raw)
    asks ← read_list py (level_from_dict py) (get_field "asks" raw)
    some (
        polymarket_book (record {
          bids = bids;
          asks = asks;
          book_hash = text_or_none (get_field "book_hash" raw);
        }))
  payload_from EventStream.polymarket_price_change version value raw = do
    side ← text_at py "side" raw
    price ← decimal_at py "price" raw
    quantity ← decimal_at py "quantity" raw
    best_bid ← optional (decimal_of py) (get_field "best_bid" raw)
    best_ask ← optional (decimal_of py) (get_field "best_ask" raw)
    some (
        polymarket_price_change (record {
          side = side;
          price = price;
          quantity = quantity;
          best_bid = best_bid;
          best_ask = best_ask;
          change_hash = text_or_none (get_field "change_hash" raw);
        }))
  payload_from EventStream.polymarket_best_bid_ask version value raw = do
    best_bid ← optional (decimal_of py) (get_field "best_bid" raw)
    best_ask ← optional (decimal_of py) (get_field "best_ask" raw)
    spread ← optional (decimal_of py) (get_field "spread" raw)
    some (
        polymarket_best_bid_ask
          (record { best_bid = best_bid; best_ask = best_ask; spread = spread }))
  payload_from EventStream.polymarket_last_trade version value raw = do
    price ← decimal_at py "price" raw
    quantity ← decimal_at py "quantity" raw
    side ← text_at py "side" raw
    fee_rate_bps ← optional (decimal_of py) (get_field "fee_rate_bps" raw)
    some (
        polymarket_last_trade
          (record { price = price; quantity = quantity; side = side; fee_rate_bps = fee_rate_bps }))
  payload_from EventStream.polymarket_tick_size_change version value raw = do
    old_tick_size ← decimal_at py "old_tick_size" raw
    new_tick_size ← decimal_at py "new_tick_size" raw
    some (
        polymarket_tick_size_change
          (record { old_tick_size = old_tick_size; new_tick_size = new_tick_size }))
  payload_from EventStream.polymarket_market_resolved version value raw = do
    winning_outcome ← optional (λ m. outcome_from (text_of py m)) (get_field "winning_outcome" raw)
    affected_asset_ids ← read_texts py (get_field "affected_asset_ids" raw)
    some (
        polymarket_market_resolved (record {
          winning_asset_id = text_or_none (get_field "winning_asset_id" raw);
          winning_outcome = winning_outcome;
          affected_asset_ids = affected_asset_ids;
          market_id = text_or_none (get_field "market_id" raw);
          condition_id = text_or_none (get_field "condition_id" raw);
        }))
  payload_from EventStream.source_status version value raw = do
    source ← member_at py source_from "source" raw
    connected ← truth_at py "connected" raw
    reconnect_count ← int_at py "reconnect_count" raw
    some (
        source_status (record {
          source = source;
          connected = connected;
          session_id = text_or_none (get_field "session_id" raw);
          reconnect_count = reconnect_count;
          reason = text_or_none (get_field "reason" raw);
        }))
  payload_from EventStream.snapshot_tick version value raw = do
    snapshot_sequence ← int_at py "snapshot_sequence" raw
    scheduled_timestamp_ns ← int_at py "scheduled_timestamp_ns" raw
    health ← read_health py (get_field "health" raw)
    some (
        snapshot_tick (record {
          snapshot_sequence = snapshot_sequence;
          scheduled_timestamp_ns = scheduled_timestamp_ns;
          health = health;
        }))
  payload_from EventStream.market_window_state version value raw =
      if eqb version 2 then window_state raw else legacy_state value raw

  unfoldable pub event_from_dict : Json → Option MarketDataEvent
  event_from_dict value = do
    schema_version ← int_at py "schema_version" value
    require (eqb schema_version 1 || eqb schema_version 2)
    stream ← member_at py stream_from "stream" value
    raw ← as_object (get_field "payload" value)
    payload ← payload_from stream schema_version value raw
    ingest_sequence ← int_at py "ingest_sequence" value
    event_id ← text_at py "event_id" value
    source ← member_at py source_from "source" value
    instrument ← text_at py "instrument" value
    source_timestamp_ns ← optional (int_of py) (get_field "source_timestamp_ns" value)
    server_timestamp_ns ← optional (int_of py) (get_field "server_timestamp_ns" value)
    received_wall_timestamp_ns ← int_at py "received_wall_timestamp_ns" value
    received_monotonic_ns ← int_at py "received_monotonic_ns" value
    timeframe ← optional (λ m. timeframe_from (text_of py m)) (get_field "timeframe" value)
    outcome ← optional (λ m. outcome_from (text_of py m)) (get_field "outcome" value)
    some (record {
      schema_version = schema_version;
      ingest_sequence = ingest_sequence;
      event_id = event_id;
      source = source;
      instrument = instrument;
      source_timestamp_ns = source_timestamp_ns;
      server_timestamp_ns = server_timestamp_ns;
      received_wall_timestamp_ns = received_wall_timestamp_ns;
      received_monotonic_ns = received_monotonic_ns;
      source_sequence = text_or_none (get_field "source_sequence" value);
      timeframe = timeframe;
      market_id = text_or_none (get_field "market_id" value);
      condition_id = text_or_none (get_field "condition_id" value);
      asset_id = text_or_none (get_field "asset_id" value);
      outcome = outcome;
      payload = payload;
      source_session_id =
          if eqb schema_version 2 then text_or_none (get_field "source_session_id" value) else none;
    })
