-- ===== src/Tests.antt =====
-- Values for the tests: events, and a store that has seen a few of them.
pub mod StateTests
pub mod ReplayTests
pub mod BusTests
pub mod SourceTests
pub mod FeedTests
pub mod MarketTests
pub mod StorageTests
pub mod ClobTests
use poly_market_btc_arbitrag.Prelude.{ℕ, true, false, none, some, List, [], ◌∷◌, String}
use poly_market_btc_arbitrag.Health.{new_registry}
use poly_market_btc_arbitrag.Models.Enums.{
  EventSource, polymarket_clob, chainlink_rtds, market_discovery, binance_spot, five_minutes, up,
  down, buy,
}
use poly_market_btc_arbitrag.Models.Payloads.{
  PriceLevel, MarketWindowPayload, BinanceAggTradePayload, EventPayload, MarketDataEvent,
  market_window_state, source_status, snapshot_tick, chainlink_price, binance_agg_trade,
  polymarket_book, polymarket_price_change, SourceStatusPayload, ChainlinkPricePayload,
}
use poly_market_btc_arbitrag.State.Book.{Book}
use poly_market_btc_arbitrag.State.Store.{StateStore, new_store}

abbrev pub event_at : EventSource → ℕ → EventPayload → MarketDataEvent
event_at source sequence payload = record {
  schema_version = 2;
  ingest_sequence = sequence;
  event_id = "event";
  source = source;
  instrument = "BTC";
  source_timestamp_ns = some 5;
  server_timestamp_ns = none;
  received_wall_timestamp_ns = sequence;
  received_monotonic_ns = sequence;
  source_sequence = none;
  timeframe = some five_minutes;
  market_id = some "market";
  condition_id = some "condition";
  asset_id = some "up";
  outcome = some up;
  payload = payload;
  source_session_id = some "session";
}

abbrev pub market : MarketWindowPayload
market = record {
  timeframe = five_minutes;
  market_id = "market";
  condition_id = "condition";
  slug = "btc-updown-5m-300";
  start_timestamp_ns = 300000000000;
  end_timestamp_ns = 600000000000;
  up_token_id = "up";
  down_token_id = "down";
  resolution_source = "https://data.chain.link/streams/btc-usd";
}

abbrev pub market_event : ℕ → MarketDataEvent
market_event sequence = event_at market_discovery sequence (
    market_window_state (record {
      state = "active";
      timeframe = five_minutes;
      current_market = some market;
      next_market = none;
      expected_transition_timestamp_ns = some 600000000000;
      updated_at_timestamp_ns = 1;
      attempt_count = 1;
      last_error = none;
    }))

abbrev pub status : ℕ → SourceStatusPayload
status reconnects = record {
  source = polymarket_clob;
  connected = true;
  session_id = some "session";
  reconnect_count = reconnects;
  reason = none;
}

abbrev pub status_event : ℕ → MarketDataEvent
status_event sequence = event_at polymarket_clob sequence (source_status (status 0))

abbrev pub level : ℕ → ℕ → PriceLevel
level price quantity = record { price = price; quantity = quantity }

abbrev pub book_event : ℕ → MarketDataEvent
book_event sequence = event_at polymarket_clob sequence (
    polymarket_book (record {
      bids = level 40 3 ∷ level 41 2 ∷ [];
      asks = level 60 1 ∷ level 59 7 ∷ [];
      book_hash = some "hash";
    }))

abbrev pub price_event : ℕ → MarketDataEvent
price_event sequence = event_at polymarket_clob sequence (
    polymarket_price_change (record {
      side = "BUY";
      price = 42;
      quantity = 5;
      best_bid = none;
      best_ask = none;
      change_hash = none;
    }))

abbrev pub tick_event : ℕ → MarketDataEvent
tick_event sequence =
    event_at market_discovery sequence
      (snapshot_tick (record { snapshot_sequence = 1; scheduled_timestamp_ns = 1000; health = [] }))

abbrev pub chainlink_event : ℕ → MarketDataEvent
chainlink_event sequence =
    event_at chainlink_rtds sequence
      (chainlink_price (record { symbol = "btc/usd"; price = 90000 }))

abbrev pub trade : ℕ → ℕ → BinanceAggTradePayload
trade price quantity = record {
  symbol = "BTCUSDT";
  aggregate_trade_id = 1;
  price = price;
  quantity = quantity;
  first_trade_id = 1;
  last_trade_id = 1;
  trade_timestamp_ns = 1;
  taker_side = buy;
}

abbrev pub empty_store : StateStore
empty_store = new_store 1000 2000 3000 (new_registry "started")

abbrev pub events : List MarketDataEvent
events =
    market_event 1
    ∷ status_event 2
    ∷ book_event 3
    ∷ price_event 4
    ∷ chainlink_event 5
    ∷ tick_event 6
    ∷ []

-- A book with two levels on each side.
abbrev pub book : Book
book = record {
  asset_id = "up";
  market_id = "market";
  condition_id = "condition";
  timeframe = five_minutes;
  outcome = up;
  source_session_id = some "session";
  bids = (40, 3) ∷ (41, 2) ∷ [];
  asks = (60, 1) ∷ (59, 7) ∷ [];
  last_trade_price = none;
  tick_size = none;
  initialized = true;
  coherent = true;
  resolved = false;
  divergence_count = 1;
  last_event_timestamp_ns = none;
}
