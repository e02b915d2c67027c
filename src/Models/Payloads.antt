-- ===== src/Models/Payloads.antt =====
-- The event and its payloads, of market_data/models.py. The program builds each event with a payload
-- of its stream's class (the parsers and `event_from_dict` do, and `cast` relies on it), so the stream
-- of an event is read off its payload.
use poly_market_btc_arbitrag.Prelude.{ℕ, Bool, Option, List, String}
use poly_market_btc_arbitrag.Models.Enums.{EventSource, EventStream, TakerSide, Outcome, Timeframe}

abbrev pub Decimal : Type 0
Decimal = ℕ

pub record PriceLevel : Type 0 where
  pub price : Decimal
  pub quantity : Decimal

pub record ChainlinkPricePayload : Type 0 where
  pub symbol : String
  pub price : Decimal

pub record BinanceAggTradePayload : Type 0 where
  pub symbol : String
  pub aggregate_trade_id : ℕ
  pub price : Decimal
  pub quantity : Decimal
  pub first_trade_id : ℕ
  pub last_trade_id : ℕ
  pub trade_timestamp_ns : ℕ
  pub taker_side : TakerSide

pub record BinanceBookTickerPayload : Type 0 where
  pub symbol : String
  pub update_id : ℕ
  pub best_bid_price : Decimal
  pub best_bid_quantity : Decimal
  pub best_ask_price : Decimal
  pub best_ask_quantity : Decimal

pub record BinanceDepth20Payload : Type 0 where
  pub symbol : String
  pub last_update_id : ℕ
  pub bids : List PriceLevel
  pub asks : List PriceLevel

pub record PolymarketBookPayload : Type 0 where
  pub bids : List PriceLevel
  pub asks : List PriceLevel
  pub book_hash : Option String

pub record PolymarketPriceChangePayload : Type 0 where
  pub side : String
  pub price : Decimal
  pub quantity : Decimal
  pub best_bid : Option Decimal
  pub best_ask : Option Decimal
  pub change_hash : Option String

pub record PolymarketBestBidAskPayload : Type 0 where
  pub best_bid : Option Decimal
  pub best_ask : Option Decimal
  pub spread : Option Decimal

pub record PolymarketLastTradePayload : Type 0 where
  pub price : Decimal
  pub quantity : Decimal
  pub side : String
  pub fee_rate_bps : Option Decimal

pub record PolymarketTickSizePayload : Type 0 where
  pub old_tick_size : Decimal
  pub new_tick_size : Decimal

pub record PolymarketResolvedPayload : Type 0 where
  pub winning_asset_id : Option String
  pub winning_outcome : Option Outcome
  pub affected_asset_ids : List String
  pub market_id : Option String
  pub condition_id : Option String

pub record SourceHealthSnapshot : Type 0 where
  pub connected : Bool
  pub stale : Bool
  pub current_session_id : Option String
  pub last_message_timestamp_ns : Option ℕ
  pub age_ms : Option ℕ
  pub reconnect_count : ℕ
  pub invalid_count : ℕ
  pub duplicate_count : ℕ
  pub stale_session_count : ℕ
  pub divergence_count : ℕ
  pub protocol_error_count : ℕ

pub record SourceStatusPayload : Type 0 where
  pub source : EventSource
  pub connected : Bool
  pub session_id : Option String
  pub reconnect_count : ℕ
  pub reason : Option String

pub record SnapshotTickPayload : Type 0 where
  pub snapshot_sequence : ℕ
  pub scheduled_timestamp_ns : ℕ
  pub health : List (EventSource × SourceHealthSnapshot)

pub record MarketWindowPayload : Type 0 where
  pub timeframe : Timeframe
  pub market_id : String
  pub condition_id : String
  pub slug : String
  pub start_timestamp_ns : ℕ
  pub end_timestamp_ns : ℕ
  pub up_token_id : String
  pub down_token_id : String
  pub resolution_source : String

pub record MarketWindowStatePayload : Type 0 where
  pub state : String
  pub timeframe : Timeframe
  pub current_market : Option MarketWindowPayload
  pub next_market : Option MarketWindowPayload
  pub expected_transition_timestamp_ns : Option ℕ
  pub updated_at_timestamp_ns : ℕ
  pub attempt_count : ℕ
  pub last_error : Option String

pub data EventPayload : Type 0 where
  market_window_state : MarketWindowStatePayload → EventPayload
  source_status : SourceStatusPayload → EventPayload
  snapshot_tick : SnapshotTickPayload → EventPayload
  chainlink_price : ChainlinkPricePayload → EventPayload
  binance_agg_trade : BinanceAggTradePayload → EventPayload
  binance_book_ticker : BinanceBookTickerPayload → EventPayload
  binance_depth20 : BinanceDepth20Payload → EventPayload
  polymarket_book : PolymarketBookPayload → EventPayload
  polymarket_price_change : PolymarketPriceChangePayload → EventPayload
  polymarket_best_bid_ask : PolymarketBestBidAskPayload → EventPayload
  polymarket_last_trade : PolymarketLastTradePayload → EventPayload
  polymarket_tick_size_change : PolymarketTickSizePayload → EventPayload
  polymarket_market_resolved : PolymarketResolvedPayload → EventPayload

pub record MarketDataEvent : Type 0 where
  pub schema_version : ℕ
  pub ingest_sequence : ℕ
  pub event_id : String
  pub source : EventSource
  pub instrument : String
  pub source_timestamp_ns : Option ℕ
  pub server_timestamp_ns : Option ℕ
  pub received_wall_timestamp_ns : ℕ
  pub received_monotonic_ns : ℕ
  pub source_sequence : Option String
  pub timeframe : Option Timeframe
  pub market_id : Option String
  pub condition_id : Option String
  pub asset_id : Option String
  pub outcome : Option Outcome
  pub payload : EventPayload
  pub source_session_id : Option String

-- `event.stream`
unfoldable pub stream_of : EventPayload → EventStream
stream_of (market_window_state _) = EventStream.market_window_state
stream_of (source_status _) = EventStream.source_status
stream_of (snapshot_tick _) = EventStream.snapshot_tick
stream_of (chainlink_price _) = EventStream.chainlink_price
stream_of (binance_agg_trade _) = EventStream.binance_agg_trade
stream_of (binance_book_ticker _) = EventStream.binance_book_ticker
stream_of (binance_depth20 _) = EventStream.binance_depth20
stream_of (polymarket_book _) = EventStream.polymarket_book
stream_of (polymarket_price_change _) = EventStream.polymarket_price_change
stream_of (polymarket_best_bid_ask _) = EventStream.polymarket_best_bid_ask
stream_of (polymarket_last_trade _) = EventStream.polymarket_last_trade
stream_of (polymarket_tick_size_change _) = EventStream.polymarket_tick_size_change
stream_of (polymarket_market_resolved _) = EventStream.polymarket_market_resolved
