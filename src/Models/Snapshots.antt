-- ===== src/Models/Snapshots.antt =====
-- The snapshot records of market_data/models.py. Fields that the program computes by a division of
-- decimals hold the two numbers that it divides (`Quotient`): the program rounds their quotient to the
-- 28 digits of the decimal context.
use poly_market_btc_arbitrag.Prelude.{ℕ, Bool, Option, List, String}
use poly_market_btc_arbitrag.Decimals.{ℤ}
use poly_market_btc_arbitrag.Models.Enums.{EventSource, TakerSide, Outcome, Timeframe}
use poly_market_btc_arbitrag.Models.Payloads.{Decimal, PriceLevel, SourceHealthSnapshot}

pub record Quotient : Type 0 where
  pub numerator : ℤ
  pub denominator : ℤ

pub record ChainlinkSnapshot : Type 0 where
  pub price : Option Decimal
  pub source_timestamp_ns : Option ℕ
  pub received_timestamp_ns : Option ℕ
  pub age_ms : Option ℕ

pub record RollingWindowSnapshot : Type 0 where
  pub window_seconds : ℕ
  pub buy_volume : ℤ
  pub sell_volume : ℤ
  pub vwap : Option Quotient

pub record BinanceSnapshot : Type 0 where
  pub last_price : Option Decimal
  pub taker_side : Option TakerSide
  pub best_bid : Option Decimal
  pub best_ask : Option Decimal
  pub best_bid_quantity : Option Decimal
  pub best_ask_quantity : Option Decimal
  pub depth_bids : List PriceLevel
  pub depth_asks : List PriceLevel
  pub mid_price : Option Quotient
  pub spread : Option ℤ
  pub spread_bps : Option Quotient
  pub microprice : Option Quotient
  pub top1_imbalance : Option Quotient
  pub top20_bid_notional : Option Decimal
  pub top20_ask_notional : Option Decimal
  pub top20_depth_imbalance : Option Quotient
  pub rolling_windows : List RollingWindowSnapshot

pub record OrderBookSnapshot : Type 0 where
  pub asset_id : String
  pub market_id : String
  pub condition_id : String
  pub outcome : Outcome
  pub source_session_id : Option String
  pub bids : List PriceLevel
  pub asks : List PriceLevel
  pub best_bid : Option Decimal
  pub best_ask : Option Decimal
  pub last_trade_price : Option Decimal
  pub tick_size : Option Decimal
  pub initialized : Bool
  pub coherent : Bool
  pub resolved : Bool
  pub last_event_timestamp_ns : Option ℕ

pub record PolymarketTimeframeSnapshot : Type 0 where
  pub timeframe : Timeframe
  pub market_id : Option String
  pub condition_id : Option String
  pub start_timestamp_ns : Option ℕ
  pub end_timestamp_ns : Option ℕ
  pub remaining_ms : Option ℕ
  pub up : Option OrderBookSnapshot
  pub down : Option OrderBookSnapshot
  pub resolved : Bool
  pub ready : Bool
  pub not_ready_reasons : List String

pub record PolymarketSnapshot : Type 0 where
  pub five_minutes : Option PolymarketTimeframeSnapshot
  pub fifteen_minutes : Option PolymarketTimeframeSnapshot

pub record MarketDataSnapshot : Type 0 where
  pub schema_version : ℕ
  pub snapshot_sequence : ℕ
  pub snapshot_timestamp_ns : ℕ
  pub market_5m : Option PolymarketTimeframeSnapshot
  pub market_15m : Option PolymarketTimeframeSnapshot
  pub chainlink : ChainlinkSnapshot
  pub binance : BinanceSnapshot
  pub polymarket : PolymarketSnapshot
  pub health : List (EventSource × SourceHealthSnapshot)
  pub ready_for_strategy : Bool
  pub not_ready_reasons : List String
