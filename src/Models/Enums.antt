-- ===== src/Models/Enums.antt =====
-- The enumerations of market_data/models.py and market_discovery/models.py.
use poly_market_btc_arbitrag.Prelude.{
  ℕ, ◌≡◌, ◌↔◌, Bool, Option, none, some, String, Eq, ◌==◌, string_eq, arith, if◌then◌else◌, eqb,
}

pub data EventSource : Type 0 where
  market_discovery chainlink_rtds binance_spot polymarket_clob : EventSource

pub data EventStream : Type 0 where
  market_window_state source_status snapshot_tick chainlink_price binance_agg_trade : EventStream
  binance_book_ticker binance_depth20 polymarket_book polymarket_price_change : EventStream
  polymarket_best_bid_ask polymarket_last_trade polymarket_tick_size_change : EventStream
  polymarket_market_resolved : EventStream

pub data TakerSide : Type 0 where
  buy sell : TakerSide

pub data Outcome : Type 0 where
  up down : Outcome

pub data Timeframe : Type 0 where
  five_minutes fifteen_minutes : Timeframe

pub data DiscoveryState : Type 0 where
  active searching_next next_ready transition_failed : DiscoveryState

-- `DiscoveryState(value)`: the member with the value, where the enumeration has one.
unfoldable pub discovery_state : String → Option DiscoveryState
discovery_state s =
    if s == "active"
    then some active
    else if s == "searching_next"
    then some searching_next
    else if s == "next_ready"
    then some next_ready
    else if s == "transition_failed"
    then some transition_failed
    else none

-- `state.value`
unfoldable pub discovery_state_value : DiscoveryState → String
discovery_state_value active = "active"
discovery_state_value searching_next = "searching_next"
discovery_state_value next_ready = "next_ready"
discovery_state_value transition_failed = "transition_failed"

-- `timeframe.value`
unfoldable pub timeframe_value : Timeframe → String
timeframe_value five_minutes = "5m"
timeframe_value fifteen_minutes = "15m"

unfoldable pub duration_seconds : Timeframe → ℕ
duration_seconds five_minutes = 300
duration_seconds fifteen_minutes = 900

abbrev pub source_equals : EventSource → EventSource → Bool
source_equals a b = eqb (number a) (number b)
  where
    number : EventSource → ℕ
    number market_discovery = 0
    number chainlink_rtds = 1
    number binance_spot = 2
    number polymarket_clob = 3

pub source_equals_iff : (a b : EventSource) → (source_equals a b ≡ Bool.true) ↔ (a ≡ b)
source_equals_iff a b = ground arith

instance abbrev pub source_eq : Eq EventSource
source_eq = record { equals = source_equals; equals_iff = source_equals_iff }

abbrev pub outcome_equals : Outcome → Outcome → Bool
outcome_equals up up = Bool.true
outcome_equals down down = Bool.true
outcome_equals _ _ = Bool.false

pub outcome_equals_iff : (a b : Outcome) → (outcome_equals a b ≡ Bool.true) ↔ (a ≡ b)
outcome_equals_iff a b = ground arith

instance abbrev pub outcome_eq : Eq Outcome
outcome_eq = record { equals = outcome_equals; equals_iff = outcome_equals_iff }

abbrev pub timeframe_equals : Timeframe → Timeframe → Bool
timeframe_equals five_minutes five_minutes = Bool.true
timeframe_equals fifteen_minutes fifteen_minutes = Bool.true
timeframe_equals _ _ = Bool.false

pub timeframe_equals_iff : (a b : Timeframe) → (timeframe_equals a b ≡ Bool.true) ↔ (a ≡ b)
timeframe_equals_iff a b = ground arith

instance abbrev pub timeframe_eq : Eq Timeframe
timeframe_eq = record { equals = timeframe_equals; equals_iff = timeframe_equals_iff }
