-- ===== src/Codec/Enums.antt =====
-- The members of the enumerations by their values.
use poly_market_btc_arbitrag.Prelude.{
  ◌≡◌, refl, Option, none, some, String, ◌==◌, string_eq, if◌then◌else◌,
}
use poly_market_btc_arbitrag.Models.Enums.{
  EventSource, EventStream, TakerSide, Outcome, Timeframe, timeframe_value,
}

-- `source.value`
unfoldable pub source_value : EventSource → String
source_value EventSource.market_discovery = "market_discovery"
source_value EventSource.chainlink_rtds = "chainlink_rtds"
source_value EventSource.binance_spot = "binance_spot"
source_value EventSource.polymarket_clob = "polymarket_clob"

-- `EventSource(value)`
unfoldable pub source_from : String → Option EventSource
source_from value =
    if value == "market_discovery"
    then some EventSource.market_discovery
    else if value == "chainlink_rtds"
    then some EventSource.chainlink_rtds
    else if value == "binance_spot"
    then some EventSource.binance_spot
    else if value == "polymarket_clob"
    then some EventSource.polymarket_clob
    else none

pub source_from-value : (x : EventSource) → source_from (source_value x) ≡ some x
unfolding source_from source_value
source_from-value EventSource.market_discovery = refl
source_from-value EventSource.chainlink_rtds = refl
source_from-value EventSource.binance_spot = refl
source_from-value EventSource.polymarket_clob = refl

-- `stream.value`
unfoldable pub stream_value : EventStream → String
stream_value EventStream.market_window_state = "market_window_state"
stream_value EventStream.source_status = "source_status"
stream_value EventStream.snapshot_tick = "snapshot_tick"
stream_value EventStream.chainlink_price = "chainlink_price"
stream_value EventStream.binance_agg_trade = "binance_agg_trade"
stream_value EventStream.binance_book_ticker = "binance_book_ticker"
stream_value EventStream.binance_depth20 = "binance_depth20"
stream_value EventStream.polymarket_book = "polymarket_book"
stream_value EventStream.polymarket_price_change = "polymarket_price_change"
stream_value EventStream.polymarket_best_bid_ask = "polymarket_best_bid_ask"
stream_value EventStream.polymarket_last_trade = "polymarket_last_trade"
stream_value EventStream.polymarket_tick_size_change = "polymarket_tick_size_change"
stream_value EventStream.polymarket_market_resolved = "polymarket_market_resolved"

-- `EventStream(value)`
unfoldable pub stream_from : String → Option EventStream
stream_from value =
    if value == "market_window_state"
    then some EventStream.market_window_state
    else if value == "source_status"
    then some EventStream.source_status
    else if value == "snapshot_tick"
    then some EventStream.snapshot_tick
    else if value == "chainlink_price"
    then some EventStream.chainlink_price
    else if value == "binance_agg_trade"
    then some EventStream.binance_agg_trade
    else if value == "binance_book_ticker"
    then some EventStream.binance_book_ticker
    else if value == "binance_depth20"
    then some EventStream.binance_depth20
    else if value == "polymarket_book"
    then some EventStream.polymarket_book
    else if value == "polymarket_price_change"
    then some EventStream.polymarket_price_change
    else if value == "polymarket_best_bid_ask"
    then some EventStream.polymarket_best_bid_ask
    else if value == "polymarket_last_trade"
    then some EventStream.polymarket_last_trade
    else if value == "polymarket_tick_size_change"
    then some EventStream.polymarket_tick_size_change
    else if value == "polymarket_market_resolved"
    then some EventStream.polymarket_market_resolved
    else none

pub stream_from-value : (x : EventStream) → stream_from (stream_value x) ≡ some x
unfolding stream_from stream_value
stream_from-value EventStream.market_window_state = refl
stream_from-value EventStream.source_status = refl
stream_from-value EventStream.snapshot_tick = refl
stream_from-value EventStream.chainlink_price = refl
stream_from-value EventStream.binance_agg_trade = refl
stream_from-value EventStream.binance_book_ticker = refl
stream_from-value EventStream.binance_depth20 = refl
stream_from-value EventStream.polymarket_book = refl
stream_from-value EventStream.polymarket_price_change = refl
stream_from-value EventStream.polymarket_best_bid_ask = refl
stream_from-value EventStream.polymarket_last_trade = refl
stream_from-value EventStream.polymarket_tick_size_change = refl
stream_from-value EventStream.polymarket_market_resolved = refl

-- `taker_side.value`
unfoldable pub taker_side_value : TakerSide → String
taker_side_value TakerSide.buy = "buy"
taker_side_value TakerSide.sell = "sell"

-- `TakerSide(value)`
unfoldable pub taker_side_from : String → Option TakerSide
taker_side_from value =
    if value == "buy"
    then some TakerSide.buy
    else if value == "sell"
    then some TakerSide.sell
    else none

pub taker_side_from-value : (x : TakerSide) → taker_side_from (taker_side_value x) ≡ some x
unfolding taker_side_from taker_side_value
taker_side_from-value TakerSide.buy = refl
taker_side_from-value TakerSide.sell = refl

-- `outcome.value`
unfoldable pub outcome_value : Outcome → String
outcome_value Outcome.up = "up"
outcome_value Outcome.down = "down"

-- `Outcome(value)`
unfoldable pub outcome_from : String → Option Outcome
outcome_from value =
    if value == "up" then some Outcome.up else if value == "down" then some Outcome.down else none

pub outcome_from-value : (x : Outcome) → outcome_from (outcome_value x) ≡ some x
unfolding outcome_from outcome_value
outcome_from-value Outcome.up = refl
outcome_from-value Outcome.down = refl

-- `Timeframe(value)`
unfoldable pub timeframe_from : String → Option Timeframe
timeframe_from value =
    if value == "5m"
    then some Timeframe.five_minutes
    else if value == "15m"
    then some Timeframe.fifteen_minutes
    else none

pub timeframe_from-value : (x : Timeframe) → timeframe_from (timeframe_value x) ≡ some x
unfolding timeframe_from timeframe_value
timeframe_from-value Timeframe.five_minutes = refl
timeframe_from-value Timeframe.fifteen_minutes = refl
