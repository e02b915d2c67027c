-- ===== src/State/BinanceView.antt =====
-- `_binance_snapshot` of market_data/state.py.
use poly_market_btc_arbitrag.Prelude.{
  ℕ, ◌+◌, ◌*◌, Option, none, some, List, [], ◌∷◌, nat_eq, string_eq, if◌then◌else◌,
}
use poly_market_btc_arbitrag.Decimals.{ℤ, pos, ◌+ℤ◌, ◌-ℤ◌, context_round, context_round_ℕ, truthy}
use poly_market_btc_arbitrag.Models.Enums.{timeframe_eq}
use poly_market_btc_arbitrag.Models.Payloads.{
  Decimal, PriceLevel, BinanceAggTradePayload, BinanceBookTickerPayload, BinanceDepth20Payload,
  EventPayload, binance_agg_trade, binance_book_ticker, binance_depth20,
}
use poly_market_btc_arbitrag.Models.Snapshots.{Quotient, RollingWindowSnapshot, BinanceSnapshot}
use poly_market_btc_arbitrag.State.Store.{StateStore}
use poly_market_btc_arbitrag.State.BookView.{bind, map_option}

abbrev pub as_agg_trade : EventPayload → Option BinanceAggTradePayload
as_agg_trade (binance_agg_trade p) = some p
as_agg_trade _ = none

abbrev pub as_book_ticker : EventPayload → Option BinanceBookTickerPayload
as_book_ticker (binance_book_ticker p) = some p
as_book_ticker _ = none

abbrev pub as_depth : EventPayload → Option BinanceDepth20Payload
as_depth (binance_depth20 p) = some p
as_depth _ = none

-- `sum((level.price * level.quantity for level in levels), Decimal(0))`, over the sum made so far
unfoldable pub sum_notional : Decimal → List PriceLevel → Decimal
sum_notional total [] = total
sum_notional total (level ∷ levels) =
    sum_notional (context_round_ℕ (total + context_round_ℕ (level.price * level.quantity))) levels

abbrev pub quotient : ℤ → ℤ → Quotient
quotient a b = record { numerator = a; denominator = b }

-- `a / b if b else None`
abbrev pub quotient_if : ℤ → ℤ → Option Quotient
quotient_if a b = if truthy b then some (quotient a b) else none

sum_of : Decimal → Decimal → ℤ
sum_of a b = context_round (pos (a + b))

difference : Decimal → Decimal → ℤ
difference a b = context_round (pos a -ℤ pos b)

scale : ℕ → ℤ → ℤ
scale k (ℤ.pos n) = pos (k * n)
scale k (ℤ.negsuc n) = pos 0 -ℤ pos (k * (n + 1))

-- The fields of `_binance_snapshot` that come from the book ticker. `spread_bps` divides twice as
-- much as the spread by the sum of the prices, which is twice the mid price.
spread_bps_of : BinanceBookTickerPayload → Option Quotient
unfolding sum_of difference scale
spread_bps_of t =
    if truthy (sum_of t.best_ask_price t.best_bid_price)
    then some (
        quotient (scale 20000 (difference t.best_ask_price t.best_bid_price))
          (sum_of t.best_ask_price t.best_bid_price))
    else none

microprice_of : BinanceBookTickerPayload → Option Quotient
unfolding sum_of
microprice_of t =
    quotient_if
      (context_round (
        context_round (pos (t.best_ask_price * t.best_bid_quantity))
        +ℤ context_round (pos (t.best_bid_price * t.best_ask_quantity))))
      (sum_of t.best_bid_quantity t.best_ask_quantity)

top1_imbalance_of : BinanceBookTickerPayload → Option Quotient
unfolding sum_of difference
top1_imbalance_of t =
    quotient_if (difference t.best_bid_quantity t.best_ask_quantity)
      (sum_of t.best_bid_quantity t.best_ask_quantity)

depth_imbalance_of : Decimal → Decimal → Option Quotient
unfolding sum_of difference
depth_imbalance_of bid_notional ask_notional =
    quotient_if (difference bid_notional ask_notional) (sum_of bid_notional ask_notional)

abbrev pub levels_or_none : Option (List PriceLevel) → List PriceLevel
levels_or_none none = []
levels_or_none (some levels) = levels

-- `_binance_snapshot`, with the windows as `_rolling` leaves them
unfoldable pub binance_view : StateStore → List RollingWindowSnapshot → BinanceSnapshot
unfolding sum_of difference spread_bps_of microprice_of top1_imbalance_of depth_imbalance_of
binance_view st windows =
    let ticker = bind st.book_ticker λ e. as_book_ticker e.payload in
    let depth = bind st.depth λ e. as_depth e.payload in
    let trade = bind st.agg_trade λ e. as_agg_trade e.payload in
    let bids = levels_or_none (map_option (λ d. d.bids) depth) in
    let asks = levels_or_none (map_option (λ d. d.asks) depth) in
    let bid_notional = sum_notional 0 bids in
    let ask_notional = sum_notional 0 asks in
    record {
      last_price = map_option (λ t. t.price) trade;
      taker_side = map_option (λ t. t.taker_side) trade;
      best_bid = map_option (λ t. t.best_bid_price) ticker;
      best_ask = map_option (λ t. t.best_ask_price) ticker;
      best_bid_quantity = map_option (λ t. t.best_bid_quantity) ticker;
      best_ask_quantity = map_option (λ t. t.best_ask_quantity) ticker;
      depth_bids = bids;
      depth_asks = asks;
      mid_price =
          map_option (λ t. quotient (sum_of t.best_ask_price t.best_bid_price) (pos 2)) ticker;
      spread = map_option (λ t. difference t.best_ask_price t.best_bid_price) ticker;
      spread_bps = bind ticker spread_bps_of;
      microprice = bind ticker microprice_of;
      top1_imbalance = bind ticker top1_imbalance_of;
      top20_bid_notional = map_option (λ d. bid_notional) depth;
      top20_ask_notional = map_option (λ d. ask_notional) depth;
      top20_depth_imbalance = depth_imbalance_of bid_notional ask_notional;
      rolling_windows = windows;
    }
