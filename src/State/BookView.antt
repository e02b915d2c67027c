-- ===== src/State/BookView.antt =====
-- `_book_snapshot` of market_data/state.py: a book's best levels in price order.
pub mod Order
use Prim.Native.String.{◌++◌ as str_append}
use poly_market_btc_arbitrag.Prelude.{
  ℕ, ◌+◌, ◌-◌, ◌*◌, ◌/◌, Bool, true, false, not, ◌||◌, Option, none, some, List, [], ◌∷◌, ◌++◌, map,
  String, nat_eq, string_eq, ltb, leb, null, take, is_some, if◌then◌else◌,
}
use poly_market_btc_arbitrag.Decimals.{ℤ, pos, ◌+ℤ◌, ◌-ℤ◌, context_round, context_round_ℕ, truthy}
use poly_market_btc_arbitrag.Dict
use poly_market_btc_arbitrag.Dict.{Dict, keys, contains}
use poly_market_btc_arbitrag.Models.Enums.{
  Timeframe, five_minutes, fifteen_minutes, timeframe_eq, timeframe_value, DiscoveryState, active,
  searching_next, next_ready, transition_failed, chainlink_rtds, binance_spot, polymarket_clob,
}
use poly_market_btc_arbitrag.Models.Payloads.{
  Decimal, PriceLevel, ChainlinkPricePayload, BinanceAggTradePayload, BinanceBookTickerPayload,
  BinanceDepth20Payload, MarketDataEvent, EventPayload, chainlink_price, binance_agg_trade,
  binance_book_ticker, binance_depth20,
}
use poly_market_btc_arbitrag.Models.Snapshots.{
  Quotient, RollingWindowSnapshot, BinanceSnapshot, OrderBookSnapshot, PolymarketTimeframeSnapshot,
  MarketDataSnapshot,
}
use poly_market_btc_arbitrag.Health.{age_ms_since, source_snapshot, all_source_snapshots}
use poly_market_btc_arbitrag.State.Book.{Book}
use poly_market_btc_arbitrag.State.Rolling
use poly_market_btc_arbitrag.State.Rolling.{Rolling}
use poly_market_btc_arbitrag.State.Store.{StateStore}
use poly_market_btc_arbitrag.State.Contexts.{TimeframeContext}

abbrev pub bind {ℓ κ} : {A : Type ℓ} {B : Type κ} → Option A → (A → Option B) → Option B
bind none f = none
bind (some a) f = f a

-- `value if x else None`
abbrev pub map_option {ℓ κ} : {A : Type ℓ} {B : Type κ} → (A → B) → Option A → Option B
map_option f none = none
map_option f (some a) = some (f a)

insert_desc : Decimal → List Decimal → List Decimal
insert_desc p [] = p ∷ []
insert_desc p (q ∷ qs) = if leb q p then p ∷ q ∷ qs else q ∷ insert_desc p qs

insert_asc : Decimal → List Decimal → List Decimal
insert_asc p [] = p ∷ []
insert_asc p (q ∷ qs) = if leb p q then p ∷ q ∷ qs else q ∷ insert_asc p qs

-- `sorted(prices, reverse=True)` and `sorted(prices)`
unfoldable pub sort_desc : List Decimal → List Decimal
unfolding insert_desc
sort_desc [] = []
sort_desc (p ∷ ps) = insert_desc p (sort_desc ps)

unfoldable pub sort_asc : List Decimal → List Decimal
unfolding insert_asc
sort_asc [] = []
sort_asc (p ∷ ps) = insert_asc p (sort_asc ps)

pub quantity_at : Dict Decimal Decimal → Decimal → Decimal
quantity_at side price = elim (Dict.get price side) [ none ↦ 0 | some quantity ↦ quantity ]

-- `PriceLevel(price, side[price])` for the prices; each is a key of the side.
unfoldable pub levels_at : Dict Decimal Decimal → List Decimal → List PriceLevel
unfolding quantity_at
levels_at side = map λ price. record { price = price; quantity = quantity_at side price }

abbrev pub first_price : List PriceLevel → Option Decimal
first_price [] = none
first_price (level ∷ _) = some level.price

-- The record that `_book_snapshot` makes of a book.
unfoldable pub view_book : Book → OrderBookSnapshot
view_book book =
    let bids = levels_at book.bids (take 20 (sort_desc (keys book.bids))) in
    let asks = levels_at book.asks (take 20 (sort_asc (keys book.asks))) in
    record {
      asset_id = book.asset_id;
      market_id = book.market_id;
      condition_id = book.condition_id;
      outcome = book.outcome;
      source_session_id = book.source_session_id;
      bids = bids;
      asks = asks;
      best_bid = first_price bids;
      best_ask = first_price asks;
      last_trade_price = book.last_trade_price;
      tick_size = book.tick_size;
      initialized = book.initialized;
      coherent = book.coherent;
      resolved = book.resolved;
      last_event_timestamp_ns = book.last_event_timestamp_ns;
    }

-- `_book_snapshot`
unfoldable pub book_snapshot : Option String → StateStore → Option OrderBookSnapshot
book_snapshot asset st = bind asset λ a. map_option view_book (Dict.get a st.books_by_asset)
