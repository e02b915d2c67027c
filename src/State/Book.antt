-- ===== src/State/Book.antt =====
-- `_Book` of market_data/state.py, and what the CLOB messages do to one book.
pub mod Validity
pub mod Coherence
use poly_market_btc_arbitrag.Prelude.{
  ℕ, ◌+◌, Bool, true, false, ◌||◌, Option, none, some, List, [], ◌∷◌, String, ◌==◌, nat_eq,
  string_eq, option_eq, ltb, leb, null, if◌then◌else◌,
}
use poly_market_btc_arbitrag.Dict.{Dict, keys, set, pop, contains}
use poly_market_btc_arbitrag.Models.Enums.{Outcome, Timeframe}
use poly_market_btc_arbitrag.Models.Payloads.{
  Decimal, PriceLevel, PolymarketBookPayload, PolymarketPriceChangePayload,
  PolymarketBestBidAskPayload, PolymarketResolvedPayload,
}

pub record Book : Type 0 where
  pub asset_id : String
  pub market_id : String
  pub condition_id : String
  pub timeframe : Timeframe
  pub outcome : Outcome
  pub source_session_id : Option String
  pub bids : Dict Decimal Decimal
  pub asks : Dict Decimal Decimal
  pub last_trade_price : Option Decimal
  pub tick_size : Option Decimal
  pub initialized : Bool
  pub coherent : Bool
  pub resolved : Bool
  pub divergence_count : ℕ
  pub last_event_timestamp_ns : Option ℕ

abbrev pub larger : Decimal → Option Decimal → Decimal
larger a none = a
larger a (some b) = if ltb a b then b else a

abbrev pub smaller : Decimal → Option Decimal → Decimal
smaller a none = a
smaller a (some b) = if ltb b a then b else a

-- `max(prices, default=None)` and `min(prices, default=None)`
unfoldable pub max_price : List Decimal → Option Decimal
max_price [] = none
max_price (p ∷ ps) = some (larger p (max_price ps))

unfoldable pub min_price : List Decimal → Option Decimal
min_price [] = none
min_price (p ∷ ps) = some (smaller p (min_price ps))

-- No bid or no ask, or the best bid is below the best ask.
abbrev pub uncrossed : Option Decimal → Option Decimal → Bool
uncrossed (some bid) (some ask) = ltb bid ask
uncrossed _ _ = true

-- `_coherent`
unfoldable pub is_coherent : Dict Decimal Decimal → Dict Decimal Decimal → Bool
is_coherent bids asks = uncrossed (max_price (keys bids)) (min_price (keys asks))

-- `{level.price: level.quantity for level in levels}`, over the entries made so far
unfoldable pub level_dict : Dict Decimal Decimal → List PriceLevel → Dict Decimal Decimal
level_dict d [] = d
level_dict d (level ∷ levels) = level_dict (set level.price level.quantity d) levels

-- POLYMARKET_BOOK: the payload replaces both sides.
unfoldable pub load_book : PolymarketBookPayload → Option String → Book → Book
load_book payload session book =
    let bids = level_dict [] payload.bids in
    let asks = level_dict [] payload.asks in
    record book {
      bids = bids;
      asks = asks;
      initialized = true;
      coherent = is_coherent bids asks;
      divergence_count = 0;
      source_session_id = session;
    }

-- One level of one side: a zero quantity takes it out.
unfoldable pub change_level : Decimal → Decimal → Dict Decimal Decimal → Dict Decimal Decimal
change_level price quantity levels =
    if quantity == 0 then pop price levels else set price quantity levels

-- POLYMARKET_PRICE_CHANGE, on a book that is initialized.
unfoldable pub change_book : PolymarketPriceChangePayload → Book → Book
change_book payload book =
    let bids = change_level payload.price payload.quantity book.bids in
    let asks = change_level payload.price payload.quantity book.asks in
    if payload.side == "BUY"
    then record book { bids = bids; coherent = is_coherent bids book.asks }
    else record book { asks = asks; coherent = is_coherent book.bids asks }

-- Whether the book's best prices are those that the message states.
unfoldable pub agrees : PolymarketBestBidAskPayload → Book → Bool
agrees payload book =
    if max_price (keys book.bids) == payload.best_bid
    then min_price (keys book.asks) == payload.best_ask
    else false

-- POLYMARKET_BEST_BID_ASK that the book does not agree with: the third in a row costs the book its
-- coherence.
unfoldable pub diverge : Book → Book
diverge book = record book {
  divergence_count = book.divergence_count + 1;
  coherent = if leb 3 (book.divergence_count + 1) then false else book.coherent;
}

-- POLYMARKET_BEST_BID_ASK that the book agrees with.
unfoldable pub converge : Book → Book
converge book = if book.coherent then record book { divergence_count = 0 } else book

-- POLYMARKET_BEST_BID_ASK on an initialized book.
abbrev pub check_best : PolymarketBestBidAskPayload → Book → Book
check_best payload book = if agrees payload book then converge book else diverge book

-- POLYMARKET_MARKET_RESOLVED
unfoldable pub resolve : PolymarketResolvedPayload → String → Book → Book
resolve payload asset book =
    if contains asset payload.affected_asset_ids || null payload.affected_asset_ids
    then record book { resolved = true }
    else book

-- One book of `_invalidate_clob_books`.
unfoldable pub invalidate : Book → Book
invalidate book = record book {
  bids = [];
  asks = [];
  initialized = false;
  coherent = false;
  divergence_count = 0;
  source_session_id = none;
}
