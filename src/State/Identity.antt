-- ===== src/State/Identity.antt =====
-- The fields that a CLOB event must have, and the books that they name: of StateStore.apply in
-- market_data/state.py.
use poly_market_btc_arbitrag.Prelude.{
  Bool, true, false, ◌&&◌, Option, none, some, [], String, ◌==◌, string_eq, option_eq,
  if◌then◌else◌,
}
use poly_market_btc_arbitrag.Models.Enums.{
  source_eq, polymarket_clob, Outcome, outcome_eq, Timeframe, timeframe_eq,
}
use poly_market_btc_arbitrag.Models.Payloads.{MarketDataEvent}
use poly_market_btc_arbitrag.State.Book.{Book}

pub record ClobIdentity : Type 0 where
  pub asset_id : String
  pub market_id : String
  pub condition_id : String
  pub timeframe : Timeframe
  pub outcome : Outcome

pub all_present :
    Option String
    → Option String
    → Option String
    → Option Timeframe
    → Option Outcome
    → Option ClobIdentity
all_present (some a) (some m) (some c) (some t) (some o) =
    some (record { asset_id = a; market_id = m; condition_id = c; timeframe = t; outcome = o })
all_present _ _ _ _ _ = none

unfoldable pub clob_identity : MarketDataEvent → Option ClobIdentity
unfolding all_present
clob_identity event =
    if event.source == polymarket_clob
    then all_present event.asset_id event.market_id event.condition_id event.timeframe event.outcome
    else none

-- `_Book(...)` with its defaults
unfoldable pub new_book : ClobIdentity → Option String → Book
new_book identity session = record {
  asset_id = identity.asset_id;
  market_id = identity.market_id;
  condition_id = identity.condition_id;
  timeframe = identity.timeframe;
  outcome = identity.outcome;
  source_session_id = session;
  bids = [];
  asks = [];
  last_trade_price = none;
  tick_size = none;
  initialized = false;
  coherent = true;
  resolved = false;
  divergence_count = 0;
  last_event_timestamp_ns = none;
}

unfoldable pub same_identity : ClobIdentity → Book → Bool
same_identity identity book =
    book.market_id == identity.market_id
    && book.condition_id == identity.condition_id
    && book.timeframe == identity.timeframe
    && book.outcome == identity.outcome

-- The book is an object of the dictionary: what changes it changes the dictionary's entry.
