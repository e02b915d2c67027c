-- ===== src/State/Store.antt =====
-- `StateStore` of market_data/state.py: its fields, the market contexts, and `apply`.
pub mod Entries
pub mod Validity
pub mod Sessions
use poly_market_btc_arbitrag.Prelude.{
  ℕ, ◌+◌, Bool, true, false, not, ◌&&◌, ◌||◌, Option, none, some, List, [], ◌∷◌, map, String, ◌==◌,
  string_eq, option_eq, is_some, if◌then◌else◌,
}
use poly_market_btc_arbitrag.Dict
use poly_market_btc_arbitrag.Dict.{Dict, contains}
use poly_market_btc_arbitrag.Models.Enums.{
  EventSource, source_eq, polymarket_clob, Outcome, outcome_eq, Timeframe, timeframe_eq,
  DiscoveryState, discovery_state,
}
use poly_market_btc_arbitrag.Models.Payloads.{
  BinanceAggTradePayload, SourceStatusPayload, MarketWindowPayload, MarketWindowStatePayload,
  EventPayload, MarketDataEvent, market_window_state, source_status, chainlink_price,
  binance_agg_trade, binance_book_ticker, binance_depth20, polymarket_book, polymarket_price_change,
  polymarket_best_bid_ask, polymarket_last_trade, polymarket_tick_size_change,
  polymarket_market_resolved,
}
use poly_market_btc_arbitrag.Health
use poly_market_btc_arbitrag.Health.{HealthRegistry}
use poly_market_btc_arbitrag.State.Book
use poly_market_btc_arbitrag.State.Book.{Book}
use poly_market_btc_arbitrag.State.Rolling
use poly_market_btc_arbitrag.State.Rolling.{Rolling}
use poly_market_btc_arbitrag.State.Contexts.{
  WindowFields, TimeframeContext, context_window, names_asset, is_referenced, keep_referenced,
}
use poly_market_btc_arbitrag.State.Identity.{
  ClobIdentity, all_present, clob_identity, new_book, same_identity,
}

pub record StateStore : Type 0 where
  pub chainlink_stale_after_ms : ℕ
  pub binance_depth_stale_after_ms : ℕ
  pub binance_trade_stale_after_ms : ℕ
  pub health_registry : HealthRegistry
  pub chainlink : Option MarketDataEvent
  pub agg_trade : Option MarketDataEvent
  pub book_ticker : Option MarketDataEvent
  pub depth : Option MarketDataEvent
  pub rolling_windows : List Rolling
  pub contexts : Dict Timeframe TimeframeContext
  pub books_by_asset : Dict String Book
  pub current_clob_session_id : Option String
  pub stale_session_count : ℕ
  pub clob_delta_before_snapshot_count : ℕ

-- What a method returns, or that it raises `ValueError`.
pub data Result {ℓ} (A : Type ℓ) : Type ℓ where
  ok : A → Result A
  value_error : Result A

-- `StateStore(...)`
unfoldable pub new_store : ℕ → ℕ → ℕ → HealthRegistry → StateStore
new_store chainlink_stale depth_stale trade_stale registry = record {
  chainlink_stale_after_ms = chainlink_stale;
  binance_depth_stale_after_ms = depth_stale;
  binance_trade_stale_after_ms = trade_stale;
  health_registry = registry;
  chainlink = none;
  agg_trade = none;
  book_ticker = none;
  depth = none;
  rolling_windows = map Rolling.new_rolling (1 ∷ 5 ∷ 30 ∷ 60 ∷ []);
  contexts = [];
  books_by_asset = [];
  current_clob_session_id = none;
  stale_session_count = 0;
  clob_delta_before_snapshot_count = 0;
}

unfoldable pub set_connected : EventSource → Bool → StateStore → StateStore
set_connected source connected st = record st {
  health_registry =
      if connected
      then Health.record_connection source none 0 st.health_registry
      else Health.record_disconnection source none (some "connection_closed") st.health_registry;
}

-- `_apply_market_state`. `DiscoveryState(payload.state)` raises on a text that is no state.
unfoldable pub apply_market_state : MarketWindowStatePayload → StateStore → Result StateStore
apply_market_state payload st = elim (discovery_state payload.state) [
  | none ↦ value_error
  | some state ↦
      let contexts =
        Dict.set payload.timeframe
          (record {
            state = state;
            current = context_window payload.current_market;
            next = context_window payload.next_market;
            expected_transition_ns = payload.expected_transition_timestamp_ns;
            last_error = payload.last_error;
          })
          st.contexts in
      ok (record st {
        contexts = contexts;
        books_by_asset = keep_referenced contexts st.books_by_asset;
      })
]

-- `_invalidate_clob_books`
unfoldable pub invalidate_books : Dict String Book → Dict String Book
invalidate_books [] = []
invalidate_books ((asset, book) ∷ rest) = (asset, Book.invalidate book) ∷ invalidate_books rest

-- The SOURCE_STATUS branch of `apply`, after `record_message`.
unfoldable pub apply_status : SourceStatusPayload → ℕ → StateStore → StateStore
apply_status status received st =
    let registry =
      if status.connected
      then Health.record_connection status.source status.session_id received st.health_registry
      else Health.record_disconnection status.source status.session_id status.reason
          st.health_registry in
    let books =
      if not status.connected || not (status.session_id == st.current_clob_session_id)
      then invalidate_books st.books_by_asset
      else st.books_by_asset in
    let session = if status.connected then status.session_id else st.current_clob_session_id in
    if status.source == polymarket_clob
    then record st {
      health_registry = registry;
      books_by_asset = books;
      current_clob_session_id = session;
    }
    else record st { health_registry = registry }

-- A CLOB event of another session than the current one.
unfoldable pub is_stale : MarketDataEvent → StateStore → Bool
is_stale event st =
    event.source == polymarket_clob
    && is_some st.current_clob_session_id
    && not (event.source_session_id == st.current_clob_session_id)

-- The fields that the CLOB branch wants to be there.
abbrev pub or_new : Option Book → Book → Book
or_new none book = book
or_new (some book) _ = book

abbrev pub put_book : String → Book → StateStore → StateStore
put_book asset book st = record st { books_by_asset = Dict.set asset book st.books_by_asset }

-- The branches on the stream of a CLOB event, once its book is at hand.
unfoldable pub apply_to_book :
    EventPayload → String → Option String → Book → StateStore → StateStore
apply_to_book (polymarket_book payload) asset session book st =
    put_book asset (Book.load_book payload session book) st
apply_to_book (polymarket_price_change payload) asset session book st =
    if book.initialized
    then put_book asset (Book.change_book payload book) st
    else record (put_book asset book st) {
      clob_delta_before_snapshot_count = st.clob_delta_before_snapshot_count + 1;
    }
apply_to_book (polymarket_best_bid_ask payload) asset session book st =
    if not book.initialized
    then put_book asset book st
    else if Book.agrees payload book
    then put_book asset (Book.check_best payload book) st
    else record (put_book asset (Book.check_best payload book) st) {
      health_registry = Health.record_divergence polymarket_clob st.health_registry;
    }
apply_to_book (polymarket_last_trade payload) asset session book st =
    put_book asset (record book { last_trade_price = some payload.price }) st
apply_to_book (polymarket_tick_size_change payload) asset session book st =
    put_book asset (record book { tick_size = some payload.new_tick_size }) st
apply_to_book (polymarket_market_resolved payload) asset session book st =
    put_book asset (Book.resolve payload asset book) st
apply_to_book _ asset session book st = put_book asset book st

-- The last branch of `apply`, where the event has all the fields of a CLOB event.
unfoldable pub apply_clob : MarketDataEvent → ClobIdentity → StateStore → StateStore
apply_clob event identity st =
    let book =
      or_new (Dict.get identity.asset_id st.books_by_asset)
        (new_book identity event.source_session_id) in
    if not (is_referenced identity.asset_id st.contexts)
    then st
    else if not (same_identity identity book)
    then put_book identity.asset_id book st
    else apply_to_book event.payload identity.asset_id event.source_session_id
        (record book { last_event_timestamp_ns = event.source_timestamp_ns }) st

add_to_windows : ℕ → BinanceAggTradePayload → List Rolling → List Rolling
add_to_windows received trade = map (Rolling.add received trade)

-- The branches of `apply` behind the session check.
unfoldable pub apply_fresh : EventPayload → MarketDataEvent → StateStore → Result StateStore
unfolding add_to_windows
apply_fresh (market_window_state payload) event st = apply_market_state payload st
apply_fresh (chainlink_price payload) event st = ok (record st { chainlink = some event })
apply_fresh (binance_agg_trade payload) event st = ok (record st {
  agg_trade = some event;
  rolling_windows = add_to_windows event.received_wall_timestamp_ns payload st.rolling_windows;
})
apply_fresh (binance_book_ticker payload) event st = ok (record st { book_ticker = some event })
apply_fresh (binance_depth20 payload) event st = ok (record st { depth = some event })
apply_fresh _ event st = elim (clob_identity event) [
  | none ↦ ok st
  | some identity ↦ ok (apply_clob event identity st)
]

-- The session check and what follows.
unfoldable pub apply_other : MarketDataEvent → StateStore → Result StateStore
apply_other event st =
    if is_stale event st
    then ok (record st {
      stale_session_count = st.stale_session_count + 1;
      health_registry = Health.record_stale_session polymarket_clob st.health_registry;
    })
    else apply_fresh event.payload event st

unfoldable pub apply_payload : EventPayload → MarketDataEvent → StateStore → Result StateStore
apply_payload (source_status status) event st =
    ok (apply_status status event.received_wall_timestamp_ns st)
apply_payload _ event st = apply_other event st

-- `apply`
unfoldable pub apply : MarketDataEvent → StateStore → Result StateStore
apply event st = apply_payload event.payload event (record st {
  health_registry =
      Health.record_message event.source event.received_wall_timestamp_ns st.health_registry;
})
