-- ===== src/State/View/Conditions.antt =====
-- The conditions of readiness, as a statement about the store.
use poly_market_btc_arbitrag.Prelude.{
  ℕ, ◌≤◌, ◌≡◌, true, false, ◌||◌, Option, none, some, String, is_some,
}
use poly_market_btc_arbitrag.Dict
use poly_market_btc_arbitrag.Models.Enums.{
  Timeframe, five_minutes, fifteen_minutes, timeframe_eq, chainlink_rtds, binance_spot,
  polymarket_clob,
}
use poly_market_btc_arbitrag.Models.Payloads.{MarketDataEvent}
use poly_market_btc_arbitrag.Models.Snapshots.{OrderBookSnapshot}
use poly_market_btc_arbitrag.Health.{row, age_ms_since}
use poly_market_btc_arbitrag.State.Store.{StateStore}
use poly_market_btc_arbitrag.State.Contexts.{TimeframeContext}
use poly_market_btc_arbitrag.State.View.{is_active, timeframe_snapshot}
use poly_market_btc_arbitrag.State.BookView.{book_snapshot}

-- An event was received, at most `limit` whole milliseconds before `now`.
abbrev pub Fresh : Option MarketDataEvent → ℕ → ℕ → Type 0
Fresh none now limit = ⊥
Fresh (some event) now limit = age_ms_since now event.received_wall_timestamp_ns ≤ limit

pub record SourcesReady (now : ℕ) (st : StateStore) : Type 0 where
  pub chainlink_connected : (row st.health_registry chainlink_rtds).connected ≡ true
  pub chainlink_fresh : Fresh st.chainlink now st.chainlink_stale_after_ms
  pub binance_connected : (row st.health_registry binance_spot).connected ≡ true
  pub depth_fresh : Fresh st.depth now st.binance_depth_stale_after_ms
  pub trade_fresh : Fresh st.agg_trade now st.binance_trade_stale_after_ms
  pub has_ticker : is_some st.book_ticker ≡ true
  pub clob_connected : (row st.health_registry polymarket_clob).connected ≡ true

-- The book is there, initialized, coherent and unresolved.
abbrev pub BookReady : Option OrderBookSnapshot → Type 0
BookReady none = ⊥
BookReady (some book) = (book.initialized ≡ true) × (book.coherent ≡ true) × (book.resolved ≡ false)

pub record ContextReady (context : TimeframeContext) (st : StateStore) : Type 0 where
  pub active : is_active context.state ≡ true
  pub up : BookReady (book_snapshot context.current.up_asset_id st)
  pub down : BookReady (book_snapshot context.current.down_asset_id st)

-- If the timeframe has a current market, the market is ready.
abbrev pub TimeframeReady : Timeframe → StateStore → Type 0
TimeframeReady timeframe st =
    (context : TimeframeContext) (market_id : String) (end_ns : ℕ)
    → Dict.get timeframe st.contexts ≡ some context
    → context.current.market_id ≡ some market_id
    → context.current.end_ns ≡ some end_ns
    → ContextReady context st

pub record IsReady (now : ℕ) (st : StateStore) : Type 0 where
  pub sources : SourcesReady now st
  pub some_market :
      (is_some (timeframe_snapshot five_minutes now st)
        || is_some (timeframe_snapshot fifteen_minutes now st))
      ≡ true
  pub five : TimeframeReady five_minutes st
  pub fifteen : TimeframeReady fifteen_minutes st
