-- ===== src/State/View.antt =====
-- The snapshot side of `StateStore` in market_data/state.py: one timeframe's market, and the whole
-- snapshot with its reasons not to be ready.
pub mod Conditions
pub mod Readiness
pub mod Safety
use Prim.Native.String.{◌++◌ as str_append}
use poly_market_btc_arbitrag.Prelude.{
  ℕ, ◌+◌, ◌-◌, ◌*◌, ◌/◌, Bool, true, false, not, ◌||◌, Option, none, some, List, [], ◌∷◌, ◌++◌, map,
  String, nat_eq, string_eq, ltb, leb, null, take, is_some, if◌then◌else◌,
}
use poly_market_btc_arbitrag.Decimals.{ℤ, pos, ◌+ℤ◌, ◌-ℤ◌, context_round, context_round_ℕ, truthy}
use poly_market_btc_arbitrag.Dict
use poly_market_btc_arbitrag.Dict.{Dict, keys, contains}
use poly_market_btc_arbitrag.Models.Enums.{
  Timeframe, five_minutes, fifteen_minutes, timeframe_eq, timeframe_value, DiscoveryState, active,
  searching_next, next_ready, transition_failed, chainlink_rtds, binance_spot, polymarket_clob,
}
use poly_market_btc_arbitrag.Models.Payloads.{
  Decimal, PriceLevel, ChainlinkPricePayload, BinanceAggTradePayload, BinanceBookTickerPayload,
  BinanceDepth20Payload, MarketDataEvent, EventPayload, chainlink_price, binance_agg_trade,
  binance_book_ticker, binance_depth20,
}
use poly_market_btc_arbitrag.Models.Snapshots.{
  Quotient, RollingWindowSnapshot, BinanceSnapshot, OrderBookSnapshot, PolymarketTimeframeSnapshot,
  MarketDataSnapshot,
}
use poly_market_btc_arbitrag.Health.{age_ms_since, source_snapshot, all_source_snapshots}
use poly_market_btc_arbitrag.State.Book.{Book}
use poly_market_btc_arbitrag.State.Rolling
use poly_market_btc_arbitrag.State.Rolling.{Rolling}
use poly_market_btc_arbitrag.State.Store.{StateStore}
use poly_market_btc_arbitrag.State.Contexts.{TimeframeContext}
use poly_market_btc_arbitrag.State.BookView.{
  sort_desc, sort_asc, levels_at, first_price, view_book, book_snapshot, bind, map_option,
}
use poly_market_btc_arbitrag.State.BinanceView.{
  as_agg_trade, as_book_ticker, as_depth, sum_notional, quotient, quotient_if, levels_or_none,
  binance_view,
}

-- `cast` to a payload class.
abbrev pub as_chainlink : EventPayload → Option ChainlinkPricePayload
as_chainlink (chainlink_price p) = some p
as_chainlink _ = none

-- The reason that one of the two books gives.
unfoldable pub book_reasons : Timeframe → String → Option OrderBookSnapshot → List String
book_reasons timeframe name none =
    str_append (timeframe_value timeframe) (str_append ":" (str_append name "_book_uninitialized"))
    ∷ []
book_reasons timeframe name (some book) =
    if not book.initialized
    then str_append (timeframe_value timeframe)
        (str_append ":" (str_append name "_book_uninitialized"))
      ∷ []
    else if not book.coherent
    then str_append (timeframe_value timeframe)
        (str_append ":" (str_append name "_book_incoherent"))
      ∷ []
    else []

abbrev pub book_resolved : Option OrderBookSnapshot → Bool
book_resolved none = false
book_resolved (some book) = book.resolved

abbrev pub is_active : DiscoveryState → Bool
is_active active = true
is_active searching_next = false
is_active next_ready = false
is_active transition_failed = false

unfoldable pub state_reasons : Timeframe → DiscoveryState → List String
state_reasons timeframe state =
    if is_active state then [] else str_append (timeframe_value timeframe) ":market_not_active" ∷ []

unfoldable pub resolved_reasons : Timeframe → Bool → List String
resolved_reasons timeframe resolved =
    if resolved then str_append (timeframe_value timeframe) ":market_resolved" ∷ [] else []

-- The body of `_timeframe_snapshot` for a context with a current market and its end.
unfoldable pub market_view :
    Timeframe → ℕ → TimeframeContext → String → ℕ → StateStore → PolymarketTimeframeSnapshot
market_view timeframe now context market_id end_ns st =
    let up = book_snapshot context.current.up_asset_id st in
    let down = book_snapshot context.current.down_asset_id st in
    let resolved = book_resolved up || book_resolved down in
    let reasons =
      state_reasons timeframe context.state
      ++ (book_reasons timeframe "up" up
          ++ (book_reasons timeframe "down" down ++ resolved_reasons timeframe resolved)) in
    record {
      timeframe = timeframe;
      market_id = some market_id;
      condition_id = context.current.condition_id;
      start_timestamp_ns = context.current.start_ns;
      end_timestamp_ns = some end_ns;
      remaining_ms = some ((end_ns - now) / 1000000);
      up = up;
      down = down;
      resolved = resolved;
      ready = null reasons;
      not_ready_reasons = reasons;
    }

-- `_timeframe_snapshot`
unfoldable pub timeframe_snapshot : Timeframe → ℕ → StateStore → Option PolymarketTimeframeSnapshot
timeframe_snapshot timeframe now st = bind (Dict.get timeframe st.contexts) λ context.
    bind context.current.market_id λ market_id.
      map_option (λ end_ns. market_view timeframe now context market_id end_ns st)
        context.current.end_ns

-- `_age_ms`
unfoldable pub age_ms : Option MarketDataEvent → ℕ → Option ℕ
age_ms event now = map_option (λ e. age_ms_since now e.received_wall_timestamp_ns) event

-- `age is None or age > limit`
abbrev pub is_older : Option ℕ → ℕ → Bool
is_older none limit = true
is_older (some age) limit = ltb limit age

-- `[reason]` where the test holds
abbrev pub reason_if : Bool → String → List String
reason_if true reason = reason ∷ []
reason_if false reason = []

-- The markets that the snapshot shows
abbrev pub shown {ℓ} : {A : Type ℓ} → Option A → Option A → List A
shown none none = []
shown none (some b) = b ∷ []
shown (some a) none = a ∷ []
shown (some a) (some b) = a ∷ b ∷ []

-- The loop that extends the reasons by those of each market
unfoldable pub market_reasons : List PolymarketTimeframeSnapshot → List String
market_reasons [] = []
market_reasons (market ∷ markets) = market.not_ready_reasons ++ market_reasons markets

-- The reasons that come from the sources, in the order of the code
unfoldable pub source_reasons : ℕ → StateStore → List String
source_reasons now st =
    reason_if (not (source_snapshot st.health_registry chainlink_rtds now).connected)
      "chainlink_disconnected"
    ++ (reason_if (is_older (age_ms st.chainlink now) st.chainlink_stale_after_ms) "chainlink_stale"
        ++ (reason_if (not (source_snapshot st.health_registry binance_spot now).connected)
              "binance_disconnected"
            ++ (reason_if (is_older (age_ms st.depth now) st.binance_depth_stale_after_ms)
                  "binance_depth_stale"
                ++ (reason_if (is_older (age_ms st.agg_trade now) st.binance_trade_stale_after_ms)
                      "binance_trade_stale"
                    ++ (reason_if (not (is_some st.book_ticker)) "binance_book_ticker_missing"
                        ++ reason_if
                            (not (source_snapshot st.health_registry polymarket_clob now).connected)
                            "clob_disconnected")))))

unfoldable pub all_reasons : ℕ → StateStore → List PolymarketTimeframeSnapshot → List String
all_reasons now st markets =
    source_reasons now st ++ (reason_if (null markets) "no_active_market" ++ market_reasons markets)

-- `tuple(dict.fromkeys(reasons))`: the first of each, in order, behind those that were seen
unfoldable pub unique_from : List String → List String → List String
unique_from seen [] = []
unique_from seen (reason ∷ reasons) =
    let kept = unique_from (reason ∷ seen) reasons in
    let rest = unique_from seen reasons in if contains reason seen then rest else reason ∷ kept

expire_windows : ℕ → List Rolling → List Rolling
expire_windows now = map (Rolling.expire now)

-- `snapshot`. It expires the rolling windows, so the store changes too.
unfoldable pub snapshot : ℕ → ℕ → StateStore → StateStore × MarketDataSnapshot
unfolding expire_windows
snapshot now sequence st =
    let windows = expire_windows now st.rolling_windows in
    let market_5m = timeframe_snapshot five_minutes now st in
    let market_15m = timeframe_snapshot fifteen_minutes now st in
    let reasons = all_reasons now st (shown market_5m market_15m) in
    (
      record st { rolling_windows = windows },
      record {
        schema_version = 1;
        snapshot_sequence = sequence;
        snapshot_timestamp_ns = now;
        market_5m = market_5m;
        market_15m = market_15m;
        chainlink = record {
          price = map_option (λ p. p.price) (bind st.chainlink λ e. as_chainlink e.payload);
          source_timestamp_ns = bind st.chainlink λ e. e.source_timestamp_ns;
          received_timestamp_ns = map_option (λ e. e.received_wall_timestamp_ns) st.chainlink;
          age_ms = age_ms st.chainlink now;
        };
        binance = binance_view st (map Rolling.window_view windows);
        polymarket = record { five_minutes = market_5m; fifteen_minutes = market_15m };
        health = all_source_snapshots st.health_registry now;
        ready_for_strategy = null reasons;
        not_ready_reasons = unique_from [] reasons;
      },
    )
