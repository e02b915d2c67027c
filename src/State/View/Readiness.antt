-- ===== src/State/View/Readiness.antt =====
-- When a snapshot is ready: the reasons that the code collects against a statement of the conditions.
use poly_market_btc_arbitrag.Prelude.{
  ℕ, ◌≡◌, refl, ◌↔◌, ◌⊎◌, inl, inr, Bool, true, false, not, ◌&&◌, ◌||◌, Option, none, some, List,
  [], ◌∷◌, ◌++◌, String, null, is_some, arith, Option-cases,
}
use poly_market_btc_arbitrag.Dict
use poly_market_btc_arbitrag.Models.Enums.{
  Timeframe, five_minutes, fifteen_minutes, timeframe_eq, chainlink_rtds, binance_spot,
  polymarket_clob,
}
use poly_market_btc_arbitrag.Models.Payloads.{MarketDataEvent}
use poly_market_btc_arbitrag.Models.Snapshots.{OrderBookSnapshot, PolymarketTimeframeSnapshot}
use poly_market_btc_arbitrag.Health.{source_snapshot}
use poly_market_btc_arbitrag.State.Store.{StateStore}
use poly_market_btc_arbitrag.State.Contexts.{TimeframeContext}
use poly_market_btc_arbitrag.State.View.{
  is_active, book_reasons, state_reasons, resolved_reasons, book_resolved, market_view,
  timeframe_snapshot, age_ms, is_older, reason_if, shown, market_reasons, source_reasons,
  all_reasons, snapshot,
}
use poly_market_btc_arbitrag.State.BookView.{book_snapshot}
use poly_market_btc_arbitrag.State.View.Conditions.{
  Fresh, SourcesReady, BookReady, ContextReady, TimeframeReady, IsReady,
}

null-append : {A : Type 0} (xs ys : List A) → null (xs ++ ys) ≡ (null xs && null ys)
null-append [] ys = refl
null-append (x ∷ xs) ys = refl

abbrev unready : Option OrderBookSnapshot → Bool
unready none = true
unready (some book) = not book.initialized || not book.coherent

null-book_reasons :
    (timeframe : Timeframe) (name : String) (book : Option OrderBookSnapshot)
    → null (book_reasons timeframe name book) ≡ not (unready book)
unfolding book_reasons
null-book_reasons timeframe name none = refl
null-book_reasons timeframe name (some book) = ground arith

books_ready :
    (up down : Option OrderBookSnapshot)
    → ((not (unready up) && (not (unready down) && not (book_resolved up || book_resolved down)))
        ≡ true)
      ↔ (BookReady up × BookReady down)
books_ready up down = ground arith

module _ (timeframe : Timeframe) (now : ℕ) (context : TimeframeContext) (market_id : String)
    (end_ns : ℕ) (st : StateStore) where
  null-market : null (market_view timeframe now context market_id end_ns st).not_ready_reasons ≡ (
      is_active context.state
      && (not (unready (book_snapshot context.current.up_asset_id st))
          && (not (unready (book_snapshot context.current.down_asset_id st))
              && not (
                  book_resolved (book_snapshot context.current.up_asset_id st)
                  || book_resolved (book_snapshot context.current.down_asset_id st)))))
  unfolding market_view state_reasons resolved_reasons
  null-market = simp (null-append, null-book_reasons) (ground arith)

  market_ready :
      (null (market_view timeframe now context market_id end_ns st).not_ready_reasons ≡ true)
      ↔ ContextReady context st
  market_ready = ground (
    arith,
    null-market,
    books_ready (book_snapshot context.current.up_asset_id st)
        (book_snapshot context.current.down_asset_id st),
  )

null-reason_if : (b : Bool) (reason : String) → null (reason_if b reason) ≡ not b
null-reason_if true reason = refl
null-reason_if false reason = refl

is_older_iff :
    (event : Option MarketDataEvent) (now limit : ℕ)
    → (is_older (age_ms event now) limit ≡ false) ↔ Fresh event now limit
unfolding age_ms
is_older_iff event now limit = ground arith

null-source_reasons :
    (now : ℕ) (st : StateStore)
    → null (source_reasons now st) ≡ (
        (source_snapshot st.health_registry chainlink_rtds now).connected
        && (not (is_older (age_ms st.chainlink now) st.chainlink_stale_after_ms)
            && ((source_snapshot st.health_registry binance_spot now).connected
                && (not (is_older (age_ms st.depth now) st.binance_depth_stale_after_ms)
                    && (not (is_older (age_ms st.agg_trade now) st.binance_trade_stale_after_ms)
                        && (is_some st.book_ticker
                            && (source_snapshot st.health_registry polymarket_clob
                                now).connected))))))
unfolding source_reasons
null-source_reasons now st = simp (null-append, null-reason_if) (ground arith)

sources_ready :
    (now : ℕ) (st : StateStore) → (null (source_reasons now st) ≡ true) ↔ SourcesReady now st
unfolding source_snapshot
sources_ready now st = ground (
  arith,
  null-source_reasons now st,
  is_older_iff st.chainlink now st.chainlink_stale_after_ms,
  is_older_iff st.depth now st.binance_depth_stale_after_ms,
  is_older_iff st.agg_trade now st.binance_trade_stale_after_ms,
)

abbrev pub reasons_of : Option PolymarketTimeframeSnapshot → List String
reasons_of none = []
reasons_of (some market) = market.not_ready_reasons

pub timeframe_snapshot-some :
    (timeframe : Timeframe) (now : ℕ) (st : StateStore) (context : TimeframeContext)
    (market_id : String) (end_ns : ℕ)
    → Dict.get timeframe st.contexts ≡ some context
    → context.current.market_id ≡ some market_id
    → context.current.end_ns ≡ some end_ns
    → timeframe_snapshot timeframe now st
      ≡ some (market_view timeframe now context market_id end_ns st)
unfolding timeframe_snapshot
timeframe_snapshot-some timeframe now st context market_id end_ns p q r = ground arith

-- A timeframe without a context, a current market or an end shows no market.
pub timeframe_cases :
    (timeframe : Timeframe) (now : ℕ) (st : StateStore)
    → (timeframe_snapshot timeframe now st ≡ none)
      ⊎ ((context : TimeframeContext) × (market_id : String) × (end_ns : ℕ) × (Dict.get timeframe
              st.contexts
            ≡ some context)
          × (context.current.market_id ≡ some market_id)
          × (context.current.end_ns ≡ some end_ns))
unfolding timeframe_snapshot
timeframe_cases timeframe now st = elim (Option-cases (Dict.get timeframe st.contexts)) [
  | inl e ↦ inl (ground arith)
  | inr (context, e) ↦ elim (Option-cases context.current.market_id) [
    | inl f ↦ inl (ground arith)
    | inr (market_id, f) ↦ elim (Option-cases context.current.end_ns) [
      | inl g ↦ inl (ground arith)
      | inr (end_ns, g) ↦ inr (context, market_id, end_ns, e, f, g)
    ]
  ]
]

module _ (timeframe : Timeframe) (now : ℕ) (st : StateStore) where
  ready_of_timeframe :
      null (reasons_of (timeframe_snapshot timeframe now st)) ≡ true → TimeframeReady timeframe st
  ready_of_timeframe h context market_id end_ns p q r =
      (market_ready timeframe now context market_id end_ns st).0
        (rw (timeframe_snapshot-some timeframe now st context market_id end_ns p q r) at h)

  timeframe_of_ready :
      TimeframeReady timeframe st → null (reasons_of (timeframe_snapshot timeframe now st)) ≡ true
  timeframe_of_ready h = elim (timeframe_cases timeframe now st) [
    | inl e ↦ rw e refl
    | inr (context, market_id, end_ns, p, q, r) ↦
        rw (timeframe_snapshot-some timeframe now st context market_id end_ns p q r) (
          (market_ready timeframe now context market_id end_ns st).1
            (h context market_id end_ns p q r))
  ]

null-all_reasons :
    (now : ℕ) (st : StateStore) (five fifteen : Option PolymarketTimeframeSnapshot)
    → null (all_reasons now st (shown five fifteen)) ≡ (
        null (source_reasons now st)
        && ((is_some five || is_some fifteen)
            && (null (reasons_of five) && null (reasons_of fifteen))))
unfolding all_reasons market_reasons
null-all_reasons now st none none = simp null-append (ground arith)
null-all_reasons now st none (some b) = simp null-append (ground arith)
null-all_reasons now st (some a) none = simp null-append (ground arith)
null-all_reasons now st (some a) (some b) = simp null-append (ground arith)

module _ (now sequence : ℕ) (st : StateStore) where
  ready_as_tests : (snapshot now sequence st).1.ready_for_strategy ≡ (
      null (source_reasons now st)
      && ((is_some (timeframe_snapshot five_minutes now st)
            || is_some (timeframe_snapshot fifteen_minutes now st))
          && (null (reasons_of (timeframe_snapshot five_minutes now st))
              && null (reasons_of (timeframe_snapshot fifteen_minutes now st)))))
  unfolding snapshot
  ready_as_tests =
      null-all_reasons now st (timeframe_snapshot five_minutes now st)
        (timeframe_snapshot fifteen_minutes now st)

  IsReady-gives : (snapshot now sequence st).1.ready_for_strategy ≡ true → IsReady now st
  IsReady-gives h =
      let tests = ready_as_tests in
      record {
        sources = (sources_ready now st).0 (ground arith);
        some_market = ground arith;
        five = ready_of_timeframe five_minutes now st (ground arith);
        fifteen = ready_of_timeframe fifteen_minutes now st (ground arith);
      }

  ready_from : IsReady now st → (snapshot now sequence st).1.ready_for_strategy ≡ true
  ready_from r = ground (
    arith,
    ready_as_tests,
    (sources_ready now st).1 r.sources,
    timeframe_of_ready five_minutes now st r.five,
    timeframe_of_ready fifteen_minutes now st r.fifteen,
  )

  -- A snapshot is ready exactly if the Chainlink, Binance and CLOB sources are connected, the last
  -- Chainlink price, depth and trade are there and each no older than its limit, a book ticker was seen,
  -- of any age, at least one timeframe has a current market with an end, and each that has one is active
  -- with an initialized, coherent and unresolved book for either outcome.
  pub IsReady-iff : ((snapshot now sequence st).1.ready_for_strategy ≡ true) ↔ IsReady now st
  IsReady-iff = (IsReady-gives, ready_from)
