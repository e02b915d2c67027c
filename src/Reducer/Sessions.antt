-- ===== src/Reducer/Sessions.antt =====
-- Snapshots after the end of a CLOB session.
use poly_market_btc_arbitrag.Prelude.{
  ℕ, ◌≡◌, refl, ◌⊎◌, inl, inr, Bool, true, false, Option, some, List, String, string_eq, arith, All,
  Option-cases,
}
use poly_market_btc_arbitrag.Dict
use poly_market_btc_arbitrag.Dict.Laws.{get-All}
use poly_market_btc_arbitrag.Models.Enums.{Timeframe, five_minutes, fifteen_minutes, timeframe_eq}
use poly_market_btc_arbitrag.Models.Payloads.{
  SourceStatusPayload, EventPayload, MarketDataEvent, snapshot_tick,
}
use poly_market_btc_arbitrag.Models.Snapshots.{MarketDataSnapshot}
use poly_market_btc_arbitrag.State.Store.{StateStore, Result, ok, value_error, apply, apply_status}
use poly_market_btc_arbitrag.State.Contexts.{TimeframeContext}
use poly_market_btc_arbitrag.State.Store.Validity.{Ensures}
use poly_market_btc_arbitrag.State.Store.Sessions.{
  Awaiting, AwaitsBook, NoBookFor, apply-AwaitsBook, ends_session, ends_session-AwaitsBook,
}
use poly_market_btc_arbitrag.State.View.{snapshot}
use poly_market_btc_arbitrag.State.BookView.{book_snapshot, view_book}
use poly_market_btc_arbitrag.State.View.Readiness.{IsReady-iff}
use poly_market_btc_arbitrag.State.View.Conditions.{BookReady, TimeframeReady}
use poly_market_btc_arbitrag.Reducer.{
  Trace, without_snapshot, reduce_tick, reduce_payload, reduce, run,
}
use poly_market_btc_arbitrag.Reducer.Induction.{StepOf, TraceOf, run_induction}

-- The timeframe's current market has the asset for one of its outcomes.
pub record Trades (timeframe : Timeframe) (asset : String) (st : StateStore) : Type 0 where
  pub context : TimeframeContext
  pub market_id : String
  pub end_ns : ℕ
  pub in_contexts : Dict.get timeframe st.contexts ≡ some context
  pub has_market : context.current.market_id ≡ some market_id
  pub has_end : context.current.end_ns ≡ some end_ns
  pub has_asset :
      (context.current.up_asset_id ≡ some asset) ⊎ (context.current.down_asset_id ≡ some asset)

awaited-unready :
    (asset : String) (named : Option String) (st : StateStore)
    → AwaitsBook asset st
    → named ≡ some asset
    → ¬ BookReady (book_snapshot named st)
unfolding book_snapshot view_book
awaited-unready asset named st a e r = elim (Option-cases (Dict.get asset st.books_by_asset)) [
  | inl f ↦ ground arith
  | inr (book, f) ↦
      let held = get-All (Awaiting asset) asset book st.books_by_asset a f refl in ground arith
]

timeframe-unready :
    {timeframe : Timeframe} {asset : String} {st : StateStore}
    → AwaitsBook asset st
    → Trades timeframe asset st
    → ¬ TimeframeReady timeframe st
timeframe-unready {asset = asset} {st = st} a t r =
    let ready = r t.context t.market_id t.end_ns t.in_contexts t.has_market t.has_end in
    elim t.has_asset [
      | inl e ↦ awaited-unready asset t.context.current.up_asset_id st a e ready.up
      | inr e ↦ awaited-unready asset t.context.current.down_asset_id st a e ready.down
    ]

false_of_not : (b : Bool) → ¬ (b ≡ true) → b ≡ false
false_of_not true h = absurd (h refl)
false_of_not false h = refl

pub snapshot-unready :
    (timeframe : Timeframe) (asset : String) (st : StateStore) (now sequence : ℕ)
    → AwaitsBook asset st
    → Trades timeframe asset st
    → (snapshot now sequence st).1.ready_for_strategy ≡ false
snapshot-unready five_minutes asset st now sequence a t =
    false_of_not _ λ h. timeframe-unready a t ((IsReady-iff now sequence st).0 h).five
snapshot-unready fifteen_minutes asset st now sequence a t =
    false_of_not _ λ h. timeframe-unready a t ((IsReady-iff now sequence st).0 h).fifteen

module _ (asset : String) where
  abbrev pub NoBook : MarketDataEvent → Type 0
  NoBook event = NoBookFor asset event.payload event.asset_id

  abbrev pub Anything : MarketDataSnapshot → Type 0
  Anything snap = Unit

  without_snapshot-AwaitsBook :
      (r : Result StateStore)
      → Ensures (AwaitsBook asset) r
      → Ensures (StepOf (AwaitsBook asset) Anything) (without_snapshot r)
  unfolding without_snapshot
  without_snapshot-AwaitsBook (ok st) a = (a, tt)
  without_snapshot-AwaitsBook value_error a = tt

  reduce_payload-AwaitsBook :
      (payload : EventPayload) (event : MarketDataEvent) (st : StateStore)
      → NoBook event
      → AwaitsBook asset st
      → Ensures (StepOf (AwaitsBook asset) Anything) (reduce_payload payload event st)
  unfolding reduce_payload reduce_tick snapshot
  reduce_payload-AwaitsBook (snapshot_tick payload) event st n a = (a, tt)
  reduce_payload-AwaitsBook _ event st n a =
      without_snapshot-AwaitsBook (apply event st) (apply-AwaitsBook asset event st n a)

  pub reduce-AwaitsBook :
      (event : MarketDataEvent) (st : StateStore)
      → NoBook event
      → AwaitsBook asset st
      → Ensures (StepOf (AwaitsBook asset) Anything) (reduce event st)
  unfolding reduce
  reduce-AwaitsBook event st = reduce_payload-AwaitsBook event.payload event st

  run-AwaitsBook :
      (events : List MarketDataEvent) (st : StateStore)
      → All NoBook events
      → AwaitsBook asset st
      → Ensures (TraceOf (AwaitsBook asset) Anything) (run events st)
  run-AwaitsBook = run_induction (AwaitsBook asset) Anything NoBook reduce-AwaitsBook

-- No snapshot of the store is ready at any time while the asset is traded in a current market.
abbrev pub Blocked : String → StateStore → Type 0
Blocked asset st =
    (timeframe : Timeframe) (now sequence : ℕ)
    → Trades timeframe asset st
    → (snapshot now sequence st).1.ready_for_strategy ≡ false

run-Blocked :
    (asset : String) (r : Result Trace)
    → Ensures (TraceOf (AwaitsBook asset) (Anything asset)) r
    → Ensures (λ trace. Blocked asset trace.final) r
run-Blocked asset (ok trace) e =
    λ timeframe now sequence. snapshot-unready timeframe asset trace.final now sequence e.0
run-Blocked asset value_error e = tt

-- After a CLOB status that ends the session, and then any events without a full book of the asset, no
-- snapshot is ready while a current market trades the asset.
pub session_end-Blocked :
    (status : SourceStatusPayload) (received : ℕ) (st : StateStore) (asset : String)
    (events : List MarketDataEvent)
    → ends_session status st ≡ true
    → All (λ event. NoBookFor asset event.payload event.asset_id) events
    → Ensures (λ trace. Blocked asset trace.final) (run events (apply_status status received st))
session_end-Blocked status received st asset events h n =
    run-Blocked asset _
      (run-AwaitsBook asset events _ n (ends_session-AwaitsBook status received st asset h))
