-- ===== src/Reducer/Connections.antt =====
-- Replays without a status event of a source. In the gateway the source itself tells the registry that it is
-- connected, which is no event.
use poly_market_btc_arbitrag.Prelude.{
  ℕ, ◌≡◌, refl, false, ◌==◌, List, arith, All, Bool-cases, Option-cases, inl, inr, ◌∙◌,
}
use poly_market_btc_arbitrag.Models.Enums.{
  EventSource, source_eq, chainlink_rtds, polymarket_clob, discovery_state,
}
use poly_market_btc_arbitrag.Models.Payloads.{
  SourceStatusPayload, SnapshotTickPayload, EventPayload, MarketWindowStatePayload, MarketDataEvent,
  market_window_state, source_status, chainlink_price, binance_agg_trade, binance_book_ticker,
  binance_depth20, snapshot_tick,
}
use poly_market_btc_arbitrag.Models.Snapshots.{MarketDataSnapshot}
use poly_market_btc_arbitrag.Health.{
  HealthRegistry, row, record_message, record_connection, record_disconnection, record_divergence,
  record_stale_session, change,
}
use poly_market_btc_arbitrag.State.Store.{
  StateStore, Result, ok, value_error, apply_market_state, apply_status, apply_to_book, apply_clob,
  apply_fresh, apply_other, apply_payload, apply, is_stale,
}
use poly_market_btc_arbitrag.State.Identity.{ClobIdentity, clob_identity}
use poly_market_btc_arbitrag.State.Store.Validity.{Ensures}
use poly_market_btc_arbitrag.State.View.{snapshot}
use poly_market_btc_arbitrag.State.View.Readiness.{IsReady-iff}
use poly_market_btc_arbitrag.Reducer.{
  Reduced, without_snapshot, reduce_tick, reduce_payload, reduce, run,
}
use poly_market_btc_arbitrag.Reducer.Induction.{StepOf, TraceOf, run_induction}

abbrev pub ChainlinkDown : StateStore → Type 0
ChainlinkDown st = (row st.health_registry chainlink_rtds).connected ≡ false

-- The event is no status of the Chainlink source.
abbrev pub NoChainlinkStatus : EventPayload → Type 0
NoChainlinkStatus (source_status status) = (status.source == chainlink_rtds) ≡ false
NoChainlinkStatus _ = Unit

connected-message :
    (s : EventSource) (now : ℕ) (r : HealthRegistry)
    → (row (record_message s now r) chainlink_rtds).connected ≡ (row r chainlink_rtds).connected
unfolding row record_message change
connected-message s now r = ground arith

connected-divergence :
    (r : HealthRegistry)
    → (row (record_divergence polymarket_clob r) chainlink_rtds).connected
      ≡ (row r chainlink_rtds).connected
unfolding row record_divergence change
connected-divergence r = refl

connected-stale :
    (r : HealthRegistry)
    → (row (record_stale_session polymarket_clob r) chainlink_rtds).connected
      ≡ (row r chainlink_rtds).connected
unfolding row record_stale_session change
connected-stale r = refl

status-ChainlinkDown :
    (status : SourceStatusPayload) (received : ℕ) (st : StateStore)
    → (status.source == chainlink_rtds) ≡ false
    → ChainlinkDown st
    → ChainlinkDown (apply_status status received st)
unfolding apply_status record_connection record_disconnection change row
status-ChainlinkDown status received st n d = ground arith

book-ChainlinkDown :
    (event : MarketDataEvent) (identity : ClobIdentity) (st : StateStore)
    → ChainlinkDown st
    → ChainlinkDown (apply_clob event identity st)
unfolding apply_clob apply_to_book
book-ChainlinkDown event identity st d = ground (arith, connected-divergence st.health_registry)

market_state-ChainlinkDown :
    (payload : MarketWindowStatePayload) (st : StateStore)
    → ChainlinkDown st
    → Ensures ChainlinkDown (apply_market_state payload st)
unfolding apply_market_state
market_state-ChainlinkDown payload st d = elim (Option-cases (discovery_state payload.state)) [
  | inl e ↦ rw (e, apply_market_state) tt
  | inr (state, e) ↦ rw (e, apply_market_state) d
]

fresh-ChainlinkDown :
    (payload : EventPayload) (event : MarketDataEvent) (st : StateStore)
    → ChainlinkDown st
    → Ensures ChainlinkDown (apply_fresh payload event st)
unfolding apply_fresh
fresh-ChainlinkDown (market_window_state payload) event st d =
    market_state-ChainlinkDown payload st d
fresh-ChainlinkDown (chainlink_price payload) event st d = d
fresh-ChainlinkDown (binance_agg_trade payload) event st d = d
fresh-ChainlinkDown (binance_book_ticker payload) event st d = d
fresh-ChainlinkDown (binance_depth20 payload) event st d = d
fresh-ChainlinkDown _ event st d = elim (Option-cases (clob_identity event)) [
  | inl e ↦ rw (e, apply_fresh) d
  | inr (identity, e) ↦ rw (e, apply_fresh) (book-ChainlinkDown event identity st d)
]

other-ChainlinkDown :
    (event : MarketDataEvent) (st : StateStore)
    → ChainlinkDown st
    → Ensures ChainlinkDown (apply_other event st)
unfolding apply_other
other-ChainlinkDown event st d = elim (Bool-cases (is_stale event st)) [
  | inl e ↦ rw (e, apply_other) (connected-stale st.health_registry ∙ d)
  | inr e ↦ rw (e, apply_other) (fresh-ChainlinkDown event.payload event st d)
]

payload-ChainlinkDown :
    (payload : EventPayload) (event : MarketDataEvent) (st : StateStore)
    → NoChainlinkStatus payload
    → ChainlinkDown st
    → Ensures ChainlinkDown (apply_payload payload event st)
unfolding apply_payload
payload-ChainlinkDown (source_status status) event st n d =
    status-ChainlinkDown status event.received_wall_timestamp_ns st n d
payload-ChainlinkDown _ event st n d = other-ChainlinkDown event st d

apply-ChainlinkDown :
    (event : MarketDataEvent) (st : StateStore)
    → NoChainlinkStatus event.payload
    → ChainlinkDown st
    → Ensures ChainlinkDown (apply event st)
unfolding apply
apply-ChainlinkDown event st n d =
    payload-ChainlinkDown event.payload event _ n
      (connected-message event.source event.received_wall_timestamp_ns st.health_registry ∙ d)

abbrev pub Unready : MarketDataSnapshot → Type 0
Unready snap = snap.ready_for_strategy ≡ false

snapshot-Unready :
    (now sequence : ℕ) (st : StateStore) → ChainlinkDown st → Unready (snapshot now sequence st).1
snapshot-Unready now sequence st d =
    elim (Bool-cases (snapshot now sequence st).1.ready_for_strategy) [
      | inl e ↦
          absurd (ground (arith, ((IsReady-iff now sequence st).0 e).sources.chainlink_connected))
      | inr e ↦ e
    ]

abbrev DownStep : Reduced → Type 0
DownStep = StepOf ChainlinkDown Unready

without_snapshot-DownStep :
    (r : Result StateStore) → Ensures ChainlinkDown r → Ensures DownStep (without_snapshot r)
unfolding without_snapshot
without_snapshot-DownStep (ok st) d = (d, tt)
without_snapshot-DownStep value_error d = tt

tick-DownStep :
    (payload : SnapshotTickPayload) (st : StateStore)
    → ChainlinkDown st
    → DownStep (reduce_tick payload st)
unfolding reduce_tick
tick-DownStep payload st d = (
  unfold snapshot in d,
  snapshot-Unready payload.scheduled_timestamp_ns payload.snapshot_sequence st d,
)

reduce_payload-DownStep :
    (payload : EventPayload) (event : MarketDataEvent) (st : StateStore)
    → NoChainlinkStatus event.payload
    → ChainlinkDown st
    → Ensures DownStep (reduce_payload payload event st)
unfolding reduce_payload
reduce_payload-DownStep (snapshot_tick payload) event st n d = tick-DownStep payload st d
reduce_payload-DownStep _ event st n d =
    without_snapshot-DownStep (apply event st) (apply-ChainlinkDown event st n d)

reduce-DownStep :
    (event : MarketDataEvent) (st : StateStore)
    → NoChainlinkStatus event.payload
    → ChainlinkDown st
    → Ensures DownStep (reduce event st)
unfolding reduce
reduce-DownStep event st = reduce_payload-DownStep event.payload event st

-- From a store whose Chainlink source is not connected, a replay of events with no status of that source
-- emits no snapshot that is ready.
pub run-Unready :
    (events : List MarketDataEvent) (st : StateStore)
    → All (λ event. NoChainlinkStatus event.payload) events
    → ChainlinkDown st
    → Ensures (TraceOf ChainlinkDown Unready) (run events st)
run-Unready =
    run_induction ChainlinkDown Unready (λ event. NoChainlinkStatus event.payload) reduce-DownStep
