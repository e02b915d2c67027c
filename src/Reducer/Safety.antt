-- ===== src/Reducer/Safety.antt =====
-- The snapshots that a run emits.
use poly_market_btc_arbitrag.Prelude.{List}
use poly_market_btc_arbitrag.Models.Payloads.{
  EventPayload, MarketDataEvent, snapshot_tick, SnapshotTickPayload,
}
use poly_market_btc_arbitrag.State.Store.{StateStore, Result, ok, value_error, apply}
use poly_market_btc_arbitrag.State.Store.Validity.{WellStore, Ensures, apply-WellStore}
use poly_market_btc_arbitrag.State.View.{snapshot}
use poly_market_btc_arbitrag.State.View.Safety.{IsSafe, snapshot-IsSafe}
use poly_market_btc_arbitrag.Reducer.Induction.{StepOf, TraceOf, run_induction, All-unit}
use poly_market_btc_arbitrag.Reducer.{
  Reduced, without_snapshot, reduce_tick, reduce_payload, reduce, run,
}

abbrev pub SafeStep : Reduced → Type 0
SafeStep = StepOf WellStore IsSafe

without_snapshot-SafeStep :
    (r : Result StateStore) → Ensures WellStore r → Ensures SafeStep (without_snapshot r)
unfolding without_snapshot
without_snapshot-SafeStep (ok st) w = (w, tt)
without_snapshot-SafeStep value_error w = tt

reduce_tick-SafeStep :
    (payload : SnapshotTickPayload) (st : StateStore)
    → WellStore st
    → SafeStep (reduce_tick payload st)
unfolding reduce_tick
reduce_tick-SafeStep payload st w = (
  unfold snapshot in record { books = w.books; distinct = w.distinct },
  snapshot-IsSafe st w payload.scheduled_timestamp_ns payload.snapshot_sequence,
)

reduce_payload-SafeStep :
    (payload : EventPayload) (event : MarketDataEvent) (st : StateStore)
    → WellStore st
    → Ensures SafeStep (reduce_payload payload event st)
unfolding reduce_payload
reduce_payload-SafeStep (snapshot_tick payload) event st w = reduce_tick-SafeStep payload st w
reduce_payload-SafeStep _ event st w =
    without_snapshot-SafeStep (apply event st) (apply-WellStore event st w)

pub reduce-SafeStep :
    (event : MarketDataEvent) (st : StateStore)
    → Unit {0}
    → WellStore st
    → Ensures SafeStep (reduce event st)
unfolding reduce
reduce-SafeStep event st _ = reduce_payload-SafeStep event.payload event st

-- From a well-formed store, a replay ends in a well-formed store and every snapshot that it emits is safe:
-- if it is ready, each market that it shows has both books, initialized, coherent, unresolved, and with
-- the best bid below the best ask.
pub run-IsSafe :
    (events : List MarketDataEvent) (st : StateStore)
    → WellStore st
    → Ensures (TraceOf WellStore IsSafe) (run events st)
run-IsSafe events st w =
    run_induction WellStore IsSafe (λ event. Unit) reduce-SafeStep events st (All-unit events) w
