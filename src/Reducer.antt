-- ===== src/Reducer.antt =====
-- market_data/reducer.py: one event applied to the store, and the whole run over a list of events.
pub mod Induction
pub mod Safety
pub mod Sessions
pub mod Connections
pub mod Live
use poly_market_btc_arbitrag.Prelude.{Option, none, some, List, [], ◌∷◌}
use poly_market_btc_arbitrag.Models.Enums.{EventStream}
use poly_market_btc_arbitrag.Models.Payloads.{
  stream_of, SnapshotTickPayload, EventPayload, MarketDataEvent, snapshot_tick,
}
use poly_market_btc_arbitrag.Models.Snapshots.{MarketDataSnapshot}
use poly_market_btc_arbitrag.State.Store.{StateStore, Result, ok, value_error, apply}
use poly_market_btc_arbitrag.State.View.{snapshot}

pub record Reduced : Type 0 where
  pub state : StateStore
  pub emitted : Option MarketDataSnapshot

without_snapshot : Result StateStore → Result Reduced
without_snapshot (ok state) = ok (record { state = state; emitted = none })
without_snapshot value_error = value_error

-- The tick's health rows replace those of the store.
unfoldable pub reduce_tick : SnapshotTickPayload → StateStore → Reduced
reduce_tick payload st =
    let (st', snap) = snapshot payload.scheduled_timestamp_ns payload.snapshot_sequence st in
    record { state = st'; emitted = some (record snap { health = payload.health }) }

-- The check of a tick's payload, which raises `ValueError` on any other payload.
abbrev reduce_checked : EventPayload → StateStore → Result Reduced
reduce_checked (snapshot_tick payload) st = ok (reduce_tick payload st)
reduce_checked _ st = value_error

-- The branches on the stream of an event.
abbrev reduce_stream : EventStream → MarketDataEvent → EventPayload → StateStore → Result Reduced
reduce_stream EventStream.snapshot_tick event payload st = reduce_checked payload st
reduce_stream _ event payload st = without_snapshot (apply event st)

-- The stream is that of the payload, as in all events that the program builds.
unfoldable pub reduce_payload : EventPayload → MarketDataEvent → StateStore → Result Reduced
unfolding without_snapshot stream_of
reduce_payload payload event st = reduce_stream (stream_of payload) event payload st

-- `MarketDataReducer.apply`
unfoldable pub reduce : MarketDataEvent → StateStore → Result Reduced
reduce event st = reduce_payload event.payload event st

pub record Trace : Type 0 where
  pub final : StateStore
  pub snapshots : List MarketDataSnapshot

abbrev pub emit : Option MarketDataSnapshot → List MarketDataSnapshot → List MarketDataSnapshot
emit none snapshots = snapshots
emit (some snap) snapshots = snap ∷ snapshots

abbrev pub emit_first : Option MarketDataSnapshot → Result Trace → Result Trace
emit_first emitted value_error = value_error
emit_first emitted (ok trace) =
    ok (record { final = trace.final; snapshots = emit emitted trace.snapshots })

abbrev pub go_on : Result Reduced → (StateStore → Result Trace) → Result Trace
go_on value_error rest = value_error
go_on (ok step) rest = emit_first step.emitted (rest step.state)

-- The loop of a replay (`_replay` of cli.py) over the events that it reads: one event after the other,
-- with the snapshots that it writes. An exception ends it.
unfoldable pub run : List MarketDataEvent → StateStore → Result Trace
run [] st = ok (record { final = st; snapshots = [] })
run (event ∷ events) st = go_on (reduce event st) (run events)
