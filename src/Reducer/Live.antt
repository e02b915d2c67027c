-- ===== src/Reducer/Live.antt =====
-- `MarketDataGateway._reducer` of market_data/gateway.py. The registry of the store is the one that the
-- sources and the other tasks of the gateway change, whenever the reducer waits; and the writer of the
-- health file asks the same store for snapshots, which expires trades of its windows.
pub mod Course
pub mod Safety
pub mod Sessions
use poly_market_btc_arbitrag.Prelude.{ℕ, Bool, true, false, Option, none, some, List, [], ◌∷◌}
use poly_market_btc_arbitrag.Health.{HealthRegistry}
use poly_market_btc_arbitrag.Models.Payloads.{MarketDataEvent}
use poly_market_btc_arbitrag.Models.Snapshots.{MarketDataSnapshot}
use poly_market_btc_arbitrag.State.Store.{StateStore, Result, ok, value_error}
use poly_market_btc_arbitrag.State.View.{snapshot}
use poly_market_btc_arbitrag.Reducer.{Reduced, reduce}

-- One round of the loop: what the other tasks have done to the registry since the last one, the times for
-- which they then asked the store for a snapshot, the event that is taken from the queue, and whether the
-- storage queue takes a snapshot before the deadline.
pub record Turn : Type 0 where
  pub others : HealthRegistry → HealthRegistry
  pub looks : List ℕ
  pub event : MarketDataEvent
  pub put_in_time : Bool

-- How the loop ends: stopped, by `ValueError`, or by `BackpressureFatalError`.
pub data Ending : Type 0 where
  stopped value_raised backpressure : Ending

-- The snapshots that were given to the publisher, those put into the storage queue, and the store behind
-- the last event, unless the loop raised.
pub record Live : Type 0 where
  pub published : List MarketDataSnapshot
  pub stored : List MarketDataSnapshot
  pub ending : Ending
  pub final : Option StateStore

abbrev pub ended : Ending → Live
ended ending = record { published = []; stored = []; ending = ending; final = none }

-- `publish`, then the put, which raises once its time is over; `rest` is the rest of the loop.
abbrev pub hand_on : Bool → Option MarketDataSnapshot → Live → Live
hand_on in_time none rest = rest
hand_on true (some snap) rest = record rest {
  published = snap ∷ rest.published;
  stored = snap ∷ rest.stored;
}
hand_on false (some snap) rest = record (ended Ending.backpressure) { published = snap ∷ [] }

abbrev pub go_live : Bool → Result Reduced → (StateStore → Live) → Live
go_live in_time value_error rest = ended Ending.value_raised
go_live in_time (ok step) rest = hand_on in_time step.emitted (rest step.state)

abbrev pub look_at : List ℕ → StateStore → StateStore
look_at [] st = st
look_at (now ∷ times) st = look_at times (snapshot now 0 st).0

abbrev pub shared : Turn → StateStore → StateStore
shared turn st = look_at turn.looks (record st { health_registry = turn.others st.health_registry })

-- `_reducer`, over the events that it takes before it is stopped.
unfoldable pub live : List Turn → StateStore → Live
live [] st = record (ended Ending.stopped) { final = some st }
live (turn ∷ turns) st = go_live turn.put_in_time (reduce turn.event (shared turn st)) (live turns)
