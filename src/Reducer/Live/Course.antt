-- ===== src/Reducer/Live/Course.antt =====
-- How a live run ends, and the numbers of its snapshots, said of the events alone.
use poly_market_btc_arbitrag.Prelude.{
  ℕ, ◌≡◌, true, false, Bool, Option, none, some, List, [], ◌∷◌, map, ◌==◌, is_some, if◌then◌else◌,
}
use poly_market_btc_arbitrag.Models.Enums.{polymarket_clob, source_eq, discovery_state}
use poly_market_btc_arbitrag.Models.Payloads.{
  EventPayload, MarketDataEvent, market_window_state, snapshot_tick,
}
use poly_market_btc_arbitrag.Models.Snapshots.{MarketDataSnapshot}
use poly_market_btc_arbitrag.State.Store.{Result, ok, value_error}
use poly_market_btc_arbitrag.Reducer.{Reduced}
use poly_market_btc_arbitrag.Reducer.Live.{Turn, Ending, Live}

abbrev pub returns {ℓ} : {A : Type ℓ} → Result A → Bool
returns (ok a) = true
returns value_error = false

-- A market state's name is one of `DiscoveryState`.
abbrev pub is_known : EventPayload → Bool
is_known (market_window_state payload) = is_some (discovery_state payload.state)
is_known _ = true

-- A market state is no event of the CLOB source.
abbrev pub FromDiscovery : MarketDataEvent → EventPayload → Type 0
FromDiscovery event (market_window_state payload) = (event.source == polymarket_clob) ≡ false
FromDiscovery event _ = Unit

-- Whether the store raises, and else the number of the snapshot, if there is one.
abbrev number_of : Option MarketDataSnapshot → Option ℕ
number_of none = none
number_of (some snap) = some snap.snapshot_sequence

abbrev seen_of : Result Reduced → Option (Option ℕ)
seen_of value_error = none
seen_of (ok step) = some (number_of step.emitted)

-- The number of a tick.
abbrev pub tick_number : EventPayload → Option ℕ
tick_number (snapshot_tick payload) = some payload.snapshot_sequence
tick_number _ = none

-- The numbers of the snapshots that are published, the numbers of those that are stored, and the end.
abbrev pub Course : Type 0
Course = List ℕ × List ℕ × Ending

abbrev pub course_of : Live → Course
course_of l = (
  map (λ snap. snap.snapshot_sequence) l.published,
  map (λ snap. snap.snapshot_sequence) l.stored,
  l.ending,
)

abbrev pub announce : Bool → Option ℕ → Course → Course
announce in_time none rest = rest
announce true (some number) rest = (number ∷ rest.0, number ∷ rest.1, rest.2)
announce false (some number) rest = (number ∷ [], [], Ending.backpressure)

-- The course of a run, read off its events: each tick has its snapshot, until a market state of an
-- unknown name, or a tick whose snapshot is not put in time, which is published yet.
abbrev pub course : List Turn → Course
course [] = ([], [], Ending.stopped)
course (turn ∷ turns) =
    if is_known turn.event.payload
    then announce turn.put_in_time (tick_number turn.event.payload) (course turns)
    else ([], [], Ending.value_raised)
