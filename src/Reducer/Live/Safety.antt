-- ===== src/Reducer/Live/Safety.antt =====
-- The snapshots that the gateway publishes.
use poly_market_btc_arbitrag.Prelude.{ℕ, Bool, true, false, Option, none, some, List, [], ◌∷◌, All}
use poly_market_btc_arbitrag.Models.Snapshots.{MarketDataSnapshot}
use poly_market_btc_arbitrag.State.Store.{StateStore, Result, ok, value_error}
use poly_market_btc_arbitrag.State.Store.Validity.{WellStore, Ensures}
use poly_market_btc_arbitrag.State.View.{snapshot}
use poly_market_btc_arbitrag.State.View.Safety.{IsSafe}
use poly_market_btc_arbitrag.Reducer.{Reduced, reduce}
use poly_market_btc_arbitrag.Reducer.Induction.{EmittedOf, StepOf}
use poly_market_btc_arbitrag.Reducer.Safety.{reduce-SafeStep}
use poly_market_btc_arbitrag.Reducer.Live.{Turn, Live, hand_on, go_live, look_at, shared, live}

abbrev SafeLive : Live → Type 0
SafeLive l = All IsSafe l.published × All IsSafe l.stored

hand_on-SafeLive :
    (in_time : Bool) (emitted : Option MarketDataSnapshot) (rest : Live)
    → EmittedOf WellStore IsSafe emitted
    → SafeLive rest
    → SafeLive (hand_on in_time emitted rest)
hand_on-SafeLive true none rest s r = r
hand_on-SafeLive false none rest s r = r
hand_on-SafeLive true (some snap) rest s r = ((s, r.0), (s, r.1))
hand_on-SafeLive false (some snap) rest s r = ((s, tt), tt)

go_live-SafeLive :
    (in_time : Bool) (r : Result Reduced) (rest : StateStore → Live)
    → Ensures (StepOf WellStore IsSafe) r
    → ((st : StateStore) → WellStore st → SafeLive (rest st))
    → SafeLive (go_live in_time r rest)
go_live-SafeLive in_time (ok step) rest s h =
    hand_on-SafeLive in_time step.emitted (rest step.state) s.1 (h step.state s.0)
go_live-SafeLive in_time value_error rest s h = (tt, tt)

look_at-WellStore : (times : List ℕ) (st : StateStore) → WellStore st → WellStore (look_at times st)
look_at-WellStore [] st w = w
look_at-WellStore (now ∷ times) st w =
    look_at-WellStore times (snapshot now 0 st).0
      (unfold snapshot in record { books = w.books; distinct = w.distinct })

shared-WellStore : (turn : Turn) (st : StateStore) → WellStore st → WellStore (shared turn st)
shared-WellStore turn st w =
    look_at-WellStore turn.looks _ (record { books = w.books; distinct = w.distinct })

-- From a well-formed store, every snapshot that the gateway publishes or stores is safe, whatever the
-- other tasks do to the registry, and whenever they ask for a snapshot, between the events: if the snapshot is ready, each market that it shows
-- has both books, initialized, coherent, unresolved, and with the best bid below the best ask.
pub live-IsSafe :
    (turns : List Turn) (st : StateStore)
    → WellStore st
    → All IsSafe (live turns st).published × All IsSafe (live turns st).stored
unfolding live
live-IsSafe [] st w = (tt, tt)
live-IsSafe (turn ∷ turns) st w =
    let w' = shared-WellStore turn st w in
    go_live-SafeLive turn.put_in_time (reduce turn.event (shared turn st)) (live turns)
      (reduce-SafeStep turn.event (shared turn st) tt w') (live-IsSafe turns)
