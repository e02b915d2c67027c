-- ===== src/Reducer/Induction.antt =====
-- Induction over the steps of a run.
use poly_market_btc_arbitrag.Prelude.{Option, none, some, List, [], ◌∷◌, All}
use poly_market_btc_arbitrag.Models.Payloads.{MarketDataEvent}
use poly_market_btc_arbitrag.Models.Snapshots.{MarketDataSnapshot}
use poly_market_btc_arbitrag.State.Store.{StateStore, Result, ok, value_error}
use poly_market_btc_arbitrag.State.Store.Validity.{Ensures}
use poly_market_btc_arbitrag.Reducer.{Reduced, Trace, reduce, emit, emit_first, go_on, run}

module _ (P : StateStore → Type 0) (Q : MarketDataSnapshot → Type 0) where
  abbrev pub EmittedOf : Option MarketDataSnapshot → Type 0
  EmittedOf none = Unit
  EmittedOf (some snap) = Q snap

  abbrev pub StepOf : Reduced → Type 0
  StepOf step = P step.state × EmittedOf step.emitted

  abbrev pub TraceOf : Trace → Type 0
  TraceOf trace = P trace.final × All Q trace.snapshots

  emit-All :
      (emitted : Option MarketDataSnapshot) (snapshots : List MarketDataSnapshot)
      → EmittedOf emitted
      → All Q snapshots
      → All Q (emit emitted snapshots)
  emit-All none snapshots q a = a
  emit-All (some snap) snapshots q a = (q, a)

  emit_first-Ensures :
      (emitted : Option MarketDataSnapshot) (r : Result Trace)
      → EmittedOf emitted
      → Ensures TraceOf r
      → Ensures TraceOf (emit_first emitted r)
  emit_first-Ensures emitted (ok trace) q e = (e.0, emit-All emitted trace.snapshots q e.1)
  emit_first-Ensures emitted value_error q e = tt

  go_on-Ensures :
      (r : Result Reduced) (rest : StateStore → Result Trace)
      → Ensures StepOf r
      → ((st : StateStore) → P st → Ensures TraceOf (rest st))
      → Ensures TraceOf (go_on r rest)
  go_on-Ensures (ok step) rest e f =
      emit_first-Ensures step.emitted (rest step.state) e.1 (f step.state e.0)
  go_on-Ensures value_error rest e f = tt

  module _ (E : MarketDataEvent → Type 0)
      (step : (event : MarketDataEvent) (st : StateStore)
        → E event
        → P st
        → Ensures StepOf (reduce event st)) where
    pub run_induction :
        (events : List MarketDataEvent) (st : StateStore)
        → All E events
        → P st
        → Ensures TraceOf (run events st)
    unfolding run
    run_induction [] st e p = (p, tt)
    run_induction (event ∷ events) st e p =
        go_on-Ensures (reduce event st) (run events) (step event st e.0 p)
          (λ st' p'. run_induction events st' e.1 p')

pub All-unit {ℓ} : {A : Type ℓ} (xs : List A) → All (λ a. Unit {0}) xs
All-unit [] = tt
All-unit (x ∷ xs) = (tt, All-unit xs)
