-- ===== src/EventBus/Capacity.antt =====
-- The bounds of the queues and the end of the wait.
use poly_market_btc_arbitrag.Prelude.{
  ℕ, ◌+◌, ◌≤◌, ◌≡◌, ◌≢◌, ◌⊎◌, inl, inr, false, ◌||◌, List, [], ◌∷◌, arith, Bool-cases, suc, zero,
  length, length-append, leb,
}
use poly_market_btc_arbitrag.Models.Payloads.{MarketDataEvent}
use poly_market_btc_arbitrag.EventBus.{
  Queue, full, put, drop_items, take_out, EventBus, waiting, Round, consume, put_both, put_loop,
  publish, publish_market_state_nowait,
}

-- A bounded queue has no more items than its capacity.
abbrev pub Fits : {A : Type 0} → Queue A → Type 0
Fits queue = (queue.capacity ≡ 0) ⊎ (length queue.items ≤ queue.capacity)

pub record WellBus {M : Type 0} (bus : EventBus M) : Type 0 where
  pub state_fits : Fits bus.state_queue
  pub storage_fits : Fits bus.storage_queue
  pub market_state_fits : Fits bus.market_state_queue
  pub state_mark : length bus.state_queue.items ≤ bus.high_water.state
  pub storage_mark : length bus.storage_queue.items ≤ bus.high_water.storage
  pub market_state_mark : length bus.market_state_queue.items ≤ bus.high_water.market_state

-- Some round's clock is at the deadline or behind it.
abbrev pub Reaches : ℕ → List Round → Type 0
Reaches deadline [] = ⊥
Reaches deadline (round ∷ rounds) = (deadline ≤ round.now) ⊎ Reaches deadline rounds

module _ {A : Type 0} where
  length-drop_items-le : (n : ℕ) (items : List A) → length (drop_items n items) ≤ length items
  length-drop_items-le zero items = omega arith
  length-drop_items-le (suc n) [] = omega arith
  length-drop_items-le (suc n) (item ∷ items) = omega (arith, length-drop_items-le n items)

  take_out-Fits : (n : ℕ) (queue : Queue A) → Fits queue → Fits (take_out n queue)
  unfolding take_out
  take_out-Fits n queue h = ground (arith, length-drop_items-le n queue.items)

  put-Fits : (item : A) (queue : Queue A) → full queue ≡ false → Fits (put item queue)
  unfolding full put
  put-Fits item queue h = ground (arith, length-append queue.items (item ∷ []))

module _ {M : Type 0} where
  consume-WellBus : (round : Round) (bus : EventBus M) → WellBus bus → WellBus (consume round bus)
  unfolding consume take_out
  consume-WellBus round bus w = record {
    state_fits = take_out-Fits round.state_taken bus.state_queue w.state_fits;
    storage_fits = take_out-Fits round.storage_taken bus.storage_queue w.storage_fits;
    market_state_fits = w.market_state_fits;
    state_mark =
        omega (arith, w.state_mark, length-drop_items-le round.state_taken bus.state_queue.items);
    storage_mark =
        omega
          (arith, w.storage_mark, length-drop_items-le round.storage_taken bus.storage_queue.items);
    market_state_mark = w.market_state_mark;
  }

  put_both-WellBus :
      (event : MarketDataEvent) (bus : EventBus M)
      → (full bus.state_queue || full bus.storage_queue) ≡ false
      → WellBus bus
      → WellBus (put_both event bus)
  unfolding put_both put
  put_both-WellBus event bus room w = record {
    state_fits = put-Fits event bus.state_queue (ground arith);
    storage_fits = put-Fits event bus.storage_queue (ground arith);
    market_state_fits = w.market_state_fits;
    state_mark = ground arith;
    storage_mark = ground arith;
    market_state_mark = w.market_state_mark;
  }

  put_loop-WellBus :
      (deadline : ℕ) (event : MarketDataEvent) (rounds : List Round) (bus : EventBus M)
      → WellBus bus
      → WellBus (put_loop deadline event rounds bus).0
  unfolding put_loop
  put_loop-WellBus deadline event [] bus w = w
  put_loop-WellBus deadline event (round ∷ rounds) bus w =
      let now = consume round bus in
      let well = consume-WellBus round bus w in
      let later = put_loop-WellBus deadline event rounds now well in
      elim (Bool-cases (full now.state_queue || full now.storage_queue)) [
        | inl e ↦ elim (Bool-cases (leb deadline round.now)) [
          | inl f ↦ rw (e, f) well
          | inr f ↦ rw (e, f) later
        ]
        | inr e ↦ rw e (put_both-WellBus event now e well)
      ]

  -- Whatever the outcome, `publish` leaves each bounded queue within its capacity and each mark no lower
  -- than its queue is long.
  pub publish-WellBus :
      (start : ℕ) (event : MarketDataEvent) (rounds : List Round) (bus : EventBus M)
      → WellBus bus
      → WellBus (publish start event rounds bus).0
  unfolding publish
  publish-WellBus start event rounds bus w =
      ground (arith, put_loop-WellBus (start + bus.put_timeout) event rounds bus w)

  -- The publication of a market state keeps the same bounds, also where it raises.
  pub publish_market_state-WellBus :
      (snapshot : M) (bus : EventBus M)
      → WellBus bus
      → WellBus (publish_market_state_nowait snapshot bus).0
  unfolding publish_market_state_nowait put
  publish_market_state-WellBus snapshot bus w = elim (Bool-cases bus.closed) [
    | inl e ↦ simp e w
    | inr e ↦ elim (Bool-cases (full bus.market_state_queue)) [
      | inl f ↦ simp (e, f) w
      | inr f ↦
          simp (e, f)
            (record {
              state_fits = w.state_fits;
              storage_fits = w.storage_fits;
              market_state_fits = unfold put in put-Fits snapshot bus.market_state_queue f;
              state_mark = w.state_mark;
              storage_mark = w.storage_mark;
              market_state_mark = ground arith;
            })
    ]
  ]

  put_loop-ends :
      (deadline : ℕ) (event : MarketDataEvent) (rounds : List Round) (bus : EventBus M)
      → Reaches deadline rounds
      → (put_loop deadline event rounds bus).1 ≢ waiting
  unfolding put_loop
  put_loop-ends deadline event [] bus h = elim h [ ]
  put_loop-ends deadline event (round ∷ rounds) bus h =
      let later = put_loop-ends deadline event rounds (consume round bus) in ground arith

  -- `publish` does not wait for ever: once a round's clock has come to the deadline, it has put the event
  -- or raised.
  pub publish-ends :
      (start : ℕ) (event : MarketDataEvent) (rounds : List Round) (bus : EventBus M)
      → Reaches (start + bus.put_timeout) rounds
      → (publish start event rounds bus).1 ≢ waiting
  unfolding publish
  publish-ends start event rounds bus h =
      let loop = put_loop-ends (start + bus.put_timeout) event rounds bus h in
      elim (Bool-cases bus.closed) [ inl e ↦ simp e (λ w. ground arith) | inr e ↦ simp e loop ]
