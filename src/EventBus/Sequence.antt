-- ===== src/EventBus/Sequence.antt =====
-- The numbers of the events that the raw writer takes from the storage queue.
use poly_market_btc_arbitrag.Prelude.{
  ℕ, zero, suc, ◌+◌, ◌≡◌, ◌≢◌, refl, inl, inr, ◌||◌, List, [], ◌∷◌, ◌++◌, arith, Bool-cases, leb,
}
use poly_market_btc_arbitrag.Models.Payloads.{MarketDataEvent}
use poly_market_btc_arbitrag.EventBus.{
  full, put, drop_items, take_out, EventBus, Outcome, accepted, bus_closed, full_past_deadline,
  waiting, Round, consume, put_both, put_loop, publish, Numbered, publish_source,
}

-- The events are numbered one after the other from `first`, and `next` comes behind them.
abbrev pub Numbers : ℕ → List MarketDataEvent → ℕ → Type 0
Numbers first [] next = first ≡ next
Numbers first (event ∷ events) next =
    (event.ingest_sequence ≡ first) × Numbers (suc first) events next

abbrev pub NumberedUpTo : List MarketDataEvent → ℕ → Type 0
NumberedUpTo events next = (first : ℕ) × Numbers first events next

snoc-Numbers :
    (first next : ℕ) (events : List MarketDataEvent) (event : MarketDataEvent)
    → Numbers first events next
    → event.ingest_sequence ≡ next
    → Numbers first (events ++ event ∷ []) (suc next)
snoc-Numbers first next [] event h e = (omega arith, omega arith)
snoc-Numbers first next (x ∷ events) event h e =
    (h.0, snoc-Numbers (suc first) next events event h.1 e)

drop_items-Numbers :
    (n next : ℕ) (events : List MarketDataEvent)
    → NumberedUpTo events next
    → NumberedUpTo (drop_items n events) next
drop_items-Numbers zero next events h = h
drop_items-Numbers (suc n) next [] h = h
drop_items-Numbers (suc n) next (event ∷ events) (first, h) =
    drop_items-Numbers n next events (suc first, h.1)

-- What the queue's numbers are after a call.
abbrev pub after : Outcome → ℕ → ℕ
after accepted next = suc next
after bus_closed next = next
after full_past_deadline next = next
after waiting next = next

module _ {M : Type 0} where
  put_loop-Numbers :
      (deadline next : ℕ) (event : MarketDataEvent) (rounds : List Round) (bus : EventBus M)
      → event.ingest_sequence ≡ next
      → NumberedUpTo bus.storage_queue.items next
      → NumberedUpTo
          (put_loop deadline event rounds bus).0.storage_queue.items
          (after (put_loop deadline event rounds bus).1 next)
  unfolding put_loop
  put_loop-Numbers deadline next event [] bus e h = h
  put_loop-Numbers deadline next event (round ∷ rounds) bus e h =
      let now = consume round bus in
      let taken : NumberedUpTo now.storage_queue.items next =
        unfold consume take_out in
        drop_items-Numbers round.storage_taken next bus.storage_queue.items h in
      let later = put_loop-Numbers deadline next event rounds now e taken in
      elim (Bool-cases (full now.state_queue || full now.storage_queue)) [
        | inl f ↦ elim (Bool-cases (leb deadline round.now)) [
          | inl g ↦ rw (f, g) taken
          | inr g ↦ rw (f, g) later
        ]
        | inr f ↦ rw f (
            unfold put_both put in
            (taken.0, snoc-Numbers taken.0 next now.storage_queue.items event taken.1 e))
      ]

  -- What a call with the number `next` leaves of a numbered queue and of the counter.
  abbrev pub NumberedAfter : Outcome → ℕ → Numbered M → Type 0
  NumberedAfter accepted next gateway =
      NumberedUpTo gateway.bus.storage_queue.items gateway.sequence × (gateway.sequence ≡ suc next)
  NumberedAfter bus_closed next gateway =
      NumberedUpTo gateway.bus.storage_queue.items gateway.sequence × (gateway.sequence ≡ next)
  NumberedAfter full_past_deadline next gateway =
      NumberedUpTo gateway.bus.storage_queue.items next × (gateway.sequence ≡ suc next)
  NumberedAfter waiting next gateway =
      NumberedUpTo gateway.bus.storage_queue.items next × (gateway.sequence ≡ suc next)

  taken-NumberedAfter :
      (outcome : Outcome) (next : ℕ) (bus : EventBus M)
      → outcome ≢ bus_closed
      → NumberedUpTo bus.storage_queue.items (after outcome next)
      → NumberedAfter outcome next (record { bus = bus; sequence = suc next })
  taken-NumberedAfter accepted next bus o h = (h, refl)
  taken-NumberedAfter bus_closed next bus o h = absurd (o refl)
  taken-NumberedAfter full_past_deadline next bus o h = (h, refl)
  taken-NumberedAfter waiting next bus o h = (h, refl)

  put_loop-open :
      (deadline : ℕ) (event : MarketDataEvent) (rounds : List Round) (bus : EventBus M)
      → (put_loop deadline event rounds bus).1 ≢ bus_closed
  unfolding put_loop
  put_loop-open deadline event [] bus = ground arith
  put_loop-open deadline event (round ∷ rounds) bus =
      ground (arith, put_loop-open deadline event rounds (consume round bus))

  -- If the events in the storage queue are numbered without a gap up to the gateway's counter, then they
  -- are after a call that returns, whatever the writer has taken in between, and the counter has risen by
  -- one if the bus took the event, and not at all if the bus was closed. A call that raises on a full
  -- queue, or still waits, has raised the counter by one and left the queue numbered up to the old one.
  pub publish_source-Numbers :
      (start : ℕ) (event : MarketDataEvent) (rounds : List Round) (gateway : Numbered M)
      → NumberedUpTo gateway.bus.storage_queue.items gateway.sequence
      → NumberedAfter
          (publish_source start event rounds gateway).1
          gateway.sequence
          (publish_source start event rounds gateway).0
  unfolding publish_source publish
  publish_source-Numbers start event rounds gateway h =
      let numbered = record event { ingest_sequence = gateway.sequence } in
      let deadline = start + gateway.bus.put_timeout in
      elim (Bool-cases gateway.bus.closed) [
        | inl e ↦ simp e (h, refl)
        | inr e ↦ simp e (
            taken-NumberedAfter _ gateway.sequence _
              (put_loop-open deadline numbered rounds gateway.bus)
              (put_loop-Numbers deadline gateway.sequence numbered rounds gateway.bus refl h))
      ]
