-- ===== src/EventBus.antt =====
-- market_data/event_bus.py: the queues between the sources, the reducer and the raw writer, and the
-- gateway's `_publish_source`, which numbers the events. Times are in nanoseconds of the monotonic clock.
pub mod Capacity
pub mod Sequence
use poly_market_btc_arbitrag.Prelude.{
  ℕ, zero, suc, ◌+◌, Bool, true, false, not, ◌&&◌, ◌||◌, Option, none, some, List, [], ◌∷◌, ◌++◌,
  ◌==◌, nat_eq, ltb, leb, length, if◌then◌else◌,
}
use poly_market_btc_arbitrag.Models.Payloads.{MarketDataEvent}

-- `asyncio.Queue`: a capacity of 0 is no bound.
pub record Queue {ℓ} (A : Type ℓ) : Type ℓ where
  pub capacity : ℕ
  pub items : List A

module _ {ℓ} {A : Type ℓ} where
  unfoldable pub full : Queue A → Bool
  full queue = not (queue.capacity == 0) && leb queue.capacity (length queue.items)

  -- `put_nowait` on a queue that is not full
  unfoldable pub put : A → Queue A → Queue A
  put item queue = record queue { items = queue.items ++ item ∷ [] }

  abbrev pub drop_items : ℕ → List A → List A
  drop_items zero items = items
  drop_items (suc n) [] = []
  drop_items (suc n) (item ∷ items) = drop_items n items

  -- So many times `get_nowait`, as far as there are items
  unfoldable pub take_out : ℕ → Queue A → Queue A
  take_out n queue = record queue { items = drop_items n queue.items }

pub record HighWater : Type 0 where
  pub state : ℕ
  pub storage : ℕ
  pub market_state : ℕ

pub record EventBus (M : Type 0) : Type 0 where
  pub state_queue : Queue MarketDataEvent
  pub storage_queue : Queue MarketDataEvent
  pub market_state_queue : Queue M
  pub put_timeout : ℕ
  pub high_water : HighWater
  pub closed : Bool

-- What comes of a call: it returns, it raises `BackpressureFatalError`, or it still waits.
pub data Outcome : Type 0 where
  accepted bus_closed full_past_deadline waiting : Outcome

-- One round of the wait: what the consumers took before it, and the clock that it reads.
pub record Round : Type 0 where
  pub state_taken : ℕ
  pub storage_taken : ℕ
  pub now : ℕ

abbrev pub larger : ℕ → ℕ → ℕ
larger a b = if ltb a b then b else a

module _ {M : Type 0} where
  unfoldable pub consume : Round → EventBus M → EventBus M
  consume round bus = record bus {
    state_queue = take_out round.state_taken bus.state_queue;
    storage_queue = take_out round.storage_taken bus.storage_queue;
  }

  -- The two puts and the marks behind the loop.
  unfoldable pub put_both : MarketDataEvent → EventBus M → EventBus M
  put_both event bus =
      let state_queue = put event bus.state_queue in
      let storage_queue = put event bus.storage_queue in
      let marks = bus.high_water in
      record bus {
        state_queue = state_queue;
        storage_queue = storage_queue;
        high_water = record marks {
          state = larger marks.state (length state_queue.items);
          storage = larger marks.storage (length storage_queue.items);
        };
      }

  -- `while self.state_queue.full() or self.storage_queue.full()`, over the rounds that come
  unfoldable pub put_loop : ℕ → MarketDataEvent → List Round → EventBus M → EventBus M × Outcome
  put_loop deadline event [] bus = (bus, waiting)
  put_loop deadline event (round ∷ rounds) bus =
      let now = consume round bus in
      let later = put_loop deadline event rounds now in
      if full now.state_queue || full now.storage_queue
      then if leb deadline round.now then (now, full_past_deadline) else later
      else (put_both event now, accepted)

  -- `publish`, once it has the lock, with the number that the allocator gave
  unfoldable pub publish : ℕ → MarketDataEvent → List Round → EventBus M → EventBus M × Outcome
  publish start event rounds bus =
      if bus.closed then (bus, bus_closed) else put_loop (start + bus.put_timeout) event rounds bus

  unfoldable pub publish_market_state_nowait : M → EventBus M → EventBus M × Outcome
  publish_market_state_nowait snapshot bus =
      let queue = put snapshot bus.market_state_queue in
      let marks = bus.high_water in
      if bus.closed
      then (bus, bus_closed)
      else if full bus.market_state_queue
      then (bus, full_past_deadline)
      else (
        record bus {
          market_state_queue = queue;
          high_water = record marks {
            market_state = larger marks.market_state (length queue.items);
          };
        },
        accepted,
      )

  unfoldable pub close : EventBus M → EventBus M
  close bus = record bus { closed = true }

-- The gateway's bus with its counter, `itertools.count(1)`.
pub record Numbered (M : Type 0) : Type 0 where
  pub bus : EventBus M
  pub sequence : ℕ

module _ {M : Type 0} where
  -- `_publish_source`: a closed bus takes no number, a full one has taken it.
  unfoldable pub publish_source :
      ℕ → MarketDataEvent → List Round → Numbered M → Numbered M × Outcome
  publish_source start event rounds gateway =
      let (bus, outcome) =
        publish start (record event { ingest_sequence = gateway.sequence }) rounds gateway.bus in
      (
        record {
          bus = bus;
          sequence = if gateway.bus.closed then gateway.sequence else suc gateway.sequence;
        },
        outcome,
      )
