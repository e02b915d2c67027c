-- ===== src/Tests/BusTests.antt =====
-- Tests of the queues and the subscribers.
use poly_market_btc_arbitrag.Prelude.{
  ◌≡◌, ◌≢◌, refl, false, ◌&&◌, some, List, [], ◌∷◌, ◌++◌, arith, inl, inr, nat_eq, String,
  if◌then◌else◌,
}
use poly_market_btc_arbitrag.Dict.{contains}
use poly_market_btc_arbitrag.State.View.{snapshot}
use poly_market_btc_arbitrag.Models.Snapshots.{MarketDataSnapshot}
use poly_market_btc_arbitrag.EventBus.{EventBus, Round, Numbered, publish, publish_source, waiting}
use poly_market_btc_arbitrag.EventBus.Capacity.{WellBus, publish-WellBus, publish-ends}
use poly_market_btc_arbitrag.EventBus.Sequence.{NumberedAfter, publish_source-Numbers}
use poly_market_btc_arbitrag.Publisher
use poly_market_btc_arbitrag.Publisher.{Publisher, queue_of, stop}
use poly_market_btc_arbitrag.Publisher.Delivery.{has_room, publish-delivers}
use poly_market_btc_arbitrag.Tests.{chainlink_event, empty_store}

-- A bus whose storage queue holds the events 1 and 2 and has room for no other.
abbrev bus : EventBus String
bus = record {
  state_queue = record { capacity = 4; items = chainlink_event 2 ∷ [] };
  storage_queue = record { capacity = 2; items = chainlink_event 1 ∷ chainlink_event 2 ∷ [] };
  market_state_queue = record { capacity = 1; items = [] };
  put_timeout = 10;
  high_water = record { state = 2; storage = 2; market_state = 0 };
  closed = false;
}

-- The writer takes one event before the second look.
abbrev rounds : List Round
rounds =
    record { state_taken = 0; storage_taken = 0; now = 101 }
    ∷ record { state_taken = 1; storage_taken = 1; now = 110 }
    ∷ []

bus-WellBus : WellBus bus
bus-WellBus = record {
  state_fits = inr (omega arith);
  storage_fits = inr (omega arith);
  market_state_fits = inr (omega arith);
  state_mark = omega arith;
  storage_mark = omega arith;
  market_state_mark = omega arith;
}

publish-WellBus_example : WellBus (publish 100 (chainlink_event 3) rounds bus).0
publish-WellBus_example = publish-WellBus 100 (chainlink_event 3) rounds bus bus-WellBus

publish-ends_example : (publish 100 (chainlink_event 3) rounds bus).1 ≢ waiting
publish-ends_example = publish-ends 100 (chainlink_event 3) rounds bus (inr (inl (omega arith)))

abbrev gateway : Numbered String
gateway = record { bus = bus; sequence = 3 }

publish_source-Numbers_example :
    NumberedAfter
      (publish_source 100 (chainlink_event 0) rounds gateway).1
      3
      (publish_source 100 (chainlink_event 0) rounds gateway).0
publish_source-Numbers_example =
    publish_source-Numbers 100 (chainlink_event 0) rounds gateway (1, (refl, (refl, refl)))

abbrev shown : MarketDataSnapshot
shown = (snapshot 1000 1 empty_store).1

-- Of the subscribers 0 and 1, the queue of 0 is full.
abbrev publisher : Publisher
publisher = record {
  subscriber_capacity = 1;
  queues = (0, some shown ∷ []) ∷ (1, []) ∷ [];
  made = 2;
  subscribers = 1 ∷ 0 ∷ [];
  stopped = false;
  slow_subscribers_removed = 0;
}

publish-delivers_example :
    (queue_of 0 (Publisher.publish shown publisher) ≡ (
      if contains 0 publisher.subscribers && has_room 0 publisher
      then queue_of 0 publisher ++ some shown ∷ []
      else queue_of 0 publisher))
    × (contains 0 (Publisher.publish shown publisher).subscribers
        ≡ (contains 0 publisher.subscribers && has_room 0 publisher))
unfolding contains
publish-delivers_example = publish-delivers shown publisher 0 (refl, (refl, tt))
