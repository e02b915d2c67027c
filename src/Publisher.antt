-- ===== src/Publisher.antt =====
-- `SnapshotPublisher` of market_data/snapshot.py. The queues are objects that their readers keep, so they
-- are held apart from the set of the subscribers.
pub mod Delivery
use poly_market_btc_arbitrag.Prelude.{
  ℕ, suc, ◌+◌, Bool, true, false, not, ◌&&◌, Option, none, some, List, [], ◌∷◌, ◌++◌, ◌==◌, nat_eq,
  leb, length, if◌then◌else◌,
}
use poly_market_btc_arbitrag.Dict.{Dict, get, set, contains}
use poly_market_btc_arbitrag.Models.Snapshots.{MarketDataSnapshot}

-- `None` ends a subscription.
abbrev pub Messages : Type 0
Messages = List (Option MarketDataSnapshot)

-- Queues are named by the order in which they were made.
pub record Publisher : Type 0 where
  pub subscriber_capacity : ℕ
  pub queues : Dict ℕ Messages
  pub made : ℕ
  pub subscribers : List ℕ
  pub stopped : Bool
  pub slow_subscribers_removed : ℕ

unfoldable pub new_publisher : ℕ → Publisher
new_publisher capacity = record {
  subscriber_capacity = capacity;
  queues = [];
  made = 0;
  subscribers = [];
  stopped = false;
  slow_subscribers_removed = 0;
}

abbrev pub messages_of : Option Messages → Messages
messages_of none = []
messages_of (some messages) = messages

abbrev pub queue_of : ℕ → Publisher → Messages
queue_of id p = messages_of (get id p.queues)

-- `asyncio.Queue(capacity).full()`
abbrev pub is_full : ℕ → Messages → Bool
is_full capacity messages = not (capacity == 0) && leb capacity (length messages)

-- `set.discard`
unfoldable pub discard : ℕ → List ℕ → List ℕ
discard id [] = []
discard id (j ∷ ids) = let rest = discard id ids in if j == id then rest else j ∷ rest

-- `subscribe`: the new queue, or an error where the publisher stops.
unfoldable pub subscribe : Publisher → Option (ℕ × Publisher)
subscribe p =
    if p.stopped
    then none
    else some (
      p.made,
      record p {
        queues = set p.made [] p.queues;
        made = suc p.made;
        subscribers = p.made ∷ p.subscribers;
      },
    )

unfoldable pub unsubscribe : ℕ → Publisher → Publisher
unsubscribe id p = record p { subscribers = discard id p.subscribers }

-- The body of the loop of `publish`.
unfoldable pub publish_one : MarketDataSnapshot → ℕ → Publisher → Publisher
publish_one snapshot id p =
    if is_full p.subscriber_capacity (queue_of id p)
    then record p {
      subscribers = discard id p.subscribers;
      slow_subscribers_removed = p.slow_subscribers_removed + 1;
    }
    else record p { queues = set id (queue_of id p ++ some snapshot ∷ []) p.queues }

unfoldable pub publish_to : MarketDataSnapshot → List ℕ → Publisher → Publisher
publish_to snapshot [] p = p
publish_to snapshot (id ∷ ids) p = publish_to snapshot ids (publish_one snapshot id p)

-- `publish`, over the set as it is at the start
unfoldable pub publish : MarketDataSnapshot → Publisher → Publisher
publish snapshot p = publish_to snapshot p.subscribers p

-- The body of the loop of `stop`.
unfoldable pub end_one : ℕ → Publisher → Publisher
end_one id p =
    if is_full p.subscriber_capacity (queue_of id p)
    then p
    else record p { queues = set id (queue_of id p ++ none ∷ []) p.queues }

unfoldable pub end_all : List ℕ → Publisher → Publisher
end_all [] p = p
end_all (id ∷ ids) p = end_all ids (end_one id p)

unfoldable pub stop : Publisher → Publisher
stop p =
    let ended = end_all p.subscribers (record p { stopped = true }) in
    record ended { subscribers = [] }
