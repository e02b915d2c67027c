-- ===== src/Publisher/Delivery.antt =====
-- Who gets a snapshot, who stays subscribed, and what stopping leaves.
use poly_market_btc_arbitrag.Prelude.{
  ℕ, ◌≡◌, refl, Bool, true, not, ◌&&◌, ◌||◌, none, some, List, [], ◌∷◌, ◌++◌, ◌==◌, nat_eq, arith,
  if◌then◌else◌,
}
use poly_market_btc_arbitrag.Dict.{contains, Distinct}
use poly_market_btc_arbitrag.Dict.Laws.{get-set}
use poly_market_btc_arbitrag.Models.Snapshots.{MarketDataSnapshot}
use poly_market_btc_arbitrag.Publisher.{
  Publisher, queue_of, is_full, discard, publish_one, publish_to, publish, end_one, end_all, stop,
}

contains-discard :
    (id j : ℕ) (ids : List ℕ) → contains j (discard id ids) ≡ (not (j == id) && contains j ids)
unfolding contains discard
contains-discard id j [] = ground arith
contains-discard id j (k ∷ ids) = ground (arith, contains-discard id j ids)

abbrev pub has_room : ℕ → Publisher → Bool
has_room id p = not (is_full p.subscriber_capacity (queue_of id p))

capacity-publish_one :
    (snapshot : MarketDataSnapshot) (id : ℕ) (p : Publisher)
    → (publish_one snapshot id p).subscriber_capacity ≡ p.subscriber_capacity
unfolding publish_one
capacity-publish_one snapshot id p = ground arith

queue-publish_one :
    (snapshot : MarketDataSnapshot) (id j : ℕ) (p : Publisher)
    → queue_of j (publish_one snapshot id p)
      ≡ (if (id == j) && has_room id p then queue_of j p ++ some snapshot ∷ [] else queue_of j p)
unfolding publish_one
queue-publish_one snapshot id j p =
    ground (arith, get-set id j (queue_of id p ++ some snapshot ∷ []) p.queues)

subscribers-publish_one :
    (snapshot : MarketDataSnapshot) (id j : ℕ) (p : Publisher)
    → contains j (publish_one snapshot id p).subscribers
      ≡ (contains j p.subscribers && (not (id == j) || has_room id p))
unfolding publish_one
subscribers-publish_one snapshot id j p = ground (arith, contains-discard id j p.subscribers)

queue-publish_to :
    (snapshot : MarketDataSnapshot) (ids : List ℕ) (j : ℕ) (p : Publisher)
    → Distinct ids
    → queue_of j (publish_to snapshot ids p) ≡ (
        if contains j ids && has_room j p then queue_of j p ++ some snapshot ∷ [] else queue_of j p)
unfolding publish_to contains
queue-publish_to snapshot [] j p d = refl
queue-publish_to snapshot (id ∷ ids) j p d = ground (
  arith,
  queue-publish_to snapshot ids j (publish_one snapshot id p) d.1,
  queue-publish_one snapshot id j p,
  capacity-publish_one snapshot id p,
)

subscribers-publish_to :
    (snapshot : MarketDataSnapshot) (ids : List ℕ) (j : ℕ) (p : Publisher)
    → Distinct ids
    → contains j (publish_to snapshot ids p).subscribers
      ≡ (contains j p.subscribers && (not (contains j ids) || has_room j p))
unfolding publish_to contains
subscribers-publish_to snapshot [] j p d = ground arith
subscribers-publish_to snapshot (id ∷ ids) j p d = ground (
  arith,
  subscribers-publish_to snapshot ids j (publish_one snapshot id p) d.1,
  subscribers-publish_one snapshot id j p,
  queue-publish_one snapshot id j p,
  capacity-publish_one snapshot id p,
)

-- Publishing to a set of subscribers appends the snapshot to the queue of each that has room and leaves
-- every other queue as it is, full ones included; and just the subscribers that had room stay.
pub publish-delivers :
    (snapshot : MarketDataSnapshot) (p : Publisher) (j : ℕ)
    → Distinct p.subscribers
    → (queue_of j (publish snapshot p) ≡ (
        if contains j p.subscribers && has_room j p
        then queue_of j p ++ some snapshot ∷ []
        else queue_of j p))
      × (contains j (publish snapshot p).subscribers ≡ (contains j p.subscribers && has_room j p))
unfolding publish
publish-delivers snapshot p j d = (
  queue-publish_to snapshot p.subscribers j p d,
  ground (arith, subscribers-publish_to snapshot p.subscribers j p d),
)

queue-end_one :
    (id j : ℕ) (p : Publisher)
    → queue_of j (end_one id p)
      ≡ (if (id == j) && has_room id p then queue_of j p ++ none ∷ [] else queue_of j p)
unfolding end_one
queue-end_one id j p = ground (arith, get-set id j (queue_of id p ++ none ∷ []) p.queues)

capacity-end_one :
    (id : ℕ) (p : Publisher) → (end_one id p).subscriber_capacity ≡ p.subscriber_capacity
unfolding end_one
capacity-end_one id p = ground arith

queue-end_all :
    (ids : List ℕ) (j : ℕ) (p : Publisher)
    → Distinct ids
    → queue_of j (end_all ids p)
      ≡ (if contains j ids && has_room j p then queue_of j p ++ none ∷ [] else queue_of j p)
unfolding end_all contains
queue-end_all [] j p d = refl
queue-end_all (id ∷ ids) j p d =
    ground
      (arith, queue-end_all ids j (end_one id p) d.1, queue-end_one id j p, capacity-end_one id p)

-- Stopping puts the end mark into the queue of each subscriber that has room; a subscriber whose queue is
-- full gets none.
pub stop-ends :
    (p : Publisher) (j : ℕ)
    → Distinct p.subscribers
    → queue_of j (stop p) ≡ (
        if contains j p.subscribers && has_room j p
        then queue_of j p ++ none ∷ []
        else queue_of j p)
unfolding stop
stop-ends p j d = queue-end_all p.subscribers j (record p { stopped = true }) d
