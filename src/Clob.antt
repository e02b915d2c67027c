-- ===== src/Clob.antt =====
-- The state of `PolymarketClobSource` in market_data/sources/polymarket_clob.py: which assets it wants, which
-- it is subscribed to, when it gives one up, and which events it has seen. Sets are lists that hold an
-- element once.
pub mod Parsing
pub mod Made
pub mod Follows
pub mod Assets
pub mod Duplicates
pub mod Grace
pub mod Levels
pub mod Messages
pub mod Frames
pub mod Payloads
pub mod Events
pub mod Distinct
use Prim.Native.String.{◌++◌ as str_append, compare}
use Prim.Native.Nat.{Ordering}
use poly_market_btc_arbitrag.Prelude.{
  ℕ, zero, suc, ◌+◌, ◌-◌, Bool, true, false, not, ◌&&◌, Option, none, some, List, [], ◌∷◌, ◌++◌,
  String, ◌==◌, string_eq, leb, null, length, if◌then◌else◌,
}
use poly_market_btc_arbitrag.Dict.{Dict, keys, get, set, pop, contains}
use poly_market_btc_arbitrag.Models.Enums.{Timeframe, timeframe_eq, Outcome, up, down}
use poly_market_btc_arbitrag.Discovery.Windows.{MarketWindow}

pub record ClobAssetMetadata : Type 0 where
  pub asset_id : String
  pub timeframe : Timeframe
  pub market_id : String
  pub condition_id : String
  pub outcome : Outcome

pub record ClobSource : Type 0 where
  pub desired : List String
  pub subscribed : List String
  pub retire_at : Dict String ℕ
  pub assets : Dict String ClobAssetMetadata
  pub deduplication : Dict String (List String)
  pub assets_changed : Bool

-- `set.add`, `set.update`, `set.discard` and the difference of two sets
abbrev pub insert : String → List String → List String
insert x xs = if contains x xs then xs else xs ++ x ∷ []

unfoldable pub insert_all : List String → List String → List String
insert_all [] xs = xs
insert_all (y ∷ ys) xs = insert_all ys (insert y xs)

unfoldable pub remove : String → List String → List String
remove x [] = []
remove x (y ∷ ys) = let rest = remove x ys in if y == x then rest else y ∷ rest

unfoldable pub minus : List String → List String → List String
minus [] ys = []
minus (x ∷ xs) ys = let rest = minus xs ys in if contains x ys then rest else x ∷ rest

-- The tokens of a market that is there.
abbrev pub tokens : Option MarketWindow → List String
tokens none = []
tokens (some market) = market.up_token_id ∷ market.down_token_id ∷ []

abbrev pub metadata_of : Timeframe → MarketWindow → String → Outcome → ClobAssetMetadata
metadata_of timeframe market asset outcome = record {
  asset_id = asset;
  timeframe = timeframe;
  market_id = market.market_id;
  condition_id = market.condition_id;
  outcome = outcome;
}

-- The two entries that a market makes.
unfoldable pub remember :
    Timeframe → Option MarketWindow → Dict String ClobAssetMetadata → Dict String ClobAssetMetadata
remember timeframe none assets = assets
remember timeframe (some market) assets =
    set market.down_token_id (metadata_of timeframe market market.down_token_id down)
      (set market.up_token_id (metadata_of timeframe market market.up_token_id up) assets)

-- `retire_at.setdefault`
abbrev pub set_default : String → ℕ → Dict String ℕ → Dict String ℕ
set_default asset deadline retire_at =
    if contains asset (keys retire_at) then retire_at else set asset deadline retire_at

-- The loop over the assets of the timeframe that are not required.
unfoldable pub retire_unlisted :
    Timeframe → List String → ℕ → Dict String ClobAssetMetadata → Dict String ℕ → Dict String ℕ
retire_unlisted timeframe required deadline [] retire_at = retire_at
retire_unlisted timeframe required deadline ((asset, metadata) ∷ assets) retire_at =
    retire_unlisted timeframe required deadline assets (
      if metadata.timeframe == timeframe && not (contains asset required)
      then set_default asset deadline retire_at
      else retire_at)

-- The loop over the required assets.
unfoldable pub unretire : List String → Dict String ℕ → Dict String ℕ
unretire [] retire_at = retire_at
unretire (asset ∷ required) retire_at = unretire required (pop asset retire_at)

-- `on_market_snapshot`, at a time of the monotonic clock and with the grace of the configuration
unfoldable pub on_market_snapshot :
    ℕ → ℕ → Timeframe → Option MarketWindow → Option MarketWindow → ClobSource → ClobSource
on_market_snapshot now grace timeframe current next s =
    let required = insert_all (tokens next) (insert_all (tokens current) []) in
    let assets = remember timeframe next (remember timeframe current s.assets) in
    record s {
      assets = assets;
      retire_at =
          unretire required (retire_unlisted timeframe required (now + grace) assets s.retire_at);
      desired = insert_all required s.desired;
      assets_changed = true;
    }

-- The body of the loop of `_expire_assets`.
unfoldable pub give_up : String → ClobSource → ClobSource
give_up asset s = record s {
  desired = remove asset s.desired;
  assets = pop asset s.assets;
  deduplication = pop asset s.deduplication;
  retire_at = pop asset s.retire_at;
}

-- The loop, over the entries at its start.
unfoldable pub expire_entries : ℕ → Dict String ℕ → ClobSource → ClobSource
expire_entries now [] s = s
expire_entries now ((asset, deadline) ∷ entries) s =
    expire_entries now entries (if leb deadline now then give_up asset s else s)

unfoldable pub expire_assets : ℕ → ClobSource → ClobSource
expire_assets now s = expire_entries now s.retire_at s

abbrev is_after : Ordering → Bool
is_after Ordering.lt = false
is_after Ordering.eq = false
is_after Ordering.gt = true

insert_name : String → List String → List String
insert_name x [] = x ∷ []
insert_name x (y ∷ ys) =
    let rest = insert_name x ys in if is_after (compare x y) then y ∷ rest else x ∷ y ∷ ys

-- `sorted` of names
unfoldable pub sort_names : List String → List String
unfolding insert_name
sort_names [] = []
sort_names (x ∷ xs) = insert_name x (sort_names xs)

-- `subscription_update`
pub record SubscriptionUpdate : Type 0 where
  pub assets_ids : List String
  pub operation : String

abbrev pub update_if : List String → String → List SubscriptionUpdate
update_if [] operation = []
update_if (asset ∷ assets) operation =
    record { assets_ids = asset ∷ assets; operation = operation } ∷ []

-- One round of `_subscriptions` with the messages that it sends.
unfoldable pub subscription_round : ℕ → ClobSource → ClobSource × List SubscriptionUpdate
subscription_round now s =
    let fresh = expire_assets now (record s { assets_changed = false }) in
    let added = sort_names (minus fresh.desired fresh.subscribed) in
    let removed = sort_names (minus fresh.subscribed fresh.desired) in
    (
      record fresh { subscribed = minus (insert_all added fresh.subscribed) removed },
      update_if added "subscribe" ++ update_if removed "unsubscribe",
    )

-- `_event_id` of a message that has a hash; of another, the last part is a digest.
unfoldable pub event_id : String → String → String → String
event_id event_type asset hash =
    str_append "polymarket:"
      (str_append event_type (str_append ":" (str_append asset (str_append ":" hash))))

abbrev pub cache_limit : ℕ
cache_limit = 10000

abbrev pub drop_first : ℕ → List String → List String
drop_first zero xs = xs
drop_first (suc n) [] = []
drop_first (suc n) (x ∷ xs) = drop_first n xs

-- `while len(cache) > 10_000: cache.popitem(last=False)`
unfoldable pub trim : List String → List String
trim cache = drop_first (length cache - cache_limit) cache

abbrev pub cache_of : Option (List String) → List String
cache_of none = []
cache_of (some cache) = cache

-- The loop's body for one event: whether it is published.
unfoldable pub admit : String → String → ClobSource → ClobSource × Bool
admit asset id s =
    let cache = cache_of (get asset s.deduplication) in
    if contains id cache
    then (record s { deduplication = set asset cache s.deduplication }, false)
    else (record s { deduplication = set asset (trim (cache ++ id ∷ [])) s.deduplication }, true)
