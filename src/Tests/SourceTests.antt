-- ===== src/Tests/SourceTests.antt =====
-- Tests of the discovery and of the CLOB source.
use poly_market_btc_arbitrag.Prelude.{
  ◌≤◌, ◌≡◌, refl, true, false, not, ◌&&◌, none, some, Option, List, [], ◌∷◌, ◌++◌, arith, String,
  string_eq, is_some, leb,
}
use poly_market_btc_arbitrag.Dict.{contains, get}
use poly_market_btc_arbitrag.Models.Enums.{five_minutes, up}
use poly_market_btc_arbitrag.Discovery.Windows.{MarketWindow}
use poly_market_btc_arbitrag.Discovery.Search.{Attempt, Search, found, missed, search}
use poly_market_btc_arbitrag.Discovery.Search.Outcomes.{Concluded, search-Concluded, search-ends}
use poly_market_btc_arbitrag.Discovery.Search.Hiding.{searching, search-searching-le}
use poly_market_btc_arbitrag.Clob.{
  ClobSource, expire_assets, on_market_snapshot, subscription_round, admit,
}
use poly_market_btc_arbitrag.Clob.Assets.{subscription_round-subscribed}
use poly_market_btc_arbitrag.Clob.Grace.{on_market_snapshot-grace}
use poly_market_btc_arbitrag.Clob.Duplicates.{admit_all, admit-again}

abbrev window : String → String → MarketWindow
window up_token down_token = record {
  timeframe = five_minutes;
  market_id = "market";
  condition_id = "condition";
  slug = "btc-updown-5m-900";
  start_time_utc = 900000000;
  end_time_utc = 1200000000;
  up_token_id = up_token;
  down_token_id = down_token;
  resolution_source = "https://data.chain.link/streams/btc-usd";
}

abbrev a_search : Search
a_search = record {
  timeframe = five_minutes;
  previous_market = some (window "old-up" "old-down");
  expected_start = 1200000000;
  base_utc = 1000000000;
  base_monotonic = 50;
  search_started = 1195000000;
}

-- One miss, and then the market, after its start.
abbrev attempts : List Attempt
attempts =
    record {
      hidden_before = false;
      now = 1199500000;
      hidden_during = true;
      resolved = missed none;
      resolved_at = 1200000001;
      monotonic = 50;
    }
    ∷ record {
      hidden_before = true;
      now = 1200500000;
      hidden_during = false;
      resolved = found (window "up" "down");
      resolved_at = 1200600000;
      monotonic = 60;
    }
    ∷ []

search-Concluded_example : Concluded (search a_search 50 attempts)
search-Concluded_example = search-Concluded a_search 50 attempts

search-searching-le_example : searching (search a_search 50 attempts).0.shown ≤ 2
search-searching-le_example = search-searching-le a_search 50 attempts

abbrev many : List Attempt
many = let four = attempts ++ attempts in let eight = four ++ four in eight ++ (eight ++ eight)

search-ends_example : is_some (search a_search 50 many).1 ≡ true
search-ends_example = search-ends a_search 50 many (omega arith)

-- A source with an asset of a market that goes.
abbrev source : ClobSource
source = record {
  desired = "old-up" ∷ [];
  subscribed = "old-up" ∷ "gone" ∷ [];
  retire_at = [];
  assets =
      (
        "old-up",
        record {
          asset_id = "old-up";
          timeframe = five_minutes;
          market_id = "old";
          condition_id = "old";
          outcome = up;
        },
      )
      ∷ [];
  deduplication = ("up", "first" ∷ []) ∷ [];
  assets_changed = false;
}

subscription_round-subscribed_example :
    contains "gone" (subscription_round 5 source).0.subscribed
    ≡ contains "gone" (subscription_round 5 source).0.desired
subscription_round-subscribed_example = subscription_round-subscribed 5 source "gone"

abbrev next_market : Option MarketWindow
next_market = some (window "up" "down")

on_market_snapshot-grace_example :
    contains "old-up"
      (expire_assets 14 (on_market_snapshot 5 10 five_minutes next_market none source)).desired
    ≡ (contains "old-up" source.desired && not (leb 15 14))
unfolding get contains
on_market_snapshot-grace_example =
    on_market_snapshot-grace 5 10 14 five_minutes next_market none source "old-up" tt _ refl refl
      refl refl refl

admit-again_example :
    (admit "up" "book" (admit_all "up" ("change" ∷ "trade" ∷ []) (admit "up" "book" source).0)).1
    ≡ false
unfolding admit contains get
admit-again_example = admit-again "up" "book" ("change" ∷ "trade" ∷ []) source refl (omega arith)
