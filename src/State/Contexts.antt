-- ===== src/State/Contexts.antt =====
-- The market contexts of market_data/state.py, and which books they keep.
use poly_market_btc_arbitrag.Prelude.{
  ℕ, Bool, false, ◌||◌, Option, none, some, [], ◌∷◌, String, ◌==◌, string_eq, option_eq,
  if◌then◌else◌,
}
use poly_market_btc_arbitrag.Dict.{Dict}
use poly_market_btc_arbitrag.Models.Enums.{
  source_eq, outcome_eq, Timeframe, timeframe_eq, DiscoveryState,
}
use poly_market_btc_arbitrag.Models.Payloads.{MarketWindowPayload}
use poly_market_btc_arbitrag.State.Book.{Book}

-- The six values that `_context_window` makes of a market.
pub record WindowFields : Type 0 where
  pub market_id : Option String
  pub condition_id : Option String
  pub up_asset_id : Option String
  pub down_asset_id : Option String
  pub start_ns : Option ℕ
  pub end_ns : Option ℕ

-- `_TimeframeContext`: `current` and `next` hold the fields with these prefixes.
pub record TimeframeContext : Type 0 where
  pub state : DiscoveryState
  pub current : WindowFields
  pub next : WindowFields
  pub expected_transition_ns : Option ℕ
  pub last_error : Option String

-- `_context_window`
unfoldable pub context_window : Option MarketWindowPayload → WindowFields
context_window none = record {
  market_id = none;
  condition_id = none;
  up_asset_id = none;
  down_asset_id = none;
  start_ns = none;
  end_ns = none;
}
context_window (some market) = record {
  market_id = some market.market_id;
  condition_id = some market.condition_id;
  up_asset_id = some market.up_token_id;
  down_asset_id = some market.down_token_id;
  start_ns = some market.start_timestamp_ns;
  end_ns = some market.end_timestamp_ns;
}

-- Whether the context names the asset.
unfoldable pub names_asset : String → TimeframeContext → Bool
names_asset asset context =
    context.current.up_asset_id == some asset
    || context.current.down_asset_id == some asset
    || context.next.up_asset_id == some asset
    || context.next.down_asset_id == some asset

-- `_asset_is_referenced`, over the contexts
unfoldable pub is_referenced : String → Dict Timeframe TimeframeContext → Bool
is_referenced asset [] = false
is_referenced asset ((timeframe, context) ∷ rest) =
    names_asset asset context || is_referenced asset rest

-- The books whose assets the contexts name.
unfoldable pub keep_referenced :
    Dict Timeframe TimeframeContext → Dict String Book → Dict String Book
keep_referenced contexts [] = []
keep_referenced contexts ((asset, book) ∷ rest) =
    let kept = keep_referenced contexts rest in
    if is_referenced asset contexts then (asset, book) ∷ kept else kept
