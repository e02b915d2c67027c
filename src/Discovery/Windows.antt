-- ===== src/Discovery/Windows.antt =====
-- market_discovery/models.py and the window arithmetic of resolver.py.
pub mod Bounds
use poly_market_btc_arbitrag.Prelude.{
  ℕ, ◌+◌, ◌-◌, ◌*◌, ◌/◌, ◌%◌, Bool, true, false, not, ◌&&◌, Option, none, some, String, ◌==◌,
  string_eq, is_some, leb, ltb, if◌then◌else◌,
}
use poly_market_btc_arbitrag.Models.Enums.{Timeframe, duration_seconds}

pub record MarketWindow : Type 0 where
  pub timeframe : Timeframe
  pub market_id : String
  pub condition_id : String
  pub slug : String
  pub start_time_utc : ℕ
  pub end_time_utc : ℕ
  pub up_token_id : String
  pub down_token_id : String
  pub resolution_source : String

pub record TransitionResult : Type 0 where
  pub success : Bool
  pub timeframe : Timeframe
  pub previous_market : Option MarketWindow
  pub new_market : Option MarketWindow
  pub expected_start_utc : ℕ
  pub search_started_at_utc : ℕ
  pub resolved_at_utc : Option ℕ
  pub attempt_count : ℕ
  pub transition_delay_ms : Option ℕ
  pub last_error : Option String

-- A text that is there and not empty.
abbrev pub truthy_text : Option String → Bool
truthy_text none = false
truthy_text (some text) = not (text == "")

-- Whether `TransitionResult.__post_init__` accepts the result.
unfoldable pub accepts_transition : TransitionResult → Bool
accepts_transition r =
    if r.success
    then is_some r.new_market
      && (is_some r.resolved_at_utc
          && (is_some r.transition_delay_ms && not (is_some r.last_error)))
    else not (is_some r.new_market)
      && (not (is_some r.resolved_at_utc)
          && (not (is_some r.transition_delay_ms) && truthy_text r.last_error))

-- `floor_to_window_start`
unfoldable pub floor_to_window_start : ℕ → Timeframe → ℕ
floor_to_window_start now timeframe =
    let epoch = now / 1000000 in (epoch - epoch % duration_seconds timeframe) * 1000000

-- `_live_previous`
unfoldable pub live_previous : Option MarketWindow → ℕ → Option MarketWindow
live_previous none now = none
live_previous (some market) now = if ltb now market.end_time_utc then some market else none
