-- ===== src/Discovery/Validation.antt =====
-- The strict checks of a market's payload in market_discovery/resolver.py. What they use of Python's
-- library is a parameter, and a ValueError is `none`.
pub mod Accepted
use Prim.Native.String.{◌++◌ as str_append}
use poly_market_btc_arbitrag.Prelude.{
  ℕ, ◌+◌, ◌*◌, ◌/◌, Bool, true, false, not, Option, none, some, String, ◌==◌, string_eq, eqb,
  if◌then◌else◌, ◌>>=◌, ◌>>◌, require, is_some,
}
use poly_market_btc_arbitrag.Decimals.{pos}
use poly_market_btc_arbitrag.Texts.{strip, rstrip_slash, offset_for_z}
use poly_market_btc_arbitrag.Json.{Json, Items, nil, cons, array, text, integer, real, boolean}
use poly_market_btc_arbitrag.Json.Fields.{get_field, is_text}
use poly_market_btc_arbitrag.Models.Enums.{
  Timeframe, five_minutes, fifteen_minutes, duration_seconds, Outcome, up, down, outcome_eq,
}
use poly_market_btc_arbitrag.Discovery.Windows.{MarketWindow}

-- The parts of `urllib.parse.urlsplit`.
pub record SplitResult : Type 0 where
  pub scheme : String
  pub netloc : String
  pub path : String
  pub query : String
  pub fragment : String

-- The readers and writers of formats, and the case mapping of Unicode, that the checks take from Python's
-- library.
pub record Library : Type 0 where
  pub str : Json → String
  pub lower : String → String
  -- `datetime.fromisoformat` of a text with an offset, in microseconds since the epoch
  pub fromisoformat : String → Option ℕ
  pub loads : String → Option Json
  pub urlsplit : String → SplitResult
  pub urlunsplit : SplitResult → String

abbrev pub expected_resolution_source : String
expected_resolution_source = "https://data.chain.link/streams/btc-usd"

unfoldable pub slug_prefix : Timeframe → String
slug_prefix five_minutes = "btc-updown-5m"
slug_prefix fifteen_minutes = "btc-updown-15m"

-- `payload.get(key) is True`
abbrev pub is_true : Option Json → Bool
is_true (some (boolean b)) = b
is_true _ = false

abbrev pub non_empty : String → Option String
non_empty s = if s == "" then none else some s

-- A pair with one entry for each outcome, whichever is first: the up token, then the down token.
abbrev pub by_outcome : Outcome → String → Outcome → String → Option (String × String)
by_outcome up t down u = some (t, u)
by_outcome down t up u = some (u, t)
by_outcome _ _ _ _ = none

module _ (py : Library) where
  unfoldable pub build_market_slug : Timeframe → ℕ → String
  build_market_slug timeframe start =
      str_append (slug_prefix timeframe) (str_append "-" (py.str (integer (pos (start / 1000000)))))

  unfoldable pub parse_gamma_datetime : Option Json → Option ℕ
  parse_gamma_datetime (some (text value)) = do
    stripped ← non_empty (strip value)
    py.fromisoformat (offset_for_z stripped)
  parse_gamma_datetime _ = none

  -- The identifier may be a text or a number, but not a Boolean.
  unfoldable pub required_id : Option Json → Option String
  required_id (some (text value)) = non_empty (strip (py.str (text value)))
  required_id (some (integer value)) = non_empty (strip (py.str (integer value)))
  required_id (some (real value)) = non_empty (strip (py.str (real value)))
  required_id _ = none

  abbrev pub as_list : Option Json → Option Items
  as_list (some (array items)) = some items
  as_list _ = none

  unfoldable pub json_list : Option Json → Option Items
  json_list (some (text value)) = as_list (py.loads value)
  json_list value = as_list value

  unfoldable pub normalized_source : Option Json → Option String
  normalized_source (some (text value)) = do
    stripped ← non_empty (strip value)
    let parts = py.urlsplit stripped
    require (parts.query == "")
    require (parts.fragment == "")
    some (
        py.urlunsplit (record {
          scheme = py.lower parts.scheme;
          netloc = py.lower parts.netloc;
          path = rstrip_slash parts.path;
          query = "";
          fragment = "";
        }))
  normalized_source _ = none

  unfoldable pub outcome_of : Json → Option Outcome
  outcome_of (text value) =
      let name = py.lower (strip value) in
      if name == "up" then some up else if name == "down" then some down else none
  outcome_of _ = none

  unfoldable pub token_of : Json → Option String
  token_of (text value) = non_empty (strip value)
  token_of _ = none

  -- The loop over the two pairs, and the checks after it.
  unfoldable pub pair_tokens : Json → Json → Json → Json → Option (String × String)
  pair_tokens outcome token outcome2 token2 = do
    o ← outcome_of outcome
    t ← token_of token
    p ← outcome_of outcome2
    u ← token_of token2
    require (not (t == u))
    by_outcome o t p u

  -- Both lists have two entries.
  unfoldable pub read_tokens : Items → Items → Option (String × String)
  read_tokens (cons o (cons p nil)) (cons t (cons u nil)) = pair_tokens o t p u
  read_tokens _ _ = none

  unfoldable pub validate_market_payload : Json → Timeframe → ℕ → String → Option MarketWindow
  validate_market_payload payload timeframe expected_start expected_slug = do
    market_id ← required_id (get_field "id" payload)
    condition_id ← required_id (get_field "conditionId" payload)
    require (is_text expected_slug (get_field "slug" payload))
    require (is_true (get_field "active" payload))
    require (not (is_true (get_field "closed" payload)))
    require (not (is_true (get_field "archived" payload)))
    require (is_true (get_field "enableOrderBook" payload))
    start ← parse_gamma_datetime (get_field "eventStartTime" payload)
    finish ← parse_gamma_datetime (get_field "endDate" payload)
    require (eqb start expected_start)
    require (eqb finish (expected_start + duration_seconds timeframe * 1000000))
    require (build_market_slug timeframe start == expected_slug)
    source ← normalized_source (get_field "resolutionSource" payload)
    require (source == expected_resolution_source)
    outcomes ← json_list (get_field "outcomes" payload)
    tokens ← json_list (get_field "clobTokenIds" payload)
    pair ← read_tokens outcomes tokens
    some (record {
      timeframe = timeframe;
      market_id = market_id;
      condition_id = condition_id;
      slug = expected_slug;
      start_time_utc = start;
      end_time_utc = finish;
      up_token_id = pair.0;
      down_token_id = pair.1;
      resolution_source = source;
    })
