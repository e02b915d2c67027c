-- ===== src/Codec/Parts.antt =====
-- The functions that `event_from_dict` of market_data/models.py calls.
use poly_market_btc_arbitrag.Prelude.{
  ℕ, Option, none, some, List, [], String, eqb, if◌then◌else◌, ◌>>=◌,
}
use poly_market_btc_arbitrag.Json.{Json, null, array, object, nil, cons}
use poly_market_btc_arbitrag.Json.Fields.{get_field}
use poly_market_btc_arbitrag.Models.Enums.{EventSource}
use poly_market_btc_arbitrag.Models.Payloads.{
  Decimal, PriceLevel, SourceHealthSnapshot, MarketWindowPayload,
}
use poly_market_btc_arbitrag.Codec.Values.{
  Python, iterate, read_all, text_or_none, optional, text_of, int_of, text_at, int_at, truth_at,
  decimal_at,
}
use poly_market_btc_arbitrag.Codec.Enums.{source_from, timeframe_from}

abbrev pub not_none : Option Json → Option Json
not_none none = none
not_none (some null) = none
not_none (some value) = some value

-- `PriceLevel(...)`, which wants a price above 0
abbrev pub checked_level : Decimal → Decimal → Option PriceLevel
checked_level price quantity =
    if eqb price 0 then none else some (record { price = price; quantity = quantity })

module _ (py : Python) where
  unfoldable pub level_from_dict : Json → Option PriceLevel
  level_from_dict value = do
    price ← decimal_at py "price" value
    quantity ← decimal_at py "quantity" value
    checked_level price quantity

  -- `T(str(value[key]))` for an enumeration
  abbrev pub member_at {ℓ} : {A : Type ℓ} → (String → Option A) → String → Json → Option A
  member_at member key value = text_at py key value >>= member

  -- The tuple of what a loop over `value[key]` reads.
  abbrev pub read_list {ℓ} : {A : Type ℓ} → (Json → Option A) → Option Json → Option (List A)
  read_list read value = value >>= λ v. iterate v >>= read_all read

  -- The same of `value.get(key, ())`, for texts.
  abbrev pub read_texts : Option Json → Option (List String)
  read_texts none = some []
  read_texts (some value) = iterate value >>= read_all λ item. some (text_of py item)

  abbrev pub zero_if_missing : Option Json → Option ℕ
  zero_if_missing none = some 0
  zero_if_missing (some value) = int_of py value

  -- `int(value.get(key, 0))`
  abbrev pub int_or_zero : String → Json → Option ℕ
  int_or_zero key value = zero_if_missing (get_field key value)

  -- `_source_health_from_dict`
  unfoldable pub source_health_from_dict : Json → Option SourceHealthSnapshot
  source_health_from_dict value = do
    connected ← truth_at py "connected" value
    stale ← truth_at py "stale" value
    last_message_timestamp_ns ← optional (int_of py) (get_field "last_message_timestamp_ns" value)
    age_ms ← optional (int_of py) (get_field "age_ms" value)
    reconnect_count ← int_at py "reconnect_count" value
    invalid_count ← int_at py "invalid_count" value
    duplicate_count ← int_at py "duplicate_count" value
    stale_session_count ← int_or_zero "stale_session_count" value
    divergence_count ← int_or_zero "divergence_count" value
    protocol_error_count ← int_or_zero "protocol_error_count" value
    some (record {
      connected = connected;
      stale = stale;
      current_session_id = text_or_none (get_field "current_session_id" value);
      last_message_timestamp_ns = last_message_timestamp_ns;
      age_ms = age_ms;
      reconnect_count = reconnect_count;
      invalid_count = invalid_count;
      duplicate_count = duplicate_count;
      stale_session_count = stale_session_count;
      divergence_count = divergence_count;
      protocol_error_count = protocol_error_count;
    })

  unfoldable pub health_row : Json → Option (EventSource × SourceHealthSnapshot)
  health_row (array (cons source (cons (object entries) nil))) = do
    s ← source_from (text_of py source)
    health ← source_health_from_dict (object entries)
    some (s, health)
  health_row _ = none

  unfoldable pub read_health : Option Json → Option (List (EventSource × SourceHealthSnapshot))
  read_health (some (array rows)) = read_all health_row rows
  read_health _ = none

  unfoldable pub market_window_of : Json → Option MarketWindowPayload
  market_window_of value = do
    timeframe ← member_at timeframe_from "timeframe" value
    market_id ← text_at py "market_id" value
    condition_id ← text_at py "condition_id" value
    slug ← text_at py "slug" value
    start_timestamp_ns ← int_at py "start_timestamp_ns" value
    end_timestamp_ns ← int_at py "end_timestamp_ns" value
    up_token_id ← text_at py "up_token_id" value
    down_token_id ← text_at py "down_token_id" value
    resolution_source ← text_at py "resolution_source" value
    some (record {
      timeframe = timeframe;
      market_id = market_id;
      condition_id = condition_id;
      slug = slug;
      start_timestamp_ns = start_timestamp_ns;
      end_timestamp_ns = end_timestamp_ns;
      up_token_id = up_token_id;
      down_token_id = down_token_id;
      resolution_source = resolution_source;
    })

  -- `_market_window_from_dict`
  unfoldable pub market_window_from_dict : Option Json → Option (Option MarketWindowPayload)
  market_window_from_dict (some (object entries)) =
      market_window_of (object entries) >>= λ m. some (some m)
  market_window_from_dict (some null) = some none
  market_window_from_dict none = some none
  market_window_from_dict _ = none
