-- ===== src/Chainlink.antt =====
-- `parse_chainlink_message` and the loop of `ChainlinkRtdsSource` in market_data/sources/rtds_chainlink.py.
-- Python's `str` of a decoded value, and the reading of a text as a decimal of the common place, are
-- parameters.
pub mod Order
pub mod Counts
use Prim.Native.String.{◌++◌ as str_append}
use poly_market_btc_arbitrag.Prelude.{
  ℕ, zero, suc, ◌+◌, ◌*◌, ◌-◌, Bool, true, Option, none, some, List, [], ◌∷◌, ◌++◌, String, ◌==◌,
  string_eq, leb, length, if◌then◌else◌, ◌>>=◌, ◌>>◌, require,
}
use poly_market_btc_arbitrag.Decimals.{ℤ, pos}
use poly_market_btc_arbitrag.Dict.{contains}
use poly_market_btc_arbitrag.Json.{Json, null, integer, text}
use poly_market_btc_arbitrag.Json.Fields.{get_field, is_text, positive_int, as_object, read_decimal}
use poly_market_btc_arbitrag.Json.Messages.{Received, Message, emit}
use poly_market_btc_arbitrag.Models.Enums.{EventSource, chainlink_rtds}
use poly_market_btc_arbitrag.Models.Payloads.{EventPayload, MarketDataEvent, chainlink_price}
use poly_market_btc_arbitrag.Health.{HealthRegistry, record_invalid, record_duplicate}

-- `_seen` holds its keys in insertion order.
pub record RtdsSource : Type 0 where
  pub last_source_ns : Option ℕ
  pub seen : List String
  pub health : HealthRegistry

-- Whether the time is not before the last one, if there was one.
abbrev pub is_in_order : Option ℕ → ℕ → Bool
is_in_order none time = true
is_in_order (some last) time = leb last time

-- The value of a key that is there and not `None`.
abbrev pub present : Option Json → Option Json
present none = none
present (some null) = none
present (some value) = some value

abbrev pub seen_limit : ℕ
seen_limit = 4096

-- `popitem(last=False)`, so many times
abbrev pub drop_oldest : ℕ → List String → List String
drop_oldest zero ids = ids
drop_oldest (suc n) [] = []
drop_oldest (suc n) (id ∷ ids) = drop_oldest n ids

-- The loop that removes the oldest identifiers while there are more than the limit.
unfoldable pub forget : List String → List String
forget ids = drop_oldest (length ids - seen_limit) ids

-- What the loop does with an event, or with an error.
unfoldable pub accept : RtdsSource → Option MarketDataEvent → Option MarketDataEvent × RtdsSource
accept s none = (none, record s { health = record_invalid chainlink_rtds s.health })
accept s (some event) =
    if contains event.event_id s.seen
    then (none, record s { health = record_duplicate chainlink_rtds s.health })
    else (
      some event,
      record s {
        seen = forget (s.seen ++ event.event_id ∷ []);
        last_source_ns = event.source_timestamp_ns;
      },
    )

module _ (str : Json → String) (decimal : String → Option ℤ) where
  unfoldable pub parse_chainlink_message : Json → ℕ → Received → Option ℕ → Option MarketDataEvent
  parse_chainlink_message message now received last = do
    require (is_text "crypto_prices_chainlink" (get_field "topic" message))
    require (is_text "update" (get_field "type" message))
    payload ← as_object (get_field "payload" message)
    require (is_text "btc/usd" (get_field "symbol" payload))
    payload_ms ← positive_int (get_field "timestamp" payload)
    server_ms ← positive_int (get_field "timestamp" message)
    require (leb (payload_ms * 1000000) (now + 5000000000))
    require (is_in_order last (payload_ms * 1000000))
    value ← present (get_field "value" payload)
    price ← read_decimal str decimal true (some value)
    some (record {
      schema_version = 2;
      ingest_sequence = received.sequence;
      event_id = str_append "chainlink:" (
          str_append (str (integer (pos payload_ms)))
            (str_append ":" (str (integer (pos server_ms)))));
      source = chainlink_rtds;
      instrument = "BTC/USD";
      source_timestamp_ns = some (payload_ms * 1000000);
      server_timestamp_ns = some (server_ms * 1000000);
      received_wall_timestamp_ns = received.wall_ns;
      received_monotonic_ns = received.monotonic_ns;
      source_sequence = some (str (integer (pos payload_ms)));
      timeframe = none;
      market_id = none;
      condition_id = none;
      asset_id = none;
      outcome = none;
      payload = chainlink_price (record { symbol = "btc/usd"; price = price });
      source_session_id = none;
    })

  -- The body of the loop over the messages.
  unfoldable pub receive : Message → RtdsSource → Option MarketDataEvent × RtdsSource
  receive m s =
      accept s (parse_chainlink_message m.body m.received.wall_ns m.received s.last_source_ns)

  -- The loop: the events that it publishes, and the source after it.
  unfoldable pub receive_all : List Message → RtdsSource → List MarketDataEvent × RtdsSource
  receive_all [] s = ([], s)
  receive_all (m ∷ messages) s =
      let step = receive m s in
      let rest = receive_all messages step.1 in (emit step.0 rest.0, rest.1)
