-- ===== src/Tests/ClobTests.antt =====
-- Tests of the messages of the CLOB: a price change that comes twice.
use poly_market_btc_arbitrag.Prelude.{
  ℕ, ◌≡◌, refl, true, false, ◌<◌, some, none, List, [], ◌∷◌, String, All, Every, is_some, string_eq,
}
use poly_market_btc_arbitrag.Decimals.{pos}
use poly_market_btc_arbitrag.Dict.{Dict, get, Distinct}
use poly_market_btc_arbitrag.Json.{Json, integer, text, array, nil, cons}
use poly_market_btc_arbitrag.Json.Fields.{get_field, entry_of, parse_decimal}
use poly_market_btc_arbitrag.Json.Messages.{Received}
use poly_market_btc_arbitrag.Models.Enums.{five_minutes, up}
use poly_market_btc_arbitrag.Health.{new_registry}
use poly_market_btc_arbitrag.Codec.Write.{dict_of, event_json}
use poly_market_btc_arbitrag.Codec.Read.{event_from_dict}
use poly_market_btc_arbitrag.Clob.{ClobSource, ClobAssetMetadata, on_market_snapshot}
use poly_market_btc_arbitrag.Clob.Messages.{
  apply_clob_message, price_changes, change_events, change_event,
}
use poly_market_btc_arbitrag.Clob.Parsing.{Texts, timestamp, change_payload}
use poly_market_btc_arbitrag.Clob.Frames.{Frame, Connected}
use poly_market_btc_arbitrag.Clob.Events.{apply_clob_message-Made, apply_clob_message-json}
use poly_market_btc_arbitrag.Clob.Made.{Made}
use poly_market_btc_arbitrag.Tests.StorageTests.{py, py-ReadsDecimals}

abbrev texts : Texts
texts = record { python = py; lower = λ s. s; canonical = λ message. "message"; sha256 = λ s. s }

abbrev assets : Dict String ClobAssetMetadata
assets =
    (
      "up",
      record {
        asset_id = "up";
        timeframe = five_minutes;
        market_id = "market";
        condition_id = "condition";
        outcome = up;
      },
    )
    ∷ []

abbrev message : Json
message = dict_of (
    ("event_type", text "price_change")
    ∷ ("timestamp", integer (pos 1700))
    ∷ (
      "price_changes",
      array (
          cons
            (dict_of (
              ("asset_id", text "up")
              ∷ ("side", text "BUY")
              ∷ ("price", text "III")
              ∷ ("size", text "II")
              ∷ ("hash", text "0x1")
              ∷ []))
            nil),
    )
    ∷ [])

abbrev received : Received
received = record { wall_ns = 5; monotonic_ns = 6; sequence = 0 }

message-accepted :
    is_some (apply_clob_message texts assets received (some "session") message) ≡ true
unfolding apply_clob_message timestamp get_field entry_of price_changes change_events change_event
    change_payload parse_decimal get
message-accepted = refl

apply_clob_message-Made_example :
    Every
      (λ events.
        (time : ℕ) × (timestamp texts message ≡ some time)
        × (0 < time)
        × Made texts assets received (some "session") time events)
      (apply_clob_message texts assets received (some "session") message)
apply_clob_message-Made_example =
    apply_clob_message-Made texts assets received (some "session") message

apply_clob_message-json_example :
    Every
      (All λ e. event_from_dict py (event_json py e) ≡ some e)
      (apply_clob_message texts assets received (some "session") message)
apply_clob_message-json_example =
    apply_clob_message-json texts assets received (some "session") message py-ReadsDecimals

-- A snapshot of the discovery without a market comes before each frame.
abbrev retire : ClobSource → ClobSource
retire = on_market_snapshot 5 10 five_minutes none none

abbrev frames : List Frame
frames =
    record { others = retire; decoded = some message; received = received }
    ∷ record { others = retire; decoded = none; received = received }
    ∷ record { others = retire; decoded = some message; received = received }
    ∷ []

abbrev connected : Connected
connected = record {
  source = record {
    desired = "up" ∷ [];
    subscribed = "up" ∷ [];
    retire_at = [];
    assets = assets;
    deduplication = [];
    assets_changed = false;
  };
  health = new_registry "started";
}
