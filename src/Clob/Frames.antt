-- ===== src/Clob/Frames.antt =====
-- The loop over the frames of a connection in `PolymarketClobSource.run` of
-- market_data/sources/polymarket_clob.py. The other tasks of the source change its assets, and drop the
-- caches of expired ones, between the frames; while a frame is read they do not.
use poly_market_btc_arbitrag.Prelude.{
  Bool, true, false, Option, none, some, List, [], ◌∷◌, ◌++◌, String,
}
use poly_market_btc_arbitrag.Json.{Json, array, Items, nil, cons}
use poly_market_btc_arbitrag.Json.Messages.{Received}
use poly_market_btc_arbitrag.Models.Enums.{polymarket_clob}
use poly_market_btc_arbitrag.Models.Payloads.{MarketDataEvent}
use poly_market_btc_arbitrag.Health.{HealthRegistry, record_invalid, record_duplicate}
use poly_market_btc_arbitrag.Clob.{ClobSource, admit}
use poly_market_btc_arbitrag.Clob.Messages.{apply_clob_message}
use poly_market_btc_arbitrag.Clob.Parsing.{Texts, or_else}

-- A frame: what the other tasks have done to the source while the loop waited for it, and what is decoded
-- of its text, unless it is no JSON.
pub record Frame : Type 0 where
  pub others : ClobSource → ClobSource
  pub decoded : Option Json
  pub received : Received

-- The source, with the registry that it counts in.
pub record Connected : Type 0 where
  pub source : ClobSource
  pub health : HealthRegistry

abbrev pub interrupt : (ClobSource → ClobSource) → Connected → Connected
interrupt others s = record s { source = others s.source }

abbrev pub asset_of : MarketDataEvent → String
asset_of event = or_else event.asset_id ""

-- What is published of an event that has been admitted, or not.
abbrev pub publish_if :
    MarketDataEvent → HealthRegistry → ClobSource × Bool → List MarketDataEvent × Connected
publish_if event health (source, true) = (event ∷ [], record { source = source; health = health })
publish_if event health (source, false) =
    ([], record { source = source; health = record_duplicate polymarket_clob health })

unfoldable pub publish_new : MarketDataEvent → Connected → List MarketDataEvent × Connected
publish_new event s = publish_if event s.health (admit (asset_of event) event.event_id s.source)

-- The loop over the events of a message.
unfoldable pub publish_events : List MarketDataEvent → Connected → List MarketDataEvent × Connected
publish_events [] s = ([], s)
publish_events (event ∷ events) s =
    let step = publish_new event s in
    let rest = publish_events events step.1 in (step.0 ++ rest.0, rest.1)

abbrev pub count_invalid : Connected → Connected
count_invalid s = record s { health = record_invalid polymarket_clob s.health }

-- `decoded if isinstance(decoded, list) else [decoded]`
abbrev pub messages_in : Json → Items
messages_in (array items) = items
messages_in message = cons message nil

module _ (t : Texts) (session : Option String) where
  -- The loop over the messages of a frame, which the first error ends.
  unfoldable pub receive_messages : Received → Items → Connected → List MarketDataEvent × Connected
  receive_messages received nil s = ([], s)
  receive_messages received (cons message messages) s =
      elim (apply_clob_message t s.source.assets received session message) [
        | none ↦ ([], count_invalid s)
        | some events ↦
            let step = publish_events events s in
            let rest = receive_messages received messages step.1 in (step.0 ++ rest.0, rest.1)
      ]

  abbrev pub receive_decoded : Received → Option Json → Connected → List MarketDataEvent × Connected
  receive_decoded received none s = ([], count_invalid s)
  receive_decoded received (some decoded) s = receive_messages received (messages_in decoded) s

  unfoldable pub receive_frames : List Frame → Connected → List MarketDataEvent × Connected
  receive_frames [] s = ([], s)
  receive_frames (frame ∷ frames) s =
      let step = receive_decoded frame.received frame.decoded (interrupt frame.others s) in
      let rest = receive_frames frames step.1 in (step.0 ++ rest.0, rest.1)
