-- ===== src/Clob/Events.antt =====
-- What the events of CLOB messages are like.
use poly_market_btc_arbitrag.Prelude.{
  ℕ, suc, ◌<◌, ◌≡◌, not, Option, some, List, [], ◌∷◌, String, string_eq, eqb, arith, All, Every,
  Every-bind, Every-require, Every-mono, subst,
}
use poly_market_btc_arbitrag.Dict.{Dict}
use poly_market_btc_arbitrag.Json.{Json, object}
use poly_market_btc_arbitrag.Json.Fields.{get_field, as_object}
use poly_market_btc_arbitrag.Json.Messages.{Received}
use poly_market_btc_arbitrag.Models.Payloads.{MarketDataEvent}
use poly_market_btc_arbitrag.Codec.Values.{ReadsDecimals, text_or_none, int_of}
use poly_market_btc_arbitrag.Codec.Write.{event_json}
use poly_market_btc_arbitrag.Codec.Read.{event_from_dict}
use poly_market_btc_arbitrag.Codec.RoundTrip.{event_from_dict-json}
use poly_market_btc_arbitrag.Clob.{ClobAssetMetadata}
use poly_market_btc_arbitrag.Clob.Messages.{typed_events, apply_clob_message}
use poly_market_btc_arbitrag.Clob.Parsing.{Texts, timestamp}
use poly_market_btc_arbitrag.Clob.Payloads.{WellClob-WellPayload}
use poly_market_btc_arbitrag.Clob.Made.{WellMade, MadeFrom, Made, typed_events-Made}

module _ (t : Texts) (assets : Dict String ClobAssetMetadata) (received : Received)
    (session : Option String) where
  timestamp-positive : (message : Json) → Every (0 <◌) (timestamp t message)
  unfolding timestamp
  timestamp-positive message = Every-bind (0 <◌) (get_field "timestamp" message) _ λ value _.
      Every-bind (0 <◌) (int_of t.python value) _
        λ milliseconds _. Every-require (0 <◌) (not (eqb milliseconds 0)) _ λ positive. ground arith

  as_object-same :
      (message fields : Json) → as_object (some message) ≡ some fields → fields ≡ message
  as_object-same (object entries) fields e = ground arith
  as_object-same _ fields e = ground arith

  -- A message is refused, or it makes at least one event, and each is of an asset that the source knows: it
  -- carries the market, condition, timeframe and outcome of that asset, the session and the message's positive
  -- time, a well-formed payload, and the next number from the message's on. Well formed is: a book with sides
  -- in strict price order, positive and not crossed; a change with a known side and a positive price; a trade
  -- and a tick size that are positive; and a resolution that lists the asset.
  pub apply_clob_message-Made :
      (message : Json)
      → Every
          (λ events.
            (time : ℕ) × (timestamp t message ≡ some time)
            × (0 < time)
            × Made t assets received session time events)
          (apply_clob_message t assets received session message)
  unfolding apply_clob_message
  apply_clob_message-Made message = Every-bind _ (as_object (some message)) _ λ fields same.
      Every-bind _ (timestamp t fields) _ λ time e.
        Every-mono (Made t assets received session time) _
          (typed_events t assets received session (text_or_none (get_field "event_type" fields))
            fields time)
          (λ events made. (
            time,
            subst (λ m. timestamp t m ≡ some time) (as_object-same message fields same) e,
            subst (Every (0 <◌)) e (timestamp-positive fields),
            made,
          ))
          (typed_events-Made t assets received session
            (text_or_none (get_field "event_type" fields)) fields time)

  MadeFrom-All :
      (P : MarketDataEvent → Type 0)
      → ((time sequence : ℕ) (e : MarketDataEvent)
          → WellMade t assets received session time sequence e
          → P e)
      → (time sequence : ℕ) (events : List MarketDataEvent)
      → MadeFrom t assets received session time sequence events
      → All P events
  MadeFrom-All P h time sequence [] made = tt
  MadeFrom-All P h time sequence (e ∷ events) made =
      (h time sequence e made.0, MadeFrom-All P h time (suc sequence) events made.1)

  -- Every event that a message makes is read back from its JSON as it was, if `Decimal` reads what it shows.
  pub apply_clob_message-json :
      (message : Json)
      → ReadsDecimals t.python
      → Every
          (All λ e. event_from_dict t.python (event_json t.python e) ≡ some e)
          (apply_clob_message t assets received session message)
  apply_clob_message-json message law =
      Every-mono _ _ (apply_clob_message t assets received session message)
        (λ events made.
          MadeFrom-All _
            (λ time sequence e w.
              event_from_dict-json t.python law e w.version
                (WellClob-WellPayload w.asset e.payload w.payload))
            made.0 received.sequence events made.3.1)
        (apply_clob_message-Made message)
