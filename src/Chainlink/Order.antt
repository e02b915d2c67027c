-- ===== src/Chainlink/Order.antt =====
-- The order of the prices that the source publishes.
use poly_market_btc_arbitrag.Prelude.{
  ℕ, ◌+◌, ◌*◌, ◌<◌, ◌≡◌, true, Option, none, some, List, [], ◌∷◌, String, string_eq, leb, subst,
  Bool-cases, inl, inr, Every, Every-bind, Every-require,
}
use poly_market_btc_arbitrag.Decimals.{ℤ}
use poly_market_btc_arbitrag.Dict.{contains}
use poly_market_btc_arbitrag.Json.{Json}
use poly_market_btc_arbitrag.Json.Fields.{
  get_field, is_text, positive_int, as_object, read_decimal, read_decimal-positive,
}
use poly_market_btc_arbitrag.Json.Messages.{Received, Message, emit}
use poly_market_btc_arbitrag.Models.Payloads.{EventPayload, MarketDataEvent, chainlink_price}
use poly_market_btc_arbitrag.Chainlink.{
  RtdsSource, is_in_order, present, accept, parse_chainlink_message, receive, receive_all,
}

abbrev pub InOrder : Option ℕ → Option ℕ → Type 0
InOrder last none = ⊥
InOrder last (some time) = is_in_order last time ≡ true

abbrev pub IsPrice : EventPayload → Type 0
IsPrice (chainlink_price c) = 0 < c.price
IsPrice _ = ⊥

abbrev pub WellPrice : Option ℕ → MarketDataEvent → Type 0
WellPrice last event = InOrder last event.source_timestamp_ns × IsPrice event.payload

-- Each event is a positive price, with a time that is not before the one of the event before it.
abbrev pub Published : Option ℕ → List MarketDataEvent → Type 0
Published last [] = Unit
Published last (event ∷ events) = WellPrice last event × Published event.source_timestamp_ns events

accept-Published :
    (s : RtdsSource) (result : Option MarketDataEvent) (events : List MarketDataEvent)
    → Every (WellPrice s.last_source_ns) result
    → Published (accept s result).1.last_source_ns events
    → Published s.last_source_ns (emit (accept s result).0 events)
unfolding accept
accept-Published s none events well = λ rest. rest
accept-Published s (some event) events well = elim (Bool-cases (contains event.event_id s.seen)) [
  | inl e ↦ rw e λ rest. rest
  | inr e ↦ rw e λ rest. (well, rest)
]

module _ (str : Json → String) (decimal : String → Option ℤ) where
  parse_chainlink_message-WellPrice :
      (message : Json) (now : ℕ) (received : Received) (last : Option ℕ)
      → Every (WellPrice last) (parse_chainlink_message str decimal message now received last)
  unfolding parse_chainlink_message
  parse_chainlink_message-WellPrice message now received last =
      Every-require (WellPrice last) (is_text "crypto_prices_chainlink" (get_field "topic" message))
        _
        λ _. Every-require (WellPrice last) (is_text "update" (get_field "type" message)) _ λ _.
          Every-bind (WellPrice last) (as_object (get_field "payload" message)) _ λ payload _.
            Every-require (WellPrice last) (is_text "btc/usd" (get_field "symbol" payload)) _ λ _.
              Every-bind (WellPrice last) (positive_int (get_field "timestamp" payload)) _ λ ms _.
                Every-bind (WellPrice last) (positive_int (get_field "timestamp" message)) _ λ _ _.
                  Every-require (WellPrice last) (leb (ms * 1000000) (now + 5000000000)) _ λ _.
                    Every-require (WellPrice last) (is_in_order last (ms * 1000000)) _ λ in_order.
                      Every-bind (WellPrice last) (present (get_field "value" payload)) _ λ value _.
                        Every-bind (WellPrice last) (read_decimal str decimal true (some value)) _
                          λ price e. (
                            in_order,
                            subst (Every (λ n. 0 < n)) e
                                (read_decimal-positive str decimal (some value)),
                          )

  -- Over the messages of the source, whichever they are and whichever of them are refused, the published
  -- events are positive prices whose source times never fall, from the last time that it had seen on.
  pub receive_all-Published :
      (messages : List Message) (s : RtdsSource)
      → Published s.last_source_ns (receive_all str decimal messages s).0
  unfolding receive_all receive
  receive_all-Published [] s = tt
  receive_all-Published (m ∷ messages) s =
      accept-Published s
        (parse_chainlink_message str decimal m.body m.received.wall_ns m.received s.last_source_ns)
        (receive_all str decimal messages (receive str decimal m s).1).0
        (parse_chainlink_message-WellPrice m.body m.received.wall_ns m.received s.last_source_ns)
        (receive_all-Published messages (receive str decimal m s).1)
