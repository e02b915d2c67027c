-- ===== src/Binance/Order.antt =====
-- The order of the identifiers that the parser lets through, over the messages of a connection.
use poly_market_btc_arbitrag.Prelude.{
  ℕ, ◌+◌, ◌*◌, ◌≡◌, refl, true, false, Option, none, some, List, [], ◌∷◌, String, leb, ltb, subst,
  Every, Every-bind, Every-require, Bool-cases, inl, inr,
}
use poly_market_btc_arbitrag.Decimals.{ℤ}
use poly_market_btc_arbitrag.Json.{Json}
use poly_market_btc_arbitrag.Json.Fields.{as_object, read_decimal, get_field, positive_int, is_text}
use poly_market_btc_arbitrag.Models.Payloads.{
  EventPayload, BinanceAggTradePayload, BinanceBookTickerPayload, BinanceDepth20Payload,
  MarketDataEvent, binance_agg_trade, binance_book_ticker, binance_depth20,
}
use poly_market_btc_arbitrag.Json.Messages.{Received, Message, emit}
use poly_market_btc_arbitrag.Binance.{
  Parser, Connection, is_increasing, as_bool, best_price, levels, common_event, agg_trade,
  book_ticker, depth, parse, receive, settle, receive_all,
}

pub data Kind : Type 0 where
  trades : Kind
  tickers : Kind
  depths : Kind

-- The identifier of an event of that kind, and the last one that the parser has seen.
abbrev pub id_of : Kind → EventPayload → Option ℕ
id_of trades (binance_agg_trade t) = some t.aggregate_trade_id
id_of tickers (binance_book_ticker t) = some t.update_id
id_of depths (binance_depth20 d) = some d.last_update_id
id_of _ _ = none

abbrev pub last_id : Kind → Parser → Option ℕ
last_id trades p = p.last_agg_trade_id
last_id tickers p = p.last_book_update_id
last_id depths p = p.last_depth_update_id

abbrev add_id : Option ℕ → List ℕ → List ℕ
add_id none ids = ids
add_id (some id) ids = id ∷ ids

abbrev pub ids_of : Kind → List MarketDataEvent → List ℕ
ids_of kind [] = []
ids_of kind (event ∷ events) = add_id (id_of kind event.payload) (ids_of kind events)

-- Each is above the one before it, and the first above the one given.
abbrev pub Ascends : Option ℕ → List ℕ → Type 0
Ascends last [] = Unit
Ascends last (id ∷ ids) = (is_increasing last id ≡ true) × Ascends (some id) ids

-- How the last identifier changes when an event has this one.
abbrev Follows : Option ℕ → Option ℕ → Option ℕ → Type 0
Follows before none after = after ≡ before
Follows before (some id) after = (is_increasing before id ≡ true) × (after ≡ some id)

abbrev FollowsFor : Kind → Parser → MarketDataEvent × Parser → Type 0
FollowsFor kind p result =
    Follows (last_id kind p) (id_of kind result.0.payload) (last_id kind result.1)

trade-Follows :
    (kind : Kind) (p : Parser) (payload : BinanceAggTradePayload)
    → is_increasing p.last_agg_trade_id payload.aggregate_trade_id ≡ true
    → Follows
        (last_id kind p)
        (id_of kind (binance_agg_trade payload))
        (last_id kind (record p { last_agg_trade_id = some payload.aggregate_trade_id }))
trade-Follows trades p payload new = (new, refl)
trade-Follows tickers p payload new = refl
trade-Follows depths p payload new = refl

ticker-Follows :
    (kind : Kind) (p : Parser) (payload : BinanceBookTickerPayload)
    → is_increasing p.last_book_update_id payload.update_id ≡ true
    → Follows
        (last_id kind p)
        (id_of kind (binance_book_ticker payload))
        (last_id kind (record p { last_book_update_id = some payload.update_id }))
ticker-Follows trades p payload new = refl
ticker-Follows tickers p payload new = (new, refl)
ticker-Follows depths p payload new = refl

snapshot-Follows :
    (kind : Kind) (p : Parser) (payload : BinanceDepth20Payload)
    → is_increasing p.last_depth_update_id payload.last_update_id ≡ true
    → Follows
        (last_id kind p)
        (id_of kind (binance_depth20 payload))
        (last_id kind (record p { last_depth_update_id = some payload.last_update_id }))
snapshot-Follows trades p payload new = refl
snapshot-Follows tickers p payload new = refl
snapshot-Follows depths p payload new = (new, refl)

Follows-Ascends :
    (before id after : Option ℕ) (ids : List ℕ)
    → Follows before id after
    → Ascends after ids
    → Ascends before (add_id id ids)
Follows-Ascends before none after ids f a = subst (λ last. Ascends last ids) f a
Follows-Ascends before (some id) after ids (new, e) a = (new, subst (λ last. Ascends last ids) e a)

settle-Ascends :
    (kind : Kind) (c : Connection) (events : List MarketDataEvent)
    (result : Option (MarketDataEvent × Parser))
    → Every (FollowsFor kind c.parser) result
    → Ascends (last_id kind (settle c result).1.parser) (ids_of kind events)
    → Ascends (last_id kind c.parser) (ids_of kind (emit (settle c result).0 events))
unfolding settle
settle-Ascends kind c events none f a = a
settle-Ascends kind c events (some (event, q)) f a =
    Follows-Ascends (last_id kind c.parser) (id_of kind event.payload) (last_id kind q)
      (ids_of kind events) f a

module _ (str : Json → String) (decimal : String → Option ℤ) where
  agg_trade-Follows :
      (kind : Kind) (fields : Json) (now : ℕ) (received : Received) (p : Parser)
      → Every (FollowsFor kind p) (agg_trade str decimal fields now received p)
  unfolding agg_trade common_event
  agg_trade-Follows kind fields now received p =
      Every-require (FollowsFor kind p) (is_text "aggTrade" (get_field "e" fields)) _ λ _.
        Every-require (FollowsFor kind p) (is_text "BTCUSDT" (get_field "s" fields)) _ λ _.
          Every-bind (FollowsFor kind p) (positive_int (get_field "a" fields)) _ λ id _.
            Every-require (FollowsFor kind p) (is_increasing p.last_agg_trade_id id) _ λ new.
              Every-bind (FollowsFor kind p) (positive_int (get_field "f" fields)) _ λ first_id _.
                Every-bind (FollowsFor kind p) (positive_int (get_field "l" fields)) _ λ last_id _.
                  Every-require (FollowsFor kind p) (leb first_id last_id) _ λ ordered.
                    Every-bind (FollowsFor kind p) (positive_int (get_field "E" fields)) _ λ _ _.
                      Every-bind (FollowsFor kind p) (positive_int (get_field "T" fields)) _
                        λ trade_time _.
                          Every-require (FollowsFor kind p)
                            (leb (trade_time * p.timestamp_multiplier) (now + 5000000000)) _
                            λ _.
                              Every-bind (FollowsFor kind p) (as_bool (get_field "m" fields)) _
                                λ _ _.
                                  Every-bind (FollowsFor kind p)
                                    (read_decimal str decimal true (get_field "p" fields)) _
                                    λ price e.
                                      Every-bind (FollowsFor kind p)
                                        (read_decimal str decimal true (get_field "q" fields)) _
                                        λ quantity f. trade-Follows kind p _ new

  book_ticker-Follows :
      (kind : Kind) (fields : Json) (received : Received) (p : Parser)
      → Every (FollowsFor kind p) (book_ticker str decimal fields received p)
  unfolding book_ticker common_event
  book_ticker-Follows kind fields received p =
      Every-require (FollowsFor kind p) (is_text "BTCUSDT" (get_field "s" fields)) _ λ _.
        Every-bind (FollowsFor kind p) (positive_int (get_field "u" fields)) _ λ id _.
          Every-require (FollowsFor kind p) (is_increasing p.last_book_update_id id) _ λ new.
            Every-bind (FollowsFor kind p) (read_decimal str decimal true (get_field "b" fields)) _
              λ bid _.
                Every-bind (FollowsFor kind p)
                  (read_decimal str decimal true (get_field "a" fields)) _
                  λ ask _.
                    Every-bind (FollowsFor kind p)
                      (read_decimal str decimal false (get_field "B" fields)) _
                      λ _ _.
                        Every-bind (FollowsFor kind p)
                          (read_decimal str decimal false (get_field "A" fields)) _
                          λ _ _.
                            Every-require (FollowsFor kind p) (ltb bid ask) _
                              λ uncrossed. ticker-Follows kind p _ new

  depth-Follows :
      (kind : Kind) (fields : Json) (received : Received) (p : Parser)
      → Every (FollowsFor kind p) (depth str decimal fields received p)
  unfolding depth common_event
  depth-Follows kind fields received p =
      Every-bind (FollowsFor kind p) (positive_int (get_field "lastUpdateId" fields)) _ λ id _.
        Every-require (FollowsFor kind p) (is_increasing p.last_depth_update_id id) _ λ new.
          Every-bind (FollowsFor kind p) (levels str decimal true (get_field "bids" fields)) _
            λ bids e.
              Every-bind (FollowsFor kind p) (levels str decimal false (get_field "asks" fields)) _
                λ asks f.
                  Every-require (FollowsFor kind p) (ltb (best_price bids) (best_price asks)) _
                    λ uncrossed. snapshot-Follows kind p _ new

  parse-Follows :
      (kind : Kind) (message : Json) (now : ℕ) (received : Received) (p : Parser)
      → Every (FollowsFor kind p) (parse str decimal message now received p)
  unfolding parse
  parse-Follows kind message now received p =
      Every-bind (FollowsFor kind p) (as_object (get_field "data" message)) _ λ fields _.
        elim (Bool-cases (is_text "btcusdt@aggTrade" (get_field "stream" message))) [
          | inl e ↦ rw e (agg_trade-Follows kind fields now received p)
          | inr e ↦ elim (Bool-cases (is_text "btcusdt@bookTicker" (get_field "stream" message))) [
            | inl f ↦ rw (e, f) (book_ticker-Follows kind fields received p)
            | inr f ↦
                elim (Bool-cases (is_text "btcusdt@depth20@100ms" (get_field "stream" message))) [
                  | inl g ↦ rw (e, f, g) (depth-Follows kind fields received p)
                  | inr g ↦ rw (e, f, g) tt
                ]
          ]
        ]

  -- Over the messages of a connection, whichever they are and whichever of them are refused, the events of
  -- each of the three kinds have strictly rising identifiers, above the last one that the parser had seen.
  pub receive_all-Ascends :
      (kind : Kind) (messages : List Message) (c : Connection)
      → Ascends (last_id kind c.parser) (ids_of kind (receive_all str decimal messages c).0)
  unfolding receive_all receive
  receive_all-Ascends kind [] c = tt
  receive_all-Ascends kind (m ∷ messages) c =
      settle-Ascends kind c (receive_all str decimal messages (receive str decimal m c).1).0
        (parse str decimal m.body m.received.wall_ns m.received c.parser)
        (parse-Follows kind m.body m.received.wall_ns m.received c.parser)
        (receive_all-Ascends kind messages (receive str decimal m c).1)
