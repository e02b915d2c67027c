-- ===== src/Binance/Payloads.antt =====
-- What the payload of every event that the parser makes is like.
use poly_market_btc_arbitrag.Prelude.{
  ℕ, ◌+◌, ◌*◌, ◌≤◌, ◌<◌, ◌≡◌, Bool, true, false, not, Option, some, List, [], ◌∷◌, String, nat_eq,
  leb, ltb, length, arith, Every, Every-bind, Every-require, Bool-cases, inl, inr, subst, refl,
}
use poly_market_btc_arbitrag.Decimals.{ℤ}
use poly_market_btc_arbitrag.Dict.{contains}
use poly_market_btc_arbitrag.Json.{Json, Items, nil, cons, array}
use poly_market_btc_arbitrag.Json.Fields.{
  as_object, read_decimal, read_decimal-positive, get_field, positive_int, is_text,
}
use poly_market_btc_arbitrag.Models.Payloads.{
  Decimal, PriceLevel, EventPayload, MarketDataEvent, binance_agg_trade, binance_book_ticker,
  binance_depth20,
}
use poly_market_btc_arbitrag.Json.Messages.{Received}
use poly_market_btc_arbitrag.Binance.{
  Parser, is_sorted, is_increasing, as_bool, best_price, read_level, read_levels, levels,
  common_event, agg_trade, book_ticker, depth, parse,
}
use poly_market_btc_arbitrag.Binance.Sides.{
  Falls, Rises, WellSide, distinct_prices, sorted-Falls, sorted-Rises,
}

-- A trade's identifiers are in order; a ticker does not cross; the sides of a depth have one to twenty
-- levels in strict price order, and do not cross.
abbrev pub WellPayload : EventPayload → Type 0
WellPayload (binance_agg_trade t) =
    (t.first_trade_id ≤ t.last_trade_id) × (0 < t.price) × (0 < t.quantity)
WellPayload (binance_book_ticker t) = t.best_bid_price < t.best_ask_price
WellPayload (binance_depth20 d) =
    WellSide Falls d.bids × WellSide Rises d.asks × (best_price d.bids < best_price d.asks)
WellPayload _ = ⊥

abbrev pub WellResult : MarketDataEvent × Parser → Type 0
WellResult result = WellPayload result.0.payload

module _ (str : Json → String) (decimal : String → Option ℤ) where
  read_levels-distinct :
      (seen : List Decimal) (rows : Items)
      → Every (λ found. distinct_prices seen found ≡ true) (read_levels str decimal seen rows)
  unfolding read_levels distinct_prices
  read_levels-distinct seen nil = ground arith
  read_levels-distinct seen (cons row rows) = Every-bind _ (read_level str decimal row) _ λ level _.
      Every-require _ (not (contains level.price seen)) _ λ new.
        Every-bind _ (read_levels str decimal (level.price ∷ seen) rows) _ λ rest e.
          let tail : distinct_prices (level.price ∷ seen) rest ≡ true =
            subst (Every (λ found. distinct_prices (level.price ∷ seen) found ≡ true)) e
              (read_levels-distinct (level.price ∷ seen) rows) in
          rw (new, tail) refl

  levels-WellSide :
      (descending : Bool) (InOrder : List PriceLevel → Type 0)
      → ((found : List PriceLevel)
          → distinct_prices [] found ≡ true
          → is_sorted descending found ≡ true
          → InOrder found)
      → (value : Option Json) → Every (WellSide InOrder) (levels str decimal descending value)
  unfolding levels
  levels-WellSide descending InOrder order (some (array rows)) =
      Every-bind _ (read_levels str decimal [] rows) _ λ found e.
        Every-require _ (leb 1 (length found)) _ λ few.
          Every-require _ (leb (length found) 20) _ λ many.
            Every-require _ (is_sorted descending found) _ λ sorted.
              let distinct : distinct_prices [] found ≡ true =
                subst (Every (λ found. distinct_prices [] found ≡ true)) e
                  (read_levels-distinct [] rows) in
              (ground arith, ground arith, order found distinct sorted)
  levels-WellSide descending InOrder order _ = tt

  -- The result is an event with such a payload, if there is one.
  abbrev pub Well : Option (MarketDataEvent × Parser) → Type 0
  Well = Every WellResult

  agg_trade-Well :
      (fields : Json) (now : ℕ) (received : Received) (p : Parser)
      → Well (agg_trade str decimal fields now received p)
  unfolding agg_trade common_event
  agg_trade-Well fields now received p =
      Every-require WellResult (is_text "aggTrade" (get_field "e" fields)) _ λ _.
        Every-require WellResult (is_text "BTCUSDT" (get_field "s" fields)) _ λ _.
          Every-bind WellResult (positive_int (get_field "a" fields)) _ λ id _.
            Every-require WellResult (is_increasing p.last_agg_trade_id id) _ λ _.
              Every-bind WellResult (positive_int (get_field "f" fields)) _ λ first_id _.
                Every-bind WellResult (positive_int (get_field "l" fields)) _ λ last_id _.
                  Every-require WellResult (leb first_id last_id) _ λ ordered.
                    Every-bind WellResult (positive_int (get_field "E" fields)) _ λ _ _.
                      Every-bind WellResult (positive_int (get_field "T" fields)) _ λ trade_time _.
                        Every-require WellResult
                          (leb (trade_time * p.timestamp_multiplier) (now + 5000000000)) _
                          λ _. Every-bind WellResult (as_bool (get_field "m" fields)) _ λ _ _.
                            Every-bind WellResult
                              (read_decimal str decimal true (get_field "p" fields)) _
                              λ price e.
                                Every-bind WellResult
                                  (read_decimal str decimal true (get_field "q" fields)) _
                                  λ quantity f. (
                                    ground arith,
                                    subst (Every (λ n. 0 < n)) e
                                        (read_decimal-positive str decimal (get_field "p" fields)),
                                    subst (Every (λ n. 0 < n)) f
                                        (read_decimal-positive str decimal (get_field "q" fields)),
                                  )

  book_ticker-Well :
      (fields : Json) (received : Received) (p : Parser)
      → Well (book_ticker str decimal fields received p)
  unfolding book_ticker common_event
  book_ticker-Well fields received p =
      Every-require WellResult (is_text "BTCUSDT" (get_field "s" fields)) _ λ _.
        Every-bind WellResult (positive_int (get_field "u" fields)) _ λ id _.
          Every-require WellResult (is_increasing p.last_book_update_id id) _ λ _.
            Every-bind WellResult (read_decimal str decimal true (get_field "b" fields)) _ λ bid _.
              Every-bind WellResult (read_decimal str decimal true (get_field "a" fields)) _
                λ ask _.
                  Every-bind WellResult (read_decimal str decimal false (get_field "B" fields)) _
                    λ _ _.
                      Every-bind WellResult (read_decimal str decimal false (get_field "A" fields))
                        _ λ _ _. Every-require WellResult (ltb bid ask) _ λ uncrossed. ground arith

  depth-Well :
      (fields : Json) (received : Received) (p : Parser)
      → Well (depth str decimal fields received p)
  unfolding depth common_event
  depth-Well fields received p =
      Every-bind WellResult (positive_int (get_field "lastUpdateId" fields)) _ λ id _.
        Every-require WellResult (is_increasing p.last_depth_update_id id) _ λ _.
          Every-bind WellResult (levels str decimal true (get_field "bids" fields)) _ λ bids e.
            Every-bind WellResult (levels str decimal false (get_field "asks" fields)) _ λ asks f.
              Every-require WellResult (ltb (best_price bids) (best_price asks)) _ λ uncrossed. (
                subst (Every (WellSide Falls)) e
                    (levels-WellSide true Falls (sorted-Falls []) (get_field "bids" fields)),
                subst (Every (WellSide Rises)) f
                    (levels-WellSide false Rises (sorted-Rises []) (get_field "asks" fields)),
                ground arith,
              )

  -- Every event that the parser makes has a payload of one of the three kinds, that is well formed: a trade
  -- has positive price and quantity and its identifiers are in order, a ticker does not cross, and a depth
  -- has on each side one to twenty levels in strict price order and does not cross.
  pub parse-Well :
      (message : Json) (now : ℕ) (received : Received) (p : Parser)
      → Well (parse str decimal message now received p)
  unfolding parse
  parse-Well message now received p =
      Every-bind WellResult (as_object (get_field "data" message)) _ λ fields _.
        elim (Bool-cases (is_text "btcusdt@aggTrade" (get_field "stream" message))) [
          | inl e ↦ rw e (agg_trade-Well fields now received p)
          | inr e ↦ elim (Bool-cases (is_text "btcusdt@bookTicker" (get_field "stream" message))) [
            | inl f ↦ rw (e, f) (book_ticker-Well fields received p)
            | inr f ↦
                elim (Bool-cases (is_text "btcusdt@depth20@100ms" (get_field "stream" message))) [
                  | inl g ↦ rw (e, f, g) (depth-Well fields received p)
                  | inr g ↦ rw (e, f, g) tt
                ]
          ]
        ]
