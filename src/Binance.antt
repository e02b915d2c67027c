-- ===== src/Binance.antt =====
-- `BinanceMessageParser` and the loop of `BinanceSpotSource` in market_data/sources/binance_spot.py.
-- Python's `str` of a decoded value, and the reading of a text as a decimal of the common place, are
-- parameters.
pub mod Sides
pub mod Payloads
pub mod Order
pub mod Counts
use Prim.Native.String.{◌++◌ as str_append}
use poly_market_btc_arbitrag.Prelude.{
  ℕ, suc, ◌+◌, ◌*◌, Bool, true, false, not, ◌&&◌, Option, none, some, List, [], ◌∷◌, String, ◌==◌,
  nat_eq, string_eq, ltb, leb, eqb, length, if◌then◌else◌, ◌>>=◌, ◌>>◌, require,
}
use poly_market_btc_arbitrag.Decimals.{ℤ, pos}
use poly_market_btc_arbitrag.Dict.{contains}
use poly_market_btc_arbitrag.Json.{Json, boolean, integer, array, object, Items, nil, cons}
use poly_market_btc_arbitrag.Json.Fields.{get_field, is_text, positive_int, as_object, read_decimal}
use poly_market_btc_arbitrag.Json.Messages.{Received, Message, emit}
use poly_market_btc_arbitrag.Health.{HealthRegistry, record_invalid}
use poly_market_btc_arbitrag.Models.Enums.{EventSource, binance_spot, TakerSide, buy, sell}
use poly_market_btc_arbitrag.Models.Payloads.{
  Decimal, PriceLevel, EventPayload, MarketDataEvent, binance_agg_trade, binance_book_ticker,
  binance_depth20,
}

pub record Parser : Type 0 where
  pub session_id : String
  pub timestamp_multiplier : ℕ
  pub last_agg_trade_id : Option ℕ
  pub last_book_update_id : Option ℕ
  pub last_depth_update_id : Option ℕ

-- `BinanceMessageParser(...)`, or an error where the unit is unknown
unfoldable pub new_parser : String → String → Option Parser
new_parser session unit = do
  require (if unit == "microsecond" then true else unit == "millisecond")
  some (record {
    session_id = session;
    timestamp_multiplier = if unit == "microsecond" then 1000 else 1000000;
    last_agg_trade_id = none;
    last_book_update_id = none;
    last_depth_update_id = none;
  })

-- Whether an identifier is above the last one, if there was one.
abbrev pub is_increasing : Option ℕ → ℕ → Bool
is_increasing none id = true
is_increasing (some last) id = ltb last id

-- The parser of a connection, and the registry that the source shares.
pub record Connection : Type 0 where
  pub parser : Parser
  pub health : HealthRegistry

-- What the loop of the source does with a result: an error is counted.
unfoldable pub settle :
    Connection → Option (MarketDataEvent × Parser) → Option MarketDataEvent × Connection
settle c none = (none, record c { health = record_invalid binance_spot c.health })
settle c (some (event, parser)) = (some event, record c { parser = parser })

abbrev pub as_bool : Option Json → Option Bool
as_bool (some (boolean b)) = some b
as_bool _ = none

-- Whether each price stands behind the one before it.
abbrev pub next_in_order : Bool → Decimal → List PriceLevel → Bool
next_in_order descending price [] = true
next_in_order descending price (level ∷ levels) =
    if descending then leb level.price price else leb price level.price

-- `levels == sorted(levels, ...)`: a list is its own sort when neighbours are in order.
unfoldable pub is_sorted : Bool → List PriceLevel → Bool
is_sorted descending [] = true
is_sorted descending (level ∷ levels) =
    next_in_order descending level.price levels && is_sorted descending levels

abbrev pub best_price : List PriceLevel → Decimal
best_price [] = 0
best_price (level ∷ _) = level.price

module _ (str : Json → String) (decimal : String → Option ℤ) where
  -- One row of `_levels`: a list of two.
  unfoldable pub read_level : Json → Option PriceLevel
  read_level (array (cons price (cons quantity nil))) = do
    p ← read_decimal str decimal true (some price)
    q ← read_decimal str decimal true (some quantity)
    some (record { price = p; quantity = q })
  read_level _ = none

  -- The loop, with the prices that were seen.
  unfoldable pub read_levels : List Decimal → Items → Option (List PriceLevel)
  read_levels seen nil = some []
  read_levels seen (cons row rows) = do
    level ← read_level row
    require (not (contains level.price seen))
    rest ← read_levels (level.price ∷ seen) rows
    some (level ∷ rest)

  -- `_levels`; for the bids it wants falling prices
  unfoldable pub levels : Bool → Option Json → Option (List PriceLevel)
  levels descending (some (array rows)) = do
    found ← read_levels [] rows
    require (leb 1 (length found))
    require (leb (length found) 20)
    require (is_sorted descending found)
    some found
  levels descending _ = none

  -- The event with the fields in `common`.
  unfoldable pub common_event :
      Received → String → Option ℕ → Option ℕ → ℕ → EventPayload → MarketDataEvent
  common_event received id source_ns server_ns sequence payload = record {
    schema_version = 2;
    ingest_sequence = received.sequence;
    event_id = id;
    source = binance_spot;
    instrument = "BTCUSDT";
    source_timestamp_ns = source_ns;
    server_timestamp_ns = server_ns;
    received_wall_timestamp_ns = received.wall_ns;
    received_monotonic_ns = received.monotonic_ns;
    source_sequence = some (str (integer (pos sequence)));
    timeframe = none;
    market_id = none;
    condition_id = none;
    asset_id = none;
    outcome = none;
    payload = payload;
    source_session_id = none;
  }

  abbrev pub identifier : String → ℕ → String
  identifier prefix id = str_append prefix (str (integer (pos id)))

  -- `_agg_trade`
  unfoldable pub agg_trade : Json → ℕ → Received → Parser → Option (MarketDataEvent × Parser)
  agg_trade fields now received p = do
    require (is_text "aggTrade" (get_field "e" fields))
    require (is_text "BTCUSDT" (get_field "s" fields))
    id ← positive_int (get_field "a" fields)
    require (is_increasing p.last_agg_trade_id id)
    first_id ← positive_int (get_field "f" fields)
    last_id ← positive_int (get_field "l" fields)
    require (leb first_id last_id)
    event_time ← positive_int (get_field "E" fields)
    trade_time ← positive_int (get_field "T" fields)
    require (leb (trade_time * p.timestamp_multiplier) (now + 5000000000))
    maker ← as_bool (get_field "m" fields)
    price ← read_decimal str decimal true (get_field "p" fields)
    quantity ← read_decimal str decimal true (get_field "q" fields)
    some (
      common_event received (identifier "binance:aggTrade:BTCUSDT:" id)
          (some (trade_time * p.timestamp_multiplier)) (some (event_time * p.timestamp_multiplier))
          id
          (binance_agg_trade (record {
            symbol = "BTCUSDT";
            aggregate_trade_id = id;
            price = price;
            quantity = quantity;
            first_trade_id = first_id;
            last_trade_id = last_id;
            trade_timestamp_ns = trade_time * p.timestamp_multiplier;
            taker_side = if maker then sell else buy;
          })),
      record p { last_agg_trade_id = some id },
    )

  -- `_book_ticker`
  unfoldable pub book_ticker : Json → Received → Parser → Option (MarketDataEvent × Parser)
  book_ticker fields received p = do
    require (is_text "BTCUSDT" (get_field "s" fields))
    id ← positive_int (get_field "u" fields)
    require (is_increasing p.last_book_update_id id)
    bid ← read_decimal str decimal true (get_field "b" fields)
    ask ← read_decimal str decimal true (get_field "a" fields)
    bid_quantity ← read_decimal str decimal false (get_field "B" fields)
    ask_quantity ← read_decimal str decimal false (get_field "A" fields)
    require (ltb bid ask)
    some (
      common_event received
          (identifier (str_append "binance:bookTicker:BTCUSDT:" (str_append p.session_id ":")) id)
          none none id
          (binance_book_ticker (record {
            symbol = "BTCUSDT";
            update_id = id;
            best_bid_price = bid;
            best_bid_quantity = bid_quantity;
            best_ask_price = ask;
            best_ask_quantity = ask_quantity;
          })),
      record p { last_book_update_id = some id },
    )

  -- `_depth`
  unfoldable pub depth : Json → Received → Parser → Option (MarketDataEvent × Parser)
  depth fields received p = do
    id ← positive_int (get_field "lastUpdateId" fields)
    require (is_increasing p.last_depth_update_id id)
    bids ← levels true (get_field "bids" fields)
    asks ← levels false (get_field "asks" fields)
    require (ltb (best_price bids) (best_price asks))
    some (
      common_event received
          (identifier (str_append "binance:depth20:BTCUSDT:" (str_append p.session_id ":")) id) none
          none id
          (binance_depth20
            (record { symbol = "BTCUSDT"; last_update_id = id; bids = bids; asks = asks })),
      record p { last_depth_update_id = some id },
    )

  -- `parse`: an error leaves the parser as it was.
  unfoldable pub parse : Json → ℕ → Received → Parser → Option (MarketDataEvent × Parser)
  parse message now received p = do
    fields ← as_object (get_field "data" message)
    if is_text "btcusdt@aggTrade" (get_field "stream" message)
        then agg_trade fields now received p
        else if is_text "btcusdt@bookTicker" (get_field "stream" message)
        then book_ticker fields received p
        else if is_text "btcusdt@depth20@100ms" (get_field "stream" message)
        then depth fields received p
        else none

  -- The body of the loop over the messages.
  unfoldable pub receive : Message → Connection → Option MarketDataEvent × Connection
  receive m c = settle c (parse m.body m.received.wall_ns m.received c.parser)

  -- The loop: the events that it publishes, and the connection after it.
  unfoldable pub receive_all : List Message → Connection → List MarketDataEvent × Connection
  receive_all [] c = ([], c)
  receive_all (m ∷ messages) c =
      let step = receive m c in
      let rest = receive_all messages step.1 in (emit step.0 rest.0, rest.1)
