-- ===== src/Tests/FeedTests.antt =====
-- Tests of the parsers of the sources.
use poly_market_btc_arbitrag.Prelude.{
  ℕ, ◌+◌, ◌≤◌, ◌≡◌, refl, true, none, some, Option, List, [], ◌∷◌, arith, is_some, String, eqb,
  ◌==◌, string_eq, length, if◌then◌else◌,
}
use poly_market_btc_arbitrag.Decimals.{ℤ, pos}
use poly_market_btc_arbitrag.Json.{
  Json, object, array, text, integer, boolean, entry, end, cons, nil,
}
use poly_market_btc_arbitrag.Json.Fields.{get_field, entry_of, positive_int, parse_decimal}
use poly_market_btc_arbitrag.Json.Messages.{Received, Message}
use poly_market_btc_arbitrag.Dict.{contains, set}
use poly_market_btc_arbitrag.Health.{new_registry}
use poly_market_btc_arbitrag.Binance.{
  Parser, Connection, settle, parse, receive, agg_trade, receive_all,
}
use poly_market_btc_arbitrag.Binance.Payloads.{Well, parse-Well}
use poly_market_btc_arbitrag.Binance.Order.{trades, Ascends, ids_of, last_id, receive_all-Ascends}
use poly_market_btc_arbitrag.Clob.Levels.{read_rows, book_levels}
use poly_market_btc_arbitrag.Chainlink as Rtds
use poly_market_btc_arbitrag.Chainlink.{RtdsSource, seen_limit}
use poly_market_btc_arbitrag.Chainlink.Order.{Published, receive_all-Published}
use poly_market_btc_arbitrag.Chainlink.Counts.{refused, receive_all-refused}

-- Texts of a few values, and the decimals of a few texts.
abbrev show : Json → String
show (text s) = s
show (integer (pos n)) = if eqb n 7 then "7" else "8"
show _ = "other"

abbrev read : String → Option ℤ
read s = if s == "7" then some (pos 7) else if s == "8" then some (pos 8) else none

abbrev received : ℕ → Received
received sequence = record { wall_ns = 9000000000; monotonic_ns = 5; sequence = sequence }

abbrev number : ℕ → Json
number n = integer (pos n)

abbrev row_of : String → Json
row_of price = array (cons (text price) (cons (text "7") nil))

abbrev depth_message : ℕ → Json
depth_message id = object (
    entry "stream" (text "btcusdt@depth20@100ms") (
      entry "data"
        (object (
          entry "lastUpdateId" (number id) (
            entry "bids" (array (cons (row_of "7") nil))
              (entry "asks" (array (cons (row_of "8") nil)) end))))
        end))

abbrev trade_message : ℕ → Json
trade_message id = object (
    entry "stream" (text "btcusdt@aggTrade") (
      entry "data"
        (object (
          entry "e" (text "aggTrade") (
            entry "s" (text "BTCUSDT") (
              entry "a" (number id) (
                entry "f" (number 1) (
                  entry "l" (number 2) (
                    entry "E" (number 3) (
                      entry "T" (number 3) (
                        entry "m" (boolean true)
                          (entry "p" (text "7") (entry "q" (text "8") end)))))))))))
        end))

abbrev parser : Parser
parser = record {
  session_id = "session";
  timestamp_multiplier = 1000;
  last_agg_trade_id = some 4;
  last_book_update_id = none;
  last_depth_update_id = none;
}

abbrev connection : Connection
connection = record { parser = parser; health = new_registry "now" }

parse-Well_example : Well show read (parse show read (depth_message 3) 9 (received 1) parser)
parse-Well_example = parse-Well show read (depth_message 3) 9 (received 1) parser

-- The second trade comes again, and is refused.
abbrev messages : List Message
messages =
    record { body = trade_message 7; received = received 1 }
    ∷ record { body = trade_message 8; received = received 2 }
    ∷ record { body = trade_message 8; received = received 3 }
    ∷ []

two_trades : length (receive_all show read messages connection).0 ≡ 2
unfolding receive_all receive settle parse get_field entry_of agg_trade positive_int parse_decimal
two_trades = refl

receive_all-Ascends_example :
    Ascends (last_id trades parser) (ids_of trades (receive_all show read messages connection).0)
receive_all-Ascends_example = receive_all-Ascends show read trades messages connection

abbrev price_message : ℕ → Json
price_message time = object (
    entry "topic" (text "crypto_prices_chainlink") (
      entry "type" (text "update") (
        entry "timestamp" (number time) (
          entry "payload"
            (object (
              entry "symbol" (text "btc/usd")
                (entry "timestamp" (number time) (entry "value" (text "7") end))))
            end))))

abbrev rtds_source : RtdsSource
rtds_source = record {
  last_source_ns = some 5000000;
  seen = "chainlink:6:6" ∷ [];
  health = new_registry "now";
}

-- A new price, the same again, and one that is too old.
abbrev prices : List Message
prices =
    record { body = price_message 7; received = received 1 }
    ∷ record { body = price_message 7; received = received 2 }
    ∷ record { body = price_message 4; received = received 3 }
    ∷ []

receive_all-Published_example :
    Published rtds_source.last_source_ns (Rtds.receive_all show read prices rtds_source).0
receive_all-Published_example = receive_all-Published show read prices rtds_source

-- The first price is published.
one_price : length (Rtds.receive_all show read prices rtds_source).0 ≡ 1
unfolding Rtds.forget Rtds.receive_all Rtds.receive Rtds.accept Rtds.parse_chainlink_message
    get_field entry_of positive_int parse_decimal contains
one_price = refl

receive_all-refused_example :
    (length prices + refused rtds_source
      ≡ length (Rtds.receive_all show read prices rtds_source).0
        + refused (Rtds.receive_all show read prices rtds_source).1)
    × (length (Rtds.receive_all show read prices rtds_source).1.seen ≤ seen_limit)
receive_all-refused_example = receive_all-refused show read prices rtds_source (omega arith)

abbrev size_row : String → Json
size_row price = object (entry "price" (text price) (entry "size" (text "7") end))

abbrev side : Json
side = array (cons (size_row "8") (cons (size_row "7") nil))

two_levels : is_some (book_levels show read true (some side)) ≡ true
unfolding book_levels read_rows get_field entry_of parse_decimal contains set
two_levels = refl
