-- ===== src/Binance/Counts.antt =====
-- What becomes of each message of a connection.
use poly_market_btc_arbitrag.Prelude.{
  ℕ, suc, ◌+◌, ◌≡◌, refl, Option, none, some, List, [], ◌∷◌, String, length, arith,
}
use poly_market_btc_arbitrag.Decimals.{ℤ}
use poly_market_btc_arbitrag.Json.{Json}
use poly_market_btc_arbitrag.Json.Messages.{Message, emit}
use poly_market_btc_arbitrag.Models.Enums.{binance_spot}
use poly_market_btc_arbitrag.Models.Payloads.{MarketDataEvent}
use poly_market_btc_arbitrag.Health.{row, change, record_invalid}
use poly_market_btc_arbitrag.Binance.{Parser, Connection, settle, parse, receive, receive_all}

-- The messages that were counted as invalid.
unfoldable pub invalid : Connection → ℕ
invalid c = (row c.health binance_spot).invalid_count

settle-invalid :
    (c : Connection) (result : Option (MarketDataEvent × Parser)) (events : List MarketDataEvent)
    → suc (length events + invalid c)
      ≡ length (emit (settle c result).0 events) + invalid (settle c result).1
unfolding settle invalid record_invalid row change
settle-invalid c none events = omega arith
settle-invalid c (some (event, parser)) events = omega arith

module _ (str : Json → String) (decimal : String → Option ℤ) where
  -- Each message of a connection is published, or counted as invalid, and not both.
  pub receive_all-invalid :
      (messages : List Message) (c : Connection)
      → length messages + invalid c
        ≡ length (receive_all str decimal messages c).0
          + invalid (receive_all str decimal messages c).1
  unfolding receive_all receive
  receive_all-invalid [] c = refl
  receive_all-invalid (m ∷ messages) c =
      let result = parse str decimal m.body m.received.wall_ns m.received c.parser in
      let rest = receive_all-invalid messages (settle c result).1 in
      omega (
        arith,
        settle-invalid c result (receive_all str decimal messages (settle c result).1).0,
        rest,
      )
