-- ===== src/Json/Messages.antt =====
-- The messages of a connection as the loops of market_data/sources/ take them.
use poly_market_btc_arbitrag.Prelude.{ℕ, Option, none, some, List, ◌∷◌}
use poly_market_btc_arbitrag.Json.{Json}
use poly_market_btc_arbitrag.Models.Payloads.{MarketDataEvent}

-- The two arguments of a message's reception.
pub record Received : Type 0 where
  pub wall_ns : ℕ
  pub monotonic_ns : ℕ
  pub sequence : ℕ

-- A decoded message of the connection.
pub record Message : Type 0 where
  pub body : Json
  pub received : Received

abbrev pub emit : Option MarketDataEvent → List MarketDataEvent → List MarketDataEvent
emit none events = events
emit (some event) events = event ∷ events
