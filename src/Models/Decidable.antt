-- ===== src/Models/Decidable.antt =====
-- Equality of events can be decided.
use native.Mathlib.Decide.{ℕ_discrete}
use mathlib.Core.List.{List-discrete}
use poly_market_btc_arbitrag.Prelude.{String, string_eq, ◌==◌, Bool-cases, inl, inr, arith}
use poly_market_btc_arbitrag.Models.Enums.{EventSource}
use poly_market_btc_arbitrag.Models.Payloads.{
  PriceLevel, MarketDataEvent, EventPayload, SourceHealthSnapshot, MarketWindowPayload,
}

pub String-discrete : Discrete String
String-discrete a b = elim (Bool-cases (a == b)) [
  | inl e ↦ yes ((string_eq.equals_iff a b).0 e)
  | inr e ↦ no λ same. ground (arith, string_eq.equals_iff a b)
]

PriceLevel-discrete : Discrete PriceLevel
PriceLevel-discrete = hlevel ℕ_discrete

SourceHealthSnapshot-discrete : Discrete SourceHealthSnapshot
SourceHealthSnapshot-discrete = hlevel (ℕ_discrete, String-discrete)

health_row-discrete : Discrete (EventSource × SourceHealthSnapshot)
health_row-discrete = hlevel SourceHealthSnapshot-discrete

MarketWindowPayload-discrete : Discrete MarketWindowPayload
MarketWindowPayload-discrete = hlevel (ℕ_discrete, String-discrete)

EventPayload-discrete : Discrete EventPayload
EventPayload-discrete = hlevel (
  ℕ_discrete,
  String-discrete,
  MarketWindowPayload-discrete,
  List-discrete PriceLevel-discrete,
  List-discrete health_row-discrete,
  List-discrete String-discrete,
)

pub MarketDataEvent-discrete : Discrete MarketDataEvent
MarketDataEvent-discrete = hlevel (ℕ_discrete, String-discrete, EventPayload-discrete)
