-- ===== src/Health/Rows.antt =====
-- The rows of the registry after a change of one of them.
use poly_market_btc_arbitrag.Prelude.{◌≡◌, ◌==◌, arith, if◌then◌else◌}
use poly_market_btc_arbitrag.Models.Enums.{EventSource, source_eq}
use poly_market_btc_arbitrag.Health.{SourceHealth, HealthRegistry, row, change}

pub row-change :
    (s t : EventSource) (f : SourceHealth → SourceHealth) (r : HealthRegistry)
    → row (change s f r) t ≡ (if s == t then f (row r t) else row r t)
unfolding row change
row-change s t f r = ground arith
