-- ===== src/Discovery/Floats.antt =====
-- The floating point of `int(delta.total_seconds() * 1000)` in market_discovery/transition.py, for a delta
-- that is not negative: both operations give the double nearest to the exact result.
use poly_market_btc_arbitrag.Prelude.{ℕ, zero, suc, ◌*◌, ◌/◌, ltb, if◌then◌else◌}
use poly_market_btc_arbitrag.Decimals.{round_half_even}

-- The double `mantissa / scale`, where the scale is a power of 2.
pub record Double : Type 0 where
  pub mantissa : ℕ
  pub scale : ℕ

-- The least power of 2 by which `a / b` comes to 2 ^ 52 or more, among those that the fuel reaches.
power : ℕ → ℕ → ℕ → ℕ
power zero a b = 1
power (suc fuel) a b =
    let more = 2 * power fuel (2 * a) b in if ltb a (4503599627370496 * b) then more else 1

-- The double of 53 bits nearest to `a / b`, half to even. 80 doublings are enough for a quotient of
-- 1 / 1000000 or more, and none is wanted from 2 ^ 52 seconds on, which no delta of Python's reaches.
unfoldable pub nearest : ℕ → ℕ → Double
unfolding power round_half_even
nearest a b =
    let scale = power 80 a b in
    record { mantissa = round_half_even (a * scale) b / b; scale = scale }

-- The milliseconds of so many microseconds.
unfoldable pub whole_milliseconds : ℕ → ℕ
whole_milliseconds microseconds =
    let seconds = nearest microseconds 1000000 in
    let product = nearest (seconds.mantissa * 1000) seconds.scale in
    product.mantissa / product.scale
