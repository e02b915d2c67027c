-- ===== src/Discovery/Windows/Bounds.antt =====
-- The window that a time falls into.
use poly_market_btc_arbitrag.Prelude.{ℕ, ◌+◌, ◌*◌, ◌%◌, ◌≤◌, ◌<◌, ◌≡◌, arith}
use poly_market_btc_arbitrag.Models.Enums.{
  Timeframe, five_minutes, fifteen_minutes, duration_seconds,
}
use poly_market_btc_arbitrag.Discovery.Windows.{floor_to_window_start}

-- The start that is computed of a time is a multiple of the timeframe's duration, and the time lies in the
-- window from it, which lasts the duration.
pub floor_to_window_start-bounds :
    (now : ℕ) (timeframe : Timeframe)
    → (floor_to_window_start now timeframe ≤ now)
      × (now < floor_to_window_start now timeframe + duration_seconds timeframe * 1000000)
      × (floor_to_window_start now timeframe % (duration_seconds timeframe * 1000000) ≡ 0)
unfolding floor_to_window_start duration_seconds
floor_to_window_start-bounds now five_minutes = (omega arith, omega arith, omega arith)
floor_to_window_start-bounds now fifteen_minutes = (omega arith, omega arith, omega arith)
