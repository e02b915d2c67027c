-- ===== src/Discovery.antt =====
-- market_discovery/: the windows of the markets, the checks of a payload, and the search for the next
-- market. Times are microseconds since the epoch, the resolution of `datetime`, in UTC.
pub mod Floats
pub mod Windows
pub mod Validation
pub mod Search
