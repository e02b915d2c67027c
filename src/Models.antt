-- ===== src/Models.antt =====
-- market_data/models.py: the data that the gateway's parts exchange.
--
-- A `Decimal` that the parsers accept is finite and not negative. It stands here as the number of units
-- of one fixed decimal place that is fine enough for every value, so that two decimals are equal, or in
-- order, when these numbers are. Timestamps are numbers of nanoseconds after the epoch.
pub mod Enums
pub mod Payloads
pub mod Decidable
pub mod Snapshots
