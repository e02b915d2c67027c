-- ===== src/State.antt =====
-- market_data/state.py: the store that the reducer writes.
pub mod Identity
pub mod Book
pub mod Rolling
pub mod Store
pub mod BookView
pub mod BinanceView
pub mod Contexts
pub mod View
