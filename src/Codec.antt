-- ===== src/Codec.antt =====
-- The events as JSON values, and back: `_jsonable`, `json_dumps` and `event_from_dict` of market_data/models.py.
pub mod Parts
pub mod Values
pub mod Enums
pub mod Write
pub mod Read
pub mod RoundTrip
