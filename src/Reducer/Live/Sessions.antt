-- ===== src/Reducer/Live/Sessions.antt =====
-- The gateway's snapshots after the end of a CLOB session.
use poly_market_btc_arbitrag.Prelude.{Option, none, some}
use poly_market_btc_arbitrag.State.Store.{StateStore}
use poly_market_btc_arbitrag.Reducer.Live.{Live}

-- The store behind the last event, if there is one, satisfies `P`.
abbrev pub EndsIn : (StateStore → Type 0) → Option StateStore → Type 0
EndsIn P none = Unit
EndsIn P (some st) = P st
