-- ===== src/Clob/Distinct.antt =====
-- The identifiers that a connection publishes.
use poly_market_btc_arbitrag.Prelude.{◌≡◌, String}
use poly_market_btc_arbitrag.Json.{Json}
use poly_market_btc_arbitrag.Clob.{ClobSource}
use poly_market_btc_arbitrag.Clob.Duplicates.{seen}
use poly_market_btc_arbitrag.Clob.Frames.{Frame}
use poly_market_btc_arbitrag.Clob.Follows.{Follows}

module _ (asset : String) where
  -- What the other tasks do before the frame leaves the asset's cache as it is.
  abbrev pub KeepsCache : Frame → Type 0
  KeepsCache frame = (source : ClobSource) → seen asset (frame.others source) ≡ seen asset source
