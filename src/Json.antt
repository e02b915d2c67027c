-- ===== src/Json.antt =====
-- Decoded JSON messages, as the sources read them.
pub mod Fields
pub mod Messages
use poly_market_btc_arbitrag.Prelude.{
  ℕ, Bool, true, false, Option, none, some, String, ◌==◌, string_eq, if◌then◌else◌,
}
use poly_market_btc_arbitrag.Decimals.{ℤ}

-- A number with a fraction or an exponent is known by its text.
mutual
  pub data Json : Type 0 where
    null : Json
    boolean : Bool → Json
    integer : ℤ → Json
    real : String → Json
    text : String → Json
    array : Items → Json
    object : Entries → Json

  pub data Items : Type 0 where
    nil : Items
    cons : Json → Items → Items

  pub data Entries : Type 0 where
    end : Entries
    entry : String → Json → Entries → Entries
