-- ===== src/Clob/Levels.antt =====
-- `_book_levels` of market_data/sources/polymarket_clob.py.
pub mod Order
use poly_market_btc_arbitrag.Prelude.{
  ℕ, suc, Bool, true, false, not, Option, none, some, List, [], String, ◌==◌, nat_eq, eqb,
  if◌then◌else◌, ◌>>=◌, ◌>>◌, require,
}
use poly_market_btc_arbitrag.Decimals.{ℤ}
use poly_market_btc_arbitrag.Dict.{Dict, keys, contains, set}
use poly_market_btc_arbitrag.Json.{Json, Items, nil, cons, array}
use poly_market_btc_arbitrag.Json.Fields.{get_field, as_object, read_decimal}
use poly_market_btc_arbitrag.Models.Payloads.{Decimal, PriceLevel}
use poly_market_btc_arbitrag.State.BookView.{sort_desc, sort_asc, levels_at}

-- A row without a quantity is left out.
abbrev pub add_row : Decimal → Decimal → Dict Decimal Decimal → Dict Decimal Decimal
add_row price quantity result = if eqb quantity 0 then result else set price quantity result

-- `sorted(result, reverse=name == "bids")`
abbrev pub sorted_prices : Bool → List Decimal → List Decimal
sorted_prices descending prices = if descending then sort_desc prices else sort_asc prices

module _ (str : Json → String) (decimal : String → Option ℤ) where
  -- The loop over the rows, with the dictionary that it fills.
  unfoldable pub read_rows : Items → Dict Decimal Decimal → Option (Dict Decimal Decimal)
  read_rows nil result = some result
  read_rows (cons row rows) result = do
    fields ← as_object (some row)
    price ← read_decimal str decimal true (get_field "price" fields)
    quantity ← read_decimal str decimal false (get_field "size" fields)
    require (not (contains price (keys result)))
    read_rows rows (add_row price quantity result)

  -- `_book_levels`; the bids have falling prices
  unfoldable pub book_levels : Bool → Option Json → Option (List PriceLevel)
  book_levels descending (some (array rows)) = do
    result ← read_rows rows []
    some (levels_at result (sorted_prices descending (keys result)))
  book_levels descending _ = none
