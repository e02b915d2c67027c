-- ===== src/Clob/Levels/Order.antt =====
-- What the levels of a full book are like.
use poly_market_btc_arbitrag.Prelude.{
  ◌<◌, ◌≡◌, Bool, true, false, not, Option, some, List, [], map, String, nat_eq, eqb, All, All-mono,
  arith, subst, sym, Every, Every-bind, Every-require, Bool-cases, inl, inr,
}
use poly_market_btc_arbitrag.Decimals.{ℤ}
use poly_market_btc_arbitrag.Dict
use poly_market_btc_arbitrag.Dict.{Dict, keys, contains, set, Distinct}
use poly_market_btc_arbitrag.Dict.Laws.{set-Distinct, set-All, get-All}
use poly_market_btc_arbitrag.Json.{Json, Items, nil, cons, array}
use poly_market_btc_arbitrag.Json.Fields.{get_field, as_object, read_decimal, read_decimal-positive}
use poly_market_btc_arbitrag.Models.Payloads.{Decimal, PriceLevel}
use poly_market_btc_arbitrag.State.BookView.{levels_at, quantity_at}
use poly_market_btc_arbitrag.State.BookView.Order.{
  Falling, Rising, sort_desc-Falling, sort_asc-Rising, sort_desc-All, sort_asc-All, keys-get,
  prices-levels, levels-held,
}
use poly_market_btc_arbitrag.Clob.Levels.{add_row, sorted_prices, read_rows, book_levels}

abbrev IsPositive : Decimal × Decimal → Type 0
IsPositive row = (0 < row.0) × (0 < row.1)

-- The rows that were read: each price once, and all positive.
abbrev WellRows : Dict Decimal Decimal → Type 0
WellRows rows = Distinct (keys rows) × All IsPositive rows

abbrev InOrder : Bool → List Decimal → Type 0
InOrder true prices = Falling prices
InOrder false prices = Rising prices

-- The prices in strict order, and every price and quantity positive.
abbrev pub WellLevels : Bool → List PriceLevel → Type 0
WellLevels descending levels =
    InOrder descending (map (λ l. l.price) levels)
    × All (λ l. (0 < l.price) × (0 < l.quantity)) levels

add_row-WellRows :
    (price quantity : Decimal) (rows : Dict Decimal Decimal)
    → 0 < price
    → WellRows rows
    → WellRows (add_row price quantity rows)
add_row-WellRows price quantity rows positive w = elim (Bool-cases (eqb quantity 0)) [
  | inl e ↦ rw e w
  | inr e ↦ rw e (
    set-Distinct price quantity rows w.0,
    set-All IsPositive price quantity rows (positive, ground arith) w.1,
  )
]

sorted_prices-InOrder :
    (descending : Bool) (prices : List Decimal)
    → Distinct prices
    → InOrder descending (sorted_prices descending prices)
sorted_prices-InOrder true prices d = sort_desc-Falling prices d
sorted_prices-InOrder false prices d = sort_asc-Rising prices d

sorted_prices-All :
    (P : Decimal → Type 0) (descending : Bool) (prices : List Decimal)
    → All P prices
    → All P (sorted_prices descending prices)
sorted_prices-All P true prices a = sort_desc-All P prices a
sorted_prices-All P false prices a = sort_asc-All P prices a

levels_at-WellLevels :
    (descending : Bool) (rows : Dict Decimal Decimal)
    → WellRows rows
    → WellLevels descending (levels_at rows (sorted_prices descending (keys rows)))
levels_at-WellLevels descending rows w =
    let prices = sorted_prices descending (keys rows) in
    let held = levels-held rows prices (
      sorted_prices-All (λ price. Dict.get price rows ≡ some (quantity_at rows price)) descending
        (keys rows) (keys-get rows)) in
    (
      subst (InOrder descending) (sym (prices-levels rows prices))
          (sorted_prices-InOrder descending (keys rows) w.0),
      All-mono (λ l h. get-All IsPositive l.price l.quantity rows w.1 h) (levels_at rows prices)
          held,
    )

module _ (str : Json → String) (decimal : String → Option ℤ) where
  read_rows-WellRows :
      (items : Items) (rows : Dict Decimal Decimal)
      → WellRows rows
      → Every WellRows (read_rows str decimal items rows)
  unfolding read_rows
  read_rows-WellRows nil rows w = w
  read_rows-WellRows (cons item items) rows w =
      Every-bind WellRows (as_object (some item)) _ λ fields _.
        Every-bind WellRows (read_decimal str decimal true (get_field "price" fields)) _ λ price e.
          Every-bind WellRows (read_decimal str decimal false (get_field "size" fields)) _
            λ quantity _. Every-require WellRows (not (contains price (keys rows))) _ λ _.
              read_rows-WellRows items (add_row price quantity rows) (
                add_row-WellRows price quantity rows
                  (subst (Every (λ n. 0 < n)) e
                    (read_decimal-positive str decimal (get_field "price" fields)))
                  w)

  -- Whatever rows a full book has, the levels that are made of one of its sides have strictly falling prices
  -- for the bids and strictly rising ones for the asks, and every price and quantity is positive.
  pub book_levels-WellLevels :
      (descending : Bool) (value : Option Json)
      → Every (WellLevels descending) (book_levels str decimal descending value)
  unfolding book_levels
  book_levels-WellLevels descending (some (array items)) =
      Every-bind (WellLevels descending) (read_rows str decimal items []) _ λ rows e.
        levels_at-WellLevels descending rows
          (subst (Every WellRows) e (read_rows-WellRows items [] (tt, tt)))
  book_levels-WellLevels descending _ = tt
