-- ===== src/Binance/Sides.antt =====
-- The sides of a depth message: what the levels of a side are like that is read.
use poly_market_btc_arbitrag.Prelude.{
  ◌≤◌, ◌<◌, ◌≡◌, Bool, true, false, not, ◌&&◌, List, [], ◌∷◌, nat_eq, leb, length, arith, All,
  if◌then◌else◌, ◌≢◌, All-mono, All-both, equals_refl,
}
use poly_market_btc_arbitrag.Dict.{contains}
use poly_market_btc_arbitrag.Models.Payloads.{Decimal, PriceLevel}
use poly_market_btc_arbitrag.Binance.{is_sorted, next_in_order, levels}

-- Strictly falling and strictly rising prices.
abbrev pub Falls : List PriceLevel → Type 0
Falls [] = Unit
Falls (level ∷ levels) = All (λ l. l.price < level.price) levels × Falls levels

abbrev pub Rises : List PriceLevel → Type 0
Rises [] = Unit
Rises (level ∷ levels) = All (λ l. level.price < l.price) levels × Rises levels

abbrev pub WellSide : (List PriceLevel → Type 0) → List PriceLevel → Type 0
WellSide InOrder side = (1 ≤ length side) × (length side ≤ 20) × InOrder side

unfoldable pub distinct_prices : List Decimal → List PriceLevel → Bool
distinct_prices seen [] = true
distinct_prices seen (level ∷ levels) =
    not (contains level.price seen) && distinct_prices (level.price ∷ seen) levels

pub apart :
    (seen : List Decimal) (levels : List PriceLevel) (p : Decimal)
    → contains p seen ≡ true
    → distinct_prices seen levels ≡ true
    → All (λ l. l.price ≢ p) levels
unfolding distinct_prices contains
apart seen [] p c d = tt
apart seen (level ∷ levels) p c d =
    let tail = apart (level.price ∷ seen) levels p in
    let differs : level.price ≢ p = λ e. ground arith in
    (differs, tail (ground arith) (ground arith))

module _ (descending : Bool) where
  -- Not in front of the price, in the order.
  abbrev pub Behind : Decimal → PriceLevel → Type 0
  Behind price l = (if descending then leb l.price price else leb price l.price) ≡ true

  pub behind :
      (price : Decimal) (levels : List PriceLevel)
      → next_in_order descending price levels ≡ true
      → is_sorted descending levels ≡ true
      → All (Behind price) levels
  unfolding is_sorted
  behind price [] n s = tt
  behind price (level ∷ levels) n s =
      let tail = behind level.price levels (ground arith) (ground arith) in
      (n, All-mono (λ l h. ground arith) levels tail)

pub strictly_below :
    (price : Decimal) (levels : List PriceLevel)
    → All (Behind true price) levels
    → All (λ l. l.price ≢ price) levels
    → All (λ l. l.price < price) levels
strictly_below price levels b a = All-both (λ l h k. ground arith) levels b a

pub strictly_above :
    (price : Decimal) (levels : List PriceLevel)
    → All (Behind false price) levels
    → All (λ l. l.price ≢ price) levels
    → All (λ l. price < l.price) levels
strictly_above price levels b a = All-both (λ l h k. ground arith) levels b a

pub sorted-Falls :
    (seen : List Decimal) (levels : List PriceLevel)
    → distinct_prices seen levels ≡ true
    → is_sorted true levels ≡ true
    → Falls levels
unfolding distinct_prices is_sorted contains
sorted-Falls seen [] d s = tt
sorted-Falls seen (level ∷ levels) d s = (
  strictly_below level.price levels (behind true level.price levels (ground arith) (ground arith)) (
      apart (level.price ∷ seen) levels level.price (ground (arith, equals_refl level.price))
        (ground arith)),
  sorted-Falls (level.price ∷ seen) levels (ground arith) (ground arith),
)

pub sorted-Rises :
    (seen : List Decimal) (levels : List PriceLevel)
    → distinct_prices seen levels ≡ true
    → is_sorted false levels ≡ true
    → Rises levels
unfolding distinct_prices is_sorted contains
sorted-Rises seen [] d s = tt
sorted-Rises seen (level ∷ levels) d s = (
  strictly_above level.price levels (behind false level.price levels (ground arith) (ground arith))
      (apart (level.price ∷ seen) levels level.price (ground (arith, equals_refl level.price))
        (ground arith)),
  sorted-Rises (level.price ∷ seen) levels (ground arith) (ground arith),
)
