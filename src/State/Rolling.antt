-- ===== src/State/Rolling.antt =====
-- `_RollingAccumulator` of market_data/state.py: sums over the trades of the last seconds, kept up by
-- adding what comes and subtracting what leaves. A sum is rounded as the decimal context rounds it.
pub mod Sums
pub mod Windows
use poly_market_btc_arbitrag.Prelude.{
  ℕ, ◌-◌, ◌*◌, Bool, true, false, none, some, List, [], ◌∷◌, ◌++◌, ltb, if◌then◌else◌,
}
use poly_market_btc_arbitrag.Decimals.{ℤ, pos, ◌+ℤ◌, ◌-ℤ◌, context_round, truthy}
use poly_market_btc_arbitrag.Models.Enums.{TakerSide, buy, sell}
use poly_market_btc_arbitrag.Models.Payloads.{BinanceAggTradePayload}
use poly_market_btc_arbitrag.Models.Snapshots.{RollingWindowSnapshot}

abbrev pub Row : Type 0
Row = ℕ × BinanceAggTradePayload

-- The notional is in units of the squared decimal place.
pub record Rolling : Type 0 where
  pub seconds : ℕ
  pub rows : List Row
  pub buy_quantity : ℤ
  pub sell_quantity : ℤ
  pub total_quantity : ℤ
  pub notional : ℤ

unfoldable pub new_rolling : ℕ → Rolling
new_rolling seconds = record {
  seconds = seconds;
  rows = [];
  buy_quantity = pos 0;
  sell_quantity = pos 0;
  total_quantity = pos 0;
  notional = pos 0;
}

-- `price * quantity`
abbrev pub notional_of : BinanceAggTradePayload → ℤ
notional_of trade = context_round (pos (trade.price * trade.quantity))

abbrev pub is_buy : TakerSide → Bool
is_buy buy = true
is_buy sell = false

-- The four sums, with a trade's part added.
unfoldable pub count_in : BinanceAggTradePayload → Rolling → Rolling
count_in trade r = record r {
  buy_quantity =
      if is_buy trade.taker_side
      then context_round (r.buy_quantity +ℤ pos trade.quantity)
      else r.buy_quantity;
  sell_quantity =
      if is_buy trade.taker_side
      then r.sell_quantity
      else context_round (r.sell_quantity +ℤ pos trade.quantity);
  total_quantity = context_round (r.total_quantity +ℤ pos trade.quantity);
  notional = context_round (r.notional +ℤ notional_of trade);
}

-- The four sums, with a trade's part subtracted.
unfoldable pub count_out : BinanceAggTradePayload → Rolling → Rolling
count_out trade r = record r {
  buy_quantity =
      if is_buy trade.taker_side
      then context_round (r.buy_quantity -ℤ pos trade.quantity)
      else r.buy_quantity;
  sell_quantity =
      if is_buy trade.taker_side
      then r.sell_quantity
      else context_round (r.sell_quantity -ℤ pos trade.quantity);
  total_quantity = context_round (r.total_quantity -ℤ pos trade.quantity);
  notional = context_round (r.notional -ℤ notional_of trade);
}

-- The loop of `expire`, over the rows from the oldest on.
unfoldable pub expire_rows : ℕ → List Row → Rolling → Rolling
expire_rows cutoff [] r = record r { rows = [] }
expire_rows cutoff ((received, trade) ∷ rest) r = elim (ltb received cutoff) [
  | true ↦ expire_rows cutoff rest (count_out trade r)
  | false ↦ record r { rows = (received, trade) ∷ rest }
]

-- `now_ns - self.seconds * 1_000_000_000`: where this is negative no row is older, as with 0.
abbrev pub cutoff_at : ℕ → ℕ → ℕ
cutoff_at seconds now = now - seconds * 1000000000

unfoldable pub expire : ℕ → Rolling → Rolling
expire now r = expire_rows (cutoff_at r.seconds now) r.rows r

unfoldable pub add : ℕ → BinanceAggTradePayload → Rolling → Rolling
add received trade r =
    expire received (count_in trade (record r { rows = r.rows ++ (received, trade) ∷ [] }))

-- The record that `snapshot` returns, once the window is expired.
unfoldable pub window_view : Rolling → RollingWindowSnapshot
window_view r = record {
  window_seconds = r.seconds;
  buy_volume = r.buy_quantity;
  sell_volume = r.sell_quantity;
  vwap =
      if truthy r.total_quantity
      then some (record { numerator = r.notional; denominator = r.total_quantity })
      else none;
}

-- `snapshot`: it expires the window, so the accumulator changes too.
unfoldable pub snapshot : ℕ → Rolling → Rolling × RollingWindowSnapshot
snapshot now r = let expired = expire now r in (expired, window_view expired)
