-- ===== src/State/Rolling/Sums.antt =====
-- The rolling sums against their definition: the sums over the trades of the last seconds.
use poly_market_btc_arbitrag.Prelude.{
  ℕ, ◌+◌, ◌*◌, ◌≤◌, ◌<◌, ◌≡◌, refl, ap, ◌∙◌, sym, List, [], ◌∷◌, ◌++◌, ltb, arith, All, Bool-cases,
  inl, inr, if◌then◌else◌, All-mono,
}
use poly_market_btc_arbitrag.Decimals.{
  pos, ◌+ℤ◌, ◌-ℤ◌, precision, context_round, context_round_exact, plus_pos, plus_minus_pos,
}
use poly_market_btc_arbitrag.Models.Payloads.{BinanceAggTradePayload}
use poly_market_btc_arbitrag.State.Rolling.{Row, Rolling, is_buy, count_in, count_out, expire_rows}

-- The sums over a list of trades.
abbrev pub sum_of : (BinanceAggTradePayload → ℕ) → List Row → ℕ
sum_of f [] = 0
sum_of f (row ∷ rows) = f row.1 + sum_of f rows

abbrev pub bought : BinanceAggTradePayload → ℕ
bought trade = if is_buy trade.taker_side then trade.quantity else 0

abbrev pub sold : BinanceAggTradePayload → ℕ
sold trade = if is_buy trade.taker_side then 0 else trade.quantity

abbrev pub quantity : BinanceAggTradePayload → ℕ
quantity trade = trade.quantity

abbrev pub worth : BinanceAggTradePayload → ℕ
worth trade = trade.price * trade.quantity

-- The sums fit in the 28 digits of the decimal context.
abbrev pub Fits : List Row → Type 0
Fits rows = (sum_of quantity rows < precision) × (sum_of worth rows < precision)

-- The trades that were received at the cutoff or later.
abbrev pub recent : ℕ → List Row → List Row
recent cutoff [] = []
recent cutoff (row ∷ rows) =
    if ltb row.0 cutoff then recent cutoff rows else row ∷ recent cutoff rows

-- No trade was received before one that stands in front of it.
abbrev pub InOrder : List Row → Type 0
InOrder [] = Unit
InOrder (row ∷ rows) = All (λ r. row.0 ≤ r.0) rows × InOrder rows

-- The accumulator holds the sums over the rows.
pub record HasSums (rows : List Row) (r : Rolling) : Type 0 where
  pub buy : r.buy_quantity ≡ pos (sum_of bought rows)
  pub sell : r.sell_quantity ≡ pos (sum_of sold rows)
  pub total : r.total_quantity ≡ pos (sum_of quantity rows)
  pub notional : r.notional ≡ pos (sum_of worth rows)

pub sum-append :
    (f : BinanceAggTradePayload → ℕ) (xs ys : List Row)
    → sum_of f (xs ++ ys) ≡ sum_of f xs + sum_of f ys
sum-append f [] ys = omega arith
sum-append f (x ∷ xs) ys = omega (arith, sum-append f xs ys)

pub sum-recent-le :
    (f : BinanceAggTradePayload → ℕ) (cutoff : ℕ) (rows : List Row)
    → sum_of f (recent cutoff rows) ≤ sum_of f rows
sum-recent-le f cutoff [] = omega arith
sum-recent-le f cutoff (row ∷ rows) = ground (arith, sum-recent-le f cutoff rows)

bought-le : (rows : List Row) → sum_of bought rows ≤ sum_of quantity rows
bought-le [] = omega arith
bought-le ((_, trade) ∷ rows) = ground (arith, bought-le rows)

sold-le : (rows : List Row) → sum_of sold rows ≤ sum_of quantity rows
sold-le [] = omega arith
sold-le ((_, trade) ∷ rows) = ground (arith, sold-le rows)

plus_exact : (a b : ℕ) → a + b < precision → context_round (pos a +ℤ pos b) ≡ pos (a + b)
plus_exact a b h = rw plus_pos (context_round_exact (a + b) h)

minus_exact : (a b : ℕ) → a + b < precision → context_round (pos (a + b) -ℤ pos a) ≡ pos b
minus_exact a b h = rw plus_minus_pos (context_round_exact b (omega arith))

module _ (rows : List Row) (time : ℕ) (trade : BinanceAggTradePayload) (r : Rolling) where
  pub count_in-HasSums :
      HasSums rows r
      → Fits (rows ++ (time, trade) ∷ [])
      → HasSums (rows ++ (time, trade) ∷ []) (count_in trade r)
  unfolding count_in
  count_in-HasSums s f = ground (
    arith,
    sum-append bought rows ((time, trade) ∷ []),
    sum-append sold rows ((time, trade) ∷ []),
    sum-append quantity rows ((time, trade) ∷ []),
    sum-append worth rows ((time, trade) ∷ []),
    plus_exact (sum_of bought rows) trade.quantity,
    plus_exact (sum_of sold rows) trade.quantity,
    plus_exact (sum_of quantity rows) trade.quantity,
    plus_exact (sum_of worth rows) (worth trade),
    context_round_exact (worth trade),
    bought-le rows,
    sold-le rows,
  )

  count_out-HasSums :
      HasSums ((time, trade) ∷ rows) r
      → Fits ((time, trade) ∷ rows)
      → HasSums rows (count_out trade r)
  unfolding count_out
  count_out-HasSums s f = ground (
    arith,
    minus_exact trade.quantity (sum_of bought rows),
    minus_exact trade.quantity (sum_of sold rows),
    minus_exact trade.quantity (sum_of quantity rows),
    minus_exact (worth trade) (sum_of worth rows),
    context_round_exact (worth trade),
    bought-le rows,
    sold-le rows,
  )

-- The rows that `expire` leaves.
abbrev pub drop_old : ℕ → List Row → List Row
drop_old cutoff [] = []
drop_old cutoff (row ∷ rows) = if ltb row.0 cutoff then drop_old cutoff rows else row ∷ rows

-- What an accumulator of so many seconds is when it has the rows and their sums.
pub record Holds (seconds : ℕ) (rows : List Row) (r : Rolling) : Type 0 where
  pub window : r.seconds ≡ seconds
  pub held : r.rows ≡ rows
  pub sums : HasSums rows r

seconds-count_out :
    (trade : BinanceAggTradePayload) (r : Rolling) → (count_out trade r).seconds ≡ r.seconds
unfolding count_out
seconds-count_out trade r = refl

pub expire_rows-Holds :
    (seconds cutoff : ℕ) (rows : List Row) (r : Rolling)
    → r.seconds ≡ seconds
    → HasSums rows r
    → Fits rows
    → Holds seconds (drop_old cutoff rows) (expire_rows cutoff rows r)
unfolding expire_rows
expire_rows-Holds seconds cutoff [] r w s f = record {
  window = w;
  held = refl;
  sums = record { buy = s.buy; sell = s.sell; total = s.total; notional = s.notional };
}
expire_rows-Holds seconds cutoff ((time, trade) ∷ rows) r w s f =
    elim (Bool-cases (ltb time cutoff)) [
      | inl e ↦
          rw (e, expire_rows)
            (expire_rows-Holds seconds cutoff rows (count_out trade r)
              (seconds-count_out trade r ∙ w) (count_out-HasSums rows time trade r s f)
              (omega arith))
      | inr e ↦
          rw (e, expire_rows)
            (record {
              window = w;
              held = refl;
              sums = record { buy = s.buy; sell = s.sell; total = s.total; notional = s.notional };
            })
    ]

recent-All-every :
    (cutoff : ℕ) (rows : List Row) → All (λ r. cutoff ≤ r.0) rows → recent cutoff rows ≡ rows
recent-All-every cutoff [] h = refl
recent-All-every cutoff (row ∷ rows) h = ground (arith, recent-All-every cutoff rows h.1)

-- Of rows in order, dropping from the front leaves the recent ones.
pub drop_old-eq-recent :
    (cutoff : ℕ) (rows : List Row) → InOrder rows → drop_old cutoff rows ≡ recent cutoff rows
drop_old-eq-recent cutoff [] o = refl
drop_old-eq-recent cutoff (row ∷ rows) o = elim (Bool-cases (ltb row.0 cutoff)) [
  | inl e ↦ rw e (drop_old-eq-recent cutoff rows o.1)
  | inr e ↦
      let later = All-mono (λ r (h : row.0 ≤ r.0). ground arith) rows o.0 in
      rw e (ap (◌∷◌ row) (sym (recent-All-every cutoff rows later)))
]

pub recent-recent :
    (old cutoff : ℕ) (rows : List Row)
    → old ≤ cutoff
    → recent cutoff (recent old rows) ≡ recent cutoff rows
recent-recent old cutoff [] h = refl
recent-recent old cutoff (row ∷ rows) h = ground (arith, recent-recent old cutoff rows h)

pub recent-append :
    (cutoff : ℕ) (xs ys : List Row)
    → recent cutoff (xs ++ ys) ≡ recent cutoff xs ++ recent cutoff ys
recent-append cutoff [] ys = refl
recent-append cutoff (x ∷ xs) ys = ground (arith, recent-append cutoff xs ys)

recent-All :
    (cutoff : ℕ) (P : Row → Type 0) (rows : List Row) → All P rows → All P (recent cutoff rows)
recent-All cutoff P [] a = tt
recent-All cutoff P (row ∷ rows) a = ground (arith, recent-All cutoff P rows a.1)

pub recent-InOrder : (cutoff : ℕ) (rows : List Row) → InOrder rows → InOrder (recent cutoff rows)
recent-InOrder cutoff [] o = tt
recent-InOrder cutoff (row ∷ rows) o = elim (Bool-cases (ltb row.0 cutoff)) [
  | inl e ↦ rw e (recent-InOrder cutoff rows o.1)
  | inr e ↦ rw e (recent-All cutoff (λ r. row.0 ≤ r.0) rows o.0, recent-InOrder cutoff rows o.1)
]
