-- ===== src/State/Rolling/Windows.antt =====
-- The rolling window of a feed of trades against the sums over its recent trades.
use mathlib.Core.List.{append_assoc}
use poly_market_btc_arbitrag.Prelude.{
  ℕ, ◌≤◌, ◌≡◌, refl, ap, ◌∙◌, sym, subst, none, some, List, [], ◌∷◌, ◌++◌, arith, All,
  if◌then◌else◌, All-mono, All-prefix, All-both, append_nil,
}
use poly_market_btc_arbitrag.Decimals.{pos, truthy}
use poly_market_btc_arbitrag.Models.Payloads.{BinanceAggTradePayload}
use poly_market_btc_arbitrag.Models.Snapshots.{RollingWindowSnapshot}
use poly_market_btc_arbitrag.State.Rolling.{
  Row, Rolling, new_rolling, count_in, expire_rows, cutoff_at, expire, add, window_view, snapshot,
}
use poly_market_btc_arbitrag.State.Rolling.Sums.{
  sum_of, bought, sold, quantity, worth, Fits, recent, InOrder, HasSums, Holds, drop_old,
  sum-append, sum-recent-le, count_in-HasSums, expire_rows-Holds, drop_old-eq-recent, recent-recent,
  recent-append, recent-InOrder,
}

recent-Fits : (cutoff : ℕ) (rows : List Row) → Fits rows → Fits (recent cutoff rows)
recent-Fits cutoff rows f =
    omega (arith, sum-recent-le quantity cutoff rows, sum-recent-le worth cutoff rows)

-- The accumulator after the history, expired up to a cutoff.
abbrev pub Follows : ℕ → ℕ → List Row → Rolling → Type 0
Follows seconds cutoff history r = Holds seconds (recent cutoff history) r

expire-Follows :
    (seconds old now : ℕ) (history : List Row) (r : Rolling)
    → old ≤ cutoff_at seconds now
    → InOrder history
    → Fits history
    → Follows seconds old history r
    → Follows seconds (cutoff_at seconds now) history (expire now r)
unfolding expire
expire-Follows seconds old now history r le o f h =
    let rows = recent old history in
    let expired =
      expire_rows-Holds seconds (cutoff_at seconds now) rows r h.window h.sums
        (recent-Fits old history f) in
    let same : drop_old (cutoff_at seconds now) rows ≡ recent (cutoff_at seconds now) history =
      drop_old-eq-recent (cutoff_at seconds now) rows (recent-InOrder old history o)
      ∙ recent-recent old (cutoff_at seconds now) history le in
    let now_at = cutoff_at seconds now in
    let kept =
      subst (λ rows. Holds seconds rows (expire_rows now_at (recent old history) r)) same expired in
    let from_rows =
      subst (λ rows. Holds seconds (recent now_at history) (expire_rows now_at rows r)) (sym h.held)
        kept in
    subst (λ s. Holds seconds (recent now_at history) (expire_rows (cutoff_at s now) r.rows r))
      (sym h.window) from_rows

recent-snoc :
    (cutoff time : ℕ) (trade : BinanceAggTradePayload) (history : List Row)
    → cutoff ≤ time
    → recent cutoff (history ++ (time, trade) ∷ []) ≡ recent cutoff history ++ (time, trade) ∷ []
recent-snoc cutoff time trade history h =
    ground (arith, recent-append cutoff history ((time, trade) ∷ []))

seconds-count_in :
    (trade : BinanceAggTradePayload) (r : Rolling) → (count_in trade r).seconds ≡ r.seconds
unfolding count_in
seconds-count_in trade r = refl

rows-count_in : (trade : BinanceAggTradePayload) (r : Rolling) → (count_in trade r).rows ≡ r.rows
unfolding count_in
rows-count_in trade r = refl

with_row-HasSums :
    (rows more : List Row) (r : Rolling) → HasSums rows r → HasSums rows (record r { rows = more })
with_row-HasSums rows more r s = record {
  buy = s.buy;
  sell = s.sell;
  total = s.total;
  notional = s.notional;
}

-- A trade that is received at the cutoff or later is counted in.
count_in-Follows :
    (seconds old time : ℕ) (trade : BinanceAggTradePayload) (history : List Row) (r : Rolling)
    → old ≤ time
    → Fits (history ++ (time, trade) ∷ [])
    → Follows seconds old history r
    → Follows seconds old
        (history ++ (time, trade) ∷ [])
        (count_in trade (record r { rows = r.rows ++ (time, trade) ∷ [] }))
count_in-Follows seconds old time trade history r le f h =
    let more = r.rows ++ (time, trade) ∷ [] in
    let r2 : Rolling = record r { rows = more } in
    let grown = recent-snoc old time trade history le in
    let fits = subst Fits grown (recent-Fits old (history ++ (time, trade) ∷ []) f) in
    let sums =
      count_in-HasSums (recent old history) time trade r2
        (with_row-HasSums (recent old history) more r h.sums) fits in
    record {
      window = seconds-count_in trade r2 ∙ h.window;
      held = rows-count_in trade r2 ∙ ap (λ rows. rows ++ (time, trade) ∷ []) h.held ∙ sym grown;
      sums = subst (λ rows. HasSums rows (count_in trade r2)) (sym grown) sums;
    }

add-Follows :
    (seconds old time : ℕ) (trade : BinanceAggTradePayload) (history : List Row) (r : Rolling)
    → old ≤ cutoff_at seconds time
    → InOrder (history ++ (time, trade) ∷ [])
    → Fits (history ++ (time, trade) ∷ [])
    → Follows seconds old history r
    → Follows seconds (cutoff_at seconds time) (history ++ (time, trade) ∷ []) (add time trade r)
unfolding add
add-Follows seconds old time trade history r le o f h =
    expire-Follows seconds old time (history ++ (time, trade) ∷ []) _ le o f
      (count_in-Follows seconds old time trade history r (omega arith) f h)

-- The accumulator after each of the trades.
unfoldable pub feed : List Row → Rolling → Rolling
feed [] r = r
feed ((time, trade) ∷ rows) r = feed rows (add time trade r)

cutoff_mono : (seconds a b : ℕ) → a ≤ b → cutoff_at seconds a ≤ cutoff_at seconds b
cutoff_mono seconds a b h = omega arith

InOrder-prefix : (xs ys : List Row) → InOrder (xs ++ ys) → InOrder xs
InOrder-prefix [] ys o = tt
InOrder-prefix (x ∷ xs) ys o = (All-prefix (λ r. x.0 ≤ r.0) xs ys o.0, InOrder-prefix xs ys o.1)

Fits-prefix : (xs ys : List Row) → Fits (xs ++ ys) → Fits xs
Fits-prefix xs ys f = omega (arith, sum-append quantity xs ys, sum-append worth xs ys)

-- Rows that are in order after a row are not before it.
later_rows :
    (history : List Row) (row : Row) (rows : List Row)
    → InOrder (history ++ row ∷ rows)
    → All (λ r. row.0 ≤ r.0) rows
later_rows [] row rows o = o.0
later_rows (_ ∷ history) row rows o = later_rows history row rows o.1

feed-Follows :
    (seconds old now : ℕ) (history rows : List Row) (r : Rolling)
    → old ≤ cutoff_at seconds now
    → All (λ row. (old ≤ cutoff_at seconds row.0) × (row.0 ≤ now)) rows
    → InOrder (history ++ rows)
    → Fits (history ++ rows)
    → Follows seconds old history r
    → Follows seconds (cutoff_at seconds now) (history ++ rows) (expire now (feed rows r))
unfolding feed
feed-Follows seconds old now history [] r le a o f h =
    let whole = append_nil history in
    expire-Follows seconds old now (history ++ []) r le o f
      (subst (λ rows. Follows seconds old rows r) (sym whole) h)
feed-Follows seconds old now history ((time, trade) ∷ rows) r le a o f h =
    let grown = history ++ (time, trade) ∷ [] in
    let same = append_assoc history ((time, trade) ∷ []) rows in
    let o2 = subst InOrder (sym same) o in
    let f2 = subst Fits (sym same) f in
    let after =
      add-Follows seconds old time trade history r a.0.0 (InOrder-prefix grown rows o2)
        (Fits-prefix grown rows f2) h in
    let fresh : All (λ row. (cutoff_at seconds time ≤ cutoff_at seconds row.0) × (row.0 ≤ now))
        rows =
      All-both (λ row p q. (cutoff_mono seconds time row.0 p, q.1)) rows
        (later_rows history (time, trade) rows o) a.1 in
    subst
      (λ rows2.
        Follows seconds (cutoff_at seconds now) rows2 (expire now (feed rows (add time trade r))))
      same
      (feed-Follows seconds (cutoff_at seconds time) now grown rows (add time trade r)
        (cutoff_mono seconds time now a.0.1) fresh o2 f2 after)

new_rolling-Follows : (seconds : ℕ) → Follows seconds 0 [] (new_rolling seconds)
unfolding new_rolling
new_rolling-Follows seconds = record {
  window = refl;
  held = refl;
  sums = record { buy = refl; sell = refl; total = refl; notional = refl };
}

-- The sums over rows, as `snapshot` shows them.
abbrev pub window_of : ℕ → List Row → RollingWindowSnapshot
window_of seconds rows = record {
  window_seconds = seconds;
  buy_volume = pos (sum_of bought rows);
  sell_volume = pos (sum_of sold rows);
  vwap =
      if truthy (pos (sum_of quantity rows))
      then some
          (record { numerator = pos (sum_of worth rows); denominator = pos (sum_of quantity rows) })
      else none;
}

window_view-Holds :
    (seconds : ℕ) (rows : List Row) (r : Rolling)
    → Holds seconds rows r
    → window_view r ≡ window_of seconds rows
unfolding window_view
window_view-Holds seconds rows r h =
    rw (h.window, h.sums.buy, h.sums.sell, h.sums.total, h.sums.notional) refl

-- The window that is shown at a time, of trades that were added in the order of their times and none after
-- the time shown at, is the sums over the trades of the last `seconds` seconds: the volume bought, the
-- volume sold, and the notional over the quantity where the quantity is not 0. The condition is that
-- the whole history's sums have at most 28 digits, so that no sum is rounded.
pub snapshot-feed :
    (seconds now : ℕ) (rows : List Row)
    → InOrder rows
    → Fits rows
    → All (λ row. row.0 ≤ now) rows
    → (snapshot now (feed rows (new_rolling seconds))).1
      ≡ window_of seconds (recent (cutoff_at seconds now) rows)
unfolding snapshot
snapshot-feed seconds now rows o f a =
    let from_start : All (λ row. (0 ≤ cutoff_at seconds row.0) × (row.0 ≤ now)) rows =
      All-mono (λ row p. (omega arith, p)) rows a in
    window_view-Holds seconds (recent (cutoff_at seconds now) rows)
      (expire now (feed rows (new_rolling seconds)))
      (feed-Follows seconds 0 now [] rows (new_rolling seconds) (omega arith) from_start o f
        (new_rolling-Follows seconds))
