-- ===== src/State/View/Safety.antt =====
-- What the reader of a ready snapshot may rely on, from a well-formed store.
use poly_market_btc_arbitrag.Prelude.{
  ℕ, ◌<◌, ◌≡◌, inl, inr, true, false, Option, none, some, String, string_eq, arith, Option-cases,
}
use poly_market_btc_arbitrag.Dict
use poly_market_btc_arbitrag.Dict.Laws.{get-All}
use poly_market_btc_arbitrag.Models.Enums.{Timeframe, five_minutes, fifteen_minutes}
use poly_market_btc_arbitrag.Models.Payloads.{Decimal}
use poly_market_btc_arbitrag.Models.Snapshots.{
  OrderBookSnapshot, PolymarketTimeframeSnapshot, MarketDataSnapshot,
}
use poly_market_btc_arbitrag.State.Book.{Book, is_coherent}
use poly_market_btc_arbitrag.State.Book.Validity.{WellBook}
use poly_market_btc_arbitrag.State.Store.{StateStore}
use poly_market_btc_arbitrag.State.Store.Validity.{WellStore}
use poly_market_btc_arbitrag.State.Store.Entries.{WellEntry}
use poly_market_btc_arbitrag.State.View.{market_view, timeframe_snapshot, snapshot}
use poly_market_btc_arbitrag.State.BookView.{book_snapshot, view_book}
use poly_market_btc_arbitrag.State.BookView.Order.{ShowsBook, view_book-ShowsBook}
use poly_market_btc_arbitrag.State.View.Readiness.{
  timeframe_snapshot-some, timeframe_cases, IsReady-iff,
}
use poly_market_btc_arbitrag.State.View.Conditions.{BookReady, TimeframeReady}

-- Where there are both prices, the first is below the second.
abbrev pub Below : Option Decimal → Option Decimal → Type 0
Below (some bid) (some ask) = bid < ask
Below _ _ = Unit

-- The book is shown, it is initialized, coherent and unresolved, and its best prices do not cross.
abbrev pub SafeBook : Option OrderBookSnapshot → Type 0
SafeBook none = ⊥
SafeBook (some book) =
    (book.initialized ≡ true)
    × (book.coherent ≡ true)
    × (book.resolved ≡ false)
    × Below book.best_bid book.best_ask

-- If the market is shown, both of its books are safe.
abbrev pub SafeMarket : Option PolymarketTimeframeSnapshot → Type 0
SafeMarket none = Unit
SafeMarket (some market) = SafeBook market.up × SafeBook market.down

abbrev pub IsSafe : MarketDataSnapshot → Type 0
IsSafe snap =
    snap.ready_for_strategy ≡ true → SafeMarket snap.market_5m × SafeMarket snap.market_15m

Below-of_coherent :
    {session : Option String} {asset : String} {book : Book} {view : OrderBookSnapshot}
    → WellBook session asset book
    → ShowsBook book view
    → book.coherent ≡ true
    → Below view.best_bid view.best_ask
unfolding is_coherent
Below-of_coherent w s h = ground (arith, w.uncrossed_if h, s.best_bid_max, s.best_ask_min)

view_book-SafeBook :
    {session : Option String} {asset : String} {book : Book}
    → WellBook session asset book
    → BookReady (some (view_book book))
    → SafeBook (some (view_book book))
unfolding view_book
view_book-SafeBook {book = book} w r =
    let shows = view_book-ShowsBook book w.bids_distinct w.asks_distinct in
    (r.0, r.1, r.2, Below-of_coherent w shows r.1)

module _ (st : StateStore) (w : WellStore st) where
  book_snapshot-SafeBook :
      (asset : Option String)
      → BookReady (book_snapshot asset st)
      → SafeBook (book_snapshot asset st)
  unfolding book_snapshot
  book_snapshot-SafeBook none r = absurd r
  book_snapshot-SafeBook (some a) r = elim (Option-cases (Dict.get a st.books_by_asset)) [
    | inl e ↦ absurd (rw (e, book_snapshot) at r)
    | inr (book, e) ↦
        let (well, _) = get-All (WellEntry _ _) a book st.books_by_asset w.books e in
        rw (e, book_snapshot) (view_book-SafeBook well (rw (e, book_snapshot) at r))
  ]

  market-SafeMarket :
      (timeframe : Timeframe) (now : ℕ)
      → TimeframeReady timeframe st
      → SafeMarket (timeframe_snapshot timeframe now st)
  market-SafeMarket timeframe now r = elim (timeframe_cases timeframe now st) [
    | inl e ↦ rw e tt
    | inr (context, market_id, end_ns, p, q, e) ↦
        let ready = r context market_id end_ns p q e in
        rw (timeframe_snapshot-some timeframe now st context market_id end_ns p q e) (
          unfold market_view in
          (
            book_snapshot-SafeBook context.current.up_asset_id ready.up,
            book_snapshot-SafeBook context.current.down_asset_id ready.down,
          ))
  ]

  -- A snapshot of a well-formed store is safe to read if it is ready.
  pub snapshot-IsSafe : (now sequence : ℕ) → IsSafe (snapshot now sequence st).1
  unfolding snapshot
  snapshot-IsSafe now sequence h =
      let r = (IsReady-iff now sequence st).0 h in
      (market-SafeMarket five_minutes now r.five, market-SafeMarket fifteen_minutes now r.fifteen)
