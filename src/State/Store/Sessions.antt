-- ===== src/State/Store/Sessions.antt =====
-- CLOB sessions: what a change of session does to the books, and when a book is ready again.
use poly_market_btc_arbitrag.Prelude.{
  ℕ, ◌≡◌, ◌≢◌, refl, inl, inr, Bool, true, false, not, ◌&&◌, ◌||◌, Option, none, some, [], ◌∷◌,
  String, string_eq, option_eq, ◌==◌, arith, All, Bool-cases, Option-cases, subst,
}
use poly_market_btc_arbitrag.Dict
use poly_market_btc_arbitrag.Dict.{Dict}
use poly_market_btc_arbitrag.Dict.Laws.{get-All, set-All}
use poly_market_btc_arbitrag.Models.Enums.{polymarket_clob, source_eq, Timeframe, discovery_state}
use poly_market_btc_arbitrag.Models.Payloads.{
  SourceStatusPayload, MarketWindowStatePayload, EventPayload, MarketDataEvent, market_window_state,
  source_status, chainlink_price, binance_agg_trade, binance_book_ticker, binance_depth20,
  polymarket_book, polymarket_price_change, polymarket_best_bid_ask, polymarket_last_trade,
  polymarket_tick_size_change, polymarket_market_resolved,
}
use poly_market_btc_arbitrag.State.Book
use poly_market_btc_arbitrag.State.Book.{Book}
use poly_market_btc_arbitrag.State.Store.{
  StateStore, ok, apply_market_state, invalidate_books, apply_status, is_stale, or_new, put_book,
  apply_to_book, apply_clob, apply_fresh, apply_other, apply_payload, apply,
}
use poly_market_btc_arbitrag.State.Identity.{ClobIdentity, clob_identity, new_book}
use poly_market_btc_arbitrag.State.Contexts.{TimeframeContext, keep_referenced, is_referenced}
use poly_market_btc_arbitrag.State.Store.Validity.{Ensures}

-- The book of the asset, if there is one, is not initialized.
abbrev pub Awaiting : String → String × Book → Type 0
Awaiting asset (name, book) = name ≡ asset → book.initialized ≡ false

abbrev pub AwaitsBook : String → StateStore → Type 0
AwaitsBook asset st = All (Awaiting asset) st.books_by_asset

-- The event is no full book of the asset.
abbrev pub NoBookFor : String → EventPayload → Option String → Type 0
NoBookFor asset (polymarket_book payload) named = named ≢ some asset
NoBookFor asset _ named = Unit

module _ (asset : String) where
  invalidate-Awaiting : (books : Dict String Book) → All (Awaiting asset) (invalidate_books books)
  unfolding invalidate_books Book.invalidate
  invalidate-Awaiting [] = tt
  invalidate-Awaiting ((name, book) ∷ rest) = ((λ _. refl), invalidate-Awaiting rest)

  keep-Awaiting :
      (contexts : Dict Timeframe TimeframeContext) (books : Dict String Book)
      → All (Awaiting asset) books
      → All (Awaiting asset) (keep_referenced contexts books)
  unfolding keep_referenced
  keep-Awaiting contexts [] a = tt
  keep-Awaiting contexts ((name, book) ∷ rest) a = elim (Bool-cases (is_referenced name contexts)) [
    | inl e ↦ rw (e, keep_referenced) (a.0, keep-Awaiting contexts rest a.1)
    | inr e ↦ rw (e, keep_referenced) (keep-Awaiting contexts rest a.1)
  ]

  apply_market_state-AwaitsBook :
      (payload : MarketWindowStatePayload) (st : StateStore)
      → AwaitsBook asset st
      → Ensures (AwaitsBook asset) (apply_market_state payload st)
  unfolding apply_market_state
  apply_market_state-AwaitsBook payload st a = elim (Option-cases (discovery_state payload.state)) [
    | inl e ↦ rw (e, apply_market_state) tt
    | inr (state, e) ↦ rw (e, apply_market_state) (keep-Awaiting _ st.books_by_asset a)
  ]

  apply_status-AwaitsBook :
      (status : SourceStatusPayload) (received : ℕ) (st : StateStore)
      → AwaitsBook asset st
      → AwaitsBook asset (apply_status status received st)
  unfolding apply_status
  apply_status-AwaitsBook status received st a =
      ground (arith, invalidate-Awaiting st.books_by_asset)

  put_book-AwaitsBook :
      (name : String) (book : Book) (st : StateStore)
      → Awaiting asset (name, book)
      → AwaitsBook asset st
      → AwaitsBook asset (put_book name book st)
  put_book-AwaitsBook name book st h a = set-All (Awaiting asset) name book st.books_by_asset h a

  apply_to_book-AwaitsBook :
      (payload : EventPayload) (name : String) (session : Option String) (book : Book)
      (st : StateStore)
      → NoBookFor asset payload (some name)
      → Awaiting asset (name, book)
      → AwaitsBook asset st
      → AwaitsBook asset (apply_to_book payload name session book st)
  unfolding apply_to_book
  apply_to_book-AwaitsBook (polymarket_book payload) name session book st n h a =
      put_book-AwaitsBook name _ st (λ e. absurd (n (ground arith))) a
  apply_to_book-AwaitsBook (polymarket_price_change payload) name session book st n h a = ground (
    arith,
    put_book-AwaitsBook name book st h a,
    put_book-AwaitsBook name (Book.change_book payload book) st
        (unfold Book.change_book in λ e. ground (arith, h e)) a,
  )
  apply_to_book-AwaitsBook (polymarket_best_bid_ask payload) name session book st n h a = ground (
    arith,
    put_book-AwaitsBook name book st h a,
    put_book-AwaitsBook name (Book.converge book) st
        (unfold Book.converge in λ e. ground (arith, h e)) a,
    put_book-AwaitsBook name (Book.diverge book) st (unfold Book.diverge in λ e. h e) a,
  )
  apply_to_book-AwaitsBook (polymarket_market_resolved payload) name session book st n h a =
      put_book-AwaitsBook name _ st (unfold Book.resolve in λ e. ground (arith, h e)) a
  apply_to_book-AwaitsBook (polymarket_last_trade payload) name session book st n h a =
      put_book-AwaitsBook name _ st h a
  apply_to_book-AwaitsBook (polymarket_tick_size_change payload) name session book st n h a =
      put_book-AwaitsBook name _ st h a
  apply_to_book-AwaitsBook _ name session book st n h a = put_book-AwaitsBook name book st h a

  found-Awaiting :
      (identity : ClobIdentity) (source : Option String) (st : StateStore)
      → AwaitsBook asset st
      → Awaiting asset (
        identity.asset_id,
        or_new (Dict.get identity.asset_id st.books_by_asset) (new_book identity source),
      )
  unfolding new_book
  found-Awaiting identity source st a =
      elim (Option-cases (Dict.get identity.asset_id st.books_by_asset)) [
        | inl e ↦ rw e (λ _. refl)
        | inr (book, e) ↦
            rw e (get-All (Awaiting asset) identity.asset_id book st.books_by_asset a e)
      ]

  apply_clob-AwaitsBook :
      (event : MarketDataEvent) (identity : ClobIdentity) (st : StateStore)
      → NoBookFor asset event.payload (some identity.asset_id)
      → AwaitsBook asset st
      → AwaitsBook asset (apply_clob event identity st)
  unfolding apply_clob
  apply_clob-AwaitsBook event identity st n a =
      let book : Book =
        or_new (Dict.get identity.asset_id st.books_by_asset)
          (new_book identity event.source_session_id) in
      let h = found-Awaiting identity event.source_session_id st a in
      ground (
        arith,
        put_book-AwaitsBook identity.asset_id book st h a,
        apply_to_book-AwaitsBook event.payload identity.asset_id event.source_session_id
            (record book { last_event_timestamp_ns = event.source_timestamp_ns }) st n h a,
      )

  identity-asset :
      (event : MarketDataEvent) (identity : ClobIdentity)
      → clob_identity event ≡ some identity
      → event.asset_id ≡ some identity.asset_id
  unfolding clob_identity
  identity-asset event identity e = ground arith

  clob_branch-AwaitsBook :
      (event : MarketDataEvent) (st : StateStore) (found : Option ClobIdentity)
      → clob_identity event ≡ found
      → NoBookFor asset event.payload event.asset_id
      → AwaitsBook asset st
      → Ensures
          (AwaitsBook asset)
          (elim found [ none ↦ ok st | some identity ↦ ok (apply_clob event identity st) ])
  clob_branch-AwaitsBook event st none e n a = a
  clob_branch-AwaitsBook event st (some identity) e n a =
      apply_clob-AwaitsBook event identity st
        (subst (NoBookFor asset event.payload) (identity-asset event identity e) n) a

  apply_fresh-AwaitsBook :
      (payload : EventPayload) (event : MarketDataEvent) (st : StateStore)
      → NoBookFor asset event.payload event.asset_id
      → AwaitsBook asset st
      → Ensures (AwaitsBook asset) (apply_fresh payload event st)
  unfolding apply_fresh
  apply_fresh-AwaitsBook (market_window_state payload) event st n a =
      apply_market_state-AwaitsBook payload st a
  apply_fresh-AwaitsBook (chainlink_price payload) event st n a = a
  apply_fresh-AwaitsBook (binance_agg_trade payload) event st n a = a
  apply_fresh-AwaitsBook (binance_book_ticker payload) event st n a = a
  apply_fresh-AwaitsBook (binance_depth20 payload) event st n a = a
  apply_fresh-AwaitsBook _ event st n a =
      clob_branch-AwaitsBook event st (clob_identity event) refl n a

  apply_other-AwaitsBook :
      (event : MarketDataEvent) (st : StateStore)
      → NoBookFor asset event.payload event.asset_id
      → AwaitsBook asset st
      → Ensures (AwaitsBook asset) (apply_other event st)
  unfolding apply_other
  apply_other-AwaitsBook event st n a = elim (Bool-cases (is_stale event st)) [
    | inl e ↦ rw (e, apply_other) a
    | inr e ↦ rw (e, apply_other) (apply_fresh-AwaitsBook event.payload event st n a)
  ]

  apply_payload-AwaitsBook :
      (payload : EventPayload) (event : MarketDataEvent) (st : StateStore)
      → NoBookFor asset event.payload event.asset_id
      → AwaitsBook asset st
      → Ensures (AwaitsBook asset) (apply_payload payload event st)
  unfolding apply_payload
  apply_payload-AwaitsBook (source_status status) event st n a =
      apply_status-AwaitsBook status event.received_wall_timestamp_ns st a
  apply_payload-AwaitsBook _ event st n a = apply_other-AwaitsBook event st n a

  -- A book that is not initialized stays so under every event but a full book of its asset.
  pub apply-AwaitsBook :
      (event : MarketDataEvent) (st : StateStore)
      → NoBookFor asset event.payload event.asset_id
      → AwaitsBook asset st
      → Ensures (AwaitsBook asset) (apply event st)
  unfolding apply
  apply-AwaitsBook event st n a = apply_payload-AwaitsBook event.payload event _ n a

-- A CLOB status that reports a disconnection, or another session than the current one.
abbrev pub ends_session : SourceStatusPayload → StateStore → Bool
ends_session status st =
    status.source == polymarket_clob
    && (not status.connected || not (status.session_id == st.current_clob_session_id))

-- Such a status leaves no book initialized.
pub ends_session-AwaitsBook :
    (status : SourceStatusPayload) (received : ℕ) (st : StateStore) (asset : String)
    → ends_session status st ≡ true
    → AwaitsBook asset (apply_status status received st)
unfolding apply_status
ends_session-AwaitsBook status received st asset h =
    ground (arith, invalidate-Awaiting asset st.books_by_asset)
