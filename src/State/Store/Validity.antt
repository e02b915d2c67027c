-- ===== src/State/Store/Validity.antt =====
-- Well-formed stores, and what each operation makes of one.
use poly_market_btc_arbitrag.Prelude.{
  ℕ, ◌≡◌, refl, true, false, Option, none, some, String, string_eq, option_eq, is_some, arith,
  Bool-cases, Option-cases, inl, inr, option_equals_iff,
}
use poly_market_btc_arbitrag.Dict
use poly_market_btc_arbitrag.Dict.{Dict, keys, contains, Distinct}
use poly_market_btc_arbitrag.Dict.Laws.{set-All, get-All, set-Distinct}
use poly_market_btc_arbitrag.Models.Enums.{discovery_state}
use poly_market_btc_arbitrag.Models.Payloads.{
  SourceStatusPayload, MarketWindowStatePayload, EventPayload, MarketDataEvent, market_window_state,
  source_status, chainlink_price, binance_agg_trade, binance_book_ticker, binance_depth20,
  polymarket_book, polymarket_price_change, polymarket_best_bid_ask, polymarket_last_trade,
  polymarket_tick_size_change, polymarket_market_resolved,
}
use poly_market_btc_arbitrag.State.Book
use poly_market_btc_arbitrag.State.Book.{Book}
use poly_market_btc_arbitrag.State.Book.Validity.{
  WellBook, load_book-WellBook, change_book-WellBook, diverge-WellBook, converge-WellBook,
  resolve-WellBook,
}
use poly_market_btc_arbitrag.State.Store.{
  StateStore, Result, ok, value_error, apply_market_state, invalidate_books, apply_status, is_stale,
  or_new, put_book, apply_to_book, apply_clob, apply_fresh, apply_other, apply_payload, apply,
}
use poly_market_btc_arbitrag.State.Identity.{ClobIdentity, clob_identity, new_book}
use poly_market_btc_arbitrag.State.Contexts.{is_referenced}
use poly_market_btc_arbitrag.State.Store.Entries.{
  WellEntry, WellBooks, invalidate-WellBooks, keys-invalidate, keep-WellBooks, keep-Distinct,
}

pub record WellStore (st : StateStore) : Type 0 where
  pub books : WellBooks st.current_clob_session_id st.contexts st.books_by_asset
  pub distinct : Distinct (keys st.books_by_asset)

-- What a result that is returned satisfies.
abbrev pub Ensures {ℓ κ} : {A : Type ℓ} → (A → Type κ) → Result A → Type κ
Ensures P (ok a) = P a
Ensures P value_error = Unit

apply_market_state-WellStore :
    (payload : MarketWindowStatePayload) (st : StateStore)
    → WellStore st
    → Ensures WellStore (apply_market_state payload st)
unfolding apply_market_state
apply_market_state-WellStore payload st w =
    elim (discovery_state payload.state)
        as (λ found.
          (discovery_state payload.state ≡ found)
          → Ensures WellStore (apply_market_state payload st)) [
            | none ↦ λ e. rw (e, apply_market_state) tt
            | some state ↦ λ e.
                rw (e, apply_market_state)
                  (record {
                    books = keep-WellBooks _ _ _ st.books_by_asset w.books;
                    distinct = keep-Distinct _ st.books_by_asset w.distinct;
                  })
          ]
      refl

invalidated-WellStore :
    (next : Option String) (st : StateStore)
    → WellStore st
    → WellBooks next st.contexts (invalidate_books st.books_by_asset)
      × Distinct (keys (invalidate_books st.books_by_asset))
invalidated-WellStore next st w =
    (invalidate-WellBooks _ next _ st.books_by_asset w.books, rw keys-invalidate w.distinct)

apply_status-WellStore :
    (status : SourceStatusPayload) (received : ℕ) (st : StateStore)
    → WellStore st
    → WellStore (apply_status status received st)
unfolding apply_status
apply_status-WellStore status received st w = ground (
  arith,
  invalidated-WellStore status.session_id st w,
  invalidated-WellStore st.current_clob_session_id st w,
  option_equals_iff status.session_id st.current_clob_session_id,
)

put_book-WellStore :
    (asset : String) (book : Book) (st : StateStore)
    → WellBook st.current_clob_session_id asset book
    → is_referenced asset st.contexts ≡ true
    → WellStore st
    → WellStore (put_book asset book st)
put_book-WellStore asset book st v r w = record {
  books = set-All (WellEntry _ _) asset book st.books_by_asset (v, r) w.books;
  distinct = set-Distinct asset book st.books_by_asset w.distinct;
}

apply_to_book-WellStore :
    (payload : EventPayload) (asset : String) (session : Option String) (book : Book)
    (st : StateStore)
    → (is_some st.current_clob_session_id ≡ true → session ≡ st.current_clob_session_id)
    → WellBook st.current_clob_session_id asset book
    → is_referenced asset st.contexts ≡ true
    → WellStore st
    → WellStore (apply_to_book payload asset session book st)
unfolding apply_to_book
apply_to_book-WellStore (polymarket_book payload) asset session book st same v r w =
    put_book-WellStore asset _ st (load_book-WellBook payload session same v) r w
apply_to_book-WellStore (polymarket_price_change payload) asset session book st same v r w =
    ground (
      arith,
      put_book-WellStore asset book st v r w,
      put_book-WellStore asset _ st (change_book-WellBook payload v) r w,
    )
apply_to_book-WellStore (polymarket_best_bid_ask payload) asset session book st same v r w =
    ground (
      arith,
      put_book-WellStore asset book st v r w,
      put_book-WellStore asset _ st (converge-WellBook v) r w,
      put_book-WellStore asset _ st (diverge-WellBook v) r w,
    )
apply_to_book-WellStore (polymarket_market_resolved payload) asset session book st same v r w =
    put_book-WellStore asset _ st (resolve-WellBook payload asset v) r w
apply_to_book-WellStore (polymarket_last_trade payload) asset session book st same v r w =
    put_book-WellStore asset _ st (ground arith) r w
apply_to_book-WellStore (polymarket_tick_size_change payload) asset session book st same v r w =
    put_book-WellStore asset _ st (ground arith) r w
apply_to_book-WellStore _ asset session book st same v r w = put_book-WellStore asset book st v r w

new_book-WellBook :
    (identity : ClobIdentity) (source session : Option String)
    → WellBook session identity.asset_id (new_book identity source)
unfolding new_book Book.is_coherent Book.max_price
new_book-WellBook identity source session = ground arith

or_new-WellBook :
    (identity : ClobIdentity) (source : Option String) (st : StateStore)
    → WellStore st
    → WellBook st.current_clob_session_id identity.asset_id
        (or_new (Dict.get identity.asset_id st.books_by_asset) (new_book identity source))
or_new-WellBook identity source st w =
    elim (Option-cases (Dict.get identity.asset_id st.books_by_asset)) [
      | inl e ↦ rw e (new_book-WellBook identity source st.current_clob_session_id)
      | inr (book, e) ↦
          rw e (get-All (WellEntry _ _) identity.asset_id book st.books_by_asset w.books e).0
    ]

touched-WellBook :
    {session : Option String} {asset : String} {book : Book} (t : Option ℕ)
    → WellBook session asset book
    → WellBook session asset (record book { last_event_timestamp_ns = t })
touched-WellBook t v = ground arith

apply_clob-WellStore :
    (event : MarketDataEvent) (identity : ClobIdentity) (st : StateStore)
    → (is_some st.current_clob_session_id ≡ true
        → event.source_session_id ≡ st.current_clob_session_id)
    → WellStore st
    → WellStore (apply_clob event identity st)
unfolding apply_clob
apply_clob-WellStore event identity st same w =
    let v = or_new-WellBook identity event.source_session_id st w in
    ground (
      arith,
      put_book-WellStore identity.asset_id
          (or_new (Dict.get identity.asset_id st.books_by_asset)
            (new_book identity event.source_session_id))
          st v,
      apply_to_book-WellStore event.payload identity.asset_id event.source_session_id _ st same
          (touched-WellBook event.source_timestamp_ns v),
    )

-- An event that is not stale, of the CLOB, is of the current session if there is one.
fresh_session :
    (event : MarketDataEvent) (st : StateStore) (identity : ClobIdentity)
    → is_stale event st ≡ false
    → clob_identity event ≡ some identity
    → is_some st.current_clob_session_id ≡ true
    → event.source_session_id ≡ st.current_clob_session_id
unfolding is_stale clob_identity
fresh_session event st identity h e s =
    ground (arith, option_equals_iff event.source_session_id st.current_clob_session_id)

clob_branch-WellStore :
    (event : MarketDataEvent) (st : StateStore) (found : Option ClobIdentity)
    → is_stale event st ≡ false
    → clob_identity event ≡ found
    → WellStore st
    → Ensures WellStore
        (elim found [ none ↦ ok st | some identity ↦ ok (apply_clob event identity st) ])
clob_branch-WellStore event st none h e w = w
clob_branch-WellStore event st (some identity) h e w =
    apply_clob-WellStore event identity st (fresh_session event st identity h e) w

apply_fresh-WellStore :
    (payload : EventPayload) (event : MarketDataEvent) (st : StateStore)
    → is_stale event st ≡ false
    → WellStore st
    → Ensures WellStore (apply_fresh payload event st)
unfolding apply_fresh
apply_fresh-WellStore (market_window_state payload) event st h w =
    apply_market_state-WellStore payload st w
apply_fresh-WellStore (chainlink_price payload) event st h w = ground arith
apply_fresh-WellStore (binance_agg_trade payload) event st h w = ground arith
apply_fresh-WellStore (binance_book_ticker payload) event st h w = ground arith
apply_fresh-WellStore (binance_depth20 payload) event st h w = ground arith
apply_fresh-WellStore _ event st h w = clob_branch-WellStore event st (clob_identity event) h refl w

apply_other-WellStore :
    (event : MarketDataEvent) (st : StateStore)
    → WellStore st
    → Ensures WellStore (apply_other event st)
unfolding apply_other
apply_other-WellStore event st w = elim (Bool-cases (is_stale event st)) [
  | inl e ↦ rw (e, apply_other) (record { books = w.books; distinct = w.distinct })
  | inr e ↦ rw (e, apply_other) (apply_fresh-WellStore event.payload event st e w)
]

apply_payload-WellStore :
    (payload : EventPayload) (event : MarketDataEvent) (st : StateStore)
    → WellStore st
    → Ensures WellStore (apply_payload payload event st)
unfolding apply_payload
apply_payload-WellStore (source_status status) event st w =
    apply_status-WellStore status event.received_wall_timestamp_ns st w
apply_payload-WellStore _ event st w = apply_other-WellStore event st w

-- From a well-formed store, `apply` returns a well-formed store, whatever the event.
pub apply-WellStore :
    (event : MarketDataEvent) (st : StateStore) → WellStore st → Ensures WellStore (apply event st)
unfolding apply
apply-WellStore event st w =
    apply_payload-WellStore event.payload event _
      (record { books = w.books; distinct = w.distinct })
