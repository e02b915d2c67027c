-- ===== src/Tests/StateTests.antt =====
-- Tests of the store and its snapshots.
use poly_market_btc_arbitrag.Prelude.{
  Bool, All, ◌≡◌, ◌↔◌, ◌∷◌, refl, true, false, none, some, List, [], arith, inr, nat_eq,
}
use poly_market_btc_arbitrag.Dict.{keys, Distinct, contains}
use poly_market_btc_arbitrag.Models.Enums.{chainlink_rtds}
use poly_market_btc_arbitrag.Models.Payloads.{MarketDataEvent, PolymarketBestBidAskPayload}
use poly_market_btc_arbitrag.State.Store.{apply, new_store}
use poly_market_btc_arbitrag.State.Store.Validity.{WellStore, Ensures, apply-WellStore}
use poly_market_btc_arbitrag.State.View.{snapshot}
use poly_market_btc_arbitrag.State.BookView.{view_book}
use poly_market_btc_arbitrag.State.BookView.Order.{ShowsBook, view_book-ShowsBook}
use poly_market_btc_arbitrag.State.View.Safety.{IsSafe}
use poly_market_btc_arbitrag.Reducer.{run}
use poly_market_btc_arbitrag.Reducer.Induction.{TraceOf}
use poly_market_btc_arbitrag.Reducer.Safety.{run-IsSafe}
use poly_market_btc_arbitrag.Reducer.Live.{Turn, live}
use poly_market_btc_arbitrag.Reducer.Live.Safety.{live-IsSafe}
use poly_market_btc_arbitrag.Reducer.Sessions.{Blocked, session_end-Blocked}
use poly_market_btc_arbitrag.Reducer.Connections.{ChainlinkDown, Unready, run-Unready}
use poly_market_btc_arbitrag.Health.{HealthRegistry, record_connection, row, new_registry}
use poly_market_btc_arbitrag.State.Store.{apply_status}
use poly_market_btc_arbitrag.State.Store.Sessions.{AwaitsBook, apply-AwaitsBook}
use poly_market_btc_arbitrag.State.View.Readiness.{IsReady-iff}
use poly_market_btc_arbitrag.State.View.Conditions.{IsReady}
use poly_market_btc_arbitrag.State.Book.{agrees, max_price}
use poly_market_btc_arbitrag.State.Book.Coherence.{check_all, check_all-incoherent}
use poly_market_btc_arbitrag.State.Rolling.{new_rolling}
use poly_market_btc_arbitrag.State.Rolling
use poly_market_btc_arbitrag.State.Rolling.Sums.{recent}
use poly_market_btc_arbitrag.State.Rolling.Windows.{feed, window_of, snapshot-feed}
use poly_market_btc_arbitrag.Tests.{
  status, trade, empty_store, events, book, market_event, price_event, tick_event,
}

empty_store-WellStore : WellStore empty_store
unfolding new_store
empty_store-WellStore = record { books = tt; distinct = tt }

run-IsSafe_example : Ensures (TraceOf WellStore IsSafe) (run events empty_store)
run-IsSafe_example = run-IsSafe events empty_store empty_store-WellStore

apply-WellStore_example : Ensures WellStore (apply (market_event 1) empty_store)
apply-WellStore_example = apply-WellStore (market_event 1) empty_store empty_store-WellStore

bids-Distinct : Distinct (keys book.bids)
unfolding contains
bids-Distinct = ground arith

asks-Distinct : Distinct (keys book.asks)
unfolding contains
asks-Distinct = ground arith

view_book-ShowsBook_example : ShowsBook book (view_book book)
view_book-ShowsBook_example = view_book-ShowsBook book bids-Distinct asks-Distinct

-- The registry is told of a connection and a snapshot is asked for before each event, and the put of the last snapshot is late.
abbrev reconnect : HealthRegistry → HealthRegistry
reconnect = record_connection chainlink_rtds none 5

abbrev turn : Bool → MarketDataEvent → Turn
turn in_time event = record {
  others = reconnect;
  looks = 900 ∷ [];
  event = event;
  put_in_time = in_time;
}

abbrev turns : List Turn
turns = turn true (tick_event 1) ∷ turn true (price_event 2) ∷ turn false (tick_event 3) ∷ []

live-IsSafe_example :
    All IsSafe (live turns empty_store).published × All IsSafe (live turns empty_store).stored
live-IsSafe_example = live-IsSafe turns empty_store empty_store-WellStore

IsReady-iff_example :
    ((snapshot 1000 1 empty_store).1.ready_for_strategy ≡ true) ↔ IsReady 1000 empty_store
IsReady-iff_example = IsReady-iff 1000 1 empty_store

-- A session's first status, then other events than a full book.
session_end-Blocked_example :
    Ensures
      (λ trace. Blocked "up" trace.final)
      (run (market_event 1 ∷ price_event 2 ∷ []) (apply_status (status 0) 5 empty_store))
unfolding new_store
session_end-Blocked_example =
    session_end-Blocked (status 0) 5 empty_store "up" (market_event 1 ∷ price_event 2 ∷ []) refl
      (tt, (tt, tt))

empty_store-ChainlinkDown : ChainlinkDown empty_store
unfolding new_store row new_registry
empty_store-ChainlinkDown = refl

-- The status of the run is that of the CLOB source.
run-Unready_example : Ensures (TraceOf ChainlinkDown Unready) (run events empty_store)
run-Unready_example =
    run-Unready events empty_store (tt, (refl, (tt, (tt, (tt, (tt, tt))))))
      empty_store-ChainlinkDown

apply-AwaitsBook_example : Ensures (AwaitsBook "up") (apply (price_event 7) empty_store)
unfolding new_store
apply-AwaitsBook_example = apply-AwaitsBook "up" (price_event 7) empty_store tt tt

-- Best prices that are not the book's.
abbrev best : PolymarketBestBidAskPayload
best = record { best_bid = some 39; best_ask = some 59; spread = none }

best-disagrees : agrees best book ≡ false
unfolding agrees max_price
best-disagrees = refl

check_all-incoherent_example : (check_all (best ∷ best ∷ []) book).coherent ≡ false
check_all-incoherent_example =
    check_all-incoherent (best ∷ best ∷ []) book (best-disagrees, (best-disagrees, tt))
      (inr (omega arith, omega arith))

-- Two trades within five seconds and one before.
abbrev trades : List Rolling.Row
trades = (1000000000, trade 7 2) ∷ (6000000000, trade 8 1) ∷ (7000000000, trade 9 3) ∷ []

snapshot-feed_example :
    (Rolling.snapshot 8000000000 (feed trades (new_rolling 5))).1
    ≡ window_of 5 (recent 3000000000 trades)
snapshot-feed_example =
    snapshot-feed 5 8000000000 trades (ground arith) (ground arith) (ground arith)
