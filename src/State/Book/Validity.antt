-- ===== src/State/Book/Validity.antt =====
-- Well-formed books, and what each message makes of one.
use poly_market_btc_arbitrag.Prelude.{
  ◌≡◌, true, Option, List, [], ◌∷◌, String, nat_eq, is_some, arith,
}
use poly_market_btc_arbitrag.Dict.{Dict, keys, set, Distinct}
use poly_market_btc_arbitrag.Dict.Laws.{set-Distinct, pop-Distinct}
use poly_market_btc_arbitrag.Models.Payloads.{
  Decimal, PriceLevel, PolymarketBookPayload, PolymarketPriceChangePayload,
  PolymarketResolvedPayload,
}
use poly_market_btc_arbitrag.State.Book.{
  Book, is_coherent, level_dict, load_book, change_level, change_book, diverge, converge, resolve,
  invalidate,
}

-- A book under its asset, in a store whose current session is `session`.
pub record WellBook (session : Option String) (asset : String) (book : Book) : Type 0 where
  pub keyed : book.asset_id ≡ asset
  pub uncrossed_if : book.coherent ≡ true → is_coherent book.bids book.asks ≡ true
  pub bids_distinct : Distinct (keys book.bids)
  pub asks_distinct : Distinct (keys book.asks)
  pub of_session :
      book.initialized ≡ true → is_some session ≡ true → book.source_session_id ≡ session

pub level_dict-Distinct :
    (d : Dict Decimal Decimal) (levels : List PriceLevel)
    → Distinct (keys d)
    → Distinct (keys (level_dict d levels))
unfolding level_dict
level_dict-Distinct d [] h = h
level_dict-Distinct d (level ∷ levels) h =
    level_dict-Distinct (set level.price level.quantity d) levels
      (set-Distinct level.price level.quantity d h)

change_level-Distinct :
    (price quantity : Decimal) (levels : Dict Decimal Decimal)
    → Distinct (keys levels)
    → Distinct (keys (change_level price quantity levels))
unfolding change_level
change_level-Distinct price quantity levels h =
    ground (arith, set-Distinct price quantity levels h, pop-Distinct price levels h)

module _ {session : Option String} {asset : String} {book : Book} where
  pub load_book-WellBook :
      (payload : PolymarketBookPayload) (source : Option String)
      → (is_some session ≡ true → source ≡ session)
      → WellBook session asset book
      → WellBook session asset (load_book payload source book)
  unfolding load_book
  load_book-WellBook payload source same v = record {
    keyed = v.keyed;
    uncrossed_if = λ h. h;
    bids_distinct = level_dict-Distinct [] payload.bids tt;
    asks_distinct = level_dict-Distinct [] payload.asks tt;
    of_session = λ _. same;
  }

  pub change_book-WellBook :
      (payload : PolymarketPriceChangePayload)
      → WellBook session asset book
      → WellBook session asset (change_book payload book)
  unfolding change_book
  change_book-WellBook payload v = ground (
    arith,
    change_level-Distinct payload.price payload.quantity book.bids v.bids_distinct,
    change_level-Distinct payload.price payload.quantity book.asks v.asks_distinct,
  )

  pub diverge-WellBook : WellBook session asset book → WellBook session asset (diverge book)
  unfolding diverge
  diverge-WellBook v = record {
    keyed = v.keyed;
    uncrossed_if = ground (arith, v.uncrossed_if);
    bids_distinct = v.bids_distinct;
    asks_distinct = v.asks_distinct;
    of_session = v.of_session;
  }

  pub converge-WellBook : WellBook session asset book → WellBook session asset (converge book)
  unfolding converge
  converge-WellBook v = ground arith

  pub resolve-WellBook :
      (payload : PolymarketResolvedPayload) (name : String)
      → WellBook session asset book
      → WellBook session asset (resolve payload name book)
  unfolding resolve
  resolve-WellBook payload name v = ground arith

  -- An invalidated book is of no session.
  pub invalidate-WellBook :
      (next : Option String) → WellBook session asset book → WellBook next asset (invalidate book)
  unfolding invalidate
  invalidate-WellBook next v = record {
    keyed = v.keyed;
    uncrossed_if = λ h. ground arith;
    bids_distinct = tt;
    asks_distinct = tt;
    of_session = λ h. ground arith;
  }
