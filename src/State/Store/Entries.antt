-- ===== src/State/Store/Entries.antt =====
-- Well-formed entries of the books, and what the operations make of them.
use poly_market_btc_arbitrag.Prelude.{
  ◌≡◌, refl, true, Option, [], ◌∷◌, String, string_eq, option_eq, arith, All, Bool-cases, inl, inr,
  ap,
}
use poly_market_btc_arbitrag.Dict.{Dict, keys, contains, Distinct}
use poly_market_btc_arbitrag.Models.Enums.{Timeframe}
use poly_market_btc_arbitrag.State.Book.{Book}
use poly_market_btc_arbitrag.State.Book.Validity.{WellBook, invalidate-WellBook}
use poly_market_btc_arbitrag.State.Store.{invalidate_books}
use poly_market_btc_arbitrag.State.Contexts.{TimeframeContext, is_referenced, keep_referenced}

abbrev pub WellEntry : Option String → Dict Timeframe TimeframeContext → String × Book → Type 0
WellEntry session contexts (asset, book) =
    WellBook session asset book × (is_referenced asset contexts ≡ true)

abbrev pub WellBooks : Option String → Dict Timeframe TimeframeContext → Dict String Book → Type 0
WellBooks session contexts books = All (WellEntry session contexts) books

module _ (session next : Option String) (contexts : Dict Timeframe TimeframeContext) where
  pub invalidate-WellBooks :
      (books : Dict String Book)
      → WellBooks session contexts books
      → WellBooks next contexts (invalidate_books books)
  unfolding invalidate_books
  invalidate-WellBooks [] w = tt
  invalidate-WellBooks ((asset, book) ∷ rest) w =
      ((invalidate-WellBook next w.0.0, w.0.1), invalidate-WellBooks rest w.1)

pub keys-invalidate : (books : Dict String Book) → keys (invalidate_books books) ≡ keys books
unfolding invalidate_books
keys-invalidate [] = refl
keys-invalidate ((asset, book) ∷ rest) = ap (◌∷◌ asset) (keys-invalidate rest)

module _ (session : Option String) (old contexts : Dict Timeframe TimeframeContext) where
  pub keep-WellBooks :
      (books : Dict String Book)
      → WellBooks session old books
      → WellBooks session contexts (keep_referenced contexts books)
  unfolding keep_referenced
  keep-WellBooks [] w = tt
  keep-WellBooks ((asset, book) ∷ rest) w = elim (Bool-cases (is_referenced asset contexts)) [
    | inl e ↦ rw (e, keep_referenced) ((w.0.0, e), keep-WellBooks rest w.1)
    | inr e ↦ rw (e, keep_referenced) (keep-WellBooks rest w.1)
  ]

module _ (contexts : Dict Timeframe TimeframeContext) where
  pub contains-keep :
      (asset : String) (books : Dict String Book)
      → contains asset (keys (keep_referenced contexts books)) ≡ true
      → contains asset (keys books) ≡ true
  unfolding keep_referenced contains
  contains-keep asset [] h = h
  contains-keep asset ((name, book) ∷ rest) h = ground (arith, contains-keep asset rest)

  pub keep-Distinct :
      (books : Dict String Book)
      → Distinct (keys books)
      → Distinct (keys (keep_referenced contexts books))
  unfolding keep_referenced
  keep-Distinct [] d = d
  keep-Distinct ((name, book) ∷ rest) d =
      ground (arith, contains-keep name rest, keep-Distinct rest d.1)
