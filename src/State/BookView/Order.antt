-- ===== src/State/BookView/Order.antt =====
-- The levels of the books in a snapshot, and their order.
use poly_market_btc_arbitrag.Prelude.{
  ℕ, zero, suc, ◌≤◌, ◌<◌, ◌≡◌, refl, true, false, Option, none, some, List, [], ◌∷◌, map, nat_eq,
  take, leb, arith, All, length, inl, inr, ◌≢◌, All-mono, All-take, All-map, length-map,
  length-take-le, Bool-cases, ◌∙◌, ap,
}
use poly_market_btc_arbitrag.Dict
use poly_market_btc_arbitrag.Dict.{Dict, keys, contains, Distinct}
use poly_market_btc_arbitrag.Models.Payloads.{Decimal, PriceLevel}
use poly_market_btc_arbitrag.Models.Snapshots.{OrderBookSnapshot}
use poly_market_btc_arbitrag.State.Book.{Book, larger, smaller, max_price, min_price}
use poly_market_btc_arbitrag.State.BookView.{
  insert_desc, insert_asc, sort_desc, sort_asc, levels_at, quantity_at, first_price, view_book,
}

abbrev pub first {ℓ} : {A : Type ℓ} → List A → Option A
first [] = none
first (a ∷ _) = some a

first-insert_desc :
    (p : Decimal) (ps : List Decimal) → first (insert_desc p ps) ≡ some (larger p (first ps))
unfolding insert_desc
first-insert_desc p [] = refl
first-insert_desc p (q ∷ qs) = ground arith

first-insert_asc :
    (p : Decimal) (ps : List Decimal) → first (insert_asc p ps) ≡ some (smaller p (first ps))
unfolding insert_asc
first-insert_asc p [] = refl
first-insert_asc p (q ∷ qs) = ground arith

first-sort_desc : (ps : List Decimal) → first (sort_desc ps) ≡ max_price ps
unfolding sort_desc max_price
first-sort_desc [] = refl
first-sort_desc (p ∷ ps) = ground (arith, first-insert_desc p (sort_desc ps), first-sort_desc ps)

first-sort_asc : (ps : List Decimal) → first (sort_asc ps) ≡ min_price ps
unfolding sort_asc min_price
first-sort_asc [] = refl
first-sort_asc (p ∷ ps) = ground (arith, first-insert_asc p (sort_asc ps), first-sort_asc ps)

first_price-levels :
    (side : Dict Decimal Decimal) (n : ℕ) (ps : List Decimal)
    → first_price (levels_at side (take (suc n) ps)) ≡ first ps
unfolding levels_at
first_price-levels side n [] = refl
first_price-levels side n (p ∷ ps) = refl

-- Prices that fall, and prices that rise.
abbrev pub Falling : List Decimal → Type 0
Falling [] = Unit
Falling (p ∷ ps) = All (λ q. q < p) ps × Falling ps

abbrev pub Rising : List Decimal → Type 0
Rising [] = Unit
Rising (p ∷ ps) = All (λ q. p < q) ps × Rising ps

module _ {κ} (P : Decimal → Type κ) where
  insert_desc-All : (p : Decimal) (ps : List Decimal) → P p → All P ps → All P (insert_desc p ps)
  unfolding insert_desc
  insert_desc-All p [] h a = (h, tt)
  insert_desc-All p (q ∷ qs) h a = ground (arith, insert_desc-All p qs h a.1)

  insert_asc-All : (p : Decimal) (ps : List Decimal) → P p → All P ps → All P (insert_asc p ps)
  unfolding insert_asc
  insert_asc-All p [] h a = (h, tt)
  insert_asc-All p (q ∷ qs) h a = ground (arith, insert_asc-All p qs h a.1)

  pub sort_desc-All : (ps : List Decimal) → All P ps → All P (sort_desc ps)
  unfolding sort_desc
  sort_desc-All [] a = tt
  sort_desc-All (p ∷ ps) a = insert_desc-All p (sort_desc ps) a.0 (sort_desc-All ps a.1)

  pub sort_asc-All : (ps : List Decimal) → All P ps → All P (sort_asc ps)
  unfolding sort_asc
  sort_asc-All [] a = tt
  sort_asc-All (p ∷ ps) a = insert_asc-All p (sort_asc ps) a.0 (sort_asc-All ps a.1)

insert_desc-Falling :
    (p : Decimal) (ps : List Decimal)
    → All (λ q. q ≢ p) ps
    → Falling ps
    → Falling (insert_desc p ps)
unfolding insert_desc
insert_desc-Falling p [] d f = (tt, tt)
insert_desc-Falling p (q ∷ qs) d f = elim (Bool-cases (leb q p)) [
  | inl e ↦
      let lt : q < p = ground arith in
      rw e ((lt, All-mono (λ r (h : r < q). omega arith) qs f.0), f)
  | inr e ↦
      rw e (insert_desc-All (λ r. r < q) p qs (ground arith) f.0, insert_desc-Falling p qs d.1 f.1)
]

insert_asc-Rising :
    (p : Decimal) (ps : List Decimal) → All (λ q. q ≢ p) ps → Rising ps → Rising (insert_asc p ps)
unfolding insert_asc
insert_asc-Rising p [] d f = (tt, tt)
insert_asc-Rising p (q ∷ qs) d f = elim (Bool-cases (leb p q)) [
  | inl e ↦
      let lt : p < q = ground arith in
      rw e ((lt, All-mono (λ r (h : q < r). omega arith) qs f.0), f)
  | inr e ↦
      rw e (insert_asc-All (λ r. q < r) p qs (ground arith) f.0, insert_asc-Rising p qs d.1 f.1)
]

ne_of_contains : (p : Decimal) (ps : List Decimal) → contains p ps ≡ false → All (λ q. q ≢ p) ps
unfolding contains
ne_of_contains p [] h = tt
ne_of_contains p (q ∷ qs) h = (ground arith, ne_of_contains p qs (ground arith))

pub sort_desc-Falling : (ps : List Decimal) → Distinct ps → Falling (sort_desc ps)
unfolding sort_desc
sort_desc-Falling [] d = tt
sort_desc-Falling (p ∷ ps) d =
    insert_desc-Falling p (sort_desc ps) (sort_desc-All (λ q. q ≢ p) ps (ne_of_contains p ps d.0))
      (sort_desc-Falling ps d.1)

pub sort_asc-Rising : (ps : List Decimal) → Distinct ps → Rising (sort_asc ps)
unfolding sort_asc
sort_asc-Rising [] d = tt
sort_asc-Rising (p ∷ ps) d =
    insert_asc-Rising p (sort_asc ps) (sort_asc-All (λ q. q ≢ p) ps (ne_of_contains p ps d.0))
      (sort_asc-Rising ps d.1)

take-Falling : (n : ℕ) (ps : List Decimal) → Falling ps → Falling (take n ps)
take-Falling zero ps f = tt
take-Falling (suc n) [] f = tt
take-Falling (suc n) (p ∷ ps) f = (All-take _ n ps f.0, take-Falling n ps f.1)

take-Rising : (n : ℕ) (ps : List Decimal) → Rising ps → Rising (take n ps)
take-Rising zero ps f = tt
take-Rising (suc n) [] f = tt
take-Rising (suc n) (p ∷ ps) f = (All-take _ n ps f.0, take-Rising n ps f.1)

-- The level's quantity is that of its price on the side.
abbrev pub OnSide : Dict Decimal Decimal → PriceLevel → Type 0
OnSide side level = Dict.get level.price side ≡ some level.quantity

found_key :
    (side : Dict Decimal Decimal) (price : Decimal)
    → contains price (keys side) ≡ true
    → Dict.get price side ≡ some (quantity_at side price)
unfolding quantity_at Dict.get contains
found_key [] price h = ground arith
found_key ((q, quantity) ∷ side) price h = ground (arith, found_key side price)

All-contained : (ks : List Decimal) → All (λ k. contains k ks ≡ true) ks
unfolding contains
All-contained [] = tt
All-contained (k ∷ ks) =
    (ground arith, All-mono (λ j (h : contains j ks ≡ true). ground arith) ks (All-contained ks))

pub keys-get :
    (side : Dict Decimal Decimal)
    → All (λ price. Dict.get price side ≡ some (quantity_at side price)) (keys side)
keys-get side = All-mono (found_key side) (keys side) (All-contained (keys side))

-- The book as its snapshot shows it.
pub record ShowsBook (book : Book) (view : OrderBookSnapshot) : Type 0 where
  pub bids_fall : Falling (map (λ l. l.price) view.bids)
  pub asks_rise : Rising (map (λ l. l.price) view.asks)
  pub bids_bounded : length view.bids ≤ 20
  pub asks_bounded : length view.asks ≤ 20
  pub bids_held : All (OnSide book.bids) view.bids
  pub asks_held : All (OnSide book.asks) view.asks
  pub best_bid_max : view.best_bid ≡ max_price (keys book.bids)
  pub best_ask_min : view.best_ask ≡ min_price (keys book.asks)

pub prices-levels :
    (side : Dict Decimal Decimal) (ps : List Decimal) → map (λ l. l.price) (levels_at side ps) ≡ ps
unfolding levels_at
prices-levels side [] = refl
prices-levels side (p ∷ ps) = ap (◌∷◌ p) (prices-levels side ps)

pub levels-held :
    (side : Dict Decimal Decimal) (ps : List Decimal)
    → All (λ price. Dict.get price side ≡ some (quantity_at side price)) ps
    → All (OnSide side) (levels_at side ps)
unfolding levels_at
levels-held side ps h = All-map (OnSide side) _ ps h

length-levels :
    (side : Dict Decimal Decimal) (ps : List Decimal) → length (levels_at side ps) ≡ length ps
unfolding levels_at
length-levels side ps = length-map _ ps

-- The snapshot of a book whose sides have distinct prices shows at most twenty levels of each side,
-- the best first and in strict price order, each with the quantity that the book holds at its price;
-- its best bid and ask are the greatest bid and the least ask of the whole book.
pub view_book-ShowsBook :
    (book : Book)
    → Distinct (keys book.bids)
    → Distinct (keys book.asks)
    → ShowsBook book (view_book book)
unfolding view_book
view_book-ShowsBook book db da = record {
  bids_fall = rw prices-levels (take-Falling 20 _ (sort_desc-Falling (keys book.bids) db));
  asks_rise = rw prices-levels (take-Rising 20 _ (sort_asc-Rising (keys book.asks) da));
  bids_bounded = rw length-levels (length-take-le 20 (sort_desc (keys book.bids)));
  asks_bounded = rw length-levels (length-take-le 20 (sort_asc (keys book.asks)));
  bids_held =
      levels-held book.bids _
        (All-take _ 20 _ (sort_desc-All _ (keys book.bids) (keys-get book.bids)));
  asks_held =
      levels-held book.asks _
        (All-take _ 20 _ (sort_asc-All _ (keys book.asks) (keys-get book.asks)));
  best_bid_max = first_price-levels book.bids 19 _ ∙ first-sort_desc (keys book.bids);
  best_ask_min = first_price-levels book.asks 19 _ ∙ first-sort_asc (keys book.asks);
}
