-- ===== src/Clob/Assets.antt =====
-- Which assets are subscribed to.
use poly_market_btc_arbitrag.Prelude.{
  ℕ, ◌≡◌, refl, false, not, ◌&&◌, ◌||◌, List, [], ◌∷◌, ◌++◌, String, ◌==◌, string_eq, arith,
}
use poly_market_btc_arbitrag.Dict.{contains}
use poly_market_btc_arbitrag.Models.Enums.{timeframe_eq}
use poly_market_btc_arbitrag.Clob.{
  ClobSource, insert, insert_all, remove, minus, expire_assets, insert_name, sort_names,
  subscription_round,
}

pub contains-append :
    (z : String) (xs ys : List String) → contains z (xs ++ ys) ≡ (contains z xs || contains z ys)
unfolding contains
contains-append z [] ys = refl
contains-append z (x ∷ xs) ys = ground (arith, contains-append z xs ys)

contains-insert :
    (z x : String) (xs : List String) → contains z (insert x xs) ≡ ((x == z) || contains z xs)
unfolding contains
contains-insert z x xs = ground (arith, contains-append z xs (x ∷ []), string_eq.equals_iff x z)

pub contains-insert_all :
    (z : String) (ys xs : List String)
    → contains z (insert_all ys xs) ≡ (contains z ys || contains z xs)
unfolding insert_all contains
contains-insert_all z [] xs = refl
contains-insert_all z (y ∷ ys) xs =
    ground (arith, contains-insert_all z ys (insert y xs), contains-insert z y xs)

pub contains-remove :
    (z x : String) (xs : List String) → contains z (remove x xs) ≡ (not (x == z) && contains z xs)
unfolding remove contains
contains-remove z x [] = ground arith
contains-remove z x (y ∷ ys) = ground (
  arith,
  contains-remove z x ys,
  string_eq.equals_iff y x,
  string_eq.equals_iff y z,
  string_eq.equals_iff x z,
)

contains-minus :
    (z : String) (xs ys : List String)
    → contains z (minus xs ys) ≡ (contains z xs && not (contains z ys))
unfolding minus contains
contains-minus z [] ys = refl
contains-minus z (x ∷ xs) ys = ground (arith, contains-minus z xs ys, string_eq.equals_iff x z)

contains-insert_name :
    (z x : String) (xs : List String) → contains z (insert_name x xs) ≡ ((x == z) || contains z xs)
unfolding insert_name contains
contains-insert_name z x [] = refl
contains-insert_name z x (y ∷ ys) = ground (arith, contains-insert_name z x ys)

contains-sort_names : (z : String) (xs : List String) → contains z (sort_names xs) ≡ contains z xs
unfolding sort_names contains
contains-sort_names z [] = refl
contains-sort_names z (x ∷ xs) =
    ground (arith, contains-sort_names z xs, contains-insert_name z x (sort_names xs))

-- After a round, the source is subscribed to just the assets that it wants.
pub subscription_round-subscribed :
    (now : ℕ) (s : ClobSource) (asset : String)
    → contains asset (subscription_round now s).0.subscribed
      ≡ contains asset (subscription_round now s).0.desired
unfolding subscription_round
subscription_round-subscribed now s asset =
    let fresh = expire_assets now (record s { assets_changed = false }) in
    let added = minus fresh.desired fresh.subscribed in
    let removed = minus fresh.subscribed fresh.desired in
    ground (
      arith,
      contains-minus asset (insert_all (sort_names added) fresh.subscribed) (sort_names removed),
      contains-insert_all asset (sort_names added) fresh.subscribed,
      contains-sort_names asset added,
      contains-sort_names asset removed,
      contains-minus asset fresh.desired fresh.subscribed,
      contains-minus asset fresh.subscribed fresh.desired,
    )
