-- ===== src/Replay/Listed.antt =====
-- Streams that give a list of events and end.
use poly_market_btc_arbitrag.Prelude.{
  ℕ, suc, ◌+◌, ◌≤◌, ◌<◌, ◌≡◌, ◌≢◌, refl, sym, ap, subst, ◌∙◌, Bool, true, false, none, List, [],
  ◌∷◌, ◌++◌, arith,
}
use poly_market_btc_arbitrag.Models.Payloads.{MarketDataEvent}
use poly_market_btc_arbitrag.Models.Decidable.{MarketDataEvent-discrete}
use poly_market_btc_arbitrag.Replay.{Stream, done, fail, next}
use poly_market_btc_arbitrag.Replay.Merge.{ending, Counts, Consecutive}
use poly_market_btc_arbitrag.Replay.Completeness.{tally}
use poly_market_btc_arbitrag.Replay.Success.{Rising}

abbrev pub stream_of_list : List MarketDataEvent → Stream
stream_of_list [] = done
stream_of_list (event ∷ events) = next event (stream_of_list events)

-- The events that a stream gives.
abbrev pub events_of : Stream → List MarketDataEvent
events_of done = []
events_of (fail _) = []
events_of (next event stream) = event ∷ events_of stream

pub events_of-stream : (events : List MarketDataEvent) → events_of (stream_of_list events) ≡ events
events_of-stream [] = refl
events_of-stream (event ∷ events) = ap (◌∷◌ event) (events_of-stream events)

pub ending-stream : (events : List MarketDataEvent) → ending (stream_of_list events) ≡ none
ending-stream [] = refl
ending-stream (event ∷ events) = ending-stream events

pub stream_of_list-events_of :
    (stream : Stream) → ending stream ≡ none → stream_of_list (events_of stream) ≡ stream
stream_of_list-events_of done e = refl
stream_of_list-events_of (fail failure) e = ground arith
stream_of_list-events_of (next event stream) e = ap (next event) (stream_of_list-events_of stream e)

-- The sequence behind the last one of the events.
abbrev pub after : ℕ → List MarketDataEvent → ℕ
after n [] = n
after n (event ∷ events) = after (suc event.ingest_sequence) events

-- The sequences of the events rise strictly, from the number on.
abbrev pub RisingFrom : ℕ → List MarketDataEvent → Type 0
RisingFrom n events = Rising n (stream_of_list events)

pub RisingFrom-weaken :
    (m n : ℕ) (events : List MarketDataEvent) → m ≤ n → RisingFrom n events → RisingFrom m events
RisingFrom-weaken m n [] le r = tt
RisingFrom-weaken m n (event ∷ events) le r = (omega (arith, r.0), r.1)

pub RisingFrom-append :
    (n : ℕ) (xs ys : List MarketDataEvent)
    → RisingFrom n (xs ++ ys)
    → RisingFrom n xs × RisingFrom (after n xs) ys
RisingFrom-append n [] ys r = (tt, r)
RisingFrom-append n (event ∷ xs) ys r =
    let rest = RisingFrom-append (suc event.ingest_sequence) xs ys r.1 in ((r.0, rest.0), rest.1)

pub RisingFrom-join :
    (n : ℕ) (xs ys : List MarketDataEvent)
    → RisingFrom n xs
    → RisingFrom (after n xs) ys
    → RisingFrom n (xs ++ ys)
RisingFrom-join n [] ys r s = s
RisingFrom-join n (event ∷ xs) ys r s =
    (r.0, RisingFrom-join (suc event.ingest_sequence) xs ys r.1 s)

pub after-le : (n : ℕ) (events : List MarketDataEvent) → RisingFrom n events → n ≤ after n events
after-le n [] r = omega arith
after-le n (event ∷ events) r = omega (arith, r.0, after-le (suc event.ingest_sequence) events r.1)

pub Counts-Rising :
    (n : ℕ) (stream : Stream) → ending stream ≡ none → Counts n stream → Rising n stream
Counts-Rising n done e c = tt
Counts-Rising n (fail failure) e c = ground arith
Counts-Rising n (next event stream) e c = (
  omega (arith, c.0),
  Counts-Rising (suc event.ingest_sequence) stream e
      (subst (λ m. Counts (suc m) stream) (sym c.0) c.1),
)

pub Consecutive-Rising :
    (stream : Stream) → ending stream ≡ none → Consecutive stream → Rising 0 stream
Consecutive-Rising done e c = tt
Consecutive-Rising (fail failure) e c = ground arith
Consecutive-Rising (next event stream) e c =
    (omega arith, Counts-Rising (suc event.ingest_sequence) stream e c)

abbrev pub count : (MarketDataEvent → Bool) → List MarketDataEvent → ℕ
count p events = tally p (stream_of_list events)

pub count-append :
    (p : MarketDataEvent → Bool) (xs ys : List MarketDataEvent)
    → count p (xs ++ ys) ≡ count p xs + count p ys
count-append p [] ys = omega arith
count-append p (event ∷ xs) ys = omega (arith, count-append p xs ys)

count-here :
    (p : MarketDataEvent → Bool) (x : MarketDataEvent) (xs : List MarketDataEvent)
    → p x ≡ true
    → count p (x ∷ xs) ≡ suc (count p xs)
count-here p x xs e = rw e (omega arith)

count-skip :
    (p : MarketDataEvent → Bool) (x : MarketDataEvent) (xs : List MarketDataEvent)
    → p x ≡ false
    → count p (x ∷ xs) ≡ count p xs
count-skip p x xs e = rw e (omega arith)

count-tail :
    (p : MarketDataEvent → Bool) (x y : MarketDataEvent) (xs ys : List MarketDataEvent)
    → x ≡ y
    → count p (x ∷ xs) ≡ count p (y ∷ ys)
    → count p xs ≡ count p ys
count-tail p x y xs ys e same =
    let all : count p (x ∷ xs) ≡ count p (x ∷ ys) = same ∙ ap (λ z. count p (z ∷ ys)) (sym e) in
    ground arith

abbrev holds {ℓ} : {A : Type ℓ} → Dec A → Bool
holds (yes _) = true
holds (no _) = false

holds-true {ℓ} : {A : Type ℓ} (d : Dec A) → A → holds d ≡ true
holds-true (yes _) a = refl
holds-true (no n) a = absurd (n a)

holds-false {ℓ} : {A : Type ℓ} (d : Dec A) → ¬ A → holds d ≡ false
holds-false (yes a) n = absurd (n a)
holds-false (no _) n = refl

-- Whether it is just the event.
abbrev is_event : MarketDataEvent → MarketDataEvent → Bool
is_event x z = holds (MarketDataEvent-discrete x z)

is_event_refl : (x : MarketDataEvent) → is_event x x ≡ true
is_event_refl x = holds-true (MarketDataEvent-discrete x x) refl

is_event-other : (x z : MarketDataEvent) → x ≢ z → is_event x z ≡ false
is_event-other x z differs = holds-false (MarketDataEvent-discrete x z) differs

-- An event that comes before the others does not stand among them.
count-below :
    (x : MarketDataEvent) (n : ℕ) (events : List MarketDataEvent)
    → x.ingest_sequence < n
    → RisingFrom n events
    → count (is_event x) events ≡ 0
count-below x n [] lt r = refl
count-below x n (event ∷ events) lt r =
    let rest = count-below x (suc event.ingest_sequence) events (omega (arith, r.0)) r.1 in
    let other : is_event x event ≡ false =
      is_event-other x event
        λ same. let equal = ap (λ e. e.ingest_sequence) same in omega (arith, r.0) in
    count-skip (is_event x) event events other ∙ rest

-- The first events of two rising lists that agree on every test are equal.
first_unique :
    (x y : MarketDataEvent) (xs ys : List MarketDataEvent)
    → RisingFrom (suc x.ingest_sequence) xs
    → RisingFrom (suc y.ingest_sequence) ys
    → ((p : MarketDataEvent → Bool) → count p (x ∷ xs) ≡ count p (y ∷ ys))
    → x ≡ y
first_unique x y xs ys r s same = elim (MarketDataEvent-discrete x y) [
  | yes e ↦ e
  | no d ↦
      let here = count-here (is_event x) x xs (is_event_refl x) in
      let there = count-skip (is_event x) y ys (is_event-other x y d) in
      let here_too = count-here (is_event y) y ys (is_event_refl y) in
      let there_too = count-skip (is_event y) x xs (is_event-other y x λ e. d (sym e)) in
      let all = same (is_event x) in
      let all_too = same (is_event y) in
      absurd (
        ground (
          arith,
          count-below x (suc y.ingest_sequence) ys,
          count-below y (suc x.ingest_sequence) xs,
          here,
          there,
          here_too,
          there_too,
          all,
          all_too,
        ))
]

-- Rising lists of events that agree on every test are equal.
pub RisingFrom-unique :
    (n m : ℕ) (xs ys : List MarketDataEvent)
    → RisingFrom n xs
    → RisingFrom m ys
    → ((p : MarketDataEvent → Bool) → count p xs ≡ count p ys)
    → xs ≡ ys
RisingFrom-unique n m [] [] r s same = refl
RisingFrom-unique n m [] (y ∷ ys) r s same = let none_there = same (λ _. true) in ground arith
RisingFrom-unique n m (x ∷ xs) [] r s same = let none_there = same (λ _. true) in ground arith
RisingFrom-unique n m (x ∷ xs) (y ∷ ys) r s same =
    let first = first_unique x y xs ys r.1 s.1 same in
    let rest =
      RisingFrom-unique (suc x.ingest_sequence) (suc y.ingest_sequence) xs ys r.1 s.1
        λ p. count-tail p x y xs ys first (same p) in
    ap (λ e. e ∷ xs) first ∙ ap (◌∷◌ y) rest
