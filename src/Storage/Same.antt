-- ===== src/Storage/Same.antt =====
-- Lists that hold the same events of each source's stream.
use poly_market_btc_arbitrag.Prelude.{
  ℕ, suc, ◌≡◌, refl, sym, ap, subst, ◌∙◌, Bool, false, List, [], ◌∷◌, arith, string_eq, pair_eq,
  ◌==◌, Bool-cases, inl, inr, pair_equals_iff,
}
use poly_market_btc_arbitrag.Models.Payloads.{MarketDataEvent}
use poly_market_btc_arbitrag.Replay.Listed.{RisingFrom, RisingFrom-weaken, count}
use poly_market_btc_arbitrag.Storage.{Key, key_of}
use poly_market_btc_arbitrag.Storage.ByKey.{of_key}

of_key-hit :
    (key : Key) (event : MarketDataEvent) (events : List MarketDataEvent)
    → key_of event ≡ key
    → of_key key (event ∷ events) ≡ event ∷ of_key key events
unfolding of_key
of_key-hit key event events e = rw ((pair_equals_iff (key_of event) key).1 e) refl

of_key-miss :
    (key : Key) (event : MarketDataEvent) (events : List MarketDataEvent)
    → (key_of event == key) ≡ false
    → of_key key (event ∷ events) ≡ of_key key events
unfolding of_key
of_key-miss key event events e = rw e refl

-- The events of a stream are in the order of the sequences where all are.
pub of_key-RisingFrom :
    (key : Key) (n : ℕ) (events : List MarketDataEvent)
    → RisingFrom n events
    → RisingFrom n (of_key key events)
unfolding of_key
of_key-RisingFrom key n [] r = tt
of_key-RisingFrom key n (event ∷ events) r =
    let rest = of_key-RisingFrom key (suc event.ingest_sequence) events r.1 in
    elim (Bool-cases (key_of event == key)) [
      | inl e ↦ rw e (r.0, rest)
      | inr e ↦ rw e (
          RisingFrom-weaken n (suc event.ingest_sequence) (of_key key events) (omega (arith, r.0))
            rest)
    ]

-- The list without the first event of the key, which is given.
record Without (key : Key) (x : MarketDataEvent) (ys : List MarketDataEvent) : Type 0 where
  others : List MarketDataEvent
  same_key : key_of x ≡ key
  counts : (p : MarketDataEvent → Bool) → count p ys ≡ count p (x ∷ others)
  keys : (other : Key) → of_key other ys ≡ of_key other (x ∷ others)

abbrev tail_of : List MarketDataEvent → List MarketDataEvent
tail_of [] = []
tail_of (_ ∷ events) = events

abbrev head_or : MarketDataEvent → List MarketDataEvent → MarketDataEvent
head_or event [] = event
head_or _ (event ∷ _) = event

cons-of_key :
    (key : Key) (x : MarketDataEvent) (xs ys : List MarketDataEvent)
    → of_key key xs ≡ of_key key ys
    → of_key key (x ∷ xs) ≡ of_key key (x ∷ ys)
unfolding of_key
cons-of_key key x xs ys e = elim (Bool-cases (key_of x == key)) [
  | inl hit ↦ rw hit (ap (◌∷◌ x) e)
  | inr miss ↦ rw miss e
]

cancel-of_key :
    (key : Key) (x : MarketDataEvent) (xs ys : List MarketDataEvent)
    → of_key key (x ∷ xs) ≡ of_key key (x ∷ ys)
    → of_key key xs ≡ of_key key ys
cancel-of_key key x xs ys e = elim (Bool-cases (key_of x == key)) [
  | inl hit ↦
      let same = (pair_equals_iff (key_of x) key).0 hit in
      ap tail_of (sym (of_key-hit key x xs same) ∙ e ∙ of_key-hit key x ys same)
  | inr miss ↦ sym (of_key-miss key x xs miss) ∙ e ∙ of_key-miss key x ys miss
]

swap-count :
    (p : MarketDataEvent → Bool) (x y : MarketDataEvent) (ys others : List MarketDataEvent)
    → count p ys ≡ count p (x ∷ others)
    → count p (y ∷ ys) ≡ count p (x ∷ y ∷ others)
swap-count p x y ys others e = omega (arith, e)

swap-of_key :
    (other : Key) (x y : MarketDataEvent) (ys others : List MarketDataEvent)
    → (key_of y == key_of x) ≡ false
    → of_key other ys ≡ of_key other (x ∷ others)
    → of_key other (y ∷ ys) ≡ of_key other (x ∷ y ∷ others)
swap-of_key other x y ys others differ e = elim (Bool-cases (key_of y == other)) [
  | inl hit ↦
      let same = (pair_equals_iff (key_of y) other).0 hit in
      let miss : (key_of x == other) ≡ false = elim (Bool-cases (key_of x == other)) [
        | inl also ↦
            let equal = same ∙ sym ((pair_equals_iff (key_of x) other).0 also) in
            absurd (ground (arith, differ, (pair_equals_iff (key_of y) (key_of x)).1 equal))
        | inr no_hit ↦ no_hit
      ] in
      of_key-hit other y ys same
      ∙ ap (◌∷◌ y) (e ∙ of_key-miss other x others miss)
      ∙ sym (of_key-miss other x (y ∷ others) miss ∙ of_key-hit other y others same)
  | inr miss ↦
      of_key-miss other y ys miss
      ∙ e
      ∙ cons-of_key other x others (y ∷ others) (sym (of_key-miss other y others miss))
]

take_out :
    (key : Key) (x : MarketDataEvent) (rest ys : List MarketDataEvent)
    → of_key key ys ≡ x ∷ rest
    → Without key x ys
unfolding of_key
take_out key x rest [] e = absurd (ground arith)
take_out key x rest (y ∷ ys) e = elim (Bool-cases (key_of y == key)) [
  | inl hit ↦
      let same = (pair_equals_iff (key_of y) key).0 hit in
      let equal : y ≡ x = ap (head_or x) (sym (of_key-hit key y ys same) ∙ e) in
      record {
        others = ys;
        same_key = subst (λ z. key_of z ≡ key) equal same;
        counts = λ p. ap (λ z. count p (z ∷ ys)) equal;
        keys = λ other. ap (λ z. of_key other (z ∷ ys)) equal;
      }
  | inr miss ↦
      let w = take_out key x rest ys (sym (of_key-miss key y ys miss) ∙ e) in
      let differ : (key_of y == key_of x) ≡ false =
        subst (λ k. (key_of y == k) ≡ false) (sym w.same_key) miss in
      record {
        others = y ∷ w.others;
        same_key = w.same_key;
        counts = λ p. swap-count p x y ys w.others (w.counts p);
        keys = λ other. swap-of_key other x y ys w.others differ (w.keys other);
      }
]

-- Lists with the same events of each stream have as many events that pass a test, whatever the test.
pub of_key-count :
    (p : MarketDataEvent → Bool) (xs ys : List MarketDataEvent)
    → ((key : Key) → of_key key xs ≡ of_key key ys)
    → count p xs ≡ count p ys
unfolding of_key
of_key-count p [] [] h = refl
of_key-count p [] (y ∷ ys) h =
    let clash : [] ≡ y ∷ of_key (key_of y) ys = h (key_of y) ∙ of_key-hit (key_of y) y ys refl in
    absurd (ground arith)
of_key-count p (x ∷ xs) ys h =
    let w =
      take_out (key_of x) x (of_key (key_of x) xs) ys
        (sym (h (key_of x)) ∙ of_key-hit (key_of x) x xs refl) in
    let rest =
      of_key-count p xs w.others λ key. cancel-of_key key x xs w.others (h key ∙ w.keys key) in
    omega (arith, rest, w.counts p)
