-- ===== src/Storage/ByKey.antt =====
-- The events of one source's stream among a list of events.
use mathlib.Core.List.{append_assoc}
use poly_market_btc_arbitrag.Prelude.{
  ◌≡◌, refl, sym, ap, subst, false, List, [], ◌∷◌, ◌++◌, ◌==◌, nat_eq, string_eq, pair_eq,
  if◌then◌else◌, All, Bool-cases, inl, inr, append_nil, pair_equals_iff,
}
use poly_market_btc_arbitrag.Models.Payloads.{MarketDataEvent}
use poly_market_btc_arbitrag.Storage.{Key, key_of}

-- The events of one source's stream.
unfoldable pub of_key : Key → List MarketDataEvent → List MarketDataEvent
of_key key [] = []
of_key key (event ∷ events) =
    let rest = of_key key events in if key_of event == key then event ∷ rest else rest

pub of_key-append :
    (key : Key) (xs ys : List MarketDataEvent)
    → of_key key (xs ++ ys) ≡ of_key key xs ++ of_key key ys
unfolding of_key
of_key-append key [] ys = refl
of_key-append key (event ∷ xs) ys = elim (Bool-cases (key_of event == key)) [
  | inl e ↦ rw e (ap (◌∷◌ event) (of_key-append key xs ys))
  | inr e ↦ rw e (of_key-append key xs ys)
]

pub of_key-same :
    (key : Key) (events : List MarketDataEvent)
    → All (λ e. key_of e ≡ key) events
    → of_key key events ≡ events
unfolding of_key
of_key-same key [] a = refl
of_key-same key (event ∷ events) a =
    rw ((pair_equals_iff (key_of event) key).1 a.0) (ap (◌∷◌ event) (of_key-same key events a.1))

pub of_key-other :
    (key other : Key) (events : List MarketDataEvent)
    → (key == other) ≡ false
    → All (λ e. key_of e ≡ key) events
    → of_key other events ≡ []
unfolding of_key
of_key-other key other [] d a = refl
of_key-other key other (event ∷ events) d a =
    let differs : (key_of event == other) ≡ false = subst (λ k. (k == other) ≡ false) (sym a.0) d in
    rw differs (of_key-other key other events d a.1)

-- An event that is added to the list of its own key, among lists for all keys.
pub add_event :
    (held : Key → List MarketDataEvent) (event : MarketDataEvent) (key : Key)
    (old : List MarketDataEvent)
    → old ++ (if key_of event == key then held (key_of event) ++ event ∷ [] else held key)
      ≡ (old ++ held key) ++ of_key key (event ∷ [])
unfolding of_key
add_event held event key old = elim (Bool-cases (key_of event == key)) [
  | inl e ↦
      let same = (pair_equals_iff (key_of event) key).0 e in
      rw (of_key, e) (simp (ap held same, append_assoc))
  | inr e ↦ rw (of_key, e) (sym (append_nil (old ++ held key)))
]

-- The same where the list of the key has been moved behind the old events, and a new one begins.
pub move_event :
    (held : Key → List MarketDataEvent) (event : MarketDataEvent) (key : Key)
    (old : List MarketDataEvent)
    → All (λ e. key_of e ≡ key_of event) (held (key_of event))
    → (old ++ of_key key (held (key_of event)))
        ++ (if key_of event == key then event ∷ [] else held key)
      ≡ (old ++ held key) ++ of_key key (event ∷ [])
unfolding of_key
move_event held event key old all = elim (Bool-cases (key_of event == key)) [
  | inl e ↦
      let same = (pair_equals_iff (key_of event) key).0 e in
      let kept : of_key key (held (key_of event)) ≡ held key =
        subst (λ k. of_key k (held (key_of event)) ≡ held k) same
          (of_key-same (key_of event) (held (key_of event)) all) in
      rw (of_key, e, kept) refl
  | inr e ↦
      rw (of_key, e, of_key-other (key_of event) key (held (key_of event)) e all) (simp append_nil)
]
