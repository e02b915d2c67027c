-- ===== src/Chainlink/Counts.antt =====
-- What becomes of each message of the source.
use poly_market_btc_arbitrag.Prelude.{
  ℕ, zero, suc, ◌+◌, ◌-◌, ◌≤◌, ◌≡◌, refl, Option, none, some, List, [], ◌∷◌, ◌++◌, String,
  string_eq, length, arith, Bool-cases, inl, inr,
}
use poly_market_btc_arbitrag.Decimals.{ℤ}
use poly_market_btc_arbitrag.Dict.{contains}
use poly_market_btc_arbitrag.Json.{Json}
use poly_market_btc_arbitrag.Json.Messages.{Message, emit}
use poly_market_btc_arbitrag.Models.Enums.{chainlink_rtds, source_eq}
use poly_market_btc_arbitrag.Models.Payloads.{MarketDataEvent}
use poly_market_btc_arbitrag.Health.{row, change, record_invalid, record_duplicate}
use poly_market_btc_arbitrag.Chainlink.{
  RtdsSource, seen_limit, drop_oldest, forget, accept, parse_chainlink_message, receive,
  receive_all,
}

-- The messages that were counted as invalid or as duplicates.
unfoldable pub refused : RtdsSource → ℕ
refused s =
    (row s.health chainlink_rtds).invalid_count + (row s.health chainlink_rtds).duplicate_count

accept-refused :
    (s : RtdsSource) (result : Option MarketDataEvent) (events : List MarketDataEvent)
    → suc (length events + refused s)
      ≡ length (emit (accept s result).0 events) + refused (accept s result).1
unfolding accept refused record_invalid record_duplicate row change
accept-refused s none events = omega arith
accept-refused s (some event) events = ground arith

length-drop_oldest : (n : ℕ) (ids : List String) → length (drop_oldest n ids) ≡ length ids - n
length-drop_oldest zero ids = omega arith
length-drop_oldest (suc n) [] = omega arith
length-drop_oldest (suc n) (id ∷ ids) = ground (arith, length-drop_oldest n ids)

accept-bounded :
    (s : RtdsSource) (result : Option MarketDataEvent)
    → length s.seen ≤ seen_limit
    → length (accept s result).1.seen ≤ seen_limit
unfolding accept forget
accept-bounded s none h = h
accept-bounded s (some event) h = elim (Bool-cases (contains event.event_id s.seen)) [
  | inl e ↦ rw e h
  | inr e ↦
      let ids = s.seen ++ event.event_id ∷ [] in
      rw e (ground (arith, length-drop_oldest (length ids - seen_limit) ids))
]

module _ (str : Json → String) (decimal : String → Option ℤ) where
  -- Each message is published, or counted as invalid, or counted as a duplicate, and just one of these; and
  -- the identifiers that are kept stay at most 4096, if they were.
  pub receive_all-refused :
      (messages : List Message) (s : RtdsSource)
      → length s.seen ≤ seen_limit
      → (length messages + refused s
          ≡ length (receive_all str decimal messages s).0
            + refused (receive_all str decimal messages s).1)
        × (length (receive_all str decimal messages s).1.seen ≤ seen_limit)
  unfolding receive_all receive
  receive_all-refused [] s h = (refl, h)
  receive_all-refused (m ∷ messages) s h =
      let result =
        parse_chainlink_message str decimal m.body m.received.wall_ns m.received s.last_source_ns in
      let rest = receive_all-refused messages (accept s result).1 (accept-bounded s result h) in
      (
        omega (
          arith,
          accept-refused s result (receive_all str decimal messages (accept s result).1).0,
          rest.0,
        ),
        rest.1,
      )
