-- ===== src/Clob/Payloads.antt =====
-- What the payloads of CLOB messages are like.
use poly_market_btc_arbitrag.Prelude.{
  ◌<◌, ◌≡◌, ◌⊎◌, true, false, not, ◌||◌, Option, none, some, String, ◌==◌, string_eq, arith, Every,
  Every-bind, Every-require, Every-if, subst, All-mono,
}
use poly_market_btc_arbitrag.Dict.{contains}
use poly_market_btc_arbitrag.Json.{Json, text}
use poly_market_btc_arbitrag.Json.Fields.{get_field, is_text, read_decimal-positive}
use poly_market_btc_arbitrag.Models.Payloads.{
  Decimal, EventPayload, polymarket_book, polymarket_price_change, polymarket_best_bid_ask,
  polymarket_last_trade, polymarket_tick_size_change, polymarket_market_resolved,
}
use poly_market_btc_arbitrag.Codec.Values.{text_of, text_at, text_or_none}
use poly_market_btc_arbitrag.Codec.RoundTrip.{WellPayload}
use poly_market_btc_arbitrag.Clob.Levels.{book_levels}
use poly_market_btc_arbitrag.Clob.Levels.Order.{WellLevels, book_levels-WellLevels}
use poly_market_btc_arbitrag.Clob.Parsing.{
  Texts, is_crossed, amount_in, optional_amount, change_payload, book_payload, quote_payload,
  trade_payload, tick_payload, asset_payload,
}

-- What a payload of each kind has, in an event of the asset.
abbrev pub WellClob : String → EventPayload → Type 0
WellClob asset (polymarket_book p) =
    WellLevels true p.bids × WellLevels false p.asks × (is_crossed p.bids p.asks ≡ false)
WellClob asset (polymarket_price_change p) = ((p.side ≡ "BUY") ⊎ (p.side ≡ "SELL")) × (0 < p.price)
WellClob asset (polymarket_best_bid_ask p) = Unit
WellClob asset (polymarket_last_trade p) = (0 < p.price) × (0 < p.quantity)
WellClob asset (polymarket_tick_size_change p) = (0 < p.old_tick_size) × (0 < p.new_tick_size)
WellClob asset (polymarket_market_resolved p) = contains asset p.affected_asset_ids ≡ true
WellClob asset _ = ⊥

pub WellClob-WellPayload :
    (asset : String) (payload : EventPayload) → WellClob asset payload → WellPayload payload
WellClob-WellPayload asset (polymarket_book p) w =
    (All-mono (λ level h. h.0) p.bids w.0.1, All-mono (λ level h. h.0) p.asks w.1.1)
WellClob-WellPayload asset (polymarket_price_change p) w = tt
WellClob-WellPayload asset (polymarket_best_bid_ask p) w = tt
WellClob-WellPayload asset (polymarket_last_trade p) w = tt
WellClob-WellPayload asset (polymarket_tick_size_change p) w = tt
WellClob-WellPayload asset (polymarket_market_resolved p) w = tt
WellClob-WellPayload asset _ w = elim w [ ]

side_of :
    (value : Option Json) (side : String)
    → (is_text "BUY" value || is_text "SELL" value) ≡ true
    → text_or_none value ≡ some side
    → (side ≡ "BUY") ⊎ (side ≡ "SELL")
side_of none side h e = ground arith
side_of (some (text found)) side h e =
    ground (arith, string_eq.equals_iff found "BUY", string_eq.equals_iff found "SELL")
side_of (some _) side h e = ground arith

module _ (t : Texts) (asset : String) where
  abbrev Well : Option EventPayload → Type 0
  Well = Every (WellClob asset)

  amount_in-positive : (value : Option Json) (n : Decimal) → amount_in t true value ≡ some n → 0 < n
  amount_in-positive value n e =
      subst (Every (λ n. 0 < n)) e (read_decimal-positive (text_of t.python) t.python.decimal value)

  pub change_payload-Well : (change : Json) → Well (change_payload t change)
  unfolding change_payload
  change_payload-Well change =
      Every-require (WellClob asset)
        (is_text "BUY" (get_field "side" change) || is_text "SELL" (get_field "side" change)) _
        λ known. Every-bind (WellClob asset) (text_or_none (get_field "side" change)) _ λ side e.
          Every-bind (WellClob asset) (amount_in t true (get_field "price" change)) _ λ price f.
            Every-bind (WellClob asset) (amount_in t false (get_field "size" change)) _ λ _ _.
              Every-bind (WellClob asset) (optional_amount t (get_field "best_bid" change)) _ λ _ _.
                Every-bind (WellClob asset) (optional_amount t (get_field "best_ask" change)) _
                  λ _ _. (
                    side_of (get_field "side" change) side known e,
                    amount_in-positive (get_field "price" change) price f,
                  )

  book_payload-Well : (message : Json) → Well (book_payload t message)
  unfolding book_payload
  book_payload-Well message =
      Every-bind (WellClob asset)
        (book_levels (text_of t.python) t.python.decimal true (get_field "bids" message)) _
        λ bids e.
          Every-bind (WellClob asset)
            (book_levels (text_of t.python) t.python.decimal false (get_field "asks" message)) _
            λ asks f. Every-require (WellClob asset) (not (is_crossed bids asks)) _ λ apart. (
              subst (Every (WellLevels true)) e (
                  book_levels-WellLevels (text_of t.python) t.python.decimal true
                    (get_field "bids" message)),
              subst (Every (WellLevels false)) f (
                  book_levels-WellLevels (text_of t.python) t.python.decimal false
                    (get_field "asks" message)),
              ground arith,
            )

  quote_payload-Well : (message : Json) → Well (quote_payload t message)
  unfolding quote_payload
  quote_payload-Well message =
      Every-bind (WellClob asset) (amount_in t false (get_field "best_bid" message)) _ λ _ _.
        Every-bind (WellClob asset) (amount_in t false (get_field "best_ask" message)) _ λ _ _.
          Every-bind (WellClob asset) (amount_in t false (get_field "spread" message)) _ λ _ _. tt

  trade_payload-Well : (message : Json) → Well (trade_payload t message)
  unfolding trade_payload
  trade_payload-Well message =
      Every-bind (WellClob asset) (amount_in t true (get_field "price" message)) _ λ price e.
        Every-bind (WellClob asset) (amount_in t true (get_field "size" message)) _ λ quantity f.
          Every-bind (WellClob asset) (text_at t.python "side" message) _ λ _ _.
            Every-bind (WellClob asset) (optional_amount t (get_field "fee_rate_bps" message)) _
              λ _ _. (
                amount_in-positive (get_field "price" message) price e,
                amount_in-positive (get_field "size" message) quantity f,
              )

  tick_payload-Well : (message : Json) → Well (tick_payload t message)
  unfolding tick_payload
  tick_payload-Well message =
      Every-bind (WellClob asset) (amount_in t true (get_field "old_tick_size" message)) _ λ old e.
        Every-bind (WellClob asset) (amount_in t true (get_field "new_tick_size" message)) _
          λ new f. (
            amount_in-positive (get_field "old_tick_size" message) old e,
            amount_in-positive (get_field "new_tick_size" message) new f,
          )

  pub asset_payload-Well :
      (event_type : String) (message : Json) → Well (asset_payload t event_type message)
  unfolding asset_payload
  asset_payload-Well event_type message =
      Every-if (WellClob asset) (event_type == "book") _ _ (book_payload-Well message) (
        Every-if (WellClob asset) (event_type == "best_bid_ask") _ _ (quote_payload-Well message) (
          Every-if (WellClob asset) (event_type == "last_trade_price") _ _
            (trade_payload-Well message)
            (Every-if (WellClob asset) (event_type == "tick_size_change") _ _
              (tick_payload-Well message) tt)))
