-- ===== src/Codec/RoundTrip.antt =====
-- Reading back what was written of an event.
use poly_market_btc_arbitrag.Prelude.{
  ℕ, ◌<◌, ◌≡◌, refl, true, ◌||◌, Option, none, some, List, [], ◌∷◌, String, string_eq, eqb, All,
  All-mono, All-every, arith,
}
use poly_market_btc_arbitrag.Json.{Json, text, array}
use poly_market_btc_arbitrag.Json.Fields.{get_field, entry_of, as_object}
use poly_market_btc_arbitrag.Models.Enums.{EventSource, Outcome, Timeframe, timeframe_value}
use poly_market_btc_arbitrag.Models.Payloads.{
  Decimal, MarketDataEvent, EventPayload, stream_of, PriceLevel, SourceHealthSnapshot,
  MarketWindowPayload, market_window_state, source_status, snapshot_tick, chainlink_price,
  binance_agg_trade, binance_book_ticker, binance_depth20, polymarket_book, polymarket_price_change,
  polymarket_best_bid_ask, polymarket_last_trade, polymarket_tick_size_change,
  polymarket_market_resolved,
}
use poly_market_btc_arbitrag.Codec.Values.{
  Python, ReadsDecimals, iterate, read_all, text_or_none, optional, text_of, int_of, decimal_of,
}
use poly_market_btc_arbitrag.Codec.Enums.{
  outcome_value, outcome_from, timeframe_from, source_from-value, stream_from-value,
  taker_side_from-value, outcome_from-value, timeframe_from-value,
}
use poly_market_btc_arbitrag.Codec.Write.{
  number, optional_json, each, health_json, health_row_json, market_window_json, amount, level_json,
  payload_json, event_json,
}
use poly_market_btc_arbitrag.Codec.Read.{window_state, payload_from, event_from_dict}
use poly_market_btc_arbitrag.Codec.Parts.{
  level_from_dict, read_list, read_texts, source_health_from_dict, health_row, read_health,
  market_window_of, market_window_from_dict,
}

-- What the classes check of their own fields: the price of a level is above 0.
abbrev pub HasPrice : PriceLevel → Type 0
HasPrice level = 0 < level.price

abbrev pub WellPayload : EventPayload → Type 0
WellPayload (binance_depth20 p) = All HasPrice p.bids × All HasPrice p.asks
WellPayload (polymarket_book p) = All HasPrice p.bids × All HasPrice p.asks
WellPayload _ = Unit

text_or_none-json : (o : Option String) → text_or_none (some (optional_json text o)) ≡ o
text_or_none-json none = refl
text_or_none-json (some s) = refl

read_all-each {ℓ} :
    {A : Type ℓ} (read : Json → Option A) (write : A → Json) (list : List A)
    → All (λ a. read (write a) ≡ some a) list
    → read_all read (each write list) ≡ some list
unfolding read_all
read_all-each read write [] h = refl
read_all-each read write (a ∷ list) (e, h) = rw (e, read_all-each read write list h) refl

module _ (py : Python) (law : ReadsDecimals py) where
  decimal_of-json : (d : Decimal) → decimal_of py (amount py d) ≡ some d
  decimal_of-json d = rw (law.decimal-show d) refl

  optional-int : (o : Option ℕ) → optional (int_of py) (some (optional_json number o)) ≡ some o
  optional-int none = refl
  optional-int (some n) = refl

  optional-decimal :
      (o : Option Decimal) → optional (decimal_of py) (some (optional_json (amount py) o)) ≡ some o
  optional-decimal none = refl
  optional-decimal (some d) = rw (law.decimal-show d) refl

  optional-outcome :
      (o : Option Outcome)
      → optional
          (λ m. outcome_from (text_of py m))
          (some (optional_json (λ m. text (outcome_value m)) o))
        ≡ some o
  optional-outcome none = refl
  optional-outcome (some m) = rw (outcome_from-value m) refl

  optional-timeframe :
      (o : Option Timeframe)
      → optional
          (λ m. timeframe_from (text_of py m))
          (some (optional_json (λ m. text (timeframe_value m)) o))
        ≡ some o
  optional-timeframe none = refl
  optional-timeframe (some m) = rw (timeframe_from-value m) refl

  level_from_dict-json :
      (level : PriceLevel) → HasPrice level → level_from_dict py (level_json py level) ≡ some level
  unfolding level_from_dict level_json get_field entry_of
  level_from_dict-json level h =
      rw (law.decimal-show level.price, law.decimal-show level.quantity) (ground arith)

  read_list-json :
      (levels : List PriceLevel)
      → All HasPrice levels
      → read_list py (level_from_dict py) (some (array (each (level_json py) levels))) ≡ some levels
  unfolding iterate
  read_list-json levels h =
      read_all-each (level_from_dict py) (level_json py) levels
        (All-mono level_from_dict-json levels h)

  read_texts-json :
      (texts : List String) → read_texts py (some (array (each text texts))) ≡ some texts
  unfolding iterate
  read_texts-json texts =
      read_all-each (λ item. some (text_of py item)) text texts (All-every (λ s. refl) texts)

  source_health_from_dict-json :
      (h : SourceHealthSnapshot) → source_health_from_dict py (health_json h) ≡ some h
  unfolding source_health_from_dict health_json get_field entry_of
  source_health_from_dict-json h = simp (text_or_none-json, optional-int)

  market_window_from_dict-json :
      (o : Option MarketWindowPayload)
      → market_window_from_dict py (some (optional_json market_window_json o)) ≡ some o
  unfolding market_window_from_dict market_window_of market_window_json get_field entry_of
  market_window_from_dict-json none = refl
  market_window_from_dict-json (some m) = simp (timeframe_from-value)

  health_row-json :
      (row : EventSource × SourceHealthSnapshot) → health_row py (health_row_json row) ≡ some row
  unfolding health_row health_json
  health_row-json row = rw (source_from-value row.0, source_health_from_dict-json row.1) refl

  read_health-json :
      (rows : List (EventSource × SourceHealthSnapshot))
      → read_health py (some (array (each health_row_json rows))) ≡ some rows
  unfolding read_health
  read_health-json rows =
      read_all-each (health_row py) health_row_json rows (All-every health_row-json rows)

  payload_from-json :
      (value : Json) (payload : EventPayload)
      → WellPayload payload
      → payload_from py (stream_of payload) 2 value (payload_json py payload) ≡ some payload
  unfolding payload_from stream_of payload_json get_field entry_of window_state
  payload_from-json value (market_window_state p) w =
      simp (timeframe_from-value, market_window_from_dict-json, optional-int, text_or_none-json)
  payload_from-json value (source_status p) w = simp (source_from-value, text_or_none-json)
  payload_from-json value (snapshot_tick p) w = simp read_health-json
  payload_from-json value (chainlink_price p) w = simp law.decimal-show
  payload_from-json value (binance_agg_trade p) w = simp (law.decimal-show, taker_side_from-value)
  payload_from-json value (binance_book_ticker p) w = simp law.decimal-show
  payload_from-json value (binance_depth20 p) w =
      rw (read_list-json p.bids w.0, read_list-json p.asks w.1) refl
  payload_from-json value (polymarket_book p) w =
      rw (read_list-json p.bids w.0, read_list-json p.asks w.1, text_or_none-json p.book_hash) refl
  payload_from-json value (polymarket_price_change p) w =
      simp (law.decimal-show, optional-decimal, text_or_none-json)
  payload_from-json value (polymarket_best_bid_ask p) w = simp optional-decimal
  payload_from-json value (polymarket_last_trade p) w = simp (law.decimal-show, optional-decimal)
  payload_from-json value (polymarket_tick_size_change p) w = simp law.decimal-show
  payload_from-json value (polymarket_market_resolved p) w =
      simp (text_or_none-json, optional-outcome, read_texts-json)

  payload_from_version-json :
      (version : ℕ) (value : Json) (payload : EventPayload)
      → version ≡ 2
      → WellPayload payload
      → payload_from py (stream_of payload) version value (payload_json py payload) ≡ some payload
  payload_from_version-json version value payload two w = rw two (payload_from-json value payload w)

  as_object-payload_json :
      (payload : EventPayload)
      → as_object (some (payload_json py payload)) ≡ some (payload_json py payload)
  unfolding payload_json
  as_object-payload_json (snapshot_tick p) = refl
  as_object-payload_json payload = refl

  -- An event of the current version, whose levels have prices above 0, is read back as it was written, if
  -- `Decimal` reads what it shows.
  pub event_from_dict-json :
      (e : MarketDataEvent)
      → e.schema_version ≡ 2
      → WellPayload e.payload
      → event_from_dict py (event_json py e) ≡ some e
  unfolding event_from_dict event_json get_field entry_of
  event_from_dict-json e two well =
      let version : (eqb e.schema_version 1 || eqb e.schema_version 2) ≡ true = ground arith in
      let current : eqb e.schema_version 2 ≡ true = ground arith in
      simp
        (
          stream_from-value,
          as_object-payload_json,
          payload_from_version-json e.schema_version (event_json py e) e.payload two well,
          source_from-value,
          optional-int,
          optional-timeframe,
          optional-outcome,
          text_or_none-json,
        )
        (rw (version, current) refl)
