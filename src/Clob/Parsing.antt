-- ===== src/Clob/Parsing.antt =====
-- The parts of a CLOB message that `apply_clob_message` of market_data/sources/polymarket_clob.py reads. An
-- InvalidEventError, and a TypeError that the caller treats like one, is `none`. A float that is not finite, for
-- which `int` raises another exception, is left out.
use Prim.Native.String.{◌++◌ as str_append}
use poly_market_btc_arbitrag.Prelude.{
  ℕ, ◌*◌, Bool, true, false, not, ◌||◌, Option, none, some, List, [], ◌∷◌, String, ◌==◌, string_eq,
  eqb, leb, if◌then◌else◌, ◌>>=◌, ◌>>◌, require,
}
use poly_market_btc_arbitrag.Decimals.{pos}
use poly_market_btc_arbitrag.Dict.{Dict}
use poly_market_btc_arbitrag.Json.{
  Json, null, integer, text, array, object, Items, nil, cons, Entries, end, entry,
}
use poly_market_btc_arbitrag.Json.Fields.{get_field, is_text, read_decimal}
use poly_market_btc_arbitrag.Models.Payloads.{
  Decimal, PriceLevel, EventPayload, polymarket_book, polymarket_price_change,
  polymarket_best_bid_ask, polymarket_last_trade, polymarket_tick_size_change,
}
use poly_market_btc_arbitrag.Codec.Values.{Python, int_of, text_of, text_at, text_or_none, optional}
use poly_market_btc_arbitrag.Clob.{ClobAssetMetadata, event_id}
use poly_market_btc_arbitrag.Clob.Levels.{book_levels}

-- What is used of Python's texts: `lower`, the text that `json.dumps` makes with sorted keys, and the
-- hexadecimal SHA-256.
pub record Texts : Type 0 where
  pub python : Python
  pub lower : String → String
  pub canonical : Json → String
  pub sha256 : String → String

unfoldable pub set_entry : String → Json → Entries → Entries
set_entry key value end = entry key value end
set_entry key value (entry name old entries) =
    if name == key then entry name value entries else entry name old (set_entry key value entries)

-- `dict.update`
unfoldable pub update_entries : Entries → Entries → Entries
update_entries entries end = entries
update_entries entries (entry key value changes) =
    update_entries (set_entry key value entries) changes

-- `change_message`
abbrev pub updated : Json → Json → Json
updated (object entries) (object changes) = object (update_entries entries changes)
updated message change = message

-- The identifiers in a list of texts that are not empty.
unfoldable pub named_assets : Items → Option (List String)
named_assets nil = some []
named_assets (cons (text asset) items) = do
  require (not (asset == ""))
  rest ← named_assets items
  some (asset ∷ rest)
named_assets (cons _ items) = none

-- `raw_asset_ids`, where it is there
abbrev pub listed_assets : Option Json → Option (Option (List String))
listed_assets none = some none
listed_assets (some null) = some none
listed_assets (some (array items)) = named_assets items >>= λ assets. some (some assets)
listed_assets _ = none

abbrev pub is_name : Option String → String → Bool
is_name none name = false
is_name (some found) name = found == name

-- The assets of a market or of a condition.
unfoldable pub assets_of :
    Option String → Option String → Dict String ClobAssetMetadata → List String
assets_of market condition [] = []
assets_of market condition ((asset, metadata) ∷ assets) =
    let rest = assets_of market condition assets in
    if is_name market metadata.market_id
      || (is_name market metadata.condition_id || is_name condition metadata.condition_id)
    then asset ∷ rest
    else rest

abbrev pub or_else {ℓ} : {A : Type ℓ} → Option A → A → A
or_else none a = a
or_else (some b) a = b

abbrev pub first_of {ℓ} : {A : Type ℓ} → Option A → Option A → Option A
first_of none other = other
first_of (some a) other = some a

-- Whether both sides have levels, and the best bid is not below the best ask.
abbrev pub is_crossed : List PriceLevel → List PriceLevel → Bool
is_crossed (bid ∷ bids) (ask ∷ asks) = leb ask.price bid.price
is_crossed _ _ = false

module _ (t : Texts) where
  -- `_timestamp`
  unfoldable pub timestamp : Json → Option ℕ
  timestamp message = do
    value ← get_field "timestamp" message
    milliseconds ← int_of t.python value
    require (not (eqb milliseconds 0))
    some (milliseconds * 1000000)

  abbrev pub digest_of : Json → String → String → ℕ → String
  digest_of message asset event_type time = t.sha256 (
      str_append asset (
        str_append ":" (
          str_append event_type (
            str_append ":" (
              str_append (t.python.str (integer (pos time)))
                (str_append ":" (t.canonical message)))))))

  abbrev pub hash_or_digest : Json → String → String → ℕ → Option String → String
  hash_or_digest message asset event_type time none = digest_of message asset event_type time
  hash_or_digest message asset event_type time (some hash) =
      if hash == "" then digest_of message asset event_type time else hash

  -- `_event_id`
  abbrev pub message_id : Json → String → String → ℕ → String
  message_id message asset event_type time =
      event_id event_type asset
        (hash_or_digest message asset event_type time (text_or_none (get_field "hash" message)))

  abbrev pub amount_in : Bool → Option Json → Option Decimal
  amount_in strictly_positive value =
      read_decimal (text_of t.python) t.python.decimal strictly_positive value

  -- `None` where it is missing or `None`
  abbrev pub optional_amount : Option Json → Option (Option Decimal)
  optional_amount value = optional (λ v. amount_in false (some v)) value

  abbrev pub text_or_empty : Option Json → String
  text_or_empty none = ""
  text_or_empty (some value) = text_of t.python value

  unfoldable pub change_payload : Json → Option EventPayload
  change_payload change = do
    require (is_text "BUY" (get_field "side" change) || is_text "SELL" (get_field "side" change))
    side ← text_or_none (get_field "side" change)
    price ← amount_in true (get_field "price" change)
    quantity ← amount_in false (get_field "size" change)
    best_bid ← optional_amount (get_field "best_bid" change)
    best_ask ← optional_amount (get_field "best_ask" change)
    some (
        polymarket_price_change (record {
          side = side;
          price = price;
          quantity = quantity;
          best_bid = best_bid;
          best_ask = best_ask;
          change_hash = text_or_none (get_field "hash" change);
        }))

  unfoldable pub book_payload : Json → Option EventPayload
  book_payload message = do
    bids ← book_levels (text_of t.python) t.python.decimal true (get_field "bids" message)
    asks ← book_levels (text_of t.python) t.python.decimal false (get_field "asks" message)
    require (not (is_crossed bids asks))
    some (
        polymarket_book (record {
          bids = bids;
          asks = asks;
          book_hash = text_or_none (get_field "hash" message);
        }))

  unfoldable pub quote_payload : Json → Option EventPayload
  quote_payload message = do
    best_bid ← amount_in false (get_field "best_bid" message)
    best_ask ← amount_in false (get_field "best_ask" message)
    spread ← amount_in false (get_field "spread" message)
    some (
        polymarket_best_bid_ask
          (record { best_bid = some best_bid; best_ask = some best_ask; spread = some spread }))

  unfoldable pub trade_payload : Json → Option EventPayload
  trade_payload message = do
    price ← amount_in true (get_field "price" message)
    quantity ← amount_in true (get_field "size" message)
    side ← text_at t.python "side" message
    fee_rate_bps ← optional_amount (get_field "fee_rate_bps" message)
    some (
        polymarket_last_trade
          (record { price = price; quantity = quantity; side = side; fee_rate_bps = fee_rate_bps }))

  unfoldable pub tick_payload : Json → Option EventPayload
  tick_payload message = do
    old_tick_size ← amount_in true (get_field "old_tick_size" message)
    new_tick_size ← amount_in true (get_field "new_tick_size" message)
    some (
        polymarket_tick_size_change
          (record { old_tick_size = old_tick_size; new_tick_size = new_tick_size }))

  -- The payload of a message about a single asset.
  unfoldable pub asset_payload : String → Json → Option EventPayload
  asset_payload event_type message =
      if event_type == "book"
      then book_payload message
      else if event_type == "best_bid_ask"
      then quote_payload message
      else if event_type == "last_trade_price"
      then trade_payload message
      else if event_type == "tick_size_change"
      then tick_payload message
      else none
