-- ===== src/Codec/Values.antt =====
-- Reading decoded values as Python does: `str`, `int`, `bool` and `Decimal` of one, iteration over one, and the
-- lookups in a dictionary that `event_from_dict` makes. An exception is `none`; numbers and decimals below 0
-- and decimals that are not finite, for which the records have no place, are `none` too.
use Prim.Native.String.{◌∷◌ as push}
use poly_market_btc_arbitrag.Prelude.{
  ℕ, zero, Bool, true, false, not, Option, none, some, List, [], ◌∷◌, String, ◌==◌, string_eq,
  ◌>>=◌, ◌≡◌,
}
use poly_market_btc_arbitrag.Decimals.{ℤ, pos}
use poly_market_btc_arbitrag.Json.{
  Json, null, boolean, integer, real, text, array, object, Items, nil, cons, Entries, end, entry,
}
use poly_market_btc_arbitrag.Json.Fields.{get_field}
use poly_market_btc_arbitrag.Models.Payloads.{Decimal}

-- What is used of Python's library: `str` of a value that is no text, `int` of a text and of a float, the
-- truth of a float, and `Decimal` both ways, in units of the common place.
pub record Python : Type 0 where
  pub str : Json → String
  pub int_of_text : String → Option ℤ
  pub int_of_real : String → Option ℤ
  pub is_zero_real : String → Bool
  pub decimal : String → Option ℤ
  pub show_decimal : Decimal → String

-- `Decimal(str(d)) == d`
pub record ReadsDecimals (py : Python) : Type 0 where
  pub decimal-show : (d : Decimal) → py.decimal (py.show_decimal d) ≡ some (pos d)

abbrev pub natural : Option ℤ → Option ℕ
natural (some (pos n)) = some n
natural _ = none

unfoldable pub chars : String → Items
chars String.[] = nil
chars (push c s) = cons (text (push c "")) (chars s)

unfoldable pub keys_of : Entries → Items
keys_of end = nil
keys_of (entry key value entries) = cons (text key) (keys_of entries)

-- What a loop over a value takes from it.
unfoldable pub iterate : Json → Option Items
iterate (array items) = some items
iterate (text s) = some (chars s)
iterate (object entries) = some (keys_of entries)
iterate _ = none

-- A list from each item, or an error.
unfoldable pub read_all {ℓ} : {A : Type ℓ} → (Json → Option A) → Items → Option (List A)
read_all read nil = some []
read_all read (cons item items) = do a ← read item; rest ← read_all read items; some (a ∷ rest)

-- `value.get(key)` where it is a text, and else `None`
abbrev pub text_or_none : Option Json → Option String
text_or_none (some (text s)) = some s
text_or_none _ = none

-- `None` where the value is missing or `None`, and else what is read of it
abbrev pub optional {ℓ} : {A : Type ℓ} → (Json → Option A) → Option Json → Option (Option A)
optional read none = some none
optional read (some null) = some none
optional read (some (boolean b)) = read (boolean b) >>= λ a. some (some a)
optional read (some (integer n)) = read (integer n) >>= λ a. some (some a)
optional read (some (real s)) = read (real s) >>= λ a. some (some a)
optional read (some (text s)) = read (text s) >>= λ a. some (some a)
optional read (some (array items)) = read (array items) >>= λ a. some (some a)
optional read (some (object entries)) = read (object entries) >>= λ a. some (some a)

module _ (py : Python) where
  -- `str(value)`
  abbrev pub text_of : Json → String
  text_of (text s) = s
  text_of value = py.str value

  -- `int(value)`
  abbrev pub int_of : Json → Option ℕ
  int_of (boolean true) = some 1
  int_of (boolean false) = some 0
  int_of (integer n) = natural (some n)
  int_of (real s) = natural (py.int_of_real s)
  int_of (text s) = natural (py.int_of_text s)
  int_of _ = none

  -- `bool(value)`
  abbrev pub truth_of : Json → Bool
  truth_of null = false
  truth_of (boolean b) = b
  truth_of (integer (pos zero)) = false
  truth_of (integer _) = true
  truth_of (real s) = not (py.is_zero_real s)
  truth_of (text s) = not (s == "")
  truth_of (array nil) = false
  truth_of (array _) = true
  truth_of (object end) = false
  truth_of (object _) = true

  -- `Decimal(str(value))`
  abbrev pub decimal_of : Json → Option Decimal
  decimal_of value = natural (py.decimal (text_of value))

  -- Of `value[key]`.
  abbrev pub text_at : String → Json → Option String
  text_at key value = get_field key value >>= λ v. some (text_of v)

  abbrev pub int_at : String → Json → Option ℕ
  int_at key value = get_field key value >>= int_of

  abbrev pub truth_at : String → Json → Option Bool
  truth_at key value = get_field key value >>= λ v. some (truth_of v)

  abbrev pub decimal_at : String → Json → Option Decimal
  decimal_at key value = get_field key value >>= decimal_of
