-- ===== src/Json/Fields.antt =====
-- Reading the fields of a message, and the decimals in them: `parse_decimal` of market_data/models.py and
-- the helpers of market_data/sources/.
use poly_market_btc_arbitrag.Prelude.{
  ℕ, suc, Bool, true, false, ◌&&◌, Option, none, some, String, ◌==◌, string_eq, eqb, if◌then◌else◌,
  ◌<◌, arith, Every,
}
use poly_market_btc_arbitrag.Decimals.{ℤ, pos, negsuc}
use poly_market_btc_arbitrag.Json.{Json, integer, text, object, Entries, end, entry}

unfoldable pub entry_of : String → Entries → Option Json
entry_of key end = none
entry_of key (entry name value entries) = if name == key then some value else entry_of key entries

-- `message.get(key)`, where the message is an object
unfoldable pub get_field : String → Json → Option Json
get_field key (object entries) = entry_of key entries
get_field key _ = none

-- `value == text`, of a value that may be missing
abbrev pub is_text : String → Option Json → Bool
is_text wanted (some (text found)) = found == wanted
is_text wanted _ = false

-- `_positive_int` and `_integer`: a boolean is no integer here.
unfoldable pub positive_int : Option Json → Option ℕ
positive_int (some (integer (pos (suc n)))) = some (suc n)
positive_int _ = none

-- `parse_decimal` of a text that `Decimal` has read as a finite number, or not
unfoldable pub parse_decimal : Bool → Option ℤ → Option ℕ
parse_decimal strictly_positive none = none
parse_decimal strictly_positive (some (negsuc n)) = none
parse_decimal strictly_positive (some (pos n)) =
    if strictly_positive && eqb n 0 then none else some n

abbrev pub as_object : Option Json → Option Json
as_object (some (object entries)) = some (object entries)
as_object _ = none

parse_decimal-positive : (value : Option ℤ) → Every (λ n. 0 < n) (parse_decimal true value)
unfolding parse_decimal
parse_decimal-positive none = tt
parse_decimal-positive (some (negsuc n)) = tt
parse_decimal-positive (some (pos n)) = ground arith

-- A missing value is `None`, whose text is no decimal.
module _ (str : Json → String) (decimal : String → Option ℤ) where
  abbrev pub read_decimal : Bool → Option Json → Option ℕ
  read_decimal strictly_positive none = none
  read_decimal strictly_positive (some value) =
      parse_decimal strictly_positive (decimal (str value))

  pub read_decimal-positive : (value : Option Json) → Every (λ n. 0 < n) (read_decimal true value)
  read_decimal-positive none = tt
  read_decimal-positive (some value) = parse_decimal-positive (decimal (str value))
