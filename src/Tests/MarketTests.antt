-- ===== src/Tests/MarketTests.antt =====
-- Tests of the checks of a market's payload.
use poly_market_btc_arbitrag.Prelude.{
  ℕ, ◌≡◌, refl, true, none, some, Option, String, ◌==◌, string_eq, if◌then◌else◌, is_some, Every,
}
use poly_market_btc_arbitrag.Decimals.{pos, round_half_even}
use poly_market_btc_arbitrag.Texts.{
  strip, lstrip_if, rstrip_if, rstrip_slash, offset_for_z, is_space, is_empty,
}
use poly_market_btc_arbitrag.Json.{
  Json, Items, object, array, text, integer, boolean, entry, end, cons, nil,
}
use poly_market_btc_arbitrag.Json.Fields.{get_field, entry_of}
use poly_market_btc_arbitrag.Models.Enums.{five_minutes, duration_seconds}
use poly_market_btc_arbitrag.Discovery.Floats.{whole_milliseconds, nearest}
use poly_market_btc_arbitrag.Discovery.Validation.{
  Library, expected_resolution_source, slug_prefix, build_market_slug, parse_gamma_datetime,
  required_id, json_list, normalized_source, outcome_of, token_of, pair_tokens, read_tokens,
  validate_market_payload,
}
use poly_market_btc_arbitrag.Discovery.Validation.Accepted.{
  IsExpected, validate_market_payload-IsExpected,
}

abbrev show : Json → String
show (text s) = s
show (integer _) = "900"
show _ = "other"

abbrev time_of : String → Option ℕ
time_of s = if s == "start" then some 900000000 else if s == "end" then some 1200000000 else none

-- A library that knows what the payload below needs.
abbrev py : Library
py = record {
  str = show;
  lower = λ s. s;
  fromisoformat = time_of;
  loads = λ s. some (array (cons (text "a") (cons (text "b") nil)));
  urlsplit = λ s. record { scheme = "https"; netloc = ""; path = s; query = ""; fragment = "" };
  urlunsplit = λ r. r.path;
}

abbrev names : Items
names = cons (text "down ") (cons (text "up") nil)

-- The tokens are a text that holds a list.
abbrev payload : Json
payload = object (
    entry "id" (integer (pos 900)) (
      entry "conditionId" (text " condition ") (
        entry "slug" (text "btc-updown-5m-900") (
          entry "active" (boolean true) (
            entry "enableOrderBook" (boolean true) (
              entry "eventStartTime" (text "start") (
                entry "endDate" (text "end") (
                  entry "resolutionSource" (text expected_resolution_source) (
                    entry "outcomes" (array names)
                      (entry "clobTokenIds" (text "[a, b]") end))))))))))

is_accepted :
    is_some (validate_market_payload py payload five_minutes 900000000 "btc-updown-5m-900") ≡ true
unfolding validate_market_payload slug_prefix build_market_slug parse_gamma_datetime required_id
    json_list normalized_source outcome_of token_of pair_tokens read_tokens get_field entry_of
    duration_seconds strip lstrip_if rstrip_if rstrip_slash offset_for_z is_space is_empty
is_accepted = refl

validate_market_payload-IsExpected_example :
    Every
      (IsExpected py five_minutes 900000000 "btc-updown-5m-900")
      (validate_market_payload py payload five_minutes 900000000 "btc-updown-5m-900")
validate_market_payload-IsExpected_example =
    validate_market_payload-IsExpected py payload five_minutes 900000000 "btc-updown-5m-900"

times_with_z : offset_for_z "12:00:00Z" ≡ "12:00:00+00:00"
unfolding offset_for_z is_empty
times_with_z = refl

-- 1.009 seconds times 1000 is less than 1009 in floating point.
whole_milliseconds_short : whole_milliseconds 1009000 ≡ 1008
unfolding whole_milliseconds nearest round_half_even
whole_milliseconds_short = refl

whole_milliseconds_exact : whole_milliseconds 1250000 ≡ 1250
unfolding whole_milliseconds nearest round_half_even
whole_milliseconds_exact = refl
