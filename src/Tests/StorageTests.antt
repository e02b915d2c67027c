-- ===== src/Tests/StorageTests.antt =====
-- Tests of the files of events: an event that is written and read back, and a storage that rotates after
-- each event. A decimal is written as so many strokes, and a line is its value.
use Prim.Native.String.{◌∷◌ as push}
use mathlib.Core.List.{Permᴰ}
use mathlib.Core.List.Permᴰ
use poly_market_btc_arbitrag.Prelude.{
  string_eq, ℕ, zero, suc, ◌≡◌, refl, ap, false, some, none, List, [], ◌∷◌, String, Gives, ◌>>=◌,
  All, arith, map,
}
use poly_market_btc_arbitrag.Decimals.{pos}
use poly_market_btc_arbitrag.Json.{Json}
use poly_market_btc_arbitrag.Models.Payloads.{MarketDataEvent}
use poly_market_btc_arbitrag.Codec.Values.{Python, ReadsDecimals}
use poly_market_btc_arbitrag.Codec.Write.{event_json}
use poly_market_btc_arbitrag.Codec.Read.{event_from_dict}
use poly_market_btc_arbitrag.Codec.RoundTrip.{event_from_dict-json}
use poly_market_btc_arbitrag.Storage.{
  Format, IsLossless, Clocks, Key, write_all, close, new_storage,
}
use poly_market_btc_arbitrag.Storage.{encode, decode, Finished}
use poly_market_btc_arbitrag.Storage.Recovery.{
  recovered, recover_jsonl_partial, recover_jsonl_partial-replays,
}
use poly_market_btc_arbitrag.Storage.Replayed.{placed, read_raw_events-write_all}
use poly_market_btc_arbitrag.Replay.Files.{read_raw_events}
use poly_market_btc_arbitrag.Replay.Listed.{stream_of_list}
use poly_market_btc_arbitrag.Replay.Groups.{Placed, manifest_files}
use poly_market_btc_arbitrag.Storage.Segments.{WellEvent}
use poly_market_btc_arbitrag.Storage.ByKey.{of_key}
use poly_market_btc_arbitrag.Storage.Files.{replay_of, AreReadable, replayed}
use poly_market_btc_arbitrag.Storage.Contents.{second}
use poly_market_btc_arbitrag.Storage.Closing.{write_all-close}
use poly_market_btc_arbitrag.Tests.{chainlink_event, book_event}

abbrev strokes : ℕ → String
strokes zero = ""
strokes (suc n) = push "I" (strokes n)

abbrev count_strokes : String → ℕ
count_strokes String.[] = 0
count_strokes (push c s) = suc (count_strokes s)

count_strokes-strokes : (n : ℕ) → count_strokes (strokes n) ≡ n
count_strokes-strokes zero = refl
count_strokes-strokes (suc n) = ap suc (count_strokes-strokes n)

abbrev pub py : Python
py = record {
  str = λ value. "value";
  int_of_text = λ s. none;
  int_of_real = λ s. none;
  is_zero_real = λ s. false;
  decimal = λ s. some (pos (count_strokes s));
  show_decimal = strokes;
}

pub py-ReadsDecimals : ReadsDecimals py
py-ReadsDecimals = record { decimal-show = λ d. ap (λ n. some (pos n)) (count_strokes-strokes d) }

event_from_dict-json_example :
    event_from_dict py (event_json py (book_event 3)) ≡ some (book_event 3)
event_from_dict-json_example =
    event_from_dict-json py py-ReadsDecimals (book_event 3) refl (ground arith)

abbrev format : Format (List Json) Json
format = record {
  python = py;
  dumps = λ value. value;
  loads = λ line. some line;
  byte_length = λ line. 100;
  compress = λ lines. lines;
  decompress = λ bytes. record { lines = bytes; broken = false };
  sha256 = λ bytes. "digest";
  date_of = λ time. "2026-01-01";
  hour_of = λ time. "00";
}

format-IsLossless : IsLossless format
format-IsLossless = record { loads-dumps = λ e. refl; decompress-compress = λ lines. refl }

abbrev clocks : ℕ → Clocks
clocks now = record { opened = now; checked = now; reopened = now }

abbrev calls : List (Clocks × MarketDataEvent)
calls =
    (clocks 1, chainlink_event 1)
    ∷ (clocks 2, book_event 2)
    ∷ (clocks 3, chainlink_event 3)
    ∷ (clocks 4, chainlink_event 4)
    ∷ []

calls-WellEvent : All WellEvent (map second calls)
calls-WellEvent = (
  record { current = refl; payload = tt; numbered = ground arith },
  (
    record { current = refl; payload = ground arith; numbered = ground arith },
    (
      record { current = refl; payload = tt; numbered = ground arith },
      (record { current = refl; payload = tt; numbered = ground arith }, tt),
    ),
  ),
)

write_all-close_example :
    Gives
      (λ s.
        AreReadable format s.manifests
        × ((key : Key) → of_key key (replayed format s.manifests) ≡ of_key key (map second calls)))
      (write_all format calls (new_storage 60 150) >>= close format)
write_all-close_example =
    write_all-close format format-IsLossless py-ReadsDecimals 60 150 calls calls-WellEvent

-- The manifests are found with the second one first.
abbrev find : List (Placed (List Json)) → List (Placed (List Json))
find [] = []
find (a ∷ []) = a ∷ []
find (a ∷ b ∷ files) = b ∷ a ∷ files

find-Permᴰ : (files : List (Placed (List Json))) → Permᴰ files (find files)
find-Permᴰ [] = Permᴰ.nil
find-Permᴰ (a ∷ []) = Permᴰ.refl (a ∷ [])
find-Permᴰ (a ∷ b ∷ files) = Permᴰ.swap refl refl

read_raw_events-write_all_example :
    Gives
      (λ s.
        read_raw_events format.sha256 format.decompress
          (decode format)
          (manifest_files (find (placed format s.manifests)))
        ≡ stream_of_list (map second calls))
      (write_all format calls (new_storage 60 150) >>= close format)
read_raw_events-write_all_example =
    read_raw_events-write_all format format-IsLossless py-ReadsDecimals 60 150 find calls find-Permᴰ
      calls-WellEvent (ground arith)

recover_jsonl_partial-replays_example :
    (file : Finished (List Json)) × (recover_jsonl_partial format 1 (record {
      directory = "raw" ∷ [];
      lines = map (encode format) (map second calls);
      rest = some (Json.text "torn");
    })
      ≡ recovered file)
    × (replay_of format file ≡ stream_of_list (map second calls))
recover_jsonl_partial-replays_example =
    recover_jsonl_partial-replays format format-IsLossless py-ReadsDecimals 1 ("raw" ∷ [])
      (some (Json.text "torn")) (map second calls) (ground arith) calls-WellEvent
