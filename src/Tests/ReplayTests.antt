-- ===== src/Tests/ReplayTests.antt =====
-- Tests of the replay: two streams that share a range of sequences, and a segment with its manifest.
use poly_market_btc_arbitrag.Prelude.{
  ℕ, ◌≡◌, refl, Bool, false, none, some, Option, List, [], ◌∷◌, All, arith, String, ltb,
}
use poly_market_btc_arbitrag.Models.Payloads.{MarketDataEvent}
use poly_market_btc_arbitrag.Replay.{
  Stream, done, next, merge_raw_streams, Segment, Decompressed, segment_events, read_lines,
  end_checks, chain,
}
use poly_market_btc_arbitrag.Replay.Merge.{
  Consecutive, merge_raw_streams-Consecutive, WithinFuel, merge_raw_streams-WithinFuel, ending,
}
use poly_market_btc_arbitrag.Replay.Completeness.{tally, total_tally, tally-merge_raw_streams}
use poly_market_btc_arbitrag.Replay.Success.{
  has_sequence, once_within, Rising, ending-merge_raw_streams,
}
use poly_market_btc_arbitrag.Replay.Segments.{
  Complete, segment_events-Complete, Orderly, chain-Orderly,
}
use poly_market_btc_arbitrag.Tests.{chainlink_event}

-- Streams with the sequences 3, 4, 7 and 5, 6.
abbrev outer : Stream
outer = next (chainlink_event 3) (next (chainlink_event 4) (next (chainlink_event 7) done))

abbrev inner : Stream
inner = next (chainlink_event 5) (next (chainlink_event 6) done)

abbrev streams : List Stream
streams = outer ∷ inner ∷ []

merge_raw_streams-Consecutive_example : Consecutive (merge_raw_streams streams)
merge_raw_streams-Consecutive_example = merge_raw_streams-Consecutive streams

streams-WithinFuel : All WithinFuel streams
streams-WithinFuel = ((λ e. ground arith), ((λ e. ground arith), tt))

merge_raw_streams-WithinFuel_example : WithinFuel (merge_raw_streams streams)
merge_raw_streams-WithinFuel_example = merge_raw_streams-WithinFuel streams streams-WithinFuel

streams-Rising : All (Rising 0) streams
streams-Rising = ground arith

streams_once : (m : ℕ) → total_tally (has_sequence m) streams ≡ once_within 3 5 m
streams_once m = ground arith

ending-merge_raw_streams_example : ending (merge_raw_streams streams) ≡ none
ending-merge_raw_streams_example = ending-merge_raw_streams streams 3 5 streams-Rising streams_once

abbrev late : MarketDataEvent → Bool
late event = ltb 4 event.ingest_sequence

tally-merge_raw_streams_example : tally late (merge_raw_streams streams) ≡ total_tally late streams
tally-merge_raw_streams_example =
    tally-merge_raw_streams late streams
      (ending-merge_raw_streams streams 3 5 streams-Rising streams_once)

-- A segment of two lines, each of which is an event's sequence, in a file that is its own text.
abbrev decompress : String → Decompressed ℕ
decompress _ = record { lines = 5 ∷ 6 ∷ []; broken = false }

abbrev parse : ℕ → Option MarketDataEvent
parse n = some (chainlink_event n)

abbrev digest : String → String
digest text = text

abbrev segment : Segment String
segment = record {
  manifest = record {
    sha256 = some "bytes";
    event_count = some 2;
    first_ingest_sequence = some 5;
    last_ingest_sequence = some 6;
  };
  data_file = some "bytes";
}

segment-ends : ending (segment_events digest decompress parse segment) ≡ none
unfolding segment_events read_lines end_checks
segment-ends = refl

segment_events-Complete_example :
    (bytes : String) × (segment.data_file ≡ some bytes)
    × (segment.manifest.sha256 ≡ some (digest bytes))
    × Complete digest decompress parse segment.manifest 0 none none
        (decompress bytes).lines
        (segment_events digest decompress parse segment)
segment_events-Complete_example =
    segment_events-Complete digest decompress parse segment segment-ends

chain-Orderly_example : Orderly 0 (chain none (inner ∷ outer ∷ []))
chain-Orderly_example = chain-Orderly (inner ∷ outer ∷ []) (ground arith)
