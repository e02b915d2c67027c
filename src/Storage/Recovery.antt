-- ===== src/Storage/Recovery.antt =====
-- `_raw_event_metadata` and `_recover_jsonl_partial` of market_data/storage.py: what is made at a start of a
-- segment that was left open. The file is its terminated lines and what stands behind them.
use poly_market_btc_arbitrag.Prelude.{
  ℕ, ◌+◌, ◌<◌, ◌≡◌, refl, ap, ◌∙◌, Option, none, some, List, [], ◌∷◌, map, nat_eq, string_eq, ◌>>=◌,
  All, arith, length, Option-cases, inl, inr,
}
use poly_market_btc_arbitrag.Models.Payloads.{MarketDataEvent}
use poly_market_btc_arbitrag.Codec.Values.{ReadsDecimals}
use poly_market_btc_arbitrag.Replay.Files.{Directory}
use poly_market_btc_arbitrag.Replay.{or_first}
use poly_market_btc_arbitrag.Replay.Listed.{stream_of_list}
use poly_market_btc_arbitrag.Storage.{
  Format, IsLossless, RawSegment, Finished, Counted, count_event, nothing_counted, decode, encode,
  validate_lines, finalize,
}
use poly_market_btc_arbitrag.Storage.Segments.{
  WellEvent, decode-encode, events_in, finished, finalize-valid, segment_events-valid,
}
use poly_market_btc_arbitrag.Storage.Files.{replay_of}

-- What `_raw_event_metadata` finds, with the length of the lines.
pub record Metadata : Type 0 where
  pub counts : Counted
  pub first_received : Option ℕ
  pub last_received : Option ℕ
  pub complete_bytes : ℕ

-- The open file, with the part of a line that stands behind the last complete one.
pub record PartialFile (Line : Type 0) : Type 0 where
  pub directory : Directory
  pub lines : List Line
  pub rest : Option Line

-- What becomes of the file: it is deleted, moved aside, or finished.
pub data Recovered (Bytes : Type 0) : Type 0 where
  deleted quarantined : Recovered Bytes
  recovered : Finished Bytes → Recovered Bytes

abbrev pub no_metadata : Metadata
no_metadata = record {
  counts = nothing_counted;
  first_received = none;
  last_received = none;
  complete_bytes = 0;
}

module _ {Bytes Line : Type 0} (f : Format Bytes Line) where
  abbrev pub add_metadata : MarketDataEvent → Line → Metadata → Metadata
  add_metadata event line so_far = record {
    counts = count_event event so_far.counts;
    first_received = or_first so_far.first_received event.received_wall_timestamp_ns;
    last_received = some event.received_wall_timestamp_ns;
    complete_bytes = so_far.complete_bytes + f.byte_length line;
  }

  -- `consume`
  unfoldable pub event_metadata : Metadata → List Line → Option Metadata
  event_metadata so_far [] = some so_far
  event_metadata so_far (line ∷ lines) = do
    event ← decode f line
    event_metadata (add_metadata event line so_far) lines

  -- The `_RawSegment` of the complete lines.
  abbrev pub segment_of : ℕ → PartialFile Line → Metadata → RawSegment Line
  segment_of now file metadata = record {
    directory = file.directory;
    lines = file.lines;
    opened_monotonic = now;
    event_count = metadata.counts.count;
    first_sequence = metadata.counts.first;
    last_sequence = metadata.counts.last;
    first_received_ns = metadata.first_received;
    last_received_ns = metadata.last_received;
    uncompressed_bytes = metadata.complete_bytes;
  }

  abbrev pub recovered_or_quarantined : Option (Finished Bytes) → Recovered Bytes
  recovered_or_quarantined none = quarantined
  recovered_or_quarantined (some finished) = recovered finished

  -- `_recover_jsonl_partial`; what stands behind the last complete line is cut off.
  unfoldable pub recover_jsonl_partial : ℕ → PartialFile Line → Recovered Bytes
  recover_jsonl_partial now file = elim file.lines [
    | [] ↦ deleted
    | _ ∷ _ ↦ recovered_or_quarantined (
        event_metadata no_metadata file.lines >>= λ metadata.
        finalize f (segment_of now file metadata))
  ]

  event_metadata-valid :
      (so_far found : Metadata) (lines : List Line)
      → event_metadata so_far lines ≡ some found
      → validate_lines f so_far.counts lines ≡ some found.counts
  unfolding event_metadata validate_lines
  event_metadata-valid so_far found [] e = ground arith
  event_metadata-valid so_far found (line ∷ lines) e = elim (Option-cases (decode f line)) [
    | inl none_read ↦
        let w : none ≡ some found = rw (event_metadata, none_read) at e in absurd (ground arith)
    | inr (event, read) ↦
        rw (validate_lines, read)
          (event_metadata-valid (add_metadata event line so_far) found lines
            (rw (event_metadata, read) at e))
  ]

  module _ (lossless : IsLossless f) (law : ReadsDecimals f.python) where
    event_metadata-encode :
        (so_far : Metadata) (events : List MarketDataEvent)
        → All WellEvent events
        → (found : Metadata) × (event_metadata so_far (map (encode f) events) ≡ some found)
    unfolding event_metadata
    event_metadata-encode so_far [] w = (so_far, refl)
    event_metadata-encode so_far (event ∷ events) w =
        let rest = event_metadata-encode (add_metadata event (encode f event) so_far) events w.1 in
        (rest.0, rw (event_metadata, decode-encode f lossless law event w.0) rest.1)

    events_in-encode :
        (events : List MarketDataEvent)
        → All WellEvent events
        → events_in f (map (encode f) events) ≡ events
    unfolding events_in
    events_in-encode [] w = refl
    events_in-encode (event ∷ events) w =
        rw (events_in, decode-encode f lossless law event w.0)
          (ap (◌∷◌ event) (events_in-encode events w.1))

    -- A segment that was left open when the program stopped, with one or more events of the current version with
    -- well-formed payloads and numbers from 1 on, and with whatever is left of a line that was being written, is
    -- recovered as a file from which the replay reads all the events that were written completely. The
    -- condition on the formats is that they give back what is written in them.
    pub recover_jsonl_partial-replays :
        (now : ℕ) (directory : Directory) (rest : Option Line) (events : List MarketDataEvent)
        → 0 < length events
        → All WellEvent events
        → (file : Finished Bytes) × (recover_jsonl_partial now
              (record { directory = directory; lines = map (encode f) events; rest = rest })
            ≡ recovered file)
          × (replay_of f file ≡ stream_of_list events)
    unfolding recover_jsonl_partial
    recover_jsonl_partial-replays now directory rest [] filled w = absurd (ground arith)
    recover_jsonl_partial-replays now directory rest (event ∷ events) filled w =
        let file : PartialFile Line = record {
          directory = directory;
          lines = map (encode f) (event ∷ events);
          rest = rest;
        } in
        let found = event_metadata-encode no_metadata (event ∷ events) w in
        let valid = event_metadata-valid no_metadata found.0 file.lines found.1 in
        let segment = segment_of now file found.0 in
        (
          finished f lossless segment,
          ap
                (λ o.
                  recovered_or_quarantined
                    (o >>= λ metadata. finalize f (segment_of now file metadata)))
                found.1
              ∙ ap recovered_or_quarantined (finalize-valid f lossless segment valid),
          segment_events-valid f lossless segment valid
              ∙ ap stream_of_list (events_in-encode (event ∷ events) w),
        )
