-- ===== src/Storage/Segments.antt =====
-- What a segment's file holds, and what its validation and the replay find in it.
use poly_market_btc_arbitrag.Prelude.{
  ℕ, zero, suc, ◌≤◌, ◌≡◌, ◌≢◌, refl, ap, true, false, Option, none, some, List, [], ◌∷◌, ◌++◌,
  nat_eq, string_eq, option_eq, pair_eq, equals_refl, ◌>>=◌, All, All-append, arith, Option-cases,
  inl, inr,
}
use poly_market_btc_arbitrag.Models.Payloads.{MarketDataEvent}
use poly_market_btc_arbitrag.Codec.Values.{ReadsDecimals}
use poly_market_btc_arbitrag.Codec.Write.{event_json}
use poly_market_btc_arbitrag.Codec.Read.{event_from_dict}
use poly_market_btc_arbitrag.Codec.RoundTrip.{WellPayload, event_from_dict-json}
use poly_market_btc_arbitrag.Replay.{
  done, next, Manifest, or_first, end_checks, read_lines, segment_events,
}
use poly_market_btc_arbitrag.Replay.Listed.{stream_of_list}
use poly_market_btc_arbitrag.Storage.{
  directory_of, Format, IsLossless, RawSegment, Finished, Key, Counted, same_counts,
  nothing_counted, count_event, counted, or_truthy, key_of, encode, decode, validate_lines,
  stream_validate_zstd_jsonl, open_segment, finalize, append_event, as_segment,
}

-- The events that the program writes: of the current version, numbered from 1, with what the payload's
-- classes check.
pub record WellEvent (e : MarketDataEvent) : Type 0 where
  pub current : e.schema_version ≡ 2
  pub payload : WellPayload e.payload
  pub numbered : 1 ≤ e.ingest_sequence

or_truthy-eq-or_first :
    (first : Option ℕ) (n : ℕ) → first ≢ some 0 → or_truthy first n ≡ or_first first n
or_truthy-eq-or_first none n h = refl
or_truthy-eq-or_first (some zero) n h = absurd (h refl)
or_truthy-eq-or_first (some (suc m)) n h = refl

or_truthy-ne-zero : (first : Option ℕ) (n : ℕ) → 1 ≤ n → or_truthy first n ≢ some 0
or_truthy-ne-zero none n h = ground arith
or_truthy-ne-zero (some zero) n h = ground arith
or_truthy-ne-zero (some (suc m)) n h = ground arith

same_counts_refl : (c : Counted) → same_counts c c ≡ true
same_counts_refl c = rw (equals_refl c.count, equals_refl c.first, equals_refl c.last) refl

end_checks-done :
    (manifest : Manifest) (c : Counted)
    → manifest.event_count ≡ some c.count
    → manifest.first_ingest_sequence ≡ c.first
    → manifest.last_ingest_sequence ≡ c.last
    → end_checks manifest c.count c.first c.last ≡ done
unfolding end_checks
end_checks-done manifest c e a b =
    rw (e, a, b, equals_refl c.count, equals_refl c.first, equals_refl c.last) refl

module _ {Bytes Line : Type 0} (f : Format Bytes Line) where
  -- The events of the lines that can be read.
  unfoldable pub events_in : List Line → List MarketDataEvent
  events_in [] = []
  events_in (line ∷ lines) = elim (decode f line) [
    | none ↦ events_in lines
    | some event ↦ event ∷ events_in lines
  ]

  pub events_in-append : (xs ys : List Line) → events_in (xs ++ ys) ≡ events_in xs ++ events_in ys
  unfolding events_in
  events_in-append [] ys = refl
  events_in-append (line ∷ xs) ys = elim (Option-cases (decode f line)) [
    | inl e ↦ rw (events_in, e) (events_in-append xs ys)
    | inr (event, e) ↦ rw (events_in, e) (ap (◌∷◌ event) (events_in-append xs ys))
  ]

  pub events_in-one :
      (line : Line) (e : MarketDataEvent) → decode f line ≡ some e → events_in (line ∷ []) ≡ e ∷ []
  unfolding events_in
  events_in-one line e h = rw (events_in, h) refl

  validate_lines-one :
      (c : Counted) (line : Line) (e : MarketDataEvent)
      → decode f line ≡ some e
      → validate_lines f c (line ∷ []) ≡ some (count_event e c)
  unfolding validate_lines
  validate_lines-one c line e h = rw (validate_lines, h) refl

  -- The segment has counted what its file holds, and all of it belongs to the key, as its directory says.
  pub record WellSegment (key : Key) (segment : RawSegment Line) : Type 0 where
    pub valid : validate_lines f nothing_counted segment.lines ≡ some (counted segment)
    pub positive : segment.first_sequence ≢ some 0
    pub keyed : All (λ e. key_of e ≡ key) (events_in segment.lines)
    pub time : ℕ
    pub owner : MarketDataEvent
    pub owned : key_of owner ≡ key
    pub placed : segment.directory ≡ directory_of f time (key_of owner)

  pub open_segment-WellSegment :
      (now : ℕ) (event : MarketDataEvent) → WellSegment (key_of event) (open_segment f now event)
  unfolding open_segment validate_lines events_in
  open_segment-WellSegment now event = record {
    valid = refl;
    positive = ground arith;
    keyed = tt;
    time = event.received_wall_timestamp_ns;
    owner = event;
    owned = refl;
    placed = refl;
  }

  validate_lines-append :
      (so_far : Counted) (xs ys : List Line)
      → validate_lines f so_far (xs ++ ys)
        ≡ (validate_lines f so_far xs >>= λ c. validate_lines f c ys)
  unfolding validate_lines
  validate_lines-append so_far [] ys = refl
  validate_lines-append so_far (line ∷ xs) ys = elim (Option-cases (decode f line)) [
    | inl e ↦ rw e refl
    | inr (event, e) ↦ rw e (validate_lines-append (count_event event so_far) xs ys)
  ]

  -- A line that says which event it holds reads as the stream of its events where the counts are the manifest's.
  read_lines-valid :
      (manifest : Manifest) (so_far found : Counted) (lines : List Line)
      → validate_lines f so_far lines ≡ some found
      → manifest.event_count ≡ some found.count
      → manifest.first_ingest_sequence ≡ found.first
      → manifest.last_ingest_sequence ≡ found.last
      → read_lines f.sha256 f.decompress
          (decode f)
          manifest
          false
          so_far.count
          so_far.first
          so_far.last
          lines
        ≡ stream_of_list (events_in lines)
  unfolding validate_lines read_lines events_in end_checks
  read_lines-valid manifest so_far found [] v c a b =
      let same : so_far ≡ found = ground arith in
      end_checks-done manifest so_far (rw same c) (rw same a) (rw same b)
  read_lines-valid manifest so_far found (line ∷ lines) v c a b =
      elim (Option-cases (decode f line)) [
        | inl e ↦ let w : none ≡ some found = rw (validate_lines, e) at v in ground arith
        | inr (event, e) ↦
            rw (read_lines, events_in, e)
              (ap (next event) (
                read_lines-valid manifest (count_event event so_far) found lines
                  (rw (validate_lines, e) at v) c a b))
      ]

  module _ (lossless : IsLossless f) where
    -- The files that finishing the segment makes.
    abbrev pub finished : RawSegment Line → Finished Bytes
    finished segment = record {
      directory = segment.directory;
      compressed = f.compress segment.lines;
      manifest = record {
        sha256 = f.sha256 (f.compress segment.lines);
        event_count = segment.event_count;
        first_ingest_sequence = segment.first_sequence;
        last_ingest_sequence = segment.last_sequence;
        first_received_timestamp_ns = segment.first_received_ns;
        last_received_timestamp_ns = segment.last_received_ns;
        uncompressed_bytes = segment.uncompressed_bytes;
      };
    }

    pub finalize-valid :
        (segment : RawSegment Line)
        → validate_lines f nothing_counted segment.lines ≡ some (counted segment)
        → finalize f segment ≡ some (finished segment)
    unfolding finalize stream_validate_zstd_jsonl
    finalize-valid segment valid =
        simp (lossless.decompress-compress, valid, same_counts_refl (counted segment))

    pub finalize-finished :
        (key : Key) (segment : RawSegment Line)
        → WellSegment key segment
        → finalize f segment ≡ some (finished segment)
    finalize-finished key segment w = finalize-valid segment w.valid

    -- The replay reads the finished segment to its end, and gives the events of its lines.
    pub segment_events-valid :
        (segment : RawSegment Line)
        → validate_lines f nothing_counted segment.lines ≡ some (counted segment)
        → segment_events f.sha256 f.decompress (decode f) (as_segment (finished segment))
          ≡ stream_of_list (events_in segment.lines)
    unfolding segment_events
    segment_events-valid segment valid =
        rw
          (
            equals_refl (f.sha256 (f.compress segment.lines)),
            lossless.decompress-compress segment.lines,
          )
          (read_lines-valid (as_segment (finished segment)).manifest nothing_counted
            (counted segment) segment.lines valid refl refl refl)

    pub segment_events-finished :
        (key : Key) (segment : RawSegment Line)
        → WellSegment key segment
        → segment_events f.sha256 f.decompress (decode f) (as_segment (finished segment))
          ≡ stream_of_list (events_in segment.lines)
    segment_events-finished key segment w = segment_events-valid segment w.valid

    module _ (law : ReadsDecimals f.python) where
      pub decode-encode : (e : MarketDataEvent) → WellEvent e → decode f (encode f e) ≡ some e
      unfolding decode encode event_json event_from_dict
      decode-encode e w =
          rw (lossless.loads-dumps e) (event_from_dict-json f.python law e w.current w.payload)

      pub append_event-WellSegment :
          (key : Key) (e : MarketDataEvent) (segment : RawSegment Line)
          → WellEvent e
          → key_of e ≡ key
          → WellSegment key segment
          → WellSegment key (append_event f e segment)
      unfolding append_event
      append_event-WellSegment key e segment we same w = record {
        valid =
            rw
              (
                validate_lines-append nothing_counted segment.lines (encode f e ∷ []),
                w.valid,
                validate_lines-one (counted segment) (encode f e) e (decode-encode e we),
                or_truthy-eq-or_first segment.first_sequence e.ingest_sequence w.positive,
              )
              refl;
        positive = or_truthy-ne-zero segment.first_sequence e.ingest_sequence we.numbered;
        keyed =
            rw
              (
                events_in-append segment.lines (encode f e ∷ []),
                events_in-one (encode f e) e (decode-encode e we),
              )
              (All-append (λ e. key_of e ≡ key) (events_in segment.lines) (e ∷ []) w.keyed
                (same, tt));
        time = w.time;
        owner = w.owner;
        owned = w.owned;
        placed = w.placed;
      }
