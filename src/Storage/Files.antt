-- ===== src/Storage/Files.antt =====
-- What the replay reads of the finished segments.
use mathlib.Core.List.{append_assoc}
use poly_market_btc_arbitrag.Prelude.{
  ℕ, ◌+◌, ◌<◌, sym, subst, ◌∙◌, false, ◌≡◌, refl, ap, true, Option, none, some, List, [], ◌∷◌, ◌++◌,
  nat_eq, string_eq, pair_eq, eqb, All, All-mono, All-append, arith, Option-cases, inl, inr,
  eqb_iff, length, append_nil,
}
use poly_market_btc_arbitrag.Models.Payloads.{MarketDataEvent}
use poly_market_btc_arbitrag.Replay.{or_first, Stream, segment_events}
use poly_market_btc_arbitrag.Replay.Merge.{ending}
use poly_market_btc_arbitrag.Replay.Follow.{head_sequence}
use poly_market_btc_arbitrag.Replay.Listed.{
  stream_of_list, events_of, events_of-stream, ending-stream,
}
use poly_market_btc_arbitrag.Storage.{
  directory_of, Format, IsLossless, RawSegment, Finished, Key, Counted, counted, count_event,
  nothing_counted, decode, validate_lines, as_segment, key_of,
}
use poly_market_btc_arbitrag.Storage.Segments.{
  events_in, WellSegment, finished, segment_events-finished,
}

module _ {Bytes Line : Type 0} (f : Format Bytes Line) where
  -- What the replay reads of a finished segment.
  abbrev pub replay_of : Finished Bytes → Stream
  replay_of file = segment_events f.sha256 f.decompress (decode f) (as_segment file)

  -- The events of the finished segments, in the order in which these were finished.
  unfoldable pub replayed : List (Finished Bytes) → List MarketDataEvent
  replayed [] = []
  replayed (file ∷ files) = events_of (replay_of file) ++ replayed files

  -- The replay reads each to its end.
  abbrev pub AreReadable : List (Finished Bytes) → Type 0
  AreReadable = All λ file. ending (replay_of file) ≡ none

  -- The replay reads the file to its end, it is not empty, its manifest names the first sequence, and its events
  -- belong to one source's stream, as its directory says.
  pub record WellFile (file : Finished Bytes) : Type 0 where
    pub time : ℕ
    pub owner : MarketDataEvent
    pub placed : file.directory ≡ directory_of f time (key_of owner)
    pub keyed : All (λ e. key_of e ≡ key_of owner) (events_of (replay_of file))
    pub readable : replay_of file ≡ stream_of_list (events_of (replay_of file))
    pub filled : 0 < length (events_of (replay_of file))
    pub first :
        file.manifest.first_ingest_sequence ≡ some (head_sequence (events_of (replay_of file)))

  pub AreReadable-WellFile :
      (files : List (Finished Bytes)) → All WellFile files → AreReadable files
  AreReadable-WellFile files w =
      All-mono (λ file h. ap ending h.readable ∙ ending-stream (events_of (replay_of file))) files w

  abbrev pub open_events : Option (RawSegment Line) → List MarketDataEvent
  open_events none = []
  open_events (some segment) = events_in f segment.lines

  pub replayed-append :
      (xs ys : List (Finished Bytes)) → replayed (xs ++ ys) ≡ replayed xs ++ replayed ys
  unfolding replayed
  replayed-append [] ys = refl
  replayed-append (x ∷ xs) ys = simp (replayed-append xs ys, append_assoc)

  -- A segment without events has counted none.
  pub count-events_in :
      (so_far found : Counted) (lines : List Line)
      → validate_lines f so_far lines ≡ some found
      → found.count ≡ so_far.count + length (events_in f lines)
  unfolding validate_lines events_in
  count-events_in so_far found [] v = ground arith
  count-events_in so_far found (line ∷ lines) v = elim (Option-cases (decode f line)) [
    | inl e ↦ let w : none ≡ some found = rw (validate_lines, e) at v in ground arith
    | inr (event, e) ↦
        let w =
          count-events_in (count_event event so_far) found lines (rw (validate_lines, e) at v) in
        rw (events_in, e) (omega (arith, w))
  ]

  -- The first sequence that was counted.
  abbrev first_in : Option ℕ → List MarketDataEvent → Option ℕ
  first_in first [] = first
  first_in first (event ∷ _) = or_first first event.ingest_sequence

  or_first_again : (first : Option ℕ) (m n : ℕ) → or_first (or_first first m) n ≡ or_first first m
  or_first_again none m n = refl
  or_first_again (some first) m n = refl

  first_in-or_first :
      (first : Option ℕ) (n : ℕ) (events : List MarketDataEvent)
      → first_in (or_first first n) events ≡ or_first first n
  first_in-or_first first n [] = refl
  first_in-or_first first n (event ∷ events) = or_first_again first n event.ingest_sequence

  first-events_in :
      (so_far found : Counted) (lines : List Line)
      → validate_lines f so_far lines ≡ some found
      → found.first ≡ first_in so_far.first (events_in f lines)
  unfolding validate_lines events_in
  first-events_in so_far found [] v = ground arith
  first-events_in so_far found (line ∷ lines) v = elim (Option-cases (decode f line)) [
    | inl e ↦ let w : none ≡ some found = rw (validate_lines, e) at v in ground arith
    | inr (event, e) ↦
        let w =
          first-events_in (count_event event so_far) found lines (rw (validate_lines, e) at v) in
        rw (events_in, e)
          (w ∙ first_in-or_first so_far.first event.ingest_sequence (events_in f lines))
  ]

  first_in-filled :
      (events : List MarketDataEvent)
      → 0 < length events
      → first_in none events ≡ some (head_sequence events)
  first_in-filled [] h = ground arith
  first_in-filled (event ∷ events) h = refl

  pub nil_of_length : (events : List MarketDataEvent) → length events ≡ 0 → events ≡ []
  nil_of_length [] h = refl
  nil_of_length (e ∷ events) h = ground arith

  pub empty-events_in :
      (key : Key) (segment : RawSegment Line)
      → WellSegment f key segment
      → eqb segment.event_count 0 ≡ true
      → events_in f segment.lines ≡ []
  empty-events_in key segment w e =
      let c = count-events_in nothing_counted (counted segment) segment.lines w.valid in
      nil_of_length (events_in f segment.lines)
        (omega (arith, c, (eqb_iff segment.event_count 0).0 e))

  module _ (lossless : IsLossless f) where
    pub replay_of-finished :
        (key : Key) (segment : RawSegment Line)
        → WellSegment f key segment
        → replay_of (finished f lossless segment) ≡ stream_of_list (events_in f segment.lines)
    replay_of-finished key segment w = segment_events-finished f lossless key segment w

    pub replayed-finished :
        (key : Key) (files : List (Finished Bytes)) (segment : RawSegment Line)
        → WellSegment f key segment
        → replayed (files ++ finished f lossless segment ∷ [])
          ≡ replayed files ++ events_in f segment.lines
    unfolding replayed
    replayed-finished key files segment w = simp (
      replayed-append files (finished f lossless segment ∷ []),
      replay_of-finished key segment w,
      events_of-stream,
      append_nil,
    )

    finished-WellFile :
        (key : Key) (segment : RawSegment Line)
        → WellSegment f key segment
        → eqb segment.event_count 0 ≡ false
        → WellFile (finished f lossless segment)
    finished-WellFile key segment w counts =
        let events = events_in f segment.lines in
        let read = replay_of-finished key segment w in
        let gives : events_of (replay_of (finished f lossless segment)) ≡ events =
          ap events_of read ∙ events_of-stream events in
        let filled : 0 < length events =
          ground (arith, count-events_in nothing_counted (counted segment) segment.lines w.valid) in
        record {
          time = w.time;
          owner = w.owner;
          placed = w.placed;
          keyed =
              subst (All λ e. key_of e ≡ key_of w.owner) (sym gives)
                (subst (λ k. All (λ e. key_of e ≡ k) events) (sym w.owned) w.keyed);
          readable = read ∙ ap stream_of_list (sym gives);
          filled = subst (λ held. 0 < length held) (sym gives) filled;
          first =
              first-events_in nothing_counted (counted segment) segment.lines w.valid
              ∙ first_in-filled events filled
              ∙ ap (λ held. some (head_sequence held)) (sym gives);
        }

    pub WellFile-finished :
        (key : Key) (files : List (Finished Bytes)) (segment : RawSegment Line)
        → WellSegment f key segment
        → eqb segment.event_count 0 ≡ false
        → All WellFile files
        → All WellFile (files ++ finished f lossless segment ∷ [])
    WellFile-finished key files segment w counts a =
        All-append WellFile files (finished f lossless segment ∷ []) a
          (finished-WellFile key segment w counts, tt)
