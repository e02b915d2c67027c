-- ===== src/Replay.antt =====
-- market_data/replay.py: the raw segments read back, chained per stream, and merged by ingest sequence.
-- A generator is the list of what it yields, with how it ends: normally, or with an exception.
pub mod Follow
pub mod Merge
pub mod Completeness
pub mod Listed
pub mod Files
pub mod Sorted
pub mod Groups
pub mod Orders
pub mod Segments
pub mod Success
use poly_market_btc_arbitrag.Prelude.{
  ℕ, zero, suc, ◌+◌, Bool, true, false, Option, none, some, List, [], ◌∷◌, String, ◌==◌, nat_eq,
  string_eq, option_eq, ltb, leb, if◌then◌else◌,
}
use poly_market_btc_arbitrag.Models.Payloads.{MarketDataEvent}

-- What ends a generator early: the messages of `ReplayIntegrityError`, and `out_of_fuel` where the
-- model's own bound does.
pub data Failure : Type 0 where
  missing_segment hash_mismatch invalid_event cannot_decompress event_count_mismatch : Failure
  sequence_bounds_mismatch invalid_manifest overlapping_ranges gap_or_duplicate out_of_fuel :
      Failure

pub data Stream : Type 0 where
  done : Stream
  fail : Failure → Stream
  next : MarketDataEvent → Stream → Stream

-- The fields that the code reads of a manifest; a key may be missing.
pub record Manifest : Type 0 where
  pub sha256 : Option String
  pub event_count : Option ℕ
  pub first_ingest_sequence : Option ℕ
  pub last_ingest_sequence : Option ℕ

-- What the decompressor gives: the lines, and whether it fails behind them.
pub record Decompressed (Line : Type 0) : Type 0 where
  pub lines : List Line
  pub broken : Bool

-- `first = event.ingest_sequence if first is None else first`
abbrev pub or_first : Option ℕ → ℕ → Option ℕ
or_first none sequence = some sequence
or_first (some first) sequence = some first

-- The checks behind the last line of a segment.
unfoldable pub end_checks : Manifest → ℕ → Option ℕ → Option ℕ → Stream
end_checks manifest count first last =
    if manifest.event_count == some count
    then if first == manifest.first_ingest_sequence
      then if last == manifest.last_ingest_sequence then done else fail sequence_bounds_mismatch
      else fail sequence_bounds_mismatch
    else fail event_count_mismatch

-- A segment's manifest beside its file, where that is there.
pub record Segment (Bytes : Type 0) : Type 0 where
  pub manifest : Manifest
  pub data_file : Option Bytes

module _ {Bytes Line : Type 0} (sha256 : Bytes → String) (decompress : Bytes → Decompressed Line)
    (parse : Line → Option MarketDataEvent) where
  -- The loop over the lines.
  unfoldable pub read_lines : Manifest → Bool → ℕ → Option ℕ → Option ℕ → List Line → Stream
  read_lines manifest broken count first last [] =
      if broken then fail cannot_decompress else end_checks manifest count first last
  read_lines manifest broken count first last (line ∷ lines) = elim (parse line) [
    | none ↦ fail invalid_event
    | some event ↦ next event (
        read_lines manifest broken (count + 1) (or_first first event.ingest_sequence)
          (some event.ingest_sequence) lines)
  ]

  -- `RawSegmentIterator.__iter__`
  unfoldable pub segment_events : Segment Bytes → Stream
  segment_events segment = elim segment.data_file [
    | none ↦ fail missing_segment
    | some bytes ↦
        if some (sha256 bytes) == segment.manifest.sha256
        then read_lines segment.manifest (decompress bytes).broken 0 none none
            (decompress bytes).lines
        else fail hash_mismatch
  ]

-- The inner loop of a chain: the events of one segment, and then what comes behind them.
unfoldable pub follow : Option ℕ → Option ℕ → Stream → (Option ℕ → Stream) → Stream
follow previous last done rest =
    rest (elim last [ none ↦ previous | some sequence ↦ some sequence ])
follow previous last (fail failure) rest = fail failure
follow previous last (next event stream) rest =
    let later = next event (follow previous (some event.ingest_sequence) stream rest) in
    elim previous [
      | none ↦ later
      | some end ↦ if leb event.ingest_sequence end then fail overlapping_ranges else later
    ]

-- `RawStreamChain.__iter__` over the segments' own streams, in order.
unfoldable pub chain : Option ℕ → List Stream → Stream
chain previous [] = done
chain previous (stream ∷ streams) = follow previous none stream λ end. chain end streams

-- A heap entry, and the heap as the list of its entries.
pub record Entry : Type 0 where
  pub index : ℕ
  pub event : MarketDataEvent
  pub iterator : Stream

-- The order of the tuples: by sequence, then by index, which no two entries share.
abbrev pub before : Entry → Entry → Bool
before a b =
    if ltb a.event.ingest_sequence b.event.ingest_sequence
    then true
    else if a.event.ingest_sequence == b.event.ingest_sequence
    then ltb a.index b.index
    else false

-- `heapq.heappush`: the entries are kept in order.
unfoldable pub push : Entry → List Entry → List Entry
push a [] = a ∷ []
push a (b ∷ heap) = let rest = push a heap in if before a b then a ∷ b ∷ heap else b ∷ rest

-- An iterator's next event pushed, if there is one.
abbrev pub push_next : ℕ → Stream → List Entry → (List Entry → Stream) → Stream
push_next index done heap rest = rest heap
push_next index (fail failure) heap rest = fail failure
push_next index (next event iterator) heap rest =
    rest (push (record { index = index; event = event; iterator = iterator }) heap)

-- `if expected is None: expected = sequence`
abbrev pub or_sequence : Option ℕ → ℕ → ℕ
or_sequence none sequence = sequence
or_sequence (some expected) _ = expected

-- `while heap`, with the number of rounds that are left.
unfoldable pub merge_loop : ℕ → Option ℕ → List Entry → Stream
merge_loop fuel expected [] = done
merge_loop zero expected (entry ∷ heap) = fail out_of_fuel
merge_loop (suc fuel) expected (entry ∷ heap) =
    let sequence = entry.event.ingest_sequence in
    let wanted = or_sequence expected sequence in
    if sequence == wanted
    then next entry.event
        (push_next entry.index entry.iterator heap (merge_loop fuel (some (suc wanted))))
    else fail gap_or_duplicate

-- The loop that fills the heap, and then the merge.
unfoldable pub fill : ℕ → ℕ → List Stream → List Entry → Stream
fill fuel index [] heap = merge_loop fuel none heap
fill fuel index (stream ∷ streams) heap =
    push_next index stream heap (fill fuel (index + 1) streams)

-- The number of events of a stream, and of several.
unfoldable pub size : Stream → ℕ
size done = 0
size (fail _) = 0
size (next _ stream) = 1 + size stream

unfoldable pub total_size : List Stream → ℕ
total_size [] = 0
total_size (stream ∷ streams) = size stream + total_size streams

-- `merge_raw_streams`: a round for each event is enough.
unfoldable pub merge_raw_streams : List Stream → Stream
merge_raw_streams streams = fill (total_size streams) 0 streams []
