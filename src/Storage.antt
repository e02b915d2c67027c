-- ===== src/Storage.antt =====
-- `RawEventStorage` of market_data/storage.py: each source's stream has an open segment, which is finished
-- when it is full or old. A finished segment is its compressed file with its manifest. Errors of the operating
-- system are left out.
pub mod Segments
pub mod ByKey
pub mod Files
pub mod Contents
pub mod Closing
pub mod Same
pub mod Recovery
pub mod Replayed
use Prim.Native.String.{◌++◌ as str_append}
use poly_market_btc_arbitrag.Prelude.{
  ℕ, zero, suc, ◌+◌, ◌-◌, ◌≡◌, Bool, true, false, not, ◌&&◌, ◌||◌, Option, none, some, List, [],
  ◌∷◌, ◌++◌, String, ◌==◌, nat_eq, string_eq, option_eq, pair_eq, eqb, leb, ltb, if◌then◌else◌,
  ◌>>=◌, ◌>>◌, require,
}
use poly_market_btc_arbitrag.Dict.{Dict, get, set}
use poly_market_btc_arbitrag.Json.{Json}
use poly_market_btc_arbitrag.Json.Fields.{as_object}
use poly_market_btc_arbitrag.Models.Payloads.{MarketDataEvent, EventPayload, stream_of}
use poly_market_btc_arbitrag.Codec.Values.{Python}
use poly_market_btc_arbitrag.Codec.Enums.{source_value, stream_value}
use poly_market_btc_arbitrag.Codec.Write.{event_json}
use poly_market_btc_arbitrag.Codec.Read.{event_from_dict}
use poly_market_btc_arbitrag.Replay.Files.{Directory}
use poly_market_btc_arbitrag.Replay.{Manifest, Decompressed, Segment, or_first}

-- The formats of the files: JSON lines with their length in bytes, Zstandard, SHA-256, and how a
-- date and an hour are written.
pub record Format (Bytes Line : Type 0) : Type 0 where
  pub python : Python
  pub dumps : Json → Line
  pub loads : Line → Option Json
  pub byte_length : Line → ℕ
  pub compress : List Line → Bytes
  pub decompress : Bytes → Decompressed Line
  pub sha256 : Bytes → String
  pub date_of : ℕ → String
  pub hour_of : ℕ → String

-- What is written in a format is read back.
pub record IsLossless {Bytes Line : Type 0} (f : Format Bytes Line) : Type 0 where
  pub loads-dumps :
      (e : MarketDataEvent)
      → f.loads (f.dumps (event_json f.python e)) ≡ some (event_json f.python e)
  pub decompress-compress :
      (lines : List Line)
      → f.decompress (f.compress lines) ≡ record { lines = lines; broken = false }

-- `_RawSegment`, with what its file holds. The path stands for the directory only.
pub record RawSegment (Line : Type 0) : Type 0 where
  pub directory : Directory
  pub lines : List Line
  pub opened_monotonic : ℕ
  pub event_count : ℕ
  pub first_sequence : Option ℕ
  pub last_sequence : Option ℕ
  pub first_received_ns : Option ℕ
  pub last_received_ns : Option ℕ
  pub uncompressed_bytes : ℕ

-- The manifest without its names, its dates and the size of the compressed file.
pub record RawManifest : Type 0 where
  pub sha256 : String
  pub event_count : ℕ
  pub first_ingest_sequence : Option ℕ
  pub last_ingest_sequence : Option ℕ
  pub first_received_timestamp_ns : Option ℕ
  pub last_received_timestamp_ns : Option ℕ
  pub uncompressed_bytes : ℕ

-- What a validation counts: the events, and the first and the last sequence.
pub record Counted : Type 0 where
  pub count : ℕ
  pub first : Option ℕ
  pub last : Option ℕ

abbrev pub same_counts : Counted → Counted → Bool
same_counts a b = a.count == b.count && (a.first == b.first && a.last == b.last)

-- The files of a finished segment.
pub record Finished (Bytes : Type 0) : Type 0 where
  pub directory : Directory
  pub compressed : Bytes
  pub manifest : RawManifest

abbrev pub nothing_counted : Counted
nothing_counted = record { count = 0; first = none; last = none }

abbrev pub count_event : MarketDataEvent → Counted → Counted
count_event event c = record {
  count = c.count + 1;
  first = or_first c.first event.ingest_sequence;
  last = some event.ingest_sequence;
}

-- What the segment itself has counted.
abbrev pub counted : {Line : Type 0} → RawSegment Line → Counted
counted segment = record {
  count = segment.event_count;
  first = segment.first_sequence;
  last = segment.last_sequence;
}

abbrev pub Key : Type 0
Key = String × String

pub record RawEventStorage (Bytes Line : Type 0) : Type 0 where
  pub rotate_seconds : ℕ
  pub rotate_bytes : ℕ
  pub segments : Dict Key (RawSegment Line)
  pub manifests : List (Finished Bytes)

-- The readings of the monotonic clock in a call of `write`.
pub record Clocks : Type 0 where
  pub opened : ℕ
  pub checked : ℕ
  pub reopened : ℕ

-- `first or value`: 0 counts as missing.
abbrev pub or_truthy : Option ℕ → ℕ → Option ℕ
or_truthy none value = some value
or_truthy (some zero) value = some value
or_truthy (some (suc n)) value = some (suc n)

abbrev pub key_of : MarketDataEvent → Key
key_of event = (source_value event.source, stream_value (stream_of event.payload))

module _ {Bytes Line : Type 0} (f : Format Bytes Line) where
  -- `json_dumps(event) + "\n"`
  unfoldable pub encode : MarketDataEvent → Line
  encode event = f.dumps (event_json f.python event)

  -- The event of a line, as the validation and the replay read it.
  unfoldable pub decode : Line → Option MarketDataEvent
  decode line = do value ← as_object (f.loads line); event_from_dict f.python value

  -- The loop of `stream_validate_zstd_jsonl`.
  unfoldable pub validate_lines : Counted → List Line → Option Counted
  validate_lines so_far [] = some so_far
  validate_lines so_far (line ∷ lines) = do
    event ← decode line
    validate_lines (count_event event so_far) lines

  unfoldable pub stream_validate_zstd_jsonl : Bytes → Option Counted
  stream_validate_zstd_jsonl bytes = do
    require (not (f.decompress bytes).broken)
    validate_lines nothing_counted (f.decompress bytes).lines

  -- The directory of a segment below the directory of the data.
  unfoldable pub directory_of : ℕ → Key → Directory
  directory_of time key =
      "raw"
      ∷ str_append "date=" (f.date_of time)
      ∷ str_append "hour=" (f.hour_of time)
      ∷ str_append "source=" key.0
      ∷ str_append "stream=" key.1
      ∷ []

  -- `_open`
  unfoldable pub open_segment : ℕ → MarketDataEvent → RawSegment Line
  open_segment now event = record {
    directory = directory_of event.received_wall_timestamp_ns (key_of event);
    lines = [];
    opened_monotonic = now;
    event_count = 0;
    first_sequence = none;
    last_sequence = none;
    first_received_ns = none;
    last_received_ns = none;
    uncompressed_bytes = 0;
  }

  -- `_finalize`, or an error where the file does not hold what the segment counted
  unfoldable pub finalize : RawSegment Line → Option (Finished Bytes)
  finalize segment = do
    found ← stream_validate_zstd_jsonl (f.compress segment.lines)
    require (same_counts found (counted segment))
    some (record {
      directory = segment.directory;
      compressed = f.compress segment.lines;
      manifest = record {
        sha256 = f.sha256 (f.compress segment.lines);
        event_count = segment.event_count;
        first_ingest_sequence = segment.first_sequence;
        last_ingest_sequence = segment.last_sequence;
        first_received_timestamp_ns = segment.first_received_ns;
        last_received_timestamp_ns = segment.last_received_ns;
        uncompressed_bytes = segment.uncompressed_bytes;
      };
    })

  -- What `write` does to the segment that it has found.
  unfoldable pub append_event : MarketDataEvent → RawSegment Line → RawSegment Line
  append_event event segment = record segment {
    lines = segment.lines ++ encode event ∷ [];
    event_count = segment.event_count + 1;
    first_sequence = or_truthy segment.first_sequence event.ingest_sequence;
    last_sequence = some event.ingest_sequence;
    first_received_ns = or_truthy segment.first_received_ns event.received_wall_timestamp_ns;
    last_received_ns = some event.received_wall_timestamp_ns;
    uncompressed_bytes = segment.uncompressed_bytes + f.byte_length (encode event);
  }

  -- Whether the segment is finished before the event is written.
  unfoldable pub is_full : ℕ → MarketDataEvent → RawSegment Line → RawEventStorage Bytes Line → Bool
  is_full now event segment s =
      not (eqb segment.event_count 0)
      && (ltb s.rotate_bytes (segment.uncompressed_bytes + f.byte_length (encode event))
          || leb s.rotate_seconds (now - segment.opened_monotonic))

  abbrev pub or_open : ℕ → MarketDataEvent → Option (RawSegment Line) → RawSegment Line
  or_open now event none = open_segment now event
  or_open now event (some segment) = segment

  abbrev pub put_segment :
      Key → RawSegment Line → RawEventStorage Bytes Line → RawEventStorage Bytes Line
  put_segment key segment s = record s { segments = set key segment s.segments }

  -- The finished segment is noted, and the event goes to a new one.
  abbrev pub rotate :
      ℕ
      → MarketDataEvent
      → RawEventStorage Bytes Line
      → Option (Finished Bytes)
      → Option (RawEventStorage Bytes Line)
  rotate now event s none = none
  rotate now event s (some done) = some (
      put_segment (key_of event) (append_event event (open_segment now event))
        (record s { manifests = s.manifests ++ done ∷ [] }))

  unfoldable pub write :
      Clocks → MarketDataEvent → RawEventStorage Bytes Line → Option (RawEventStorage Bytes Line)
  write clocks event s =
      let segment = or_open clocks.opened event (get (key_of event) s.segments) in
      if is_full clocks.checked event segment s
      then rotate clocks.reopened event s (finalize segment)
      else some (put_segment (key_of event) (append_event event segment) s)

  unfoldable pub write_all :
      List (Clocks × MarketDataEvent)
      → RawEventStorage Bytes Line
      → Option (RawEventStorage Bytes Line)
  write_all [] s = some s
  write_all ((clocks, event) ∷ events) s = write clocks event s >>= write_all events

  -- The loop of `close`: a segment without events is deleted.
  unfoldable pub close_segments :
      Dict Key (RawSegment Line) → List (Finished Bytes) → Option (List (Finished Bytes))
  close_segments [] manifests = some manifests
  close_segments ((key, segment) ∷ segments) manifests =
      if eqb segment.event_count 0
      then close_segments segments manifests
      else finalize segment >>= λ done. close_segments segments (manifests ++ done ∷ [])

  -- `close`, which returns the manifests of the storage that it leaves.
  unfoldable pub close : RawEventStorage Bytes Line → Option (RawEventStorage Bytes Line)
  close s = do
    manifests ← close_segments s.segments s.manifests
    some (record s { segments = []; manifests = manifests })

unfoldable pub new_storage : {Bytes Line : Type 0} → ℕ → ℕ → RawEventStorage Bytes Line
new_storage seconds bytes = record {
  rotate_seconds = seconds;
  rotate_bytes = bytes;
  segments = [];
  manifests = [];
}

-- The files of a segment as the replay finds them.
abbrev pub as_segment : {Bytes : Type 0} → Finished Bytes → Segment Bytes
as_segment done = record {
  manifest = record {
    sha256 = some done.manifest.sha256;
    event_count = some done.manifest.event_count;
    first_ingest_sequence = done.manifest.first_ingest_sequence;
    last_ingest_sequence = done.manifest.last_ingest_sequence;
  };
  data_file = some done.compressed;
}
