-- ===== src/Replay/Files.antt =====
-- `read_raw_events` of market_data/replay.py: the manifests of a directory, grouped by their own
-- directories, each group sorted and chained, and the chains merged.
use poly_market_btc_arbitrag.Prelude.{
  ℕ, Option, none, some, List, [], ◌∷◌, ◌++◌, map, String, string_eq, list_eq, leb, if◌then◌else◌,
}
use poly_market_btc_arbitrag.Dict.{Dict, get, set}
use poly_market_btc_arbitrag.Models.Payloads.{MarketDataEvent}
use poly_market_btc_arbitrag.Replay.{
  Stream, fail, invalid_manifest, Decompressed, Segment, segment_events, chain, merge_raw_streams,
}

-- A segment with the key that the chain sorts by.
abbrev pub Keyed : Type 0 → Type 0
Keyed Bytes = ℕ × Segment Bytes

-- A directory as the parts of its path.
abbrev pub Directory : Type 0
Directory = List String

-- A manifest file: its directory, and what it holds where it can be read.
abbrev pub ManifestFile : Type 0 → Type 0
ManifestFile Bytes = Directory × Option (Segment Bytes)

module _ {Bytes : Type 0} where
  -- The keys of the sort; a missing one is an error.
  unfoldable pub with_keys : List (Segment Bytes) → Option (List (Keyed Bytes))
  with_keys [] = some []
  with_keys (segment ∷ segments) = elim segment.manifest.first_ingest_sequence [
    | none ↦ none
    | some first ↦ elim (with_keys segments) [
      | none ↦ none
      | some rest ↦ some ((first, segment) ∷ rest)
    ]
  ]

  unfoldable pub insert_segment : Keyed Bytes → List (Keyed Bytes) → List (Keyed Bytes)
  insert_segment a [] = a ∷ []
  insert_segment a (b ∷ rest) =
      let further = insert_segment a rest in if leb a.0 b.0 then a ∷ b ∷ rest else b ∷ further

  -- `sorted(..., key=...)`, which keeps the order of equal keys
  unfoldable pub sort_segments : List (Keyed Bytes) → List (Keyed Bytes)
  unfolding insert_segment
  sort_segments [] = []
  sort_segments (a ∷ rest) = insert_segment a (sort_segments rest)

  abbrev pub group_of : Option (List (Segment Bytes)) → List (Segment Bytes)
  group_of none = []
  group_of (some group) = group

  -- The loop over the manifests; one without an event count is no raw segment's.
  unfoldable pub group_manifests :
      List (ManifestFile Bytes)
      → Dict Directory (List (Segment Bytes))
      → Option (Dict Directory (List (Segment Bytes)))
  group_manifests [] grouped = some grouped
  group_manifests ((parent, none) ∷ files) grouped = none
  group_manifests ((parent, some segment) ∷ files) grouped = elim segment.manifest.event_count [
    | none ↦ group_manifests files grouped
    | some _ ↦
        group_manifests files (set parent (group_of (get parent grouped) ++ segment ∷ []) grouped)
  ]

  abbrev pub groups : Dict Directory (List (Segment Bytes)) → List (List (Segment Bytes))
  groups [] = []
  groups ((_, group) ∷ grouped) = group ∷ groups grouped

module _ {Bytes Line : Type 0} (sha256 : Bytes → String) (decompress : Bytes → Decompressed Line)
    (parse : Line → Option MarketDataEvent) where
  -- `RawStreamChain`
  unfoldable pub raw_stream_chain : List (Segment Bytes) → Stream
  raw_stream_chain segments = elim (with_keys segments) [
    | none ↦ fail invalid_manifest
    | some keyed ↦
        chain none (map (λ k. segment_events sha256 decompress parse k.1) (sort_segments keyed))
  ]

  unfoldable pub read_raw_events : List (ManifestFile Bytes) → Stream
  read_raw_events files = elim (group_manifests files []) [
    | none ↦ fail invalid_manifest
    | some grouped ↦ merge_raw_streams (map raw_stream_chain (groups grouped))
  ]
