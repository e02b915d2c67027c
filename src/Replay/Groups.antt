-- ===== src/Replay/Groups.antt =====
-- The whole directory of segments: they are grouped by their directories, chained, and merged.
use poly_market_btc_arbitrag.Prelude.{
  ℕ, suc, ◌+◌, ◌≡◌, refl, sym, ap, subst, ◌∙◌, Bool, Option, some, List, [], ◌∷◌, ◌++◌, map, arith,
  String, string_eq, list_eq, list_equals_iff, ◌==◌, All, All-both, All-append, All-every, length,
  Bool-cases, Option-cases, inl, inr, Gives, Gives-mono,
}
use poly_market_btc_arbitrag.Dict.{Dict, get, set}
use poly_market_btc_arbitrag.Dict.Laws.{get-set, set-All, get-All}
use poly_market_btc_arbitrag.Models.Payloads.{MarketDataEvent}
use poly_market_btc_arbitrag.Replay.{Stream, Decompressed, Segment, merge_raw_streams}
use poly_market_btc_arbitrag.Replay.Files.{
  Directory, ManifestFile, group_of, groups, group_manifests, raw_stream_chain, read_raw_events,
}
use poly_market_btc_arbitrag.Replay.Merge.{Counts, Consecutive, merge_raw_streams-Consecutive}
use poly_market_btc_arbitrag.Replay.Completeness.{tally, total_tally, tally-merge_raw_streams}
use poly_market_btc_arbitrag.Replay.Success.{
  Rising, has_sequence, once_within, ending-merge_raw_streams,
}
use poly_market_btc_arbitrag.Replay.Listed.{
  stream_of_list, events_of, RisingFrom-unique, Consecutive-Rising, stream_of_list-events_of,
  ending-stream, count,
}
use poly_market_btc_arbitrag.Replay.Sorted.{
  held, Good, Apart, AllApart, held_count, raw_stream_chain-joined,
}
use poly_market_btc_arbitrag.Replay.Follow.{head_sequence}

-- A segment in its directory.
abbrev pub Placed : Type 0 → Type 0
Placed Bytes = Directory × Segment Bytes

abbrev pub manifest_files : {Bytes : Type 0} → List (Placed Bytes) → List (ManifestFile Bytes)
manifest_files files = map (λ file. (file.0, some file.1)) files

count_within :
    (m n : ℕ) (events : List MarketDataEvent)
    → Counts n (stream_of_list events)
    → count (has_sequence m) events ≡ once_within n (length events) m
count_within m n [] c = ground arith
count_within m n (event ∷ events) c = ground (arith, count_within m (suc n) events c.1, c.0)

-- Events with consecutive sequences have each sequence of a range once.
count_once :
    (m : ℕ) (events : List MarketDataEvent)
    → Consecutive (stream_of_list events)
    → count (has_sequence m) events ≡ once_within (head_sequence events) (length events) m
count_once m [] c = ground arith
count_once m (event ∷ events) c = count_within m event.ingest_sequence (event ∷ events) (refl, c)

group_manifests-cons :
    {Bytes : Type 0} (parent : Directory) (segment : Segment Bytes)
    (files : List (ManifestFile Bytes)) (grouped : Dict Directory (List (Segment Bytes))) (n : ℕ)
    → segment.manifest.event_count ≡ some n
    → group_manifests ((parent, some segment) ∷ files) grouped
      ≡ group_manifests files (set parent (group_of (get parent grouped) ++ segment ∷ []) grouped)
unfolding group_manifests
group_manifests-cons parent segment files grouped n e = simp e

module _ {Bytes Line : Type 0} (sha256 : Bytes → String) (decompress : Bytes → Decompressed Line)
    (parse : Line → Option MarketDataEvent) where
  -- Segments in the same directory do not overlap.
  abbrev pub Clear : Placed Bytes → Placed Bytes → Type 0
  Clear f g = f.0 ≡ g.0 → Apart sha256 decompress parse f.1 g.1

  abbrev pub AllClear : List (Placed Bytes) → Type 0
  AllClear [] = Unit
  AllClear (f ∷ files) = All (Clear f) files × AllClear files

  abbrev pub AllGood : List (Placed Bytes) → Type 0
  AllGood = All λ f. Good sha256 decompress parse f.1

  abbrev WellGroup : List (Segment Bytes) → Type 0
  WellGroup group =
      All (Good sha256 decompress parse) group × AllApart sha256 decompress parse group

  abbrev WellGroups : Dict Directory (List (Segment Bytes)) → Type 0
  WellGroups grouped = All (λ entry. WellGroup entry.1) grouped

  -- The file does not overlap with what its directory's group has.
  abbrev Fits : Dict Directory (List (Segment Bytes)) → Placed Bytes → Type 0
  Fits grouped f = All (λ t. Apart sha256 decompress parse t f.1) (group_of (get f.0 grouped))

  abbrev pub placed_count : (MarketDataEvent → Bool) → List (Placed Bytes) → ℕ
  placed_count p [] = 0
  placed_count p (f ∷ files) = count p (held sha256 decompress parse f.1) + placed_count p files

  abbrev group_count : (MarketDataEvent → Bool) → Dict Directory (List (Segment Bytes)) → ℕ
  group_count p [] = 0
  group_count p ((_, group) ∷ grouped) =
      held_count sha256 decompress parse p group + group_count p grouped

  held_count-snoc :
      (p : MarketDataEvent → Bool) (group : List (Segment Bytes)) (s : Segment Bytes)
      → held_count sha256 decompress parse p (group ++ s ∷ [])
        ≡ held_count sha256 decompress parse p group + count p (held sha256 decompress parse s)
  held_count-snoc p [] s = omega arith
  held_count-snoc p (t ∷ group) s = omega (arith, held_count-snoc p group s)

  group_count-set :
      (p : MarketDataEvent → Bool) (parent : Directory) (s : Segment Bytes)
      (d : Dict Directory (List (Segment Bytes))) (old : List (Segment Bytes))
      → group_of (get parent d) ≡ old
      → group_count p (set parent (old ++ s ∷ []) d)
        ≡ group_count p d + count p (held sha256 decompress parse s)
  unfolding get set
  group_count-set p parent s [] old h = rw (sym h) (omega arith)
  group_count-set p parent s ((name, group) ∷ d) old h = elim (Bool-cases (name == parent)) [
    | inl e ↦
        let same : group ≡ old = rw (get, e) at h in
        rw (e, sym same) (omega (arith, held_count-snoc p group s))
    | inr e ↦
        let same : group_of (get parent d) ≡ old = rw (get, e) at h in
        rw e (omega (arith, group_count-set p parent s d old same))
  ]

  AllApart-snoc :
      (group : List (Segment Bytes)) (s : Segment Bytes)
      → AllApart sha256 decompress parse group
      → All (λ t. Apart sha256 decompress parse t s) group
      → AllApart sha256 decompress parse (group ++ s ∷ [])
  AllApart-snoc [] s a h = (tt, tt)
  AllApart-snoc (t ∷ group) s a h = (
    All-append (λ u. Apart sha256 decompress parse t u) group (s ∷ []) a.0 (h.0, tt),
    AllApart-snoc group s a.1 h.1,
  )

  WellGroup-get :
      (parent : Directory) (d : Dict Directory (List (Segment Bytes)))
      → WellGroups d
      → WellGroup (group_of (get parent d))
  WellGroup-get parent d w = elim (Option-cases (get parent d)) [
    | inl e ↦ rw e (tt, tt)
    | inr (group, e) ↦ rw e (get-All (λ entry. WellGroup entry.1) parent group d w e)
  ]

  WellGroup-snoc :
      (group : List (Segment Bytes)) (s : Segment Bytes)
      → WellGroup group
      → Good sha256 decompress parse s
      → All (λ t. Apart sha256 decompress parse t s) group
      → WellGroup (group ++ s ∷ [])
  WellGroup-snoc group s w g h = (
    All-append (Good sha256 decompress parse) group (s ∷ []) w.0 (g, tt),
    AllApart-snoc group s w.1 h,
  )

  Fits-set :
      (a f : Placed Bytes) (d : Dict Directory (List (Segment Bytes)))
      → Clear a f
      → Fits d f
      → Fits (set a.0 (group_of (get a.0 d) ++ a.1 ∷ []) d) f
  Fits-set a f d clear fits = elim (Bool-cases (a.0 == f.0)) [
    | inl e ↦
        let same = (list_equals_iff a.0 f.0).0 e in
        rw (get-set a.0 f.0 (group_of (get a.0 d) ++ a.1 ∷ []) d, e)
          (All-append (λ t. Apart sha256 decompress parse t f.1) (group_of (get a.0 d)) (a.1 ∷ [])
            (subst (λ name. All (λ t. Apart sha256 decompress parse t f.1) (group_of (get name d)))
              (sym same) fits)
            (clear same, tt))
    | inr e ↦ rw (get-set a.0 f.0 (group_of (get a.0 d) ++ a.1 ∷ []) d, e) fits
  ]

  -- What the groups are behind the loop: well formed, with the events that were there and those of the files.
  abbrev Grouped :
      List (Placed Bytes)
      → Dict Directory (List (Segment Bytes))
      → Dict Directory (List (Segment Bytes))
      → Type 0
  Grouped files before after =
      WellGroups after
      × ((p : MarketDataEvent → Bool)
          → group_count p after ≡ group_count p before + placed_count p files)

  group_manifests-Grouped :
      (files : List (Placed Bytes)) (d : Dict Directory (List (Segment Bytes)))
      → AllGood files
      → AllClear files
      → WellGroups d
      → All (Fits d) files
      → Gives (Grouped files d) (group_manifests (manifest_files files) d)
  unfolding group_manifests
  group_manifests-Grouped [] d good clear w fits = (w, λ p. omega arith)
  group_manifests-Grouped (f ∷ files) d good clear w fits =
      let group = group_of (get f.0 d) ++ f.1 ∷ [] in
      rw (group_manifests-cons f.0 f.1 (manifest_files files) d good.0.counted.0 good.0.counted.1) (
        Gives-mono (Grouped files (set f.0 group d)) (Grouped (f ∷ files) d)
          (group_manifests (manifest_files files) (set f.0 group d))
          (λ after g. (
            g.0,
            λ p. omega (arith, g.1 p, group_count-set p f.0 f.1 d (group_of (get f.0 d)) refl),
          ))
          (group_manifests-Grouped files (set f.0 group d) good.1 clear.1
            (set-All (λ entry. WellGroup entry.1) f.0 group d
              (WellGroup-snoc (group_of (get f.0 d)) f.1 (WellGroup-get f.0 d w) good.0 fits.0) w)
            (All-both (λ g c. Fits-set f g d c) files clear.0 fits.1)))

  abbrev chains : Dict Directory (List (Segment Bytes)) → List Stream
  chains d = map (raw_stream_chain sha256 decompress parse) (groups d)

  chains-Rising :
      (d : Dict Directory (List (Segment Bytes))) → WellGroups d → All (Rising 0) (chains d)
  chains-Rising [] w = tt
  chains-Rising ((_, group) ∷ d) w =
      ((raw_stream_chain-joined sha256 decompress parse group w.0.0 w.0.1).0, chains-Rising d w.1)

  chains-count :
      (p : MarketDataEvent → Bool) (d : Dict Directory (List (Segment Bytes)))
      → WellGroups d
      → total_tally p (chains d) ≡ group_count p d
  chains-count p [] w = refl
  chains-count p ((_, group) ∷ d) w = omega (
    arith,
    (raw_stream_chain-joined sha256 decompress parse group w.0.0 w.0.1).1 p,
    chains-count p d w.1,
  )

  -- The merge of rising streams whose events are those of a list with consecutive sequences is the list.
  merge_raw_streams-listed :
      (streams : List Stream) (events : List MarketDataEvent)
      → All (Rising 0) streams
      → Consecutive (stream_of_list events)
      → ((p : MarketDataEvent → Bool) → total_tally p streams ≡ count p events)
      → merge_raw_streams streams ≡ stream_of_list events
  merge_raw_streams-listed streams events rising consecutive same =
      let ends =
        ending-merge_raw_streams streams (head_sequence events) (length events) rising
          λ m. same (has_sequence m) ∙ count_once m events consecutive in
      let merged = stream_of_list-events_of (merge_raw_streams streams) ends in
      let merged_rising =
        Consecutive-Rising (merge_raw_streams streams) ends
          (merge_raw_streams-Consecutive streams) in
      let events_rising =
        Consecutive-Rising (stream_of_list events) (ending-stream events) consecutive in
      let equal : events_of (merge_raw_streams streams) ≡ events =
        RisingFrom-unique 0 0 (events_of (merge_raw_streams streams)) events
          (subst (Rising 0) (sym merged) merged_rising) events_rising
          λ p. ap (tally p) merged ∙ tally-merge_raw_streams p streams ends ∙ same p in
      sym merged ∙ ap stream_of_list equal

  -- Segments whose events are those of a list with consecutive sequences are read back as the list, in whatever
  -- order they are found, if those in the same directory do not overlap.
  pub read_raw_events-listed :
      (files : List (Placed Bytes)) (events : List MarketDataEvent)
      → AllGood files
      → AllClear files
      → Consecutive (stream_of_list events)
      → ((p : MarketDataEvent → Bool) → placed_count p files ≡ count p events)
      → read_raw_events sha256 decompress parse (manifest_files files) ≡ stream_of_list events
  unfolding read_raw_events get
  read_raw_events-listed files events good clear consecutive same =
      let gives = group_manifests-Grouped files [] good clear tt (All-every (λ f. tt) files) in
      elim (Option-cases (group_manifests (manifest_files files) [])) [
        | inl e ↦ let nothing : ⊥ = rw e at gives in absurd nothing
        | inr (d, e) ↦
            let grouped : Grouped files [] d = rw e at gives in
            rw (read_raw_events, e)
              (merge_raw_streams-listed (chains d) events (chains-Rising d grouped.0) consecutive
                λ p. chains-count p d grouped.0 ∙ omega (arith, grouped.1 p, same p))
      ]
