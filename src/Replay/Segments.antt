-- ===== src/Replay/Segments.antt =====
-- What a segment that is read to its end was found to be, and the order of a chain of segments.
use poly_market_btc_arbitrag.Prelude.{
  ℕ, suc, ◌+◌, ◌≤◌, ◌<◌, ◌≡◌, Bool, true, false, Option, none, some, List, [], ◌∷◌, String, ◌==◌,
  nat_eq, string_eq, option_eq, arith, Bool-cases, Option-cases, inl, inr, option_equals_iff, All,
  leb, length, sym,
}
use poly_market_btc_arbitrag.Models.Payloads.{MarketDataEvent}
use poly_market_btc_arbitrag.Replay.{
  Stream, done, fail, next, Manifest, Decompressed, Segment, or_first, end_checks, read_lines,
  segment_events, follow, chain, size,
}
use poly_market_btc_arbitrag.Replay.Merge.{ending}

-- The sequences of the first and the last event of a stream, behind those that were there.
abbrev pub first_of : Option ℕ → Stream → Option ℕ
first_of first done = first
first_of first (fail _) = first
first_of first (next event stream) = first_of (or_first first event.ingest_sequence) stream

abbrev pub last_of : Option ℕ → Stream → Option ℕ
last_of last done = last
last_of last (fail _) = last
last_of last (next event stream) = last_of (some event.ingest_sequence) stream

-- The manifest states the stream's count and bounds.
abbrev pub Describes : Manifest → ℕ → Option ℕ → Option ℕ → Stream → Type 0
Describes manifest count first last stream =
    (manifest.event_count ≡ some (count + size stream))
    × (manifest.first_ingest_sequence ≡ first_of first stream)
    × (manifest.last_ingest_sequence ≡ last_of last stream)

end_checks-Describes :
    (manifest : Manifest) (count : ℕ) (first last : Option ℕ)
    → ending (end_checks manifest count first last) ≡ none
    → Describes manifest count first last (end_checks manifest count first last)
      × (size (end_checks manifest count first last) ≡ 0)
unfolding end_checks size
end_checks-Describes manifest count first last e = ground (
  arith,
  option_equals_iff manifest.event_count (some count),
  option_equals_iff first manifest.first_ingest_sequence,
  option_equals_iff last manifest.last_ingest_sequence,
)

Describes-next :
    (manifest : Manifest) (count : ℕ) (first last : Option ℕ) (event : MarketDataEvent)
    (stream : Stream)
    → Describes manifest
        (count + 1)
        (or_first first event.ingest_sequence)
        (some event.ingest_sequence)
        stream
    → Describes manifest count first last (next event stream)
unfolding size
Describes-next manifest count first last event stream d = ground arith

module _ {Bytes Line : Type 0} (sha256 : Bytes → String) (decompress : Bytes → Decompressed Line)
    (parse : Line → Option MarketDataEvent) where
  -- The stream describes the manifest and has an event for each line.
  abbrev pub Complete : Manifest → ℕ → Option ℕ → Option ℕ → List Line → Stream → Type 0
  Complete manifest count first last lines stream =
      Describes manifest count first last stream × (size stream ≡ length lines)

  Complete-next :
      (manifest : Manifest) (count : ℕ) (first last : Option ℕ) (lines : List Line) (line : Line)
      (event : MarketDataEvent) (stream : Stream)
      → Complete manifest
          (count + 1)
          (or_first first event.ingest_sequence)
          (some event.ingest_sequence)
          lines
          stream
      → Complete manifest count first last (line ∷ lines) (next event stream)
  unfolding size
  Complete-next manifest count first last lines line event stream c =
      (Describes-next manifest count first last event stream c.0, omega (arith, c.1))

  read_lines-Complete :
      (manifest : Manifest) (broken : Bool) (count : ℕ) (first last : Option ℕ) (lines : List Line)
      → ending (read_lines sha256 decompress parse manifest broken count first last lines) ≡ none
      → Complete manifest count first last lines
          (read_lines sha256 decompress parse manifest broken count first last lines)
  unfolding read_lines
  read_lines-Complete manifest true count first last [] e = ground arith
  read_lines-Complete manifest false count first last [] e =
      end_checks-Describes manifest count first last e
  read_lines-Complete manifest broken count first last (line ∷ lines) e =
      elim (Option-cases (parse line)) [
        | inl f ↦ ground arith
        | inr (event, f) ↦
            let rest =
              read_lines-Complete manifest broken (count + 1) (or_first first event.ingest_sequence)
                (some event.ingest_sequence) lines (simp (read_lines, f) at e) in
            rw (read_lines, f) (Complete-next manifest count first last lines line event _ rest)
      ]

  -- A segment that is read to its end has its data file, whose hash is the manifest's; it yields an event
  -- for each of the file's lines; and the manifest states their number and the first and last sequence.
  pub segment_events-Complete :
      (segment : Segment Bytes)
      → ending (segment_events sha256 decompress parse segment) ≡ none
      → (bytes : Bytes) × (segment.data_file ≡ some bytes)
        × (segment.manifest.sha256 ≡ some (sha256 bytes))
        × Complete segment.manifest 0 none none
            (decompress bytes).lines
            (segment_events sha256 decompress parse segment)
  unfolding segment_events
  segment_events-Complete segment e = elim (Option-cases segment.data_file) [
    | inl f ↦ ground arith
    | inr (bytes, f) ↦ elim (Bool-cases (some (sha256 bytes) == segment.manifest.sha256)) [
      | inl g ↦ (
        bytes,
        f,
        sym ((option_equals_iff (some (sha256 bytes)) segment.manifest.sha256).0 g),
        rw (segment_events, f, g)
            (read_lines-Complete segment.manifest (decompress bytes).broken 0 none none
              (decompress bytes).lines (simp (segment_events, f, g) at e)),
      )
      | inr g ↦ ground arith
    ]
  ]

-- As far as a stream goes, its sequences rise, from `n` at the least.
abbrev pub Orderly : ℕ → Stream → Type 0
Orderly n done = Unit
Orderly n (fail _) = Unit
Orderly n (next event stream) =
    (n ≤ event.ingest_sequence) × Orderly (suc event.ingest_sequence) stream

-- Behind the sequence that was the last before, or from the start.
abbrev after : Option ℕ → ℕ
after none = 0
after (some end) = suc end

-- Behind the segment's last event, or else behind the segments before.
abbrev after_either : Option ℕ → Option ℕ → ℕ
after_either none previous = after previous
after_either (some n) previous = suc n

either-le :
    (last : Option ℕ) (end n : ℕ) → after last ≤ n → end < n → after_either last (some end) ≤ n
either-le none end n p q = q
either-le (some m) end n p q = p

follow-Orderly :
    (previous last : Option ℕ) (stream : Stream) (rest : Option ℕ → Stream)
    → Orderly (after last) stream
    → ((end : Option ℕ) → Orderly (after end) (rest end))
    → after previous ≤ after_either last previous
    → Orderly (after_either last previous) (follow previous last stream rest)
unfolding follow
follow-Orderly previous none done rest o r p = r previous
follow-Orderly previous (some n) done rest o r p = r (some n)
follow-Orderly previous last (fail f) rest o r p = tt
follow-Orderly none none (next event stream) rest o r p =
    (o.0, follow-Orderly none (some event.ingest_sequence) stream rest o.1 r (omega arith))
follow-Orderly none (some n) (next event stream) rest o r p =
    (o.0, follow-Orderly none (some event.ingest_sequence) stream rest o.1 r (omega arith))
follow-Orderly (some end) last (next event stream) rest o r p =
    elim (Bool-cases (leb event.ingest_sequence end)) [
      | inl e ↦ rw (follow, e) tt
      | inr e ↦
          rw (follow, e)
            (
              either-le last end event.ingest_sequence o.0 (ground arith),
              follow-Orderly (some end) (some event.ingest_sequence) stream rest o.1 r
                  (ground arith),
            )
    ]

chain-after :
    (previous : Option ℕ) (streams : List Stream)
    → All (Orderly 0) streams
    → Orderly (after previous) (chain previous streams)
unfolding chain
chain-after previous [] o = tt
chain-after previous (stream ∷ streams) o =
    follow-Orderly previous none stream _ o.0 (λ end. chain-after end streams o.1) (omega arith)

-- A chain of segments whose own sequences rise has rising sequences as far as it goes: a segment that
-- reaches back ends it.
pub chain-Orderly :
    (streams : List Stream) → All (Orderly 0) streams → Orderly 0 (chain none streams)
chain-Orderly streams o = chain-after none streams o
