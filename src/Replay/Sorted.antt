-- ===== src/Replay/Sorted.antt =====
-- A chain of segments whose ranges of sequences do not overlap, in whatever order they are found.
use poly_market_btc_arbitrag.Prelude.{
  ℕ, suc, ◌+◌, ◌≤◌, ◌<◌, ◌≡◌, ◌⊎◌, refl, ap, subst, ◌∙◌, Bool, Option, none, some, List, [], ◌∷◌,
  ◌++◌, map, arith, All, All-map, length, leb, String, Bool-cases, inl, inr,
}
use poly_market_btc_arbitrag.Models.Payloads.{MarketDataEvent}
use poly_market_btc_arbitrag.Replay.{Stream, Decompressed, Segment, segment_events, chain}
use poly_market_btc_arbitrag.Replay.Files.{
  Keyed, with_keys, insert_segment, sort_segments, raw_stream_chain,
}
use poly_market_btc_arbitrag.Replay.Success.{Rising}
use poly_market_btc_arbitrag.Replay.Completeness.{tally}
use poly_market_btc_arbitrag.Replay.Listed.{
  stream_of_list, events_of, after, RisingFrom, RisingFrom-join, after-le, count, count-append,
}
use poly_market_btc_arbitrag.Replay.Follow.{head_sequence, Under, chain-cons, with_keys-cons}

module _ {Bytes Line : Type 0} (sha256 : Bytes → String) (decompress : Bytes → Decompressed Line)
    (parse : Line → Option MarketDataEvent) where
  abbrev pub held : Segment Bytes → List MarketDataEvent
  held segment = events_of (segment_events sha256 decompress parse segment)

  -- The segment is read to its end, its sequences rise, it is not empty, and its manifest names the first.
  pub record Good (segment : Segment Bytes) : Type 0 where
    pub readable : segment_events sha256 decompress parse segment ≡ stream_of_list (held segment)
    pub rising : RisingFrom 0 (held segment)
    pub filled : 0 < length (held segment)
    pub first : segment.manifest.first_ingest_sequence ≡ some (head_sequence (held segment))
    pub counted : (n : ℕ) × (segment.manifest.event_count ≡ some n)

  -- The second one's sequences come behind those of the first one.
  abbrev pub Before : Segment Bytes → Segment Bytes → Type 0
  Before s t = RisingFrom (after 0 (held s)) (held t)

  abbrev pub Apart : Segment Bytes → Segment Bytes → Type 0
  Apart s t = Before s t ⊎ Before t s

  abbrev pub AllApart : List (Segment Bytes) → Type 0
  AllApart [] = Unit
  AllApart (s ∷ segments) = All (λ t. Apart s t) segments × AllApart segments

  abbrev WellKeyed : Keyed Bytes → Type 0
  WellKeyed k = Good k.1 × (k.0 ≡ head_sequence (held k.1))

  abbrev joined : List (Keyed Bytes) → List MarketDataEvent
  joined [] = []
  joined (k ∷ keyed) = held k.1 ++ joined keyed

  -- Each segment's sequences come behind those of the one before it.
  abbrev Linked : ℕ → List (Keyed Bytes) → Type 0
  Linked n [] = Unit
  Linked n (k ∷ keyed) = RisingFrom n (held k.1) × Linked (after n (held k.1)) keyed

  abbrev streams_of : List (Keyed Bytes) → List Stream
  streams_of keyed = map (λ k. segment_events sha256 decompress parse k.1) keyed

  chain-joined :
      (keyed : List (Keyed Bytes)) (previous : Option ℕ) (n : ℕ)
      → All WellKeyed keyed
      → Under n previous
      → Linked n keyed
      → chain previous (streams_of keyed) ≡ stream_of_list (joined keyed)
  unfolding chain
  chain-joined [] previous n w u l = refl
  chain-joined (k ∷ keyed) previous n w u l =
      chain-cons (segment_events sha256 decompress parse k.1) (streams_of keyed) (held k.1)
        (joined keyed) previous n w.0.0.readable u l.0
        λ end v. chain-joined keyed end (after n (held k.1)) w.1 v l.1

  joined-RisingFrom :
      (n : ℕ) (keyed : List (Keyed Bytes)) → Linked n keyed → RisingFrom n (joined keyed)
  joined-RisingFrom n [] l = tt
  joined-RisingFrom n (k ∷ keyed) l =
      RisingFrom-join n (held k.1) (joined keyed) l.0
        (joined-RisingFrom (after n (held k.1)) keyed l.1)

  -- Where a list has an event, what it comes behind does not matter for what comes behind it.
  after-filled :
      (m n : ℕ) (events : List MarketDataEvent)
      → 0 < length events
      → after m events ≡ after n events
  after-filled m n [] h = ground arith
  after-filled m n (event ∷ events) h = refl

  head-behind :
      (n : ℕ) (events : List MarketDataEvent)
      → 0 < length events
      → RisingFrom n events
      → (n ≤ head_sequence events) × (head_sequence events < after 0 events)
  head-behind n [] h r = ground arith
  head-behind n (event ∷ events) h r = (r.0, after-le (suc event.ingest_sequence) events r.1)

  -- Of segments that are apart, the one that begins first comes before the other.
  head-Before :
      (a b : Keyed Bytes) → WellKeyed a → WellKeyed b → Apart a.1 b.1 → a.0 ≤ b.0 → Before a.1 b.1
  head-Before a b wa wb (inl before) le = before
  head-Before a b wa wb (inr before) le =
      let first_a = head-behind (after 0 (held b.1)) (held a.1) wa.0.filled before in
      let first_b = head-behind 0 (held b.1) wb.0.filled wb.0.rising in
      absurd (omega (arith, first_a.0, first_b.1, wa.1, wb.1, le))

  insert_segment-Linked :
      (a : Keyed Bytes) (keyed : List (Keyed Bytes)) (n : ℕ)
      → WellKeyed a
      → All WellKeyed keyed
      → All (λ b. Apart a.1 b.1) keyed
      → RisingFrom n (held a.1)
      → Linked n keyed
      → Linked n (insert_segment a keyed)
  unfolding insert_segment
  insert_segment-Linked a [] n wa w apart r l = (r, tt)
  insert_segment-Linked a (b ∷ keyed) n wa w apart r l = elim (Bool-cases (leb a.0 b.0)) [
    | inl e ↦
        let before = head-Before a b wa w.0 apart.0 (ground arith) in
        rw e (
          r,
          (
            subst (λ m. RisingFrom m (held b.1)) (after-filled 0 n (held a.1) wa.0.filled) before,
            subst (λ m. Linked m keyed)
                (after-filled n (after n (held a.1)) (held b.1) w.0.0.filled) l.1,
          ),
        )
    | inr e ↦
        let before = head-Before b a w.0 wa (swap apart.0) (ground arith) in
        rw e (
          l.0,
          insert_segment-Linked a keyed (after n (held b.1)) wa w.1 apart.1
              (subst (λ m. RisingFrom m (held a.1)) (after-filled 0 n (held b.1) w.0.0.filled)
                before)
              l.1,
        )
  ]
    where
      swap : {A B : Type 0} → A ⊎ B → B ⊎ A
      swap (inl x) = inr x
      swap (inr y) = inl y

  insert_segment-All :
      (P : Keyed Bytes → Type 0) (a : Keyed Bytes) (keyed : List (Keyed Bytes))
      → P a
      → All P keyed
      → All P (insert_segment a keyed)
  unfolding insert_segment
  insert_segment-All P a [] pa ps = (pa, tt)
  insert_segment-All P a (b ∷ keyed) pa ps = elim (Bool-cases (leb a.0 b.0)) [
    | inl e ↦ rw e (pa, ps)
    | inr e ↦ rw e (ps.0, insert_segment-All P a keyed pa ps.1)
  ]

  sort_segments-All :
      (P : Keyed Bytes → Type 0) (keyed : List (Keyed Bytes))
      → All P keyed
      → All P (sort_segments keyed)
  unfolding sort_segments
  sort_segments-All P [] ps = tt
  sort_segments-All P (a ∷ keyed) ps =
      insert_segment-All P a (sort_segments keyed) ps.0 (sort_segments-All P keyed ps.1)

  insert_segment-count :
      (p : MarketDataEvent → Bool) (a : Keyed Bytes) (keyed : List (Keyed Bytes))
      → count p (joined (insert_segment a keyed)) ≡ count p (held a.1) + count p (joined keyed)
  unfolding insert_segment
  insert_segment-count p a [] = count-append p (held a.1) []
  insert_segment-count p a (b ∷ keyed) = elim (Bool-cases (leb a.0 b.0)) [
    | inl e ↦ rw e (count-append p (held a.1) (held b.1 ++ joined keyed))
    | inr e ↦ rw e (
        omega (
          arith,
          count-append p (held b.1) (joined (insert_segment a keyed)),
          count-append p (held b.1) (joined keyed),
          insert_segment-count p a keyed,
        ))
  ]

  -- The keys under which the segments are sorted.
  abbrev key_of_segment : Segment Bytes → Keyed Bytes
  key_of_segment segment = (head_sequence (held segment), segment)

  abbrev keyed_segments : List (Segment Bytes) → List (Keyed Bytes)
  keyed_segments segments = map key_of_segment segments

  with_keys-keyed :
      (segments : List (Segment Bytes))
      → All Good segments
      → with_keys segments ≡ some (keyed_segments segments)
  unfolding with_keys
  with_keys-keyed [] g = refl
  with_keys-keyed (s ∷ segments) g =
      with_keys-cons s segments (head_sequence (held s)) (keyed_segments segments) g.0.first
        (with_keys-keyed segments g.1)

  keyed_segments-WellKeyed :
      (segments : List (Segment Bytes))
      → All Good segments
      → All WellKeyed (keyed_segments segments)
  keyed_segments-WellKeyed [] g = tt
  keyed_segments-WellKeyed (s ∷ segments) g = ((g.0, refl), keyed_segments-WellKeyed segments g.1)

  sort_segments-Linked :
      (segments : List (Segment Bytes))
      → All Good segments
      → AllApart segments
      → Linked 0 (sort_segments (keyed_segments segments))
  unfolding sort_segments
  sort_segments-Linked [] g apart = tt
  sort_segments-Linked (s ∷ segments) g apart =
      insert_segment-Linked (key_of_segment s) (sort_segments (keyed_segments segments)) 0
        (g.0, refl)
        (sort_segments-All WellKeyed (keyed_segments segments)
          (keyed_segments-WellKeyed segments g.1))
        (sort_segments-All (λ b. Apart s b.1) (keyed_segments segments)
          (All-map (λ b. Apart s b.1) key_of_segment segments apart.0))
        g.0.rising (sort_segments-Linked segments g.1 apart.1)

  -- The events that pass a test, of all the segments.
  abbrev pub held_count : (MarketDataEvent → Bool) → List (Segment Bytes) → ℕ
  held_count p [] = 0
  held_count p (s ∷ segments) = count p (held s) + held_count p segments

  sort_segments-count :
      (p : MarketDataEvent → Bool) (segments : List (Segment Bytes))
      → count p (joined (sort_segments (keyed_segments segments))) ≡ held_count p segments
  unfolding sort_segments
  sort_segments-count p [] = refl
  sort_segments-count p (s ∷ segments) =
      insert_segment-count p (key_of_segment s) (sort_segments (keyed_segments segments))
      ∙ ap (count p (held s) +◌) (sort_segments-count p segments)

  -- The chain of segments that are apart gives all their events in the order of the sequences, and ends.
  pub raw_stream_chain-joined :
      (segments : List (Segment Bytes))
      → All Good segments
      → AllApart segments
      → Rising 0 (raw_stream_chain sha256 decompress parse segments)
        × ((p : MarketDataEvent → Bool)
            → tally p (raw_stream_chain sha256 decompress parse segments) ≡ held_count p segments)
  unfolding raw_stream_chain
  raw_stream_chain-joined segments g apart =
      let keyed = sort_segments (keyed_segments segments) in
      let linked = sort_segments-Linked segments g apart in
      let well =
        sort_segments-All WellKeyed (keyed_segments segments)
          (keyed_segments-WellKeyed segments g) in
      rw (raw_stream_chain, with_keys-keyed segments g, chain-joined keyed none 0 well tt linked)
        (joined-RisingFrom 0 keyed linked, λ p. sort_segments-count p segments)
