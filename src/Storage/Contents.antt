-- ===== src/Storage/Contents.antt =====
-- What the storage holds of each source's stream over the calls of `write`.
use mathlib.Core.List.{append_assoc}
use poly_market_btc_arbitrag.Prelude.{
  ℕ, ◌≡◌, refl, sym, ap, subst, ◌∙◌, Option, none, some, List, [], ◌∷◌, ◌++◌, map, ◌==◌, nat_eq,
  string_eq, pair_eq, if◌then◌else◌, eqb, true, false, arith, All, Option-cases, Bool-cases, inl,
  inr, Gives, Gives-mono, Gives-bind, append_nil,
}
use poly_market_btc_arbitrag.Dict.{Dict, keys, get, Distinct}
use poly_market_btc_arbitrag.Dict.Laws.{get-set, set-Distinct, set-All, get-All}
use poly_market_btc_arbitrag.Models.Payloads.{MarketDataEvent}
use poly_market_btc_arbitrag.Codec.Values.{ReadsDecimals}
use poly_market_btc_arbitrag.Storage.{
  Format, IsLossless, RawSegment, RawEventStorage, Clocks, Key, key_of, encode, open_segment,
  finalize, append_event, is_full, or_open, put_segment, rotate, write, write_all,
}
use poly_market_btc_arbitrag.Storage.Segments.{
  WellEvent, events_in, events_in-append, events_in-one, WellSegment, open_segment-WellSegment,
  finished, finalize-finished, decode-encode, append_event-WellSegment,
}
use poly_market_btc_arbitrag.Storage.ByKey.{of_key, of_key-append, add_event, move_event}
use poly_market_btc_arbitrag.Storage.Files.{
  replayed, WellFile, open_events, replayed-finished, WellFile-finished,
}

abbrev pub second : {A : Type 0} → A × MarketDataEvent → MarketDataEvent
second pair = pair.1

module _ {Bytes Line : Type 0} (f : Format Bytes Line) where
  -- What the storage holds of a source's stream: in its finished segments, and in the open one.
  unfoldable pub stored : Key → RawEventStorage Bytes Line → List MarketDataEvent
  stored key s = of_key key (replayed f s.manifests) ++ open_events f (get key s.segments)

  pub record WellStorage (s : RawEventStorage Bytes Line) : Type 0 where
    pub distinct : Distinct (keys s.segments)
    pub segments : All (λ entry. WellSegment f entry.0 entry.1) s.segments
    pub finished_files : All (WellFile f) s.manifests

  module _ (lossless : IsLossless f) where
    pub or_open-WellSegment :
        (now : ℕ) (event : MarketDataEvent) (d : Dict Key (RawSegment Line))
        → All (λ entry. WellSegment f entry.0 entry.1) d
        → WellSegment f (key_of event) (or_open f now event (get (key_of event) d))
    or_open-WellSegment now event d a = elim (Option-cases (get (key_of event) d)) [
      | inl e ↦ rw e (open_segment-WellSegment f now event)
      | inr (segment, e) ↦
          rw e (get-All (λ entry. WellSegment f entry.0 entry.1) (key_of event) segment d a e)
    ]

    pub open_segment-events :
        (now : ℕ) (event : MarketDataEvent) → events_in f (open_segment f now event).lines ≡ []
    unfolding open_segment events_in
    open_segment-events now event = refl

    pub or_open-events :
        (now : ℕ) (event : MarketDataEvent) (o : Option (RawSegment Line))
        → events_in f (or_open f now event o).lines ≡ open_events f o
    unfolding open_segment events_in
    or_open-events now event none = refl
    or_open-events now event (some segment) = refl

    module _ (law : ReadsDecimals f.python) where
      pub append_event-events :
          (event : MarketDataEvent) (segment : RawSegment Line)
          → WellEvent event
          → events_in f (append_event f event segment).lines
            ≡ events_in f segment.lines ++ event ∷ []
      unfolding append_event
      append_event-events event segment w =
          rw
            (
              events_in-append f segment.lines (encode f event ∷ []),
              events_in-one f (encode f event) event (decode-encode f lossless law event w),
            )
            refl

      -- The storage after a call, and what it holds of each stream then.
      abbrev pub Wrote :
          MarketDataEvent → RawEventStorage Bytes Line → RawEventStorage Bytes Line → Type 0
      Wrote event before after =
          WellStorage after
          × ((key : Key) → stored key after ≡ stored key before ++ of_key key (event ∷ []))

      pub put_segment-WellStorage :
          (key : Key) (segment : RawSegment Line) (s : RawEventStorage Bytes Line)
          → WellSegment f key segment
          → WellStorage s
          → WellStorage (put_segment f key segment s)
      put_segment-WellStorage key segment s w h = record {
        distinct = set-Distinct key segment s.segments h.distinct;
        segments =
            set-All (λ entry. WellSegment f entry.0 entry.1) key segment s.segments w h.segments;
        finished_files = h.finished_files;
      }

      pub stored-put_segment :
          (key other : Key) (segment : RawSegment Line) (s : RawEventStorage Bytes Line)
          → stored other (put_segment f key segment s)
            ≡ of_key other (replayed f s.manifests)
              ++ (if key == other
                  then events_in f segment.lines
                  else open_events f (get other s.segments))
      unfolding stored
      stored-put_segment key other segment s = elim (Bool-cases (key == other)) [
        | inl e ↦ rw (get-set key other segment s.segments, e) refl
        | inr e ↦ rw (get-set key other segment s.segments, e) refl
      ]

      pub append-Wrote :
          (event : MarketDataEvent) (now : ℕ) (s : RawEventStorage Bytes Line)
          → WellEvent event
          → WellStorage s
          → Wrote event s (
              put_segment f
                (key_of event)
                (append_event f event (or_open f now event (get (key_of event) s.segments)))
                s)
      unfolding stored
      append-Wrote event now s we h =
          let segment = or_open f now event (get (key_of event) s.segments) in
          let well = or_open-WellSegment now event s.segments h.segments in
          (
            put_segment-WellStorage (key_of event) (append_event f event segment) s
                (append_event-WellSegment f lossless law (key_of event) event segment we refl well)
                h,
            λ key.
                stored-put_segment (key_of event) key (append_event f event segment) s
                ∙ rw
                    (
                      append_event-events event segment we,
                      or_open-events now event (get (key_of event) s.segments),
                    )
                    (add_event (λ k. open_events f (get k s.segments)) event key
                      (of_key key (replayed f s.manifests))),
          )

      pub rotate-Wrote :
          (event : MarketDataEvent) (now : ℕ) (segment : RawSegment Line)
          (s : RawEventStorage Bytes Line)
          → WellEvent event
          → WellStorage s
          → WellSegment f (key_of event) segment
          → eqb segment.event_count 0 ≡ false
          → events_in f segment.lines ≡ open_events f (get (key_of event) s.segments)
          → Gives (Wrote event s) (rotate f now event s (finalize f segment))
      unfolding stored
      rotate-Wrote event now segment s we h well counts same =
          let moved = record s { manifests = s.manifests ++ finished f lossless segment ∷ [] } in
          rw (finalize-finished f lossless (key_of event) segment well) (
            put_segment-WellStorage (key_of event) (append_event f event (open_segment f now event))
                moved
                (append_event-WellSegment f lossless law (key_of event) event
                  (open_segment f now event) we refl (open_segment-WellSegment f now event))
                (record {
                  distinct = h.distinct;
                  segments = h.segments;
                  finished_files =
                      WellFile-finished f lossless (key_of event) s.manifests segment well counts
                        h.finished_files;
                }),
            λ key.
                stored-put_segment (key_of event) key
                  (append_event f event (open_segment f now event)) moved
                ∙ rw
                    (
                      replayed-finished f lossless (key_of event) s.manifests segment well,
                      of_key-append key (replayed f s.manifests) (events_in f segment.lines),
                      append_event-events event (open_segment f now event) we,
                      open_segment-events now event,
                      same,
                    )
                    (move_event (λ k. open_events f (get k s.segments)) event key
                      (of_key key (replayed f s.manifests))
                      (subst (All λ e. key_of e ≡ key_of event) same well.keyed)),
          )

      is_full-counts :
          (now : ℕ) (event : MarketDataEvent) (segment : RawSegment Line)
          (s : RawEventStorage Bytes Line)
          → is_full f now event segment s ≡ true
          → eqb segment.event_count 0 ≡ false
      unfolding is_full
      is_full-counts now event segment s h = ground arith

      pub write-Wrote :
          (clocks : Clocks) (event : MarketDataEvent) (s : RawEventStorage Bytes Line)
          → WellEvent event
          → WellStorage s
          → Gives (Wrote event s) (write f clocks event s)
      unfolding write
      write-Wrote clocks event s we h =
          let segment = or_open f clocks.opened event (get (key_of event) s.segments) in
          elim (Bool-cases (is_full f clocks.checked event segment s)) [
            | inl e ↦ rw e (
                rotate-Wrote event clocks.reopened segment s we h
                  (or_open-WellSegment clocks.opened event s.segments h.segments)
                  (is_full-counts clocks.checked event segment s e)
                  (or_open-events clocks.opened event (get (key_of event) s.segments)))
            | inr e ↦ rw e (append-Wrote event clocks.opened s we h)
          ]

      -- The storage after calls with the events, and what it holds of each stream then.
      abbrev pub WroteAll :
          List MarketDataEvent → RawEventStorage Bytes Line → RawEventStorage Bytes Line → Type 0
      WroteAll events before after =
          WellStorage after
          × ((key : Key) → stored key after ≡ stored key before ++ of_key key events)

      pub write_all-WroteAll :
          (calls : List (Clocks × MarketDataEvent)) (s : RawEventStorage Bytes Line)
          → All WellEvent (map second calls)
          → WellStorage s
          → Gives (WroteAll (map second calls) s) (write_all f calls s)
      unfolding write_all of_key
      write_all-WroteAll [] s a h = (h, λ key. sym (append_nil (stored key s)))
      write_all-WroteAll ((clocks, event) ∷ calls) s a h =
          Gives-bind (Wrote event s) (WroteAll (event ∷ map second calls) s)
            (write f clocks event s) (write_all f calls) (write-Wrote clocks event s a.0 h)
            λ t w.
              Gives-mono (WroteAll (map second calls) t) (WroteAll (event ∷ map second calls) s)
                (write_all f calls t) (λ u v. (v.0, λ key. later key t u (w.1 key) (v.1 key)))
                (write_all-WroteAll calls t a.1 w.0)
        where
          later :
              (key : Key) (t u : RawEventStorage Bytes Line)
              → stored key t ≡ stored key s ++ of_key key (event ∷ [])
              → stored key u ≡ stored key t ++ of_key key (map second calls)
              → stored key u ≡ stored key s ++ of_key key (event ∷ map second calls)
          later key t u p q =
              q
              ∙ rw
                  (
                    p,
                    append_assoc (stored key s) (of_key key (event ∷ []))
                        (of_key key (map second calls)),
                  )
                  (ap (stored key s ++◌) (sym (of_key-append key (event ∷ []) (map second calls))))
