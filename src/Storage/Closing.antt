-- ===== src/Storage/Closing.antt =====
-- The files that `close` leaves.
use mathlib.Core.List.{append_assoc}
use poly_market_btc_arbitrag.Prelude.{
  ℕ, ◌≡◌, refl, sym, ap, subst, ◌∙◌, true, false, none, List, [], ◌∷◌, ◌++◌, map, ◌==◌, nat_eq,
  string_eq, pair_eq, eqb, ◌>>=◌, All, arith, Option-cases, Bool-cases, inl, inr, Gives, Gives-mono,
  Gives-bind, append_nil, pair_equals_iff, is_some,
}
use poly_market_btc_arbitrag.Dict.{Dict, keys, get, contains, Distinct}
use poly_market_btc_arbitrag.Dict.Laws.{is_some-get}
use poly_market_btc_arbitrag.Models.Payloads.{MarketDataEvent}
use poly_market_btc_arbitrag.Codec.Values.{ReadsDecimals}
use poly_market_btc_arbitrag.Storage.{
  Format, IsLossless, RawSegment, Finished, Clocks, Key, write_all, close_segments, close,
  new_storage,
}
use poly_market_btc_arbitrag.Storage.Segments.{
  WellEvent, events_in, WellSegment, finished, finalize-finished,
}
use poly_market_btc_arbitrag.Storage.ByKey.{of_key, of_key-append, of_key-same, of_key-other}
use poly_market_btc_arbitrag.Storage.Files.{
  replayed, AreReadable, AreReadable-WellFile, WellFile, open_events, empty-events_in,
  replayed-finished, WellFile-finished,
}
use poly_market_btc_arbitrag.Storage.Contents.{second, stored, WroteAll, write_all-WroteAll}

module _ {Bytes Line : Type 0} (f : Format Bytes Line) where
  module _ (lossless : IsLossless f) where
    module _ (law : ReadsDecimals f.python) where
      -- The files that closing leaves, behind those that were there.
      abbrev Closed :
          Dict Key (RawSegment Line) → List (Finished Bytes) → List (Finished Bytes) → Type 0
      Closed d before after =
          All (WellFile f) after
          × ((key : Key)
              → of_key key (replayed f after)
                ≡ of_key key (replayed f before) ++ open_events f (get key d))

      get-none :
          (key : Key) (d : Dict Key (RawSegment Line))
          → contains key (keys d) ≡ false
          → get key d ≡ none
      get-none key d absent = elim (Option-cases (get key d)) [
        | inl e ↦ e
        | inr (segment, e) ↦
            let present : is_some (get key d) ≡ false = is_some-get key d ∙ absent in
            let clash : true ≡ false = rw e at present in absurd (ground arith)
      ]

      -- The events of a dictionary that begins with a segment.
      get-cons :
          (key other : Key) (segment : RawSegment Line) (d : Dict Key (RawSegment Line))
          → WellSegment f key segment
          → contains key (keys d) ≡ false
          → of_key other (events_in f segment.lines) ++ open_events f (get other d)
            ≡ open_events f (get other ((key, segment) ∷ d))
      unfolding get
      get-cons key other segment d w absent = elim (Bool-cases (key == other)) [
        | inl e ↦
            let same = (pair_equals_iff key other).0 e in
            let gone : get other d ≡ none =
              get-none other d (subst (λ k. contains k (keys d) ≡ false) same absent) in
            let kept : of_key other (events_in f segment.lines) ≡ events_in f segment.lines =
              subst (λ k. of_key k (events_in f segment.lines) ≡ events_in f segment.lines) same
                (of_key-same key (events_in f segment.lines) w.keyed) in
            rw (e, gone, kept) (append_nil (events_in f segment.lines))
        | inr e ↦ rw (e, of_key-other key other (events_in f segment.lines) e w.keyed) refl
      ]

      -- The first segment's events have gone to the files, and the rest has been closed.
      Closed-cons :
          (key : Key) (segment : RawSegment Line) (d : Dict Key (RawSegment Line))
          (files more after : List (Finished Bytes))
          → WellSegment f key segment
          → contains key (keys d) ≡ false
          → replayed f more ≡ replayed f files ++ events_in f segment.lines
          → Closed d more after
          → Closed ((key, segment) ∷ d) files after
      Closed-cons key segment d files more after w absent moved c = (
        c.0,
        λ other.
            c.1 other
            ∙ rw
                (
                  moved,
                  of_key-append other (replayed f files) (events_in f segment.lines),
                  append_assoc (of_key other (replayed f files))
                      (of_key other (events_in f segment.lines)) (open_events f (get other d)),
                )
                (ap (of_key other (replayed f files) ++◌) (get-cons key other segment d w absent)),
      )

      close_segments-Closed :
          (d : Dict Key (RawSegment Line)) (files : List (Finished Bytes))
          → Distinct (keys d)
          → All (λ entry. WellSegment f entry.0 entry.1) d
          → All (WellFile f) files
          → Gives (Closed d files) (close_segments f d files)
      unfolding close_segments get
      close_segments-Closed [] files distinct wells readable =
          (readable, λ key. sym (append_nil (of_key key (replayed f files))))
      close_segments-Closed ((key, segment) ∷ d) files distinct wells readable =
          elim (Bool-cases (eqb segment.event_count 0)) [
            | inl e ↦ rw e (
                Gives-mono (Closed d files) (Closed ((key, segment) ∷ d) files)
                  (close_segments f d files)
                  (λ after. Closed-cons key segment d files files after wells.0 distinct.0 (
                    rw (empty-events_in f key segment wells.0 e)
                      (sym (append_nil (replayed f files)))))
                  (close_segments-Closed d files distinct.1 wells.1 readable))
            | inr e ↦
                let more = files ++ finished f lossless segment ∷ [] in
                rw (e, finalize-finished f lossless key segment wells.0)
                  (Gives-mono (Closed d more) (Closed ((key, segment) ∷ d) files)
                    (close_segments f d more)
                    (λ after.
                      Closed-cons key segment d files more after wells.0 distinct.0
                        (replayed-finished f lossless key files segment wells.0))
                    (close_segments-Closed d more distinct.1 wells.1
                      (WellFile-finished f lossless key files segment wells.0 e readable)))
          ]

      -- No check of the storage fails, and of each source's stream the files hold just what was written.
      pub write_all-WellFile :
          (seconds bytes : ℕ) (calls : List (Clocks × MarketDataEvent))
          → All WellEvent (map second calls)
          → Gives
              (λ s.
                All (WellFile f) s.manifests
                × ((key : Key)
                    → of_key key (replayed f s.manifests) ≡ of_key key (map second calls)))
              (write_all f calls (new_storage seconds bytes) >>= close f)
      unfolding close new_storage stored get replayed of_key
      write_all-WellFile seconds bytes calls a =
          Gives-bind (WroteAll f lossless law (map second calls) (new_storage seconds bytes)) _
            (write_all f calls (new_storage seconds bytes)) (close f)
            (write_all-WroteAll f lossless law calls (new_storage seconds bytes) a
              (record { distinct = tt; segments = tt; finished_files = tt }))
            λ s w.
              Gives-bind (Closed s.segments s.manifests) _ (close_segments f s.segments s.manifests)
                _
                (close_segments-Closed s.segments s.manifests w.0.distinct w.0.segments
                  w.0.finished_files)
                λ files c. (c.0, λ key. c.1 key ∙ w.1 key)

      -- What a storage writes and closes can be replayed, where the events are of the current version with
      -- well-formed payloads and numbers from 1 on, and the formats give back what is written in them: no check
      -- of the storage fails, the replay reads every file to its end, and of each source's stream the files
      -- hold just the events that were written, in order.
      pub write_all-close :
          (seconds bytes : ℕ) (calls : List (Clocks × MarketDataEvent))
          → All WellEvent (map second calls)
          → Gives
              (λ s.
                AreReadable f s.manifests
                × ((key : Key)
                    → of_key key (replayed f s.manifests) ≡ of_key key (map second calls)))
              (write_all f calls (new_storage seconds bytes) >>= close f)
      write_all-close seconds bytes calls a =
          Gives-mono _ _ (write_all f calls (new_storage seconds bytes) >>= close f)
            (λ s w. (AreReadable-WellFile f s.manifests w.0, w.1))
            (write_all-WellFile seconds bytes calls a)
