-- ===== src/Storage/Replayed.antt =====
-- The storage and the replay together.
use text.Mathlib.TextLemmas.{append_cancel_left}
use mathlib.Core.List.{Permᴰ}
use poly_market_btc_arbitrag.Prelude.{
  ℕ, zero, suc, String, ◌≡◌, refl, sym, ap, subst, ◌∙◌, Bool, List, [], ◌∷◌, ◌++◌, map, arith, All,
  Gives, Gives-mono, ◌>>=◌, inl,
}
use poly_market_btc_arbitrag.Models.Payloads.{MarketDataEvent}
use poly_market_btc_arbitrag.Codec.Values.{ReadsDecimals}
use poly_market_btc_arbitrag.Replay.Files.{Directory, read_raw_events}
use poly_market_btc_arbitrag.Replay.Merge.{Consecutive}
use poly_market_btc_arbitrag.Replay.Listed.{
  stream_of_list, events_of, after, RisingFrom, RisingFrom-weaken, RisingFrom-append, after-le,
  Consecutive-Rising, ending-stream, count, count-append,
}
use poly_market_btc_arbitrag.Replay.Groups.{
  Placed, AllGood, AllClear, Clear, placed_count, manifest_files,
}
use poly_market_btc_arbitrag.Replay.Orders.{read_raw_events-found}
use poly_market_btc_arbitrag.Storage.{
  directory_of, Format, IsLossless, Finished, Clocks, Key, key_of, decode, write_all, close,
  new_storage, as_segment,
}
use poly_market_btc_arbitrag.Storage.Segments.{WellEvent}
use poly_market_btc_arbitrag.Storage.ByKey.{of_key, of_key-append, of_key-same}
use poly_market_btc_arbitrag.Storage.Same.{of_key-RisingFrom, of_key-count}
use poly_market_btc_arbitrag.Storage.Files.{replay_of, replayed, WellFile}
use poly_market_btc_arbitrag.Storage.Contents.{second}
use poly_market_btc_arbitrag.Storage.Closing.{write_all-WellFile}

-- A part of a directory.
abbrev part : ℕ → Directory → String
part n [] = ""
part zero (name ∷ names) = name
part (suc n) (name ∷ names) = part n names

module _ {Bytes Line : Type 0} (f : Format Bytes Line) where
  directory_of-key : (s t : ℕ) (k l : Key) → directory_of f s k ≡ directory_of f t l → k ≡ l
  unfolding directory_of
  directory_of-key s t k l same =
      let source = append_cancel_left "source=" k.0 l.0 (ap (part 3) same) in
      let stream = append_cancel_left "stream=" k.1 l.1 (ap (part 4) same) in
      ap (λ x. (x, k.1)) source ∙ ap (λ y. (l.0, y)) stream

  abbrev pub placed : List (Finished Bytes) → List (Placed Bytes)
  placed files = map (λ file. (file.directory, as_segment file)) files

  abbrev events_in_file : Finished Bytes → List MarketDataEvent
  events_in_file file = events_of (replay_of f file)

  placed_count-replayed :
      (p : MarketDataEvent → Bool) (files : List (Finished Bytes))
      → placed_count f.sha256 f.decompress (decode f) p (placed files) ≡ count p (replayed f files)
  unfolding replayed
  placed_count-replayed p [] = refl
  placed_count-replayed p (file ∷ files) = omega (
    arith,
    placed_count-replayed p files,
    count-append p (events_in_file file) (replayed f files),
  )

  -- What a file leaves of a stream's events.
  rest-RisingFrom :
      (n : ℕ) (key : Key) (file : Finished Bytes) (files : List (Finished Bytes))
      → RisingFrom n (of_key key (replayed f (file ∷ files)))
      → RisingFrom n (of_key key (replayed f files))
  unfolding replayed
  rest-RisingFrom n key file files r =
      let split =
        RisingFrom-append n (of_key key (events_in_file file)) (of_key key (replayed f files))
          (subst (RisingFrom n) (of_key-append key (events_in_file file) (replayed f files)) r) in
      RisingFrom-weaken n (after n (of_key key (events_in_file file)))
        (of_key key (replayed f files)) (after-le n (of_key key (events_in_file file)) split.0)
        split.1

  -- A file of the stream, and what it leaves.
  own-RisingFrom :
      (n : ℕ) (file : Finished Bytes) (files : List (Finished Bytes)) (w : WellFile f file)
      → RisingFrom n (of_key (key_of w.owner) (replayed f (file ∷ files)))
      → RisingFrom n (events_in_file file)
        × RisingFrom (after n (events_in_file file)) (of_key (key_of w.owner) (replayed f files))
  unfolding replayed
  own-RisingFrom n file files w r =
      RisingFrom-append n (events_in_file file) (of_key (key_of w.owner) (replayed f files)) (
        subst (RisingFrom n)
          (of_key-append (key_of w.owner) (events_in_file file) (replayed f files)
            ∙ ap (λ own. own ++ of_key (key_of w.owner) (replayed f files))
                (of_key-same (key_of w.owner) (events_in_file file) w.keyed))
          r)

  later-RisingFrom :
      (n : ℕ) (key : Key) (files : List (Finished Bytes))
      → RisingFrom n (of_key key (replayed f files))
      → All
          (λ file.
            (w : WellFile f file) → key_of w.owner ≡ key → RisingFrom n (events_in_file file))
          files
  later-RisingFrom n key [] r = tt
  later-RisingFrom n key (file ∷ files) r = (
    λ w same.
        (own-RisingFrom n file files w
          (subst (λ k. RisingFrom n (of_key k (replayed f (file ∷ files)))) (sym same) r)).0,
    later-RisingFrom n key files (rest-RisingFrom n key file files r),
  )

  placed-Clear :
      (file : Finished Bytes) (w : WellFile f file) (files : List (Finished Bytes))
      → All (WellFile f) files
      → All
          (λ g.
            (v : WellFile f g)
            → key_of v.owner ≡ key_of w.owner
            → RisingFrom (after 0 (events_in_file file)) (events_in_file g))
          files
      → All
          (Clear f.sha256 f.decompress (decode f) (file.directory, as_segment file))
          (placed files)
  placed-Clear file w [] ws later = tt
  placed-Clear file w (g ∷ files) ws later = (
    λ same. inl (
        later.0 ws.0 (
          directory_of-key ws.0.time w.time (key_of ws.0.owner) (key_of w.owner)
            (sym ws.0.placed ∙ sym same ∙ w.placed))),
    placed-Clear file w files ws.1 later.1,
  )

  placed-AllGood :
      (files : List (Finished Bytes))
      → All (WellFile f) files
      → ((key : Key) → RisingFrom 0 (of_key key (replayed f files)))
      → AllGood f.sha256 f.decompress (decode f) (placed files)
        × AllClear f.sha256 f.decompress (decode f) (placed files)
  placed-AllGood [] ws r = (tt, tt)
  placed-AllGood (file ∷ files) ws r =
      let w = ws.0 in
      let own = own-RisingFrom 0 file files w (r (key_of w.owner)) in
      let rest = placed-AllGood files ws.1 λ key. rest-RisingFrom 0 key file files (r key) in
      (
        (
          record {
            readable = w.readable;
            rising = own.0;
            filled = w.filled;
            first = w.first;
            counted = (file.manifest.event_count, refl);
          },
          rest.0,
        ),
        (
          placed-Clear file w files ws.1
              (later-RisingFrom (after 0 (events_in_file file)) (key_of w.owner) files own.1),
          rest.1,
        ),
      )

  -- Events of the current version with well-formed payloads, whose sequences are consecutive from 1 or a later
  -- number on, are read back by the replay just as they were written and in that order, once a storage has
  -- written them and closed, wherever it rotated its files and in whatever order the replay finds the manifests.
  -- The conditions on the formats are that they give back what is written in them, and `Decimal` what it shows.
  pub read_raw_events-write_all :
      (lossless : IsLossless f) (law : ReadsDecimals f.python) (seconds bytes : ℕ)
      (find : List (Placed Bytes) → List (Placed Bytes)) (calls : List (Clocks × MarketDataEvent))
      → ((files : List (Placed Bytes)) → Permᴰ files (find files))
      → All WellEvent (map second calls)
      → Consecutive (stream_of_list (map second calls))
      → Gives
          (λ s.
            read_raw_events f.sha256 f.decompress
              (decode f)
              (manifest_files (find (placed s.manifests)))
            ≡ stream_of_list (map second calls))
          (write_all f calls (new_storage seconds bytes) >>= close f)
  read_raw_events-write_all lossless law seconds bytes find calls finds wells consecutive =
      let events = map second calls in
      let rising = Consecutive-Rising (stream_of_list events) (ending-stream events) consecutive in
      Gives-mono _ _ (write_all f calls (new_storage seconds bytes) >>= close f)
        (λ s w.
          let files = s.manifests in
          let good =
            placed-AllGood files w.0
              λ key. subst (RisingFrom 0) (sym (w.1 key)) (of_key-RisingFrom key 0 events rising) in
          read_raw_events-found f.sha256 f.decompress (decode f) (placed files)
            (find (placed files)) events (finds (placed files)) good.0 good.1 consecutive
            λ p. placed_count-replayed p files ∙ of_key-count p (replayed f files) events w.1)
        (write_all-WellFile f lossless law seconds bytes calls wells)
