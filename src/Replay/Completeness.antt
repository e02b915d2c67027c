-- ===== src/Replay/Completeness.antt =====
-- How often the merge gives each event of its streams.
use poly_market_btc_arbitrag.Prelude.{
  ℕ, zero, suc, ◌+◌, ◌≡◌, refl, Bool, Option, none, some, List, [], ◌∷◌, ◌==◌, nat_eq, arith,
  if◌then◌else◌, Bool-cases, inl, inr, ◌∙◌,
}
use poly_market_btc_arbitrag.Models.Payloads.{MarketDataEvent}
use poly_market_btc_arbitrag.Replay.{
  Stream, done, fail, next, Entry, push, push_next, merge_loop, fill, total_size, merge_raw_streams,
  or_sequence,
}
use poly_market_btc_arbitrag.Replay.Merge.{ending}

-- The number of the events yielded that pass a test.
abbrev pub tally : (MarketDataEvent → Bool) → Stream → ℕ
tally p done = 0
tally p (fail _) = 0
tally p (next event stream) = (if p event then 1 else 0) + tally p stream

abbrev pub total_tally : (MarketDataEvent → Bool) → List Stream → ℕ
total_tally p [] = 0
total_tally p (stream ∷ streams) = tally p stream + total_tally p streams

-- The same over the heap: an entry stands for its event and what its iterator has left.
abbrev pub entry_stream : Entry → Stream
entry_stream entry = next entry.event entry.iterator

abbrev pub heap_tally : (MarketDataEvent → Bool) → List Entry → ℕ
heap_tally p [] = 0
heap_tally p (entry ∷ heap) = tally p (entry_stream entry) + heap_tally p heap

pub tally-push :
    (p : MarketDataEvent → Bool) (a : Entry) (heap : List Entry)
    → heap_tally p (push a heap) ≡ heap_tally p (a ∷ heap)
unfolding push
tally-push p a [] = refl
tally-push p a (b ∷ heap) = ground (arith, tally-push p a heap)

module _ (p : MarketDataEvent → Bool) where
  push_next-tally :
      (index : ℕ) (iterator : Stream) (heap : List Entry) (rest : List Entry → Stream)
      → ((h : List Entry) → ending (rest h) ≡ none → tally p (rest h) ≡ heap_tally p h)
      → ending (push_next index iterator heap rest) ≡ none
      → tally p (push_next index iterator heap rest) ≡ tally p iterator + heap_tally p heap
  push_next-tally index done heap rest c e = omega (arith, c heap e)
  push_next-tally index (fail f) heap rest c e = ground arith
  push_next-tally index (next ev s) heap rest c e =
      let entry : Entry = record { index = index; event = ev; iterator = s } in
      c (push entry heap) e ∙ tally-push p entry heap

  merge-tally :
      (fuel : ℕ) (expected : Option ℕ) (heap : List Entry)
      → ending (merge_loop fuel expected heap) ≡ none
      → tally p (merge_loop fuel expected heap) ≡ heap_tally p heap
  unfolding merge_loop
  merge-tally fuel expected [] h = refl
  merge-tally zero expected (entry ∷ heap) h = ground arith
  merge-tally (suc fuel) expected (entry ∷ heap) h =
      let wanted = or_sequence expected entry.event.ingest_sequence in
      elim (Bool-cases (entry.event.ingest_sequence == wanted)) [
        | inl e ↦
            let done_ = simp (merge_loop, e) at h in
            let rest =
              push_next-tally entry.index entry.iterator heap (merge_loop fuel (some (suc wanted)))
                (λ rest. merge-tally fuel (some (suc wanted)) rest) done_ in
            rw (merge_loop, e) (omega (arith, rest))
        | inr e ↦ ground arith
      ]

  fill-tally :
      (fuel index : ℕ) (streams : List Stream) (heap : List Entry)
      → ending (fill fuel index streams heap) ≡ none
      → tally p (fill fuel index streams heap) ≡ total_tally p streams + heap_tally p heap
  unfolding fill
  fill-tally fuel index [] heap e = omega (arith, merge-tally fuel none heap e)
  fill-tally fuel index (done ∷ streams) heap e =
      omega (arith, fill-tally fuel (index + 1) streams heap e)
  fill-tally fuel index (fail f ∷ streams) heap e = ground arith
  fill-tally fuel index (next ev s ∷ streams) heap e =
      let entry : Entry = record { index = index; event = ev; iterator = s } in
      omega
        (arith, fill-tally fuel (index + 1) streams (push entry heap) e, tally-push p entry heap)

  -- A merge that ends normally yields as many events that pass a test as the streams hold, whatever
  -- the test: it loses none, adds none and repeats none.
  pub tally-merge_raw_streams :
      (streams : List Stream)
      → ending (merge_raw_streams streams) ≡ none
      → tally p (merge_raw_streams streams) ≡ total_tally p streams
  unfolding merge_raw_streams
  tally-merge_raw_streams streams e = omega (arith, fill-tally (total_size streams) 0 streams [] e)
