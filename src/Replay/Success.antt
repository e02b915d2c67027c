-- ===== src/Replay/Success.antt =====
-- Which streams the merge reads to their end.
use poly_market_btc_arbitrag.Prelude.{
  ℕ, zero, suc, ◌+◌, ◌≤◌, ◌<◌, ◌≡◌, refl, Bool, true, Option, none, some, List, [], ◌∷◌, ◌==◌,
  nat_eq, arith, if◌then◌else◌, Bool-cases, inl, inr, eqb_iff, equals_refl, All, ◌∙◌, ◌&&◌, ltb,
  leb, eqb, ◌⊎◌, All-mono, sym, subst, ◌-◌,
}
use poly_market_btc_arbitrag.Models.Payloads.{MarketDataEvent}
use poly_market_btc_arbitrag.Replay.{
  Stream, done, fail, next, Entry, push, push_next, before, merge_loop, fill, size, total_size,
  merge_raw_streams, or_sequence,
}
use poly_market_btc_arbitrag.Replay.Merge.{ending, heap_size, size-push, push-All}
use poly_market_btc_arbitrag.Replay.Completeness.{tally, total_tally, heap_tally, tally-push}

-- The test for an ingest sequence.
abbrev pub has_sequence : ℕ → MarketDataEvent → Bool
has_sequence n event = eqb event.ingest_sequence n

-- A stream that ends normally and whose sequences rise, from `n` at the least.
abbrev pub Rising : ℕ → Stream → Type 0
Rising n done = Unit
Rising n (fail _) = ⊥
Rising n (next event stream) =
    (n ≤ event.ingest_sequence) × Rising (suc event.ingest_sequence) stream

abbrev pub once_within : ℕ → ℕ → ℕ → ℕ
once_within n count m = if leb n m && ltb m (n + count) then 1 else 0

abbrev RisingEntry : Entry → Type 0
RisingEntry entry = Rising (suc entry.event.ingest_sequence) entry.iterator

-- The heap's entries in the order of their events.
abbrev SortedHeap : List Entry → Type 0
SortedHeap [] = Unit
SortedHeap (a ∷ heap) =
    All (λ b. a.event.ingest_sequence ≤ b.event.ingest_sequence) heap × SortedHeap heap

abbrev GoodHeap : List Entry → Type 0
GoodHeap heap = SortedHeap heap × All RisingEntry heap

push-SortedHeap : (a : Entry) (heap : List Entry) → SortedHeap heap → SortedHeap (push a heap)
unfolding push
push-SortedHeap a [] h = (tt, tt)
push-SortedHeap a (b ∷ heap) h = elim (Bool-cases (before a b)) [
  | inl e ↦
      let first : a.event.ingest_sequence ≤ b.event.ingest_sequence = ground arith in
      rw e (
        (
          first,
          All-mono
              (λ c (k : b.event.ingest_sequence ≤ c.event.ingest_sequence). omega (arith, first))
              heap h.0,
        ),
        h,
      )
  | inr e ↦
      let first : b.event.ingest_sequence ≤ a.event.ingest_sequence = ground arith in
      rw e (
        push-All (λ c. b.event.ingest_sequence ≤ c.event.ingest_sequence) a heap first h.0,
        push-SortedHeap a heap h.1,
      )
]

push-GoodHeap :
    (a : Entry) (heap : List Entry) → RisingEntry a → GoodHeap heap → GoodHeap (push a heap)
push-GoodHeap a heap r g = (push-SortedHeap a heap g.0, push-All RisingEntry a heap r g.1)

none_below :
    (m n : ℕ) (stream : Stream) → m < n → Rising n stream → tally (has_sequence m) stream ≡ 0
none_below m n done h r = refl
none_below m n (fail _) h r = refl
none_below m n (next event stream) h r =
    ground (arith, none_below m (suc event.ingest_sequence) stream (omega arith) r.1)

none_in_heap :
    (m : ℕ) (heap : List Entry)
    → All (λ entry. m < entry.event.ingest_sequence) heap
    → All RisingEntry heap
    → heap_tally (has_sequence m) heap ≡ 0
none_in_heap m [] h r = refl
none_in_heap m (entry ∷ heap) h r = ground (
  arith,
  none_below m (suc entry.event.ingest_sequence) entry.iterator (omega arith) r.0,
  none_in_heap m heap h.1 r.1,
)

one_in_head :
    (entry : Entry) (heap : List Entry)
    → 0 < heap_tally (has_sequence entry.event.ingest_sequence) (entry ∷ heap)
one_in_head entry heap = ground (arith, equals_refl entry.event.ingest_sequence)

-- The heap has each sequence from `wanted` on, so many of them, once.
abbrev Whole : ℕ → ℕ → List Entry → Type 0
Whole wanted count heap = (m : ℕ) → heap_tally (has_sequence m) heap ≡ once_within wanted count m

-- Its first entry is the one that is wanted.
first_wanted :
    (wanted count : ℕ) (entry : Entry) (heap : List Entry)
    → GoodHeap (entry ∷ heap)
    → Whole wanted count (entry ∷ heap)
    → (entry.event.ingest_sequence ≡ wanted) × (0 < count)
first_wanted wanted count entry heap g w =
    let first = entry.event.ingest_sequence in
    let here = one_in_head entry heap in
    let at_first = w first in
    let range : (wanted ≤ first) × (first < wanted + count) = ground arith in
    elim (Bool-cases (ltb wanted first)) [
      | inl e ↦
          let after : wanted < first = ground arith in
          let later : All (λ c. wanted < c.event.ingest_sequence) heap =
            All-mono (λ c (k : first ≤ c.event.ingest_sequence). omega (arith, k, after)) heap
              g.0.0 in
          let empty = none_in_heap wanted (entry ∷ heap) (after, later) g.1 in
          let at_wanted = w wanted in absurd (ground arith)
      | inr e ↦ ground arith
    ]

push_next-ends :
    (fuel wanted count index : ℕ) (iterator : Stream) (heap : List Entry)
    (rest : List Entry → Stream)
    → size iterator + heap_size heap ≤ fuel
    → GoodHeap heap
    → Rising wanted iterator
    → ((m : ℕ)
        → tally (has_sequence m) iterator + heap_tally (has_sequence m) heap
          ≡ once_within wanted count m)
    → ((h : List Entry)
        → heap_size h ≤ fuel
        → GoodHeap h
        → Whole wanted count h
        → ending (rest h) ≡ none)
    → ending (push_next index iterator heap rest) ≡ none
unfolding size
push_next-ends fuel wanted count index done heap rest le g r w c =
    c heap (omega arith) g λ m. omega (arith, w m)
push_next-ends fuel wanted count index (fail _) heap rest le g r w c = elim r [ ]
push_next-ends fuel wanted count index (next ev s) heap rest le g r w c =
    let entry : Entry = record { index = index; event = ev; iterator = s } in
    c (push entry heap) (omega (arith, size-push entry heap)) (push-GoodHeap entry heap r.1 g)
      λ m. tally-push (has_sequence m) entry heap ∙ w m

wanted_of :
    (expected : Option ℕ) (first wanted : ℕ)
    → (expected ≡ none) ⊎ (expected ≡ some wanted)
    → first ≡ wanted
    → or_sequence expected first ≡ wanted
wanted_of none first wanted x h = h
wanted_of (some n) first wanted x h = ground arith

one_fewer :
    (wanted count m : ℕ) (entry : Entry) (heap : List Entry)
    → entry.event.ingest_sequence ≡ wanted
    → 0 < count
    → heap_tally (has_sequence m) (entry ∷ heap) ≡ once_within wanted count m
    → tally (has_sequence m) entry.iterator + heap_tally (has_sequence m) heap
      ≡ once_within (suc wanted) (count - 1) m
one_fewer wanted count m entry heap h k e = ground arith

merge-ends :
    (fuel wanted count : ℕ) (expected : Option ℕ) (heap : List Entry)
    → (expected ≡ none) ⊎ (expected ≡ some wanted)
    → heap_size heap ≤ fuel
    → GoodHeap heap
    → Whole wanted count heap
    → ending (merge_loop fuel expected heap) ≡ none
unfolding merge_loop
merge-ends fuel wanted count expected [] x le g w = refl
merge-ends zero wanted count expected (entry ∷ heap) x le g w = absurd (omega arith)
merge-ends (suc fuel) wanted count expected (entry ∷ heap) x le g w =
    let first = first_wanted wanted count entry heap g w in
    let same : or_sequence expected entry.event.ingest_sequence ≡ wanted =
      wanted_of expected _ wanted x first.0 in
    let passes : (entry.event.ingest_sequence == or_sequence expected entry.event.ingest_sequence)
        ≡ true =
      (eqb_iff _ _).1 (first.0 ∙ sym same) in
    let now = or_sequence expected entry.event.ingest_sequence in
    let here : entry.event.ingest_sequence ≡ now = first.0 ∙ sym same in
    rw (merge_loop, passes)
      (push_next-ends fuel (suc now) (count - 1) entry.index entry.iterator heap _ (omega arith)
        (g.0.1, g.1.1) (subst (λ n. Rising (suc n) entry.iterator) here g.1.0)
        (λ m. one_fewer now count m entry heap here first.1 (
          subst (λ n. heap_tally (has_sequence m) (entry ∷ heap) ≡ once_within n count m) (sym same)
            (w m)))
        λ h small good whole.
          merge-ends fuel (suc now) (count - 1) (some (suc now)) h (inr refl) small good whole)

fill-ends :
    (fuel index first count : ℕ) (streams : List Stream) (heap : List Entry)
    → total_size streams + heap_size heap ≤ fuel
    → All (Rising 0) streams
    → GoodHeap heap
    → ((m : ℕ)
        → total_tally (has_sequence m) streams + heap_tally (has_sequence m) heap
          ≡ once_within first count m)
    → ending (fill fuel index streams heap) ≡ none
unfolding fill total_size size
fill-ends fuel index first count [] heap le r g w =
    merge-ends fuel first count none heap (inl refl) (omega arith) g λ m. omega (arith, w m)
fill-ends fuel index first count (done ∷ streams) heap le r g w =
    fill-ends fuel (index + 1) first count streams heap (omega arith) r.1 g λ m. omega (arith, w m)
fill-ends fuel index first count (fail _ ∷ streams) heap le r g w = elim r.0 [ ]
fill-ends fuel index first count (next ev s ∷ streams) heap le r g w =
    let entry : Entry = record { index = index; event = ev; iterator = s } in
    fill-ends fuel (index + 1) first count streams (push entry heap)
      (omega (arith, size-push entry heap)) r.1 (push-GoodHeap entry heap r.0.1 g)
      λ m. omega (arith, tally-push (has_sequence m) entry heap, w m)

-- Streams whose sequences rise, and that among them have each sequence of a range once, are merged to
-- the end with no error.
pub ending-merge_raw_streams :
    (streams : List Stream) (first count : ℕ)
    → All (Rising 0) streams
    → ((m : ℕ) → total_tally (has_sequence m) streams ≡ once_within first count m)
    → ending (merge_raw_streams streams) ≡ none
unfolding merge_raw_streams
ending-merge_raw_streams streams first count r w =
    fill-ends (total_size streams) 0 first count streams [] (omega arith) r (tt, tt)
      λ m. omega (arith, w m)
