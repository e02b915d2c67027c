-- ===== src/Replay/Merge.antt =====
-- The sequences of what the merge yields.
use poly_market_btc_arbitrag.Prelude.{
  ℕ, zero, suc, ◌+◌, ◌≤◌, ◌≡◌, ◌≢◌, refl, Option, none, some, List, [], ◌∷◌, ◌==◌, nat_eq, arith,
  Bool-cases, inl, inr, eqb_iff, equals_refl, All,
}
use poly_market_btc_arbitrag.Replay.{
  Failure, out_of_fuel, Stream, done, fail, next, Entry, push, push_next, merge_loop, fill, size,
  total_size, merge_raw_streams, or_sequence,
}

-- Each event yielded has the sequence after the last.
abbrev pub Counts : ℕ → Stream → Type 0
Counts n done = Unit
Counts n (fail _) = Unit
Counts n (next event stream) = (event.ingest_sequence ≡ n) × Counts (suc n) stream

-- The sequences are consecutive, from wherever they start.
abbrev pub Consecutive : Stream → Type 0
Consecutive done = Unit
Consecutive (fail _) = Unit
Consecutive (next event stream) = Counts (suc event.ingest_sequence) stream

-- How a stream ends.
abbrev pub ending : Stream → Option Failure
ending done = none
ending (fail failure) = some failure
ending (next _ stream) = ending stream

-- The number of the events that a heap still has to give.
abbrev pub heap_size : List Entry → ℕ
heap_size [] = 0
heap_size (entry ∷ heap) = suc (size entry.iterator) + heap_size heap

pub size-push : (a : Entry) (heap : List Entry) → heap_size (push a heap) ≡ heap_size (a ∷ heap)
unfolding push
size-push a [] = refl
size-push a (b ∷ heap) = ground (arith, size-push a heap)

push_next-Counts :
    (n index : ℕ) (iterator : Stream) (heap : List Entry) (rest : List Entry → Stream)
    → ((h : List Entry) → Counts n (rest h))
    → Counts n (push_next index iterator heap rest)
push_next-Counts n index done heap rest c = c heap
push_next-Counts n index (fail f) heap rest c = tt
push_next-Counts n index (next e s) heap rest c = c _

merge-Counts : (fuel n : ℕ) (heap : List Entry) → Counts n (merge_loop fuel (some n) heap)
unfolding merge_loop
merge-Counts fuel n [] = tt
merge-Counts zero n (entry ∷ heap) = tt
merge-Counts (suc fuel) n (entry ∷ heap) = elim (Bool-cases (entry.event.ingest_sequence == n)) [
  | inl e ↦
      rw (e, merge_loop)
        (
          (eqb_iff _ n).0 e,
          push_next-Counts (suc n) entry.index entry.iterator heap _
              λ h. merge-Counts fuel (suc n) h,
        )
  | inr e ↦ rw (e, merge_loop) tt
]

merge-Consecutive : (fuel : ℕ) (heap : List Entry) → Consecutive (merge_loop fuel none heap)
unfolding merge_loop
merge-Consecutive fuel [] = tt
merge-Consecutive zero (entry ∷ heap) = tt
merge-Consecutive (suc fuel) (entry ∷ heap) =
    let first = entry.event.ingest_sequence in
    rw (equals_refl first, merge_loop)
      (push_next-Counts (suc first) entry.index entry.iterator heap _
        λ h. merge-Counts fuel (suc first) h)

fill-Consecutive :
    (fuel index : ℕ) (streams : List Stream) (heap : List Entry)
    → Consecutive (fill fuel index streams heap)
unfolding fill
fill-Consecutive fuel index [] heap = merge-Consecutive fuel heap
fill-Consecutive fuel index (done ∷ streams) heap = fill-Consecutive fuel (index + 1) streams heap
fill-Consecutive fuel index (fail f ∷ streams) heap = tt
fill-Consecutive fuel index (next e s ∷ streams) heap = fill-Consecutive fuel (index + 1) streams _

-- Whatever the streams hold, what their merge yields has consecutive ingest sequences.
pub merge_raw_streams-Consecutive :
    (streams : List Stream) → Consecutive (merge_raw_streams streams)
unfolding merge_raw_streams
merge_raw_streams-Consecutive streams = fill-Consecutive _ 0 streams []

-- No stream ends in the model's own bound.
abbrev pub WithinFuel : Stream → Type 0
WithinFuel stream = ending stream ≢ some out_of_fuel

abbrev Held : ℕ → List Entry → Type 0
Held fuel heap = (heap_size heap ≤ fuel) × All (λ entry. WithinFuel entry.iterator) heap

pub push-All :
    (P : Entry → Type 0) (a : Entry) (heap : List Entry) → P a → All P heap → All P (push a heap)
unfolding push
push-All P a [] h k = (h, tt)
push-All P a (b ∷ heap) h k = ground (arith, push-All P a heap h k.1)

push_next-WithinFuel :
    (fuel index : ℕ) (iterator : Stream) (heap : List Entry) (rest : List Entry → Stream)
    → WithinFuel iterator
    → size iterator + heap_size heap ≤ fuel
    → All (λ entry. WithinFuel entry.iterator) heap
    → ((h : List Entry) → Held fuel h → WithinFuel (rest h))
    → WithinFuel (push_next index iterator heap rest)
unfolding size
push_next-WithinFuel fuel index done heap rest f le a c = c heap (omega arith, a)
push_next-WithinFuel fuel index (fail f) heap rest w le a c = w
push_next-WithinFuel fuel index (next e s) heap rest w le a c =
    let entry : Entry = record { index = index; event = e; iterator = s } in
    c (push entry heap) (
      omega (arith, size-push entry heap),
      push-All (λ entry. WithinFuel entry.iterator) entry heap w a,
    )

merge-WithinFuel :
    (fuel : ℕ) (expected : Option ℕ) (heap : List Entry)
    → Held fuel heap
    → WithinFuel (merge_loop fuel expected heap)
unfolding merge_loop
merge-WithinFuel fuel expected [] h = ground arith
merge-WithinFuel zero expected (entry ∷ heap) h = absurd (omega arith)
merge-WithinFuel (suc fuel) expected (entry ∷ heap) h =
    let wanted = or_sequence expected entry.event.ingest_sequence in
    elim (Bool-cases (entry.event.ingest_sequence == wanted)) [
      | inl e ↦
          rw (merge_loop, e)
            (push_next-WithinFuel fuel entry.index entry.iterator heap _ h.1.0 (omega arith) h.1.1
              λ rest. merge-WithinFuel fuel (some (suc wanted)) rest)
      | inr e ↦ rw (merge_loop, e) (ground arith)
    ]

fill-WithinFuel :
    (fuel index : ℕ) (streams : List Stream) (heap : List Entry)
    → All WithinFuel streams
    → total_size streams + heap_size heap ≤ fuel
    → All (λ entry. WithinFuel entry.iterator) heap
    → WithinFuel (fill fuel index streams heap)
unfolding fill total_size size
fill-WithinFuel fuel index [] heap w le a = merge-WithinFuel fuel none heap (omega arith, a)
fill-WithinFuel fuel index (done ∷ streams) heap w le a =
    fill-WithinFuel fuel (index + 1) streams heap w.1 (omega arith) a
fill-WithinFuel fuel index (fail f ∷ streams) heap w le a = w.0
fill-WithinFuel fuel index (next e s ∷ streams) heap w le a =
    let entry : Entry = record { index = index; event = e; iterator = s } in
    fill-WithinFuel fuel (index + 1) streams (push entry heap) w.1
      (omega (arith, size-push entry heap))
      (push-All (λ entry. WithinFuel entry.iterator) entry heap w.0 a)

-- The merge has a round for every event: it does not end in the bound of the model unless one of the
-- streams does.
pub merge_raw_streams-WithinFuel :
    (streams : List Stream) → All WithinFuel streams → WithinFuel (merge_raw_streams streams)
unfolding merge_raw_streams
merge_raw_streams-WithinFuel streams w =
    fill-WithinFuel (total_size streams) 0 streams [] w (omega arith) tt
