-- ===== src/Replay/Follow.antt =====
-- A chain of streams that come one behind the other.
use poly_market_btc_arbitrag.Prelude.{
  ℕ, suc, ◌≤◌, ◌<◌, ◌≡◌, ap, false, Option, none, some, List, [], ◌∷◌, ◌++◌, arith, leb,
}
use poly_market_btc_arbitrag.Models.Payloads.{MarketDataEvent}
use poly_market_btc_arbitrag.Replay.{Stream, next, Segment, follow, chain}
use poly_market_btc_arbitrag.Replay.Files.{Keyed, with_keys}
use poly_market_btc_arbitrag.Replay.Listed.{stream_of_list, after, RisingFrom}

-- The first sequence of the events.
abbrev pub head_sequence : List MarketDataEvent → ℕ
head_sequence [] = 0
head_sequence (event ∷ _) = event.ingest_sequence

-- No sequence, or one below the number.
abbrev pub Under : ℕ → Option ℕ → Type 0
Under n none = Unit
Under n (some sequence) = sequence < n

abbrev pub or_previous : Option ℕ → Option ℕ → Option ℕ
or_previous previous none = previous
or_previous previous (some sequence) = some sequence

pub Under-weaken : (m n : ℕ) (o : Option ℕ) → m ≤ n → Under m o → Under n o
Under-weaken m n none le u = tt
Under-weaken m n (some sequence) le u = omega (arith, u)

-- A segment whose events come behind the previous ones is followed to its end.
pub follow-joined :
    (events : List MarketDataEvent) (previous last : Option ℕ) (n : ℕ) (rest : Option ℕ → Stream)
    (more : List MarketDataEvent)
    → Under n previous
    → Under n (or_previous previous last)
    → RisingFrom n events
    → ((end : Option ℕ) → Under (after n events) end → rest end ≡ stream_of_list more)
    → follow previous last (stream_of_list events) rest ≡ stream_of_list (events ++ more)
unfolding follow
follow-joined [] previous none n rest more u v r h = h previous v
follow-joined [] previous (some sequence) n rest more u v r h = h (some sequence) v
follow-joined (event ∷ events) none last n rest more u v r h = ap (next event) (
    follow-joined events none (some event.ingest_sequence) (suc event.ingest_sequence) rest more tt
      (omega arith) r.1 h)
follow-joined (event ∷ events) (some sequence) last n rest more u v r h =
    let behind : leb event.ingest_sequence sequence ≡ false = ground (arith, r.0) in
    rw behind (
      ap (next event) (
        follow-joined events (some sequence) (some event.ingest_sequence)
          (suc event.ingest_sequence) rest more (omega (arith, r.0, u)) (omega arith) r.1 h))

pub chain-cons :
    (stream : Stream) (streams : List Stream) (events more : List MarketDataEvent)
    (previous : Option ℕ) (n : ℕ)
    → stream ≡ stream_of_list events
    → Under n previous
    → RisingFrom n events
    → ((end : Option ℕ) → Under (after n events) end → chain end streams ≡ stream_of_list more)
    → chain previous (stream ∷ streams) ≡ stream_of_list (events ++ more)
unfolding chain
chain-cons stream streams events more previous n e u r h =
    rw e (follow-joined events previous none n (λ end. chain end streams) more u u r h)

pub with_keys-cons :
    {Bytes : Type 0} (segment : Segment Bytes) (segments : List (Segment Bytes)) (first : ℕ)
    (rest : List (Keyed Bytes))
    → segment.manifest.first_ingest_sequence ≡ some first
    → with_keys segments ≡ some rest
    → with_keys (segment ∷ segments) ≡ some ((first, segment) ∷ rest)
unfolding with_keys
with_keys-cons segment segments first rest e r = simp (e, r)
