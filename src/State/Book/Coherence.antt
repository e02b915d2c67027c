-- ===== src/State/Book/Coherence.antt =====
-- What messages with the best prices make of a book's coherence.
use poly_market_btc_arbitrag.Prelude.{
  ◌≡◌, refl, false, List, [], ◌∷◌, arith, All, inl, ◌<◌, ◌≤◌, ◌+◌, ◌∙◌, length, suc, ◌⊎◌, All-mono,
}
use poly_market_btc_arbitrag.Models.Payloads.{PolymarketBestBidAskPayload}
use poly_market_btc_arbitrag.State.Book.{Book, check_best, agrees, diverge}

-- The book after each of the messages.
unfoldable pub check_all : List PolymarketBestBidAskPayload → Book → Book
check_all [] book = book
check_all (payload ∷ payloads) book = check_all payloads (check_best payload book)

agrees-diverge :
    (payload : PolymarketBestBidAskPayload) (book : Book)
    → agrees payload (diverge book) ≡ agrees payload book
unfolding agrees diverge
agrees-diverge payload book = refl

check_best-disagree :
    (payload : PolymarketBestBidAskPayload) (book : Book)
    → agrees payload book ≡ false
    → check_best payload book ≡ diverge book
check_best-disagree payload book h = rw h refl

incoherent-diverge : (book : Book) → book.coherent ≡ false → (diverge book).coherent ≡ false
unfolding diverge
incoherent-diverge book h = ground arith

count-diverge : (book : Book) → (diverge book).divergence_count ≡ book.divergence_count + 1
unfolding diverge
count-diverge book = refl

third-diverge : (book : Book) → 2 ≤ book.divergence_count → (diverge book).coherent ≡ false
unfolding diverge
third-diverge book h = ground arith

diverged :
    (payloads : List PolymarketBestBidAskPayload) (book : Book)
    → (book.coherent ≡ false)
      ⊎ ((3 ≤ book.divergence_count + suc (length payloads)) × (0 < suc (length payloads)))
    → ((diverge book).coherent ≡ false)
      ⊎ ((3 ≤ (diverge book).divergence_count + length payloads) × (0 < length payloads))
unfolding diverge
diverged [] book due = inl (ground arith)
diverged (_ ∷ payloads) book due = ground arith

-- Of messages that all disagree with the book, as many as are left to three cost it its coherence.
pub check_all-incoherent :
    (payloads : List PolymarketBestBidAskPayload) (book : Book)
    → All (λ payload. agrees payload book ≡ false) payloads
    → (book.coherent ≡ false)
      ⊎ ((3 ≤ book.divergence_count + length payloads) × (0 < length payloads))
    → (check_all payloads book).coherent ≡ false
unfolding check_all
check_all-incoherent [] book a due = ground arith
check_all-incoherent (payload ∷ payloads) book a due =
    rw (check_all, check_best-disagree payload book a.0)
      (check_all-incoherent payloads (diverge book)
        (All-mono (λ p h. agrees-diverge p book ∙ h) payloads a.1) (diverged payloads book due))
