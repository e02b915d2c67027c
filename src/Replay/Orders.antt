-- ===== src/Replay/Orders.antt =====
-- The order in which the segments of a directory are found.
use mathlib.Core.List.{Permᴰ}
use poly_market_btc_arbitrag.Prelude.{
  ◌≡◌, refl, sym, ap, subst, ◌∙◌, Bool, Option, List, ◌∷◌, String, arith, All, inl, inr,
}
use poly_market_btc_arbitrag.Models.Payloads.{MarketDataEvent}
use poly_market_btc_arbitrag.Replay.{Decompressed}
use poly_market_btc_arbitrag.Replay.Files.{read_raw_events}
use poly_market_btc_arbitrag.Replay.Merge.{Consecutive}
use poly_market_btc_arbitrag.Replay.Listed.{stream_of_list, count}
use poly_market_btc_arbitrag.Replay.Sorted.{held}
use poly_market_btc_arbitrag.Replay.Groups.{
  Placed, Clear, AllClear, AllGood, placed_count, manifest_files, read_raw_events-listed,
}

All-Permᴰ {ℓ κ} : {A : Type ℓ} (P : A → Type κ) (xs ys : List A) → Permᴰ xs ys → All P xs → All P ys
All-Permᴰ P _ _ Permᴰ.nil h = h
All-Permᴰ P _ _ (Permᴰ.cons {l₁ = xs} {l₂ = ys} e d) h = (subst P e h.0, All-Permᴰ P xs ys d h.1)
All-Permᴰ P _ _ (Permᴰ.swap e₁ e₂) h = (subst P e₂ h.1.0, (subst P e₁ h.0, h.1.1))
All-Permᴰ P xs ys (Permᴰ.trans {l₂ = zs} d₁ d₂) h = All-Permᴰ P zs ys d₂ (All-Permᴰ P xs zs d₁ h)

module _ {Bytes Line : Type 0} (sha256 : Bytes → String) (decompress : Bytes → Decompressed Line)
    (parse : Line → Option MarketDataEvent) where
  Clear-sym :
      (f g : Placed Bytes) → Clear sha256 decompress parse f g → Clear sha256 decompress parse g f
  Clear-sym f g clear same = elim (clear (sym same)) [
    | inl before ↦ inr before
    | inr before ↦ inl before
  ]

  AllClear-Permᴰ :
      (xs ys : List (Placed Bytes))
      → Permᴰ xs ys
      → AllClear sha256 decompress parse xs
      → AllClear sha256 decompress parse ys
  AllClear-Permᴰ _ _ Permᴰ.nil h = h
  AllClear-Permᴰ _ _ (Permᴰ.cons {b = b} {l₁ = xs} {l₂ = ys} e d) h = (
    All-Permᴰ (Clear sha256 decompress parse b) xs ys d
        (subst (λ f. All (Clear sha256 decompress parse f) xs) e h.0),
    AllClear-Permᴰ xs ys d h.1,
  )
  AllClear-Permᴰ _ _ (Permᴰ.swap {a = a} {b = b} {b' = b'} {l = l} e₁ e₂) h =
      subst (λ f. AllClear sha256 decompress parse (f ∷ b' ∷ l)) e₂
        (subst (λ f. AllClear sha256 decompress parse (b ∷ f ∷ l)) e₁
          ((Clear-sym a b h.0.0, h.1.0), (h.0.1, h.1.1)))
  AllClear-Permᴰ xs ys (Permᴰ.trans {l₂ = zs} d₁ d₂) h =
      AllClear-Permᴰ zs ys d₂ (AllClear-Permᴰ xs zs d₁ h)

  placed_count-Permᴰ :
      (p : MarketDataEvent → Bool) (xs ys : List (Placed Bytes))
      → Permᴰ xs ys
      → placed_count sha256 decompress parse p xs ≡ placed_count sha256 decompress parse p ys
  placed_count-Permᴰ p _ _ Permᴰ.nil = refl
  placed_count-Permᴰ p _ _ (Permᴰ.cons {l₁ = xs} {l₂ = ys} e d) =
      let same = ap (λ f. count p (held sha256 decompress parse f.1)) e in
      omega (arith, same, placed_count-Permᴰ p xs ys d)
  placed_count-Permᴰ p _ _ (Permᴰ.swap e₁ e₂) =
      let first = ap (λ f. count p (held sha256 decompress parse f.1)) e₁ in
      let second = ap (λ f. count p (held sha256 decompress parse f.1)) e₂ in
      omega (arith, first, second)
  placed_count-Permᴰ p xs ys (Permᴰ.trans {l₂ = zs} d₁ d₂) =
      placed_count-Permᴰ p xs zs d₁ ∙ placed_count-Permᴰ p zs ys d₂

  -- Segments are read back as the same list of events in whatever order they are found.
  pub read_raw_events-found :
      (files found : List (Placed Bytes)) (events : List MarketDataEvent)
      → Permᴰ files found
      → AllGood sha256 decompress parse files
      → AllClear sha256 decompress parse files
      → Consecutive (stream_of_list events)
      → ((p : MarketDataEvent → Bool)
          → placed_count sha256 decompress parse p files ≡ count p events)
      → read_raw_events sha256 decompress parse (manifest_files found) ≡ stream_of_list events
  read_raw_events-found files found events d good clear consecutive same =
      read_raw_events-listed sha256 decompress parse found events (All-Permᴰ _ files found d good)
        (AllClear-Permᴰ files found d clear) consecutive
        λ p. sym (placed_count-Permᴰ p files found d) ∙ same p
