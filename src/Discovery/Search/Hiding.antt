-- ===== src/Discovery/Search/Hiding.antt =====
-- How often a search hides the previous market.
use poly_market_btc_arbitrag.Prelude.{
  ℕ, zero, suc, ◌+◌, ◌≤◌, ◌≡◌, Bool, false, List, [], ◌∷◌, ◌++◌, ltb, if◌then◌else◌, arith,
  Bool-cases, inl, inr,
}
use poly_market_btc_arbitrag.Models.Enums.{
  DiscoveryState, active, searching_next, next_ready, transition_failed,
}
use poly_market_btc_arbitrag.Discovery.Windows.{MarketWindow}
use poly_market_btc_arbitrag.Discovery.Search.{
  Attempt, Shown, Search, Locals, show, hide, expire_previous, expire_if, start, hide_if_past,
  make_attempt, finish, skip_slots, search_loop, search,
}
use poly_market_btc_arbitrag.Discovery.Search.Outcomes.{Resolved-cases}

abbrev is_searching : DiscoveryState → ℕ
is_searching active = 0
is_searching searching_next = 1
is_searching next_ready = 0
is_searching transition_failed = 0

-- The number of snapshots that show the search.
abbrev pub searching : List Shown → ℕ
searching [] = 0
searching (x ∷ xs) = is_searching x.state + searching xs

-- One for the start, and one more once the previous market was hidden.
abbrev Once : Locals → Type 0
Once l = searching l.shown ≤ (if l.expiry_snapshot_emitted then 2 else 1)

searching-snoc :
    (xs : List Shown) (x : Shown) → searching (xs ++ x ∷ []) ≡ searching xs + is_searching x.state
searching-snoc [] x = omega arith
searching-snoc (y ∷ xs) x = omega (arith, searching-snoc xs x)

hide-Once : (l : Locals) → l.expiry_snapshot_emitted ≡ false → Once l → Once (hide l)
unfolding hide show
hide-Once l e o = rw searching-snoc (ground arith)

expire_if-Once : (ran : Bool) (l : Locals) → Once l → Once (expire_if ran l)
unfolding expire_previous
expire_if-Once ran l o = ground (arith, hide-Once l)

module _ (s : Search) where
  hide_if_past-Once : (now : ℕ) (l : Locals) → Once l → Once (hide_if_past s now l)
  unfolding hide_if_past
  hide_if_past-Once now l o = ground (arith, hide-Once l)

  make_attempt-Once : (a : Attempt) (l : Locals) → Once l → Once (make_attempt s a l)
  unfolding make_attempt
  make_attempt-Once a l o =
      expire_if-Once a.hidden_during _
        (hide_if_past-Once a.now _ (expire_if-Once a.hidden_before l o))

  finish-Once :
      (market : MarketWindow) (resolved_at : ℕ) (l : Locals)
      → Once l
      → Once (finish s market resolved_at l).0
  unfolding finish show
  finish-Once market resolved_at l o = elim (Bool-cases (ltb resolved_at s.expected_start)) [
    | inl e ↦ rw (e, searching-snoc, searching-snoc) (omega arith)
    | inr e ↦ rw (e, searching-snoc) (omega arith)
  ]

  search_loop-searching-le :
      (attempts : List Attempt) (left : ℕ) (l : Locals)
      → Once l
      → searching (search_loop s attempts left l).0.shown ≤ 2
  unfolding search_loop show
  search_loop-searching-le attempts zero l o = rw searching-snoc (ground arith)
  search_loop-searching-le [] (suc left) l o = ground arith
  search_loop-searching-le (a ∷ attempts) (suc left) l o =
      let asked = make_attempt-Once a l o in
      elim (Resolved-cases a.resolved) [
        | inl (market, e) ↦
            let ended = finish-Once market a.resolved_at (make_attempt s a l) asked in
            rw (e, search_loop) (ground arith)
        | inr (error, e) ↦
            rw (e, search_loop)
              (search_loop-searching-le attempts (skip_slots s a.monotonic left) _
                (hide_if_past-Once a.resolved_at _ asked))
      ]

  start-Once : Once (start s)
  unfolding start show
  start-Once = ground arith

  -- However the clocks, the resolver and the task that hides the previous market run against each other,
  -- the snapshots that show the search are at most two: the first, and one that hides the previous market.
  pub search-searching-le :
      (monotonic : ℕ) (attempts : List Attempt)
      → searching (search s monotonic attempts).0.shown ≤ 2
  unfolding search
  search-searching-le monotonic attempts =
      search_loop-searching-le attempts (skip_slots s monotonic 21) (start s) start-Once
