-- ===== src/Discovery/Search/Outcomes.antt =====
-- What a search comes to, and what it has shown by then.
use poly_market_btc_arbitrag.Prelude.{
  ℕ, zero, suc, ◌+◌, ◌≤◌, ◌≡◌, refl, Bool, true, Option, none, some, List, [], ◌∷◌, ◌++◌, String,
  ◌==◌, string_eq, is_some, ltb, if◌then◌else◌, arith, length, Bool-cases, inl, inr, ◌⊎◌,
}
use poly_market_btc_arbitrag.Models.Enums.{active, transition_failed}
use poly_market_btc_arbitrag.Discovery.Windows.{
  MarketWindow, TransitionResult, truthy_text, accepts_transition,
}
use poly_market_btc_arbitrag.Discovery.Search.{
  Resolved, found, missed, Attempt, Shown, Search, Locals, show, hide, expire_previous, expire_if,
  or_not_found, start, hide_if_past, make_attempt, finish, succeed, fail, skip_slots, search_loop,
  search,
}

-- The last snapshot shown.
abbrev pub last_of : List Shown → Option Shown
last_of [] = none
last_of (x ∷ []) = some x
last_of (x ∷ y ∷ xs) = last_of (y ∷ xs)

last-snoc : (xs : List Shown) (x : Shown) → last_of (xs ++ x ∷ []) ≡ some x
last-snoc [] x = refl
last-snoc (y ∷ []) x = refl
last-snoc (y ∷ z ∷ xs) x = last-snoc (z ∷ xs) x

abbrev pub ShowsResult : TransitionResult → Option Shown → Type 0
ShowsResult r none = ⊥
ShowsResult r (some x) =
    (x.state ≡ (if r.success then active else transition_failed))
    × (x.current_market ≡ r.new_market)
    × (x.attempt_count ≡ r.attempt_count)

-- The class of the result accepts it, and the last snapshot shows it.
abbrev pub Concluded : Locals × Option TransitionResult → Type 0
Concluded (l, none) = Unit
Concluded (l, some r) =
    (accepts_transition r ≡ true) × (r.attempt_count ≤ 21) × ShowsResult r (last_of l.shown)

or_not_found-truthy : (error : Option String) → truthy_text (some (or_not_found error)) ≡ true
or_not_found-truthy none = refl
or_not_found-truthy (some text) = elim (Bool-cases (text == "")) [
  | inl e ↦ rw e refl
  | inr e ↦ rw (e, e) refl
]

pub Resolved-cases :
    (r : Resolved)
    → ((market : MarketWindow) × (r ≡ found market))
      ⊎ ((error : Option String) × (r ≡ missed error))
Resolved-cases (found market) = inl (market, refl)
Resolved-cases (missed error) = inr (error, refl)

module _ (s : Search) where
  attempts-hide : (l : Locals) → (hide l).attempts ≡ l.attempts
  unfolding hide show
  attempts-hide l = refl

  attempts-hide_if_past : (now : ℕ) (l : Locals) → (hide_if_past s now l).attempts ≡ l.attempts
  unfolding hide_if_past
  attempts-hide_if_past now l = ground (arith, attempts-hide l)

  attempts-expire_if : (ran : Bool) (l : Locals) → (expire_if ran l).attempts ≡ l.attempts
  unfolding expire_previous
  attempts-expire_if ran l = ground (arith, attempts-hide l)

  attempts-make_attempt :
      (a : Attempt) (l : Locals) → (make_attempt s a l).attempts ≡ suc l.attempts
  unfolding make_attempt
  attempts-make_attempt a l = omega (
    arith,
    attempts-expire_if a.hidden_during (hide_if_past s a.now (expire_if a.hidden_before l)),
    attempts-hide_if_past a.now (expire_if a.hidden_before l),
    attempts-expire_if a.hidden_before l,
  )

  skip_slots-le : (monotonic left : ℕ) → skip_slots s monotonic left ≤ left
  unfolding skip_slots
  skip_slots-le monotonic zero = omega arith
  skip_slots-le monotonic (suc left) = ground (arith, skip_slots-le monotonic left)

  succeed-Concluded :
      (market : MarketWindow) (resolved_at : ℕ) (l : Locals)
      → l.attempts ≤ 21
      → Concluded (
        (finish s market resolved_at l).0,
        some (succeed s market resolved_at l.attempts (finish s market resolved_at l).1),
      )
  unfolding succeed accepts_transition finish show
  succeed-Concluded market resolved_at l le = elim (Bool-cases (ltb resolved_at s.expected_start)) [
    | inl e ↦ rw (e, last-snoc) (refl, le, (refl, refl, refl))
    | inr e ↦ rw (e, last-snoc) (refl, le, (refl, refl, refl))
  ]

  fail-Concluded :
      (l : Locals)
      → l.attempts ≤ 21
      → Concluded (
        show transition_failed none none (record l { transition_finished = true }),
        some (fail s l),
      )
  unfolding fail accepts_transition show
  fail-Concluded l le = rw last-snoc (or_not_found-truthy l.last_error, le, (refl, refl, refl))

  search_loop-Concluded :
      (attempts : List Attempt) (left : ℕ) (l : Locals)
      → l.attempts + left ≤ 21
      → Concluded (search_loop s attempts left l)
  unfolding search_loop
  search_loop-Concluded attempts zero l le = fail-Concluded l (omega arith)
  search_loop-Concluded [] (suc left) l le = tt
  search_loop-Concluded (a ∷ attempts) (suc left) l le =
      let asked = make_attempt s a l in
      let count = attempts-make_attempt a l in
      elim (Resolved-cases a.resolved) [
        | inl (market, e) ↦
            rw (e, search_loop)
              (succeed-Concluded market a.resolved_at asked (omega (arith, count)))
        | inr (error, e) ↦
            let next = record asked { last_error = some (or_not_found error) } in
            rw (e, search_loop)
              (search_loop-Concluded attempts (skip_slots s a.monotonic left)
                (hide_if_past s a.resolved_at next)
                (omega (
                  arith,
                  count,
                  attempts-hide_if_past a.resolved_at next,
                  skip_slots-le a.monotonic left,
                )))
      ]

  attempts-start : (start s).attempts ≡ 0
  unfolding start show
  attempts-start = refl

  -- Whatever the clocks and the resolver answer: if the search ends, the class of its result accepts the
  -- result, at most 21 attempts were made, and the last snapshot shown is the result's: active with the new
  -- market, or failed with none.
  pub search-Concluded :
      (monotonic : ℕ) (attempts : List Attempt) → Concluded (search s monotonic attempts)
  unfolding search
  search-Concluded monotonic attempts =
      search_loop-Concluded attempts (skip_slots s monotonic 21) (start s)
        (omega (arith, attempts-start, skip_slots-le monotonic 21))

  search_loop-ends :
      (attempts : List Attempt) (left : ℕ) (l : Locals)
      → left ≤ length attempts
      → is_some (search_loop s attempts left l).1 ≡ true
  unfolding search_loop
  search_loop-ends attempts zero l le = refl
  search_loop-ends [] (suc left) l le = absurd (omega arith)
  search_loop-ends (a ∷ attempts) (suc left) l le = elim (Resolved-cases a.resolved) [
    | inl (market, e) ↦ rw (e, search_loop) refl
    | inr (error, e) ↦
        rw (e, search_loop)
          (search_loop-ends attempts (skip_slots s a.monotonic left) _
            (omega (arith, skip_slots-le a.monotonic left)))
  ]

  -- The search ends once 21 attempts are answered.
  pub search-ends :
      (monotonic : ℕ) (attempts : List Attempt)
      → 21 ≤ length attempts
      → is_some (search s monotonic attempts).1 ≡ true
  unfolding search
  search-ends monotonic attempts le =
      search_loop-ends attempts (skip_slots s monotonic 21) (start s)
        (omega (arith, skip_slots-le monotonic 21))
