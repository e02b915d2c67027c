-- ===== src/Discovery/Search.antt =====
-- `TransitionController._search` of market_discovery/transition.py. The task that hides the previous market
-- at the expected start runs while the search waits; each attempt says whether it ran before it or during
-- it. A snapshot's own time stamp is the clock at the call, and is left out.
pub mod Outcomes
pub mod Hiding
use poly_market_btc_arbitrag.Prelude.{
  ℕ, zero, suc, ◌+◌, ◌-◌, ◌*◌, Bool, true, false, not, ◌&&◌, ◌||◌, Option, none, some, List, [],
  ◌∷◌, ◌++◌, String, ◌==◌, string_eq, is_some, leb, ltb, if◌then◌else◌,
}
use poly_market_btc_arbitrag.Models.Enums.{
  Timeframe, DiscoveryState, active, searching_next, next_ready, transition_failed,
}
use poly_market_btc_arbitrag.Discovery.Floats.{whole_milliseconds}
use poly_market_btc_arbitrag.Discovery.Windows.{
  MarketWindow, TransitionResult, truthy_text, live_previous,
}

-- What `resolve_market` comes to: a market, or none with the result's error.
pub data Resolved : Type 0 where
  found : MarketWindow → Resolved
  missed : Option String → Resolved

-- One round of the loop, as the clocks and the resolver answer.
pub record Attempt : Type 0 where
  pub hidden_before : Bool
  pub now : ℕ
  pub hidden_during : Bool
  pub resolved : Resolved
  pub resolved_at : ℕ
  pub monotonic : ℕ

-- A call of `snapshot`.
pub record Shown : Type 0 where
  pub state : DiscoveryState
  pub current_market : Option MarketWindow
  pub next_market : Option MarketWindow
  pub attempt_count : ℕ
  pub last_error : Option String

-- The arguments, with the two clocks at the start.
pub record Search : Type 0 where
  pub timeframe : Timeframe
  pub previous_market : Option MarketWindow
  pub expected_start : ℕ
  pub base_utc : ℕ
  pub base_monotonic : ℕ
  pub search_started : ℕ

-- The local variables, with the snapshots so far.
pub record Locals : Type 0 where
  pub attempts : ℕ
  pub last_error : Option String
  pub previous_hidden : Bool
  pub next_ready_market : Option MarketWindow
  pub transition_finished : Bool
  pub expiry_snapshot_emitted : Bool
  pub shown : List Shown

unfoldable pub show : DiscoveryState → Option MarketWindow → Option MarketWindow → Locals → Locals
show state current next_market l = record l {
  shown =
      l.shown
      ++ record {
        state = state;
        current_market = current;
        next_market = next_market;
        attempt_count = l.attempts;
        last_error = l.last_error;
      }
        ∷ [];
}

unfoldable pub hide : Locals → Locals
hide l =
    show searching_next none none
      (record l { previous_hidden = true; expiry_snapshot_emitted = true })

-- `expire_previous_at_transition`, behind its wait
unfoldable pub expire_previous : Locals → Locals
expire_previous l =
    if l.transition_finished
      || (is_some l.next_ready_market || (l.previous_hidden || l.expiry_snapshot_emitted))
    then l
    else hide l

abbrev pub expire_if : Bool → Locals → Locals
expire_if ran l = if ran then expire_previous l else l

-- `value or "market_not_found"`
abbrev pub or_not_found : Option String → String
or_not_found none = "market_not_found"
or_not_found (some text) = if text == "" then "market_not_found" else text

module _ (s : Search) where
  -- The variables when the loop starts, the first snapshot shown.
  unfoldable pub start : Locals
  start =
      record (show searching_next (live_previous s.previous_market s.search_started) none (record {
        attempts = 0;
        last_error = none;
        previous_hidden = false;
        next_ready_market = none;
        transition_finished = false;
        expiry_snapshot_emitted = false;
        shown = [];
      })) {
        previous_hidden = not (is_some s.previous_market) || leb s.expected_start s.search_started;
      }

  unfoldable pub hide_if_past : ℕ → Locals → Locals
  hide_if_past now l =
      if leb s.expected_start now && (not l.previous_hidden && not l.expiry_snapshot_emitted)
      then hide l
      else l

  -- The wait, the resolver's answer and the count.
  unfoldable pub make_attempt : Attempt → Locals → Locals
  make_attempt a l =
      let asked = expire_if a.hidden_during (hide_if_past a.now (expire_if a.hidden_before l)) in
      record asked { attempts = asked.attempts + 1 }

  -- What the branch of a market that was found shows, and its delay in milliseconds.
  unfoldable pub finish : MarketWindow → ℕ → Locals → Locals × ℕ
  finish market resolved_at l =
      let cleared = record l { last_error = none } in
      let ready =
        show next_ready (live_previous s.previous_market resolved_at) (some market)
          (record cleared { next_ready_market = some market }) in
      if ltb resolved_at s.expected_start
      then (show active (some market) none (record ready { transition_finished = true }), 0)
      else (
        show active (some market) none (record cleared { transition_finished = true }),
        whole_milliseconds (resolved_at - s.expected_start),
      )

  unfoldable pub succeed : MarketWindow → ℕ → ℕ → ℕ → TransitionResult
  succeed market resolved_at attempts delay = record {
    success = true;
    timeframe = s.timeframe;
    previous_market = s.previous_market;
    new_market = some market;
    expected_start_utc = s.expected_start;
    search_started_at_utc = s.search_started;
    resolved_at_utc = some resolved_at;
    attempt_count = attempts;
    transition_delay_ms = some delay;
    last_error = none;
  }

  unfoldable pub fail : Locals → TransitionResult
  fail l = record {
    success = false;
    timeframe = s.timeframe;
    previous_market = s.previous_market;
    new_market = none;
    expected_start_utc = s.expected_start;
    search_started_at_utc = s.search_started;
    resolved_at_utc = none;
    attempt_count = l.attempts;
    transition_delay_ms = none;
    last_error = some (or_not_found l.last_error);
  }

  -- The deadline of a slot is behind the monotonic clock.
  abbrev pub is_behind : ℕ → ℕ → Bool
  is_behind slot monotonic =
      ltb (s.base_monotonic + (s.expected_start - 5000000) + slot * 500000) (monotonic + s.base_utc)

  -- The slots that are left, of 21, once those behind the clock are passed over.
  unfoldable pub skip_slots : ℕ → ℕ → ℕ
  skip_slots monotonic zero = zero
  skip_slots monotonic (suc left) =
      let rest = skip_slots monotonic left in
      if is_behind (20 - left) monotonic then rest else suc left

  -- `while slot <= 20`, over the attempts to come: the result, or none where it still waits for one.
  unfoldable pub search_loop : List Attempt → ℕ → Locals → Locals × Option TransitionResult
  search_loop attempts zero l =
      let ended = show transition_failed none none (record l { transition_finished = true }) in
      (ended, some (fail l))
  search_loop [] (suc left) l = (l, none)
  search_loop (a ∷ attempts) (suc left) l =
      let asked = make_attempt a l in
      elim a.resolved [
        | found market ↦
            let (ended, delay) = finish market a.resolved_at asked in
            (ended, some (succeed market a.resolved_at asked.attempts delay))
        | missed error ↦
            search_loop attempts (skip_slots a.monotonic left)
              (hide_if_past a.resolved_at (record asked { last_error = some (or_not_found error) }))
      ]

  -- `_search`, with the monotonic clock at the first look at the slots
  unfoldable pub search : ℕ → List Attempt → Locals × Option TransitionResult
  search monotonic attempts = search_loop attempts (skip_slots monotonic 21) start
