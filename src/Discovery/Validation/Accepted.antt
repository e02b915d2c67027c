-- ===== src/Discovery/Validation/Accepted.antt =====
-- What a market is like whose payload is accepted.
use poly_market_btc_arbitrag.Prelude.{
  ℕ, ◌+◌, ◌*◌, ◌≡◌, ◌≢◌, refl, not, Option, none, some, String, ◌==◌, string_eq, eqb, arith, subst,
  require, Every, Every-bind, Every-require, Bool-cases, inl, inr, sym, ◌>>=◌, ◌>>◌,
}
use poly_market_btc_arbitrag.Texts.{strip}
use poly_market_btc_arbitrag.Json.{Json, Items, nil, cons}
use poly_market_btc_arbitrag.Json.Fields.{get_field, is_text}
use poly_market_btc_arbitrag.Models.Enums.{Timeframe, duration_seconds, Outcome, up, down}
use poly_market_btc_arbitrag.Discovery.Windows.{MarketWindow}
use poly_market_btc_arbitrag.Discovery.Validation.{
  Library, expected_resolution_source, is_true, non_empty, by_outcome, build_market_slug,
  parse_gamma_datetime, required_id, json_list, normalized_source, outcome_of, token_of,
  pair_tokens, read_tokens, validate_market_payload,
}

-- The tokens are two texts that are not empty.
pub record TwoTokens (pair : String × String) : Type 0 where
  pub apart : pair.0 ≢ pair.1
  pub up_token : pair.0 ≢ ""
  pub down_token : pair.1 ≢ ""

pub record IsExpected (py : Library) (timeframe : Timeframe) (start : ℕ) (slug : String)
    (market : MarketWindow) : Type 0 where
  pub same_timeframe : market.timeframe ≡ timeframe
  pub starts : market.start_time_utc ≡ start
  pub ends : market.end_time_utc ≡ start + duration_seconds timeframe * 1000000
  pub same_slug : market.slug ≡ slug
  pub slug_of_start : build_market_slug py timeframe market.start_time_utc ≡ slug
  pub same_source : market.resolution_source ≡ expected_resolution_source
  pub tokens : TwoTokens (market.up_token_id, market.down_token_id)

non_empty-some : (s : String) → Every (λ t. t ≢ "") (non_empty s)
non_empty-some s = elim (Bool-cases (s == "")) [
  | inl e ↦ rw e tt
  | inr e ↦ rw e λ same. ground (arith, string_eq.equals_iff s "")
]

by_outcome-TwoTokens :
    (o p : Outcome) (t u : String) → t ≢ u → t ≢ "" → u ≢ "" → Every TwoTokens (by_outcome o t p u)
by_outcome-TwoTokens up up t u d a b = tt
by_outcome-TwoTokens up down t u d a b = record { apart = d; up_token = a; down_token = b }
by_outcome-TwoTokens down up t u d a b = record {
  apart = λ e. d (sym e);
  up_token = b;
  down_token = a;
}
by_outcome-TwoTokens down down t u d a b = tt

by_outcome-swap : (o p : Outcome) (t u : String) → by_outcome o t p u ≡ by_outcome p u o t
by_outcome-swap up up t u = refl
by_outcome-swap up down t u = refl
by_outcome-swap down up t u = refl
by_outcome-swap down down t u = refl

equals_comm : (t u : String) → (t == u) ≡ (u == t)
equals_comm t u = ground (arith, string_eq.equals_iff t u, string_eq.equals_iff u t)

-- The checks of the two pairs, from what was read of them.
abbrev join :
    Option Outcome → Option String → Option Outcome → Option String → Option (String × String)
join o t p u =
    o >>= λ o. t >>= λ t. p >>= λ p. u >>= λ u. require (not (t == u)) >> by_outcome o t p u

join-swap : (o p : Option Outcome) (t u : Option String) → join o t p u ≡ join p u o t
join-swap none none t u = refl
join-swap none (some p) t none = refl
join-swap none (some p) t (some u) = refl
join-swap (some o) none none u = refl
join-swap (some o) none (some t) u = refl
join-swap (some o) (some p) none none = refl
join-swap (some o) (some p) none (some u) = refl
join-swap (some o) (some p) (some t) none = refl
join-swap (some o) (some p) (some t) (some u) = rw (equals_comm t u, by_outcome-swap o p t u) refl

module _ (py : Library) where
  token_of-some : (token : Json) → Every (λ t. t ≢ "") (token_of py token)
  unfolding token_of
  token_of-some (Json.text value) = non_empty-some (strip value)
  token_of-some _ = tt

  pair_tokens-TwoTokens :
      (outcome token outcome2 token2 : Json)
      → Every TwoTokens (pair_tokens py outcome token outcome2 token2)
  unfolding pair_tokens
  pair_tokens-TwoTokens outcome token outcome2 token2 =
      Every-bind TwoTokens (outcome_of py outcome) _ λ o _.
        Every-bind TwoTokens (token_of py token) _ λ t e.
          Every-bind TwoTokens (outcome_of py outcome2) _ λ p _.
            Every-bind TwoTokens (token_of py token2) _ λ u f.
              Every-require TwoTokens (not (t == u)) _ λ differ.
                by_outcome-TwoTokens o p t u (λ same. ground (arith, string_eq.equals_iff t u))
                  (subst (Every (λ t. t ≢ "")) e (token_of-some token))
                  (subst (Every (λ t. t ≢ "")) f (token_of-some token2))

  read_tokens-TwoTokens :
      (outcomes tokens : Items) → Every TwoTokens (read_tokens py outcomes tokens)
  unfolding read_tokens
  read_tokens-TwoTokens (cons o (cons p nil)) (cons t (cons u nil)) = pair_tokens-TwoTokens o t p u
  read_tokens-TwoTokens _ _ = tt

  -- Which of the two outcomes is listed first does not matter: the tokens are those of the two lists in the
  -- other order.
  pub read_tokens-swap :
      (o p t u : Json)
      → read_tokens py (cons o (cons p nil)) (cons t (cons u nil))
        ≡ read_tokens py (cons p (cons o nil)) (cons u (cons t nil))
  unfolding read_tokens pair_tokens
  read_tokens-swap o p t u =
      join-swap (outcome_of py o) (outcome_of py p) (token_of py t) (token_of py u)

  module _ (payload : Json) (timeframe : Timeframe) (start : ℕ) (slug : String) where
    -- A market that is accepted has the expected timeframe, start, end and slug, the slug is the one of its
    -- start, its source is the expected stream, and its tokens are two different texts that are not empty.
    pub validate_market_payload-IsExpected :
        Every
          (IsExpected py timeframe start slug)
          (validate_market_payload py payload timeframe start slug)
    unfolding validate_market_payload
    validate_market_payload-IsExpected =
        let P = IsExpected py timeframe start slug in
        Every-bind P (required_id py (get_field "id" payload)) _ λ market_id _.
          Every-bind P (required_id py (get_field "conditionId" payload)) _ λ condition_id _.
            Every-require P (is_text slug (get_field "slug" payload)) _ λ _.
              Every-require P (is_true (get_field "active" payload)) _ λ _.
                Every-require P (not (is_true (get_field "closed" payload))) _ λ _.
                  Every-require P (not (is_true (get_field "archived" payload))) _ λ _.
                    Every-require P (is_true (get_field "enableOrderBook" payload)) _ λ _.
                      Every-bind P (parse_gamma_datetime py (get_field "eventStartTime" payload)) _
                        λ s _.
                          Every-bind P (parse_gamma_datetime py (get_field "endDate" payload)) _
                            λ f _. Every-require P (eqb s start) _ λ starts.
                              Every-require P (eqb f (start + duration_seconds timeframe * 1000000))
                                _
                                λ ends.
                                  Every-require P (build_market_slug py timeframe s == slug) _
                                    λ slugs.
                                      Every-bind P
                                        (normalized_source py
                                          (get_field "resolutionSource" payload))
                                        _
                                        λ src _.
                                          Every-require P (src == expected_resolution_source) _
                                            λ source.
                                              Every-bind P
                                                (json_list py (get_field "outcomes" payload)) _
                                                λ outcomes _.
                                                  Every-bind P
                                                    (json_list py
                                                      (get_field "clobTokenIds" payload))
                                                    _
                                                    λ tokens _.
                                                      Every-bind P (read_tokens py outcomes tokens)
                                                        _
                                                        λ pair e. record {
                                                          same_timeframe = refl;
                                                          starts = ground arith;
                                                          ends = ground arith;
                                                          same_slug = refl;
                                                          slug_of_start = ground (
                                                            arith,
                                                            string_eq.equals_iff
                                                            (build_market_slug py timeframe s) slug,
                                                          );
                                                          same_source = ground (
                                                            arith,
                                                            string_eq.equals_iff src
                                                            expected_resolution_source,
                                                          );
                                                          tokens =
                                                            subst (Every TwoTokens) e
                                                            (read_tokens-TwoTokens outcomes tokens);
                                                        }
