-- ===== src/Decimals.antt =====
-- Signed decimals, for the sums and differences of state.py, and the rounding of the decimal context.
-- `negsuc n` is -(n + 1).
use poly_market_btc_arbitrag.Prelude.{
  ℕ, zero, suc, ◌+◌, ◌-◌, ◌*◌, ◌/◌, ◌%◌, ◌^◌, ◌<◌, ◌≡◌, Bool, ltb, leb, eqb, lt→ltb, arith,
  if◌then◌else◌,
}

pub data ℤ : Type 0 where
  pos : ℕ → ℤ
  negsuc : ℕ → ℤ

abbrev pub pos_part : ℤ → ℕ
pos_part (pos n) = n
pos_part (negsuc n) = 0

abbrev pub neg_part : ℤ → ℕ
neg_part (pos n) = 0
neg_part (negsuc n) = suc n

-- a - b, as an integer.
abbrev pub sub_ℕ : ℕ → ℕ → ℤ
sub_ℕ a b = if leb b a then pos (a - b) else negsuc (b - a - 1)

infixl 65 ◌+ℤ◌ ◌-ℤ◌
unfoldable pub ◌+ℤ◌ : ℤ → ℤ → ℤ
a +ℤ b = sub_ℕ (pos_part a + pos_part b) (neg_part a + neg_part b)

unfoldable pub ◌-ℤ◌ : ℤ → ℤ → ℤ
a -ℤ b = sub_ℕ (pos_part a + neg_part b) (neg_part a + pos_part b)

-- `if value:`, the test that a decimal is not zero.
unfoldable pub truthy : ℤ → Bool
truthy (pos zero) = Bool.false
truthy (pos (suc n)) = Bool.true
truthy (negsuc n) = Bool.true

-- The decimal context's precision: a result has at most 28 digits.
abbrev pub precision : ℕ
precision = 10 ^ 28

-- `n` to a multiple of `m`, half to even.
unfoldable pub round_half_even : ℕ → ℕ → ℕ
round_half_even n m =
    let low = n / m in
    let twice_rest = 2 * (n % m) in
    if ltb twice_rest m
    then low * m
    else if ltb m twice_rest
    then (low + 1) * m
    else if eqb (low % 2) 0
    then low * m
    else (low + 1) * m

-- The power of ten to which `n` is rounded: the least that leaves at most 28 digits, among those that
-- the fuel reaches.
excess : ℕ → ℕ → ℕ
excess zero n = 1
excess (suc fuel) n = let more = 10 * excess fuel (n / 10) in if ltb n precision then 1 else more

-- A result of + or - as the context leaves it. `n` digits of fuel are more than `n` has.
unfoldable pub context_round_ℕ : ℕ → ℕ
unfolding excess round_half_even
context_round_ℕ n =
    let rounded = round_half_even n (excess n n) in if ltb n precision then n else rounded

unfoldable pub context_round : ℤ → ℤ
unfolding context_round_ℕ
context_round (pos n) = pos (context_round_ℕ n)
context_round (negsuc n) = sub_ℕ 0 (context_round_ℕ (suc n))

-- A value of at most 28 digits is left as it is.
pub context_round_exact : (n : ℕ) → n < precision → context_round (pos n) ≡ pos n
unfolding context_round
context_round_exact n h = rw (lt→ltb _ _ h)

pub plus_pos : (a b : ℕ) → pos a +ℤ pos b ≡ pos (a + b)
unfolding ◌+ℤ◌
plus_pos a b = ground arith

pub plus_minus_pos : (a b : ℕ) → pos (a + b) -ℤ pos a ≡ pos b
unfolding ◌-ℤ◌
plus_minus_pos a b = ground arith
