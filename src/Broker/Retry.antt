-- ===== src/Broker/Retry.antt =====
-- internal/infra/rabbitmq/retry.go: the tiers of the exponential backoff.
use software_engineering_sch.Prelude.{
  ℕ, zero, suc, ◌-◌, ◌*◌, ◌/◌, ◌%◌, ◌^◌, ◌≤◌, ◌<◌, String, ◌≡◌, arith, str_append,
}
use native.Mathlib.Nat.{mod-eq_of_lt, pow-suc, pow-zero}
use text.Mathlib.TextLemmas.{append_cancel_left}
use software_engineering_sch.Prelude.Int.{ℤ, pos, negsuc, decimal, decimal_int, decimal_inj}

-- Durations are nanoseconds.
pub record RetryPolicy : Type 0 where
  pub base_ttl : ℤ
  pub factor : ℕ
  pub tiers : ℕ

abbrev clamp_factor : ℤ → ℕ
clamp_factor (negsuc n) = 1
clamp_factor (pos zero) = 1
clamp_factor (pos (suc n)) = suc n

abbrev clamp_tiers : ℤ → ℕ
clamp_tiers (negsuc n) = 0
clamp_tiers (pos n) = n

-- `NewRetryPolicy` clamps the factor to at least 1 and the tiers to at least 0.
unfoldable pub new_retry_policy : ℤ → ℤ → ℤ → RetryPolicy
new_retry_policy base_ttl factor tiers = record {
  base_ttl = base_ttl;
  factor = clamp_factor factor;
  tiers = clamp_tiers tiers;
}

-- `range tier` multiplications of an int64, which wraps; the value is its bit pattern.
unfoldable pub multiplied : ℕ → ℕ → ℕ → ℕ
multiplied factor zero ms = ms
multiplied factor (suc tier) ms = multiplied factor tier ((ms * factor) % 2 ^ 64)

-- time.Duration.Milliseconds, as the bit pattern of the int64: the quotient is cut towards nought.
abbrev pub milliseconds : ℤ → ℕ
milliseconds (pos n) = n / 1000000
milliseconds (negsuc n) = (2 ^ 64 - suc n / 1000000) % 2 ^ 64

unfoldable pub tier_ttl_ms : RetryPolicy → ℕ → ℕ
unfolding multiplied
tier_ttl_ms p tier = multiplied p.factor tier (milliseconds p.base_ttl)

unfoldable pub retry_queue_name : String → ℤ → String
retry_queue_name base tier = str_append base (str_append "." (decimal_int tier))

regroup : (ms factor p : ℕ) → ms * (p * factor) ≡ ms * factor * p
regroup ms factor p = omega arith

pow_pos : (factor tier : ℕ) → 0 < factor → 0 < factor ^ tier
pow_pos factor zero h = rw pow-zero (omega arith)
pow_pos factor (suc tier) h =
    rw pow-suc (product_pos (factor ^ tier) factor (pow_pos factor tier h) h)
  where
    product_pos : (a b : ℕ) → 0 < a → 0 < b → 0 < a * b
    product_pos a b ha hb = grind arith

below_product : (x p : ℕ) → 0 < p → x * p < 2 ^ 63 → x < 2 ^ 64
below_product x p h lt = let le : x ≤ x * p = grind arith in omega (arith, le)

-- While the delay fits an int64 no multiplication wraps.
multiplied-eq-pow :
    (factor tier ms : ℕ)
    → 0 < factor
    → ms * factor ^ tier < 2 ^ 63
    → multiplied factor tier ms ≡ ms * factor ^ tier
unfolding multiplied
multiplied-eq-pow factor zero ms pos_factor h = rw pow-zero (omega arith)
multiplied-eq-pow factor (suc tier) ms pos_factor h =
    let whole : ms * factor ^ suc tier ≡ ms * factor * factor ^ tier =
      rw pow-suc (regroup ms factor (factor ^ tier)) in
    let fits : ms * factor * factor ^ tier < 2 ^ 63 = rw (← whole) h in
    let small : ms * factor < 2 ^ 64 =
      below_product (ms * factor) (factor ^ tier) (pow_pos factor tier pos_factor) fits in
    rw (mod-eq_of_lt small, whole) (multiplied-eq-pow factor tier (ms * factor) pos_factor fits)

-- Tier i waits the base delay, which is not negative, times the factor to the power i, as long as
-- that fits an int64.
pub tier_ttl_ms_exponential :
    (p : RetryPolicy) (tier : ℕ) {ns : ℕ}
    → p.base_ttl ≡ pos ns
    → 0 < p.factor
    → ns / 1000000 * p.factor ^ tier < 2 ^ 63
    → tier_ttl_ms p tier ≡ ns / 1000000 * p.factor ^ tier
unfolding tier_ttl_ms
tier_ttl_ms_exponential p tier {ns} base pos_factor h =
    rw base (multiplied-eq-pow p.factor tier (ns / 1000000) pos_factor h)

-- Two tiers never share a queue.
pub retry_queue_name_inj :
    (base : String) (i j : ℕ)
    → retry_queue_name base (pos i) ≡ retry_queue_name base (pos j)
    → i ≡ j
unfolding retry_queue_name decimal_int
retry_queue_name_inj base i j h = decimal_inj i j (
    append_cancel_left "." (decimal i) (decimal j)
      (append_cancel_left base (str_append "." (decimal i)) (str_append "." (decimal j)) h))
