-- ===== src/Provider/Budget.antt =====
-- The bounds of a call's budget.
use network_adapter.Prelude.{
  ℕ, zero, suc, ◌*◌, ◌^◌, ◌-◌, ◌≤◌, ◌<◌, ◌≡◌, refl, ◌∙◌, true, false, if◌then◌else◌, ltb, leb,
  arith,
}
use network_adapter.Provider.Retry.{
  milliseconds, budget_timeout, budget_retries, is_negative, max_timeout, max_retry_max, doubled,
  backoff, retry_backoff_base, retry_backoff_max,
}

milliseconds-small : (ms : ℕ) → ms * 1000000 < 2 ^ 63 → milliseconds ms ≡ ms * 1000000
unfolding milliseconds
milliseconds-small ms h = omega arith

-- A call never waits longer than 30 seconds for an attempt, always waits for some time, and is
-- retried five times at most, if the timeout in nanoseconds fits a time.Duration.
pub budget-within :
    (timeout_ms retry_max : ℕ)
    → timeout_ms * 1000000 < 2 ^ 63
    → (0 < budget_timeout timeout_ms)
      × ((budget_timeout timeout_ms ≤ max_timeout) × (budget_retries retry_max ≤ max_retry_max))
unfolding budget_timeout budget_retries
budget-within ms r h =
    let e = milliseconds-small ms h in (ground (arith, e), (ground (arith, e), ground arith))

-- Beyond that range the ceiling is not applied: the product wraps around to a negative duration.
pub budget_timeout-is_negative :
    (timeout_ms : ℕ)
    → 2 ^ 63 ≤ timeout_ms * 1000000
    → timeout_ms * 1000000 < 2 ^ 64
    → is_negative (budget_timeout timeout_ms) ≡ true
unfolding budget_timeout milliseconds
budget_timeout-is_negative ms h k = ground arith

-- The wait of Backoff without the early end of its loop.
unfoldable pub power_of_two : ℕ → ℕ
power_of_two zero = 1
power_of_two (suc n) = power_of_two n * 2

power_of_two-positive : (n : ℕ) → 1 ≤ power_of_two n
unfolding power_of_two
power_of_two-positive zero = omega arith
power_of_two-positive (suc n) = omega (arith, power_of_two-positive n)

le_mul : (w q : ℕ) → 1 ≤ q → w ≤ w * q
le_mul w zero h = omega arith
le_mul w (suc zero) h = omega arith
le_mul w (suc (suc q)) h = omega (arith, le_mul w (suc q) (omega arith))

mul_twice : (w p : ℕ) → (w * 2) * p ≡ w * (p * 2)
mul_twice w p = omega arith

abbrev pub capped : ℕ → ℕ
capped w = if ltb retry_backoff_max w then retry_backoff_max else w

doubled-capped : (n w : ℕ) → 1 ≤ w → capped (doubled n w) ≡ capped (w * power_of_two n)
unfolding doubled power_of_two
doubled-capped zero w h = ground arith
doubled-capped (suc n) w h = ground (
  arith,
  doubled-capped n (w * 2) (omega arith),
  mul_twice w (power_of_two n),
  le_mul w (power_of_two n * 2) (omega (arith, power_of_two-positive n)),
)

backoff-doubled : (n : ℕ) → backoff (suc (suc n)) ≡ capped (doubled (suc n) retry_backoff_base)
unfolding backoff
backoff-doubled n =
    let one_less : suc (suc n) - 1 ≡ suc n = omega arith in
    let later : leb (suc (suc n)) 1 ≡ false = ground arith in rw (later, one_less) refl

-- The wait before the attempt after `n + 1` is the base doubled n times, or the ceiling where that
-- is more: the loop's early end changes nothing.
pub backoff-capped : (n : ℕ) → backoff (suc n) ≡ capped (retry_backoff_base * power_of_two n)
unfolding backoff power_of_two
backoff-capped zero = refl
backoff-capped (suc n) = backoff-doubled n ∙ doubled-capped (suc n) retry_backoff_base (omega arith)
