-- ===== src/Provider/Retry.antt =====
-- util/retry.go and util/constant.go: the budget of a call and the wait between attempts. A
-- time.Duration is an int64 of nanoseconds, kept here modulo 2 ^ 64.
use network_adapter.Prelude.{ℕ, zero, suc, ◌*◌, ◌%◌, ◌^◌, ◌-◌, Bool, ◌&&◌, if◌then◌else◌, ltb, leb}

abbrev pub default_timeout : ℕ
default_timeout = 15 * 1000000000

abbrev pub max_timeout : ℕ
max_timeout = 30 * 1000000000

abbrev pub default_retry_max : ℕ
default_retry_max = 0

abbrev pub max_retry_max : ℕ
max_retry_max = 5

abbrev pub retry_backoff_base : ℕ
retry_backoff_base = 50 * 1000000

abbrev pub retry_backoff_max : ℕ
retry_backoff_max = 800 * 1000000

-- `time.Duration(ms) * time.Millisecond`
unfoldable pub milliseconds : ℕ → ℕ
milliseconds ms = (ms * 1000000) % (2 ^ 64)

-- Whether a duration has its sign bit set.
abbrev pub is_negative : ℕ → Bool
is_negative d = leb (2 ^ 63) d

-- `d > limit` for a limit that is not negative.
abbrev is_above : ℕ → ℕ → Bool
is_above d limit = ltb d (2 ^ 63) && ltb limit d

-- The timeout of Budget; a timeoutMs that is not positive counts as 0.
unfoldable pub budget_timeout : ℕ → ℕ
budget_timeout timeout_ms =
    let timeout = if ltb 0 timeout_ms then milliseconds timeout_ms else default_timeout in
    if is_above timeout max_timeout then max_timeout else timeout

-- The retries of Budget; a retryMax that is not positive counts as 0.
unfoldable pub budget_retries : ℕ → ℕ
budget_retries retry_max =
    let retries = if ltb 0 retry_max then retry_max else default_retry_max in
    if ltb max_retry_max retries then max_retry_max else retries

-- The loop of Backoff, for the rounds that are left.
unfoldable pub doubled : ℕ → ℕ → ℕ
doubled zero wait = wait
doubled (suc n) wait =
    let rest = doubled n (wait * 2) in if ltb wait retry_backoff_max then rest else wait

-- Backoff; the doubling stays far below the range of an int64.
unfoldable pub backoff : ℕ → ℕ
backoff attempt =
    if leb attempt 1
    then retry_backoff_base
    else (let wait = doubled (attempt - 1) retry_backoff_base in
        if ltb retry_backoff_max wait then retry_backoff_max else wait)
