-- ===== src/Retry/Backoff.antt =====
-- retry.go, retry-continous.go: `exponentialBackoffWait` of both timers.
-- A duration is an int64 of nanoseconds, and the product of the unit and the shift wraps around. The
-- jitter takes off an amount that is made of floats, which is an argument: it is not negative, and not
-- more than the wait that it is taken off.
use native.Mathlib.Nat.{pow-le-pow_right, mul-le-mul}
use mefs_sdk_go.Prelude.{ℕ, ◌*◌, ◌%◌, ◌^◌, ◌≤◌, ◌<◌, ltb, if◌then◌else◌, ◌≡◌, arith}
use mefs_sdk_go.Prelude.Int.{ℤ, pos, ◌-ℤ◌, ◌≤ℤ◌, ltb_ℤ, signed, int_laws}

abbrev pub default_retry_unit : ℕ
default_retry_unit = 1000000000

abbrev pub default_retry_cap : ℕ
default_retry_cap = 30000000000

-- `unit * time.Duration(1<<uint(attempt))`, up to the cap
unfoldable pub capped : ℕ → ℕ → ℕ → ℤ
capped unit cap attempt =
    let sleep = signed ((unit * 2 ^ attempt) % 2 ^ 64) in
    if ltb_ℤ (pos cap) sleep then pos cap else sleep

-- the wait of newRetryTimer
unfoldable pub exponential_backoff_wait : (ℤ → ℤ) → ℕ → ℕ → ℕ → ℤ
unfolding capped
exponential_backoff_wait jitter unit cap attempt =
    let sleep = capped unit cap attempt in sleep -ℤ jitter sleep

abbrev pub max_attempt : ℕ
max_attempt = 30

-- the wait of newRetryTimerContinous, which bounds the attempt first
unfoldable pub exponential_backoff_wait_continous : (ℤ → ℤ) → ℕ → ℕ → ℕ → ℤ
unfolding exponential_backoff_wait
exponential_backoff_wait_continous jitter unit cap attempt =
    exponential_backoff_wait jitter unit cap
      (if ltb max_attempt attempt then max_attempt else attempt)

-- The jitter takes off no more than there is.
abbrev pub IsJitter : (ℤ → ℤ) → Type 0
IsJitter jitter = (sleep : ℤ) → (pos 0 ≤ℤ sleep) → (pos 0 ≤ℤ jitter sleep) × (jitter sleep ≤ℤ sleep)

capped_at :
    (x cap : ℕ)
    → x < 2 ^ 63
    → (if ltb_ℤ (pos cap) (signed (x % 2 ^ 64)) then pos cap else signed (x % 2 ^ 64))
      ≡ pos (if ltb cap x then cap else x)
capped_at x cap h = ground arith

capped_small :
    (unit cap attempt : ℕ)
    → unit * 2 ^ attempt < 2 ^ 63
    → capped unit cap attempt
      ≡ pos (if ltb cap (unit * 2 ^ attempt) then cap else unit * 2 ^ attempt)
unfolding capped
capped_small unit cap attempt h = capped_at (unit * 2 ^ attempt) cap h

-- a wait that lies between 0 and the cap
abbrev pub IsBounded : ℕ → ℤ → Type 0
IsBounded cap wait = (pos 0 ≤ℤ wait) × (wait ≤ℤ pos cap)

jitter-IsBounded :
    (jitter : ℤ → ℤ) (n cap : ℕ)
    → IsJitter jitter
    → n ≤ cap
    → IsBounded cap (pos n -ℤ jitter (pos n))
jitter-IsBounded jitter n cap fair small =
    let (lo, hi) = fair (pos n) (omega arith) in (grind int_laws, grind int_laws)

-- the attempt of newRetryTimerContinous
abbrev bounded_attempt : ℕ → ℕ
bounded_attempt attempt = if ltb max_attempt attempt then max_attempt else attempt

bounded_product : (unit attempt : ℕ) → unit ≤ 2 ^ 32 → unit * 2 ^ bounded_attempt attempt < 2 ^ 63
bounded_product unit attempt h =
    let few : bounded_attempt attempt ≤ max_attempt = ground arith in
    let power : 2 ^ bounded_attempt attempt ≤ 2 ^ 30 = pow-le-pow_right (omega arith) few in
    let product : unit * 2 ^ bounded_attempt attempt ≤ 2 ^ 32 * 2 ^ 30 = mul-le-mul h power in
    omega arith

wait-IsBounded :
    (jitter : ℤ → ℤ) (unit cap attempt : ℕ)
    → IsJitter jitter
    → unit * 2 ^ attempt < 2 ^ 63
    → IsBounded cap (exponential_backoff_wait jitter unit cap attempt)
unfolding exponential_backoff_wait
wait-IsBounded jitter unit cap attempt fair small =
    rw (capped_small unit cap attempt small) (jitter-IsBounded jitter _ cap fair (ground arith))

-- With a unit of at most 2^32 nanoseconds, and a jitter that takes off no more than there is, every
-- wait of the timer that does not end lies between 0 and the cap, whatever the number of the attempt: no
-- product wraps around.
pub exponential_backoff_wait-IsBounded :
    (jitter : ℤ → ℤ) (unit cap attempt : ℕ)
    → IsJitter jitter
    → unit ≤ 2 ^ 32
    → IsBounded cap (exponential_backoff_wait_continous jitter unit cap attempt)
unfolding exponential_backoff_wait_continous
exponential_backoff_wait-IsBounded jitter unit cap attempt fair h =
    wait-IsBounded jitter unit cap (bounded_attempt attempt) fair (bounded_product unit attempt h)
