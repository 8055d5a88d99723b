-- ===== src/Retry/Backoff.antt =====
-- internal/processor/processor.go: how long a message waits for its next attempt.
use native.Mathlib.Nat.{pow-le-pow_right, one-le-pow, two-pow-succ}
use smtpd.Prelude.{
  ℕ, zero, suc, ◌+◌, ◌*◌, ◌^◌, ◌≤◌, ◌<◌, ◌≡◌, refl, pos, to_int64, ltb, arith, if◌then◌else◌,
}
use smtpd.Retry.{base_retry_delay, max_retry_delay, calculate_retry_delay}
use smtpd.Message.{Message}
use smtpd.Retry.Worker.{retried, after}

fits : (n : ℕ) → n < 28 → 2 ^ n ≤ 2 ^ 27
fits n h = pow-le-pow_right (omega arith) {j = 27} (omega arith)

-- For the first 28 retries nothing wraps around: the delay is a minute, doubled for each retry after
-- the first, but half an hour at most.
pub calculate_retry_delay_doubles :
    (n : ℕ)
    → n < 28
    → calculate_retry_delay (suc n)
      ≡ pos (
          if ltb max_retry_delay (base_retry_delay * 2 ^ n)
          then max_retry_delay
          else base_retry_delay * 2 ^ n)
unfolding calculate_retry_delay to_int64
calculate_retry_delay_doubles n h = ground (arith, fits n h)

-- 2 ^ m for m at least 53 is a multiple of 2 ^ 53
multiple : (n m : ℕ) → m ≡ 53 + n → (k : ℕ) × (2 ^ m ≡ 9007199254740992 * k)
multiple zero m h = (1, rw h refl)
multiple (suc n) zero h = absurd (omega arith)
multiple (suc n) (suc m) h =
    let (k, e) = multiple n m (omega arith) in (k + k, omega (arith, two-pow-succ m, e))

-- From the 54th retry on, the product wraps around to 0: the message is due at once.
pub calculate_retry_delay_wraps : (n : ℕ) → calculate_retry_delay (suc (53 + n)) ≡ pos 0
unfolding calculate_retry_delay to_int64
calculate_retry_delay_wraps n = let (k, e) = multiple n (53 + n) refl in rw e (ground arith)

-- A message that has been retried at most 27 times and is put back waits for a minute at least and
-- half an hour at most.
pub retried_waits :
    (t : ℕ) (m : Message)
    → m.retry_count < 28
    → (t + base_retry_delay ≤ (retried t m).next_attempt_at)
      × ((retried t m).next_attempt_at ≤ t + max_retry_delay)
unfolding retried after
retried_waits t m h =
    rw (calculate_retry_delay_doubles m.retry_count h)
      (ground (arith, one-le-pow m.retry_count 2 (omega arith)), ground arith)
