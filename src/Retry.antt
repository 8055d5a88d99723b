-- ===== src/Retry.antt =====
-- internal/processor/processor.go: the delays between attempts and the loop of a worker.
pub mod Worker
pub mod Backoff
pub mod Fates
mod Tests
use smtpd.Prelude.{
  ℕ, zero, suc, ◌*◌, ◌^◌, Bool, true, false, ℤ, pos, negsuc, to_int64, ltb, if◌then◌else◌,
}
use smtpd.Text.{Bytes, codes, to_lower, contains}

abbrev pub max_retries : ℕ
max_retries = 5

-- BaseRetryDelay and MaxRetryDelay, in nanoseconds
abbrev pub base_retry_delay : ℕ
base_retry_delay = 60_000_000_000

abbrev pub max_retry_delay : ℕ
max_retry_delay = 1_800_000_000_000

-- isPermFailure
unfoldable pub is_perm_failure : Bytes → Bool
is_perm_failure text = contains (to_lower text) (codes "permanent")

-- the cap on a delay, which a negative one is below
unfoldable pub capped : ℤ → ℤ
capped (pos d) = if ltb max_retry_delay d then pos max_retry_delay else pos d
capped (negsuc d) = negsuc d

-- time.Duration is an int64: the shift and the product wrap around
unfoldable pub calculate_retry_delay : ℕ → ℤ
unfolding capped
calculate_retry_delay zero = pos base_retry_delay
calculate_retry_delay (suc n) = capped (to_int64 (base_retry_delay * 2 ^ n))
