-- ===== src/RateLimit.antt =====
-- pkg/plugin/ratelimit/ratelimit.go: at most so many messages of a sender in a window of time.
pub mod Quota
mod Tests
use smtpd.Prelude.{
  ℕ, suc, ◌+◌, ◌-◌, Bool, true, false, Option, none, some, List, [], ◌∷◌, ltb, leb, if◌then◌else◌,
}
use smtpd.Text.{Bytes, codes}
use smtpd.Table.{lookup, update}
use smtpd.Smtp.{Error, SmtpError, smtp}

pub record SenderCount : Type 0 where
  pub count : ℕ
  pub start_time : ℕ

-- times are nanoseconds of a clock that does not run backwards
pub record RateLimiter : Type 0 where
  pub limit : ℕ
  pub window : ℕ
  pub counts : List (Bytes × SenderCount)
  pub cleanup_at : ℕ

unfoldable pub new_rate_limiter : ℕ → ℕ → ℕ → RateLimiter
new_rate_limiter now limit window = record {
  limit = limit;
  window = window;
  counts = [];
  cleanup_at = now + window;
}

-- now.Sub(count.startTime) > r.window
unfoldable pub expired : ℕ → ℕ → SenderCount → Bool
expired now window c = ltb window (now - c.start_time)

unfoldable pub drop_expired : ℕ → ℕ → List (Bytes × SenderCount) → List (Bytes × SenderCount)
unfolding expired
drop_expired now window [] = []
drop_expired now window ((k, c) ∷ cs) =
    let rest = drop_expired now window cs in if expired now window c then rest else (k, c) ∷ rest

unfoldable pub cleanup : ℕ → RateLimiter → RateLimiter
unfolding drop_expired
cleanup now r =
    if ltb now r.cleanup_at
    then r
    else record r { counts = drop_expired now r.window r.counts; cleanup_at = now + r.window }

abbrev pub exceeded : Error
exceeded =
    smtp (record { code = 450; enh_code = codes "4.7.1"; message = codes "Rate limit exceeded" })

-- the end of `OnMailFrom`, with the sender's entry
unfoldable pub count_message :
    ℕ → Bytes → Option SenderCount → RateLimiter → Option Error × RateLimiter
unfolding expired
count_message now from none r =
    (none, record r { counts = (from, record { count = 1; start_time = now }) ∷ r.counts })
count_message now from (some c) r =
    if expired now r.window c
    then (
      none,
      record r { counts = update from (λ e. record { count = 1; start_time = now }) r.counts },
    )
    else if leb r.limit c.count
    then (some exceeded, r)
    else (
      none,
      record r {
        counts = update from (λ (e : SenderCount). record e { count = suc e.count }) r.counts;
      },
    )

unfoldable pub on_mail_from : ℕ → Bytes → RateLimiter → Option Error × RateLimiter
unfolding cleanup count_message
on_mail_from now from r =
    let r' = cleanup now r in count_message now from (lookup from r'.counts) r'
