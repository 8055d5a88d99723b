-- ===== src/RateLimit/Tests.antt =====
-- A sender at its limit, and the theorem on the quota at a concrete input.
use smtpd.Prelude.{◌≤◌, ◌≡◌, refl, [], ◌∷◌, List, arith}
use smtpd.Text.{Bytes}
use smtpd.Table.{lookup}
use smtpd.RateLimit.{SenderCount, RateLimiter, new_rate_limiter, on_mail_from}
use smtpd.RateLimit.Quota.{Request, accepted, accepted_bounded}

abbrev alice : Bytes
alice = b'a' ∷ []

abbrev bob : Bytes
bob = b'b' ∷ []

abbrev first : SenderCount
first = record { count = 1; start_time = 5 }

abbrev started : RateLimiter
started = record { limit = 2; window = 100; counts = []; cleanup_at = 50 }

abbrev requests : List Request
requests = (20, alice) ∷ (60, bob) ∷ (70, alice) ∷ (105, alice) ∷ []

first_message : (on_mail_from 5 alice (new_rate_limiter 0 2 100)).1.counts ≡ (alice, first) ∷ []
unfolding new_rate_limiter on_mail_from lookup
first_message = refl

accepted_bounded_example : accepted alice ((5, alice) ∷ requests) started ≤ 2
accepted_bounded_example =
    accepted_bounded alice 5 requests started (unfold lookup in refl)
      (omega arith, (omega arith, (omega arith, (omega arith, tt))))
