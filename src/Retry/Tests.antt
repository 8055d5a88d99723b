-- ===== src/Retry/Tests.antt =====
-- A worker that takes three messages, and the theorems about workers at concrete inputs.
use smtpd.Prelude.{
  ℕ, suc, ◌+◌, ◌≤◌, ◌≡◌, refl, true, [], ◌∷◌, pos, negsuc, to_int64, ltb, ◌==◌, arith,
  if◌then◌else◌,
}
use smtpd.Text.{codes, to_lower, contains}
use smtpd.Retry.{base_retry_delay, max_retry_delay, calculate_retry_delay, is_perm_failure}
use smtpd.Message.{Message}
use smtpd.Retry.Worker.{
  message, success, refusal, Environment, delivered, permanent, Worker, retried, round, process,
}
use smtpd.Retry.Backoff.{calculate_retry_delay_doubles, calculate_retry_delay_wraps, retried_waits}
use smtpd.Retry.Fates.{Accounts, process-Accounts}

abbrev letter : ℕ → Message
letter n = record {
  id = n ∷ [];
  sender = [];
  recipients = [];
  content = [];
  created_at = 0;
  retry_count = n;
  next_attempt_at = 0;
}

-- the world counts the operations; the context ends after eleven of them
abbrev env : Environment ℕ
env = record {
  dequeue = λ w. (message (letter w), suc w);
  requeue = λ m w. (true, suc w);
  deliver = λ m w. (if m.retry_count == 1 then success else refusal (codes "550 Permanent"), suc w);
  now = λ w. (w, suc w);
  done = λ w. (ltb 11 w, suc w);
}

abbrev idle : Worker ℕ
idle = record { world = 0; taken = []; fates = [] }

process_runs :
    (process env 10 idle).1.fates
    ≡ delivered (letter 1)
      ∷ permanent (letter 6) (codes "550 Permanent")
      ∷ permanent (letter 11) (codes "550 Permanent")
      ∷ []
unfolding process round codes is_perm_failure to_lower contains
process_runs = refl

process-Accounts_example : Accounts env (process env 10 idle).1.taken (process env 10 idle).1.fates
process-Accounts_example = process-Accounts env 10 idle tt

calculate_retry_delay_doubles_example : calculate_retry_delay 4 ≡ pos 480_000_000_000
calculate_retry_delay_doubles_example = calculate_retry_delay_doubles 3 (omega arith)

calculate_retry_delay_wraps_example : calculate_retry_delay (suc (53 + 7)) ≡ pos 0
calculate_retry_delay_wraps_example = calculate_retry_delay_wraps 7

-- 2 ^ 28 minutes do not fit: the 29th delay is negative
calculate_retry_delay_negative : calculate_retry_delay 29 ≡ negsuc 2_340_616_713_709_551_615
unfolding calculate_retry_delay to_int64
calculate_retry_delay_negative = refl

retried_waits_example :
    (100 + base_retry_delay ≤ (retried 100 (letter 2)).next_attempt_at)
    × ((retried 100 (letter 2)).next_attempt_at ≤ 100 + max_retry_delay)
retried_waits_example = retried_waits 100 (letter 2) (omega arith)
