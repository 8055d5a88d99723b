-- ===== src/Security/Bucket.antt =====
-- internal/security/security.go: `RateLimiter`, a bucket of tokens. The tokens that a time is worth,
-- a product of floats, are an argument; a count that is negative is like 0.
use smtpd.Prelude.{
  ℕ, suc, ◌+◌, ◌-◌, ◌≤◌, Bool, true, false, List, [], ◌∷◌, ltb, arith, Bool-cases, inl, inr,
  if◌then◌else◌,
}

pub record RateLimiter : Type 0 where
  pub rate : ℕ
  pub burst : ℕ
  pub tokens : ℕ
  pub last_update : ℕ

unfoldable pub new_rate_limiter : ℕ → ℕ → ℕ → RateLimiter
new_rate_limiter now rate burst = record {
  rate = rate;
  burst = burst;
  tokens = burst;
  last_update = now;
}

unfoldable pub min : ℕ → ℕ → ℕ
min a b = if ltb a b then a else b

-- the tokens that are due at `now`
unfoldable pub refill : ℕ → ℕ → RateLimiter → RateLimiter
unfolding min
refill now to_add rl =
    if ltb 0 to_add
    then record rl { tokens = min (rl.tokens + to_add) rl.burst; last_update = now }
    else rl

-- `Allow`; `worth` is what the time since a moment is worth
unfoldable pub allow : (ℕ → ℕ → ℕ) → ℕ → RateLimiter → Bool × RateLimiter
unfolding refill
allow worth now rl =
    let r = refill now (worth (now - rl.last_update) rl.rate) rl in
    if ltb 0 r.tokens then (true, record r { tokens = r.tokens - 1 }) else (false, r)

-- how many of the calls at the given times are allowed, and the limiter after them
unfoldable pub run : (ℕ → ℕ → ℕ) → List ℕ → RateLimiter → ℕ × RateLimiter
unfolding allow
run worth [] rl = (0, rl)
run worth (now ∷ times) rl =
    let (ok, rl') = allow worth now rl in
    let (count, rl'') = run worth times rl' in (if ok then suc count else count, rl'')

-- the tokens that the calls add
unfoldable pub added : (ℕ → ℕ → ℕ) → List ℕ → RateLimiter → ℕ
unfolding allow
added worth [] rl = 0
added worth (now ∷ times) rl =
    worth (now - rl.last_update) rl.rate + added worth times (allow worth now rl).1

refill_adds : (now n : ℕ) (rl : RateLimiter) → (refill now n rl).tokens ≤ rl.tokens + n
unfolding refill min
refill_adds now n rl = ground arith

-- one call takes a token when it is allowed
allow_takes :
    (worth : ℕ → ℕ → ℕ) (now : ℕ) (rl : RateLimiter)
    → (if (allow worth now rl).0 then 1 else 0) + (allow worth now rl).1.tokens
      ≤ rl.tokens + worth (now - rl.last_update) rl.rate
unfolding allow
allow_takes worth now rl =
    let n = worth (now - rl.last_update) rl.rate in
    let more = refill_adds now n rl in
    elim (Bool-cases (ltb 0 (refill now n rl).tokens)) [
      | inl e ↦ rw e (ground (arith, more))
      | inr e ↦ rw e (ground (arith, more))
    ]

-- Of any calls, no more are allowed than there were tokens and the time between them was worth.
pub run_bounded :
    (worth : ℕ → ℕ → ℕ) (times : List ℕ) (rl : RateLimiter)
    → (run worth times rl).0 + (run worth times rl).1.tokens ≤ rl.tokens + added worth times rl
unfolding run added
run_bounded worth [] rl = omega arith
run_bounded worth (now ∷ times) rl =
    let one = allow_takes worth now rl in
    let rest = run_bounded worth times (allow worth now rl).1 in
    elim (Bool-cases (allow worth now rl).0) [
      | inl e ↦ rw e (ground (arith, one, rest))
      | inr e ↦ rw e (ground (arith, one, rest))
    ]
