-- ===== src/Inbound/Limits.antt =====
-- pkg/inbound/server.go: `Config` and the checks and defaults of `New`.
use mathlib.Core.Path.{subst}
use mathlib.Core.Option.{some-injective}
use smtpd.Prelude.{
  ℤ, pos, negsuc, ℕ, zero, suc, ◌*◌, ◌^◌, ◌<◌, ◌≡◌, ◌⊎◌, inl, inr, refl, Bool, true, false, not,
  ◌||◌, Option, none, some, arith, if◌then◌else◌,
}
use smtpd.Text.{Bytes}
use smtpd.Inbound.Address.{valid_host}

-- The limits of `Config`, as the caller gives them and as the server runs with them.
pub record Limits (N : Type 0) : Type 0 where
  pub max_message_bytes : N
  pub max_recipients : N
  pub max_connections : N
  pub max_data : N
  pub max_connections_per_ip : N
  pub connections_per_minute : N
  pub max_tracked_ips : N
  pub idle_timeout : N
  pub transaction_timeout : N

-- nanoseconds, time.Duration's unit
abbrev second : ℕ
second = 1_000_000_000

infixl 5 ◌>>=◌
abbrev ◌>>=◌ : {A B : Type 0} → Option A → (A → Option B) → Option B
none >>= f = none
some a >>= f = f a

-- none for a negative limit, the default for 0
unfoldable pub limit_or : ℕ → ℤ → Option ℕ
limit_or default (negsuc n) = none
limit_or default (pos zero) = some default
limit_or default (pos (suc n)) = some (suc n)

unfoldable pub apply_defaults : Limits ℤ → Option (Limits ℕ)
unfolding limit_or
apply_defaults c = do
  bytes ← limit_or (25 * 2 ^ 20) c.max_message_bytes
  recipients ← limit_or 100 c.max_recipients
  connections ← limit_or 100 c.max_connections
  slots ← limit_or 10 c.max_data
  per_ip ← limit_or 10 c.max_connections_per_ip
  per_minute ← limit_or 60 c.connections_per_minute
  tracked ← limit_or 10000 c.max_tracked_ips
  idle ← limit_or (60 * second) c.idle_timeout
  transaction ← limit_or (5 * 60 * second) c.transaction_timeout
  some (record {
    max_message_bytes = bytes;
    max_recipients = recipients;
    max_connections = connections;
    max_data = slots;
    max_connections_per_ip = per_ip;
    connections_per_minute = per_minute;
    max_tracked_ips = tracked;
    idle_timeout = idle;
    transaction_timeout = transaction;
  })

-- `New`, with the limits of the server that it makes; none is its error
unfoldable pub new : (Bytes → Bool) → Bool → Bytes → Limits ℤ → Option (Limits ℕ)
unfolding apply_defaults
new parse_ip has_backend hostname c =
    if not has_backend || not (valid_host parse_ip hostname) then none else apply_defaults c

-- what a limit that was given as `n` becomes: it stays, or is the default where it was 0
abbrev pub IsResolved : ℕ → ℤ → ℕ → Type 0
IsResolved default n m = ((n ≡ pos m) × (0 < m)) ⊎ ((n ≡ pos 0) × (m ≡ default))

-- the limits of a server, against those that its caller gave; the times are in nanoseconds
pub record IsConfigured (c : Limits ℤ) (l : Limits ℕ) : Type 0 where
  pub max_message_bytes : IsResolved 26_214_400 c.max_message_bytes l.max_message_bytes
  pub max_recipients : IsResolved 100 c.max_recipients l.max_recipients
  pub max_connections : IsResolved 100 c.max_connections l.max_connections
  pub max_data : IsResolved 10 c.max_data l.max_data
  pub max_connections_per_ip : IsResolved 10 c.max_connections_per_ip l.max_connections_per_ip
  pub connections_per_minute : IsResolved 60 c.connections_per_minute l.connections_per_minute
  pub max_tracked_ips : IsResolved 10_000 c.max_tracked_ips l.max_tracked_ips
  pub idle_timeout : IsResolved 60_000_000_000 c.idle_timeout l.idle_timeout
  pub transaction_timeout : IsResolved 300_000_000_000 c.transaction_timeout l.transaction_timeout

-- what holds of the value, if there is one
Holds : {A : Type 0} → (A → Type 0) → Option A → Type 0
Holds P none = Unit
Holds P (some a) = P a

resolved :
    {B : Type 0} (P : B → Type 0) (default : ℕ) (n : ℤ) (f : ℕ → Option B)
    → ((m : ℕ) → IsResolved default n m → Holds P (f m))
    → Holds P (limit_or default n >>= f)
unfolding Holds limit_or
resolved P default (negsuc n) f h = tt
resolved P default (pos zero) f h = h default (inr (refl, refl))
resolved P default (pos (suc n)) f h = h (suc n) (inl (refl, omega arith))

apply_defaults-IsConfigured : (c : Limits ℤ) → Holds (IsConfigured c) (apply_defaults c)
unfolding apply_defaults Holds
apply_defaults-IsConfigured c = resolved (IsConfigured c) _ c.max_message_bytes _ λ m1 h1.
    resolved (IsConfigured c) _ c.max_recipients _ λ m2 h2.
      resolved (IsConfigured c) _ c.max_connections _ λ m3 h3.
        resolved (IsConfigured c) _ c.max_data _ λ m4 h4.
          resolved (IsConfigured c) _ c.max_connections_per_ip _ λ m5 h5.
            resolved (IsConfigured c) _ c.connections_per_minute _ λ m6 h6.
              resolved (IsConfigured c) _ c.max_tracked_ips _ λ m7 h7.
                resolved (IsConfigured c) _ c.idle_timeout _ λ m8 h8.
                  resolved (IsConfigured c) _ c.transaction_timeout _ λ m9 h9. record {
                    max_message_bytes = h1;
                    max_recipients = h2;
                    max_connections = h3;
                    max_data = h4;
                    max_connections_per_ip = h5;
                    connections_per_minute = h6;
                    max_tracked_ips = h7;
                    idle_timeout = h8;
                    transaction_timeout = h9;
                  }

-- A server that `New` makes has a backend and a valid host name, and each of its nine limits is the
-- one that the caller gave, which was at least 1, or, where the caller gave 0, its default: 25 MiB,
-- 100 recipients, 100 connections, 10 DATA slots, 10 connections of an address and 60 in a minute,
-- 10000 addresses, 60 seconds and 5 minutes. With a negative limit `New` makes none.
pub new-IsConfigured :
    (parse_ip : Bytes → Bool) (has_backend : Bool) (hostname : Bytes) (c : Limits ℤ) (l : Limits ℕ)
    → new parse_ip has_backend hostname c ≡ some l
    → (has_backend ≡ true) × (valid_host parse_ip hostname ≡ true) × IsConfigured c l
unfolding new Holds
new-IsConfigured parse_ip has_backend hostname c l h =
    made (not has_backend || not (valid_host parse_ip hostname)) refl (apply_defaults c)
      (apply_defaults-IsConfigured c) h
  where
    made :
        (b : Bool)
        → (not has_backend || not (valid_host parse_ip hostname)) ≡ b
        → (o : Option (Limits ℕ)) → Holds (IsConfigured c) o
        → (if b then none else o) ≡ some l
        → (has_backend ≡ true) × (valid_host parse_ip hostname ≡ true) × IsConfigured c l
    made true e o ho h = cc
    made false e none ho h = cc
    made false e (some m) ho h =
        (ground arith, ground arith, subst (IsConfigured c) (some-injective m l h) ho)
