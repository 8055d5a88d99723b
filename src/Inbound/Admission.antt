-- ===== src/Inbound/Admission.antt =====
-- pkg/inbound/server.go: the accept loop of `Serve`, which admits or rejects each connection, and
-- the end of a connection. Both run under the server's locks, so each is one step.
pub mod Bounds
pub mod Counting
pub mod Peers
use smtpd.Prelude.{
  ℕ, suc, ◌+◌, ◌-◌, Bool, true, false, not, ◌&&◌, Option, none, some, List, [], ◌∷◌, length, ltb,
  leb, ◌==◌, if◌then◌else◌,
}
use smtpd.Text.{Bytes, bytes_eq}
use smtpd.Table.{lookup, update}
use smtpd.Inbound.Limits.{Limits}

pub record Peer : Type 0 where
  pub active : ℕ
  pub attempts : ℕ
  pub window : ℕ  -- when the minute of its attempts began

-- `peers`, by address, and how many connections `conns` holds
pub record Admission : Type 0 where
  pub peers : List (Bytes × Peer)
  pub conns : ℕ

-- nanoseconds
abbrev pub minute : ℕ
minute = 60_000_000_000

-- now.Sub(p.window) >= time.Minute
unfoldable pub is_over : ℕ → Peer → Bool
is_over now p = leb (p.window + minute) now

-- the entries without a connection whose minute is over are deleted
unfoldable pub sweep : ℕ → List (Bytes × Peer) → List (Bytes × Peer)
sweep now [] = []
sweep now ((k, p) ∷ ps) =
    let rest = sweep now ps in if p.active == 0 && is_over now p then rest else (k, p) ∷ rest

-- a new minute, where the last one is over
unfoldable pub roll : ℕ → Peer → Peer
roll now p = if is_over now p then record p { attempts = 0; window = now } else p

unfoldable pub admit : Peer → Peer
admit p = record p { active = p.active + 1; attempts = p.attempts + 1 }

module _ (limits : Limits ℕ) where
  -- the entry of an address that has none is made, if there is room for it
  unfoldable pub track : Bytes → ℕ → List (Bytes × Peer) → List (Bytes × Peer)
  track host now ps = elim (lookup host ps) [
    | some p ↦ ps
    | none ↦
        if ltb (length ps) limits.max_tracked_ips
        then (host, record { active = 0; attempts = 0; window = now }) ∷ ps
        else ps
  ]

  unfoldable pub may_connect : Admission → Bool → Option Peer → Bool
  may_connect a cancelled none = false
  may_connect a cancelled (some p) =
      ltb a.conns limits.max_connections
      && (ltb p.active limits.max_connections_per_ip
          && (ltb p.attempts limits.connections_per_minute && not cancelled))

  -- a connection from `host` at the time `now`; `cancelled` is ctx.Err() != nil
  unfoldable pub arrive : Bytes → ℕ → Bool → Admission → Bool × Admission
  unfolding sweep track may_connect
  arrive host now cancelled a =
      let ps = update host (roll now) (track host now (sweep now a.peers)) in
      if may_connect a cancelled (lookup host ps)
      then (true, record { peers = update host admit ps; conns = a.conns + 1 })
      else (false, record a { peers = ps })

-- the deferred calls of a connection that was admitted
unfoldable pub depart : Bytes → Admission → Admission
depart host a = record {
  peers = update host (λ p. record p { active = p.active - 1 }) a.peers;
  conns = a.conns - 1;
}
