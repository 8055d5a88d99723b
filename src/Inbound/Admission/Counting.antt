-- ===== src/Inbound/Admission/Counting.antt =====
-- pkg/inbound/server.go: the counters of `Serve` against the connections that are open.
use smtpd.Prelude.{ℕ, ◌≤◌, ◌≡◌, Bool, true, false, List, [], ◌∷◌, ◌++◌, length}
use smtpd.Text.{Bytes}
use smtpd.Inbound.Limits.{Limits}
use smtpd.Inbound.Admission.{Peer, Admission, arrive, depart}
use smtpd.Inbound.Admission.Bounds.{IsBounded}
use smtpd.Inbound.Admission.Peers.{count, active, IsDistinct}

module _ (limits : Limits ℕ) where
  -- a table that a new entry without connections may have been added to
  record IsTracked (ps qs : List (Bytes × Peer)) : Type 0 where
    distinct : IsDistinct qs
    same : (h : Bytes) → active h qs ≡ active h ps

  -- what the counters are to the connections that are open
  record IsCounted (live : List Bytes) (a : Admission) : Type 0 where
    bounded : IsBounded limits a
    distinct : IsDistinct a.peers
    all : length live ≡ a.conns
    each : (h : Bytes) → count h live ≡ active h a.peers

  -- `Reaches live a`: from a server without connections, arrivals and departures in any order lead to
  -- the counters `a`, with a connection open for each address of `live`
  pub data Reaches : List Bytes → Admission → Type 0 where
    no_one : Reaches [] (record { peers = []; conns = 0 })
    came :
        {live : List Bytes} {a : Admission} (host : Bytes) (now : ℕ) (cancelled : Bool)
        → Reaches live a
        → (arrive limits host now cancelled a).0 ≡ true
        → Reaches (host ∷ live) (arrive limits host now cancelled a).1
    sent_away :
        {live : List Bytes} {a : Admission} (host : Bytes) (now : ℕ) (cancelled : Bool)
        → Reaches live a
        → (arrive limits host now cancelled a).0 ≡ false
        → Reaches live (arrive limits host now cancelled a).1
    left :
        {a : Admission} (xs ys : List Bytes) (host : Bytes)
        → Reaches (xs ++ host ∷ ys) a
        → Reaches (xs ++ ys) (depart host a)

  pub record IsWithin (live : List Bytes) (a : Admission) : Type 0 where
    pub all : length live ≡ a.conns
    pub room : length live ≤ limits.max_connections
    pub each : (h : Bytes) → count h live ≡ active h a.peers
    pub share : (h : Bytes) → count h live ≤ limits.max_connections_per_ip
    pub tracked : length a.peers ≤ limits.max_tracked_ips
