-- ===== src/Inbound/Admission/Bounds.antt =====
-- pkg/inbound/server.go: the limits on the counters of `Serve`.
use smtpd.Prelude.{
  ℕ, ◌-◌, ◌≤◌, ◌<◌, ◌≡◌, refl, Bool, true, ◌&&◌, Option, none, some, List, [], ◌∷◌, length, ltb,
  ◌==◌, arith, Bool-cases, inl, inr, if◌then◌else◌,
}
use smtpd.Text.{Bytes, bytes_eq}
use smtpd.Table.{lookup, update}
use smtpd.Inbound.Limits.{Limits}
use smtpd.Inbound.Admission.{
  Peer, Admission, is_over, sweep, roll, admit, track, may_connect, arrive, depart,
}

length-sweep : (now : ℕ) (ps : List (Bytes × Peer)) → length (sweep now ps) ≤ length ps
unfolding sweep
length-sweep now [] = omega arith
length-sweep now ((k, p) ∷ ps) = ground (arith, length-sweep now ps)

length-update :
    (k : Bytes) (f : Peer → Peer) (ps : List (Bytes × Peer)) → length (update k f ps) ≡ length ps
unfolding update
length-update k f [] = refl
length-update k f ((j, p) ∷ ps) = ground (arith, length-update k f ps)

module _ (limits : Limits ℕ) where
  -- what one entry of the table is held to
  abbrev pub InBounds : Peer → Type 0
  InBounds p =
      (p.active ≤ limits.max_connections_per_ip) × (p.attempts ≤ limits.connections_per_minute)

  abbrev pub AllInBounds : List (Bytes × Peer) → Type 0
  AllInBounds [] = Unit {0}
  AllInBounds ((k, p) ∷ ps) = InBounds p × AllInBounds ps

  pub record IsBounded (a : Admission) : Type 0 where
    pub peers : AllInBounds a.peers
    pub tracked : length a.peers ≤ limits.max_tracked_ips
    pub conns : a.conns ≤ limits.max_connections

  sweep-AllInBounds :
      (now : ℕ) (ps : List (Bytes × Peer)) → AllInBounds ps → AllInBounds (sweep now ps)
  unfolding sweep
  sweep-AllInBounds now [] h = tt
  sweep-AllInBounds now ((k, p) ∷ ps) h = elim (Bool-cases (p.active == 0 && is_over now p)) [
    | inl e ↦ rw e (sweep-AllInBounds now ps h.1)
    | inr e ↦ rw e (h.0, sweep-AllInBounds now ps h.1)
  ]

  track-AllInBounds :
      (host : Bytes) (now : ℕ) (ps : List (Bytes × Peer))
      → AllInBounds ps
      → AllInBounds (track limits host now ps)
  unfolding track
  track-AllInBounds host now ps h = made (lookup host ps)
    where
      made :
          (o : Option Peer)
          → AllInBounds (elim o [
            | some p ↦ ps
            | none ↦
                if ltb (length ps) limits.max_tracked_ips
                then (host, record { active = 0; attempts = 0; window = now }) ∷ ps
                else ps
          ])
      made (some p) = h
      made none = elim (Bool-cases (ltb (length ps) limits.max_tracked_ips)) [
        | inl e ↦ rw e ((omega arith, omega arith), h)
        | inr e ↦ rw e h
      ]

  length-track :
      (host : Bytes) (now : ℕ) (ps : List (Bytes × Peer))
      → length ps ≤ limits.max_tracked_ips
      → length (track limits host now ps) ≤ limits.max_tracked_ips
  unfolding track
  length-track host now ps h = ground arith

  update-AllInBounds :
      (k : Bytes) (f : Peer → Peer) (ps : List (Bytes × Peer))
      → ((p : Peer) → lookup k ps ≡ some p → InBounds p → InBounds (f p))
      → AllInBounds ps
      → AllInBounds (update k f ps)
  unfolding update lookup
  update-AllInBounds k f [] hf h = tt
  update-AllInBounds k f ((j, p) ∷ ps) hf h = elim (Bool-cases (bytes_eq j k)) [
    | inl e ↦ rw e (hf p (rw e) h.0, h.1)
    | inr e ↦ rw e (h.0, update-AllInBounds k f ps (λ q m b. hf q (rw e m) b) h.1)
  ]

  roll-InBounds : (now : ℕ) (p : Peer) → InBounds p → InBounds (roll now p)
  unfolding roll
  roll-InBounds now p h = ground arith

  pub may_connect-room :
      (a : Admission) (cancelled : Bool) (o : Option Peer) (p : Peer)
      → may_connect limits a cancelled o ≡ true
      → o ≡ some p
      → (a.conns < limits.max_connections)
        × (p.active < limits.max_connections_per_ip)
        × (p.attempts < limits.connections_per_minute)
  unfolding may_connect
  may_connect-room a cancelled o p h e = ground arith

  may_connect-conns :
      (a : Admission) (cancelled : Bool) (o : Option Peer)
      → may_connect limits a cancelled o ≡ true
      → a.conns < limits.max_connections
  unfolding may_connect
  may_connect-conns a cancelled none h = cc
  may_connect-conns a cancelled (some p) h = ground arith

  abbrev pub table : Bytes → ℕ → Admission → List (Bytes × Peer)
  table host now a = update host (roll now) (track limits host now (sweep now a.peers))

  table-AllInBounds :
      (host : Bytes) (now : ℕ) (a : Admission) → IsBounded a → AllInBounds (table host now a)
  table-AllInBounds host now a h =
      update-AllInBounds host (roll now) _ (λ p _ b. roll-InBounds now p b)
        (track-AllInBounds host now _ (sweep-AllInBounds now a.peers h.peers))

  length-table :
      (host : Bytes) (now : ℕ) (a : Admission)
      → IsBounded a
      → length (table host now a) ≤ limits.max_tracked_ips
  length-table host now a h =
      let swept : length (sweep now a.peers) ≤ limits.max_tracked_ips =
        omega (arith, length-sweep now a.peers, h.tracked) in
      omega (
        arith,
        length-update host (roll now) (track limits host now (sweep now a.peers)),
        length-track host now (sweep now a.peers) swept,
      )

  pub arrive-IsBounded :
      (host : Bytes) (now : ℕ) (cancelled : Bool) (a : Admission)
      → IsBounded a
      → IsBounded (arrive limits host now cancelled a).1
  unfolding arrive admit
  arrive-IsBounded host now cancelled a h =
      let ps = table host now a in
      let within = table-AllInBounds host now a h in
      let fits = length-table host now a h in
      elim (Bool-cases (may_connect limits a cancelled (lookup host ps))) [
        | inr e ↦ rw e (record { peers = within; tracked = fits; conns = h.conns })
        | inl e ↦ rw e (record {
          peers =
              update-AllInBounds host admit ps
                (λ p m b. omega (arith, may_connect-room a cancelled _ p e m)) within;
          tracked = omega (arith, length-update host admit ps, fits);
          conns = omega (arith, may_connect-conns a cancelled _ e);
        })
      ]

  pub depart-IsBounded : (host : Bytes) (a : Admission) → IsBounded a → IsBounded (depart host a)
  unfolding depart
  depart-IsBounded host a h = record {
    peers = update-AllInBounds host _ a.peers (λ p m b. omega arith) h.peers;
    tracked = omega (
      arith,
      h.tracked,
      length-update host (λ (p : Peer). record p { active = p.active - 1 }) a.peers,
    );
    conns = omega (arith, h.conns);
  }
