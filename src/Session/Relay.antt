-- ===== src/Session/Relay.antt =====
-- session.go, relay control: what an unauthenticated session can put into the queue.
use smtpd.Prelude.{ℕ, ◌≡◌, inl, inr, refl, true, false, [], ◌∷◌, All, All-append}
use smtpd.Text.{Bytes}
use smtpd.Session.State.{Message, Core, Session, Config, reset_transaction_state}
use smtpd.Session.Envelope.{is_local_recipient}
use smtpd.Session.Loop.{handle}
use smtpd.Session.Moves.{
  Move, Accepted, MayRelay, stay, greet, rset, clear, begin, add, enqueue, mint, discard, grant,
  upgrade, Moves-keep,
}
use smtpd.Session.Moves.Loop.{handle-Moves}

module _ {W : Type 0} (cfg : Config W) where
  abbrev pub IsLocal : Bytes → Type 0
  IsLocal r = is_local_recipient cfg.local_domains r ≡ true

  -- not authenticated, and nothing but local recipients so far
  pub record IsClosedRelay (c : Core) : Type 0 where
    pub anonymous : c.auth ≡ false
    pub recipients : All IsLocal c.recipients
    pub queued : All (λ (m : Message). All IsLocal m.recipients) c.queued

  IsLocal-of : (c : Core) (r : Bytes) → c.auth ≡ false → MayRelay cfg c r → IsLocal r
  IsLocal-of c r a (inl p) = cc
  IsLocal-of c r a (inr q) = q

  Move-IsClosedRelay :
      ¬ Accepted cfg → (c d : Core) → Move cfg c d → IsClosedRelay c → IsClosedRelay d
  unfolding reset_transaction_state
  Move-IsClosedRelay refused c d stay h = h
  Move-IsClosedRelay refused c d (greet x) h = record {
    anonymous = h.anonymous;
    recipients = h.recipients;
    queued = h.queued;
  }
  Move-IsClosedRelay refused c d rset h = record {
    anonymous = h.anonymous;
    recipients = tt;
    queued = h.queued;
  }
  Move-IsClosedRelay refused c d (clear st) h = record {
    anonymous = h.anonymous;
    recipients = tt;
    queued = h.queued;
  }
  Move-IsClosedRelay refused c d (begin x st v) h = record {
    anonymous = h.anonymous;
    recipients = tt;
    queued = h.queued;
  }
  Move-IsClosedRelay refused c d (add r st v relay) h = record {
    anonymous = h.anonymous;
    recipients =
        All-append IsLocal c.recipients (r ∷ []) h.recipients
          (IsLocal-of c r h.anonymous relay, tt);
    queued = h.queued;
  }
  Move-IsClosedRelay refused c d (enqueue x st full fits q) h = record {
    anonymous = h.anonymous;
    recipients = tt;
    queued =
        All-append (λ (m : Message). All IsLocal m.recipients) c.queued _ h.queued
          (h.recipients, tt);
  }
  Move-IsClosedRelay refused c d (mint st) h = record {
    anonymous = h.anonymous;
    recipients = h.recipients;
    queued = h.queued;
  }
  Move-IsClosedRelay refused c d (discard st) h = record {
    anonymous = h.anonymous;
    recipients = tt;
    queued = h.queued;
  }
  Move-IsClosedRelay refused c d (grant st may a) h = absurd (refused a)
  Move-IsClosedRelay refused c d (upgrade t k) h = record {
    anonymous = refl;
    recipients = tt;
    queued = h.queued;
  }

  -- If the user store and the token validator accept nothing, then whatever the client sends and
  -- the plugins answer, a session that began unauthenticated, with local recipients only, stays
  -- unauthenticated, and every recipient of every message that it put into the queue has a local
  -- domain.
  pub handle-IsClosedRelay :
      (fuel : ℕ) (s : Session W)
      → ¬ Accepted cfg
      → IsClosedRelay s.core
      → IsClosedRelay (handle cfg fuel s).1.core
  handle-IsClosedRelay fuel s refused h =
      Moves-keep cfg IsClosedRelay (Move-IsClosedRelay refused) s.core _ (handle-Moves cfg fuel s) h
