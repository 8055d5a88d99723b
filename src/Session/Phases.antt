-- ===== src/Session/Phases.antt =====
-- session.go: what the state of a session says about its envelope, and what reaches the queue.
use smtpd.Prelude.{
  ℕ, ◌≤◌, ◌≡◌, ◌⊎◌, inl, inr, refl, true, false, some, List, [], ◌∷◌, ◌++◌, length, is_empty, All,
  All-append, arith,
}
use smtpd.Text.{Bytes}
use smtpd.Session.State.{
  SessionState, at_initial, at_mail, at_rcpt, at_data, Message, Core, Session, Config,
  reset_transaction_state,
}
use smtpd.Session.Envelope.{is_valid_email}
use smtpd.Session.Loop.{handle}
use smtpd.Session.Moves.{
  Move, InEnvelope, stay, greet, rset, clear, begin, add, enqueue, mint, discard, grant, upgrade,
  Moves-keep,
}
use smtpd.Session.Moves.Loop.{handle-Moves}

abbrev pub IsValidAddress : Bytes → Type 0
IsValidAddress a = is_valid_email a ≡ true

module _ {W : Type 0} (cfg : Config W) where
  -- a message that may be in the queue
  pub record IsDeliverable (m : Message) : Type 0 where
    pub sender : IsValidAddress m.sender
    pub some_recipient : is_empty m.recipients ≡ false
    pub recipients : All IsValidAddress m.recipients
    pub size : length m.content ≤ cfg.max_message_size

  pub record IsPhased (c : Core) : Type 0 where
    pub sender : InEnvelope cfg c.state → IsValidAddress c.sender
    pub known : InEnvelope cfg c.state → c.ctx_sender ≡ some c.sender
    pub first : c.state ≡ at_rcpt → c.recipients ≡ []
    pub later : c.state ≡ at_data → is_empty c.recipients ≡ false
    pub recipients : All IsValidAddress c.recipients
    pub queued : All IsDeliverable c.queued

  outside : (st : SessionState) → (st ≡ at_mail) ⊎ (st ≡ at_initial) → ¬ InEnvelope cfg st
  outside st h e = ground arith

  non_empty : (rs : List Bytes) (r : Bytes) → is_empty (rs ++ r ∷ []) ≡ false
  non_empty [] r = refl
  non_empty (x ∷ rs) r = refl

  -- no envelope is open in the state `at_mail` or in the state of a new connection
  idle :
      (c : Core)
      → (InEnvelope cfg c.state → ⊥)
      → All IsValidAddress c.recipients
      → All IsDeliverable c.queued
      → IsPhased c
  idle c out rs q = record {
    sender = λ e. absurd (out e);
    known = λ e. absurd (out e);
    first = λ e. absurd (out (inl e));
    later = λ e. absurd (out (inr e));
    recipients = rs;
    queued = q;
  }

  deliverable :
      (c : Core) (id content : Bytes)
      → IsPhased c
      → c.state ≡ at_data
      → length content ≤ cfg.max_message_size
      → IsDeliverable
          (record { id = id; sender = c.sender; recipients = c.recipients; content = content })
  deliverable c id content h st fits = record {
    sender = h.sender (inr st);
    some_recipient = h.later st;
    recipients = h.recipients;
    size = fits;
  }

  Move-IsPhased : (c d : Core) → Move cfg c d → IsPhased c → IsPhased d
  unfolding reset_transaction_state
  Move-IsPhased c d stay h = h
  Move-IsPhased c d (greet x) h = idle _ (outside at_mail (inl refl)) h.recipients h.queued
  Move-IsPhased c d rset h = idle _ (outside at_mail (inl refl)) tt h.queued
  Move-IsPhased c d (clear st) h = idle _ (outside c.state (inl st)) tt h.queued
  Move-IsPhased c d (begin x st v) h = record {
    sender = λ e. v;
    known = λ e. refl;
    first = λ e. refl;
    later = λ e. cc;
    recipients = tt;
    queued = h.queued;
  }
  Move-IsPhased c d (add r st v relay) h = record {
    sender = λ e. h.sender st;
    known = λ e. h.known st;
    first = λ e. cc;
    later = λ e. non_empty c.recipients r;
    recipients = All-append IsValidAddress c.recipients (r ∷ []) h.recipients (v, tt);
    queued = h.queued;
  }
  Move-IsPhased c d (enqueue x st full fits q) h = idle _ (outside at_mail (inl refl)) tt (
      All-append IsDeliverable c.queued _ h.queued
        (deliverable c (cfg.new_id c.minted) x h st fits, tt))
  Move-IsPhased c d (mint st) h = record {
    sender = h.sender;
    known = h.known;
    first = h.first;
    later = h.later;
    recipients = h.recipients;
    queued = h.queued;
  }
  Move-IsPhased c d (discard st) h = idle _ (outside at_mail (inl refl)) tt h.queued
  Move-IsPhased c d (grant st may a) h = record {
    sender = h.sender;
    known = h.known;
    first = h.first;
    later = h.later;
    recipients = h.recipients;
    queued = h.queued;
  }
  Move-IsPhased c d (upgrade t k) h = idle _ (outside at_initial (inr refl)) tt h.queued

  -- Whatever the client sends, a session keeps its envelope in step with its state: an open envelope
  -- has a valid sender, which the context also names; there is no recipient before the first RCPT
  -- and at least one before DATA; every recipient is valid; and every message in its queue has a
  -- valid sender, at least one recipient, valid recipients only, and content within the size limit.
  pub handle-IsPhased :
      (fuel : ℕ) (s : Session W) → IsPhased s.core → IsPhased (handle cfg fuel s).1.core
  handle-IsPhased fuel s h =
      Moves-keep cfg IsPhased Move-IsPhased s.core _ (handle-Moves cfg fuel s) h
