-- ===== src/Session/Moves.antt =====
-- What a session may do, as a step relation on its state: the specification that the handlers of
-- session.go refine.
pub mod Rules
pub mod Envelope
pub mod Data
pub mod Auth
pub mod Loop
use smtpd.Prelude.{
  ℕ, suc, ◌≤◌, ◌≡◌, ◌⊎◌, Bool, true, false, Option, some, [], ◌∷◌, ◌++◌, length, is_empty,
}
use smtpd.Text.{Bytes}
use smtpd.Session.State.{
  SessionState, at_initial, at_mail, at_rcpt, at_data, Message, Core, Config,
  reset_transaction_state,
}
use smtpd.Session.Envelope.{is_valid_email, is_local_recipient}

module _ {W : Type 0} (cfg : Config W) where
  -- the user store or the token validator has said yes
  pub data Accepted : Type 0 where
    password : (u p : Bytes) → cfg.authenticate u p ≡ some true → Accepted
    token :
        (v : Bytes → Option Bytes) (t subject : Bytes)
        → cfg.jwt_validator ≡ some v
        → v t ≡ some subject
        → Accepted

  -- AUTH is not refused for want of encryption
  abbrev pub MayAuth : Core → Type 0
  MayAuth c = (c.tls ≡ true) ⊎ ((cfg.tls_config ≡ false) × (cfg.force_tls ≡ false))

  abbrev pub InEnvelope : SessionState → Type 0
  InEnvelope st = (st ≡ at_rcpt) ⊎ (st ≡ at_data)

  -- who may be written to: anyone once authenticated, else the local domains
  abbrev pub MayRelay : Core → Bytes → Type 0
  MayRelay c r = (c.auth ≡ true) ⊎ (is_local_recipient cfg.local_domains r ≡ true)

  abbrev pub made : Core → Bytes → Message
  made c content = record {
    id = cfg.new_id c.minted;
    sender = c.sender;
    recipients = c.recipients;
    content = content;
  }

  pub data Move (c : Core) : Core → Type 0 where
    stay : Move c c
    greet : (domain : Bytes) → Move c (record c { helo = domain; state = at_mail })
    rset : Move c (reset_transaction_state (record c { state = at_mail }))
    clear : c.state ≡ at_mail → Move c (reset_transaction_state c)
    begin :
        (sender : Bytes)
        → c.state ≡ at_mail
        → is_valid_email sender ≡ true
        → Move c (record (reset_transaction_state c) {
          sender = sender;
          state = at_rcpt;
          ctx_sender = some sender;
        })
    add :
        (recipient : Bytes)
        → InEnvelope c.state
        → is_valid_email recipient ≡ true
        → MayRelay c recipient
        → Move c (record c { recipients = c.recipients ++ recipient ∷ []; state = at_data })
    enqueue :
        (content : Bytes)
        → c.state ≡ at_data
        → is_empty c.recipients ≡ false
        → length content ≤ cfg.max_message_size
        → cfg.enqueue (made c content) ≡ true
        → Move c (
            reset_transaction_state (record c {
              minted = suc c.minted;
              state = at_mail;
              queued = c.queued ++ made c content ∷ [];
            }))
    mint : c.state ≡ at_data → Move c (record c { minted = suc c.minted })
    discard : c.state ≡ at_data → Move c (reset_transaction_state (record c { state = at_mail }))
    grant : c.state ≡ at_mail → MayAuth c → Accepted → Move c (record c { auth = true })
    upgrade :
        c.tls ≡ false
        → cfg.tls_config ≡ true
        → Move c (record (reset_transaction_state c) {
          tls = true;
          state = at_initial;
          helo = [];
          auth = false;
        })

  -- moves one after the other
  pub data Moves (c : Core) : Core → Type 0 where
    here : Moves c c
    more : {d e : Core} → Moves c d → Move d e → Moves c e

  -- a predicate that every move keeps holds after all of them
  pub Moves-keep :
      (P : Core → Type 0)
      → ((c d : Core) → Move c d → P c → P d)
      → (c d : Core) → Moves c d
      → P c
      → P d
  Moves-keep P keep c d here h = h
  Moves-keep P keep c e (more {d} ms m) h = keep d e m (Moves-keep P keep c d ms h)

  pub Moves-append : {c d e : Core} → Moves c d → Moves d e → Moves c e
  Moves-append ms here = ms
  Moves-append ms (more ns m) = more (Moves-append ms ns) m
