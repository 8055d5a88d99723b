-- ===== src/Session/Moves/Envelope.antt =====
-- session.go: the moves of HELO, RSET, STARTTLS, MAIL and RCPT.
use smtpd.Prelude.{◌≡◌, sym, Bool, true, false, not, ◌&&◌, arith}
use mathlib.Core.Path.{subst}
use smtpd.Text.{Bytes, codes, to_upper, has_prefix}
use smtpd.Session.State.{
  SessionState, is_mail, is_rcpt, is_data, at_mail, Core, Session, Config, done,
  reset_transaction_state, write_response, and_then, set_deadline,
}
use smtpd.Session.Helo.{handle_helo, handle_rset, handle_starttls, start_handshake, upgraded}
use smtpd.Session.Envelope.{
  is_local_recipient, address_of, accept_sender, check_sender, handle_mail, accept_recipient,
  check_recipient, handle_rcpt,
}
use smtpd.Session.Moves.{Move, stay, greet, rset, clear, begin, add, upgrade, InEnvelope, MayRelay}
use smtpd.Session.Moves.Rules.{To, To-if, To-write, To-and_then, To-policy_gate}

pub at_mail_of : (st : SessionState) → is_mail st ≡ true → st ≡ at_mail
at_mail_of st h = ground arith

not-not : (b : Bool) → not b ≡ false → b ≡ true
not-not b h = ground arith

module _ {W : Type 0} (cfg : Config W) where
  pub handle_helo-Move :
      (x : Bool) (d : Bytes) (s : Session W) → To cfg s.core (handle_helo cfg x d s)
  unfolding handle_helo write_response
  handle_helo-Move x d s =
      To-if cfg s.core x (λ _. record { move = greet d }) (λ _. record { move = greet d })

  pub handle_rset-Move : (s : Session W) → To cfg s.core (handle_rset cfg s)
  unfolding handle_rset
  handle_rset-Move s = To-write cfg s.core _ _ _ rset

  check_sender-Move :
      (sender : Bytes) (s : Session W)
      → s.state ≡ at_mail
      → To cfg s.core (check_sender cfg sender (record s { core = reset_transaction_state s.core }))
  unfolding check_sender accept_sender
  check_sender-Move sender s st =
      To-if cfg s.core _ (λ _. To-write cfg s.core _ _ _ (clear st))
        λ ok.
          To-policy_gate cfg s.core _ _ _ _ _ (clear st)
            λ w. To-write cfg s.core _ _ _ (begin sender st (not-not _ ok))

  pub handle_mail-Move : (line : Bytes) (s : Session W) → To cfg s.core (handle_mail cfg line s)
  unfolding handle_mail
  handle_mail-Move line s =
      To-if cfg s.core _ (λ _. To-write cfg s.core _ _ s stay)
        λ st.
          let m = at_mail_of s.state (not-not _ st) in
          To-if cfg s.core (not (has_prefix (to_upper line) (codes "MAIL FROM:")))
            (λ _. To-write cfg s.core _ _ _ (clear m))
            λ _. check_sender-Move (address_of (codes "MAIL FROM:") line) s m

  in_envelope :
      (st : SessionState) → (not (is_rcpt st) && not (is_data st)) ≡ false → InEnvelope cfg st
  in_envelope st h = ground arith

  may_relay :
      (c : Core) (r : Bytes)
      → (not c.auth && not (is_local_recipient cfg.local_domains r)) ≡ false
      → MayRelay cfg c r
  may_relay c r h = ground arith

  check_recipient-Move :
      (r : Bytes) (s : Session W) → InEnvelope cfg s.state → To cfg s.core (check_recipient cfg r s)
  unfolding check_recipient accept_recipient
  check_recipient-Move r s st =
      To-if cfg s.core _ (λ _. To-write cfg s.core _ _ s stay)
        λ ok.
          To-if cfg s.core _ (λ _. To-write cfg s.core _ _ s stay)
            λ relay.
              To-policy_gate cfg s.core _ _ _ _ s stay
                λ w. To-write cfg s.core _ _ _ (add r st (not-not _ ok) (may_relay s.core r relay))

  pub handle_rcpt-Move : (line : Bytes) (s : Session W) → To cfg s.core (handle_rcpt cfg line s)
  unfolding handle_rcpt
  handle_rcpt-Move line s =
      To-if cfg s.core _ (λ _. To-write cfg s.core _ _ s stay)
        λ st.
          To-if cfg s.core (not (has_prefix (to_upper line) (codes "RCPT TO:")))
            (λ _. To-write cfg s.core _ _ s stay)
            λ _.
              check_recipient-Move (address_of (codes "RCPT TO:") line) s (in_envelope s.state st)

  -- the handshake itself leaves the core alone, whether or not it fails
  core-handshake :
      (s : Session W)
      → (and_then (write_response 220 (codes "Ready to start TLS")) (start_handshake cfg) s).1.core
        ≡ s.core
  unfolding start_handshake write_response set_deadline
  core-handshake s = ground arith

  upgraded-Move :
      (c : Core) (s : Session W)
      → s.core ≡ c
      → c.tls ≡ false
      → cfg.tls_config ≡ true
      → To cfg c (done, upgraded cfg s)
  unfolding upgraded
  upgraded-Move c s e t k = record {
    move =
        subst (λ d. Move cfg d (upgraded cfg s).core) e
          (upgrade (subst (λ d. d.tls ≡ false) (sym e) t) k);
  }

  pub handle_starttls-Move : (s : Session W) → To cfg s.core (handle_starttls cfg s)
  unfolding handle_starttls
  handle_starttls-Move s =
      To-if cfg s.core s.tls (λ _. To-write cfg s.core _ _ s stay)
        λ t.
          To-if cfg s.core (not cfg.tls_config) (λ _. To-write cfg s.core _ _ s stay)
            λ k.
              To-and_then cfg s.core
                (and_then (write_response 220 (codes "Ready to start TLS")) (start_handshake cfg)) _
                s (core-handshake s) stay λ s' e. upgraded-Move s.core s' e t (not-not _ k)
