-- ===== src/Inbound/Sound/Greeting.antt =====
-- pkg/inbound/server.go: RSET, EHLO, HELO and STARTTLS, and what holds of a conversation after them.
use smtpd.Prelude.{ℕ, ◌≡◌, refl, Bool, true, not, ◌||◌, is_empty, arith}
use smtpd.Text.{Bytes, codes, bytes_eq}
use smtpd.Inbound.Address.{valid_host}
use smtpd.Inbound.State.{has_buffered, Receiver, Session, send, reset}
use smtpd.Inbound.Commands.{
  handle_helo, handle_starttls, start_tls, upgraded, handle_rset, greeting,
}
use smtpd.Inbound.Replies.{acknowledgement, greeting-IsOther}
use smtpd.Inbound.Sound.{
  Keeps, Ends, Ends-if, Ends-next, Ends-return, Ends-say, Keeps-send, Keeps-reset,
}

module _ {W : Type 0} (srv : Receiver W) {n k : ℕ} where
  pub handle_rset-Ends :
      (arg : Bytes) (s : Session W) → Keeps srv n k s → Ends srv n k (handle_rset srv arg s)
  unfolding handle_rset codes bytes_eq acknowledgement
  handle_rset-Ends arg s h =
      Ends-if srv (not (is_empty arg))
        (λ _. Ends-say srv (codes "501 Unexpected arguments") s refl h)
        (λ _. Ends-say srv (codes "250 Reset") (reset s) refl (Keeps-reset srv s h))

  named :
      (arg : Bytes) (s : Session W)
      → Keeps srv n k s
      → Keeps srv n k (record s { envelope = record s.envelope { helo = arg } })
  named arg s h = record {
    sound = record {
      balance = h.sound.balance;
      held = h.sound.held;
      recipients = h.sound.recipients;
      valid = h.sound.valid;
      stored = h.sound.stored;
      acknowledged = h.sound.acknowledged;
    };
    begun = h.begun;
    left = h.left;
  }

  pub handle_helo-Ends :
      (extended : Bool) (arg : Bytes) (s : Session W)
      → valid_host srv.parse_ip srv.hostname ≡ true
      → Keeps srv n k s
      → Ends srv n k (handle_helo srv extended arg s)
  unfolding handle_helo codes bytes_eq acknowledgement
  handle_helo-Ends extended arg s v h =
      Ends-if srv (not (valid_host srv.parse_ip arg))
        (λ _. Ends-say srv (codes "501 Invalid greeting") s refl h)
        (λ _.
          Ends-say srv (greeting srv extended s.envelope.tls)
            (record (reset s) { envelope = record (reset s).envelope { helo = arg } })
            (greeting-IsOther srv extended s.envelope.tls v)
            (named arg (reset s) (Keeps-reset srv s h)))

  upgraded-Keeps : (s : Session W) → Keeps srv n k s → Keeps srv n k (upgraded srv s)
  unfolding upgraded
  upgraded-Keeps s h = record {
    sound = record {
      balance = h.sound.balance;
      held = h.sound.held;
      recipients = omega arith;
      valid = tt;
      stored = h.sound.stored;
      acknowledged = h.sound.acknowledged;
    };
    begun = h.begun;
    left = omega (arith, h.left);
  }

  pub handle_starttls-Ends :
      (arg : Bytes) (s : Session W) → Keeps srv n k s → Ends srv n k (handle_starttls srv arg s)
  unfolding handle_starttls start_tls codes bytes_eq acknowledgement
  handle_starttls-Ends arg s h =
      let ready = Keeps-send srv (codes "220 Ready for TLS") s refl h in
      let s' = (send (codes "220 Ready for TLS") s).1 in
      Ends-if srv (not (is_empty arg))
        (λ _. Ends-say srv (codes "501 Unexpected arguments") s refl h)
        λ _.
          Ends-if srv (not srv.tls_config || (s.envelope.tls || is_empty s.envelope.helo))
            (λ _. Ends-say srv (codes "503 STARTTLS unavailable") s refl h)
            λ _.
              Ends-if srv (has_buffered srv s.conn.input)
                (λ _.
                  Ends-return srv
                    (Keeps-send srv (codes "554 Pipelining across STARTTLS prohibited") s refl h))
                λ _.
                  Ends-if srv (send (codes "220 Ready for TLS") s).0
                    (λ _.
                      Ends-if srv srv.tls_handshake
                        (λ _. Ends-next srv (upgraded-Keeps (reset s') (Keeps-reset srv s' ready)))
                        (λ _. Ends-return srv (Keeps-reset srv s' ready)))
                    (λ _. Ends-return srv ready)
