-- ===== src/Inbound/Sound/Commands.antt =====
-- pkg/inbound/server.go: MAIL and RCPT, and what holds of a conversation after them.
use smtpd.Prelude.{
  ℕ, ◌<◌, ◌≡◌, refl, false, not, ◌||◌, Option, none, some, [], ◌∷◌, ◌++◌, length, length-append,
  All-append, is_empty, leb, arith, if◌then◌else◌,
}
use smtpd.Text.{Bytes, codes, bytes_eq}
use smtpd.Smtp.{Error}
use smtpd.Inbound.Address.{MailPath, sender, refused, path, mail_path}
use smtpd.Inbound.State.{Receiver, Session, reply_error, say, reset}
use smtpd.Inbound.Commands.{
  handle_mail, accept_sender, begin, handle_rcpt, check_recipient, accept_recipient,
}
use smtpd.Inbound.Replies.{acknowledgement, reply_error-IsOther}
use smtpd.Inbound.Sound.{
  Keeps, Ends, IsMailbox, Ends-if, Ends-next, Ends-return, Ends-say, Keeps-send, Keeps-reset,
  stop-cancel,
}
use smtpd.Inbound.Sound.Addresses.{path-IsMailbox, Refuses, mail_path-Refuses}
use smtpd.Inbound.Sound.Changes.{with_world}

stop-reset : {W : Type 0} (s : Session W) → (reset s).stop ≡ false
unfolding reset
stop-reset s = stop-cancel s

module _ {W : Type 0} (srv : Receiver W) {n k : ℕ} where
  begin-Keeps : (from : Bytes) (s : Session W) → Keeps srv n k s → Keeps srv n k (begin srv from s)
  unfolding begin
  begin-Keeps from s h =
      let r = Keeps-reset srv s h in
      record {
        sound = record {
          balance = ground (arith, r.sound.balance, stop-reset s);
          held = r.sound.held;
          recipients = r.sound.recipients;
          valid = r.sound.valid;
          stored = r.sound.stored;
          acknowledged = r.sound.acknowledged;
        };
        begun = refl;
        left = r.left;
      }

  accept_sender-Ends :
      (from : Bytes) (s : Session W) → Keeps srv n k s → Ends srv n k (accept_sender srv from s)
  unfolding accept_sender codes bytes_eq acknowledgement
  accept_sender-Ends from s h =
      let answered =
        Keeps-send srv (codes "250 Sender accepted") (begin srv from s) refl
          (begin-Keeps from s h) in
      Ends-if srv _ (λ _. Ends-next srv answered) λ _. Ends-return srv (Keeps-reset srv _ answered)

  pub handle_mail-Ends :
      (arg : Bytes) (s : Session W) → Keeps srv n k s → Ends srv n k (handle_mail srv arg s)
  unfolding handle_mail codes bytes_eq acknowledgement
  handle_mail-Ends arg s h =
      Ends-if srv (is_empty s.envelope.helo || s.mail)
        (λ _. Ends-say srv (codes "503 Bad sequence") s refl h)
        λ _.
          parsed (mail_path srv.parse_ip arg srv.limits.max_message_bytes)
            (mail_path-Refuses srv.parse_ip arg srv.limits.max_message_bytes)
    where
      parsed :
          (m : MailPath)
          → Refuses m
          → Ends srv n k
              (elim m [ refused failure ↦ say failure s | sender from ↦ accept_sender srv from s ])
      parsed (refused failure) o = Ends-say srv failure s o h
      parsed (sender from) o = accept_sender-Ends from s h

  with_recipient :
      (to : Bytes) (s : Session W)
      → Keeps srv n k s
      → length s.envelope.recipients < srv.limits.max_recipients
      → IsMailbox srv to
      → Keeps srv n k (record s {
        envelope = record s.envelope { recipients = s.envelope.recipients ++ to ∷ [] };
      })
  with_recipient to s h room v = record {
    sound = record {
      balance = h.sound.balance;
      held = h.sound.held;
      recipients = omega (arith, length-append s.envelope.recipients (to ∷ []));
      valid = All-append (IsMailbox srv) s.envelope.recipients (to ∷ []) h.sound.valid (v, tt);
      stored = h.sound.stored;
      acknowledged = h.sound.acknowledged;
    };
    begun = h.begun;
    left = h.left;
  }

  accept_recipient-Ends :
      (to : Bytes) (s : Session W)
      → Keeps srv n k s
      → length s.envelope.recipients < srv.limits.max_recipients
      → IsMailbox srv to
      → Ends srv n k (accept_recipient srv to s)
  unfolding accept_recipient codes bytes_eq acknowledgement
  accept_recipient-Ends to s h room v = let (e, w) = check_recipient srv to s in answer e w
    where
      answer :
          (e : Option Error) (w : W)
          → Ends srv n k (elim e [
            | some x ↦ say (reply_error x) (record s { world = w })
            | none ↦ say (codes "250 Recipient accepted") (record s {
              world = w;
              envelope = record s.envelope { recipients = s.envelope.recipients ++ to ∷ [] };
            })
          ])
      answer (some x) w =
          Ends-say srv (reply_error x) _ (reply_error-IsOther x) (with_world srv w s h)
      answer none w =
          Ends-say srv (codes "250 Recipient accepted") _ refl
            (with_recipient to (record s { world = w }) (with_world srv w s h) room v)

  pub handle_rcpt-Ends :
      (arg : Bytes) (s : Session W) → Keeps srv n k s → Ends srv n k (handle_rcpt srv arg s)
  unfolding handle_rcpt codes bytes_eq acknowledgement
  handle_rcpt-Ends arg s h =
      Ends-if srv (not s.mail) (λ _. Ends-say srv (codes "503 MAIL required") s refl h)
        λ _.
          parsed (path srv.parse_ip arg (codes "TO") false)
            (path-IsMailbox srv.parse_ip arg (codes "TO"))
    where
      parsed :
          (o : Option Bytes)
          → ((a : Bytes) → o ≡ some a → IsMailbox srv a)
          → Ends srv n k (elim o [
            | none ↦ say (codes "501 Invalid recipient or unsupported parameters") s
            | some to ↦
                if leb srv.limits.max_recipients (length s.envelope.recipients)
                then say (codes "452 Too many recipients") s
                else accept_recipient srv to s
          ])
      parsed none v =
          Ends-say srv (codes "501 Invalid recipient or unsupported parameters") s refl h
      parsed (some to) v =
          Ends-if srv (leb srv.limits.max_recipients (length s.envelope.recipients))
            (λ _. Ends-say srv (codes "452 Too many recipients") s refl h)
            λ e. accept_recipient-Ends to s h (ground arith) (v to refl)
