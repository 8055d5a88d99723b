-- ===== src/Inbound/Commands.antt =====
-- pkg/inbound/server.go: EHLO, HELO, STARTTLS, MAIL, RCPT and RSET in `session`.
use smtpd.Prelude.{
  suc, Bool, true, false, not, ◌&&◌, ◌||◌, Option, none, some, [], ◌∷◌, ◌++◌, length, is_empty, leb,
  if◌then◌else◌,
}
use smtpd.Text.{Bytes, codes}
use smtpd.Smtp.{Error}
use smtpd.Inbound.Address.{sender, refused, valid_host, path, mail_path}
use smtpd.Inbound.State.{
  has_buffered, Receiver, Session, Control, next, return, reply_error, send, say, reset,
}

module _ {W : Type 0} (srv : Receiver W) where
  -- the lines of a reply to EHLO are one text, as in the source
  unfoldable pub greeting : Bool → Bool → Bytes
  greeting extended tls =
      if extended
      then codes "250-"
        ++ (srv.hostname
            ++ (13
                ∷ 10
                ∷ (codes "250-SIZE "
                    ++ (srv.size_text
                        ++ ((if srv.tls_config && not tls
                              then 13 ∷ 10 ∷ codes "250-STARTTLS"
                              else [])
                            ++ (13 ∷ 10 ∷ codes "250 HELP"))))))
      else codes "250 " ++ srv.hostname

  unfoldable pub handle_helo : Bool → Bytes → Session W → Control × Session W
  unfolding greeting
  handle_helo extended arg s =
      let s' = reset s in
      if not (valid_host srv.parse_ip arg)
      then say (codes "501 Invalid greeting") s
      else say (greeting extended s.envelope.tls)
          (record s' { envelope = record s'.envelope { helo = arg } })

  -- the conversation starts anew over TLS; what was read of the old stream is dropped
  unfoldable pub upgraded : Session W → Session W
  upgraded s = record s {
    conn = record s.conn { input = s.conn.tls_input; tls_input = [] };
    envelope = record {
      sender = [];
      recipients = [];
      remote_ip = s.envelope.remote_ip;
      helo = [];
      tls = true;
    };
  }

  -- after the 220 reply
  unfoldable pub start_tls : Session W → Control × Session W
  unfolding upgraded
  start_tls s = let s' = reset s in if srv.tls_handshake then (next, upgraded s') else (return, s')

  unfoldable pub handle_starttls : Bytes → Session W → Control × Session W
  unfolding start_tls has_buffered
  handle_starttls arg s =
      let (ok, s') = send (codes "220 Ready for TLS") s in
      if not (is_empty arg)
      then say (codes "501 Unexpected arguments") s
      else if not srv.tls_config || (s.envelope.tls || is_empty s.envelope.helo)
      then say (codes "503 STARTTLS unavailable") s
      else if has_buffered srv s.conn.input
      then (return, (send (codes "554 Pipelining across STARTTLS prohibited") s).1)
      else if ok
      then start_tls s'
      else (return, s')

  -- the transaction begins, with a context of its own
  unfoldable pub begin : Bytes → Session W → Session W
  begin from s =
      let s' = reset s in
      record s' {
        envelope = record s'.envelope { sender = from };
        mail = true;
        stop = true;
        opened = suc s'.opened;
      }

  unfoldable pub accept_sender : Bytes → Session W → Control × Session W
  unfolding begin
  accept_sender from s =
      let (ok, s') = send (codes "250 Sender accepted") (begin from s) in
      if ok then (next, s') else (return, reset s')

  unfoldable pub handle_mail : Bytes → Session W → Control × Session W
  unfolding accept_sender
  handle_mail arg s =
      if is_empty s.envelope.helo || s.mail
      then say (codes "503 Bad sequence") s
      else elim (mail_path srv.parse_ip arg srv.limits.max_message_bytes) [
        | refused failure ↦ say failure s
        | sender from ↦ accept_sender from s
      ]

  -- the backend's answer, and then the context's
  unfoldable pub check_recipient : Bytes → Session W → Option Error × W
  check_recipient to s =
      let (e, w) = srv.backend.check_recipient s.envelope to s.world in
      elim e [ some x ↦ (some x, w) | none ↦ srv.backend.tx_err w ]

  unfoldable pub accept_recipient : Bytes → Session W → Control × Session W
  unfolding check_recipient
  accept_recipient to s =
      let (e, w) = check_recipient to s in
      let s' = record s { world = w } in
      elim e [
        | some x ↦ say (reply_error x) s'
        | none ↦ say (codes "250 Recipient accepted") (record s' {
          envelope = record s.envelope { recipients = s.envelope.recipients ++ to ∷ [] };
        })
      ]

  unfoldable pub handle_rcpt : Bytes → Session W → Control × Session W
  unfolding accept_recipient
  handle_rcpt arg s =
      if not s.mail
      then say (codes "503 MAIL required") s
      else elim (path srv.parse_ip arg (codes "TO") false) [
        | none ↦ say (codes "501 Invalid recipient or unsupported parameters") s
        | some to ↦
            if leb srv.limits.max_recipients (length s.envelope.recipients)
            then say (codes "452 Too many recipients") s
            else accept_recipient to s
      ]

  unfoldable pub handle_rset : Bytes → Session W → Control × Session W
  handle_rset arg s =
      if not (is_empty arg)
      then say (codes "501 Unexpected arguments") s
      else say (codes "250 Reset") (reset s)
