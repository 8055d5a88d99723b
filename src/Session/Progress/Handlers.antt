-- ===== src/Session/Progress/Handlers.antt =====
-- session.go: the lines that the handlers leave, AUTH apart.
use smtpd.Prelude.{ℕ, ◌≤◌, Bool, List, [], ◌∷◌, ◌++◌, length, arith}
use smtpd.Text.{Bytes}
use smtpd.Session.State.{Session, Config, done}
use smtpd.Session.Helo.{
  handle_helo, handle_rset, handle_starttls, start_handshake, tls_handshake, create_tls_config,
  upgraded,
}
use smtpd.Session.Envelope.{
  handle_mail, check_sender, accept_sender, handle_rcpt, check_recipient, accept_recipient,
}
use smtpd.Session.Data.{
  Transfer, complete, oversize, broken, drain, unstuff, read_message, enqueue_message,
  accept_message, reject_oversize, finish_transfer, receive, handle_data,
}
use smtpd.Session.Progress.{remaining, Reads, reads_rules}

length-drain : (ls : List Bytes) → length (drain ls).1 ≤ length ls
unfolding drain
length-drain [] = omega arith
length-drain (l ∷ ls) = ground (arith, length-drain ls)

length-read_message :
    (max : ℕ) (buf : Bytes) (ls : List Bytes) → length (read_message max buf ls).1 ≤ length ls
unfolding read_message
length-read_message max buf [] = omega arith
length-read_message max buf (l ∷ ls) =
    ground (arith, length-drain ls, length-read_message max (buf ++ unstuff l) ls)

module _ {W : Type 0} {n : ℕ} (cfg : Config W) where
  pub handle_helo-Reads :
      (x : Bool) (d : Bytes) (s : Session W)
      → remaining s.conn ≤ n
      → Reads n (handle_helo cfg x d s)
  unfolding handle_helo
  handle_helo-Reads x d s h = search reads_rules

  pub handle_rset-Reads : (s : Session W) → remaining s.conn ≤ n → Reads n (handle_rset cfg s)
  unfolding handle_rset
  handle_rset-Reads s h = search reads_rules

  create_tls_config-Reads :
      (s : Session W) → remaining s.conn ≤ n → Reads n (create_tls_config cfg s)
  unfolding create_tls_config
  create_tls_config-Reads s h = ground arith

  tls_handshake-Reads : (s : Session W) → remaining s.conn ≤ n → Reads n (tls_handshake cfg s)
  unfolding tls_handshake
  tls_handshake-Reads s h = ground arith

  start_handshake-Reads : (s : Session W) → remaining s.conn ≤ n → Reads n (start_handshake cfg s)
  unfolding start_handshake
  start_handshake-Reads s h =
      search (reads_rules, tls_handshake-Reads, create_tls_config-Reads) depth 8

  upgraded-Reads : (s : Session W) → remaining s.conn ≤ n → Reads n (done, upgraded cfg s)
  unfolding upgraded
  upgraded-Reads s h = record { bound = omega arith }

  pub handle_starttls-Reads :
      (s : Session W) → remaining s.conn ≤ n → Reads n (handle_starttls cfg s)
  unfolding handle_starttls
  handle_starttls-Reads s h = search (reads_rules, start_handshake-Reads, upgraded-Reads) depth 8

  pub handle_mail-Reads :
      (line : Bytes) (s : Session W) → remaining s.conn ≤ n → Reads n (handle_mail cfg line s)
  unfolding handle_mail check_sender accept_sender
  handle_mail-Reads line s h = search reads_rules

  check_recipient-Reads :
      (r : Bytes) (s : Session W) → remaining s.conn ≤ n → Reads n (check_recipient cfg r s)
  unfolding check_recipient accept_recipient
  check_recipient-Reads r s h = search reads_rules

  pub handle_rcpt-Reads :
      (line : Bytes) (s : Session W) → remaining s.conn ≤ n → Reads n (handle_rcpt cfg line s)
  unfolding handle_rcpt
  handle_rcpt-Reads line s h = search (reads_rules, check_recipient-Reads)

  accept_message-Reads :
      (b : Bytes) (s : Session W) → remaining s.conn ≤ n → Reads n (accept_message cfg b s)
  unfolding accept_message enqueue_message
  accept_message-Reads b s h = search reads_rules

  finish_transfer-Reads :
      (t : Transfer) (s : Session W) → remaining s.conn ≤ n → Reads n (finish_transfer cfg t s)
  unfolding finish_transfer reject_oversize
  finish_transfer-Reads (complete b) s h = search (reads_rules, accept_message-Reads)
  finish_transfer-Reads oversize s h = search reads_rules
  finish_transfer-Reads broken s h = record { bound = h }

  receive-Reads : (s : Session W) → remaining s.conn ≤ n → Reads n (receive cfg s)
  unfolding receive
  receive-Reads s h =
      let (t, rest) = read_message cfg.max_message_size [] s.conn.input in
      finish_transfer-Reads t (record s { conn = record s.conn { input = rest } })
        (omega (arith, length-read_message cfg.max_message_size [] s.conn.input))

  pub handle_data-Reads : (s : Session W) → remaining s.conn ≤ n → Reads n (handle_data cfg s)
  unfolding handle_data
  handle_data-Reads s h = search (reads_rules, receive-Reads) depth 8
