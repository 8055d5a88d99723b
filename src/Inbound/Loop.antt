-- ===== src/Inbound/Loop.antt =====
-- pkg/inbound/server.go: the loop of `session`.
use smtpd.Prelude.{ℕ, zero, suc, true, false, List, [], ◌∷◌, ◌++◌, length, take, ◌-◌, if◌then◌else◌}
use smtpd.Text.{Bytes, codes, bytes_eq, to_upper, cut}
use smtpd.Inbound.State.{Receiver, Session, Control, next, return, spinning, send, say, cancel}
use smtpd.Inbound.Commands.{handle_helo, handle_starttls, handle_mail, handle_rcpt, handle_rset}
use smtpd.Inbound.Data.{well_framed, handle_data}

pub data Command : Type 0 where
  ehlo helo starttls mail rcpt content rset noop quit unknown : Command

unfoldable pub command_of : Bytes → Command
command_of w =
    if bytes_eq w (codes "EHLO")
    then ehlo
    else if bytes_eq w (codes "HELO")
    then helo
    else if bytes_eq w (codes "STARTTLS")
    then starttls
    else if bytes_eq w (codes "MAIL")
    then mail
    else if bytes_eq w (codes "RCPT")
    then rcpt
    else if bytes_eq w (codes "DATA")
    then content
    else if bytes_eq w (codes "RSET")
    then rset
    else if bytes_eq w (codes "NOOP")
    then noop
    else if bytes_eq w (codes "QUIT")
    then quit
    else unknown

module _ {W : Type 0} (srv : Receiver W) where
  unfoldable pub run_command : Command → Bytes → Session W → Control × Session W
  run_command ehlo arg s = handle_helo srv true arg s
  run_command helo arg s = handle_helo srv false arg s
  run_command starttls arg s = handle_starttls srv arg s
  run_command mail arg s = handle_mail srv arg s
  run_command rcpt arg s = handle_rcpt srv arg s
  run_command content arg s = handle_data srv arg s
  run_command rset arg s = handle_rset srv arg s
  run_command noop arg s = say (codes "250 OK") s
  run_command quit arg s = (return, (send (codes "221 Bye") s).1)
  run_command unknown arg s = say (codes "502 Command not implemented") s

  -- a line without its CRLF
  unfoldable pub run_line : Bytes → Session W → Control × Session W
  unfolding run_command command_of
  run_line line s =
      let (cmd, arg, found) = cut 32 line in run_command (command_of (to_upper cmd)) arg s

  -- `readLine` and the command; a line that breaks the limits ends the conversation
  unfoldable pub run_input : List Bytes → Session W → Control × Session W
  unfolding run_line
  run_input [] s = (return, s)
  run_input (raw ∷ rest) s =
      let s' = record s { conn = record s.conn { input = rest } } in
      if well_framed 512 raw then run_line (take (length raw - 2) raw) s' else (return, s')

  unfoldable pub serve : ℕ → Session W → Control × Session W
  unfolding run_input
  serve zero s = (spinning, s)
  serve (suc fuel) s =
      let (ctl, s') = run_input s.conn.input s in
      elim ctl [ next ↦ serve fuel s' | other ↦ (other, s') ]

  -- `session`, with its deferred call
  unfoldable pub session : ℕ → Session W → Control × Session W
  unfolding serve
  session fuel s =
      let (ok, s') = send (codes "220 " ++ (srv.hostname ++ codes " ESMTP")) s in
      let (ctl, t) = serve fuel s' in if ok then (ctl, cancel t) else (return, cancel s')
