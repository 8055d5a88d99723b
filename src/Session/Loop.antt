-- ===== src/Session/Loop.antt =====
-- session.go: `Handle`, the loop over the client's command lines.
use smtpd.Prelude.{
  ℕ, zero, suc, true, false, List, [], ◌∷◌, Option, none, some, is_empty, if◌then◌else◌,
}
use smtpd.Text.{Bytes, codes, bytes_eq, to_upper, trim_space, fields, join_space}
use smtpd.Session.State.{Session, Config, Outcome, done, failed, write_response, spend, read_line}
use smtpd.Session.Helo.{handle_helo, handle_rset, handle_starttls}
use smtpd.Session.Envelope.{handle_mail, handle_rcpt}
use smtpd.Session.Data.{handle_data}
use smtpd.Session.Auth.{handle_auth}

pub data Command : Type 0 where
  quit helo ehlo mail rcpt content rset starttls auth noop unknown : Command

-- the `switch` on the first word, in capitals
unfoldable pub command_of : Bytes → Command
command_of w =
    if bytes_eq w (codes "QUIT")
    then quit
    else if bytes_eq w (codes "HELO")
    then helo
    else if bytes_eq w (codes "EHLO")
    then ehlo
    else if bytes_eq w (codes "MAIL")
    then mail
    else if bytes_eq w (codes "RCPT")
    then rcpt
    else if bytes_eq w (codes "DATA")
    then content
    else if bytes_eq w (codes "RSET")
    then rset
    else if bytes_eq w (codes "STARTTLS")
    then starttls
    else if bytes_eq w (codes "AUTH")
    then auth
    else if bytes_eq w (codes "NOOP")
    then noop
    else unknown

-- after a line: read the next one, or leave `Handle` without or with an error; `spinning` is the
-- model's own, for fuel that ran out
pub data Control : Type 0 where
  next : Control
  closed : Control
  aborted : Control
  spinning : Control

abbrev pub go_on : Outcome → Control
go_on done = next
go_on failed = aborted

module _ {W : Type 0} (cfg : Config W) where
  abbrev keep_on : Outcome × Session W → Control × Session W
  keep_on (r, s) = (go_on r, s)

  -- QUIT ends the session whether or not its reply was written
  unfoldable pub run_command : Command → Bytes → Bytes → Session W → Control × Session W
  run_command quit line args s = (closed, (write_response 221 (codes "Goodbye") s).1)
  run_command helo line args s = keep_on (handle_helo cfg false args s)
  run_command ehlo line args s = keep_on (handle_helo cfg true args s)
  run_command mail line args s = keep_on (handle_mail cfg line s)
  run_command rcpt line args s = keep_on (handle_rcpt cfg line s)
  run_command content line args s = keep_on (handle_data cfg s)
  run_command rset line args s = keep_on (handle_rset cfg s)
  run_command starttls line args s = keep_on (handle_starttls cfg s)
  run_command auth line args s = keep_on (handle_auth cfg line s)
  run_command noop line args s = keep_on (write_response 250 (codes "OK") s)
  run_command unknown line args s = keep_on (write_response 500 (codes "Unknown command") s)

  unfoldable pub run_words : Bytes → List Bytes → Session W → Control × Session W
  unfolding run_command command_of
  run_words line [] s = (next, s)
  run_words line (verb ∷ args) s = run_command (command_of (to_upper verb)) line (join_space args) s

  -- one line that was read
  unfoldable pub run_line : Bytes → Session W → Control × Session W
  unfolding run_words
  run_line raw s =
      let line = trim_space raw in
      if is_empty line then (next, s) else run_words line (fields line) s

  unfoldable pub run_input : Option Bytes → Session W → Control × Session W
  unfolding run_line
  run_input none s = (aborted, s)
  run_input (some raw) s = run_line raw s

  -- one round of the loop: the read deadline, the line, the command
  unfoldable pub round : Session W → Control × Session W
  unfolding run_input
  round s =
      let (r, c) = spend s.conn in
      let (l, c') = read_line c in
      elim r [
        | done ↦ run_input l (record s { conn = c' })
        | failed ↦ (aborted, record s { conn = c })
      ]

  unfoldable pub serve : ℕ → Session W → Control × Session W
  unfolding round
  serve zero s = (spinning, s)
  serve (suc fuel) s =
      let (ctl, s') = round s in elim ctl [ next ↦ serve fuel s' | stop ↦ (stop, s') ]

  unfoldable pub handle : ℕ → Session W → Control × Session W
  unfolding serve
  handle fuel s =
      let (r, s') = write_response 220 (codes "smtpd Service Ready") s in
      elim r [ done ↦ serve fuel s' | failed ↦ (aborted, s') ]
