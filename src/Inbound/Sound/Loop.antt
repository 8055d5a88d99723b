-- ===== src/Inbound/Sound/Loop.antt =====
-- pkg/inbound/server.go: a whole `session`, and what holds of it in the end.
use smtpd.Prelude.{
  ℕ, zero, suc, ◌+◌, ◌-◌, ◌≤◌, ◌<◌, ◌≡◌, ◌≢◌, refl, Bool, true, false, List, [], ◌∷◌, ◌++◌, length,
  take, arith, if◌then◌else◌,
}
use smtpd.Text.{Bytes, codes, bytes_eq, to_upper, cut}
use smtpd.Inbound.Address.{valid_host}
use smtpd.Inbound.State.{Receiver, Session, Control, next, return, spinning, send, cancel}
use smtpd.Inbound.Data.{well_framed}
use smtpd.Inbound.Loop
use smtpd.Inbound.Loop.{Command, command_of, run_command, run_line, run_input, serve, session}
use smtpd.Inbound.Replies.{acknowledgement}
use smtpd.Inbound.Sound.{
  Keeps, Ends, IsSound, Ends-if, Ends-return, Ends-say, Keeps-send, cancel-IsSound, stop-cancel,
  remaining,
}
use smtpd.Inbound.Sound.Greeting.{handle_helo-Ends, handle_starttls-Ends, handle_rset-Ends}
use smtpd.Inbound.Sound.Commands.{handle_mail-Ends, handle_rcpt-Ends}
use smtpd.Inbound.Sound.Data.{handle_data-Ends}

-- a conversation may begin: its server has a valid name
pub record MayBegin {W : Type 0} (srv : Receiver W) (s : Session W) : Type 0 where
  pub name : valid_host srv.parse_ip srv.hostname ≡ true
  pub sound : IsSound srv 0 s
  pub begun : s.mail ≡ s.stop

module _ {W : Type 0} (srv : Receiver W) (named : valid_host srv.parse_ip srv.hostname ≡ true)
    {n k : ℕ} where
  run_command-Ends :
      (cmd : Command) (arg : Bytes) (s : Session W)
      → Keeps srv n k s
      → Ends srv n k (run_command srv cmd arg s)
  unfolding run_command codes bytes_eq acknowledgement
  run_command-Ends Loop.ehlo arg s h = handle_helo-Ends srv true arg s named h
  run_command-Ends Loop.helo arg s h = handle_helo-Ends srv false arg s named h
  run_command-Ends Loop.starttls arg s h = handle_starttls-Ends srv arg s h
  run_command-Ends Loop.mail arg s h = handle_mail-Ends srv arg s h
  run_command-Ends Loop.rcpt arg s h = handle_rcpt-Ends srv arg s h
  run_command-Ends Loop.content arg s h = handle_data-Ends srv arg s h
  run_command-Ends Loop.rset arg s h = handle_rset-Ends srv arg s h
  run_command-Ends Loop.noop arg s h = Ends-say srv (codes "250 OK") s refl h
  run_command-Ends Loop.quit arg s h = Ends-return srv (Keeps-send srv (codes "221 Bye") s refl h)
  run_command-Ends Loop.unknown arg s h =
      Ends-say srv (codes "502 Command not implemented") s refl h

  run_line-Ends :
      (line : Bytes) (s : Session W) → Keeps srv n k s → Ends srv n k (run_line srv line s)
  unfolding run_line
  run_line-Ends line s h =
      let (cmd, arg, found) = cut 32 line in run_command-Ends (command_of (to_upper cmd)) arg s h

module _ {W : Type 0} (srv : Receiver W) (named : valid_host srv.parse_ip srv.hostname ≡ true) where
  with_input :
      (raw : Bytes) (rest : List Bytes) (s : Session W)
      → s.conn.input ≡ raw ∷ rest
      → Keeps srv 0 (remaining s.conn) s
      → Keeps srv 0
          (length rest + length s.conn.tls_input)
          (record s { conn = record s.conn { input = rest } })
  with_input raw rest s e h = record {
    sound = record {
      balance = h.sound.balance;
      held = h.sound.held;
      recipients = h.sound.recipients;
      valid = h.sound.valid;
      stored = h.sound.stored;
      acknowledged = h.sound.acknowledged;
    };
    begun = h.begun;
    left = omega arith;
  }

  -- after a round that began with `k` lines to come
  record Round (k : ℕ) (r : Control × Session W) : Type 0 where
    keeps : Keeps srv 0 (remaining (r.1).conn) (r.1)
    settled : r.0 ≢ spinning
    fewer : r.0 ≡ next → suc (remaining (r.1).conn) ≤ k

  round : (j k : ℕ) (r : Control × Session W) → suc j ≤ k → Ends srv 0 j r → Round k r
  round j k r l h = record {
    keeps = record { sound = h.keeps.sound; begun = h.keeps.begun; left = omega arith };
    settled = h.settled;
    fewer = λ e. omega (arith, h.keeps.left);
  }

  run_input-Round :
      (ls : List Bytes) (s : Session W)
      → s.conn.input ≡ ls
      → Keeps srv 0 (remaining s.conn) s
      → Round (length ls + length s.conn.tls_input) (run_input srv ls s)
  unfolding run_input
  run_input-Round [] s e h = record { keeps = h; settled = λ e. cc; fewer = λ e. cc }
  run_input-Round (raw ∷ rest) s e h =
      let s' = record s { conn = record s.conn { input = rest } } in
      let h' = with_input raw rest s e h in
      round _ _ _ (omega arith) (
        Ends-if srv (well_framed 512 raw)
          (λ _. run_line-Ends srv named (take (length raw - 2) raw) s' h')
          (λ _. Ends-return srv h'))

  -- what the loop leaves, and that it is done if its fuel was enough for `k` lines
  record Served (k fuel : ℕ) (r : Control × Session W) : Type 0 where
    sound : IsSound srv 0 (r.1)
    settled : k < fuel → r.0 ≢ spinning

  serve-Served :
      (fuel : ℕ) (s : Session W)
      → Keeps srv 0 (remaining s.conn) s
      → Served (remaining s.conn) fuel (serve srv fuel s)
  unfolding serve
  serve-Served zero s h = record { sound = h.sound; settled = λ l. absurd (omega arith) }
  serve-Served (suc fuel) s h =
      let (ctl, s') = run_input srv s.conn.input s in
      let r = run_input-Round s.conn.input s refl h in rest ctl s' r (serve-Served fuel s' r.keeps)
    where
      rest :
          (ctl : Control) (s' : Session W)
          → Round (remaining s.conn) (ctl, s')
          → Served (remaining s'.conn) fuel (serve srv fuel s')
          → Served (remaining s.conn) (suc fuel) (elim ctl as (λ _. Control × Session W) [
            | next ↦ serve srv fuel s'
            | other ↦ (other, s')
          ])
      rest next s' r v = record {
        sound = v.sound;
        settled = λ l. v.settled (omega (arith, r.fewer refl));
      }
      rest return s' r v = record { sound = r.keeps.sound; settled = λ l e. cc }
      rest spinning s' r v = record { sound = r.keeps.sound; settled = λ l. r.settled }

  session-Served :
      (fuel : ℕ) (s : Session W)
      → IsSound srv 0 s
      → s.mail ≡ s.stop
      → Served (remaining s.conn) fuel (session srv fuel s)
  unfolding session codes bytes_eq acknowledgement send
  session-Served fuel s h m =
      let banner = codes "220 " ++ (srv.hostname ++ codes " ESMTP") in
      let (ok, s') = send banner s in
      let h' : Keeps srv 0 (remaining s.conn) s' =
        Keeps-send srv banner s refl (record { sound = h; begun = m; left = omega arith }) in
      let v =
        serve-Served fuel s' (record { sound = h'.sound; begun = h'.begun; left = omega arith }) in
      greeted ok s' h' (serve srv fuel s').0 (serve srv fuel s').1 v.sound
        (λ l. v.settled (omega (arith, h'.left)))
    where
      greeted :
          (ok : Bool) (s' : Session W)
          → Keeps srv 0 (remaining s.conn) s'
          → (ctl : Control) (t : Session W) → IsSound srv 0 t
          → (remaining s.conn < fuel → ctl ≢ spinning)
          → Served (remaining s.conn) fuel (if ok then (ctl, cancel t) else (return, cancel s'))
      greeted true s' h' ctl t v l = record { sound = cancel-IsSound srv 0 t v; settled = l }
      greeted false s' h' ctl t v l = record {
        sound = cancel-IsSound srv 0 s' h'.sound;
        settled = λ _ e. cc;
      }

module _ {W : Type 0} (srv : Receiver W) where
  -- Whatever the client sends, whatever the backend answers, and wherever the connection fails, a
  -- conversation of a server with a valid name stays sound from start to end: it gives back every
  -- slot of the DATA channel; it was sent no more acknowledgements than the backend accepted
  -- messages; and every accepted message had at least one recipient, at most MaxRecipients, valid
  -- mailboxes only, and content of at most MaxMessageBytes.
  pub session-IsSound :
      (fuel : ℕ) (s : Session W) → MayBegin srv s → IsSound srv 0 (session srv fuel s).1
  session-IsSound fuel s h = (session-Served srv h.name fuel s h.sound h.begun).sound

  -- `session` always returns: with fuel for one command more than there are lines of input, in the
  -- clear and under TLS together, the loop never ends for want of fuel.
  pub session_ends :
      (fuel : ℕ) (s : Session W)
      → MayBegin srv s
      → remaining s.conn < fuel
      → (session srv fuel s).0 ≢ spinning
  session_ends fuel s h l = (session-Served srv h.name fuel s h.sound h.begun).settled l

  stop-session : (fuel : ℕ) (s : Session W) → (session srv fuel s).1.stop ≡ false
  unfolding session
  stop-session fuel s = ground (
    arith,
    stop-cancel (serve srv fuel (send (codes "220 " ++ (srv.hostname ++ codes " ESMTP")) s).1).1,
    stop-cancel (send (codes "220 " ++ (srv.hostname ++ codes " ESMTP")) s).1,
  )

  -- However a conversation ends, every transaction context that it made has been cancelled.
  pub session_cancels :
      (fuel : ℕ) (s : Session W)
      → MayBegin srv s
      → (session srv fuel s).1.opened ≡ (session srv fuel s).1.cancelled
  session_cancels fuel s h =
      let end = session-IsSound fuel s h in ground (arith, end.balance, stop-session fuel s)
