-- ===== src/Session/Moves/Loop.antt =====
-- session.go: `Handle` as a sequence of moves.
use mathlib.Core.Path.{subst}
use smtpd.Prelude.{
  ℕ, zero, suc, ◌≡◌, refl, sym, Bool, true, false, Option, none, some, List, [], ◌∷◌, is_empty,
  if◌then◌else◌,
}
use smtpd.Text.{Bytes, codes, to_upper, trim_space, fields, join_space}
use smtpd.Session.State.{Session, Config, Outcome, done, failed, write_response, spend, read_line}
use smtpd.Session.Loop
use smtpd.Session.Loop.{
  Command, Control, next, closed, aborted, spinning, command_of, run_command, run_words, run_line,
  run_input, round, serve, handle,
}
use smtpd.Session.Moves.{Move, Moves, stay, here, more, Moves-append}
use smtpd.Session.Moves.Rules.{core-write_response}
use smtpd.Session.Moves.Envelope.{
  handle_helo-Move, handle_rset-Move, handle_starttls-Move, handle_mail-Move, handle_rcpt-Move,
}
use smtpd.Session.Moves.Data.{handle_data-Move}
use smtpd.Session.Moves.Auth.{handle_auth-Move}

module _ {W : Type 0} (cfg : Config W) where
  -- Every command makes one move.
  pub run_command-Move :
      (cmd : Command) (line args : Bytes) (s : Session W)
      → Move cfg s.core (run_command cfg cmd line args s).1.core
  unfolding run_command write_response
  run_command-Move Loop.quit line args s = stay
  run_command-Move Loop.helo line args s = (handle_helo-Move cfg false args s).move
  run_command-Move Loop.ehlo line args s = (handle_helo-Move cfg true args s).move
  run_command-Move Loop.mail line args s = (handle_mail-Move cfg line s).move
  run_command-Move Loop.rcpt line args s = (handle_rcpt-Move cfg line s).move
  run_command-Move Loop.content line args s = (handle_data-Move cfg s).move
  run_command-Move Loop.rset line args s = (handle_rset-Move cfg s).move
  run_command-Move Loop.starttls line args s = (handle_starttls-Move cfg s).move
  run_command-Move Loop.auth line args s = (handle_auth-Move cfg line s).move
  run_command-Move Loop.noop line args s = stay
  run_command-Move Loop.unknown line args s = stay

  run_words-Move :
      (line : Bytes) (ws : List Bytes) (s : Session W)
      → Move cfg s.core (run_words cfg line ws s).1.core
  unfolding run_words
  run_words-Move line [] s = stay
  run_words-Move line (verb ∷ args) s =
      run_command-Move (command_of (to_upper verb)) line (join_space args) s

  blank_or_words :
      (b : Bool) (line : Bytes) (s : Session W)
      → Move cfg s.core (if b then (next, s) else run_words cfg line (fields line) s).1.core
  blank_or_words true line s = stay
  blank_or_words false line s = run_words-Move line (fields line) s

  run_input-Move : (l : Option Bytes) (s : Session W) → Move cfg s.core (run_input cfg l s).1.core
  unfolding run_input run_line
  run_input-Move none s = stay
  run_input-Move (some raw) s = blank_or_words (is_empty (trim_space raw)) (trim_space raw) s

  -- Every round of the loop makes one move.
  pub round-Move : (s : Session W) → Move cfg s.core (round cfg s).1.core
  unfolding round
  round-Move s =
      let (r, c) = spend s.conn in
      let (l, c') = read_line c in
      within r l (record s { conn = c }) (record s { conn = c' }) refl refl
    where
      within :
          (r : Outcome) (l : Option Bytes) (t u : Session W)
          → t.core ≡ s.core
          → u.core ≡ s.core
          → Move cfg s.core
              (elim r as (λ _. Control × Session W) [
                | done ↦ run_input cfg l u
                | failed ↦ (aborted, t)
              ]).1.core
      within done l t u e k =
          subst (λ c. Move cfg c (run_input cfg l u).1.core) k (run_input-Move l u)
      within failed l t u e k = subst (Move cfg s.core) (sym e) stay

  pub serve-Moves : (fuel : ℕ) (s : Session W) → Moves cfg s.core (serve cfg fuel s).1.core
  unfolding serve
  serve-Moves zero s = here
  serve-Moves (suc fuel) s =
      let (ctl, s') = round cfg s in rest ctl s' (round-Move s) (serve-Moves fuel s')
    where
      rest :
          (ctl : Control) (s' : Session W)
          → Move cfg s.core s'.core
          → Moves cfg s'.core (serve cfg fuel s').1.core
          → Moves cfg s.core
              (elim ctl as (λ _. Control × Session W) [
                | next ↦ serve cfg fuel s'
                | stop ↦ (stop, s')
              ]).1.core
      rest next s' m ms = Moves-append cfg (more here m) ms
      rest _ s' m ms = more here m

  -- Whatever lines the client sends, whatever the plugins, the user store and the token validator
  -- answer, and wherever the connection fails, the state in which the session ends is reached from
  -- the one it began in by moves of the specification.
  pub handle-Moves : (fuel : ℕ) (s : Session W) → Moves cfg s.core (handle cfg fuel s).1.core
  unfolding handle write_response
  handle-Moves fuel s =
      let (r, s') = write_response 220 (codes "smtpd Service Ready") s in
      greeted r s' (core-write_response 220 (codes "smtpd Service Ready") s)
    where
      greeted :
          (r : Outcome) (s' : Session W)
          → s'.core ≡ s.core
          → Moves cfg s.core
              (elim r as (λ _. Control × Session W) [
                | done ↦ serve cfg fuel s'
                | failed ↦ (aborted, s')
              ]).1.core
      greeted done s' e =
          subst (λ c. Moves cfg c (serve cfg fuel s').1.core) e (serve-Moves fuel s')
      greeted failed s' e = subst (Moves cfg s.core) (sym e) here
