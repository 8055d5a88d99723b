-- ===== src/Session/Progress/Loop.antt =====
-- session.go: the lines that each round of `Handle` leaves, and the fuel for them.
use smtpd.Prelude.{
  ℕ, zero, suc, ◌≤◌, ◌<◌, ◌≡◌, ◌≢◌, refl, Bool, true, false, Option, none, some, List, [], ◌∷◌,
  is_empty, arith, if◌then◌else◌,
}
use smtpd.Text.{Bytes, codes, to_upper, trim_space, fields, join_space}
use smtpd.Session.State.{
  Conn, Session, Config, Outcome, done, failed, write_response, spend, read_line, next_line,
}
use smtpd.Session.Loop
use smtpd.Session.Loop.{
  Command, Control, next, closed, aborted, spinning, go_on, command_of, run_command, run_words,
  run_line, run_input, round, serve, handle,
}
use smtpd.Session.Progress.{remaining, Reads, Reads-write}
use smtpd.Session.Progress.Handlers.{
  handle_helo-Reads, handle_rset-Reads, handle_starttls-Reads, handle_mail-Reads, handle_rcpt-Reads,
  handle_data-Reads,
}
use smtpd.Session.Progress.Auth.{handle_auth-Reads}

-- a result of a round, from `n` lines at its start: the loop goes on with at most so many
record Rests {W : Type 0} (n : ℕ) (r : Control × Session W) : Type 0 where
  bound : remaining (r.1).conn ≤ n
  settled : r.0 ≢ spinning

go_on_ne_spinning : (o : Outcome) → go_on o ≢ spinning
go_on_ne_spinning done e = cc
go_on_ne_spinning failed e = cc

module _ {W : Type 0} {n : ℕ} where
  rests : (r : Outcome × Session W) → Reads n r → Rests {W = W} n (go_on r.0, r.1)
  rests r h = record { bound = h.bound; settled = go_on_ne_spinning r.0 }

module _ {W : Type 0} (cfg : Config W) (n : ℕ) where
  run_command-Rests :
      (cmd : Command) (line args : Bytes) (s : Session W)
      → remaining s.conn ≤ n
      → Rests n (run_command cfg cmd line args s)
  unfolding run_command
  run_command-Rests Loop.quit line args s h = record {
    bound = (Reads-write 221 (codes "Goodbye") s h).bound;
    settled = λ e. cc;
  }
  run_command-Rests Loop.helo line args s h = rests _ (handle_helo-Reads cfg false args s h)
  run_command-Rests Loop.ehlo line args s h = rests _ (handle_helo-Reads cfg true args s h)
  run_command-Rests Loop.mail line args s h = rests _ (handle_mail-Reads cfg line s h)
  run_command-Rests Loop.rcpt line args s h = rests _ (handle_rcpt-Reads cfg line s h)
  run_command-Rests Loop.content line args s h = rests _ (handle_data-Reads cfg s h)
  run_command-Rests Loop.rset line args s h = rests _ (handle_rset-Reads cfg s h)
  run_command-Rests Loop.starttls line args s h = rests _ (handle_starttls-Reads cfg s h)
  run_command-Rests Loop.auth line args s h = rests _ (handle_auth-Reads cfg line s h)
  run_command-Rests Loop.noop line args s h = rests _ (Reads-write 250 (codes "OK") s h)
  run_command-Rests Loop.unknown line args s h =
      rests _ (Reads-write 500 (codes "Unknown command") s h)

  run_words-Rests :
      (line : Bytes) (ws : List Bytes) (s : Session W)
      → remaining s.conn ≤ n
      → Rests n (run_words cfg line ws s)
  unfolding run_words
  run_words-Rests line [] s h = record { bound = h; settled = λ e. cc }
  run_words-Rests line (verb ∷ args) s h =
      run_command-Rests (command_of (to_upper verb)) line (join_space args) s h

  blank_or_words :
      (b : Bool) (line : Bytes) (s : Session W)
      → remaining s.conn ≤ n
      → Rests {W = W} n (if b then (next, s) else run_words cfg line (fields line) s)
  blank_or_words true line s h = record { bound = h; settled = λ e. cc }
  blank_or_words false line s h = run_words-Rests line (fields line) s h

  run_line-Rests :
      (raw : Bytes) (s : Session W) → remaining s.conn ≤ n → Rests n (run_line cfg raw s)
  unfolding run_line
  run_line-Rests raw s h = blank_or_words (is_empty (trim_space raw)) (trim_space raw) s h

-- what a round that goes on leaves is less than what it found
abbrev Progress : {W : Type 0} → ℕ → Control × Session W → Type 0
Progress n r = (r.0 ≢ spinning) × (r.0 ≡ next → suc (remaining (r.1).conn) ≤ n)

read_line_less :
    (ls : List Bytes) (c : Conn) {raw : Bytes}
    → c.input ≡ ls
    → (next_line ls c).0 ≡ some raw
    → suc (remaining (next_line ls c).1) ≤ remaining c
unfolding next_line
read_line_less [] c e h = cc
read_line_less (l ∷ ls) c e h = rw e (omega arith)

module _ {W : Type 0} (cfg : Config W) where
  run_input-Progress :
      (n : ℕ) (l : Option Bytes) (s : Session W)
      → ((raw : Bytes) → l ≡ some raw → suc (remaining s.conn) ≤ n)
      → Progress n (run_input cfg l s)
  unfolding run_input
  run_input-Progress n none s h = ((λ e. cc), (λ e. cc))
  run_input-Progress n (some raw) s h =
      let r : Rests (remaining s.conn) (run_line cfg raw s) =
        run_line-Rests cfg (remaining s.conn) raw s (omega arith) in
      (r.settled, λ e. omega (arith, r.bound, h raw refl))

  remaining-spend : (c : Conn) → remaining (spend c).1 ≡ remaining c
  unfolding spend
  remaining-spend c = ground arith

  round-Progress : (s : Session W) → Progress (remaining s.conn) (round cfg s)
  unfolding round read_line
  round-Progress s =
      let (r, c) = spend s.conn in
      let (l, c') = read_line c in
      within r (run_input cfg l (record s { conn = c' })) (record s { conn = c })
        (run_input-Progress (remaining s.conn) l (record s { conn = c' })
          λ raw e.
            omega (arith, read_line_less c.input c {raw = raw} refl e, remaining-spend s.conn))
    where
      within :
          (r : Outcome) (x : Control × Session W) (t : Session W)
          → Progress (remaining s.conn) x
          → Progress
              (remaining s.conn)
              (elim r as (λ _. Control × Session W) [ done ↦ x | failed ↦ (aborted, t) ])
      within done x t p = p
      within failed x t p = ((λ e. cc), (λ e. cc))

  serve_ends :
      (fuel : ℕ) (s : Session W) → remaining s.conn < fuel → (serve cfg fuel s).0 ≢ spinning
  unfolding serve
  serve_ends zero s h = elim h [ ]
  serve_ends (suc fuel) s h =
      let (ctl, s') = round cfg s in rest ctl s' (round-Progress s) (serve_ends fuel s')
    where
      rest :
          (ctl : Control) (s' : Session W)
          → Progress (remaining s.conn) (ctl, s')
          → (remaining s'.conn < fuel → (serve cfg fuel s').0 ≢ spinning)
          → (elim ctl as (λ _. Control × Session W) [
            | next ↦ serve cfg fuel s'
            | stop ↦ (stop, s')
          ]).0
            ≢ spinning
      rest next s' p ih = ih (omega (arith, p.1 refl))
      rest closed s' p ih = p.0
      rest aborted s' p ih = p.0
      rest spinning s' p ih = p.0

  -- `Handle` always returns: with fuel for one round more than there are lines of input, in the
  -- clear and under TLS together, the loop ends by QUIT, by the end of the input or by an error of
  -- the connection, and never for want of fuel.
  pub handle_ends :
      (fuel : ℕ) (s : Session W) → remaining s.conn < fuel → (handle cfg fuel s).0 ≢ spinning
  unfolding handle
  handle_ends fuel s h =
      let (r, s') = write_response 220 (codes "smtpd Service Ready") s in
      greeted r s' (
        serve_ends fuel s' (
          omega (
            arith,
            (Reads-write {n = remaining s.conn} 220 (codes "smtpd Service Ready") s
                (omega arith)).bound,
          )))
    where
      greeted :
          (r : Outcome) (s' : Session W)
          → (serve cfg fuel s').0 ≢ spinning
          → (elim r as (λ _. Control × Session W) [
            | done ↦ serve cfg fuel s'
            | failed ↦ (aborted, s')
          ]).0
            ≢ spinning
      greeted done s' p = p
      greeted failed s' p = λ e. cc
