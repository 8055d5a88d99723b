-- ===== src/Session/Progress.antt =====
-- session.go: how many lines are left to read, with a rule for each way in which the handlers are
-- built.
pub mod Handlers
pub mod Auth
pub mod Loop
use smtpd.Prelude.{
  ℕ, zero, suc, ◌+◌, ◌≤◌, ◌<◌, ◌≡◌, ◌≢◌, refl, Bool, true, false, not, Option, none, some, List, [],
  ◌∷◌, ◌++◌, length, is_empty, arith, if◌then◌else◌,
}
use smtpd.Text.{Bytes, codes, bytes_eq, trim_space, fields, to_upper, join_space}
use smtpd.Base64.{decode}
use smtpd.Smtp.{Error, SmtpError, assert_smtp, error_text}
use smtpd.Session.Envelope.{
  handle_mail, check_sender, accept_sender, handle_rcpt, check_recipient, accept_recipient,
}
use smtpd.Plugin.{Plugin, first_error}
use smtpd.Session.State.{
  Conn, Reply, Session, Config, Outcome, done, failed, Step, spend, write_reply, write_lines,
  write_response, and_then, set_deadline, reject, policy_gate, read_line, next_line,
}
use smtpd.Session.Data.{
  terminator, Transfer, complete, oversize, broken, drain, unstuff, read_message, enqueue_message,
  accept_message, reject_oversize, finish_transfer, receive, handle_data,
}

-- the lines that the client has still to send
abbrev pub remaining : Conn → ℕ
remaining c = length c.input + length c.tls_input

pub record Reads {W : Type 0} (n : ℕ) (r : Outcome × Session W) : Type 0 where
  pub bound : remaining (r.1).conn ≤ n

remaining-write_reply : (r : Reply) (c : Conn) → remaining (write_reply r c).1 ≡ remaining c
unfolding write_reply
remaining-write_reply r c = ground arith

module _ {W : Type 0} {n : ℕ} where
  pub Reads-if :
      (b : Bool) {x y : Outcome × Session W} → Reads n x → Reads n y → Reads n (if b then x else y)
  Reads-if true hx hy = hx
  Reads-if false hx hy = hy

  pub Reads-lines :
      (code : ℕ) (ls : List Bytes) (s : Session W)
      → remaining s.conn ≤ n
      → Reads n (write_lines code ls s)
  unfolding write_lines
  Reads-lines code ls s h = record { bound = rw remaining-write_reply h }

  pub Reads-write :
      (code : ℕ) (text : Bytes) (s : Session W)
      → remaining s.conn ≤ n
      → Reads n (write_response code text s)
  unfolding write_response
  Reads-write code text s h = Reads-lines code _ s h

  pub Reads-and_then :
      (m k : Step W) (s : Session W)
      → Reads n (m s)
      → ((s' : Session W) → remaining s'.conn ≤ n → Reads n (k s'))
      → Reads n (and_then m k s)
  unfolding and_then
  Reads-and_then m k s h hk = outcome (m s).0 (hk (m s).1 h.bound)
    where
      outcome :
          (r : Outcome)
          → Reads n (k (m s).1)
          → Reads {W = W} n (elim r [ done ↦ k (m s).1 | failed ↦ (failed, (m s).1) ])
      outcome done t = t
      outcome failed t = record { bound = h.bound }

  pub Reads-set_deadline : (s : Session W) → remaining s.conn ≤ n → Reads n (set_deadline s)
  unfolding set_deadline spend
  Reads-set_deadline s h = ground arith

module _ {W : Type 0} {n : ℕ} (cfg : Config W) where
  Reads-reject :
      (code : ℕ) (text : Bytes) (e : Error) (s : Session W)
      → remaining s.conn ≤ n
      → Reads n (reject cfg code text e s)
  unfolding reject
  Reads-reject code text e s h = answer (assert_smtp e)
    where
      answer :
          (o : Option SmtpError)
          → Reads {W = W} n (elim o [
            | some x ↦ write_response x.code (error_text x) s
            | none ↦ write_response code text s
          ])
      answer none = Reads-write code text s h
      answer (some x) = Reads-write x.code (error_text x) s h

  pub Reads-policy_gate :
      (hook : Plugin W → W → Option Error × W) (code : ℕ) (text : Bytes) (k : Step W)
      (s : Session W)
      → remaining s.conn ≤ n
      → ((s' : Session W) → remaining s'.conn ≤ n → Reads n (k s'))
      → Reads n (policy_gate cfg hook code text k s)
  unfolding policy_gate
  Reads-policy_gate hook code text k s m h =
      let (e, w) = first_error hook cfg.plugins s.world in verdict e w
    where
      verdict :
          (e : Option Error) (w : W)
          → Reads {W = W} n (elim e [
            | some x ↦ reject cfg code text x (record s { world = w })
            | none ↦ k (record s { world = w })
          ])
      verdict none w = h (record s { world = w }) m
      verdict (some x) w = Reads-reject code text x (record s { world = w }) m

pub ruleset reads_rules =
    (Reads-if, Reads-lines, Reads-write, Reads-and_then, Reads-set_deadline, Reads-policy_gate)
