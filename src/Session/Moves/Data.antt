-- ===== src/Session/Moves/Data.antt =====
-- session.go: the moves of DATA.
use mathlib.Core.Path.{subst}
use smtpd.Prelude.{
  ℕ, ◌≤◌, ◌≡◌, ◌∙◌, refl, sym, ap, false, not, List, [], ◌∷◌, ◌++◌, length, is_empty, arith,
  length-append,
}
use smtpd.Text.{Bytes, codes}
use smtpd.Session.State.{
  SessionState, is_data, at_data, Core, Session, Config, write_response, and_then, set_deadline,
}
use smtpd.Session.Data.{
  Transfer, complete, oversize, broken, drain, unstuff, read_message, enqueue_message,
  accept_message, reject_oversize, finish_transfer, receive, handle_data,
}
use smtpd.Session.Moves.{Move, stay, enqueue, mint, discard, made}
use smtpd.Session.Moves.Rules.{
  To, To-if, To-write, To-and_then, To-policy_gate, core-set_deadline, core-write_response,
}

at_data_of : (st : SessionState) → not (is_data st) ≡ false → st ≡ at_data
at_data_of st h = ground arith

drain_incomplete : (ls : List Bytes) (b : Bytes) → ¬ ((drain ls).0 ≡ complete b)
unfolding drain
drain_incomplete [] b h = cc
drain_incomplete (l ∷ ls) b h = ground (arith, drain_incomplete ls b)

-- What is read is within the limit: the test comes before each write to the buffer.
pub read_message_bounded :
    (max : ℕ) (buf : Bytes) (ls : List Bytes) (b : Bytes)
    → length buf ≤ max
    → (read_message max buf ls).0 ≡ complete b
    → length b ≤ max
unfolding read_message
read_message_bounded max buf [] b h e = cc
read_message_bounded max buf (l ∷ ls) b h e = ground (
  arith,
  drain_incomplete ls b,
  length-append buf (unstuff l),
  read_message_bounded max (buf ++ unstuff l) ls b,
)

module _ {W : Type 0} (cfg : Config W) where
  -- each step of a transfer runs from the core `c`
  enqueue_message-Move :
      (content : Bytes) (s : Session W)
      → s.state ≡ at_data
      → is_empty s.recipients ≡ false
      → length content ≤ cfg.max_message_size
      → To cfg s.core (enqueue_message cfg content s)
  unfolding enqueue_message
  enqueue_message-Move content s st full fits =
      To-if cfg s.core (cfg.enqueue (made cfg s.core content))
        (λ e. To-write cfg s.core _ _ _ (enqueue content st full fits e))
        (λ _. To-write cfg s.core _ _ _ (mint st))

  accept_message-Move :
      (content : Bytes) (s : Session W)
      → s.state ≡ at_data
      → is_empty s.recipients ≡ false
      → length content ≤ cfg.max_message_size
      → To cfg s.core (accept_message cfg content s)
  unfolding accept_message
  accept_message-Move content s st full fits =
      To-policy_gate cfg s.core _ _ _ _ s stay
        λ w. enqueue_message-Move content (record s { world = w }) st full fits

  finish_transfer-Move :
      (t : Transfer) (s : Session W)
      → s.state ≡ at_data
      → is_empty s.recipients ≡ false
      → ((b : Bytes) → t ≡ complete b → length b ≤ cfg.max_message_size)
      → To cfg s.core (finish_transfer cfg t s)
  unfolding finish_transfer reject_oversize
  finish_transfer-Move (complete b) s st full fits =
      To-and_then cfg s.core _ _ s (core-set_deadline s) stay λ s' e.
        subst (λ c. To cfg c (accept_message cfg b s')) e
          (accept_message-Move b s' (ap (λ (c : Core). c.state) e ∙ st)
            (ap (λ (c : Core). is_empty c.recipients) e ∙ full) (fits b refl))
  finish_transfer-Move oversize s st full fits = To-write cfg s.core _ _ _ (discard st)
  finish_transfer-Move broken s st full fits = record { move = stay }

  receive-Move :
      (s : Session W)
      → s.state ≡ at_data
      → is_empty s.recipients ≡ false
      → To cfg s.core (receive cfg s)
  unfolding receive
  receive-Move s st full =
      let (t, rest) = read_message cfg.max_message_size [] s.conn.input in
      finish_transfer-Move t (record s { conn = record s.conn { input = rest } }) st full
        λ b e. read_message_bounded cfg.max_message_size [] s.conn.input b (omega arith) e

  transfer-Move :
      (s : Session W)
      → s.state ≡ at_data
      → is_empty s.recipients ≡ false
      → To cfg s.core (
          and_then set_deadline
            (and_then (write_response 354 (codes "End data with <CR><LF>.<CR><LF>")) (receive cfg))
            s)
  transfer-Move s st full = To-and_then cfg s.core _ _ s (core-set_deadline s) stay λ t e.
      To-and_then cfg s.core _ _ t (core-write_response _ _ t)
        (subst (Move cfg s.core) (sym e) stay)
        λ u e'.
          subst (λ c. To cfg c (receive cfg u)) (e' ∙ e)
            (receive-Move u (ap (λ (c : Core). c.state) (e' ∙ e) ∙ st)
              (ap (λ (c : Core). is_empty c.recipients) (e' ∙ e) ∙ full))

  pub handle_data-Move : (s : Session W) → To cfg s.core (handle_data cfg s)
  unfolding handle_data
  handle_data-Move s =
      To-if cfg s.core (not (is_data s.state)) (λ _. To-write cfg s.core _ _ s stay)
        λ st.
          To-if cfg s.core (is_empty s.recipients) (λ _. To-write cfg s.core _ _ s stay)
            λ full.
              To-policy_gate cfg s.core _ _ _ _ s stay
                λ w. transfer-Move (record s { world = w }) (at_data_of s.state st) full
