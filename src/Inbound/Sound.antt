-- ===== src/Inbound/Sound.antt =====
-- pkg/inbound/server.go: what holds of a conversation between two commands, with a rule for each
-- way in which the handlers are built.
mod Addresses
mod Changes
pub mod Greeting
pub mod Commands
pub mod Data
pub mod Loop
use smtpd.Prelude.{
  ℕ, zero, suc, ◌+◌, ◌-◌, ◌≤◌, ◌<◌, ◌≡◌, ◌≢◌, refl, Bool, true, false, Option, none, some, List, [],
  ◌∷◌, ◌++◌, length, length-append, All, All-append, is_empty, ltb, leb, arith, if◌then◌else◌,
  Bool-cases, inl, inr,
}
use smtpd.Text.{Bytes, codes, bytes_eq}
use smtpd.Inbound.Address.{valid_mailbox}
use smtpd.Inbound.Limits.{Limits}
use smtpd.Inbound.State.{
  Envelope, Delivery, Receiver, Conn, Session, Control, next, return, spinning, write, send, say,
  cancel, reset,
}
use smtpd.Inbound.Replies.{acknowledgement, IsOther}

-- how many acknowledgements the client was sent
abbrev pub acks : List Bytes → ℕ
acks [] = 0
acks (m ∷ ms) = let n = acks ms in if bytes_eq m acknowledgement then suc n else n

acks-append : (ms : List Bytes) (m : Bytes) → acks (ms ++ m ∷ []) ≤ suc (acks ms)
acks-append [] m = ground arith
acks-append (x ∷ ms) m = ground (arith, acks-append ms m)

acks-other : (ms : List Bytes) (m : Bytes) → IsOther m → acks (ms ++ m ∷ []) ≡ acks ms
acks-other [] m h = ground arith
acks-other (x ∷ ms) m h = ground (arith, acks-other ms m h)

abbrev pub remaining : Conn → ℕ
remaining c = length c.input + length c.tls_input

abbrev pub count : Bool → ℕ
count true = 1
count false = 0

remaining-write : (m : Bytes) (c : Conn) → remaining (write m c).1 ≡ remaining c
unfolding write
remaining-write m c = ground arith

acks-write : (m : Bytes) (c : Conn) → IsOther m → acks (write m c).1.sent ≤ acks c.sent
unfolding write
acks-write m c h = ground (arith, acks-other c.sent m h)

acks-write_any : (m : Bytes) (c : Conn) → acks (write m c).1.sent ≤ suc (acks c.sent)
unfolding write
acks-write_any m c = ground (arith, acks-append c.sent m)

module _ {W : Type 0} where
  pub stop-cancel : (s : Session W) → (cancel s).stop ≡ false
  unfolding cancel
  stop-cancel s = ground arith

  conn-cancel : (s : Session W) → (cancel s).conn ≡ s.conn
  unfolding cancel
  conn-cancel s = ground arith

module _ {W : Type 0} (srv : Receiver W) where
  abbrev pub IsMailbox : Bytes → Type 0
  IsMailbox a = valid_mailbox srv.parse_ip a ≡ true

  -- a message that the backend may be given
  pub record IsAcceptable (d : Delivery) : Type 0 where
    pub some_recipient : is_empty d.envelope.recipients ≡ false
    pub recipients : length d.envelope.recipients ≤ srv.limits.max_recipients
    pub valid : All IsMailbox d.envelope.recipients
    pub size : length d.content ≤ srv.limits.max_message_bytes

  -- a conversation that holds `n` slots of the DATA channel
  pub record IsSound (n : ℕ) (s : Session W) : Type 0 where
    pub balance : s.opened ≡ s.cancelled + count s.stop
    pub held : s.held ≡ n
    pub recipients : length s.envelope.recipients ≤ srv.limits.max_recipients
    pub valid : All IsMailbox s.envelope.recipients
    pub stored : All IsAcceptable s.stored
    pub acknowledged : acks s.conn.sent ≤ length s.stored

  -- between commands, with at most `k` lines to come
  pub record Keeps (n k : ℕ) (s : Session W) : Type 0 where
    pub sound : IsSound n s
    pub begun : s.mail ≡ s.stop
    pub left : remaining s.conn ≤ k

  pub record Ends (n k : ℕ) (r : Control × Session W) : Type 0 where
    pub keeps : Keeps n k (r.1)
    pub settled : r.0 ≢ spinning

  cancelled-IsSound :
      (n : ℕ) (b : Bool) (s : Session W)
      → s.stop ≡ b
      → IsSound n s
      → IsSound n (if b then record s { stop = false; cancelled = suc s.cancelled } else s)
  cancelled-IsSound n false s e h = h
  cancelled-IsSound n true s e h = record {
    balance = ground (arith, h.balance);
    held = h.held;
    recipients = h.recipients;
    valid = h.valid;
    stored = h.stored;
    acknowledged = h.acknowledged;
  }

  pub cancel-IsSound : (n : ℕ) (s : Session W) → IsSound n s → IsSound n (cancel s)
  unfolding cancel
  cancel-IsSound n s h = cancelled-IsSound n s.stop s refl h

  module _ {n k : ℕ} where
    pub Ends-if :
        (b : Bool) {x y : Control × Session W}
        → (b ≡ true → Ends n k x)
        → (b ≡ false → Ends n k y)
        → Ends n k (if b then x else y)
    Ends-if true hx hy = hx refl
    Ends-if false hx hy = hy refl

    pub Ends-next : {s : Session W} → Keeps n k s → Ends n k (next, s)
    Ends-next h = record { keeps = h; settled = λ e. cc }

    pub Ends-return : {s : Session W} → Keeps n k s → Ends n k (return, s)
    Ends-return h = record { keeps = h; settled = λ e. cc }

    -- the connection may change as long as no acknowledgement is sent for want of a message
    Keeps-conn :
        (s : Session W) (c : Conn)
        → acks c.sent ≤ length s.stored
        → remaining c ≤ k
        → Keeps n k s
        → Keeps n k (record s { conn = c })
    Keeps-conn s c a l h = record {
      sound = record {
        balance = h.sound.balance;
        held = h.sound.held;
        recipients = h.sound.recipients;
        valid = h.sound.valid;
        stored = h.sound.stored;
        acknowledged = a;
      };
      begun = h.begun;
      left = l;
    }

    pub Keeps-send : (m : Bytes) (s : Session W) → IsOther m → Keeps n k s → Keeps n k (send m s).1
    unfolding send
    Keeps-send m s o h =
        Keeps-conn s (write m s.conn).1 (omega (arith, acks-write m s.conn o, h.sound.acknowledged))
          (omega (arith, remaining-write m s.conn, h.left)) h

    -- the acknowledgement, with a message that has had none
    pub Keeps-acknowledge :
        (m : Bytes) (s : Session W)
        → acks s.conn.sent < length s.stored
        → Keeps n k s
        → Keeps n k (send m s).1
    unfolding send
    Keeps-acknowledge m s a h =
        Keeps-conn s (write m s.conn).1 (omega (arith, acks-write_any m s.conn))
          (omega (arith, remaining-write m s.conn, h.left)) h

    pub Ends-say : (m : Bytes) (s : Session W) → IsOther m → Keeps n k s → Ends n k (say m s)
    unfolding say
    Ends-say m s o h = record { keeps = Keeps-send m s o h; settled = λ e. ground arith }

    pub Keeps-reset : (s : Session W) → Keeps n k s → Keeps n k (reset s)
    unfolding reset
    Keeps-reset s h =
        let c = cancel-IsSound n s h.sound in
        record {
          sound = record {
            balance = c.balance;
            held = c.held;
            recipients = omega arith;
            valid = tt;
            stored = c.stored;
            acknowledged = c.acknowledged;
          };
          begun = rw (stop-cancel s) refl;
          left = rw (conn-cancel s) h.left;
        }
