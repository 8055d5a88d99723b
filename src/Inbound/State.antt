-- ===== src/Inbound/State.antt =====
-- pkg/inbound/server.go: a conversation's state, its backend, its replies and `reset`.
use smtpd.Prelude.{
  ℕ, suc, ◌-◌, Bool, true, false, not, ◌&&◌, Option, none, some, List, [], ◌∷◌, ◌++◌, length, ltb,
  leb, if◌then◌else◌,
}
use smtpd.Text.{Bytes, codes, has_prefix, contains_any}
use smtpd.Smtp.{Error, SmtpError, as_smtp, decimal, error_text}
use smtpd.Inbound.Limits.{Limits}

pub record Envelope : Type 0 where
  pub sender : Bytes  -- From
  pub recipients : List Bytes
  pub remote_ip : Bytes
  pub helo : Bytes
  pub tls : Bool

-- an Accept call that the backend answered without an error
pub record Delivery : Type 0 where
  pub envelope : Envelope
  pub content : Bytes

-- What the receiver calls, on a state `W`: the caller's Backend, the transaction's context, whose
-- `Err` depends on the clock and on cancellation, and the channel of DATA slots, which all
-- conversations share.
pub record Backend (W : Type 0) : Type 0 where
  pub check_recipient : Envelope → Bytes → W → Option Error × W
  pub accept : Envelope → Bytes → W → Option Error × W
  pub tx_err : W → Option Error × W
  pub take_slot : W → Bool × W

pub record Receiver (W : Type 0) : Type 0 where
  pub hostname : Bytes
  pub limits : Limits ℕ
  pub size_text : Bytes  -- fmt.Sprint(MaxMessageBytes)
  pub tls_config : Bool  -- TLSConfig != nil
  pub tls_handshake : Bool  -- HandshakeContext returned no error
  pub buffered : List Bytes → ℕ  -- how many bytes of the lines still to come r has read ahead
  pub parse_ip : Bytes → Bool
  pub backend : Backend W

-- r.Buffered() != 0: where no line is to come, nothing was read ahead
unfoldable pub has_buffered : {W : Type 0} → Receiver W → List Bytes → Bool
has_buffered srv [] = false
has_buffered srv (l ∷ ls) = ltb 0 (srv.buffered (l ∷ ls))

-- `io` is how many more writes succeed
pub record Conn : Type 0 where
  pub input : List Bytes
  pub tls_input : List Bytes
  pub io : ℕ
  pub sent : List Bytes

-- The variables of `session`. `opened` and `cancelled` count the transaction contexts that were
-- made and cancelled, `held` the DATA slots that the conversation holds, and `stored` is the log
-- of its deliveries.
pub record Session (W : Type 0) : Type 0 where
  pub conn : Conn
  pub world : W
  pub envelope : Envelope
  pub mail : Bool
  pub stop : Bool  -- stop != nil
  pub opened : ℕ
  pub cancelled : ℕ
  pub held : ℕ
  pub stored : List Delivery

-- the next command, or a return from `session`
pub data Control : Type 0 where
  next : Control
  return : Control
  spinning : Control  -- the model's own, for fuel that ran out

-- the closure `send`
unfoldable pub write : Bytes → Conn → Bool × Conn
write msg c =
    if ltb 0 c.io then (true, record c { io = c.io - 1; sent = c.sent ++ msg ∷ [] }) else (false, c)

unfoldable pub is_failure_code : ℕ → Bool
is_failure_code code = leb 400 code && leb code 599

unfoldable pub is_safe_message : SmtpError → Bool
is_safe_message e =
    let message = error_text e in
    leb (length message) 400
    && (has_prefix message (decimal e.code ++ 32 ∷ []) && not (contains_any message (13 ∷ 10 ∷ [])))

unfoldable pub reply_error : Error → Bytes
unfolding is_failure_code is_safe_message
reply_error err = elim (as_smtp err) [
  | none ↦ codes "451 Temporary local failure"
  | some e ↦
      if is_failure_code e.code && is_safe_message e
      then error_text e
      else codes "451 Temporary local failure"
]

module _ {W : Type 0} where
  unfoldable pub send : Bytes → Session W → Bool × Session W
  send msg s = let (ok, c) = write msg s.conn in (ok, record s { conn = c })

  -- if !send(msg) { return }
  unfoldable pub say : Bytes → Session W → Control × Session W
  unfolding send
  say msg s = let (ok, s') = send msg s in (if ok then next else return, s')

  -- if stop != nil { stop(); stop = nil }
  unfoldable pub cancel : Session W → Session W
  cancel s = if s.stop then record s { stop = false; cancelled = suc s.cancelled } else s

  -- the closure `reset`
  unfoldable pub reset : Session W → Session W
  unfolding cancel
  reset s =
      let s' = cancel s in
      record s' { envelope = record s'.envelope { sender = []; recipients = [] }; mail = false }
