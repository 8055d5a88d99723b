-- ===== src/Session/State.antt =====
-- The state of a session (session.go: `Session`, `Reset`, `resetTransactionState`), what it is
-- configured with, its connection, and `writeResponse`.
use smtpd.Prelude.{
  ℕ, ◌-◌, Bool, true, false, Option, none, some, List, [], ◌∷◌, ◌++◌, ltb, if◌then◌else◌,
}
use smtpd.Text.{Bytes}
use smtpd.Smtp.{Error, assert_smtp, error_text}
use smtpd.Plugin.{Plugin, SessionInfo, Context, first_error}

pub data SessionState : Type 0 where
  at_initial at_helo at_mail at_rcpt at_data at_tls_handshake : SessionState

abbrev pub is_mail : SessionState → Bool
is_mail at_mail = true
is_mail _ = false

abbrev pub is_rcpt : SessionState → Bool
is_rcpt at_rcpt = true
is_rcpt _ = false

abbrev pub is_data : SessionState → Bool
is_data at_data = true
is_data _ = false

-- a reply: its code and the texts of its lines
pub record Reply : Type 0 where
  pub code : ℕ
  pub lines : List Bytes

-- `input` are the lines that the client still sends, each with its line feed, before the stream
-- ends; `tls_input` those that it sends once TLS is up. `io` is how many more operations on the
-- connection succeed: a failure ends the session, so the first one is all that matters.
pub record Conn : Type 0 where
  pub input : List Bytes
  pub tls_input : List Bytes
  pub io : ℕ
  pub sent : List Reply

pub record Message : Type 0 where
  pub id : Bytes
  pub sender : Bytes  -- From
  pub recipients : List Bytes  -- To
  pub content : Bytes  -- Data

-- The fields of `Session` that the handlers change, and the messages that it has enqueued.
pub record Core : Type 0 where
  pub state : SessionState
  pub tls : Bool
  pub auth : Bool
  pub helo : Bytes
  pub sender : Bytes
  pub recipients : List Bytes
  pub ctx_sender : Option Bytes
  pub queued : List Message
  pub minted : ℕ  -- how many message identifiers were drawn

-- `W` is the state of the plugins.
pub record Session (W : Type 0) : Type 0 where
  pub conn : Conn
  pub world : W
  pub core : Core
  pub open core use *

-- The fields of `Session` that stay as the server set them, and the answers of what the session
-- calls: the user store, the token validator, the TLS library, the queue and the UUID generator.
pub record Config (W : Type 0) : Type 0 where
  pub server_name : Bytes
  pub force_tls : Bool
  pub tls_config : Bool  -- tlsConfig != nil
  pub tls_created : Bool  -- CreateTLSConfig returned no error
  pub tls_handshake : Bool  -- Handshake returned no error
  pub authenticate : Bytes → Bytes → Option Bool  -- none for an error
  pub jwt_validator : Option (Bytes → Option Bytes)  -- the subject of a token
  pub plugins : List (Plugin W)
  pub local_domains : List Bytes
  pub max_message_size : ℕ
  pub session_id : Bytes
  pub remote_addr : Bytes
  pub local_addr : Bytes
  pub enqueue : Message → Bool  -- Enqueue returned no error
  pub new_id : ℕ → Bytes

-- a nil error, or an error
pub data Outcome : Type 0 where
  done failed : Outcome

unfoldable pub reset_transaction_state : Core → Core
reset_transaction_state c = record c { sender = []; recipients = []; ctx_sender = none }

-- SetDeadline, SetReadDeadline, and every write up to its flush
unfoldable pub spend : Conn → Outcome × Conn
spend c = if ltb 0 c.io then (done, record c { io = c.io - 1 }) else (failed, c)

unfoldable pub write_reply : Reply → Conn → Outcome × Conn
write_reply r c =
    if ltb 0 c.io then (done, record c { io = c.io - 1; sent = c.sent ++ r ∷ [] }) else (failed, c)

unfoldable pub next_line : List Bytes → Conn → Option Bytes × Conn
next_line [] c = (none, c)
next_line (l ∷ ls) c = (some l, record c { input = ls })

-- reader.ReadString('\n')
unfoldable pub read_line : Conn → Option Bytes × Conn
unfolding next_line
read_line c = next_line c.input c

abbrev pub Step : Type 0 → Type 0
Step W = Session W → Outcome × Session W

module _ {W : Type 0} where
  unfoldable pub write_lines : ℕ → List Bytes → Step W
  write_lines code lines s =
      let (r, c) = write_reply (record { code = code; lines = lines }) s.conn in
      (r, record s { conn = c })

  unfoldable pub write_response : ℕ → Bytes → Step W
  unfolding write_lines
  write_response code text = write_lines code (text ∷ [])

  -- the next step, unless the first failed
  unfoldable pub and_then : Step W → Step W → Step W
  and_then m k s = let (r, s') = m s in elim r [ done ↦ k s' | failed ↦ (failed, s') ]

  unfoldable pub set_deadline : Step W
  set_deadline s = let (r, c) = spend s.conn in (r, record s { conn = c })

module _ {W : Type 0} (cfg : Config W) where
  unfoldable pub session_info : Session W → SessionInfo
  session_info s = record {
    session_id = cfg.session_id;
    remote_addr = cfg.remote_addr;
    local_addr = cfg.local_addr;
    is_tls = s.tls;
    helo_domain = s.helo;
  }

  -- the results that a plugin puts into a context of its own do not reach the other plugins
  unfoldable pub context : Option Bytes → Context
  context sender = record {
    session_id = cfg.session_id;
    remote_addr = cfg.remote_addr;
    sender = sender;
    results = record { spf = none; dkim = none };
  }

  -- the reply to a plugin's error; `code` and `text` are for an error that is no smtp.Error
  unfoldable pub reject : ℕ → Bytes → Error → Step W
  reject code text e s = elim (assert_smtp e) [
    | some x ↦ write_response x.code (error_text x) s
    | none ↦ write_response code text s
  ]

  -- the loop over the plugins before a command takes effect
  unfoldable pub policy_gate : (Plugin W → W → Option Error × W) → ℕ → Bytes → Step W → Step W
  unfolding first_error reject
  policy_gate hook code text k s =
      let (e, w) = first_error hook cfg.plugins s.world in
      let s' = record s { world = w } in elim e [ some x ↦ reject code text x s' | none ↦ k s' ]
