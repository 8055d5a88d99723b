-- ===== src/Session/Tests.antt =====
-- A conversation with a server for example.com, and the theorems about sessions at concrete inputs.
use smtpd.Prelude.{
  ℕ, ◌≡◌, ◌≢◌, refl, inl, true, false, none, some, List, [], ◌∷◌, ◌++◌, map, arith, String,
}
use smtpd.Text.{
  Bytes, codes, is_angle, trim_space, trim_angles, trim_prefix, fields, join_space, to_upper,
  has_prefix, contains, after_last, equal_fold, bytes_eq, split, split_n,
}
use smtpd.Session.State
use smtpd.Base64.{decode}
use smtpd.Session.State.{
  Conn, Reply, Message, Core, Session, Config, Outcome, at_initial, at_mail, at_rcpt,
  write_response,
}
use smtpd.Session.Loop.{Control, spinning, handle}
use smtpd.Session.Moves.{Moves, Accepted, password, token}
use smtpd.Session.Moves.Loop.{handle-Moves}
use smtpd.Session.Relay.{IsClosedRelay, handle-IsClosedRelay}
use smtpd.Session.Encryption.{handle_encrypted}
use smtpd.Session.Phases.{IsPhased, handle-IsPhased}
use smtpd.Session.Progress.Loop.{handle_ends}
use smtpd.Session.Transfer.{sent, joined, read_message-round_trip}
use smtpd.Session.Helo.{handle_helo, handle_rset, handle_starttls}
use smtpd.Session.Envelope.{
  is_valid_email, address_of, is_local_recipient, handle_mail, handle_rcpt,
}
use smtpd.Session.Auth.{handle_auth}
use smtpd.Session.Data.{complete, terminator, drain, unstuff, read_message, handle_data}
use smtpd.Session.Lines.{IsBare, mail_line, lower_mail_line, handle_mail_sender, handle_mail_lower}

abbrev crlf : String → Bytes
crlf t = codes t ++ 13 ∷ 10 ∷ []

abbrev config : Config (Unit {0})
config = record {
  server_name = codes "smtpd";
  force_tls = false;
  tls_config = true;
  tls_created = true;
  tls_handshake = true;
  authenticate = λ u p. some false;
  jwt_validator = none;
  plugins = [];
  local_domains = codes "example.com" ∷ [];
  max_message_size = 100;
  session_id = [];
  remote_addr = [];
  local_addr = [];
  enqueue = λ m. true;
  new_id = λ n. n ∷ [];
}

abbrev script : List Bytes
script = map crlf (
    "EHLO client" ∷ "MAIL FROM:<a@b.org>" ∷ "RCPT TO:<x@other.net>" ∷ "RCPT TO:<Bob@EXAMPLE.com>"
    ∷ "DATA" ∷ "hello" ∷ "..dot" ∷ "." ∷ "QUIT" ∷ [])

abbrev new_core : Core
new_core = record {
  state = at_initial;
  tls = false;
  auth = false;
  helo = [];
  sender = [];
  recipients = [];
  ctx_sender = none;
  queued = [];
  minted = 0;
}

abbrev start : Session (Unit {0})
start = record {
  conn = record { input = script; tls_input = []; io = 100; sent = [] };
  world = tt;
  core = new_core;
}

-- what the user store and the token validator of `config` answer
refused : ¬ Accepted config
refused (password u p e) = cc
refused (token v t x e f) = cc

-- unfolding `run` opens all that a conversation runs through
run : ℕ → Session (Unit {0}) → Control × Session (Unit {0})
unfolding handle State.write_response State.write_reply State.spend State.read_line State.and_then
    State.set_deadline State.policy_gate State.reset_transaction_state handle_helo handle_rset
    handle_starttls handle_mail handle_rcpt handle_data handle_auth decode is_valid_email address_of
    is_local_recipient read_message drain unstuff terminator codes trim_space trim_angles
    trim_prefix fields join_space to_upper has_prefix contains after_last equal_fold bytes_eq split
    split_n
run = handle config

-- the relay attempt is denied, the local recipient is taken, and the doubled dot is undone
script_runs :
    map (λ (r : Reply). r.code) (handle config 20 start).1.conn.sent
    ≡ 220 ∷ 250 ∷ 250 ∷ 550 ∷ 250 ∷ 354 ∷ 250 ∷ 221 ∷ []
unfolding run
script_runs = refl

script_enqueues :
    (handle config 20 start).1.core.queued
    ≡ record {
      id = 0 ∷ [];
      sender = codes "a@b.org";
      recipients = codes "Bob@EXAMPLE.com" ∷ [];
      content = crlf "hello" ++ crlf ".dot";
    }
      ∷ []
unfolding run
script_enqueues = refl

handle-Moves_example : Moves config new_core (handle config 20 start).1.core
handle-Moves_example = handle-Moves config 20 start

handle-IsClosedRelay_example : IsClosedRelay config (handle config 20 start).1.core
handle-IsClosedRelay_example =
    handle-IsClosedRelay config 20 start refused
      (record { anonymous = refl; recipients = tt; queued = tt })

-- the client brings up TLS, and then names the user "a" with the password "b"
abbrev login : Session (Unit {0})
login = record start {
  conn = record {
    input = map crlf ("EHLO c" ∷ "STARTTLS" ∷ []);
    tls_input = map crlf ("EHLO c" ∷ "AUTH PLAIN AGEAYg==" ∷ "QUIT" ∷ []);
    io = 20;
    sent = [];
  };
}

abbrev trusting : Config (Unit {0})
trusting = record config { authenticate = λ u p. some true }

handle_encrypted_example : (handle trusting 9 login).1.tls ≡ true
handle_encrypted_example = handle_encrypted trusting 9 login (inl refl) refl (unfold run in refl)

handle-IsPhased_example : IsPhased config (handle config 20 start).1.core
handle-IsPhased_example = handle-IsPhased config 20 start (record {
  sender = λ e. ground arith;
  known = λ e. ground arith;
  first = λ e. refl;
  later = λ e. cc;
  recipients = tt;
  queued = tt;
})

handle_ends_example : (handle config 20 start).0 ≢ spinning
handle_ends_example = handle_ends config 20 start (omega arith)

abbrev body : List Bytes
body = crlf "hello" ∷ crlf ".dot" ∷ crlf "." ∷ []

read_message-round_trip_example :
    read_message 100 [] (sent body (crlf "QUIT" ∷ [])) ≡ (complete (joined body), crlf "QUIT" ∷ [])
unfolding codes
read_message-round_trip_example = read_message-round_trip 100 body (crlf "QUIT" ∷ [])

abbrev greeted : Session (Unit {0})
greeted = record start { core = record new_core { state = at_mail } }

abbrev alice : Bytes
alice = b'a' ∷ b'@' ∷ b'b' ∷ []

alice-IsBare : IsBare alice
unfolding is_angle
alice-IsBare = record {
  first = b'a';
  inner = b'@' ∷ b'b' ∷ [];
  starts = refl;
  opens = refl;
  last = b'b';
  front = b'a' ∷ b'@' ∷ [];
  ends = refl;
  closes = refl;
}

handle_mail_sender_example :
    ((handle_mail config (mail_line alice) greeted).1.sender ≡ alice)
    × ((handle_mail config (mail_line alice) greeted).1.state ≡ at_rcpt)
handle_mail_sender_example =
    handle_mail_sender config greeted alice refl alice-IsBare refl (unfold run in refl)

handle_mail_lower_example :
    ((handle_mail config (lower_mail_line alice) greeted).1.sender ≡ codes "mail from:<" ++ alice)
    × ((handle_mail config (lower_mail_line alice) greeted).1.state ≡ at_rcpt)
handle_mail_lower_example =
    handle_mail_lower config greeted alice refl alice-IsBare refl (unfold run in refl)
