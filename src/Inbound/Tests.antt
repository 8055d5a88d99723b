-- ===== src/Inbound/Tests.antt =====
-- A conversation with a receiver for example.com, and the theorems about it at concrete inputs.
use smtpd.Prelude.{
  ℤ, pos, ℕ, ◌≡◌, ◌≢◌, refl, true, false, none, some, List, [], ◌∷◌, ◌++◌, map, arith, String,
}
use smtpd.Text.{
  Bytes, codes, bytes_eq, to_upper, cut, has_prefix, has_suffix, split, trim_suffix, fields,
  contains, contains_byte,
}
use smtpd.Inbound.Address.{valid_host, path, mail_path}
use smtpd.Inbound.Limits.{Limits, new, apply_defaults, limit_or, IsConfigured, new-IsConfigured}
use smtpd.Inbound.Admission.{Admission, arrive}
use smtpd.Inbound.State.{
  Delivery, Backend, Receiver, Session, Control, spinning, write, send, say, reset,
}
use smtpd.Inbound.Commands.{handle_helo, handle_starttls, handle_mail, handle_rcpt, handle_rset}
use smtpd.Inbound.Data.{
  handle_data, read_body, undot, well_framed, has_cr, terminator, receive, release,
}
use smtpd.Inbound.Loop.{session, serve, run_input, run_line, run_command}
use smtpd.Inbound.Sound.{IsSound}
use smtpd.Inbound.Sound.Loop.{MayBegin, session-IsSound, session_ends, session_cancels}
use smtpd.Inbound.Transfer.{sent, read_body-round_trip}
use smtpd.Session.Transfer.{joined}

abbrev crlf : String → Bytes
crlf t = codes t ++ 13 ∷ 10 ∷ []

abbrev name : Bytes
name = codes "mx.example.com"

abbrev limits : Limits ℕ
limits = record {
  max_message_bytes = 100;
  max_recipients = 2;
  max_connections = 3;
  max_data = 1;
  max_connections_per_ip = 2;
  connections_per_minute = 4;
  max_tracked_ips = 5;
  idle_timeout = 1;
  transaction_timeout = 1;
}

abbrev backend : Backend (Unit {0})
backend = record {
  check_recipient = λ e to w. (none, w);
  accept = λ e content w. (none, w);
  tx_err = λ w. (none, w);
  take_slot = λ w. (true, w);
}

abbrev receiver : Receiver (Unit {0})
receiver = record {
  hostname = name;
  limits = limits;
  size_text = codes "100";
  tls_config = true;
  tls_handshake = true;
  buffered = λ ls. 0;
  parse_ip = λ s. false;
  backend = backend;
}

abbrev start : Session (Unit {0})
start = record {
  conn = record {
    input = map crlf (
        "EHLO c" ∷ "MAIL FROM:<a@b.org> SIZE=20" ∷ "RCPT TO:<bob@example.com>" ∷ "RCPT TO:<..@x>"
        ∷ "DATA" ∷ "hello" ∷ "..dot" ∷ "." ∷ "QUIT" ∷ []);
    tls_input = [];
    io = 100;
    sent = [];
  };
  world = tt;
  envelope = record { sender = []; recipients = []; remote_ip = []; helo = []; tls = false };
  mail = false;
  stop = false;
  opened = 0;
  cancelled = 0;
  held = 0;
  stored = [];
}

-- unfolding `conversation` opens all that it runs through
conversation : ℕ → Session (Unit {0}) → Control × Session (Unit {0})
unfolding session run_input run_line run_command serve handle_helo handle_starttls handle_mail
    handle_rcpt handle_rset handle_data receive read_body well_framed undot terminator codes write
    send say release reset path mail_path valid_host cut to_upper has_prefix has_suffix split fields
    bytes_eq trim_suffix contains contains_byte
conversation = session receiver

session_stores :
    map (λ (d : Delivery). d.content) (session receiver 20 start).1.stored
    ≡ (crlf "hello" ++ crlf ".dot") ∷ []
unfolding conversation
session_stores = refl

start-MayBegin : MayBegin receiver start
unfolding conversation
start-MayBegin = record {
  name = refl;
  sound = record {
    balance = omega arith;
    held = refl;
    recipients = omega arith;
    valid = tt;
    stored = tt;
    acknowledged = omega arith;
  };
  begun = refl;
}

session-IsSound_example : IsSound receiver 0 (session receiver 20 start).1
session-IsSound_example = session-IsSound receiver 20 start start-MayBegin

session_ends_example : (session receiver 20 start).0 ≢ spinning
session_ends_example = session_ends receiver 20 start start-MayBegin (omega arith)

session_cancels_example :
    (session receiver 20 start).1.opened ≡ (session receiver 20 start).1.cancelled
session_cancels_example = session_cancels receiver 20 start start-MayBegin

abbrev body : List Bytes
body = (b'h' ∷ b'i' ∷ 13 ∷ 10 ∷ []) ∷ (b'.' ∷ b'x' ∷ 13 ∷ 10 ∷ []) ∷ []

read_body-round_trip_example :
    read_body 100 [] (sent body (crlf "QUIT" ∷ [])) ≡ (some (joined body), crlf "QUIT" ∷ [])
unfolding has_cr
read_body-round_trip_example =
    read_body-round_trip 100 body (crlf "QUIT" ∷ [])
      (
        record { framed = refl; size = omega arith },
        (record { framed = refl; size = omega arith }, tt),
      )
      (omega arith)

abbrev given : Limits ℤ
given = record {
  max_message_bytes = pos 0;
  max_recipients = pos 3;
  max_connections = pos 0;
  max_data = pos 0;
  max_connections_per_ip = pos 0;
  connections_per_minute = pos 0;
  max_tracked_ips = pos 0;
  idle_timeout = pos 0;
  transaction_timeout = pos 0;
}

abbrev made : Limits ℕ
made = record {
  max_message_bytes = 26214400;
  max_recipients = 3;
  max_connections = 100;
  max_data = 10;
  max_connections_per_ip = 10;
  connections_per_minute = 60;
  max_tracked_ips = 10000;
  idle_timeout = 60000000000;
  transaction_timeout = 300000000000;
}

new-IsConfigured_example :
    (true ≡ true) × (valid_host (λ s. false) name ≡ true) × IsConfigured given made
new-IsConfigured_example =
    new-IsConfigured (λ s. false) true name given made
      (unfold conversation new apply_defaults limit_or in refl)

-- three connections from one address, of which the third is refused and the first then ends
abbrev first : Admission
first = (arrive limits name 0 false (record { peers = []; conns = 0 })).1

abbrev second : Admission
second = (arrive limits name 1 false first).1

abbrev third : Admission
third = (arrive limits name 2 false second).1
