-- ===== src/Session/Helo.antt =====
-- session.go: `handleHelo`, `handleStartTLS` and `handleRset`.
use smtpd.Prelude.{
  Bool, true, false, not, ◌&&◌, ◌||◌, none, some, List, [], ◌∷◌, ◌++◌, if◌then◌else◌,
}
use smtpd.Text.{Bytes, codes}
use smtpd.Session.State.{
  at_initial, at_mail, Session, Config, done, failed, Step, reset_transaction_state, write_lines,
  write_response, and_then, set_deadline,
}

module _ {W : Type 0} (cfg : Config W) where
  -- the capabilities that EHLO lists, in their order
  unfoldable pub capabilities : Bool → List Bytes
  capabilities tls =
      (if tls || cfg.force_tls
        then codes "SIZE 10485760"
          ∷ (elim cfg.jwt_validator [
            | none ↦ codes "AUTH PLAIN LOGIN"
            | some v ↦ codes "AUTH PLAIN LOGIN SIRE-TOKEN"
          ])
          ∷ []
        else [])
      ++ (codes "8BITMIME" ∷ codes "PIPELINING" ∷ [])
      ++ (if cfg.tls_config && not tls then codes "STARTTLS" ∷ [] else [])
      ++ (codes "HELP" ∷ [])
      ++ (if not tls && not cfg.force_tls then codes "SIZE 10485760" ∷ [] else [])

  unfoldable pub greeting : Bytes → Bytes
  greeting domain = cfg.server_name ++ (codes " Hello " ++ domain)

  -- `extended` tells EHLO from HELO
  unfoldable pub handle_helo : Bool → Bytes → Step W
  unfolding greeting capabilities
  handle_helo extended domain s =
      let s' = record s { core = record s.core { helo = domain; state = at_mail } } in
      if extended
      then write_lines 250 (greeting domain ∷ capabilities s.tls) s'
      else write_response 250 (greeting domain) s'

  unfoldable pub handle_rset : Step W
  handle_rset s =
      write_response 250 (codes "OK")
        (record s { core = reset_transaction_state (record s.core { state = at_mail }) })

  -- the connection and the state once the handshake is over: the lines that the client had sent
  -- in the clear are in the old reader, which is dropped
  unfoldable pub upgraded : Session W → Session W
  upgraded s = record s {
    conn = record s.conn { input = s.conn.tls_input; tls_input = [] };
    core = record (reset_transaction_state s.core) {
      tls = true;
      state = at_initial;
      helo = [];
      auth = false;
    };
  }

  unfoldable pub tls_handshake : Step W
  tls_handshake s = if cfg.tls_handshake then (done, s) else (failed, s)

  unfoldable pub create_tls_config : Step W
  create_tls_config s = if cfg.tls_created then (done, s) else (failed, s)

  -- after the 220 reply; the two deadlines stand around the handshake
  unfoldable pub start_handshake : Step W
  unfolding tls_handshake create_tls_config and_then
  start_handshake =
      and_then create_tls_config (and_then set_deadline (and_then tls_handshake set_deadline))

  -- The source also returns whether the connection was upgraded; the loop then skips its test for
  -- an error, and there is none.
  unfoldable pub handle_starttls : Step W
  unfolding upgraded start_handshake and_then
  handle_starttls s =
      if s.tls
      then write_response 503 (codes "TLS already active") s
      else if not cfg.tls_config
      then write_response 454 (codes "TLS not available") s
      else and_then (and_then (write_response 220 (codes "Ready to start TLS")) start_handshake)
          (λ s'. (done, upgraded s')) s
