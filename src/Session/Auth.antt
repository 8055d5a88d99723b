-- ===== src/Session/Auth.antt =====
-- session.go: `handleAuth` and the three mechanisms.
use smtpd.Prelude.{true, not, ◌&&◌, Option, none, some, List, [], ◌∷◌, if◌then◌else◌}
use smtpd.Text.{Bytes, codes, bytes_eq, to_upper, trim_space, split, split_n}
use smtpd.Base64.{decode}
use smtpd.Session.State.{is_mail, Config, failed, Step, write_response, and_then, read_line}

module _ {W : Type 0} (cfg : Config W) where
  unfoldable pub grant : Step W
  grant s =
      write_response 235 (codes "Authentication successful")
        (record s { core = record s.core { auth = true } })

  -- the user store's answer to a name and a password
  unfoldable pub check_credentials : Bytes → Bytes → Step W
  unfolding grant
  check_credentials username password s = elim (cfg.authenticate username password) [
    | none ↦ write_response 535 (codes "Authentication credentials invalid (check failed)") s
    | some ok ↦
        if ok then grant s else write_response 535 (codes "Authentication credentials invalid") s
  ]

  -- authorization identity, user name, password
  unfoldable pub check_plain : List Bytes → Step W
  unfolding check_credentials
  check_plain (authzid ∷ username ∷ password ∷ []) s = check_credentials username password s
  check_plain _ s = write_response 535 (codes "Authentication credentials invalid (format error)") s

  unfoldable pub handle_auth_plain : List Bytes → Step W
  unfolding check_plain
  handle_auth_plain (verb ∷ mechanism ∷ arg ∷ []) s = elim (decode arg) [
    | none ↦ write_response 501 (codes "Invalid base64 encoding") s
    | some credentials ↦ check_plain (split 0 credentials) s
  ]
  handle_auth_plain _ s =
      write_response 501 (codes "Syntax error: AUTH PLAIN requires a single argument") s

  -- the next line, decoded and handed on; a read error ends the session
  unfoldable pub read_decoded : (Bytes → Step W) → Step W
  read_decoded k s =
      let (r, c) = read_line s.conn in
      let s' = record s { conn = c } in
      elim r [
        | none ↦ (failed, s')
        | some line ↦ (elim (decode (trim_space line)) [
          | none ↦ write_response 501 (codes "Invalid base64 encoding") s'
          | some text ↦ k text s'
        ])
      ]

  -- the prompts are "Username:" and "Password:" in base64
  unfoldable pub ask_password : Bytes → Step W
  unfolding read_decoded check_credentials
  ask_password username =
      and_then (write_response 334 (codes "UGFzc3dvcmQ6"))
        (read_decoded (check_credentials username))

  unfoldable pub ask_username : Step W
  unfolding read_decoded ask_password
  ask_username = and_then (write_response 334 (codes "VXNlcm5hbWU6")) (read_decoded ask_password)

  unfoldable pub handle_auth_login : List Bytes → Step W
  unfolding ask_username
  handle_auth_login (verb ∷ mechanism ∷ arg ∷ []) s = elim (decode arg) [
    | none ↦ write_response 501 (codes "Invalid base64 encoding") s
    | some username ↦ ask_password username s
  ]
  handle_auth_login (verb ∷ mechanism ∷ arg ∷ more ∷ rest) s =
      write_response 501 (codes "Syntax error: AUTH LOGIN takes at most one argument") s
  handle_auth_login _ s = ask_username s

  unfoldable pub check_token : (Bytes → Option Bytes) → List Bytes → Step W
  unfolding grant
  check_token subject_of (verb ∷ mechanism ∷ arg ∷ []) s = elim (decode arg) [
    | none ↦ write_response 501 (codes "Invalid base64 encoding") s
    | some token ↦ (elim (subject_of token) [
      | none ↦ write_response 535 (codes "Authentication credentials invalid") s
      | some subject ↦ grant s
    ])
  ]
  check_token subject_of _ s =
      write_response 501 (codes "Syntax error: AUTH SIRE-TOKEN requires a token argument") s

  unfoldable pub handle_auth_sire_token : List Bytes → Step W
  unfolding check_token
  handle_auth_sire_token parts s = elim cfg.jwt_validator [
    | none ↦ write_response 504 (codes "SIRE-TOKEN authentication not configured") s
    | some subject_of ↦ check_token subject_of parts s
  ]

  unfoldable pub choose_mechanism : Bytes → List Bytes → Step W
  unfolding handle_auth_plain handle_auth_login handle_auth_sire_token
  choose_mechanism mechanism parts s =
      if bytes_eq mechanism (codes "PLAIN")
      then handle_auth_plain parts s
      else if bytes_eq mechanism (codes "LOGIN")
      then handle_auth_login parts s
      else if bytes_eq mechanism (codes "SIRE-TOKEN")
      then handle_auth_sire_token parts s
      else write_response 504 (codes "Unsupported authentication mechanism") s

  unfoldable pub dispatch_auth : List Bytes → Step W
  unfolding choose_mechanism
  dispatch_auth (verb ∷ name ∷ rest) s = choose_mechanism (to_upper name) (verb ∷ name ∷ rest) s
  dispatch_auth _ s = write_response 501 (codes "Syntax error in AUTH command") s

  unfoldable pub handle_auth : Bytes → Step W
  unfolding dispatch_auth
  handle_auth line s =
      if not s.tls && (cfg.tls_config && not cfg.force_tls)
      then write_response 538 (codes "Encryption required for requested authentication mechanism") s
      else if not s.tls && cfg.force_tls
      then write_response 530 (codes "Must issue STARTTLS first or connect via TLS") s
      else if not (is_mail s.state)
      then write_response 503 (codes "Send HELO/EHLO first") s
      else dispatch_auth (split_n 32 3 line) s
