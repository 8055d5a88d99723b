-- ===== src/Session/Progress/Auth.antt =====
-- session.go: the lines that AUTH leaves.
use smtpd.Prelude.{
  ℕ, ◌≤◌, ◌≡◌, refl, Bool, true, false, Option, none, some, List, [], ◌∷◌, arith, if◌then◌else◌,
}
use smtpd.Text.{Bytes, codes, trim_space, split, to_upper}
use smtpd.Base64.{decode}
use smtpd.Session.State.{Conn, Session, Config, failed, Step, write_response, read_line, next_line}
use smtpd.Session.Auth.{
  grant, check_credentials, check_plain, handle_auth_plain, read_decoded, ask_password,
  ask_username, handle_auth_login, check_token, handle_auth_sire_token, choose_mechanism,
  dispatch_auth, handle_auth,
}
use smtpd.Session.Progress.{remaining, Reads, Reads-write, Reads-and_then, reads_rules}

remaining-next_line :
    (ls : List Bytes) (c : Conn) → c.input ≡ ls → remaining (next_line ls c).1 ≤ remaining c
unfolding next_line
remaining-next_line [] c e = omega arith
remaining-next_line (l ∷ ls) c e = rw e (omega arith)

pub remaining-read_line : (c : Conn) → remaining (read_line c).1 ≤ remaining c
unfolding read_line
remaining-read_line c = remaining-next_line c.input c refl

module _ {W : Type 0} {n : ℕ} where
  Reads-decoded :
      (o : Option Bytes) (k : Step W) (f : Bytes → Step W) (s : Session W)
      → Reads n (k s)
      → ((t : Bytes) → Reads n (f t s))
      → Reads {W = W} n (elim o [ none ↦ k s | some t ↦ f t s ])
  Reads-decoded none k f s hk hf = hk
  Reads-decoded (some t) k f s hk hf = hf t

module _ {W : Type 0} {n : ℕ} (cfg : Config W) where
  grant-Reads : (s : Session W) → remaining s.conn ≤ n → Reads n (grant cfg s)
  unfolding grant
  grant-Reads s h = search reads_rules

  check_credentials-Reads :
      (u p : Bytes) (s : Session W) → remaining s.conn ≤ n → Reads n (check_credentials cfg u p s)
  unfolding check_credentials
  check_credentials-Reads u p s h = answer (cfg.authenticate u p)
    where
      answer :
          (a : Option Bool)
          → Reads {W = W} n (elim a [
            | none ↦
                write_response 535 (codes "Authentication credentials invalid (check failed)") s
            | some ok ↦
                if ok
                then grant cfg s
                else write_response 535 (codes "Authentication credentials invalid") s
          ])
      answer none = Reads-write _ _ s h
      answer (some true) = grant-Reads s h
      answer (some false) = Reads-write _ _ s h

  check_plain-Reads :
      (parts : List Bytes) (s : Session W)
      → remaining s.conn ≤ n
      → Reads n (check_plain cfg parts s)
  unfolding check_plain
  check_plain-Reads (z ∷ u ∷ p ∷ []) s h = check_credentials-Reads u p s h
  check_plain-Reads _ s h = Reads-write _ _ s h

  handle_auth_plain-Reads :
      (parts : List Bytes) (s : Session W)
      → remaining s.conn ≤ n
      → Reads n (handle_auth_plain cfg parts s)
  unfolding handle_auth_plain
  handle_auth_plain-Reads (v ∷ m ∷ arg ∷ []) s h =
      Reads-decoded (decode arg) (write_response 501 (codes "Invalid base64 encoding"))
        (λ t. check_plain cfg (split 0 t)) s (Reads-write _ _ s h)
        (λ t. check_plain-Reads (split 0 t) s h)
  handle_auth_plain-Reads _ s h = Reads-write _ _ s h

  read_decoded-Reads :
      (k : Bytes → Step W) (s : Session W)
      → remaining s.conn ≤ n
      → ((t : Bytes) (s' : Session W) → remaining s'.conn ≤ n → Reads n (k t s'))
      → Reads n (read_decoded cfg k s)
  unfolding read_decoded
  read_decoded-Reads k s b h =
      let (r, c) = read_line s.conn in
      answer r (record s { conn = c }) (omega (arith, remaining-read_line s.conn))
    where
      answer :
          (r : Option Bytes) (s' : Session W)
          → remaining s'.conn ≤ n
          → Reads {W = W} n (elim r [
            | none ↦ (failed, s')
            | some line ↦ (elim (decode (trim_space line)) [
              | none ↦ write_response 501 (codes "Invalid base64 encoding") s'
              | some text ↦ k text s'
            ])
          ])
      answer none s' b' = record { bound = b' }
      answer (some line) s' b' =
          Reads-decoded (decode (trim_space line))
            (write_response 501 (codes "Invalid base64 encoding")) k s' (Reads-write _ _ s' b')
            (λ t. h t s' b')

  ask_password-Reads :
      (u : Bytes) (s : Session W) → remaining s.conn ≤ n → Reads n (ask_password cfg u s)
  unfolding ask_password
  ask_password-Reads u s h =
      Reads-and_then _ _ s (Reads-write _ _ s h)
        λ s' b. read_decoded-Reads (check_credentials cfg u) s' b (check_credentials-Reads u)

  ask_username-Reads : (s : Session W) → remaining s.conn ≤ n → Reads n (ask_username cfg s)
  unfolding ask_username
  ask_username-Reads s h =
      Reads-and_then _ _ s (Reads-write _ _ s h)
        λ s' b. read_decoded-Reads (ask_password cfg) s' b ask_password-Reads

  handle_auth_login-Reads :
      (parts : List Bytes) (s : Session W)
      → remaining s.conn ≤ n
      → Reads n (handle_auth_login cfg parts s)
  unfolding handle_auth_login
  handle_auth_login-Reads (v ∷ m ∷ arg ∷ []) s h =
      Reads-decoded (decode arg) (write_response 501 (codes "Invalid base64 encoding"))
        (ask_password cfg) s (Reads-write _ _ s h) (λ u. ask_password-Reads u s h)
  handle_auth_login-Reads (v ∷ m ∷ arg ∷ x ∷ rest) s h = Reads-write _ _ s h
  handle_auth_login-Reads _ s h = ask_username-Reads s h

  check_token-Reads :
      (v : Bytes → Option Bytes) (parts : List Bytes) (s : Session W)
      → remaining s.conn ≤ n
      → Reads n (check_token cfg v parts s)
  unfolding check_token
  check_token-Reads v (x ∷ m ∷ arg ∷ []) s h =
      Reads-decoded (decode arg) (write_response 501 (codes "Invalid base64 encoding"))
        (λ t s'. elim (v t) [
          | none ↦ write_response 535 (codes "Authentication credentials invalid") s'
          | some subject ↦ grant cfg s'
        ])
        s (Reads-write _ _ s h)
        (λ t.
          Reads-decoded (v t) (write_response 535 (codes "Authentication credentials invalid"))
            (λ u. grant cfg) s (Reads-write _ _ s h) (λ u. grant-Reads s h))
  check_token-Reads v _ s h = Reads-write _ _ s h

  handle_auth_sire_token-Reads :
      (parts : List Bytes) (s : Session W)
      → remaining s.conn ≤ n
      → Reads n (handle_auth_sire_token cfg parts s)
  unfolding handle_auth_sire_token
  handle_auth_sire_token-Reads parts s h = configured cfg.jwt_validator
    where
      configured :
          (o : Option (Bytes → Option Bytes))
          → Reads {W = W} n (elim o [
            | none ↦ write_response 504 (codes "SIRE-TOKEN authentication not configured") s
            | some v ↦ check_token cfg v parts s
          ])
      configured none = Reads-write _ _ s h
      configured (some v) = check_token-Reads v parts s h

  choose_mechanism-Reads :
      (m : Bytes) (parts : List Bytes) (s : Session W)
      → remaining s.conn ≤ n
      → Reads n (choose_mechanism cfg m parts s)
  unfolding choose_mechanism
  choose_mechanism-Reads m parts s h =
      search (
        reads_rules, handle_auth_plain-Reads, handle_auth_login-Reads, handle_auth_sire_token-Reads,
      )

  dispatch_auth-Reads :
      (parts : List Bytes) (s : Session W)
      → remaining s.conn ≤ n
      → Reads n (dispatch_auth cfg parts s)
  unfolding dispatch_auth
  dispatch_auth-Reads (v ∷ name ∷ rest) s h =
      choose_mechanism-Reads (to_upper name) (v ∷ name ∷ rest) s h
  dispatch_auth-Reads _ s h = Reads-write _ _ s h

  pub handle_auth-Reads :
      (line : Bytes) (s : Session W) → remaining s.conn ≤ n → Reads n (handle_auth cfg line s)
  unfolding handle_auth
  handle_auth-Reads line s h = search (reads_rules, dispatch_auth-Reads) depth 8
