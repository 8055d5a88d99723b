-- ===== src/Session/Moves/Auth.antt =====
-- session.go: the moves of AUTH.
use mathlib.Core.Path.{subst}
use smtpd.Prelude.{
  ◌≡◌, ◌∙◌, refl, sym, Bool, true, false, not, ◌&&◌, Option, none, some, List, [], ◌∷◌, arith,
  if◌then◌else◌,
}
use smtpd.Text.{Bytes, codes, bytes_eq, to_upper, trim_space, split, split_n}
use smtpd.Base64.{decode}
use smtpd.Session.State.{
  is_mail, at_mail, Core, Session, Config, Outcome, failed, Step, write_response, read_line,
}
use smtpd.Session.Auth.{
  grant, check_credentials, check_plain, handle_auth_plain, read_decoded, ask_password,
  ask_username, handle_auth_login, check_token, handle_auth_sire_token, choose_mechanism,
  dispatch_auth, handle_auth,
}
use smtpd.Session.Moves.{Move, stay, MayAuth, Accepted, password, token}
use smtpd.Session.Moves
use smtpd.Session.Moves.Envelope.{at_mail_of}
use smtpd.Session.Moves.Rules.{To, To-if, To-write, To-and_then, core-write_response}

module _ {W : Type 0} (cfg : Config W) where
  -- AUTH was let in
  abbrev Ready : Core → Type 0
  Ready c = (c.state ≡ at_mail) × MayAuth cfg c

  grant-Move : (s : Session W) → Ready s.core → Accepted cfg → To cfg s.core (grant cfg s)
  unfolding grant
  grant-Move s r a = To-write cfg s.core _ _ _ (Moves.grant r.0 r.1 a)

  check_credentials-Move :
      (u p : Bytes) (s : Session W) → Ready s.core → To cfg s.core (check_credentials cfg u p s)
  unfolding check_credentials
  check_credentials-Move u p s r = answer (cfg.authenticate u p) refl
    where
      answer :
          (a : Option Bool)
          → cfg.authenticate u p ≡ a
          → To cfg s.core (elim a [
            | none ↦
                write_response 535 (codes "Authentication credentials invalid (check failed)") s
            | some ok ↦
                if ok
                then grant cfg s
                else write_response 535 (codes "Authentication credentials invalid") s
          ])
      answer none e = To-write cfg s.core _ _ s stay
      answer (some true) e = grant-Move s r (password u p e)
      answer (some false) e = To-write cfg s.core _ _ s stay

  check_plain-Move :
      (parts : List Bytes) (s : Session W) → Ready s.core → To cfg s.core (check_plain cfg parts s)
  unfolding check_plain
  check_plain-Move (z ∷ u ∷ p ∷ []) s r = check_credentials-Move u p s r
  check_plain-Move _ s r = To-write cfg s.core _ _ s stay

  -- a decoded argument, or the 501 reply
  decoded-Move :
      (c : Core) (o : Option Bytes) (k : Step W) (f : Bytes → Step W) (s : Session W)
      → To cfg c (k s)
      → ((t : Bytes) → To cfg c (f t s))
      → To cfg c (elim o as (λ _. Outcome × Session W) [ none ↦ k s | some t ↦ f t s ])
  decoded-Move c none k f s hk hf = hk
  decoded-Move c (some t) k f s hk hf = hf t

  handle_auth_plain-Move :
      (parts : List Bytes) (s : Session W)
      → Ready s.core
      → To cfg s.core (handle_auth_plain cfg parts s)
  unfolding handle_auth_plain
  handle_auth_plain-Move (v ∷ m ∷ arg ∷ []) s r =
      decoded-Move s.core (decode arg) (write_response 501 (codes "Invalid base64 encoding"))
        (λ t. check_plain cfg (split 0 t)) s (To-write cfg s.core _ _ s stay)
        (λ t. check_plain-Move (split 0 t) s r)
  handle_auth_plain-Move _ s r = To-write cfg s.core _ _ s stay

  read_decoded-Move :
      (k : Bytes → Step W) (s : Session W)
      → ((t : Bytes) (s' : Session W) → s'.core ≡ s.core → To cfg s.core (k t s'))
      → To cfg s.core (read_decoded cfg k s)
  unfolding read_decoded
  read_decoded-Move k s h = let (r, c) = read_line s.conn in answer r (record s { conn = c }) refl
    where
      answer :
          (r : Option Bytes) (s' : Session W)
          → s'.core ≡ s.core
          → To cfg s.core (elim r as (λ _. Outcome × Session W) [
            | none ↦ (failed, s')
            | some line ↦ (elim (decode (trim_space line)) [
              | none ↦ write_response 501 (codes "Invalid base64 encoding") s'
              | some text ↦ k text s'
            ])
          ])
      answer none s' e = record { move = subst (Move cfg s.core) (sym e) stay }
      answer (some line) s' e =
          decoded-Move s.core (decode (trim_space line))
            (write_response 501 (codes "Invalid base64 encoding")) k s'
            (To-write cfg s.core _ _ s' (subst (Move cfg s.core) (sym e) stay)) (λ t. h t s' e)

  ask_password-Move :
      (u : Bytes) (s : Session W) → Ready s.core → To cfg s.core (ask_password cfg u s)
  unfolding ask_password
  ask_password-Move u s r = To-and_then cfg s.core _ _ s (core-write_response _ _ s) stay λ s' e.
      subst (λ c. To cfg c (read_decoded cfg (check_credentials cfg u) s')) e
        (read_decoded-Move (check_credentials cfg u) s' λ p t e'.
          subst (λ c. To cfg c (check_credentials cfg u p t)) e'
            (check_credentials-Move u p t (subst Ready (sym (e' ∙ e)) r)))

  ask_username-Move : (s : Session W) → Ready s.core → To cfg s.core (ask_username cfg s)
  unfolding ask_username
  ask_username-Move s r = To-and_then cfg s.core _ _ s (core-write_response _ _ s) stay λ s' e.
      subst (λ c. To cfg c (read_decoded cfg (ask_password cfg) s')) e
        (read_decoded-Move (ask_password cfg) s' λ u t e'.
          subst (λ c. To cfg c (ask_password cfg u t)) e'
            (ask_password-Move u t (subst Ready (sym (e' ∙ e)) r)))

  handle_auth_login-Move :
      (parts : List Bytes) (s : Session W)
      → Ready s.core
      → To cfg s.core (handle_auth_login cfg parts s)
  unfolding handle_auth_login
  handle_auth_login-Move (v ∷ m ∷ arg ∷ []) s r =
      decoded-Move s.core (decode arg) (write_response 501 (codes "Invalid base64 encoding"))
        (ask_password cfg) s (To-write cfg s.core _ _ s stay) (λ u. ask_password-Move u s r)
  handle_auth_login-Move (v ∷ m ∷ arg ∷ x ∷ rest) s r = To-write cfg s.core _ _ s stay
  handle_auth_login-Move _ s r = ask_username-Move s r

  check_token-Move :
      (v : Bytes → Option Bytes) (parts : List Bytes) (s : Session W)
      → cfg.jwt_validator ≡ some v
      → Ready s.core
      → To cfg s.core (check_token cfg v parts s)
  unfolding check_token
  check_token-Move v (x ∷ m ∷ arg ∷ []) s e r =
      decoded-Move s.core (decode arg) (write_response 501 (codes "Invalid base64 encoding"))
        (λ t s'. elim (v t) [
          | none ↦ write_response 535 (codes "Authentication credentials invalid") s'
          | some subject ↦ grant cfg s'
        ])
        s (To-write cfg s.core _ _ s stay) (λ t. answer t (v t) refl)
    where
      answer :
          (t : Bytes) (a : Option Bytes)
          → v t ≡ a
          → To cfg s.core (elim a as (λ _. Outcome × Session W) [
            | none ↦ write_response 535 (codes "Authentication credentials invalid") s
            | some subject ↦ grant cfg s
          ])
      answer t none q = To-write cfg s.core _ _ s stay
      answer t (some x) q = grant-Move s r (token v t x e q)
  check_token-Move v _ s e r = To-write cfg s.core _ _ s stay

  handle_auth_sire_token-Move :
      (parts : List Bytes) (s : Session W)
      → Ready s.core
      → To cfg s.core (handle_auth_sire_token cfg parts s)
  unfolding handle_auth_sire_token
  handle_auth_sire_token-Move parts s r = configured cfg.jwt_validator refl
    where
      configured :
          (o : Option (Bytes → Option Bytes))
          → cfg.jwt_validator ≡ o
          → To cfg s.core (elim o as (λ _. Outcome × Session W) [
            | none ↦ write_response 504 (codes "SIRE-TOKEN authentication not configured") s
            | some v ↦ check_token cfg v parts s
          ])
      configured none e = To-write cfg s.core _ _ s stay
      configured (some v) e = check_token-Move v parts s e r

  choose_mechanism-Move :
      (m : Bytes) (parts : List Bytes) (s : Session W)
      → Ready s.core
      → To cfg s.core (choose_mechanism cfg m parts s)
  unfolding choose_mechanism
  choose_mechanism-Move m parts s r =
      To-if cfg s.core (bytes_eq m (codes "PLAIN")) (λ _. handle_auth_plain-Move parts s r)
        λ _.
          To-if cfg s.core (bytes_eq m (codes "LOGIN")) (λ _. handle_auth_login-Move parts s r)
            λ _.
              To-if cfg s.core (bytes_eq m (codes "SIRE-TOKEN"))
                (λ _. handle_auth_sire_token-Move parts s r) λ _. To-write cfg s.core _ _ s stay

  dispatch_auth-Move :
      (parts : List Bytes) (s : Session W)
      → Ready s.core
      → To cfg s.core (dispatch_auth cfg parts s)
  unfolding dispatch_auth
  dispatch_auth-Move (v ∷ name ∷ rest) s r =
      choose_mechanism-Move (to_upper name) (v ∷ name ∷ rest) s r
  dispatch_auth-Move _ s r = To-write cfg s.core _ _ s stay

  may_auth :
      (c : Core)
      → (not c.tls && (cfg.tls_config && not cfg.force_tls)) ≡ false
      → (not c.tls && cfg.force_tls) ≡ false
      → MayAuth cfg c
  may_auth c h k = ground arith

  pub handle_auth-Move : (line : Bytes) (s : Session W) → To cfg s.core (handle_auth cfg line s)
  unfolding handle_auth
  handle_auth-Move line s =
      To-if cfg s.core (not s.tls && (cfg.tls_config && not cfg.force_tls))
        (λ _. To-write cfg s.core _ _ s stay)
        λ plain.
          To-if cfg s.core (not s.tls && cfg.force_tls) (λ _. To-write cfg s.core _ _ s stay)
            λ forced.
              To-if cfg s.core (not (is_mail s.state)) (λ _. To-write cfg s.core _ _ s stay)
                λ m.
                  dispatch_auth-Move (split_n 32 3 line) s
                    (at_mail_of s.state (ground arith), may_auth s.core plain forced)
