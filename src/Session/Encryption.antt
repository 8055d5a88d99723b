-- ===== src/Session/Encryption.antt =====
-- session.go: authentication and TLS.
use smtpd.Prelude.{ℕ, ◌≡◌, ◌⊎◌, refl, true, false, arith}
use smtpd.Session.State.{Core, Session, Config, reset_transaction_state}
use smtpd.Session.Loop.{handle}
use smtpd.Session.Moves.{
  Move, grant, stay, greet, rset, clear, begin, add, enqueue, mint, discard, upgrade, MayAuth,
  Moves-keep,
}
use smtpd.Session.Moves.Loop.{handle-Moves}

module _ {W : Type 0} (cfg : Config W) where
  abbrev AuthNeedsTls : Core → Type 0
  AuthNeedsTls c = c.auth ≡ true → c.tls ≡ true

  encrypted :
      (c : Core) → (cfg.tls_config ≡ true) ⊎ (cfg.force_tls ≡ true) → MayAuth cfg c → c.tls ≡ true
  encrypted c h m = ground arith

  Move-AuthNeedsTls :
      (cfg.tls_config ≡ true) ⊎ (cfg.force_tls ≡ true)
      → (c d : Core) → Move cfg c d
      → AuthNeedsTls c
      → AuthNeedsTls d
  unfolding reset_transaction_state
  Move-AuthNeedsTls on c d (grant st may a) h e = encrypted c on may
  Move-AuthNeedsTls on c d (upgrade t k) h e = refl
  Move-AuthNeedsTls on c d stay h e = h e
  Move-AuthNeedsTls on c d (greet x) h e = h e
  Move-AuthNeedsTls on c d rset h e = h e
  Move-AuthNeedsTls on c d (clear st) h e = h e
  Move-AuthNeedsTls on c d (begin x st v) h e = h e
  Move-AuthNeedsTls on c d (add r st v relay) h e = h e
  Move-AuthNeedsTls on c d (enqueue x st full fits q) h e = h e
  Move-AuthNeedsTls on c d (mint st) h e = h e
  Move-AuthNeedsTls on c d (discard st) h e = h e

  -- Where TLS is configured or forced, a session that began unauthenticated and is authenticated at
  -- its end has an encrypted connection, whatever the client sent.
  pub handle_encrypted :
      (fuel : ℕ) (s : Session W)
      → (cfg.tls_config ≡ true) ⊎ (cfg.force_tls ≡ true)
      → s.auth ≡ false
      → (handle cfg fuel s).1.auth ≡ true
      → (handle cfg fuel s).1.tls ≡ true
  handle_encrypted fuel s on anonymous =
      Moves-keep cfg AuthNeedsTls (Move-AuthNeedsTls on) s.core _ (handle-Moves cfg fuel s)
        (λ e. cc (anonymous, e))
