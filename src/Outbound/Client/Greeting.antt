-- ===== src/Outbound/Client/Greeting.antt =====
-- pkg/outbound/smtp_client.go: the greeting after STARTTLS, and the server name that is verified.
use smtpd.Prelude.{
  ◌≡◌, ◌≢◌, refl, ◌⊎◌, inl, inr, Bool, true, false, none, Option-cases, if◌then◌else◌,
}
use smtpd.Text.{Bytes, codes}
use smtpd.Outbound.Errors.{Failure}
use smtpd.Outbound.Client.{
  Net, SmtpClientConfig, SmtpClient, address, server_name, secure, greet, new_smtp_client,
}

-- What net/smtp documents of Hello: it must be called before any other method, and answers an error
-- when it is not. `greeted` says that a client has called it.
pub record GreetsOnce {W N K : Type 0} (net : Net W N K) : Type 0 where
  pub greeted : K → W → Bool
  pub hello_greets : (k : K) (name : Bytes) (w : W) → greeted k (net.hello k name w).1 ≡ true
  pub extension_keeps :
      (k : K) (ext : Bytes) (w : W)
      → greeted k w ≡ true
      → greeted k (net.extension k ext w).1 ≡ true
  pub start_tls_keeps :
      (k : K) (name : Bytes) (w : W)
      → greeted k w ≡ true
      → greeted k (net.start_tls k name w).1 ≡ true
  pub hello_twice :
      (k : K) (name : Bytes) (w : W) → greeted k w ≡ true → (net.hello k name w).0 ≢ none

pub data IsFailure {A : Type 0} : Failure ⊎ A → Type 0 where
  a_failure : (e : Failure) → IsFailure (inl e)

pub Sum-cases {ℓ} : {A B : Type ℓ} (x : A ⊎ B) → ((a : A) × (x ≡ inl a)) ⊎ ((b : B) × (x ≡ inr b))
Sum-cases (inl a) = inl (a, refl)
Sum-cases (inr b) = inr (b, refl)

module _ {W N K : Type 0} (net : Net W N K) (once : GreetsOnce net) (cfg : SmtpClientConfig) where
  secure_fails :
      (host : Bytes) (k : K) (w : W)
      → once.greeted k w ≡ true
      → IsFailure (secure net host k cfg w).0
  unfolding secure server_name
  secure_fails host k w g = elim (Option-cases (net.start_tls k (server_name host cfg).0 w).0) [
    | inr (x, e) ↦ rw e (a_failure _)
    | inl e ↦
        elim (Option-cases
          (net.hello k (server_name host cfg).1.helo_hostname
            (net.start_tls k (server_name host cfg).0 w).1).0) [
              | inr (x, f) ↦ rw (e, f) (a_failure _)
              | inl f ↦ absurd (once.hello_twice k _ _ (once.start_tls_keeps k _ w g) f)
            ]
  ]

  then_fails :
      (b : Bool) (x y : (Failure ⊎ SmtpClient K) × SmtpClientConfig × W)
      → b ≡ true
      → IsFailure x.0
      → IsFailure (if b then x else y).0
  then_fails true x y e k = k
  then_fails false x y e k = absurd cc

  greet_fails :
      (host : Bytes) (k : K) (w : W)
      → cfg.tls_enabled ≡ true
      → ((v : W) → (net.extension k (codes "STARTTLS") v).0 ≡ true)
      → IsFailure (greet net host k cfg w).0
  unfolding greet
  greet_fails host k w on offers = elim (Option-cases (net.hello k cfg.helo_hostname w).0) [
    | inr (x, e) ↦ rw e (a_failure _)
    | inl e ↦
        let w1 = (net.hello k cfg.helo_hostname w).1 in
        let greeted =
          once.extension_keeps k (codes "STARTTLS") w1 (once.hello_greets k cfg.helo_hostname w) in
        rw e (
          then_fails cfg.tls_enabled _ _ on (
            then_fails (net.extension k (codes "STARTTLS") w1).0 _ _ (offers w1)
              (secure_fails host k _ greeted)))
  ]

  -- With TLS enabled, there is no client for a host that offers STARTTLS: newSMTPClient greets the
  -- host before STARTTLS and again after it, and net/smtp answers an error to the second greeting.
  pub new_smtp_client_starttls :
      (host : Bytes) (w : W)
      → cfg.tls_enabled ≡ true
      → ((k : K) (v : W) → (net.extension k (codes "STARTTLS") v).0 ≡ true)
      → IsFailure (new_smtp_client net host cfg w).0
  unfolding new_smtp_client
  new_smtp_client_starttls host w on offers = elim (Sum-cases (net.dial (address host) w).0) [
    | inl (e, p) ↦ rw p (a_failure _)
    | inr (conn, p) ↦
        let w1 = (net.dial (address host) w).1 in
        elim (Sum-cases (net.new_client conn host w1).0) [
          | inl (e, q) ↦ rw (p, q) (a_failure _)
          | inr (k, q) ↦ rw (p, q) (greet_fails host k _ on (offers k))
        ]
  ]
