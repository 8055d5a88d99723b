-- ===== src/Outbound/Client.antt =====
-- pkg/outbound/smtp_client.go: `SMTPClient`. The packages net and net/smtp are a parameter. Deadlines
-- are part of what it answers; the locks are left out but in Send, which takes its own twice.
pub mod Pool
pub mod Greeting
pub mod Bounds
pub mod Store
pub mod Sending
use smtpd.Prelude.{
  ℕ, ◌⊎◌, inl, inr, Bool, true, false, not, Option, none, some, List, [], ◌∷◌, ◌++◌, length, ℤ,
  ◌==◌, if◌then◌else◌,
}
use smtpd.Text.{Bytes, codes, contains}
use smtpd.Outbound.Errors.{Failure, wrap, plain, on_error, on_result}

-- `N` is the type of connections, `K` that of the clients of net/smtp
pub record Net (W N K : Type 0) : Type 0 where
  pub dial : Bytes → W → (Failure ⊎ N) × W
  pub new_client : N → Bytes → W → (Failure ⊎ K) × W
  pub close_conn : N → W → W
  pub hello : K → Bytes → W → Option Failure × W
  pub extension : K → Bytes → W → Bool × W
  pub start_tls : K → Bytes → W → Option Failure × W  -- with the ServerName of its configuration
  pub reset : K → W → Option Failure × W
  pub mail : K → Bytes → W → Option Failure × W
  pub rcpt : K → Bytes → W → Option Failure × W
  pub begin_data : K → W → Option Failure × W
  pub write : K → Bytes → W → Option Failure × W
  pub end_data : K → W → Option Failure × W
  pub quit : K → W → Option Failure × W
  pub close : K → W → Option Failure × W

-- `tls_config` is the configuration that the caller gives, by its ServerName: it is one object, which
-- every client of a pool shares
pub record SmtpClientConfig : Type 0 where
  pub max_connections : ℤ
  pub tls_enabled : Bool
  pub tls_config : Option Bytes
  pub helo_hostname : Bytes

-- `client` is none once the client is closed, and so is the connection
pub record SmtpClient (K : Type 0) : Type 0 where
  pub host : Bytes
  pub client : Option K

-- what Send does: `deadlock` is a call of Close, which waits for the lock that Send holds
pub data Sent : Type 0 where
  answered : Option Failure → Sent
  deadlock : Sent

-- net.JoinHostPort for a host without a colon
abbrev pub address : Bytes → Bytes
unfolding codes
address host = if not (contains host (codes ":")) then host ++ codes ":25" else host

-- the ServerName that StartTLS gets, and the shared configuration after that
unfoldable pub server_name : Bytes → SmtpClientConfig → Bytes × SmtpClientConfig
server_name host cfg = elim cfg.tls_config [
  | none ↦ (host, cfg)
  | some [] ↦ (host, record cfg { tls_config = some host })
  | some (b ∷ name) ↦ (b ∷ name, cfg)
]

module _ {W N K : Type 0} (net : Net W N K) where
  -- c.Close() and the error
  abbrev pub abandon :
      K → Failure → SmtpClientConfig → W → (Failure ⊎ SmtpClient K) × SmtpClientConfig × W
  abandon k e cfg w = (inl e, cfg, (net.close k w).1)

  -- STARTTLS and the greeting after it
  unfoldable pub secure :
      Bytes → K → SmtpClientConfig → W → (Failure ⊎ SmtpClient K) × SmtpClientConfig × W
  unfolding server_name codes
  secure host k cfg w =
      let (name, cfg') = server_name host cfg in
      let (e, w1) = net.start_tls k name w in
      let (f, w2) = net.hello k cfg'.helo_hostname w1 in
      on_error e
        (λ x. abandon k (wrap (codes "STARTTLS failed for " ++ host ++ codes ": ") x) cfg' w1)
        (on_error f
          (λ x.
            abandon k (wrap (codes "failed HELO/EHLO after STARTTLS to " ++ host ++ codes ": ") x)
              cfg' w2)
          (inr (record { host = host; client = some k }), cfg', w2))

  unfoldable pub greet :
      Bytes → K → SmtpClientConfig → W → (Failure ⊎ SmtpClient K) × SmtpClientConfig × W
  unfolding secure codes
  greet host k cfg w =
      let (e, w1) = net.hello k cfg.helo_hostname w in
      let (offered, w2) = net.extension k (codes "STARTTLS") w1 in
      let ready : SmtpClient K = record { host = host; client = some k } in
      on_error e
        (λ x. abandon k (wrap (codes "failed HELO/EHLO to " ++ host ++ codes ": ") x) cfg w1)
        (if cfg.tls_enabled
          then if offered then secure host k cfg w2 else (inr ready, cfg, w2)
          else (inr ready, cfg, w1))

  -- `newSMTPClient`
  unfoldable pub new_smtp_client :
      Bytes → SmtpClientConfig → W → (Failure ⊎ SmtpClient K) × SmtpClientConfig × W
  unfolding greet codes
  new_smtp_client host cfg w =
      let (dialled, w1) = net.dial (address host) w in
      on_result dialled
        (λ e. (inl (wrap (codes "failed to dial " ++ address host ++ codes ": ") e), cfg, w1))
        (λ conn.
          let (made, w2) = net.new_client conn host w1 in
          on_result made
            (λ e. (
              inl (wrap (codes "failed to create smtp client for " ++ host ++ codes ": ") e),
              cfg,
              net.close_conn conn w2,
            ))
            (λ k. greet host k cfg w2))

  -- the RCPT commands: the first that is refused ends them
  unfoldable pub send_rcpts : K → List Bytes → W → Option Failure × W
  unfolding codes
  send_rcpts k [] w = (none, w)
  send_rcpts k (addr ∷ rcpts) w =
      let (e, w') = net.rcpt k addr w in
      on_error e (λ x. (some (wrap (codes "RCPT TO " ++ addr ++ codes " failed: ") x), w'))
        (send_rcpts k rcpts w')

  -- DATA and the message
  unfoldable pub send_data : K → Bytes → W → Option Failure × W
  unfolding codes
  send_data k msg w =
      let (e, w1) = net.begin_data k w in
      let (f, w2) = net.write k msg w1 in
      let (g, w3) = net.end_data k w2 in
      on_error e (λ x. (some (wrap (codes "DATA command failed: ") x), w1))
        (on_error f (λ x. (some (wrap (codes "failed writing message data: ") x), w3))
          (on_error g (λ x. (some (wrap (codes "failed closing data writer: ") x), w3)) (none, w3)))

  -- the commands of a transaction
  unfoldable pub send_envelope : K → Bytes → List Bytes → Bytes → W → Option Failure × W
  unfolding send_rcpts send_data codes
  send_envelope k sender rcpts msg w =
      let (e, w1) = net.mail k sender w in
      let (f, w2) = send_rcpts k rcpts w1 in
      on_error e (λ x. (some (wrap (codes "MAIL FROM " ++ sender ++ codes " failed: ") x), w1))
        (on_error f (λ x. (some x, w2)) (send_data k msg w2))

  -- `Send`, on the client that there is
  unfoldable pub send_with : Option K → Bytes → List Bytes → Bytes → W → Sent × W
  unfolding send_envelope codes
  send_with none sender rcpts msg w =
      (answered (some (plain (codes "SMTP client is closed or not initialized"))), w)
  send_with (some k) sender rcpts msg w =
      let (e, w1) = net.reset k w in
      let (r, w2) = send_envelope k sender rcpts msg w1 in
      on_error e (λ x. (deadlock, w1)) (answered r, w2)

  unfoldable pub send : SmtpClient K → Bytes → List Bytes → Bytes → W → Sent × W
  unfolding send_with
  send c = send_with c.client

  unfoldable pub close_with : SmtpClient K → Option K → W → Option Failure × SmtpClient K × W
  unfolding codes
  close_with c none w = (none, c, w)
  close_with c (some k) w =
      let (e, w1) = net.quit k w in
      let (f, w2) = net.close k w1 in
      let c' = record c { client = none } in
      on_error f
        (λ y.
          on_error e
            (λ x. (
              some (wrap (codes "quit failed (" ++ x.text ++ codes ") and close failed: ") y),
              c',
              w2,
            ))
            (some (wrap (codes "failed to close connection: ") y), c', w2))
        (on_error e (λ x. (some (wrap (codes "QUIT command failed: ") x), c', w2)) (none, c', w2))

  -- `Close`
  unfoldable pub close_client : SmtpClient K → W → Option Failure × SmtpClient K × W
  unfolding close_with
  close_client c w = close_with c c.client w
