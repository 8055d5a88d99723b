-- ===== src/Outbound/Client/Bounds.antt =====
-- pkg/outbound/smtp_client.go: what every use of the pool keeps.

use smtpd.Prelude.{ℕ, ◌≡◌, ◌⊎◌, inl, inr}
use smtpd.Text.{Bytes}
use smtpd.Outbound.Errors.{Failure}
use smtpd.Outbound.Client.{Net, SmtpClientConfig, SmtpClient}

module _ {W N K : Type 0} (net : Net W N K) (limit : ℕ) where
  -- a client that is made is one for the host
  AnswerFor : Bytes → Failure ⊎ SmtpClient K → Type 0
  AnswerFor host (inl e) = Unit {0}
  AnswerFor host (inr c) = c.host ≡ host

  -- an answer of newSMTPClient that leaves the limit as it was
  record Keeps (host : Bytes) (cfg : SmtpClientConfig)
      (r : (Failure ⊎ SmtpClient K) × SmtpClientConfig × W) : Type 0 where
    made : AnswerFor host r.0
    same : r.1.max_connections ≡ cfg.max_connections
