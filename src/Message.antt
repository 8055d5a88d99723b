-- ===== src/Message.antt =====
-- pkg/message/message.go: a message between the session, the queue and the workers. Times are
-- nanoseconds, and 0 is Go's zero time.
use smtpd.Prelude.{ℕ, List}
use smtpd.Text.{Bytes}

pub record Message : Type 0 where
  pub id : Bytes
  pub sender : Bytes
  pub recipients : List Bytes
  pub content : Bytes
  pub created_at : ℕ
  pub retry_count : ℕ
  pub next_attempt_at : ℕ
