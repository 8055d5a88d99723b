-- ===== src/Session.antt =====
-- internal/server/session.go: one SMTP conversation on the standard or the submission port.
pub mod State
pub mod Helo
pub mod Envelope
pub mod Data
pub mod Auth
pub mod Loop
pub mod Moves
pub mod Relay
pub mod Encryption
pub mod Phases
pub mod Transfer
pub mod Progress
pub mod Lines
mod Tests
