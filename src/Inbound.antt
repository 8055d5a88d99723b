-- ===== src/Inbound.antt =====
-- pkg/inbound/server.go: the receiver for mail that its caller stores.
pub mod Address
pub mod Limits
pub mod Admission
pub mod State
pub mod Commands
pub mod Data
pub mod Loop
pub mod Replies
pub mod Sound
pub mod Transfer
mod Tests
