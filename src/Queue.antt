-- ===== src/Queue.antt =====
-- internal/queue/queue.go: the messages that wait for delivery.
pub mod Heap
pub mod State
pub mod Promotion
pub mod Locking
mod Tests
