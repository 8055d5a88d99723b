-- ===== src/Queue/Locking.antt =====
-- internal/queue/queue.go: callers and the scheduler, interleaved at the lock and at each `select`.
-- What runs under the lock without waiting is one step; `Requeue` alone waits while it holds it.
pub mod Steps
pub mod Safety
pub mod Wedge
use smtpd.Prelude.{ℕ, ◌≡◌, Bool, true, false, Option, none, some, ◌==◌, if◌then◌else◌}
use smtpd.Message.{Message}
use smtpd.Queue.State.{Queue}

-- where `scheduleRetryMessages` stands: before the lock of getNextRetryDelay, at its `select`, or
-- before the lock of promoteReadyMessages
pub data Scheduler : Type 0 where
  computing selecting promoting exited : Scheduler

-- where a caller stands: between calls, before or at the `select` of Enqueue, at that of Requeue with the
-- lock, in Close before its Wait and before its second lock, or in a panic
pub data Caller : Type 0 where
  idle : Caller
  sending : Message → Caller
  signalling : Caller
  closing : Caller
  joined : Caller
  panicked : Caller

-- `owner` is the caller that holds the lock between two steps
pub record System : Type 0 where
  pub queue : Queue
  pub owner : Option ℕ
  pub scheduler : Scheduler
  pub callers : ℕ → Caller

abbrev pub update : (ℕ → Caller) → ℕ → Caller → ℕ → Caller
update f i c j = if i == j then c else f j

abbrev pub moved : System → ℕ → Caller → Queue → System
moved s i c q = record s { queue = q; callers = update s.callers i c }
