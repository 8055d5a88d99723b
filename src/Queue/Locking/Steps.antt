-- ===== src/Queue/Locking/Steps.antt =====
-- internal/queue/queue.go: the steps of the callers and of the scheduler.
use smtpd.Prelude.{ℕ, ◌≡◌, Bool, true, false, none, some}
use smtpd.Message.{Message}
use smtpd.Queue.State.{
  Queue, stamp, send_ready, requeue_push, receive, promote_ready_messages, close_begin, close_end,
}
use smtpd.Queue.Locking.{
  computing, selecting, promoting, exited, idle, sending, signalling, closing, joined, panicked,
  System, moved,
}

-- `Step s cancelled t`: `cancelled` says that the step is the end of a caller's context
pub data Step (s : System) : Bool → System → Type 0 where
  -- Enqueue: the test under the lock, and then its `select`
  enqueue :
      (i now : ℕ) (m : Message)
      → s.callers i ≡ idle
      → s.owner ≡ none
      → s.queue.closed ≡ false
      → Step s false (moved s i (sending (stamp now m)) s.queue)
  enqueue_send :
      (i : ℕ) (m : Message) (q : Queue)
      → s.callers i ≡ sending m
      → s.queue.drained ≡ false
      → send_ready m s.queue ≡ some q
      → Step s false (moved s i idle q)
  enqueue_panic :
      (i : ℕ) (m : Message)
      → s.callers i ≡ sending m
      → s.queue.drained ≡ true
      → Step s false (moved s i panicked s.queue)
  enqueue_stop :
      (i : ℕ) (m : Message)
      → s.callers i ≡ sending m
      → s.queue.stopped ≡ true
      → Step s false (moved s i idle s.queue)
  enqueue_cancel :
      (i : ℕ) (m : Message) → s.callers i ≡ sending m → Step s true (moved s i idle s.queue)
  -- Requeue: the push under the lock, which is kept, and then its `select`
  requeue :
      (i now : ℕ) (m : Message) (q : Queue)
      → s.callers i ≡ idle
      → s.owner ≡ none
      → requeue_push now m s.queue ≡ some q
      → Step s false (record (moved s i signalling q) { owner = some i })
  requeue_signal :
      (i : ℕ)
      → s.callers i ≡ signalling
      → s.queue.signal ≡ false
      → Step s false (record (moved s i idle (record s.queue { signal = true })) { owner = none })
  requeue_stop :
      (i : ℕ)
      → s.callers i ≡ signalling
      → s.queue.stopped ≡ true
      → Step s false (record (moved s i idle s.queue) { owner = none })
  requeue_cancel :
      (i : ℕ)
      → s.callers i ≡ signalling
      → Step s true (record (moved s i idle s.queue) { owner = none })
  dequeue :
      (i : ℕ) (m : Message) (q : Queue)
      → s.callers i ≡ idle
      → receive s.queue ≡ some (m, q)
      → Step s false (moved s i idle q)
  -- Close
  close :
      (i : ℕ) (q : Queue)
      → s.callers i ≡ idle
      → s.owner ≡ none
      → close_begin s.queue ≡ some q
      → Step s false (moved s i closing q)
  close_join :
      (i : ℕ)
      → s.callers i ≡ closing
      → s.scheduler ≡ exited
      → Step s false (moved s i joined s.queue)
  close_drain :
      (i : ℕ)
      → s.callers i ≡ joined
      → s.owner ≡ none
      → Step s false (moved s i idle (close_end s.queue))
  -- the scheduler
  compute :
      s.scheduler ≡ computing → s.owner ≡ none → Step s false (record s { scheduler = selecting })
  timer : s.scheduler ≡ selecting → Step s false (record s { scheduler = promoting })
  tick : s.scheduler ≡ selecting → Step s false (record s { scheduler = computing })
  signalled :
      s.scheduler ≡ selecting
      → s.queue.signal ≡ true
      → Step s false (record s { scheduler = computing; queue = record s.queue { signal = false } })
  stop :
      s.scheduler ≡ selecting
      → s.queue.stopped ≡ true
      → Step s false (record s { scheduler = exited })
  promote :
      (stops : ℕ → Bool) (now : ℕ)
      → s.scheduler ≡ promoting
      → s.owner ≡ none
      → Step s false
          (record s { scheduler = computing; queue = promote_ready_messages stops now s.queue })

-- any number of steps
pub data Steps (s : System) : System → Type 0 where
  here : Steps s s
  then_step : {t u : System} {c : Bool} → Steps s t → Step t c u → Steps s u
