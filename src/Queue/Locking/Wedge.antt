-- ===== src/Queue/Locking/Wedge.antt =====
-- internal/queue/queue.go: Requeue waits with the lock, and Enqueue sends without it.
use smtpd.Prelude.{
  ℕ, ◌≡◌, ◌≢◌, ◌⊎◌, inl, inr, refl, true, false, none, some, List, ◌==◌, arith, Bool-cases, sym, ap,
  ◌∙◌,
}
use smtpd.Message.{Message}
use smtpd.Queue.Heap.{push}
use smtpd.Queue.Heap.Slice.{Item}
use smtpd.Queue.State.{
  Queue, send_ready, receive, requeue_push, postpone, stamp, close_begin, close_end,
}
use smtpd.Queue.Locking.{
  computing, selecting, promoting, exited, Caller, idle, sending, signalling, closing, joined,
  panicked, System, update, moved,
}
use smtpd.Queue.Locking.Steps.{
  Step, Steps, here, then_step, enqueue, enqueue_send, enqueue_panic, enqueue_stop, requeue,
  requeue_signal, requeue_stop, dequeue, close, close_join, close_drain, compute, timer, tick,
  signalled, stop, promote,
}

-- the caller `i` waits in Requeue for the scheduler to take the signal, and the scheduler waits for
-- the lock that the caller holds; `h` is the heap
pub record IsWedged (i : ℕ) (h : List Item) (s : System) : Type 0 where
  pub owner : s.owner ≡ some i
  pub waits : s.callers i ≡ signalling
  pub full : s.queue.signal ≡ true
  pub open_queue : s.queue.closed ≡ false
  pub running : s.queue.stopped ≡ false
  pub scheduler : (s.scheduler ≡ computing) ⊎ (s.scheduler ≡ promoting)
  pub heap : s.queue.retry ≡ h

-- a step of another caller leaves the one that waits where it is
stays :
    (f : ℕ → Caller) (i j : ℕ) (c d : Caller)
    → f i ≡ signalling
    → f j ≡ c
    → c ≢ signalling
    → update f j d i ≡ signalling
stays f i j c d waits at other = elim (Bool-cases (j == i)) [
  | inl e ↦ absurd (other (sym at ∙ ap f (ground arith) ∙ waits))
  | inr e ↦ rw e waits
]

-- what a wedged system depends on, of the queue
record Agree (q r : Queue) : Type 0 where
  pub signal : r.signal ≡ q.signal
  pub closed : r.closed ≡ q.closed
  pub stopped : r.stopped ≡ q.stopped
  pub retry : r.retry ≡ q.retry

agree : (q : Queue) → Agree q q
agree q = record { signal = refl; closed = refl; stopped = refl; retry = refl }

send_ready-Agree : (m : Message) (q r : Queue) → send_ready m q ≡ some r → Agree q r
unfolding send_ready
send_ready-Agree m q r e = record {
  signal = ground (arith);
  closed = ground (arith);
  stopped = ground (arith);
  retry = ground (arith);
}

receive-Agree : (m : Message) (q r : Queue) → receive q ≡ some (m, r) → Agree q r
unfolding receive
receive-Agree m q r e = record {
  signal = ground (arith);
  closed = ground (arith);
  stopped = ground (arith);
  retry = ground (arith);
}

update_same : (f : ℕ → Caller) (i : ℕ) (c : Caller) → update f i c i ≡ c
update_same f i c = let same : (i == i) ≡ true = ground arith in rw same refl

update_other : (f : ℕ → Caller) (i j : ℕ) (c : Caller) → (i == j) ≡ false → update f i c j ≡ f j
update_other f i j c e = rw e refl

module _ (i : ℕ) (h : List Item) (s : System) (w : IsWedged i h s) where
  moves :
      (j : ℕ) (c d : Caller) (q : Queue)
      → s.callers j ≡ c
      → c ≢ signalling
      → Agree s.queue q
      → IsWedged i h (moved s j d q)
  moves j c d q at other same = record {
    owner = w.owner;
    waits = stays s.callers i j c d w.waits at other;
    full = same.signal ∙ w.full;
    open_queue = same.closed ∙ w.open_queue;
    running = same.stopped ∙ w.running;
    scheduler = w.scheduler;
    heap = same.retry ∙ w.heap;
  }

  -- the lock is not free, nor is the scheduler at its `select`
  locked {ℓ} : {A : Type ℓ} → s.owner ≡ none → A
  locked free = absurd cc

  waiting {ℓ} : {A : Type ℓ} → s.scheduler ≡ selecting → A
  waiting at = elim w.scheduler [ inl e ↦ absurd cc | inr e ↦ absurd cc ]

-- While a caller waits in Requeue with the lock, retrySignal is full, the queue is open and the
-- scheduler waits for the lock, no step of any caller or of the scheduler, short of the end of a
-- context, changes that: the same caller keeps the lock, the scheduler still waits, and the retry
-- heap stays as it is.
pub Step-IsWedged :
    (i : ℕ) (h : List Item) (s t : System) → Step s false t → IsWedged i h s → IsWedged i h t
Step-IsWedged i h s t (enqueue j now m at free o) w = locked i h s w free
Step-IsWedged i h s t (enqueue_send j m q at o e) w =
    moves i h s w j (sending m) idle q at (cc) (send_ready-Agree m s.queue q e)
Step-IsWedged i h s t (enqueue_panic j m at o) w =
    moves i h s w j (sending m) panicked s.queue at (cc) (agree s.queue)
Step-IsWedged i h s t (enqueue_stop j m at o) w =
    moves i h s w j (sending m) idle s.queue at (cc) (agree s.queue)
Step-IsWedged i h s t (requeue j now m q at free o) w = locked i h s w free
Step-IsWedged i h s t (requeue_signal j at o) w = absurd cc
Step-IsWedged i h s t (requeue_stop j at o) w = absurd cc
Step-IsWedged i h s t (dequeue j m q at o) w =
    moves i h s w j idle idle q at (cc) (receive-Agree m s.queue q o)
Step-IsWedged i h s t (close j q at free o) w = locked i h s w free
Step-IsWedged i h s t (close_join j at o) w =
    moves i h s w j closing joined s.queue at (cc) (agree s.queue)
Step-IsWedged i h s t (close_drain j at free) w = locked i h s w free
Step-IsWedged i h s t (compute at free) w = locked i h s w free
Step-IsWedged i h s t (timer at) w = waiting i h s w at
Step-IsWedged i h s t (tick at) w = waiting i h s w at
Step-IsWedged i h s t (signalled at o) w = waiting i h s w at
Step-IsWedged i h s t (stop at o) w = waiting i h s w at
Step-IsWedged i h s t (promote stops now at free) w = locked i h s w free

-- a system that is open, whose lock is free, and whose scheduler is at its `select`
pub record IsAtRest (s : System) : Type 0 where
  pub free : s.owner ≡ none
  pub scheduler : s.scheduler ≡ selecting
  pub open_queue : s.queue.closed ≡ false
  pub running : s.queue.stopped ≡ false

abbrev pushed : ℕ → Message → Queue → Queue
pushed now m q = record q { retry = push (postpone now m) (postpone now m).next_attempt_at q.retry }

requeue_push_open :
    (now : ℕ) (m : Message) (q : Queue)
    → q.closed ≡ false
    → requeue_push now m q ≡ some (pushed now m q)
unfolding requeue_push
requeue_push_open now m q e = rw e refl

close_begin_open :
    (q : Queue)
    → q.closed ≡ false
    → close_begin q ≡ some (record q { closed = true; stopped = true })
unfolding close_begin
close_begin_open q e = rw e refl

drained_close_end : (q : Queue) → (close_end q).drained ≡ true
unfolding close_end
drained_close_end q = refl

-- From any system whose queue is open, whose lock is free, whose scheduler is at its `select` and
-- whose retrySignal is empty, for two different callers that are between calls and any two
-- messages: if the scheduler wakes for its ticker and both callers then call Requeue, before it
-- gets the lock back, the steps lead to a system that is wedged.
pub requeue_wedges :
    (s : System) (i j now : ℕ) (m n : Message)
    → IsAtRest s
    → s.callers i ≡ idle
    → s.callers j ≡ idle
    → s.queue.signal ≡ false
    → (i == j) ≡ false
    → (h : List Item) × (t : System) × Steps s t × IsWedged j h t
requeue_wedges s i j now m n rest ai aj empty differ =
    let s1 = record s { scheduler = computing } in
    let q1 = pushed now m s.queue in
    let s2 = record (moved s1 i signalling q1) { owner = some i } in
    let s3 = record (moved s2 i idle (record q1 { signal = true })) { owner = none } in
    let q3 = pushed now n s3.queue in
    let s4 = record (moved s3 j signalling q3) { owner = some j } in
    let idle_j =
      update_other s2.callers i j idle differ ∙ update_other s.callers i j signalling differ ∙ aj in
    let first = then_step here (tick rest.scheduler) in
    let second =
      then_step first
        (requeue i now m q1 ai rest.free (requeue_push_open now m s.queue rest.open_queue)) in
    let third = then_step second (requeue_signal i (update_same s.callers i signalling) empty) in
    let fourth =
      then_step third
        (requeue j now n q3 idle_j refl (requeue_push_open now n s3.queue rest.open_queue)) in
    (
      q3.retry,
      s4,
      fourth,
      record {
        owner = refl;
        waits = update_same s3.callers j signalling;
        full = refl;
        open_queue = rest.open_queue;
        running = rest.running;
        scheduler = inl refl;
        heap = refl;
      },
    )

-- From any system whose queue is open, whose lock is free and whose scheduler is at its `select`,
-- for two different callers that are between calls: if the first is before the `select` of Enqueue
-- while the second calls Close, and Close ends before the first is run again, the first may send to
-- the channel that Close has closed, which panics.
pub enqueue_panics :
    (s : System) (i j now : ℕ) (m : Message)
    → IsAtRest s
    → s.callers i ≡ idle
    → s.callers j ≡ idle
    → (i == j) ≡ false
    → (t : System) × Steps s t × (t.callers i ≡ panicked)
enqueue_panics s i j now m rest ai aj differ =
    let c1 = update s.callers i (sending (stamp now m)) in
    let s1 = moved s i (sending (stamp now m)) s.queue in
    let q2 = record s.queue { closed = true; stopped = true } in
    let s2 = moved s1 j closing q2 in
    let s3 = record s2 { scheduler = exited } in
    let s4 = moved s3 j joined q2 in
    let s5 = moved s4 j idle (close_end q2) in
    let s6 = moved s5 i panicked s5.queue in
    let back : (j == i) ≡ false = ground arith in
    let first = then_step here (enqueue i now m ai rest.free rest.open_queue) in
    let second = then_step first (
      close j q2 (update_other s.callers i j (sending (stamp now m)) differ ∙ aj) rest.free
        (close_begin_open s.queue rest.open_queue)) in
    let third = then_step second (stop rest.scheduler refl) in
    let fourth = then_step third (close_join j (update_same c1 j closing) refl) in
    let fifth = then_step fourth (close_drain j (update_same s3.callers j joined) rest.free) in
    let sent =
      update_other s4.callers j i idle back
      ∙ update_other s3.callers j i joined back
      ∙ update_other c1 j i closing back
      ∙ update_same s.callers i (sending (stamp now m)) in
    let sixth = then_step fifth (enqueue_panic i (stamp now m) sent (drained_close_end q2)) in
    (s6, sixth, update_same s5.callers i panicked)
