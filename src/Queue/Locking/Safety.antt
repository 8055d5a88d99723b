-- ===== src/Queue/Locking/Safety.antt =====
-- internal/queue/queue.go: what every interleaving keeps of the lock and of the two stores.
use smtpd.Prelude.{
  ℕ, ◌≤◌, ◌≡◌, ◌≢◌, sym, ap, ◌∙◌, Bool, true, Option, none, some, [], ◌∷◌, length, length-append,
  ◌==◌, inl, inr, arith, Bool-cases, ℤ,
}
use smtpd.Message.{Message}
use smtpd.Queue.Heap.{push}
use smtpd.Queue.Heap.Order.{IsHeap}
use smtpd.Queue.Heap.Laws.{push-Sifted}
use smtpd.Queue.State.{
  Queue, stamp, send_ready, requeue_push, postpone, receive, promote_ready_messages, close_begin,
  close_end, new_queue,
}
use smtpd.Queue.Promotion.{promote_ready_messages-Promotes}
use smtpd.Queue.Locking.{
  computing, Caller, idle, sending, signalling, closing, joined, panicked, System, update, moved,
}
use smtpd.Queue.Locking.Steps.{
  Step, Steps, here, then_step, enqueue, enqueue_send, enqueue_panic, enqueue_stop, enqueue_cancel,
  requeue, requeue_signal, requeue_stop, requeue_cancel, dequeue, close, close_join, close_drain,
  compute, timer, tick, signalled, stop, promote,
}

-- the retry heap is a heap, and readyChan holds no more than its buffer
pub record IsStored (q : Queue) : Type 0 where
  pub heap : IsHeap (length q.retry) q.retry
  pub room : length q.ready ≤ q.capacity

-- the caller that waits with the lock, if any, is the one that `owner` names
pub record IsLocked (owner : Option ℕ) (callers : ℕ → Caller) : Type 0 where
  pub holds : (i : ℕ) → owner ≡ some i → callers i ≡ signalling
  pub waits : (i : ℕ) → callers i ≡ signalling → owner ≡ some i

pub record IsSound (s : System) : Type 0 where
  pub stored : IsStored s.queue
  pub locked : IsLocked s.owner s.callers

send_ready-IsStored :
    (m : Message) (q r : Queue) → send_ready m q ≡ some r → IsStored q → IsStored r
unfolding send_ready
send_ready-IsStored m q r e k = record {
  heap = let same : r.retry ≡ q.retry = ground arith in rw same k.heap;
  room = let grown = length-append q.ready (m ∷ []) in ground (arith, k.room);
}

receive-IsStored : (m : Message) (q r : Queue) → receive q ≡ some (m, r) → IsStored q → IsStored r
unfolding receive
receive-IsStored m q r e k = record {
  heap = let same : r.retry ≡ q.retry = ground arith in rw same k.heap;
  room = ground (arith, k.room);
}

requeue_push-IsStored :
    (now : ℕ) (m : Message) (q r : Queue) → requeue_push now m q ≡ some r → IsStored q → IsStored r
unfolding requeue_push
requeue_push-IsStored now m q r e k =
    let n = postpone now m in
    let (heap, same, size) = push-Sifted n n.next_attempt_at q.retry k.heap in
    record {
      heap = let eq : r.retry ≡ push n n.next_attempt_at q.retry = ground arith in rw eq heap;
      room = ground (arith, k.room);
    }

close_begin-IsStored : (q r : Queue) → close_begin q ≡ some r → IsStored q → IsStored r
unfolding close_begin
close_begin-IsStored q r e k = record {
  heap = let same : r.retry ≡ q.retry = ground arith in rw same k.heap;
  room = ground (arith, k.room);
}

close_end-IsStored : (q : Queue) → IsStored q → IsStored (close_end q)
unfolding close_end
close_end-IsStored q k = record { heap = λ n a b. absurd (omega arith); room = k.room }

module _ (owner : Option ℕ) (f : ℕ → Caller) (k : IsLocked owner f) (j : ℕ) where
  -- a caller that neither waits with the lock nor comes to
  bystander :
      (c d : Caller) → f j ≡ c → c ≢ signalling → d ≢ signalling → IsLocked owner (update f j d)
  bystander c d at a b = record {
    holds = λ i o. elim (Bool-cases (j == i)) [
      | inl e ↦ absurd (a (sym at ∙ ap f (ground arith) ∙ k.holds i o))
      | inr e ↦ rw e (k.holds i o)
    ];
    waits = λ i w. elim (Bool-cases (j == i)) [
      | inl e ↦ absurd (b (ground (arith, w)))
      | inr e ↦ k.waits i (ground (arith, w))
    ];
  }

  acquire : owner ≡ none → IsLocked (some j) (update f j signalling)
  acquire free = record {
    holds = λ i o. ground arith;
    waits = λ i w. elim (Bool-cases (j == i)) [
      | inl e ↦ ground arith
      | inr e ↦ absurd (ground (arith, k.waits i (ground (arith, w))))
    ];
  }

  release : (d : Caller) → f j ≡ signalling → d ≢ signalling → IsLocked none (update f j d)
  release d at a = record {
    holds = λ i o. absurd cc;
    waits = λ i w. elim (Bool-cases (j == i)) [
      | inl e ↦ absurd (a (ground (arith, w)))
      | inr e ↦ absurd (ground (arith, k.waits i (ground (arith, w)), k.waits j at))
    ];
  }

promote-IsStored :
    (stops : ℕ → Bool) (now : ℕ) (q : Queue)
    → IsStored q
    → IsStored (promote_ready_messages stops now q)
promote-IsStored stops now q k =
    let p = promote_ready_messages-Promotes stops now q k.heap k.room in
    record { heap = p.heap; room = p.room }

module _ (s : System) (k : IsSound s) where
  step_aside :
      (j : ℕ) (c d : Caller) (q : Queue)
      → s.callers j ≡ c
      → c ≢ signalling
      → d ≢ signalling
      → IsStored q
      → IsSound (moved s j d q)
  step_aside j c d q at a b stored = record {
    stored = stored;
    locked = bystander s.owner s.callers k.locked j c d at a b;
  }

  let_go :
      (j : ℕ) (q : Queue)
      → s.callers j ≡ signalling
      → IsStored q
      → IsSound (record (moved s j idle q) { owner = none })
  let_go j q at stored = record {
    stored = stored;
    locked = release s.owner s.callers k.locked j idle at (cc);
  }

-- A step of any caller or of the scheduler, the end of a context included, keeps the retry heap in
-- order and readyChan within its buffer, and at most one caller waits in Requeue, the one that has
-- the lock.
pub Step-IsSound : (s t : System) (c : Bool) → Step s c t → IsSound s → IsSound t
Step-IsSound s t c (enqueue j now m at free o) k =
    step_aside s k j idle (sending (stamp now m)) s.queue at (cc) (cc) k.stored
Step-IsSound s t c (enqueue_send j m q at o e) k =
    step_aside s k j (sending m) idle q at (cc) (cc) (send_ready-IsStored m s.queue q e k.stored)
Step-IsSound s t c (enqueue_panic j m at o) k =
    step_aside s k j (sending m) panicked s.queue at (cc) (cc) k.stored
Step-IsSound s t c (enqueue_stop j m at o) k =
    step_aside s k j (sending m) idle s.queue at (cc) (cc) k.stored
Step-IsSound s t c (enqueue_cancel j m at) k =
    step_aside s k j (sending m) idle s.queue at (cc) (cc) k.stored
Step-IsSound s t c (requeue j now m q at free e) k = record {
  stored = requeue_push-IsStored now m s.queue q e k.stored;
  locked = acquire s.owner s.callers k.locked j free;
}
Step-IsSound s t c (requeue_signal j at o) k =
    let_go s k j (record s.queue { signal = true }) at
      (record { heap = k.stored.heap; room = k.stored.room })
Step-IsSound s t c (requeue_stop j at o) k = let_go s k j s.queue at k.stored
Step-IsSound s t c (requeue_cancel j at) k = let_go s k j s.queue at k.stored
Step-IsSound s t c (dequeue j m q at o) k =
    step_aside s k j idle idle q at (cc) (cc) (receive-IsStored m s.queue q o k.stored)
Step-IsSound s t c (close j q at free o) k =
    step_aside s k j idle closing q at (cc) (cc) (close_begin-IsStored s.queue q o k.stored)
Step-IsSound s t c (close_join j at o) k =
    step_aside s k j closing joined s.queue at (cc) (cc) k.stored
Step-IsSound s t c (close_drain j at free) k =
    step_aside s k j joined idle (close_end s.queue) at (cc) (cc)
      (close_end-IsStored s.queue k.stored)
Step-IsSound s t c (compute at free) k = record { stored = k.stored; locked = k.locked }
Step-IsSound s t c (timer at) k = record { stored = k.stored; locked = k.locked }
Step-IsSound s t c (tick at) k = record { stored = k.stored; locked = k.locked }
Step-IsSound s t c (signalled at o) k = record {
  stored = record { heap = k.stored.heap; room = k.stored.room };
  locked = k.locked;
}
Step-IsSound s t c (stop at o) k = record { stored = k.stored; locked = k.locked }
Step-IsSound s t c (promote stops now at free) k = record {
  stored = promote-IsStored stops now s.queue k.stored;
  locked = k.locked;
}

-- the system that NewQueue leaves
abbrev pub initial : ℤ → System
initial buffer_size = record {
  queue = new_queue buffer_size;
  owner = none;
  scheduler = computing;
  callers = λ i. idle;
}

initial-IsSound : (buffer_size : ℤ) → IsSound (initial buffer_size)
unfolding new_queue
initial-IsSound buffer_size = record {
  stored = record { heap = λ n a b. absurd (omega arith); room = omega arith };
  locked = record { holds = λ i o. absurd cc; waits = λ i w. absurd cc };
}

-- In every system that the steps reach from the one that NewQueue leaves: the retry heap is in
-- order, readyChan is within its buffer, and at most one caller waits in Requeue, the one that has
-- the lock.
pub Steps-IsSound : (buffer_size : ℤ) (s : System) → Steps (initial buffer_size) s → IsSound s
Steps-IsSound buffer_size s here = initial-IsSound buffer_size
Steps-IsSound buffer_size s (then_step {t} {c} most last) =
    Step-IsSound t s c last (Steps-IsSound buffer_size t most)
