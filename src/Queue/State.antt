-- ===== src/Queue/State.antt =====
-- internal/queue/queue.go: the fields of `Queue` and what its methods do while they hold the lock or
-- at one `select`. A `select` that would wait is a step that cannot be taken yet.
use smtpd.Prelude.{
  ℕ, zero, suc, ◌+◌, ◌-◌, Bool, true, false, not, ◌&&◌, ◌||◌, Option, none, some, List, [], ◌∷◌,
  ◌++◌, length, ltb, ◌==◌, if◌then◌else◌, ℤ, pos, negsuc,
}
use smtpd.Message.{Message}
use smtpd.Queue.Heap.{push, pop}
use smtpd.Queue.Heap.Slice.{Item, get}

-- `signal` says that the channel retrySignal, which has room for one, is full; `stopped` that
-- stopChan is closed, and `drained` that readyChan is
pub record Queue : Type 0 where
  pub capacity : ℕ
  pub ready : List Message
  pub retry : List Item
  pub signal : Bool
  pub closed : Bool
  pub stopped : Bool
  pub drained : Bool

-- `NewQueue`
unfoldable pub new_queue : ℤ → Queue
new_queue buffer_size = record {
  capacity = elim buffer_size [ negsuc n ↦ 100 | pos n ↦ if n == 0 then 100 else n ];
  ready = [];
  retry = [];
  signal = false;
  closed = false;
  stopped = false;
  drained = false;
}

-- NextAttemptAt.IsZero() and its default
unfoldable pub stamp : ℕ → Message → Message
stamp now m = if m.next_attempt_at == 0 then record m { next_attempt_at = now } else m

-- the send to readyChan, when there is room
unfoldable pub send_ready : Message → Queue → Option Queue
send_ready m q =
    if ltb (length q.ready) q.capacity then some (record q { ready = q.ready ++ m ∷ [] }) else none

-- nanoseconds
abbrev pub requeue_delay : ℕ
requeue_delay = 5_000_000_000

-- a time that is not set, or past, is put off
unfoldable pub postpone : ℕ → Message → Message
postpone now m =
    if m.next_attempt_at == 0 || ltb m.next_attempt_at now
    then record m { next_attempt_at = now + requeue_delay }
    else m

-- `Requeue` up to its `select`; none is ErrQueueClosed
unfoldable pub requeue_push : ℕ → Message → Queue → Option Queue
unfolding postpone
requeue_push now m q =
    let m' = postpone now m in
    if q.closed then none else some (record q { retry = push m' m'.next_attempt_at q.retry })

-- the receipt from readyChan
unfoldable pub receive : Queue → Option (Message × Queue)
receive q = elim q.ready [ [] ↦ none | m ∷ ms ↦ some (m, record q { ready = ms }) ]

-- nanoseconds
abbrev pub hour : ℕ
hour = 3_600_000_000_000

-- `getNextRetryDelay`
unfoldable pub get_next_retry_delay : ℕ → Queue → ℕ
get_next_retry_delay now q = elim q.retry [
  | [] ↦ hour
  | x ∷ h ↦ if ltb now x.priority then x.priority - now else 0
]

-- a message goes back to the heap, and the scheduler is signalled if readyChan was full
unfoldable pub put_back : Bool → Message × ℕ → Queue → Queue
put_back full e q = record q {
  retry = push e.0 e.1 q.retry;
  signal = if full then true else q.signal;
}

-- `promoteReadyMessages`. When readyChan has room and stopChan is closed, `select` takes either:
-- `stops` says which, for each round.
unfoldable pub promote : ℕ → (ℕ → Bool) → ℕ → Queue → Queue
unfolding put_back
promote zero stops now q = q
promote (suc fuel) stops now q =
    let (e, rest) = pop q.retry in
    let q' = record q { retry = rest } in
    let sent = promote fuel stops now (record q' { ready = q.ready ++ e.0 ∷ [] }) in
    if length q.retry == 0 || ltb now (get q.retry 0).priority
    then q
    else if ltb (length q.ready) q.capacity && not (q.stopped && stops fuel)
    then sent
    else put_back (not q.stopped) e q'

unfoldable pub promote_ready_messages : (ℕ → Bool) → ℕ → Queue → Queue
unfolding promote
promote_ready_messages stops now q = promote (length q.retry) stops now q

-- the two parts of `Close` under the lock; none for a queue that is closed already
unfoldable pub close_begin : Queue → Option Queue
close_begin q = if q.closed then none else some (record q { closed = true; stopped = true })

unfoldable pub close_end : Queue → Queue
close_end q = record q { drained = true; retry = [] }
