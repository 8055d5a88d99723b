-- ===== src/Retry/Worker.antt =====
-- internal/processor/processor.go: `worker.process`.
use smtpd.Prelude.{
  ℕ, zero, suc, ◌+◌, ◌-◌, Bool, List, [], ◌∷◌, ◌++◌, ℤ, pos, negsuc, ltb, leb, if◌then◌else◌,
}
use smtpd.Text.{Bytes}
use smtpd.Message.{Message}
use smtpd.Retry.{max_retries, is_perm_failure, calculate_retry_delay}

-- what Dequeue answers: `expired` is context.Canceled or context.DeadlineExceeded
pub data Dequeued : Type 0 where
  message : Message → Dequeued
  expired : Dequeued
  failure : Dequeued
  nothing : Dequeued

-- what Deliver answers: `interrupted` is a context's error, `refusal` the text of another
pub data Delivered : Type 0 where
  success : Delivered
  interrupted : Delivered
  refusal : Bytes → Delivered

-- What a worker calls, on a state `W` that the queue, the clock and the other goroutines share.
pub record Environment (W : Type 0) : Type 0 where
  pub dequeue : W → Dequeued × W
  pub requeue : Message → W → Bool × W  -- true for a nil error
  pub deliver : Message → W → Delivered × W
  pub now : W → ℕ × W
  pub done : W → Bool × W  -- the parent context has ended

-- what became of a message that was taken from the queue
pub data Fate : Type 0 where
  delivered : Message → Fate
  requeued : Message → Fate
  requeue_failed : Message → Fate  -- the error of Requeue is logged
  permanent : Message → Bytes → Fate
  exhausted : Message → Bytes → Fate

-- `taken` and `fates` record what the loop did
pub record Worker (W : Type 0) : Type 0 where
  pub world : W
  pub taken : List Message
  pub fates : List Fate

pub data Control : Type 0 where
  next : Control
  exit : Control
  spinning : Control  -- the model's own, for fuel that ran out

-- time.Now().Add(delay); the clock starts at 0
unfoldable pub after : ℕ → ℤ → ℕ
after now (pos d) = now + d
after now (negsuc d) = now - suc d

-- RetryCount++ and the next attempt
unfoldable pub retried : ℕ → Message → Message
unfolding after
retried now m = record m {
  retry_count = suc m.retry_count;
  next_attempt_at = after now (calculate_retry_delay (suc m.retry_count));
}

module _ {W : Type 0} (env : Environment W) where
  unfoldable pub settle : Fate → Worker W → Worker W
  settle f s = record s { fates = s.fates ++ f ∷ [] }

  -- a Requeue, with its error logged
  unfoldable pub put_back : Message → Worker W → Worker W
  unfolding settle
  put_back m s =
      let (ok, w) = env.requeue m s.world in
      settle (if ok then requeued m else requeue_failed m) (record s { world = w })

  -- RetryCount++, the delay, and Requeue
  unfoldable pub retry : Message → Worker W → Worker W
  unfolding put_back
  retry m s = let (t, w) = env.now s.world in put_back (retried t m) (record s { world = w })

  -- the end of a round: exit if the context has ended
  unfoldable pub check_shutdown : Worker W → Control × Worker W
  check_shutdown s =
      let (ended, w) = env.done s.world in (if ended then exit else next, record s { world = w })

  -- Deliver returned a context's error: the parent's, or that of its own two minutes
  unfoldable pub interrupt : Message → Worker W → Control × Worker W
  unfolding retry
  interrupt m s =
      let (ended, w) = env.done s.world in
      let s' = record s { world = w } in if ended then (exit, put_back m s') else (next, retry m s')

  unfoldable pub fail : Message → Bytes → Worker W → Worker W
  unfolding retry
  fail m text s =
      if is_perm_failure text
      then settle (permanent m text) s
      else if leb max_retries m.retry_count
      then settle (exhausted m text) s
      else retry m s

  unfoldable pub conclude : Message → Delivered → Worker W → Control × Worker W
  unfolding fail interrupt check_shutdown
  conclude m success s = check_shutdown (settle (delivered m) s)
  conclude m interrupted s = interrupt m s
  conclude m (refusal text) s = check_shutdown (fail m text s)

  unfoldable pub attempt : Message → Worker W → Control × Worker W
  unfolding conclude
  attempt m s =
      let (t, w) = env.now s.world in
      let (d, w') = env.deliver m w in
      if ltb t m.next_attempt_at
      then (next, put_back m (record s { world = w }))
      else conclude m d (record s { world = w' })

  unfoldable pub receive : Dequeued → Worker W → Control × Worker W
  unfolding attempt
  receive (message m) s = attempt m (record s { taken = s.taken ++ m ∷ [] })
  receive expired s =
      let (ended, w) = env.done s.world in (if ended then exit else next, record s { world = w })
  receive failure s = (next, s)
  receive nothing s = (next, s)

  -- a round of the loop
  unfoldable pub round : Worker W → Control × Worker W
  unfolding receive
  round s =
      let (ended, w) = env.done s.world in
      let (d, w') = env.dequeue w in
      if ended then (exit, record s { world = w }) else receive d (record s { world = w' })

  unfoldable pub process : ℕ → Worker W → Control × Worker W
  unfolding round
  process zero s = (spinning, s)
  process (suc fuel) s =
      let (ctl, s') = round s in elim ctl [ next ↦ process fuel s' | other ↦ (other, s') ]
