-- ===== src/Retry/Fates.antt =====
-- internal/processor/processor.go: what becomes of the messages that a worker takes.
use smtpd.Prelude.{
  ℕ, zero, suc, ◌≤◌, ◌<◌, ◌≡◌, ◌⊎◌, inl, inr, refl, Bool, true, false, List, [], ◌∷◌, ◌++◌, ltb,
  leb, arith, if◌then◌else◌, Bool-cases,
}
use smtpd.Text.{Bytes}
use smtpd.Retry.{max_retries, is_perm_failure}
use smtpd.Message.{Message}
use smtpd.Retry.Worker.{
  Dequeued, message, expired, failure, nothing, Delivered, success, interrupted, refusal,
  Environment, Fate, delivered, requeued, requeue_failed, permanent, exhausted, Worker, Control,
  next, exit, spinning, retried, settle, put_back, retry, check_shutdown, interrupt, fail, conclude,
  attempt, receive, round, process,
}

module _ {W : Type 0} (env : Environment W) where
  -- Deliver gave up on the message for a context's error
  abbrev TimedOut : Message → Type 0
  TimedOut m = (w : W) × ((env.deliver m w).0 ≡ interrupted)

  -- Deliver gave up on the message for an error with this text
  abbrev Refused : Message → Bytes → Type 0
  Refused m text = (w : W) × ((env.deliver m w).0 ≡ refusal text)

  -- Deliver failed, and the message has retries left, or the failure was a context's
  abbrev pub Retryable : Message → Type 0
  Retryable m = ((m.retry_count < max_retries) × ((text : Bytes) × Refused m text)) ⊎ TimedOut m

  -- what a message may go back to the queue as
  abbrev pub Again : Message → Message → Type 0
  Again m m' = (m' ≡ m) ⊎ ((t : ℕ) × (m' ≡ retried t m) × Retryable m)

  abbrev pub Explained : Message → Fate → Type 0
  Explained m (delivered m') = (m' ≡ m) × ((w : W) × ((env.deliver m w).0 ≡ success))
  Explained m (requeued m') = Again m m'
  Explained m (requeue_failed m') = Again m m'
  Explained m (permanent m' text) = (m' ≡ m) × (is_perm_failure text ≡ true) × Refused m text
  Explained m (exhausted m' text) =
      (m' ≡ m) × (is_perm_failure text ≡ false) × (max_retries ≤ m.retry_count) × Refused m text

  -- the messages taken and their fates, one by one
  abbrev pub Accounts : List Message → List Fate → Type 0
  Accounts [] [] = Unit {0}
  Accounts [] (f ∷ fs) = ⊥
  Accounts (m ∷ ms) [] = ⊥
  Accounts (m ∷ ms) (f ∷ fs) = Explained m f × Accounts ms fs

  Accounts-append :
      (ms : List Message) (fs : List Fate) (m : Message) (f : Fate)
      → Accounts ms fs
      → Explained m f
      → Accounts (ms ++ m ∷ []) (fs ++ f ∷ [])
  Accounts-append [] [] m f h e = (e, tt)
  Accounts-append [] (g ∷ fs) m f h e = absurd h
  Accounts-append (n ∷ ms) [] m f h e = absurd h
  Accounts-append (n ∷ ms) (g ∷ fs) m f h e = (h.0, Accounts-append ms fs m f h.1 e)

  -- `s` is `s0` with the message `m` taken, and `t` has its fate
  record Settles (taken : List Message) (fates : List Fate) (m : Message) (t : Worker W)
      : Type 0 where
    fate : Fate
    reason : Explained m fate
    took : t.taken ≡ taken ++ m ∷ []
    kept : t.fates ≡ fates ++ fate ∷ []

  -- a message that was taken, but has no fate yet
  record Waits (taken : List Message) (fates : List Fate) (m : Message) (s : Worker W)
      : Type 0 where
    took : s.taken ≡ taken ++ m ∷ []
    kept : s.fates ≡ fates

  module _ (taken : List Message) (fates : List Fate) (m : Message) where
    settle-Settles :
        (f : Fate) (s : Worker W)
        → Explained m f
        → Waits taken fates m s
        → Settles taken fates m (settle env f s)
    unfolding settle
    settle-Settles f s e h = record { fate = f; reason = e; took = h.took; kept = rw h.kept refl }

    put_back-Settles :
        (m' : Message) (s : Worker W)
        → Again m m'
        → Waits taken fates m s
        → Settles taken fates m (put_back env m' s)
    unfolding put_back
    put_back-Settles m' s a h =
        let (ok, w) = env.requeue m' s.world in
        answer ok (record s { world = w }) (record { took = h.took; kept = h.kept })
      where
        answer :
            (ok : Bool) (t : Worker W)
            → Waits taken fates m t
            → Settles taken fates m (settle env (if ok then requeued m' else requeue_failed m') t)
        answer true t h = settle-Settles (requeued m') t a h
        answer false t h = settle-Settles (requeue_failed m') t a h

    retry-Settles :
        (s : Worker W) → Retryable m → Waits taken fates m s → Settles taken fates m (retry env m s)
    unfolding retry
    retry-Settles s a h =
        let (t, w) = env.now s.world in
        put_back-Settles (retried t m) (record s { world = w }) (inr (t, refl, a))
          (record { took = h.took; kept = h.kept })

    fail-Settles :
        (text : Bytes) (s : Worker W)
        → Refused m text
        → Waits taken fates m s
        → Settles taken fates m (fail env m text s)
    unfolding fail
    fail-Settles text s o h = elim (Bool-cases (is_perm_failure text)) [
      | inl e ↦ rw e (settle-Settles (permanent m text) s (refl, e, o) h)
      | inr e ↦ elim (Bool-cases (leb max_retries m.retry_count)) [
        | inl l ↦ rw (e, l) (settle-Settles (exhausted m text) s (refl, e, ground arith, o) h)
        | inr l ↦ rw (e, l) (retry-Settles s (inl (ground arith, (text, o))) h)
      ]
    ]

    check_shutdown-Settles :
        (s : Worker W) → Settles taken fates m s → Settles taken fates m (check_shutdown env s).1
    unfolding check_shutdown
    check_shutdown-Settles s h = record {
      fate = h.fate;
      reason = h.reason;
      took = h.took;
      kept = h.kept;
    }

    interrupt-Settles :
        (s : Worker W)
        → TimedOut m
        → Waits taken fates m s
        → Settles taken fates m (interrupt env m s).1
    unfolding interrupt
    interrupt-Settles s o h =
        let (ended, w) = env.done s.world in
        ended_or_not ended (record s { world = w }) (record { took = h.took; kept = h.kept })
      where
        ended_or_not :
            (b : Bool) (t : Worker W)
            → Waits taken fates m t
            → Settles taken fates m
                (if◌then◌else◌ {A = Control × Worker W} b
                  (exit, put_back env m t)
                  (next, retry env m t)).1
        ended_or_not true t h = put_back-Settles m t (inl refl) h
        ended_or_not false t h = retry-Settles t (inr o) h

    conclude-Settles :
        (d : Delivered) (s : Worker W)
        → ((w : W) × ((env.deliver m w).0 ≡ d))
        → Waits taken fates m s
        → Settles taken fates m (conclude env m d s).1
    unfolding conclude
    conclude-Settles success s o h =
        check_shutdown-Settles _ (settle-Settles (delivered m) s (refl, o) h)
    conclude-Settles interrupted s o h = interrupt-Settles s o h
    conclude-Settles (refusal text) s o h = check_shutdown-Settles _ (fail-Settles text s o h)

    attempt-Settles :
        (s : Worker W) → Waits taken fates m s → Settles taken fates m (attempt env m s).1
    unfolding attempt
    attempt-Settles s h =
        let (t, w) = env.now s.world in
        let (d, w') = env.deliver m w in
        elim (Bool-cases (ltb t m.next_attempt_at)) [
          | inl e ↦ rw e (
              put_back-Settles m (record s { world = w }) (inl refl)
                (record { took = h.took; kept = h.kept }))
          | inr e ↦ rw e (
              conclude-Settles d (record s { world = w' }) (w, refl)
                (record { took = h.took; kept = h.kept }))
        ]

  -- a record of a worker, whose fates account for what it took
  record IsAccounted (s : Worker W) : Type 0 where
    accounts : Accounts s.taken s.fates

  accounted :
      (s t : Worker W) (m : Message) → IsAccounted s → Settles s.taken s.fates m t → IsAccounted t
  accounted s t m h c = record {
    accounts = rw (c.took, c.kept) (Accounts-append s.taken s.fates m c.fate h.accounts c.reason);
  }

  receive-IsAccounted :
      (d : Dequeued) (s : Worker W) → IsAccounted s → IsAccounted (receive env d s).1
  unfolding receive
  receive-IsAccounted (message m) s h =
      accounted s _ m h (attempt-Settles s.taken s.fates m _ (record { took = refl; kept = refl }))
  receive-IsAccounted expired s h = record { accounts = h.accounts }
  receive-IsAccounted failure s h = h
  receive-IsAccounted nothing s h = h

  round-IsAccounted : (s : Worker W) → IsAccounted s → IsAccounted (round env s).1
  unfolding round
  round-IsAccounted s h =
      let (ended, w) = env.done s.world in
      let (d, w') = env.dequeue w in
      elim (Bool-cases ended) [
        | inl e ↦ rw e (record { accounts = h.accounts })
        | inr e ↦
            rw e
              (receive-IsAccounted d (record s { world = w' }) (record { accounts = h.accounts }))
      ]

  process-IsAccounted :
      (fuel : ℕ) (s : Worker W) → IsAccounted s → IsAccounted (process env fuel s).1
  unfolding process
  process-IsAccounted zero s h = h
  process-IsAccounted (suc fuel) s h =
      let (ctl, s') = round env s in
      rest ctl s' (round-IsAccounted s h) (process-IsAccounted fuel s' (round-IsAccounted s h))
    where
      rest :
          (ctl : Control) (s' : Worker W)
          → IsAccounted s'
          → IsAccounted (process env fuel s').1
          → IsAccounted
              (elim ctl as (λ _. Control × Worker W) [
                | next ↦ process env fuel s'
                | other ↦ (other, s')
              ]).1
      rest next s' h r = r
      rest exit s' h r = h
      rest spinning s' h r = h

  -- However long a worker runs, and whatever the queue, the deliverer and the clock do: each message
  -- that it took has exactly one fate. It was delivered as it is; or Deliver failed and it was given
  -- up, for a permanent failure or after MaxRetries retries; or Requeue was called with it as it is,
  -- or with one retry more, and then Deliver had failed with retries left or had timed out.
  pub process-Accounts :
      (fuel : ℕ) (s : Worker W)
      → Accounts s.taken s.fates
      → Accounts (process env fuel s).1.taken (process env fuel s).1.fates
  process-Accounts fuel s h = (process-IsAccounted fuel s (record { accounts = h })).accounts
