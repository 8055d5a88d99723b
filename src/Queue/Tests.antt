-- ===== src/Queue/Tests.antt =====
-- A queue that promotes, and the theorems about queues at concrete inputs.
use smtpd.Prelude.{
  ℕ, ◌≡◌, refl, true, false, some, List, [], ◌∷◌, length, map, pos, arith, inl, ◌==◌, if◌then◌else◌,
}
use smtpd.Message.{Message}
use smtpd.Queue.Heap.{push, pop}
use smtpd.Queue.Heap.Slice.{Item, no_item, get, set}
use smtpd.Queue.Heap.Order.{IsHeap}
use smtpd.Queue.Heap.Laws.{push-Sifted}
use smtpd.Queue.State.{Queue, new_queue, receive, promote_ready_messages}
use smtpd.Queue.Promotion.{promote_ready_messages-Promotes, Promotes}
use smtpd.Queue.Locking.{System, computing, selecting, idle, signalling, panicked, update}
use smtpd.Queue.Locking.Steps.{Steps, here, then_step, compute, dequeue}
use smtpd.Queue.Locking.Safety.{Steps-IsSound, IsSound, initial}
use smtpd.Queue.Locking.Wedge.{Step-IsWedged, IsWedged, requeue_wedges, enqueue_panics, IsAtRest}

abbrev letter : ℕ → Message
letter n = record no_item.msg { next_attempt_at = n }

abbrev heap : List Item
heap = push (letter 5) 5 (push (letter 9) 9 (push (letter 7) 7 []))

heap-IsHeap : IsHeap (length heap) heap
heap-IsHeap =
    let (one, _, _) = push-Sifted (letter 7) 7 [] (λ k a b. absurd (omega arith)) in
    let (two, _, _) = push-Sifted (letter 9) 9 (push (letter 7) 7 []) one in
    (push-Sifted (letter 5) 5 (push (letter 9) 9 (push (letter 7) 7 [])) two).0

abbrev waiting : Queue
unfolding new_queue
waiting = record (new_queue (pos 2)) { retry = heap }

promotes_two :
    map (λ m. m.next_attempt_at) (promote_ready_messages (λ k. false) 8 waiting).ready ≡ 5 ∷ 7 ∷ []
unfolding promote_ready_messages push new_queue get set pop
promotes_two = refl

promote_ready_messages-Promotes_example :
    Promotes 8 waiting (promote_ready_messages (λ k. false) 8 waiting)
unfolding new_queue
promote_ready_messages-Promotes_example =
    promote_ready_messages-Promotes (λ k. false) 8 waiting heap-IsHeap (omega arith)

Steps-IsSound_example : IsSound (record (initial (pos 2)) { scheduler = selecting })
Steps-IsSound_example =
    Steps-IsSound (pos 2) (record (initial (pos 2)) { scheduler = selecting })
      (then_step here (compute refl refl))

abbrev at_rest : System
at_rest = record (initial (pos 2)) { scheduler = selecting }

at_rest-IsAtRest : IsAtRest at_rest
unfolding new_queue
at_rest-IsAtRest = record { free = refl; scheduler = refl; open_queue = refl; running = refl }

requeue_wedges_example : (h : List Item) × (t : System) × Steps at_rest t × IsWedged 1 h t
unfolding new_queue
requeue_wedges_example =
    requeue_wedges at_rest 0 1 6 (letter 7) (letter 9) at_rest-IsAtRest refl refl refl refl

abbrev wedged : System
wedged = record {
  queue = record (new_queue (pos 2)) { ready = letter 3 ∷ []; retry = heap; signal = true };
  owner = some 1;
  scheduler = computing;
  callers = λ i. if i == 1 then signalling else idle;
}

abbrev taken : System
taken = record wedged {
  queue = record wedged.queue { ready = [] };
  callers = update wedged.callers 0 idle;
}

Step-IsWedged_example : IsWedged 1 heap taken
unfolding new_queue receive
Step-IsWedged_example =
    Step-IsWedged 1 heap wedged taken (dequeue 0 (letter 3) taken.queue refl refl) (record {
      owner = refl;
      waits = refl;
      full = refl;
      open_queue = refl;
      running = refl;
      scheduler = inl refl;
      heap = refl;
    })

enqueue_panics_example : (t : System) × Steps at_rest t × (t.callers 0 ≡ panicked)
unfolding new_queue
enqueue_panics_example = enqueue_panics at_rest 0 1 6 (letter 0) at_rest-IsAtRest refl refl refl
