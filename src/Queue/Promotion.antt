-- ===== src/Queue/Promotion.antt =====
-- internal/queue/queue.go: what `promoteReadyMessages` moves, and in which order.
use mathlib.Core.List.{
  Perm, Mem, mem-cons_of_mem, mem-append_left, mem-append_right, eq-or-mem_of_mem-cons, not-mem-nil,
}
use mathlib.Core.List.Perm
use mathlib.Core.Logic.Or
use native.Mathlib.Bridge.{le_prop}
use smtpd.Prelude.{
  ℕ, zero, suc, ◌≤◌, ◌<◌, ◌≡◌, ◌⊎◌, inl, inr, refl, sym, ◌∙◌, Bool, true, not, ◌&&◌, List, [], ◌∷◌,
  ◌++◌, map, length, length-append, ◌==◌, ◌||◌, append_assoc, append-nil, ltb, arith, Bool-cases,
}
use smtpd.Message.{Message}
use smtpd.Queue.Heap.{pop}
use smtpd.Queue.Heap.Slice.{Item, get, entries}
use smtpd.Queue.Heap.Order.{key, IsHeap, first_least}
use smtpd.Queue.Heap.Laws.{push-Sifted, pop-Sifted}
use smtpd.Queue.State.{Queue, promote, promote_ready_messages, put_back}

abbrev pub Entry : Type 0
Entry = Message × ℕ

-- every entry is due at `t` or later
abbrev pub DueFrom : ℕ → List Entry → Type 0
DueFrom t es = (e : Entry) → Mem e es → t ≤ e.1

abbrev pub DueBy : ℕ → List Entry → Type 0
DueBy t es = (e : Entry) → Mem e es → e.1 ≤ t

-- the entries in the order of their times, all before those of `later`
abbrev pub Ordered : List Entry → List Entry → Type 0
Ordered [] later = Unit {0}
Ordered (e ∷ es) later = DueFrom e.1 es × DueFrom e.1 later × Ordered es later

DueFrom-entries :
    (t : ℕ) (h : List Item) → ((k : ℕ) → k < length h → t ≤ key h k) → DueFrom t (entries h)
unfolding get
DueFrom-entries t [] l e m = absurd (not-mem-nil m)
DueFrom-entries t (x ∷ h) l e m =
    Or.elim le_prop (eq-or-mem_of_mem-cons m) (λ q. rw q (l 0 (omega arith)))
      (λ q. DueFrom-entries t h (λ k b. l (suc k) (omega arith)) e q)

-- what is promoted from `q`, with what is left in `r`
pub record Promotes (now : ℕ) (q r : Queue) : Type 0 where
  pub moved : List Entry
  pub sent : r.ready ≡ q.ready ++ map (λ (e : Entry). e.0) moved
  pub kept : Perm (moved ++ entries r.retry) (entries q.retry)
  pub due : DueBy now moved
  pub ordered : Ordered moved (entries r.retry)
  pub heap : IsHeap (length r.retry) r.retry
  pub room : length r.ready ≤ r.capacity
  pub same : r.capacity ≡ q.capacity
  pub rest :
      (r.stopped ≡ true)
      ⊎ ((length r.ready ≡ r.capacity) ⊎ ((k : ℕ) → k < length r.retry → now < key r.retry k))

nothing :
    (now : ℕ) (q : Queue)
    → IsHeap (length q.retry) q.retry
    → length q.ready ≤ q.capacity
    → (q.stopped ≡ true)
      ⊎ ((length q.ready ≡ q.capacity) ⊎ ((k : ℕ) → k < length q.retry → now < key q.retry k))
    → Promotes now q q
nothing now q o l r = record {
  moved = [];
  sent = sym (append-nil q.ready);
  kept = Perm.rfl;
  due = λ e m. absurd (not-mem-nil m);
  ordered = tt;
  heap = o;
  room = l;
  same = refl;
  rest = r;
}

-- the first entry, taken from a heap
record Popped (now : ℕ) (h : List Item) : Type 0 where
  size : suc (length (pop h).1) ≡ length h
  heap : IsHeap (length (pop h).1) (pop h).1
  same : Perm ((pop h).0 ∷ entries (pop h).1) (entries h)
  due : (pop h).0.1 ≤ now
  first : DueFrom (pop h).0.1 (entries (pop h).1)

popped :
    (now : ℕ) (q : Queue)
    → IsHeap (length q.retry) q.retry
    → 0 < length q.retry
    → key q.retry 0 ≤ now
    → Popped now q.retry
popped now q o p d = go (length q.retry) refl p
  where
    go : (n : ℕ) → length q.retry ≡ n → 0 < n → Popped now q.retry
    go zero e p = absurd (omega arith)
    go (suc n) e p =
        let (first, size, heap, same) = pop-Sifted n q.retry e o in
        record {
          size = omega (arith, size);
          heap = rw size heap;
          same = same;
          due = rw first d;
          first = λ x m. rw first (
              DueFrom-entries (key q.retry 0) q.retry
                (λ k b. first_least (length q.retry) q.retry k o b) x
                ((Perm.mem_iff same).0 (mem-cons_of_mem _ m)));
        }

abbrev taken : Queue → Queue
taken q = record q { ready = q.ready ++ (pop q.retry).0.0 ∷ []; retry = (pop q.retry).1 }

-- the first entry is sent, and then what `t` promotes
sent-Promotes :
    (now : ℕ) (q r : Queue) → Popped now q.retry → Promotes now (taken q) r → Promotes now q r
sent-Promotes now q r p t =
    let e = (pop q.retry).0 in
    let from = λ (x : Entry) (m : Mem x (t.moved ++ entries r.retry)).
      p.first x ((Perm.mem_iff t.kept).0 m) in
    record {
      moved = e ∷ t.moved;
      sent = t.sent ∙ append_assoc q.ready (e.0 ∷ []) _;
      kept = Perm.trans (Perm.cons e t.kept) p.same;
      due = λ x m. Or.elim le_prop (eq-or-mem_of_mem-cons m) (λ i. rw i p.due) (λ i. t.due x i);
      ordered = (
        (λ x m. from x (mem-append_left (entries r.retry) m)),
        (λ x m. from x (mem-append_right t.moved m)),
        t.ordered,
      );
      heap = t.heap;
      room = t.room;
      same = t.same;
      rest = t.rest;
    }

-- the first entry goes back, because readyChan is full or stopChan is closed
back-Promotes :
    (now : ℕ) (q : Queue)
    → Popped now q.retry
    → length q.ready ≤ q.capacity
    → (q.stopped ≡ true) ⊎ (length q.ready ≡ q.capacity)
    → Promotes now q
        (put_back (not q.stopped) (pop q.retry).0 (record q { retry = (pop q.retry).1 }))
unfolding put_back
back-Promotes now q p l why =
    let e = (pop q.retry).0 in
    let (heap, same, size) = push-Sifted e.0 e.1 (pop q.retry).1 p.heap in
    record {
      moved = [];
      sent = sym (append-nil q.ready);
      kept = Perm.trans same p.same;
      due = λ x m. absurd (not-mem-nil m);
      ordered = tt;
      heap = heap;
      room = l;
      same = refl;
      rest = elim why [ inl a ↦ inl a | inr b ↦ inr (inl b) ];
    }

promote-Promotes :
    (fuel : ℕ) (stops : ℕ → Bool) (now : ℕ) (q : Queue)
    → length q.retry ≤ fuel
    → IsHeap (length q.retry) q.retry
    → length q.ready ≤ q.capacity
    → Promotes now q (promote fuel stops now q)
unfolding promote
promote-Promotes zero stops now q f o l =
    nothing now q o l (inr (inr (λ k b. absurd (omega arith))))
promote-Promotes (suc fuel) stops now q f o l =
    elim (Bool-cases (length q.retry == 0 || ltb now (key q.retry 0))) [
      | inl e ↦ rw e (
          nothing now q o l
            (inr (inr (λ k b. ground (arith, first_least (length q.retry) q.retry k o b)))))
      | inr e ↦
          let p = popped now q o (ground arith) (ground arith) in
          elim (Bool-cases (ltb (length q.ready) q.capacity && not (q.stopped && stops fuel))) [
            | inl r ↦
                rw (e, r)
                  (sent-Promotes now q _ p (
                    promote-Promotes fuel stops now
                      (record q {
                        ready = q.ready ++ (pop q.retry).0.0 ∷ [];
                        retry = (pop q.retry).1;
                      })
                      (omega (arith, p.size)) p.heap
                      (ground (arith, length-append q.ready ((pop q.retry).0.0 ∷ [])))))
            | inr r ↦ rw (e, r) (back-Promotes now q p l (ground arith))
          ]
    ]

-- Whichever way `select` goes: from a heap, with room kept in readyChan, promoteReadyMessages sends
-- messages that are due, the earliest first, and none before one that it leaves; what it sends and
-- what it leaves are together what was in the heap, each as often; what is left is a heap; and it
-- stops only if stopChan is closed, readyChan is full, or nothing that is left is due.
pub promote_ready_messages-Promotes :
    (stops : ℕ → Bool) (now : ℕ) (q : Queue)
    → IsHeap (length q.retry) q.retry
    → length q.ready ≤ q.capacity
    → Promotes now q (promote_ready_messages stops now q)
unfolding promote_ready_messages
promote_ready_messages-Promotes stops now q o l =
    promote-Promotes (length q.retry) stops now q (omega arith) o l
