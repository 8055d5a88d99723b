-- ===== src/Queue/Heap/Laws.antt =====
-- internal/queue/queue.go: heap.Push and heap.Pop.
use mathlib.Core.List.{Perm}
use mathlib.Core.List.Perm
use smtpd.Prelude.{
  ℕ, zero, suc, ◌+◌, ◌-◌, ◌*◌, ◌≤◌, ◌≡◌, refl, ap, ◌∙◌, List, [], ◌∷◌, ◌++◌, length, length-append,
  take, leb, arith, Bool-cases, inl, inr,
}
use smtpd.Message.{Message}
use smtpd.Queue.Heap.{less, swap, parent, append, child, down, push, pop}
use smtpd.Queue.Heap.Slice.{
  Item, entry, get, entries, get-append, get-take, length-take, split_last,
}
use smtpd.Queue.Heap.Order.{IsHeap, length-swap, key-swap, get-swap_other, entry-swap, swap-Perm}
use smtpd.Queue.Heap.Up.{Rises, up-Sifted}
use smtpd.Queue.Heap.Down.{Sinks, child-FirstChild, down-Sifted}

length-append_item : (m : Message) (t : ℕ) (h : List Item) → length (append m t h) ≡ suc (length h)
unfolding append
length-append_item m t h =
    omega (arith, length-append h (record { msg = m; priority = t; index = length h } ∷ []))

entries-last : (h : List Item) (v : Item) → Perm (entries (h ++ v ∷ [])) (entry v ∷ entries h)
entries-last [] v = Perm.rfl
entries-last (x ∷ h) v =
    Perm.trans (Perm.cons (entry x) (entries-last h v)) (Perm.swap (entry v) (entry x) _)

entries-append :
    (m : Message) (t : ℕ) (h : List Item) → Perm (entries (append m t h)) ((m, t) ∷ entries h)
unfolding append
entries-append m t h = entries-last h (record { msg = m; priority = t; index = length h })

append-Rises :
    (m : Message) (t : ℕ) (h : List Item) → IsHeap (length h) h → Rises (append m t h) (length h)
unfolding append
append-Rises m t h o =
    let v : Item = record { msg = m; priority = t; index = length h } in
    let size = length-append h (v ∷ []) in
    record {
      inside = omega (arith, size);
      others = λ k a b c.
          ground (arith, size, o k, get-append h (v ∷ []) k, get-append h (v ∷ []) (parent k));
      below = λ k a b c d. absurd (omega (arith, size));
    }

-- a heap after Push
pub push-Sifted :
    (m : Message) (t : ℕ) (h : List Item)
    → IsHeap (length h) h
    → IsHeap (length (push m t h)) (push m t h)
      × Perm (entries (push m t h)) ((m, t) ∷ entries h)
      × (length (push m t h) ≡ suc (length h))
unfolding push
push-Sifted m t h o =
    let size = length-append_item m t h in
    let s =
      up-Sifted (suc (length h)) (append m t h) (length h) (omega arith) (append-Rises m t h o) in
    (rw s.size (s.ordered), Perm.trans s.same (entries-append m t h), s.size ∙ size)

-- what is past the first `n` items stays
get-down :
    (fuel : ℕ) (h : List Item) (i n k : ℕ)
    → n ≤ k
    → n ≤ length h
    → get (down fuel h i n) k ≡ get h k
unfolding down
get-down zero h i n k l f = refl
get-down (suc fuel) h i n k l f = elim (Bool-cases (leb n (2 * i + 1))) [
  | inl e ↦ rw e refl
  | inr e ↦
      let j = child h i n in
      let c = child-FirstChild n h i (ground arith) in
      elim (Bool-cases (less h j i)) [
        | inr s ↦ rw (e, s) refl
        | inl s ↦
            rw (e, s)
              (get-down fuel (swap i j h) j n k l (omega (arith, length-swap i j h))
                ∙ get-swap_other i j h (omega (arith, c.inside, c.is_child))
                    (omega (arith, c.inside)) k (λ q. absurd (omega (arith, c.inside, c.is_child)))
                    (λ q. absurd (omega (arith, c.inside))))
      ]
]

swap-Sinks :
    (n : ℕ) (h : List Item) → length h ≡ suc n → IsHeap (length h) h → Sinks n (swap 0 n h) 0
swap-Sinks n h e o =
    let at = key-swap 0 n h (omega arith) (omega arith) in
    record {
      others = λ k a b c. ground (arith, at k, at (parent k), o k);
      below = λ k a b c d. absurd (omega arith);
    }

take-IsHeap : (n : ℕ) (h : List Item) → IsHeap n h → IsHeap n (take n h)
take-IsHeap n h o k a b = ground (arith, get-take n h k, get-take n h (parent k), o k)

-- a heap of `suc n` items after Pop
pub pop-Sifted :
    (n : ℕ) (h : List Item)
    → length h ≡ suc n
    → IsHeap (length h) h
    → ((pop h).0 ≡ entry (get h 0))
      × (length (pop h).1 ≡ n)
      × IsHeap n (pop h).1
      × Perm ((pop h).0 ∷ entries (pop h).1) (entries h)
unfolding pop
pop-Sifted n h e o =
    let last : length h - 1 ≡ n = omega arith in
    let start = swap 0 n h in
    let sunk = down (length h) start 0 n in
    let size = length-swap 0 n h in
    let s =
      down-Sifted (length h) n start 0 (omega arith) (omega (arith, size)) (swap-Sinks n h e o) in
    let whole : length sunk ≡ suc n = s.size ∙ size ∙ e in
    rw last (
      ap entry (get-down (length h) start 0 n n (omega arith) (omega (arith, size)))
          ∙ entry-swap 0 n h (omega arith) (omega arith),
      length-take n sunk (omega (arith, whole)),
      take-IsHeap n sunk s.ordered,
      Perm.trans (split_last n sunk whole)
          (Perm.trans s.same (swap-Perm 0 n h (omega arith) (omega arith))),
    )
