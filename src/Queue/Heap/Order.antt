-- ===== src/Queue/Heap/Order.antt =====
-- internal/queue/queue.go: the order of the heap, and what one swap does to it.
use mathlib.Core.List.{Perm}
use mathlib.Core.List.Perm
use smtpd.Prelude.{ℕ, zero, suc, ◌≤◌, ◌<◌, ◌≡◌, ◌≢◌, refl, List, length, ◌==◌, arith, if◌then◌else◌}
use smtpd.Queue.Heap.{swap, parent}
use smtpd.Queue.Heap.Slice.{Item, entry, get, set, entries, length-set, get-set, set-Perm}

abbrev pub key : List Item → ℕ → ℕ
key h k = (get h k).priority

-- no item of the first `n` is due before its parent
abbrev pub IsHeap : ℕ → List Item → Type 0
IsHeap n h = (k : ℕ) → 0 < k → k < n → key h (parent k) ≤ key h k

pub length-swap : (i j : ℕ) (h : List Item) → length (swap i j h) ≡ length h
unfolding swap
length-swap i j h = rw (length-set, length-set) refl

module _ (i j : ℕ) (h : List Item) (hi : i < length h) (hj : j < length h) where
  pub key-swap :
      (k : ℕ)
      → key (swap i j h) k ≡ (if j == k then key h i else if i == k then key h j else key h k)
  unfolding swap
  key-swap k =
      let first = get-set h i k (record (get h j) { index = i }) hi in
      let second =
        get-set (set h i (record (get h j) { index = i })) j k (record (get h i) { index = j })
          (rw length-set hj) in
      ground (arith, first, second)

  pub get-swap_other : (k : ℕ) → k ≢ i → k ≢ j → get (swap i j h) k ≡ get h k
  unfolding swap
  get-swap_other k a b =
      let first = get-set h i k (record (get h j) { index = i }) hi in
      let second =
        get-set (set h i (record (get h j) { index = i })) j k (record (get h i) { index = j })
          (rw length-set hj) in
      ground (arith, first, second)

  pub entry-swap : entry (get (swap i j h) j) ≡ entry (get h i)
  unfolding swap
  entry-swap =
      let second =
        get-set (set h i (record (get h j) { index = i })) j j (record (get h i) { index = j })
          (rw length-set hj) in
      ground (arith, second)

  pub swap-Perm : Perm (entries (swap i j h)) (entries h)
  unfolding swap
  swap-Perm =
      let first = record (get h j) { index = i } in
      let last = record (get h i) { index = j } in
      let b = set h i first in
      let kept : entry (get b j) ≡ entry (get h j) = ground (arith, get-set h i j first hi) in
      let wrote = set-Perm b j last (rw length-set hj) in
      Perm.cons_inv (Perm.trans (rw kept at wrote) (set-Perm h i first hi))

-- an item of a heap is due no earlier than the first
first_below :
    (fuel n : ℕ) (h : List Item) (k : ℕ) → IsHeap n h → k < fuel → k < n → key h 0 ≤ key h k
first_below zero n h k o f l = absurd (omega arith)
first_below (suc fuel) n h zero o f l = omega arith
first_below (suc fuel) n h (suc k) o f l =
    let above = first_below fuel n h (parent (suc k)) o (omega arith) (omega arith) in
    omega (arith, above, o (suc k) (omega arith) l)

pub first_least : (n : ℕ) (h : List Item) (k : ℕ) → IsHeap n h → k < n → key h 0 ≤ key h k
first_least n h k o l = first_below (suc k) n h k o (omega arith) l
