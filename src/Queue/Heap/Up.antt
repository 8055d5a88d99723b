-- ===== src/Queue/Heap/Up.antt =====
-- internal/queue/queue.go: heap.up.
use mathlib.Core.List.{Perm}
use mathlib.Core.List.Perm
use smtpd.Prelude.{
  ℕ, zero, suc, ◌≤◌, ◌<◌, ◌≡◌, ◌≢◌, refl, ◌∙◌, List, length, ◌==◌, arith, Bool-cases, inl, inr,
}
use smtpd.Queue.Heap.{less, swap, parent, up}
use smtpd.Queue.Heap.Slice.{Item, entries}
use smtpd.Queue.Heap.Order.{key, IsHeap, length-swap, key-swap, swap-Perm}

-- a heap of the entries of `h`, as long
pub record Sifted (n : ℕ) (h g : List Item) : Type 0 where
  pub ordered : IsHeap n g
  pub same : Perm (entries g) (entries h)
  pub size : length g ≡ length h

-- only the item `j` may be due before its parent, and its children are due after that parent
pub record Rises (h : List Item) (j : ℕ) : Type 0 where
  pub inside : j < length h
  pub others : (k : ℕ) → 0 < k → k < length h → k ≢ j → key h (parent k) ≤ key h k
  pub below : (k : ℕ) → 0 < k → k < length h → parent k ≡ j → 0 < j → key h (parent j) ≤ key h k

swap-Rises :
    (h : List Item) (j : ℕ)
    → Rises h j
    → 0 < j
    → key h j < key h (parent j)
    → Rises (swap (parent j) j h) (parent j)
swap-Rises h j r p l =
    let at = key-swap (parent j) j h (omega (arith, r.inside)) r.inside in
    let size = length-swap (parent j) j h in
    record {
      inside = omega (arith, r.inside, size);
      others = λ k a b c. ground (arith, at k, at (parent k), r.others k, r.below k, size);
      below = λ k a b c d.
          ground (arith, at k, at (parent (parent j)), r.others k, r.others (parent j), size);
    }

pub up-Sifted :
    (fuel : ℕ) (h : List Item) (j : ℕ) → j < fuel → Rises h j → Sifted (length h) h (up fuel h j)
unfolding up
up-Sifted zero h j f r = absurd (omega arith)
up-Sifted (suc fuel) h j f r = elim (Bool-cases (parent j == j)) [
  | inl e ↦
      rw e
        (record { ordered = λ k a b. r.others k a b (ground arith); same = Perm.rfl; size = refl })
  | inr e ↦ elim (Bool-cases (less h j (parent j))) [
    | inr l ↦
        rw (e, l)
          (record {
            ordered = λ k a b. unfold less in ground (arith, r.others k);
            same = Perm.rfl;
            size = refl;
          })
    | inl l ↦
        rw (e, l)
          (let p : 0 < j = ground arith in
            let size = length-swap (parent j) j h in
            let s =
              up-Sifted fuel (swap (parent j) j h) (parent j) (omega arith)
                (swap-Rises h j r p (unfold less in ground arith)) in
            record {
              ordered = rw size at (s.ordered);
              same =
                  Perm.trans s.same (swap-Perm (parent j) j h (omega (arith, r.inside)) r.inside);
              size = s.size ∙ size;
            })
  ]
]
