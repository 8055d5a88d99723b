-- ===== src/Queue/Heap/Down.antt =====
-- internal/queue/queue.go: heap.down.

use mathlib.Core.List.Perm
use smtpd.Prelude.{
  ℕ, zero, suc, ◌+◌, ◌-◌, ◌*◌, ◌≤◌, ◌<◌, ◌≡◌, ◌≢◌, ◌⊎◌, refl, ◌∙◌, List, length, leb, arith,
  Bool-cases, inl, inr,
}
use smtpd.Queue.Heap.{less, swap, parent, child, down}
use smtpd.Queue.Heap.Slice.{Item}
use smtpd.Queue.Heap.Order.{key, length-swap, key-swap, swap-Perm}
use smtpd.Queue.Heap.Up.{Sifted}

-- only the item `i` may be due after its children, and they are due after its parent
pub record Sinks (n : ℕ) (h : List Item) (i : ℕ) : Type 0 where
  pub others : (k : ℕ) → 0 < k → k < n → parent k ≢ i → key h (parent k) ≤ key h k
  pub below : (k : ℕ) → 0 < k → k < n → parent k ≡ i → 0 < i → key h (parent i) ≤ key h k

-- `m` is the child of `i` that is due first
pub record FirstChild (n : ℕ) (h : List Item) (i m : ℕ) : Type 0 where
  pub inside : m < n
  pub is_child : (m ≡ 2 * i + 1) ⊎ (m ≡ 2 * i + 2)
  pub least : (k : ℕ) → 0 < k → k < n → parent k ≡ i → key h m ≤ key h k

pub child-FirstChild :
    (n : ℕ) (h : List Item) (i : ℕ) → 2 * i + 1 < n → FirstChild n h i (child h i n)
unfolding child less
child-FirstChild n h i l = record {
  inside = ground arith;
  is_child = ground arith;
  least = λ k a b c. ground arith;
}

swap-Sinks :
    (n : ℕ) (h : List Item) (i m : ℕ)
    → n ≤ length h
    → Sinks n h i
    → FirstChild n h i m
    → key h m < key h i
    → Sinks n (swap i m h) m
swap-Sinks n h i m fits s c l =
    let at = key-swap i m h (omega (arith, c.inside, c.is_child)) (omega (arith, c.inside)) in
    record {
      others = λ k a b d.
          ground
            (arith, at k, at (parent k), s.others k, s.below k, c.least k, c.is_child, s.below m);
      below = λ k a b d e. ground (arith, at k, at (parent m), s.others k, c.is_child, c.inside);
    }

pub down-Sifted :
    (fuel n : ℕ) (h : List Item) (i : ℕ)
    → n - i < fuel
    → n ≤ length h
    → Sinks n h i
    → Sifted n h (down fuel h i n)
unfolding down
down-Sifted zero n h i f fits s = absurd (omega arith)
down-Sifted (suc fuel) n h i f fits s = elim (Bool-cases (leb n (2 * i + 1))) [
  | inl e ↦
      rw e
        (record { ordered = λ k a b. s.others k a b (ground arith); same = Perm.rfl; size = refl })
  | inr e ↦
      let m = child h i n in
      let c = child-FirstChild n h i (ground arith) in
      elim (Bool-cases (less h m i)) [
        | inr l ↦
            rw (e, l)
              (record {
                ordered = λ k a b. unfold less in ground (arith, s.others k, c.least k);
                same = Perm.rfl;
                size = refl;
              })
        | inl l ↦
            rw (e, l)
              (let size = length-swap i m h in
                let t =
                  down-Sifted fuel n (swap i m h) m (omega (arith, c.inside, c.is_child))
                    (omega (arith, size))
                    (swap-Sinks n h i m fits s c (unfold less in ground arith)) in
                record {
                  ordered = t.ordered;
                  same = Perm.trans t.same (
                      swap-Perm i m h (omega (arith, c.inside, c.is_child))
                        (omega (arith, c.inside)));
                  size = t.size ∙ size;
                })
      ]
]
