-- ===== src/Queue/Heap.antt =====
-- internal/queue/queue.go: `retryHeap`, and `Push` and `Pop` of Go's container/heap on it. The items
-- are distinct objects, so a list of their values stands for the slice of pointers. No index that is
-- read or written is out of range.
pub mod Slice
pub mod Order
pub mod Up
pub mod Down
pub mod Laws
use smtpd.Prelude.{
  ℕ, zero, suc, ◌+◌, ◌-◌, ◌*◌, ◌/◌, Bool, true, false, not, ◌&&◌, Option, none, some, List, [], ◌∷◌,
  ◌++◌, length, take, ltb, leb, ◌==◌, if◌then◌else◌,
}
use smtpd.Message.{Message}
use Slice.{Item, entry, get, set}

-- `Less`
unfoldable pub less : List Item → ℕ → ℕ → Bool
less h i j = ltb (get h i).priority (get h j).priority

-- `Swap`, which also writes the items' indices
unfoldable pub swap : ℕ → ℕ → List Item → List Item
swap i j h =
    let a = get h i in
    let b = get h j in set (set h i (record b { index = i })) j (record a { index = j })

-- `retryHeap.Push`
unfoldable pub append : Message → ℕ → List Item → List Item
append m priority h = h ++ record { msg = m; priority = priority; index = length h } ∷ []

abbrev pub parent : ℕ → ℕ
parent j = (j - 1) / 2

-- heap.up: the test i == j holds at the root alone
unfoldable pub up : ℕ → List Item → ℕ → List Item
unfolding less swap
up zero h j = h
up (suc fuel) h j =
    let rest = up fuel (swap (parent j) j h) (parent j) in
    if parent j == j then h else if less h j (parent j) then rest else h

-- the child that heap.down looks at, the right one if it is there and less
unfoldable pub child : List Item → ℕ → ℕ → ℕ
unfolding less
child h i n =
    let left = 2 * i + 1 in if ltb (left + 1) n && less h (left + 1) left then left + 1 else left

-- heap.down, among the first `n` items
unfoldable pub down : ℕ → List Item → ℕ → ℕ → List Item
unfolding child less swap
down zero h i n = h
down (suc fuel) h i n =
    let j = child h i n in
    let rest = down fuel (swap i j h) j n in
    if leb n (2 * i + 1) then h else if less h j i then rest else h

-- heap.Push
unfoldable pub push : Message → ℕ → List Item → List Item
unfolding append up
push m priority h = up (suc (length h)) (append m priority h) (length h)

-- heap.Pop on a heap that is not empty: the item, whose index becomes -1, and the rest
unfoldable pub pop : List Item → (Message × ℕ) × List Item
unfolding swap down
pop h =
    let n = length h - 1 in
    let sunk = down (length h) (swap 0 n h) 0 n in (entry (get sunk n), take n sunk)
