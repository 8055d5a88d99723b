-- ===== src/Queue/Heap/Slice.antt =====
-- internal/queue/queue.go: the items of the heap, in a slice.
use mathlib.Core.List.{Perm}
use mathlib.Core.List.Perm
use smtpd.Prelude.{
  ℕ, zero, suc, ◌<◌, ◌≡◌, refl, ap, List, [], ◌∷◌, ◌++◌, map, length, take, ◌≤◌, ◌==◌, arith,
  if◌then◌else◌,
}
use smtpd.Message.{Message}

-- retryItem
pub record Item : Type 0 where
  pub msg : Message
  pub priority : ℕ
  pub index : ℕ

abbrev pub no_item : Item
no_item = record {
  msg = record {
    id = [];
    sender = [];
    recipients = [];
    content = [];
    created_at = 0;
    retry_count = 0;
    next_attempt_at = 0;
  };
  priority = 0;
  index = 0;
}

-- rh[i]
unfoldable pub get : List Item → ℕ → Item
get [] i = no_item
get (x ∷ h) zero = x
get (x ∷ h) (suc i) = get h i

-- rh[i] = v
unfoldable pub set : List Item → ℕ → Item → List Item
set [] i v = []
set (x ∷ h) zero v = v ∷ h
set (x ∷ h) (suc i) v = x ∷ set h i v

-- a message and when it is due
abbrev pub entry : Item → Message × ℕ
entry x = (x.msg, x.priority)

abbrev pub entries : List Item → List (Message × ℕ)
entries = map entry

pub length-set : (h : List Item) (i : ℕ) (v : Item) → length (set h i v) ≡ length h
unfolding set
length-set [] i v = refl
length-set (x ∷ h) zero v = refl
length-set (x ∷ h) (suc i) v = ap suc (length-set h i v)

pub get-set :
    (h : List Item) (i k : ℕ) (v : Item)
    → i < length h
    → get (set h i v) k ≡ (if i == k then v else get h k)
unfolding get set
get-set [] i k v l = absurd (omega arith)
get-set (x ∷ h) zero zero v l = refl
get-set (x ∷ h) zero (suc k) v l = ground arith
get-set (x ∷ h) (suc i) zero v l = ground arith
get-set (x ∷ h) (suc i) (suc k) v l = ground (arith, get-set h i k v)

pub get-append : (h g : List Item) (k : ℕ) → k < length h → get (h ++ g) k ≡ get h k
unfolding get
get-append [] g k l = absurd (omega arith)
get-append (x ∷ h) g zero l = refl
get-append (x ∷ h) g (suc k) l = get-append h g k (omega arith)

pub get-last : (h : List Item) (v : Item) → get (h ++ v ∷ []) (length h) ≡ v
unfolding get
get-last [] v = refl
get-last (x ∷ h) v = get-last h v

-- writing an item trades its entry for the old one
pub set-Perm :
    (h : List Item) (i : ℕ) (v : Item)
    → i < length h
    → Perm (entry (get h i) ∷ entries (set h i v)) (entry v ∷ entries h)
unfolding get set
set-Perm [] i v l = absurd (omega arith)
set-Perm (x ∷ h) zero v l = Perm.swap (entry v) (entry x) (entries h)
set-Perm (x ∷ h) (suc i) v l = Perm.trans (Perm.swap (entry x) (entry (get h i)) _) (
    Perm.trans (Perm.cons (entry x) (set-Perm h i v (omega arith)))
      (Perm.swap (entry v) (entry x) _))

pub get-take : (n : ℕ) (h : List Item) (k : ℕ) → k < n → get (take n h) k ≡ get h k
unfolding get
get-take zero h k l = absurd (omega arith)
get-take (suc n) [] k l = refl
get-take (suc n) (x ∷ h) zero l = refl
get-take (suc n) (x ∷ h) (suc k) l = get-take n h k (omega arith)

pub length-take : (n : ℕ) (h : List Item) → n ≤ length h → length (take n h) ≡ n
length-take zero h l = refl
length-take (suc n) [] l = absurd (omega arith)
length-take (suc n) (x ∷ h) l = omega (arith, length-take n h (omega arith))

-- a slice is its last item after the others
pub split_last :
    (n : ℕ) (h : List Item)
    → length h ≡ suc n
    → Perm (entry (get h n) ∷ entries (take n h)) (entries h)
unfolding get
split_last zero [] e = absurd (omega arith)
split_last zero (x ∷ []) e = Perm.rfl
split_last zero (x ∷ y ∷ h) e = absurd (omega arith)
split_last (suc n) [] e = absurd (omega arith)
split_last (suc n) (x ∷ h) e =
    Perm.trans (Perm.swap (entry x) (entry (get h n)) _)
      (Perm.cons (entry x) (split_last n h (omega arith)))
