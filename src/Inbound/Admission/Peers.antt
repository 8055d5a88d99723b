-- ===== src/Inbound/Admission/Peers.antt =====
-- pkg/inbound/server.go: the connections that the entries of `peers` count.
use smtpd.Prelude.{
  ℕ, suc, ◌≡◌, refl, sym, ap, ◌∙◌, ◌&&◌, Option, none, some, List, [], ◌∷◌, ◌++◌, ◌==◌, arith,
  Bool-cases, inl, inr, if◌then◌else◌,
}
use smtpd.Text.{Bytes, bytes_eq, eq_of_bytes_eq}
use smtpd.Table.{lookup, update}
use smtpd.Inbound.Admission.{Peer, is_over, sweep, roll}

-- how many of the connections are from the address
unfoldable pub count : Bytes → List Bytes → ℕ
count h [] = 0
count h (x ∷ xs) = let n = count h xs in if bytes_eq x h then suc n else n

abbrev pub active_of : Option Peer → ℕ
active_of none = 0
active_of (some p) = p.active

-- the connections that the table counts for an address
abbrev pub active : Bytes → List (Bytes × Peer) → ℕ
active h ps = active_of (lookup h ps)

abbrev pub IsDistinct : List (Bytes × Peer) → Type 0
IsDistinct [] = Unit {0}
IsDistinct ((k, p) ∷ ps) = (lookup k ps ≡ none) × IsDistinct ps

pub count-remove :
    (h x : Bytes) (xs ys : List Bytes) → count h (xs ++ x ∷ ys) ≡ count h (x ∷ xs ++ ys)
unfolding count
count-remove h x [] ys = refl
count-remove h x (y ∷ xs) ys = let rest = count-remove h x xs ys in ground (arith, rest)

absent-sweep :
    (now : ℕ) (h : Bytes) (ps : List (Bytes × Peer))
    → lookup h ps ≡ none
    → lookup h (sweep now ps) ≡ none
unfolding lookup sweep
absent-sweep now h [] e = refl
absent-sweep now h ((k, p) ∷ ps) e = elim (Bool-cases (bytes_eq k h)) [
  | inl s ↦ absurd (ground (arith, e))
  | inr s ↦
      let rest = absent-sweep now h ps (ground (arith, e)) in
      elim (Bool-cases (p.active == 0 && is_over now p)) [
        | inl x ↦ rw x rest
        | inr x ↦ rw (x, s) rest
      ]
]

pub sweep-IsDistinct :
    (now : ℕ) (ps : List (Bytes × Peer)) → IsDistinct ps → IsDistinct (sweep now ps)
unfolding sweep
sweep-IsDistinct now [] d = tt
sweep-IsDistinct now ((k, p) ∷ ps) d = elim (Bool-cases (p.active == 0 && is_over now p)) [
  | inl x ↦ rw x (sweep-IsDistinct now ps d.1)
  | inr x ↦ rw x (absent-sweep now k ps d.0, sweep-IsDistinct now ps d.1)
]

pub active-sweep :
    (now : ℕ) (h : Bytes) (ps : List (Bytes × Peer))
    → IsDistinct ps
    → active h (sweep now ps) ≡ active h ps
unfolding lookup sweep
active-sweep now h [] d = refl
active-sweep now h ((k, p) ∷ ps) d =
    let rest = active-sweep now h ps d.1 in
    elim (Bool-cases (p.active == 0 && is_over now p)) [
      | inl x ↦ elim (Bool-cases (bytes_eq k h)) [
        | inl s ↦
            let gone : lookup h (sweep now ps) ≡ none =
              absent-sweep now h ps (ap (λ j. lookup j ps) (sym (eq_of_bytes_eq k h s)) ∙ d.0) in
            let idle : p.active ≡ 0 = ground (arith, x) in rw (x, s, gone) (sym idle)
        | inr s ↦ rw (x, s) rest
      ]
      | inr x ↦ elim (Bool-cases (bytes_eq k h)) [ inl s ↦ rw (x, s) refl | inr s ↦ rw (x, s) rest ]
    ]

absent-update :
    (h k : Bytes) (f : Peer → Peer) (ps : List (Bytes × Peer))
    → lookup h ps ≡ none
    → lookup h (update k f ps) ≡ none
unfolding lookup update
absent-update h k f [] e = refl
absent-update h k f ((j, p) ∷ ps) e = elim (Bool-cases (bytes_eq j h)) [
  | inl s ↦ absurd (ground (arith, e))
  | inr s ↦
      let rest : lookup h ps ≡ none = ground (arith, e) in
      elim (Bool-cases (bytes_eq j k)) [
        | inl x ↦ rw (x, s) rest
        | inr x ↦ rw (x, s) (absent-update h k f ps rest)
      ]
]

pub update-IsDistinct :
    (k : Bytes) (f : Peer → Peer) (ps : List (Bytes × Peer))
    → IsDistinct ps
    → IsDistinct (update k f ps)
unfolding update
update-IsDistinct k f [] d = tt
update-IsDistinct k f ((j, p) ∷ ps) d = elim (Bool-cases (bytes_eq j k)) [
  | inl x ↦ rw x d
  | inr x ↦ rw x (absent-update j k f ps d.0, update-IsDistinct k f ps d.1)
]

pub active-roll :
    (h k : Bytes) (now : ℕ) (ps : List (Bytes × Peer))
    → active h (update k (roll now) ps) ≡ active h ps
unfolding lookup update roll
active-roll h k now [] = refl
active-roll h k now ((j, p) ∷ ps) =
    let rest = active-roll h k now ps in
    elim (Bool-cases (bytes_eq j k)) [
      | inl x ↦ elim (Bool-cases (bytes_eq j h)) [
        | inl s ↦ rw (x, s) (ground arith)
        | inr s ↦ rw (x, s) refl
      ]
      | inr x ↦ elim (Bool-cases (bytes_eq j h)) [ inl s ↦ rw (x, s) refl | inr s ↦ rw (x, s) rest ]
    ]
