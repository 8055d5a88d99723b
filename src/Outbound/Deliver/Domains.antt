-- ===== src/Outbound/Deliver/Domains.antt =====
-- pkg/outbound/deliverer.go: the recipients of each domain.
use mathlib.Core.Path.{subst}
use smtpd.Prelude.{
  ◌≡◌, refl, sym, ◌∙◌, false, Option, none, some, List, [], ◌∷◌, ◌++◌, append_assoc, append-nil,
  inl, inr, arith, Bool-cases, if◌then◌else◌,
}
use smtpd.Text.{Bytes, bytes_eq, eq_of_bytes_eq}
use smtpd.Table.{lookup}
use smtpd.Outbound.Deliver.Addresses.{
  belongs, IsAddressAt, IsAddressAt-of_belongs, belongs-of_IsAddressAt,
}
use smtpd.Outbound.Deliver.{domain_of, add_recipient, place, group_recipients}

abbrev pub found : Option (List Bytes) → List Bytes
found none = []
found (some rs) = rs

recipients_of : Bytes → List Bytes → List Bytes
recipients_of domain [] = []
recipients_of domain (r ∷ rs) =
    if belongs domain (domain_of r) then r ∷ recipients_of domain rs else recipients_of domain rs

-- no two groups have one domain
abbrev pub IsDistinct : List (Bytes × List Bytes) → Type 0
IsDistinct [] = Unit {0}
IsDistinct ((d, rs) ∷ groups) = (lookup d groups ≡ none) × IsDistinct groups

bytes_eq_comm : (s t : Bytes) → bytes_eq s t ≡ bytes_eq t s
unfolding bytes_eq
bytes_eq_comm [] [] = refl
bytes_eq_comm [] (b ∷ t) = refl
bytes_eq_comm (a ∷ s) [] = refl
bytes_eq_comm (a ∷ s) (b ∷ t) = let rest = bytes_eq_comm s t in ground arith

found-add_recipient :
    (domain d r : Bytes) (gs : List (Bytes × List Bytes))
    → found (lookup domain (add_recipient d r gs))
      ≡ (if bytes_eq d domain then found (lookup domain gs) ++ r ∷ [] else found (lookup domain gs))
unfolding lookup add_recipient
found-add_recipient domain d r [] = elim (Bool-cases (bytes_eq d domain)) [
  | inl e ↦ rw e refl
  | inr e ↦ rw e refl
]
found-add_recipient domain d r ((e, rs) ∷ gs) = elim (Bool-cases (bytes_eq e d)) [
  | inl same ↦
      let equal = eq_of_bytes_eq e d same in
      elim (Bool-cases (bytes_eq d domain)) [
        | inl b ↦ rw (same, equal, b) refl
        | inr b ↦ rw (same, equal, b) refl
      ]
  | inr other ↦
      let rest = found-add_recipient domain d r gs in
      elim (Bool-cases (bytes_eq e domain)) [
        | inl b ↦
            let apart : bytes_eq d domain ≡ false =
              rw (sym (eq_of_bytes_eq e domain b)) (bytes_eq_comm d e ∙ other) in
            rw (other, b, apart) refl
        | inr b ↦ rw (other, b) rest
      ]
]

found-place :
    (domain r : Bytes) (o : Option Bytes) (gs : List (Bytes × List Bytes))
    → found (lookup domain (place o r gs))
      ≡ (if belongs domain o then found (lookup domain gs) ++ r ∷ [] else found (lookup domain gs))
unfolding place
found-place domain r none gs = refl
found-place domain r (some d) gs = found-add_recipient domain d r gs

found-group_recipients :
    (domain : Bytes) (rs : List Bytes) (gs : List (Bytes × List Bytes))
    → found (lookup domain (group_recipients rs gs))
      ≡ found (lookup domain gs) ++ recipients_of domain rs
unfolding group_recipients recipients_of
found-group_recipients domain [] gs = sym (append-nil _)
found-group_recipients domain (r ∷ rs) gs =
    let later = found-group_recipients domain rs (place (domain_of r) r gs) in
    let now = found-place domain r (domain_of r) gs in
    elim (Bool-cases (belongs domain (domain_of r))) [
      | inl same ↦ rw (later, now, same) (append_assoc _ (r ∷ []) _)
      | inr other ↦ rw (later, now, other) refl
    ]

apart-add_recipient :
    (e d r : Bytes) (gs : List (Bytes × List Bytes))
    → bytes_eq e d ≡ false
    → lookup e gs ≡ none
    → lookup e (add_recipient d r gs) ≡ none
unfolding lookup add_recipient
apart-add_recipient e d r [] other k = rw (bytes_eq_comm d e ∙ other) refl
apart-add_recipient e d r ((c, rs) ∷ gs) other k = elim (Bool-cases (bytes_eq c e)) [
  | inl b ↦ absurd (ground (arith, k))
  | inr b ↦
      let rest : lookup e gs ≡ none = ground (arith, k) in
      elim (Bool-cases (bytes_eq c d)) [
        | inl same ↦ rw (same, b) rest
        | inr differ ↦ rw (differ, b) (apart-add_recipient e d r gs other rest)
      ]
]

add_recipient-IsDistinct :
    (d r : Bytes) (gs : List (Bytes × List Bytes))
    → IsDistinct gs
    → IsDistinct (add_recipient d r gs)
unfolding add_recipient lookup
add_recipient-IsDistinct d r [] k = (refl, tt)
add_recipient-IsDistinct d r ((e, rs) ∷ gs) k = elim (Bool-cases (bytes_eq e d)) [
  | inl same ↦ rw same (k.0, k.1)
  | inr other ↦
      rw other (apart-add_recipient e d r gs other k.0, add_recipient-IsDistinct d r gs k.1)
]

place-IsDistinct :
    (r : Bytes) (o : Option Bytes) (gs : List (Bytes × List Bytes))
    → IsDistinct gs
    → IsDistinct (place o r gs)
unfolding place
place-IsDistinct r none gs k = k
place-IsDistinct r (some d) gs k = add_recipient-IsDistinct d r gs k

group_recipients-IsDistinct :
    (rs : List Bytes) (gs : List (Bytes × List Bytes))
    → IsDistinct gs
    → IsDistinct (group_recipients rs gs)
unfolding group_recipients
group_recipients-IsDistinct [] gs k = k
group_recipients-IsDistinct (r ∷ rs) gs k =
    group_recipients-IsDistinct rs (place (domain_of r) r gs)
      (place-IsDistinct r (domain_of r) gs k)

-- `Selected domain rs out`: of the recipients `rs`, `out` are those whose address is one of the
-- domain, in their order
pub data Selected (domain : Bytes) : List Bytes → List Bytes → Type 0 where
  no_more : Selected domain [] []
  take :
      {r : Bytes} {rs out : List Bytes}
      → IsAddressAt domain r
      → Selected domain rs out
      → Selected domain (r ∷ rs) (r ∷ out)
  skip :
      {r : Bytes} {rs out : List Bytes}
      → (IsAddressAt domain r → ⊥)
      → Selected domain rs out
      → Selected domain (r ∷ rs) out

recipients_of-Selected :
    (domain : Bytes) (rs : List Bytes) → Selected domain rs (recipients_of domain rs)
unfolding recipients_of
recipients_of-Selected domain [] = no_more
recipients_of-Selected domain (r ∷ rs) =
    let rest = recipients_of-Selected domain rs in
    elim (Bool-cases (belongs domain (domain_of r))) [
      | inl b ↦ rw b (take (IsAddressAt-of_belongs domain r b) rest)
      | inr b ↦ rw b (skip (λ k. let c = belongs-of_IsAddressAt domain r k in absurd cc) rest)
    ]

-- Deliver makes one group for a domain, and for every domain the group is the recipients of the
-- message whose address is one @ between two parts that are not empty, of which the second in lower
-- case is the domain: these and no others, in their order, each as often.
pub group_recipients_lem :
    (rs : List Bytes)
    → IsDistinct (group_recipients rs [])
      × ((domain : Bytes) → Selected domain rs (found (lookup domain (group_recipients rs []))))
unfolding lookup
group_recipients_lem rs = (
  group_recipients-IsDistinct rs [] tt,
  λ domain.
      subst (Selected domain rs) (sym (found-group_recipients domain rs []))
        (recipients_of-Selected domain rs),
)
