-- ===== src/Table.antt =====
-- Go's maps from strings, as association lists.
use smtpd.Prelude.{
  ◌≡◌, refl, false, Option, none, some, List, [], ◌∷◌, arith, if◌then◌else◌, Bool-cases, inl, inr,
}
use smtpd.Text.{Bytes, bytes_eq, eq_of_bytes_eq}

unfoldable pub lookup : {V : Type 0} → Bytes → List (Bytes × V) → Option V
lookup k [] = none
lookup k ((j, v) ∷ ps) = if bytes_eq j k then some v else lookup k ps

-- writes through the pointer of an entry
unfoldable pub update : {V : Type 0} → Bytes → (V → V) → List (Bytes × V) → List (Bytes × V)
update k f [] = []
update k f ((j, v) ∷ ps) = if bytes_eq j k then (j, f v) ∷ ps else (j, v) ∷ update k f ps

module _ {V : Type 0} (k : Bytes) where
  pub lookup-update :
      (f : V → V) (ps : List (Bytes × V)) (v : V)
      → lookup k ps ≡ some v
      → lookup k (update k f ps) ≡ some (f v)
  unfolding lookup update
  lookup-update f [] v h = cc
  lookup-update f ((j, w) ∷ ps) v h = elim (Bool-cases (bytes_eq j k)) [
    | inl e ↦ rw (e, e) (ground arith)
    | inr e ↦ rw (e, e) (lookup-update f ps v (ground arith))
  ]

  pub lookup-update_other :
      (j : Bytes) (f : V → V) (ps : List (Bytes × V))
      → bytes_eq j k ≡ false
      → lookup k (update j f ps) ≡ lookup k ps
  unfolding lookup update
  lookup-update_other j f [] h = refl
  lookup-update_other j f ((i, w) ∷ ps) h = elim (Bool-cases (bytes_eq i j)) [
    | inl e ↦ let same = eq_of_bytes_eq i j e in rw e (rw same (rw h refl))
    | inr e ↦ rw e (ground (arith, lookup-update_other j f ps h))
  ]
