-- ===== src/Outbound/Deliver/Addresses.antt =====
-- pkg/outbound/deliverer.go: which addresses Deliver takes for ones of a domain.

use smtpd.Prelude.{
  ℕ, ◌≡◌, ◌≢◌, refl, sym, ap, ◌∙◌, Bool, true, false, Option, none, some, List, [], ◌∷◌, ◌++◌, All,
  ◌==◌, arith, inl, inr, Bool-cases,
}
use smtpd.Text.{Bytes, bytes_eq, bytes_eq_refl, eq_of_bytes_eq, to_lower, split, onto_head}
use smtpd.Outbound.Deliver.{domain_of, domain_of_parts}

abbrev pub belongs : Bytes → Option Bytes → Bool
belongs domain none = false
belongs domain (some d) = bytes_eq d domain

-- no byte of the text is `b`
abbrev pub IsPlain : ℕ → Bytes → Type 0
IsPlain b s = All (λ c. (c == b) ≡ false) s

-- one @ between two parts that are not empty, of which the second is the domain but for its case
pub record IsAddressAt (domain r : Bytes) : Type 0 where
  pub user : Bytes
  pub host : Bytes
  pub whole : r ≡ user ++ b'@' ∷ host
  pub user_given : user ≢ []
  pub host_given : host ≢ []
  pub user_plain : IsPlain b'@' user
  pub host_plain : IsPlain b'@' host
  pub lower : to_lower host ≡ domain

abbrev joined_at : ℕ → List Bytes → Bytes
joined_at b [] = []
joined_at b (w ∷ []) = w
joined_at b (w ∷ v ∷ ws) = w ++ b ∷ joined_at b (v ∷ ws)

-- the pieces of a text between its separators
record IsCut (b : ℕ) (s : Bytes) (ws : List Bytes) : Type 0 where
  joined : joined_at b ws ≡ s
  plain : All (IsPlain b) ws
  given : ws ≢ []

joined_at-onto_head :
    (b c : ℕ) (ws : List Bytes) → joined_at b (onto_head c ws) ≡ c ∷ joined_at b ws
joined_at-onto_head b c [] = refl
joined_at-onto_head b c (w ∷ []) = refl
joined_at-onto_head b c (w ∷ v ∷ ws) = refl

onto_head-plain :
    (b c : ℕ) (ws : List Bytes)
    → (c == b) ≡ false
    → All (IsPlain b) ws
    → All (IsPlain b) (onto_head c ws)
onto_head-plain b c [] e h = ((e, tt), tt)
onto_head-plain b c (w ∷ ws) e h = ((e, h.0), h.1)

onto_head-given : (c : ℕ) (ws : List Bytes) → onto_head c ws ≢ []
onto_head-given c [] e = absurd cc
onto_head-given c (w ∷ ws) e = absurd cc

joined_at-empty : (b : ℕ) (ws : List Bytes) → ws ≢ [] → joined_at b ([] ∷ ws) ≡ b ∷ joined_at b ws
joined_at-empty b [] h = absurd (h refl)
joined_at-empty b (w ∷ ws) h = refl

eq_of_test : (c b : ℕ) → (c == b) ≡ true → c ≡ b
eq_of_test c b h = ground arith

split-IsCut : (b : ℕ) (s : Bytes) → IsCut b s (split b s)
unfolding split
split-IsCut b [] = record { joined = refl; plain = (tt, tt); given = λ e. absurd cc }
split-IsCut b (c ∷ s) =
    let rest = split-IsCut b s in
    elim (Bool-cases (c == b)) [
      | inl e ↦ rw e (record {
        joined =
            joined_at-empty b (split b s) rest.given
            ∙ ap (λ x. b ∷ x) rest.joined
            ∙ ap (λ x. x ∷ s) (sym (eq_of_test c b e));
        plain = (tt, rest.plain);
        given = λ e. absurd cc;
      })
      | inr e ↦ rw e (record {
        joined = joined_at-onto_head b c (split b s) ∙ ap (λ x. c ∷ x) rest.joined;
        plain = onto_head-plain b c (split b s) e rest.plain;
        given = onto_head-given c (split b s);
      })
    ]

split-plain : (b : ℕ) (s : Bytes) → IsPlain b s → split b s ≡ s ∷ []
unfolding split
split-plain b [] h = refl
split-plain b (c ∷ s) h = rw (h.0, split-plain b s h.1) refl

test_refl : (b : ℕ) → (b == b) ≡ true
test_refl b = ground arith

split-two : (b : ℕ) (u s : Bytes) → IsPlain b u → IsPlain b s → split b (u ++ b ∷ s) ≡ u ∷ s ∷ []
unfolding split
split-two b [] s h k = rw (test_refl b, split-plain b s k) refl
split-two b (c ∷ u) s h k = rw (h.0, split-two b u s h.1 k) refl

IsAddressAt-of_parts :
    (domain r : Bytes) (ws : List Bytes)
    → IsCut b'@' r ws
    → belongs domain (domain_of_parts ws) ≡ true
    → IsAddressAt domain r
unfolding domain_of_parts
IsAddressAt-of_parts domain r [] k h = absurd cc
IsAddressAt-of_parts domain r ([] ∷ ws) k h = absurd cc
IsAddressAt-of_parts domain r ((b ∷ u) ∷ []) k h = absurd cc
IsAddressAt-of_parts domain r ((b ∷ u) ∷ [] ∷ ws) k h = absurd cc
IsAddressAt-of_parts domain r ((b ∷ u) ∷ (c ∷ s) ∷ []) k h = record {
  user = b ∷ u;
  host = c ∷ s;
  whole = sym k.joined;
  user_given = λ e. absurd cc;
  host_given = λ e. absurd cc;
  user_plain = k.plain.0;
  host_plain = k.plain.1.0;
  lower = eq_of_bytes_eq (to_lower (c ∷ s)) domain h;
}
IsAddressAt-of_parts domain r ((b ∷ u) ∷ (c ∷ s) ∷ v ∷ ws) k h = absurd cc

domain_of_parts-two :
    (user host : Bytes)
    → user ≢ []
    → host ≢ []
    → domain_of_parts (user ∷ host ∷ []) ≡ some (to_lower host)
unfolding domain_of_parts
domain_of_parts-two [] host h k = absurd (h refl)
domain_of_parts-two (b ∷ u) [] h k = absurd (k refl)
domain_of_parts-two (b ∷ u) (c ∷ s) h k = refl

pub IsAddressAt-of_belongs :
    (domain r : Bytes) → belongs domain (domain_of r) ≡ true → IsAddressAt domain r
unfolding domain_of
IsAddressAt-of_belongs domain r h =
    IsAddressAt-of_parts domain r (split b'@' r) (split-IsCut b'@' r) h

pub belongs-of_IsAddressAt :
    (domain r : Bytes) → IsAddressAt domain r → belongs domain (domain_of r) ≡ true
unfolding domain_of
belongs-of_IsAddressAt domain r k =
    rw
      (
        k.whole,
        split-two b'@' k.user k.host k.user_plain k.host_plain,
        domain_of_parts-two k.user k.host k.user_given k.host_given,
        k.lower,
      )
      (bytes_eq_refl domain)
