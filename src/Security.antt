-- ===== src/Security.antt =====
-- internal/security/security.go: `ConnectionFilter`, the lists of networks and domains that may
-- connect and that may not.
pub mod Filters
pub mod Bucket
mod Tests
use smtpd.Prelude.{
  Bool, true, false, Option, none, some, List, [], ◌∷◌, any, is_empty, if◌then◌else◌,
}
use smtpd.Text.{Bytes, bytes_eq}

-- `N` is net.IPNet and `A` is net.IP
pub record ConnectionFilter (N : Type 0) : Type 0 where
  pub allowed_ips : List N
  pub blocked_ips : List N
  pub allowed_domains : List Bytes
  pub blocked_domains : List Bytes

-- a list that blocks, then one that allows, unless it is empty
unfoldable pub passes : {X : Type 0} → (X → Bool) → List X → List X → Bool
passes found blocked allowed =
    if any found blocked then false else if is_empty allowed then true else any found allowed

module _ {N A : Type 0} (parse_cidr : Bytes → Option N) (contains : N → A → Bool) where
  unfoldable pub parse_all : List Bytes → Option (List N)
  parse_all [] = some []
  parse_all (s ∷ ss) = elim (parse_cidr s) [
    | none ↦ none
    | some n ↦ (elim (parse_all ss) [ none ↦ none | some ns ↦ some (n ∷ ns) ])
  ]

  -- `UpdateFilters`, and `NewConnectionFilter` on an empty filter; true for a nil error
  unfoldable pub update_filters :
      List Bytes
      → List Bytes
      → List Bytes
      → List Bytes
      → ConnectionFilter N
      → Bool × ConnectionFilter N
  unfolding parse_all
  update_filters ips blocked domains blocked_domains f = elim (parse_all ips) [
    | none ↦ (false, f)
    | some ns ↦ (elim (parse_all blocked) [
      | none ↦ (false, f)
      | some bs ↦ (
        true,
        record {
          allowed_ips = ns;
          blocked_ips = bs;
          allowed_domains = domains;
          blocked_domains = blocked_domains;
        },
      )
    ])
  ]

  -- `AllowConnection`, from the address on; none for one that does not parse
  unfoldable pub allow_connection : Option A → ConnectionFilter N → Bool
  unfolding passes
  allow_connection none f = false
  allow_connection (some ip) f = passes (λ n. contains n ip) f.blocked_ips f.allowed_ips

unfoldable pub allow_domain : {N : Type 0} → Bytes → ConnectionFilter N → Bool
unfolding passes
allow_domain domain f = passes (λ d. bytes_eq d domain) f.blocked_domains f.allowed_domains
