-- ===== src/Security/Filters.antt =====
-- internal/security/security.go: what a filter allows once it has been set.
use mathlib.Core.Path.{subst}
use mathlib.Core.Option.{some-injective}
use smtpd.Prelude.{
  ◌≡◌, ◌⊎◌, refl, ap, Bool, true, false, not, ◌&&◌, ◌||◌, Option, none, some, List, [], ◌∷◌, any,
  is_empty, arith, inl, inr,
}
use smtpd.Text.{Bytes}
use smtpd.Security.{ConnectionFilter, passes, parse_all, update_filters, allow_connection}

module _ {N A : Type 0} (parse_cidr : Bytes → Option N) (contains : N → A → Bool) where
  -- the text is a network that has the address
  unfoldable pub has : A → Bytes → Bool
  has ip s = elim (parse_cidr s) [ none ↦ false | some n ↦ contains n ip ]

  has_parsed : (ip : A) (s : Bytes) (n : N) → parse_cidr s ≡ some n → has ip s ≡ contains n ip
  unfolding has
  has_parsed ip s n e =
      ap (λ (o : Option N). elim o as (λ _. Bool) [ none ↦ false | some m ↦ contains m ip ]) e

  -- what has been parsed finds the addresses that the texts do, and as many texts
  record Parses (ip : A) (ss : List Bytes) (ns : List N) : Type 0 where
    found : any (λ n. contains n ip) ns ≡ any (has ip) ss
    size : is_empty ns ≡ is_empty ss

  parse_all-Parses :
      (ip : A) (ss : List Bytes) (ns : List N)
      → parse_all parse_cidr contains ss ≡ some ns
      → Parses ip ss ns
  unfolding parse_all
  parse_all-Parses ip [] [] h = record { found = refl; size = refl }
  parse_all-Parses ip [] (n ∷ ns) h = cc
  parse_all-Parses ip (s ∷ ss) ns h =
      parsed (parse_cidr s) (parse_all parse_cidr contains ss) refl refl h
        (λ ms f. parse_all-Parses ip ss ms f)
    where
      parsed :
          (o : Option N) (p : Option (List N))
          → parse_cidr s ≡ o
          → parse_all parse_cidr contains ss ≡ p
          → (elim o as (λ _. Option (List N)) [
            | none ↦ none
            | some n ↦ (elim p [ none ↦ none | some ms ↦ some (n ∷ ms) ])
          ])
            ≡ some ns
          → ((ms : List N) → parse_all parse_cidr contains ss ≡ some ms → Parses ip ss ms)
          → Parses ip (s ∷ ss) ns
      parsed none p e f h ih = cc
      parsed (some n) none e f h ih = cc
      parsed (some n) (some ms) e f h ih =
          let rest = ih ms f in
          let whole : Parses ip (s ∷ ss) (n ∷ ms) = record {
            found = rw (has_parsed ip s n e, rest.found) refl;
            size = refl;
          } in
          subst (Parses ip (s ∷ ss)) (some-injective (n ∷ ms) ns h) whole

  passes-Parses :
      (ip : A) (ss bs : List Bytes) (ns ms : List N)
      → Parses ip ss ns
      → Parses ip bs ms
      → passes (λ n. contains n ip) ms ns
        ≡ (not (any (has ip) bs) && (is_empty ss || any (has ip) ss))
  unfolding passes
  passes-Parses ip ss bs ns ms h k = rw (h.found, h.size, k.found) (ground arith)

  -- Whatever the filter was before: either UpdateFilters succeeds, and from then on an address may
  -- connect if and only if no network of the blocked ones that were given contains it, and one of
  -- the allowed ones does, or none was given; or it fails, and the filter is as before.
  pub update_filters-allow_connection :
      (ips blocked domains blocked_domains : List Bytes) (f : ConnectionFilter N) (ip : A)
      → let (ok, f') = update_filters parse_cidr contains ips blocked domains blocked_domains f in
        ((ok ≡ true)
          × (allow_connection parse_cidr contains (some ip) f'
              ≡ (not (any (has ip) blocked) && (is_empty ips || any (has ip) ips))))
        ⊎ ((ok ≡ false) × (f' ≡ f))
  unfolding update_filters allow_connection
  update_filters-allow_connection ips blocked domains blocked_domains f ip =
      updated (parse_all parse_cidr contains ips) (parse_all parse_cidr contains blocked) refl refl
    where
      updated :
          (o p : Option (List N))
          → parse_all parse_cidr contains ips ≡ o
          → parse_all parse_cidr contains blocked ≡ p
          → let r : Bool × ConnectionFilter N = elim o [
            | none ↦ (false, f)
            | some ns ↦ (elim p [
              | none ↦ (false, f)
              | some bs ↦ (
                true,
                record {
                  allowed_ips = ns;
                  blocked_ips = bs;
                  allowed_domains = domains;
                  blocked_domains = blocked_domains;
                },
              )
            ])
          ] in
            ((r.0 ≡ true)
              × (passes (λ n. contains n ip) (r.1).blocked_ips (r.1).allowed_ips
                  ≡ (not (any (has ip) blocked) && (is_empty ips || any (has ip) ips))))
            ⊎ ((r.0 ≡ false) × (r.1 ≡ f))
      updated none p e h = inr (refl, refl)
      updated (some ns) none e h = inr (refl, refl)
      updated (some ns) (some bs) e h = inl (
        refl,
        passes-Parses ip ips blocked ns bs (parse_all-Parses ip ips ns e)
            (parse_all-Parses ip blocked bs h),
      )
