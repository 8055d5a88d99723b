-- ===== src/Security/Tests.antt =====
-- A filter whose networks are single numbers, and the theorem on filters at a concrete input.
use smtpd.Prelude.{
  ℕ, ◌≡◌, ◌⊎◌, refl, Bool, true, false, not, ◌&&◌, ◌||◌, Option, none, some, List, [], ◌∷◌, any,
  is_empty, ◌==◌,
}
use smtpd.Text.{Bytes}
use smtpd.Security.{ConnectionFilter, update_filters, allow_connection}
use smtpd.Security.Filters.{has, update_filters-allow_connection}

-- a text of one byte is the network of that number
abbrev parse : Bytes → Option ℕ
parse (c ∷ []) = some c
parse s = none

abbrev same : ℕ → ℕ → Bool
same n a = n == a

abbrev open_filter : ConnectionFilter ℕ
open_filter = record {
  allowed_ips = [];
  blocked_ips = [];
  allowed_domains = [];
  blocked_domains = [];
}

abbrev updated : Bool × ConnectionFilter ℕ
updated = update_filters parse same ((1 ∷ []) ∷ (2 ∷ []) ∷ []) ((2 ∷ []) ∷ []) [] [] open_filter

update_filters-allow_connection_example :
    ((updated.0 ≡ true)
      × (allow_connection parse same (some 1) updated.1 ≡ (
          not (any (has parse same 1) ((2 ∷ []) ∷ []))
          && (is_empty {A = Bytes} ((1 ∷ []) ∷ (2 ∷ []) ∷ [])
              || any (has parse same 1) ((1 ∷ []) ∷ (2 ∷ []) ∷ [])))))
    ⊎ ((updated.0 ≡ false) × (updated.1 ≡ open_filter))
update_filters-allow_connection_example =
    update_filters-allow_connection parse same ((1 ∷ []) ∷ (2 ∷ []) ∷ []) ((2 ∷ []) ∷ []) [] []
      open_filter 1

-- 1 is allowed, 2 blocked, and 3 not allowed
filters : List Bool
filters =
    allow_connection parse same (some 1) updated.1
    ∷ allow_connection parse same (some 2) updated.1
    ∷ allow_connection parse same (some 3) updated.1
    ∷ []

filters_run : filters ≡ true ∷ false ∷ false ∷ []
unfolding filters update_filters allow_connection
filters_run = refl
