-- ===== src/DnsCache.antt =====
-- internal/dns/cache.go: the cache of the resolver. `E` is the type of errors and `V` that of answers;
-- the lookups of net, the clock and the entry that Go's map gives first are arguments.
pub mod Bounds
mod Tests
use smtpd.Prelude.{
  ℕ, zero, suc, ◌+◌, ◌⊎◌, inl, inr, Bool, true, false, Option, none, some, List, [], ◌∷◌, ◌++◌,
  length, ltb, leb, if◌then◌else◌,
}
use smtpd.Text.{Bytes, codes, bytes_eq}
use smtpd.Table.{lookup}

pub record CacheEntry (E V : Type 0) : Type 0 where
  pub value : E ⊎ V
  pub expires_at : ℕ

-- a maximum that is negative is like 0
pub record Resolver (E V : Type 0) : Type 0 where
  pub cache : List (Bytes × CacheEntry E V)
  pub cache_ttl : ℕ
  pub max_cache_size : ℕ

unfoldable pub new_resolver : {E V : Type 0} → ℕ → ℕ → Resolver E V
new_resolver ttl size = record { cache = []; cache_ttl = ttl; max_cache_size = size }

-- r.cache[key] = entry
unfoldable pub put : {X : Type 0} → Bytes → X → List (Bytes × X) → List (Bytes × X)
put key x [] = (key, x) ∷ []
put key x ((j, y) ∷ ps) =
    let rest = put key x ps in if bytes_eq j key then (j, x) ∷ ps else (j, y) ∷ rest

-- delete of the entry that the map gives first, by its place
unfoldable pub evict : {X : Type 0} → ℕ → List X → List X
evict n [] = []
evict zero (x ∷ xs) = xs
evict (suc n) (x ∷ []) = []
evict (suc n) (x ∷ y ∷ xs) = x ∷ evict n (y ∷ xs)

module _ {E V : Type 0} where
  -- an entry that is found and has not expired
  unfoldable pub fresh : ℕ → Option (CacheEntry E V) → Option (E ⊎ V)
  fresh now none = none
  fresh now (some e) = if ltb now e.expires_at then some e.value else none

  -- the reading of the cache, under either lock
  unfoldable pub peek : ℕ → Bytes → Resolver E V → Option (E ⊎ V)
  unfolding fresh lookup
  peek now key r = fresh now (lookup key r.cache)

  -- what follows when nothing fresh is found: room is made, and the answer of `fn` is kept
  unfoldable pub fetch : ℕ → ℕ → Bytes → E ⊎ V → Resolver E V → Resolver E V
  unfolding evict put
  fetch victim now key answer r =
      let kept = if leb r.max_cache_size (length r.cache) then evict victim r.cache else r.cache in
      record r { cache = put key (record { value = answer; expires_at = now + r.cache_ttl }) kept }

  -- the part of `lookup` under the lock: `checked` and `now` are the times of the two readings of the
  -- clock
  unfoldable pub locked :
      ℕ → ℕ → ℕ → Bytes → E ⊎ V → Option (E ⊎ V) → Resolver E V → (E ⊎ V) × Resolver E V
  unfolding fetch
  locked victim checked now key answer (some v) r = (v, r)
  locked victim checked now key answer none r = (answer, fetch victim now key answer r)

  unfoldable pub lookup_locked : ℕ → ℕ → ℕ → Bytes → E ⊎ V → Resolver E V → (E ⊎ V) × Resolver E V
  unfolding locked peek
  lookup_locked victim checked now key answer r =
      locked victim checked now key answer (peek checked key r) r

  -- what follows the reading of the cache under the read lock
  unfoldable pub unless_found :
      ℕ → ℕ → ℕ → Bytes → E ⊎ V → Option (E ⊎ V) → Resolver E V → (E ⊎ V) × Resolver E V
  unfolding lookup_locked
  unless_found victim checked now key answer (some v) r = (v, r)
  unless_found victim checked now key answer none r = lookup_locked victim checked now key answer r

  -- `lookup`: `first` is read under the read lock at `t`, and other calls may have made `second` of it
  -- when the lock is taken
  unfoldable pub find :
      ℕ → ℕ → ℕ → ℕ → Bytes → E ⊎ V → Resolver E V → Resolver E V → (E ⊎ V) × Resolver E V
  unfolding unless_found peek
  find victim t checked now key answer first second =
      unless_found victim checked now key answer (peek t key first) second

  unfoldable pub lookup_host :
      ℕ → ℕ → ℕ → ℕ → Bytes → E ⊎ V → Resolver E V → Resolver E V → (E ⊎ V) × Resolver E V
  unfolding find codes
  lookup_host victim t checked now host = find victim t checked now (codes "host:" ++ host)

  unfoldable pub lookup_txt :
      ℕ → ℕ → ℕ → ℕ → Bytes → E ⊎ V → Resolver E V → Resolver E V → (E ⊎ V) × Resolver E V
  unfolding find codes
  lookup_txt victim t checked now name = find victim t checked now (codes "txt:" ++ name)

  unfoldable pub lookup_mx :
      ℕ → ℕ → ℕ → ℕ → Bytes → E ⊎ V → Resolver E V → Resolver E V → (E ⊎ V) × Resolver E V
  unfolding find codes
  lookup_mx victim t checked now name = find victim t checked now (codes "mx:" ++ name)
