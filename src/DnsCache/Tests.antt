-- ===== src/DnsCache/Tests.antt =====
-- A cache of one entry, and the theorem about it at a concrete lookup.
use smtpd.Prelude.{ℕ, ◌≡◌, refl, ◌⊎◌, inl, inr, some, [], ◌∷◌, arith}
use smtpd.Text.{Bytes, codes}
use smtpd.DnsCache.{Resolver, fetch, put, evict, find, peek}
use smtpd.DnsCache.Bounds.{IsCache, IsRecent, IsKept, find-IsRecent}

-- net answers with the time
abbrev Answers : ℕ → Bytes → ℕ ⊎ ℕ → Type 0
Answers time key v = v ≡ inr time

abbrev one : Resolver ℕ ℕ
unfolding codes
one = record {
  cache = (codes "host:x.org", record { value = inr 3; expires_at = 13 }) ∷ [];
  cache_ttl = 10;
  max_cache_size = 1;
}

one-IsCache : IsCache Answers 10 1 5 one
unfolding one codes
one-IsCache = record {
  ttl_is = refl;
  size_is = refl;
  room = inl (omega arith);
  entries = (record { time = 3; expiry = refl; past = omega arith; answer = refl }, tt);
}

evicts_the_other :
    (fetch 0 20 (codes "mx:x.org") (inr 20) one).cache
    ≡ (codes "mx:x.org", record { value = inr 20; expires_at = 30 }) ∷ []
unfolding one codes fetch put evict
evicts_the_other = refl

-- the answer of time 3 is found at 7
find-IsRecent_example :
    (let s = find 0 7 8 9 (codes "host:x.org") (inr 9) one one in
      IsRecent Answers 10 7 9 (codes "host:x.org") s.0
      × IsCache Answers 10 1 9 s.1
      × ((peek 7 (codes "host:x.org") one ≡ some s.0)
          ⊎ IsKept Answers (codes "host:x.org") s.0 s.1))
find-IsRecent_example =
    find-IsRecent Answers 10 1 5 5 0 7 8 9 (codes "host:x.org") (inr 9) one one one-IsCache
      one-IsCache (omega arith) (omega arith) (omega arith) (omega arith) refl
