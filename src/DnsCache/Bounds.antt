-- ===== src/DnsCache/Bounds.antt =====
-- internal/dns/cache.go: the size of the cache and the age of its answers.
use mathlib.Core.Path.{subst}
use smtpd.Prelude.{
  ℕ, zero, suc, ◌+◌, ◌≤◌, ◌<◌, ◌≡◌, refl, sym, ap, ◌⊎◌, inl, inr, Bool, true, false, Option, none,
  some, List, [], ◌∷◌, length, ltb, leb, arith, Bool-cases, if◌then◌else◌,
}
use smtpd.Text.{Bytes, bytes_eq, eq_of_bytes_eq, bytes_eq_refl}
use smtpd.Table.{lookup}
use smtpd.DnsCache.{
  CacheEntry, Resolver, put, evict, fresh, peek, fetch, locked, lookup_locked, unless_found, find,
}

module _ {E V : Type 0} (Answers : ℕ → Bytes → E ⊎ V → Type 0) where
  -- an entry holds an answer to its key, of a time that its expiry tells
  pub record IsEntry (ttl clock : ℕ) (key : Bytes) (e : CacheEntry E V) : Type 0 where
    pub time : ℕ
    pub expiry : e.expires_at ≡ time + ttl
    pub past : time ≤ clock
    pub answer : Answers time key e.value

  abbrev pub AllEntries : ℕ → ℕ → List (Bytes × CacheEntry E V) → Type 0
  AllEntries ttl clock [] = Unit {0}
  AllEntries ttl clock ((key, e) ∷ es) = IsEntry ttl clock key e × AllEntries ttl clock es

  -- a cache of at most `size` entries
  pub record IsCache (ttl size clock : ℕ) (r : Resolver E V) : Type 0 where
    pub ttl_is : r.cache_ttl ≡ ttl
    pub size_is : r.max_cache_size ≡ size
    pub room : (length r.cache ≤ size) ⊎ (length r.cache ≤ 1)
    pub entries : AllEntries ttl clock r.cache

  length-evict :
      (n : ℕ) (x : Bytes × CacheEntry E V) (xs : List (Bytes × CacheEntry E V))
      → length (evict n (x ∷ xs)) ≡ length xs
  unfolding evict
  length-evict zero x xs = refl
  length-evict (suc n) x [] = refl
  length-evict (suc n) x (y ∷ xs) = ap suc (length-evict n y xs)

  length-put :
      (key : Bytes) (e : CacheEntry E V) (es : List (Bytes × CacheEntry E V))
      → length (put key e es) ≤ suc (length es)
  unfolding put
  length-put key e [] = omega arith
  length-put key e ((j, f) ∷ es) = ground (arith, length-put key e es)

  module _ (ttl : ℕ) where
    older :
        (c d : ℕ) (es : List (Bytes × CacheEntry E V))
        → c ≤ d
        → AllEntries ttl c es
        → AllEntries ttl d es
    older c d [] l k = tt
    older c d ((key, e) ∷ es) l k = (
      record {
        time = k.0.time;
        expiry = k.0.expiry;
        past = let p = k.0.past in omega arith;
        answer = k.0.answer;
      },
      older c d es l k.1,
    )

    evict-AllEntries :
        (c n : ℕ) (es : List (Bytes × CacheEntry E V))
        → AllEntries ttl c es
        → AllEntries ttl c (evict n es)
    unfolding evict
    evict-AllEntries c n [] k = k
    evict-AllEntries c zero (x ∷ xs) k = k.1
    evict-AllEntries c (suc n) (x ∷ []) k = tt
    evict-AllEntries c (suc n) (x ∷ y ∷ xs) k = (k.0, evict-AllEntries c n (y ∷ xs) k.1)

    put-AllEntries :
        (c : ℕ) (key : Bytes) (e : CacheEntry E V) (es : List (Bytes × CacheEntry E V))
        → IsEntry ttl c key e
        → AllEntries ttl c es
        → AllEntries ttl c (put key e es)
    unfolding put
    put-AllEntries c key e [] i k = (i, tt)
    put-AllEntries c key e ((j, f) ∷ es) i k = elim (Bool-cases (bytes_eq j key)) [
      | inl b ↦ rw b (subst (λ x. IsEntry ttl c x e) (sym (eq_of_bytes_eq j key b)) i, k.1)
      | inr b ↦ rw b (k.0, put-AllEntries c key e es i k.1)
    ]

    lookup-IsEntry :
        (c : ℕ) (key : Bytes) (e : CacheEntry E V) (es : List (Bytes × CacheEntry E V))
        → AllEntries ttl c es
        → lookup key es ≡ some e
        → IsEntry ttl c key e
    unfolding lookup
    lookup-IsEntry c key e [] k l = absurd cc
    lookup-IsEntry c key e ((j, f) ∷ es) k l = elim (Bool-cases (bytes_eq j key)) [
      | inl b ↦
          let same : f ≡ e = ground (arith, l) in
          subst (λ x. IsEntry ttl c key x) same
            (subst (λ x. IsEntry ttl c x f) (eq_of_bytes_eq j key b) k.0)
      | inr b ↦ lookup-IsEntry c key e es k.1 (ground (arith, l))
    ]

  -- what is left when room was made
  put_room :
      (victim size : ℕ) (key : Bytes) (e : CacheEntry E V) (es : List (Bytes × CacheEntry E V))
      → (length es ≤ size) ⊎ (length es ≤ 1)
      → (let after = put key e (if leb size (length es) then evict victim es else es) in
          (length after ≤ size) ⊎ (length after ≤ 1))
  unfolding put evict
  put_room victim size key e [] room = elim (Bool-cases (leb size 0)) [
    | inl b ↦ rw b (inr (omega arith))
    | inr b ↦ rw b (inr (omega arith))
  ]
  put_room victim size key e (x ∷ xs) room = elim (Bool-cases (leb size (suc (length xs)))) [
    | inl b ↦
        let out = length-evict victim x xs in
        let back = length-put key e (evict victim (x ∷ xs)) in
        rw b (elim room [ inl l ↦ inl (omega arith) | inr l ↦ inr (omega arith) ])
    | inr b ↦ let back = length-put key e (x ∷ xs) in rw b (inl (ground arith))
  ]

  fetch-IsCache :
      (ttl size clock victim now : ℕ) (key : Bytes) (answer : E ⊎ V) (r : Resolver E V)
      → IsCache ttl size clock r
      → clock ≤ now
      → Answers now key answer
      → IsCache ttl size now (fetch victim now key answer r)
  unfolding fetch
  fetch-IsCache ttl size clock victim now key answer r k l a = record {
    ttl_is = k.ttl_is;
    size_is = k.size_is;
    room = rw k.size_is (put_room victim size key _ r.cache k.room);
    entries =
        put-AllEntries ttl now key _ _
          (record {
            time = now;
            expiry = ap (λ t. now + t) k.ttl_is;
            past = omega arith;
            answer = a;
          })
          (kept (leb r.max_cache_size (length r.cache)));
  }
    where
      before : AllEntries ttl now r.cache
      before = older ttl clock now r.cache l k.entries

      kept : (b : Bool) → AllEntries ttl now (if b then evict victim r.cache else r.cache)
      kept true = evict-AllEntries ttl now victim r.cache before
      kept false = before

  -- an answer to the key that was given now, or at a time that is not too old when it is read
  pub record IsRecent (ttl checked now : ℕ) (key : Bytes) (v : E ⊎ V) : Type 0 where
    pub time : ℕ
    pub answer : Answers time key v
    pub age : (time ≡ now) ⊎ ((time ≤ now) × (checked < time + ttl))

  locked-IsRecent :
      (ttl size clock victim checked now : ℕ) (key : Bytes) (answer : E ⊎ V)
      (o : Option (CacheEntry E V)) (r : Resolver E V)
      → IsCache ttl size clock r
      → clock ≤ checked
      → checked ≤ now
      → Answers now key answer
      → lookup key r.cache ≡ o
      → (let s = locked victim checked now key answer (fresh checked o) r in
          IsRecent ttl checked now key s.0 × IsCache ttl size now s.1)
  unfolding locked fresh
  locked-IsRecent ttl size clock victim checked now key answer none r k l m a e = (
    record { time = now; answer = a; age = inl refl },
    fetch-IsCache ttl size clock victim now key answer r k (omega arith) a,
  )
  locked-IsRecent ttl size clock victim checked now key answer (some f) r k l m a e =
      elim (Bool-cases (ltb checked f.expires_at)) [
        | inl b ↦
            let i = lookup-IsEntry ttl clock key f r.cache k.entries e in
            let expiry = i.expiry in
            let past = i.past in
            rw b (
              record { time = i.time; answer = i.answer; age = inr (omega arith, ground arith) },
              record {
                ttl_is = k.ttl_is;
                size_is = k.size_is;
                room = k.room;
                entries = older ttl clock now r.cache (omega arith) k.entries;
              },
            )
        | inr b ↦ rw b (
          record { time = now; answer = a; age = inl refl },
          fetch-IsCache ttl size clock victim now key answer r k (omega arith) a,
        )
      ]

  lookup_locked-IsRecent :
      (ttl size clock victim checked now : ℕ) (key : Bytes) (answer : E ⊎ V) (r : Resolver E V)
      → IsCache ttl size clock r
      → clock ≤ checked
      → checked ≤ now
      → Answers now key answer
      → (let s = lookup_locked victim checked now key answer r in
          IsRecent ttl checked now key s.0 × IsCache ttl size now s.1)
  unfolding lookup_locked peek
  lookup_locked-IsRecent ttl size clock victim checked now key answer r k l m a =
      locked-IsRecent ttl size clock victim checked now key answer (lookup key r.cache) r k l m a
        refl

  found-IsRecent :
      (ttl size clock t now : ℕ) (key : Bytes) (v : E ⊎ V) (o : Option (CacheEntry E V))
      (r : Resolver E V)
      → IsCache ttl size clock r
      → clock ≤ t
      → t ≤ now
      → lookup key r.cache ≡ o
      → fresh t o ≡ some v
      → IsRecent ttl t now key v
  unfolding fresh
  found-IsRecent ttl size clock t now key v none r k l m e f = absurd cc
  found-IsRecent ttl size clock t now key v (some g) r k l m e f =
      let i = lookup-IsEntry ttl clock key g r.cache k.entries e in
      let expiry = i.expiry in
      let past = i.past in
      let same : g.value ≡ v = ground (arith, f) in
      let early : t < g.expires_at = ground (arith, f) in
      record {
        time = i.time;
        answer = subst (λ x. Answers i.time key x) same i.answer;
        age = inr (omega arith, omega arith);
      }

  unless_found-IsRecent :
      (ttl size clock victim t checked now : ℕ) (key : Bytes) (answer : E ⊎ V) (o : Option (E ⊎ V))
      (r : Resolver E V)
      → ((v : E ⊎ V) → o ≡ some v → IsRecent ttl t now key v)
      → IsCache ttl size clock r
      → clock ≤ checked
      → t ≤ checked
      → checked ≤ now
      → Answers now key answer
      → (let s = unless_found victim checked now key answer o r in
          IsRecent ttl t now key s.0 × IsCache ttl size now s.1)
  unfolding unless_found
  unless_found-IsRecent ttl size clock victim t checked now key answer none r found k l m n a =
      let (recent, kept) =
        lookup_locked-IsRecent ttl size clock victim checked now key answer r k l n a in
      (
        record {
          time = recent.time;
          answer = recent.answer;
          age = elim recent.age [ inl e ↦ inl e | inr (past, young) ↦ inr (past, omega arith) ];
        },
        kept,
      )
  unless_found-IsRecent ttl size clock victim t checked now key answer (some v) r found k l m n a =
      (
        found v refl,
        record {
          ttl_is = k.ttl_is;
          size_is = k.size_is;
          room = k.room;
          entries = older ttl clock now r.cache (omega arith) k.entries;
        },
      )

  -- the cache has an entry of the key, with that answer
  pub record IsKept (key : Bytes) (v : E ⊎ V) (r : Resolver E V) : Type 0 where
    pub entry : CacheEntry E V
    pub found : lookup key r.cache ≡ some entry
    pub value : entry.value ≡ v

  lookup-put :
      (key : Bytes) (e : CacheEntry E V) (es : List (Bytes × CacheEntry E V))
      → lookup key (put key e es) ≡ some e
  unfolding lookup put
  lookup-put key e [] = rw (bytes_eq_refl key) refl
  lookup-put key e ((j, f) ∷ es) = elim (Bool-cases (bytes_eq j key)) [
    | inl b ↦ rw (b, b) refl
    | inr b ↦ rw (b, b) (lookup-put key e es)
  ]

  fetch-IsKept :
      (victim now : ℕ) (key : Bytes) (answer : E ⊎ V) (r : Resolver E V)
      → IsKept key answer (fetch victim now key answer r)
  unfolding fetch
  fetch-IsKept victim now key answer r = record {
    entry = _;
    found = lookup-put key _ _;
    value = refl;
  }

  locked-IsKept :
      (victim checked now : ℕ) (key : Bytes) (answer : E ⊎ V) (o : Option (CacheEntry E V))
      (r : Resolver E V)
      → lookup key r.cache ≡ o
      → (let s = locked victim checked now key answer (fresh checked o) r in IsKept key s.0 s.1)
  unfolding locked fresh
  locked-IsKept victim checked now key answer none r e = fetch-IsKept victim now key answer r
  locked-IsKept victim checked now key answer (some f) r e =
      elim (Bool-cases (ltb checked f.expires_at)) [
        | inl b ↦ rw b (record { entry = f; found = e; value = refl })
        | inr b ↦ rw b (fetch-IsKept victim now key answer r)
      ]

  unless_found-IsKept :
      (victim checked now : ℕ) (key : Bytes) (answer : E ⊎ V) (o : Option (E ⊎ V))
      (r : Resolver E V)
      → (let s = unless_found victim checked now key answer o r in
          (o ≡ some s.0) ⊎ IsKept key s.0 s.1)
  unfolding unless_found lookup_locked peek
  unless_found-IsKept victim checked now key answer none r =
      inr (locked-IsKept victim checked now key answer (lookup key r.cache) r refl)
  unless_found-IsKept victim checked now key answer (some v) r = inl refl

  -- Whichever entry Go evicts, and whatever other calls do between the two locks: lookup keeps the
  -- cache within its maximum, or one entry where that is 0, and its answer is one that net gave for
  -- that very key, now or less than cacheTTL before the clock was first read. An answer that was not
  -- in the cache at the first reading is in it afterwards, under that key, an error like any other.
  pub find-IsRecent :
      (ttl size before clock victim t checked now : ℕ) (key : Bytes) (answer : E ⊎ V)
      (first second : Resolver E V)
      → IsCache ttl size before first
      → IsCache ttl size clock second
      → before ≤ t
      → clock ≤ checked
      → t ≤ checked
      → checked ≤ now
      → Answers now key answer
      → (let s = find victim t checked now key answer first second in
          IsRecent ttl t now key s.0
          × IsCache ttl size now s.1
          × ((peek t key first ≡ some s.0) ⊎ IsKept key s.0 s.1))
  unfolding find
  find-IsRecent ttl size before clock victim t checked now key answer first second j k b l m n a =
      let (recent, kept) =
        unless_found-IsRecent ttl size clock victim t checked now key answer (peek t key first)
          second
          (λ v e.
            found-IsRecent ttl size before t now key v (lookup key first.cache) first j b
              (omega arith) refl (unfold peek in e))
          k l m n a in
      (recent, kept, unless_found-IsKept victim checked now key answer (peek t key first) second)
