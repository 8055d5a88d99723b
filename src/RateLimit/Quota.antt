-- ===== src/RateLimit/Quota.antt =====
-- pkg/plugin/ratelimit/ratelimit.go: what one sender gets through in its window.
use mathlib.Core.Option.{some-injective}
use smtpd.Prelude.{
  ℕ, suc, ◌+◌, ◌≤◌, ◌≡◌, refl, ◌∙◌, Bool, true, false, ◌&&◌, Option, none, some, List, [], ◌∷◌, All,
  ltb, leb, arith, if◌then◌else◌, Bool-cases, inl, inr,
}
use smtpd.Text.{Bytes, bytes_eq, eq_of_bytes_eq, bytes_eq_refl}
use smtpd.Table.{lookup, update, lookup-update, lookup-update_other}
use smtpd.Smtp.{Error}
use smtpd.RateLimit.{
  SenderCount, RateLimiter, expired, drop_expired, cleanup, exceeded, count_message, on_mail_from,
}

abbrev pub is_none : Option Error → Bool
is_none none = true
is_none (some e) = false

abbrev pub Request : Type 0
Request = ℕ × Bytes

-- how many of the requests are the sender's and get through
unfoldable pub accepted : Bytes → List Request → RateLimiter → ℕ
accepted k [] r = 0
accepted k ((now, from) ∷ qs) r =
    let (e, r') = on_mail_from now from r in
    let n = accepted k qs r' in if bytes_eq from k && is_none e then suc n else n

lookup-drop_expired :
    (k : Bytes) (now window : ℕ) (cs : List (Bytes × SenderCount)) (c : SenderCount)
    → lookup k cs ≡ some c
    → expired now window c ≡ false
    → lookup k (drop_expired now window cs) ≡ some c
unfolding lookup drop_expired
lookup-drop_expired k now window [] c h e = cc
lookup-drop_expired k now window ((j, d) ∷ cs) c h e = elim (Bool-cases (bytes_eq j k)) [
  | inr s ↦ elim (Bool-cases (expired now window d)) [
    | inl x ↦ rw x (lookup-drop_expired k now window cs c (found s h) e)
    | inr x ↦ rw (x, s) (lookup-drop_expired k now window cs c (found s h) e)
  ]
  | inl s ↦ let same = some-injective d c (first s h) in rw same (rw (e, s) refl)
]
  where
    found : bytes_eq j k ≡ false → lookup k ((j, d) ∷ cs) ≡ some c → lookup k cs ≡ some c
    found s h = ground arith

    first : bytes_eq j k ≡ true → lookup k ((j, d) ∷ cs) ≡ some c → some d ≡ some c
    first s h = ground arith

lookup-cleanup :
    (k : Bytes) (now : ℕ) (r : RateLimiter) (c : SenderCount)
    → lookup k r.counts ≡ some c
    → expired now r.window c ≡ false
    → lookup k (cleanup now r).counts ≡ some c
unfolding cleanup
lookup-cleanup k now r c h e = elim (Bool-cases (ltb now r.cleanup_at)) [
  | inl b ↦ rw b h
  | inr b ↦ rw b (lookup-drop_expired k now r.window r.counts c h e)
]

-- what one request leaves of the entry `c` of the sender `k`
record Counted (k : Bytes) (c : SenderCount) (from : Bytes) (r : RateLimiter) (b : ℕ)
    (a : Option Error × RateLimiter) : Type 0 where
  entry : SenderCount
  found : lookup k (a.1).counts ≡ some entry
  start : entry.start_time ≡ c.start_time
  limit : (a.1).limit ≡ r.limit
  window : (a.1).window ≡ r.window
  below : entry.count ≤ b
  count : entry.count ≡ (if bytes_eq from k && is_none a.0 then suc c.count else c.count)

module _ (k : Bytes) (c : SenderCount) (b : ℕ) (now : ℕ) where
  own-Counted :
      (r : RateLimiter)
      → lookup k r.counts ≡ some c
      → expired now r.window c ≡ false
      → c.count ≤ b
      → r.limit ≤ b
      → Counted k c k r b (count_message now k (some c) r)
  unfolding count_message
  own-Counted r h e l m = elim (Bool-cases (leb r.limit c.count)) [
    | inl f ↦
        rw (e, f)
          (record {
            entry = c;
            found = h;
            start = refl;
            limit = refl;
            window = refl;
            below = l;
            count = rw (bytes_eq_refl k) refl;
          })
    | inr f ↦
        rw (e, f)
          (record {
            entry = record c { count = suc c.count };
            found =
                lookup-update k (λ (e : SenderCount). record e { count = suc e.count }) r.counts c
                  h;
            start = refl;
            limit = refl;
            window = refl;
            below = ground arith;
            count = rw (bytes_eq_refl k) refl;
          })
  ]

  other-Counted :
      (from : Bytes) (o : Option SenderCount) (r : RateLimiter)
      → bytes_eq from k ≡ false
      → lookup k r.counts ≡ some c
      → c.count ≤ b
      → r.limit ≤ b
      → Counted k c from r b (count_message now from o r)
  unfolding count_message lookup
  other-Counted from none r d h l m = record {
    entry = c;
    found = rw d h;
    start = refl;
    limit = refl;
    window = refl;
    below = l;
    count = rw d refl;
  }
  other-Counted from (some o) r d h l m = elim (Bool-cases (expired now r.window o)) [
    | inl x ↦ rw x (
        kept
          (
            none,
            record r {
              counts = update from (λ e. record { count = 1; start_time = now }) r.counts;
            },
          )
          refl refl (lookup-update_other k from _ r.counts d ∙ h))
    | inr x ↦ elim (Bool-cases (leb r.limit o.count)) [
      | inl f ↦ rw (x, f) (kept (some exceeded, r) refl refl h)
      | inr f ↦
          rw (x, f)
            (kept
              (
                none,
                record r {
                  counts =
                      update from (λ (e : SenderCount). record e { count = suc e.count }) r.counts;
                },
              )
              refl refl (lookup-update_other k from _ r.counts d ∙ h))
    ]
  ]
    where
      kept :
          (a : Option Error × RateLimiter)
          → (a.1).limit ≡ r.limit
          → (a.1).window ≡ r.window
          → lookup k (a.1).counts ≡ some c
          → Counted k c from r b a
      kept a hl hw hf = record {
        entry = c;
        found = hf;
        start = refl;
        limit = hl;
        window = hw;
        below = l;
        count = rw d refl;
      }

limit-cleanup : (now : ℕ) (r : RateLimiter) → (cleanup now r).limit ≡ r.limit
unfolding cleanup
limit-cleanup now r = ground arith

window-cleanup : (now : ℕ) (r : RateLimiter) → (cleanup now r).window ≡ r.window
unfolding cleanup
window-cleanup now r = ground arith

module _ (k : Bytes) (c : SenderCount) (b : ℕ) where
  on_mail_from-Counted :
      (now : ℕ) (from : Bytes) (r : RateLimiter)
      → lookup k r.counts ≡ some c
      → expired now r.window c ≡ false
      → c.count ≤ b
      → r.limit ≤ b
      → Counted k c from (cleanup now r) b (on_mail_from now from r)
  unfolding on_mail_from
  on_mail_from-Counted now from r h e l m =
      let r' = cleanup now r in
      let h' = lookup-cleanup k now r c h e in
      let m' : r'.limit ≤ b = omega (arith, limit-cleanup now r) in
      elim (Bool-cases (bytes_eq from k)) [
        | inr d ↦ other-Counted k c b now from (lookup from r'.counts) r' d h' l m'
        | inl s ↦ mine from (eq_of_bytes_eq from k s) r' h' (rw (window-cleanup now r) e) m'
      ]
    where
      mine :
          (from : Bytes)
          → from ≡ k
          → (r' : RateLimiter) → lookup k r'.counts ≡ some c
          → expired now r'.window c ≡ false
          → r'.limit ≤ b
          → Counted k c from r' b (count_message now from (lookup from r'.counts) r')
      mine from s r' h e m' = rw s (rw h (own-Counted k c b now r' h e l m'))

-- the request comes while the window of `c` lasts
abbrev pub InWindow : ℕ → SenderCount → Request → Type 0
InWindow window c q = q.0 ≤ c.start_time + window

All-InWindow :
    (v w : ℕ) (c d : SenderCount) (qs : List Request)
    → v ≡ w
    → d.start_time ≡ c.start_time
    → All (InWindow w c) qs
    → All (InWindow v d) qs
All-InWindow v w c d [] e f h = tt
All-InWindow v w c d (q ∷ qs) e f h = (omega (arith, h.0), All-InWindow v w c d qs e f h.1)

-- a bound `b` that is no less than the limit
counted_bounded :
    (k : Bytes) (b : ℕ) (qs : List Request) (r : RateLimiter) (c : SenderCount)
    → lookup k r.counts ≡ some c
    → c.count ≤ b
    → r.limit ≤ b
    → All (InWindow r.window c) qs
    → c.count + accepted k qs r ≤ b
unfolding accepted
counted_bounded k b [] r c h l m w = omega arith
counted_bounded k b ((now, from) ∷ qs) r c h l m w =
    let (e, r') = on_mail_from now from r in
    let s = on_mail_from-Counted k c b now from r h (unfold expired in ground arith) l m in
    let limit : r'.limit ≤ b = omega (arith, s.limit, limit-cleanup now r) in
    let more = counted_bounded k b qs r' s.entry s.found s.below limit (
      All-InWindow r'.window r.window c s.entry qs (s.window ∙ window-cleanup now r) s.start w.1) in
    ground (arith, more, s.count)

absent-drop_expired :
    (k : Bytes) (now window : ℕ) (cs : List (Bytes × SenderCount))
    → lookup k cs ≡ none
    → lookup k (drop_expired now window cs) ≡ none
unfolding lookup drop_expired
absent-drop_expired k now window [] h = refl
absent-drop_expired k now window ((j, d) ∷ cs) h = elim (Bool-cases (bytes_eq j k)) [
  | inl s ↦ absurd (ground (arith, h))
  | inr s ↦
      let rest = absent-drop_expired k now window cs (ground (arith, h)) in
      elim (Bool-cases (expired now window d)) [ inl x ↦ rw x rest | inr x ↦ rw (x, s) rest ]
]

absent-cleanup :
    (k : Bytes) (now : ℕ) (r : RateLimiter)
    → lookup k r.counts ≡ none
    → lookup k (cleanup now r).counts ≡ none
unfolding cleanup
absent-cleanup k now r h = elim (Bool-cases (ltb now r.cleanup_at)) [
  | inl b ↦ rw b h
  | inr b ↦ rw b (absent-drop_expired k now r.window r.counts h)
]

abbrev pub starting : ℕ → SenderCount
starting now = record { count = 1; start_time = now }

-- the first message is let through whatever the limit
abbrev pub quota : ℕ → ℕ
quota limit = if ltb 0 limit then limit else 1

on_mail_from-absent :
    (k : Bytes) (now : ℕ) (r : RateLimiter)
    → lookup k r.counts ≡ none
    → on_mail_from now k r
      ≡ (none, record (cleanup now r) { counts = (k, starting now) ∷ (cleanup now r).counts })
unfolding on_mail_from count_message
on_mail_from-absent k now r h = rw (absent-cleanup k now r h) refl

-- Whoever else sends what in the meantime: of the message that a sender without an entry sends, and
-- of those that come while the window lasts that it opens, no more get through than the limit says;
-- where the limit is 0, no more than one, since the first is let through unchecked.
pub accepted_bounded :
    (k : Bytes) (now : ℕ) (qs : List Request) (r : RateLimiter)
    → lookup k r.counts ≡ none
    → All (InWindow r.window (starting now)) qs
    → accepted k ((now, k) ∷ qs) r ≤ quota r.limit
unfolding accepted
accepted_bounded k now qs r h w =
    let r' : RateLimiter = record (cleanup now r) {
      counts = (k, starting now) ∷ (cleanup now r).counts;
    } in
    let more : 1 + accepted k qs r' ≤ quota r.limit =
      counted_bounded k (quota r.limit) qs r' (starting now)
        (unfold lookup in rw (bytes_eq_refl k) refl) (ground arith)
        (ground (arith, limit-cleanup now r))
        (All-InWindow r'.window r.window (starting now) (starting now) qs (window-cleanup now r)
          refl w) in
    rw (on_mail_from-absent k now r h, bytes_eq_refl k) (omega (arith, more))
