-- ===== src/Dmarc/Policy.antt =====
-- internal/plugins/dmarc/dmarc.go: which messages OnMessage refuses for good.
use mathlib.Core.List.{reverse-append}
use mathlib.Core.Path.{subst}
use smtpd.Prelude.{
  ◌≡◌, ◌≢◌, refl, ◌⊎◌, inl, inr, true, false, Option, none, some, List, [], ◌∷◌, ◌++◌, All,
  is_empty, reverse, Bool-cases, arith,
}
use smtpd.Text.{
  Bytes, codes, to_lower, bytes_eq, bytes_eq_refl, eq_of_bytes_eq, equal_fold, has_suffix,
  has_prefix-append,
}
use smtpd.Plugin.{Context, SessionInfo, MessageInfo}
use smtpd.Plugin.Values.{pass, StoredSpfResult, Verification, Results}
use smtpd.Spf.{TxtAnswer, records, dns_error, other_error}
use smtpd.Spf.Replies.{code_of}
use smtpd.Dmarc.{
  Store, aligned, check_spf_alignment, check_dkim_alignment, any_aligned, passes, apply_policy,
  apply_record, spf_of, dkim_of, check_address, answer_lookup, find_record, from_domain_of,
  check_domain, on_message, dmarc_checker,
}
use smtpd.Dmarc.Record.{DmarcRecord}

-- a name below another
pub record IsUnder (d f : Bytes) : Type 0 where
  pub label : Bytes
  pub whole : d ≡ label ++ b'.' ∷ f

-- the same domain but for case, or, unless the alignment is strict, one below it
abbrev pub IsAligned : Bytes → Bytes → Bytes → Type 0
IsAligned alignment domain from =
    (to_lower domain ≡ to_lower from)
    ⊎ ((alignment ≢ codes "s") × IsUnder (to_lower domain) (to_lower from))

has_suffix-append : (p s : Bytes) → has_suffix (p ++ s) s ≡ true
unfolding has_suffix
has_suffix-append p s = rw (reverse-append p s) (has_prefix-append (reverse s) (reverse p))

equal_fold-of_eq : (d f : Bytes) → to_lower d ≡ to_lower f → equal_fold d f ≡ true
unfolding equal_fold
equal_fold-of_eq d f e = rw e (bytes_eq_refl (to_lower f))

has_suffix-of_IsUnder : (d f : Bytes) → IsUnder d f → has_suffix d (codes "." ++ f) ≡ true
unfolding codes
has_suffix-of_IsUnder d f k = rw k.whole (has_suffix-append k.label (b'.' ∷ f))

aligned-of_IsAligned :
    (alignment d f : Bytes) → IsAligned alignment d f → aligned d f alignment ≡ true
unfolding aligned
aligned-of_IsAligned alignment d f (inl e) =
    let same = equal_fold-of_eq d f e in
    elim (Bool-cases (bytes_eq alignment (codes "s"))) [
      | inl b ↦ rw b same
      | inr b ↦ rw (b, same) refl
    ]
aligned-of_IsAligned alignment d f (inr (loose, under)) =
    let below = has_suffix-of_IsUnder (to_lower d) (to_lower f) under in
    elim (Bool-cases (bytes_eq alignment (codes "s"))) [
      | inl b ↦ absurd (loose (eq_of_bytes_eq alignment (codes "s") b))
      | inr b ↦ elim (Bool-cases (equal_fold d f)) [
        | inl c ↦ rw (b, c) refl
        | inr c ↦ rw (b, c) below
      ]
    ]

is_empty-of_given : (s : Bytes) → s ≢ [] → is_empty s ≡ false
is_empty-of_given [] h = absurd (h refl)
is_empty-of_given (c ∷ s) h = refl

given-of_is_empty : (s : Bytes) → is_empty s ≡ false → s ≢ []
given-of_is_empty [] h e = absurd cc
given-of_is_empty (c ∷ s) h e = absurd cc

-- a signature that holds, of a domain that is aligned
abbrev pub Vouches : Bytes → Bytes → Verification → Type 0
Vouches alignment from v = (v.passed ≡ true) × (v.domain ≢ []) × IsAligned alignment v.domain from

no_signature :
    (vs : List Verification) (from alignment : Bytes)
    → any_aligned vs from alignment ≡ false
    → All (λ v. Vouches alignment from v → ⊥) vs
unfolding any_aligned
no_signature [] from alignment h = tt
no_signature (v ∷ vs) from alignment h = (
  λ (p, g, a).
      let given = is_empty-of_given v.domain g in
      let so = aligned-of_IsAligned alignment v.domain from a in
      absurd (ground (arith, h, p, given, so)),
  no_signature vs from alignment (ground (arith, h)),
)

no_spf :
    (o : Option StoredSpfResult) (v : StoredSpfResult) (from alignment : Bytes)
    → check_spf_alignment (spf_of o).result (spf_of o).domain from alignment ≡ false
    → from ≢ []
    → o ≡ some v
    → v.result ≡ pass
    → v.domain ≢ []
    → IsAligned alignment v.domain from
    → ⊥
unfolding check_spf_alignment
no_spf o v from alignment h given e p g a =
    let found =
      subst
        (λ (x : Option StoredSpfResult).
          check_spf_alignment (spf_of x).result (spf_of x).domain from alignment ≡ false)
        e h in
    let passed = subst (λ x. check_spf_alignment x v.domain from alignment ≡ false) p found in
    let so = aligned-of_IsAligned alignment v.domain from a in
    absurd (ground (arith, passed, is_empty-of_given v.domain g, is_empty-of_given from given, so))

module _ {W : Type 0} (parse_from : Bytes → Option Bytes)
    (lookup_txt : Bytes → W → TxtAnswer × W) where
  -- what a message is refused for: `r` is what the context holds
  pub record IsRejected (r : Results) (content : Bytes) (w : W) : Type 0 where
    pub address : Bytes
    pub parsed : parse_from content ≡ some address
    pub given : from_domain_of address ≢ []
    pub found : List Bytes
    pub answered : (lookup_txt (codes "_dmarc." ++ from_domain_of address) w).0 ≡ records found
    pub policy : DmarcRecord
    pub published : find_record found ≡ some policy
    pub rejects : policy.policy ≡ codes "reject"
    pub spf :
        (v : StoredSpfResult)
        → r.spf ≡ some v
        → v.result ≡ pass
        → v.domain ≢ []
        → IsAligned policy.spf_alignment v.domain (from_domain_of address)
        → ⊥
    pub dkim :
        All (λ v. Vouches policy.dkim_alignment (from_domain_of address) v → ⊥) (dkim_of r.dkim)

  apply_policy_refuses :
      (p : DmarcRecord) (d : Bytes) (r : Results)
      → code_of (apply_policy p d r) ≡ 550
      → (passes p d r ≡ false) × (p.policy ≡ codes "reject")
  unfolding apply_policy
  apply_policy_refuses p d r e = elim (Bool-cases (passes p d r)) [
    | inl b ↦ absurd (ground (arith, e, b))
    | inr b ↦ elim (Bool-cases (bytes_eq p.policy (codes "reject"))) [
      | inl c ↦ (b, eq_of_bytes_eq p.policy (codes "reject") c)
      | inr c ↦ absurd (ground (arith, e, b, c))
    ]
  ]

  -- the record is the one of the domain, and nothing passes
  record Fails (p : DmarcRecord) (found : List Bytes) (d : Bytes) (r : Results) : Type 0 where
    published : find_record found ≡ some p
    fails : passes p d r ≡ false
    rejects : p.policy ≡ codes "reject"

  record IsAnswered (answer : TxtAnswer) (d : Bytes) (r : Results) : Type 0 where
    found : List Bytes
    answered : answer ≡ records found
    policy : DmarcRecord
    why : Fails policy found d r

  apply_record_refuses :
      (found : List Bytes) (o : Option DmarcRecord) (d : Bytes) (r : Results)
      → find_record found ≡ o
      → code_of (apply_record o d r) ≡ 550
      → IsAnswered (records found) d r
  unfolding apply_record
  apply_record_refuses found none d r f e = absurd (omega arith)
  apply_record_refuses found (some p) d r f e =
      let (fails, rejects) = apply_policy_refuses p d r e in
      record {
        found = found;
        answered = refl;
        policy = p;
        why = record { published = f; fails = fails; rejects = rejects };
      }

  answer_lookup_refuses :
      (answer : TxtAnswer) (d : Bytes) (r : Results)
      → code_of (answer_lookup answer d r) ≡ 550
      → IsAnswered answer d r
  unfolding answer_lookup
  answer_lookup_refuses (records found) d r e =
      apply_record_refuses found (find_record found) d r refl e
  answer_lookup_refuses (dns_error true t u) d r e = absurd (omega arith)
  answer_lookup_refuses (dns_error false t u) d r e = absurd (ground (arith, e))
  answer_lookup_refuses other_error d r e = absurd (omega arith)

  IsRejected-of_IsAnswered :
      (r : Results) (content addr : Bytes) (w : W)
      → parse_from content ≡ some addr
      → from_domain_of addr ≢ []
      → IsAnswered (lookup_txt (codes "_dmarc." ++ from_domain_of addr) w).0 (from_domain_of addr) r
      → IsRejected r content w
  unfolding passes check_dkim_alignment
  IsRejected-of_IsAnswered r content addr w parsed given k =
      let from = from_domain_of addr in
      let p = k.policy in
      let f = k.why.fails in
      let spf : check_spf_alignment (spf_of r.spf).result (spf_of r.spf).domain from p.spf_alignment
          ≡ false =
        ground (arith, f) in
      let dkim : any_aligned (dkim_of r.dkim) from p.dkim_alignment ≡ false =
        ground (arith, f, is_empty-of_given from given) in
      record {
        address = addr;
        parsed = parsed;
        given = given;
        found = k.found;
        answered = k.answered;
        policy = p;
        published = k.why.published;
        rejects = k.why.rejects;
        spf = λ v e q g a. no_spf r.spf v from p.spf_alignment spf given e q g a;
        dkim = no_signature (dkim_of r.dkim) from p.dkim_alignment dkim;
      }

  check_domain_refuses :
      (d : Bytes) (r : Results) (w : W)
      → code_of (check_domain parse_from lookup_txt d r w).0 ≡ 550
      → (d ≢ []) × IsAnswered (lookup_txt (codes "_dmarc." ++ d) w).0 d r
  unfolding check_domain
  check_domain_refuses d r w e = elim (Bool-cases (is_empty d)) [
    | inl b ↦ absurd (ground (arith, e, b))
    | inr b ↦ (given-of_is_empty d b, answer_lookup_refuses _ d r (ground (arith, e, b)))
  ]

  check_address_refuses :
      (r : Results) (sender content : Bytes) (o : Option Bytes) (s : Store W)
      → parse_from content ≡ o
      → code_of (check_address parse_from lookup_txt r sender o s).0 ≡ 550
      → IsRejected r content s.world
  unfolding check_address
  check_address_refuses r sender content none s f e = absurd (omega arith)
  check_address_refuses r sender content (some addr) s f e =
      let (given, k) = check_domain_refuses (from_domain_of addr) r s.world e in
      IsRejected-of_IsAnswered r content addr s.world f given k

  -- Whatever DNS answers and whatever the context holds: OnMessage refuses a message with a 550 only
  -- if the domain of its From address is not empty and has a DMARC record, whose policy is to
  -- reject, and neither a passing SPF result nor a signature that holds is of a domain aligned with
  -- it: the same but for case, or, unless the alignment is strict, one below it. No other error of
  -- parsing or of DNS has a 550.
  pub dmarc_checker_refuses :
      (c : Context) (i : SessionInfo) (m : MessageInfo) (s : Store W)
      → code_of ((dmarc_checker parse_from lookup_txt).on_message c i m s).0 ≡ 550
      → IsRejected c.results m.content s.world
  unfolding dmarc_checker on_message
  dmarc_checker_refuses c i m s e =
      check_address_refuses c.results m.sender m.content (parse_from m.content) s refl e
