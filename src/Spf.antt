-- ===== src/Spf.antt =====
-- internal/plugins/spf/spf.go: the check of the sender's domain. net.IP and net.IPNet are types of
-- their own, `A` and `N`; their parsing and containment, and the resolver, are parameters.
pub mod Mechanisms
pub mod Replies
mod Tests
use smtpd.Prelude.{
  ℕ, Bool, true, false, not, ◌&&◌, ◌||◌, Option, none, some, List, [], ◌∷◌, is_empty, ◌==◌,
  if◌then◌else◌,
}
use smtpd.Text.{Bytes, codes, to_lower, has_prefix, trim_prefix, bytes_eq, fields, split}
use smtpd.Smtp.{Error, smtp}
use smtpd.Plugin.Values.{
  SpfResult, pass, fail, soft_fail, neutral, temp_error, perm_error, no_record, StoredSpfResult,
}

-- what LookupTXT answers: the records, a *net.DNSError, or another error
pub data TxtAnswer : Type 0 where
  records : List Bytes → TxtAnswer
  dns_error : Bool → Bool → Bool → TxtAnswer  -- IsNotFound, IsTimeout, IsTemporary
  other_error : TxtAnswer

abbrev pub refusal : ℕ → Bytes → Bytes → Option Error
refusal code enh text = some (smtp (record { code = code; enh_code = enh; message = text }))

-- what one term of a record says
pub data Judgement : Type 0 where
  matched : SpfResult → Judgement
  broken : Judgement
  passed_over : Judgement

-- the qualifier of a term, and its mechanism; a term is not empty
unfoldable pub qualify : Bytes → SpfResult × Bytes
qualify [] = (pass, [])
qualify (b ∷ rest) =
    if b == b'+'
    then (pass, rest)
    else if b == b'-'
    then (fail, rest)
    else if b == b'~'
    then (soft_fail, rest)
    else if b == b'?'
    then (neutral, rest)
    else (pass, b ∷ rest)

module _ {N A : Type 0} (parse_cidr : Bytes → Option N) (contains : N → A → Bool)
    (is_v4 : A → Bool) where
  -- an ip4 or ip6 mechanism, for an address of that version
  unfoldable pub match_network : SpfResult → Bool → A → Bytes → Judgement
  match_network q version ip cidr = elim (parse_cidr cidr) [
    | none ↦ broken
    | some n ↦ if version && contains n ip then matched q else passed_over
  ]

  unfoldable pub judge : A → Bytes → Judgement
  unfolding qualify match_network codes
  judge ip part =
      let (q, mechanism) = qualify part in
      if has_prefix mechanism (codes "ip4:")
      then match_network q (is_v4 ip) ip (trim_prefix mechanism (codes "ip4:"))
      else if has_prefix mechanism (codes "ip6:")
      then match_network q (not (is_v4 ip)) ip (trim_prefix mechanism (codes "ip6:"))
      else if bytes_eq mechanism (codes "all")
      then matched q
      else passed_over

  unfoldable pub conclude : Judgement → SpfResult → SpfResult
  conclude (matched q) rest = q
  conclude broken rest = perm_error
  conclude passed_over rest = rest

  unfoldable pub evaluate_parts : A → List Bytes → SpfResult
  unfolding judge conclude
  evaluate_parts ip [] = neutral
  evaluate_parts ip (part ∷ parts) = conclude (judge ip part) (evaluate_parts ip parts)

  -- `evaluateSPF`
  unfoldable pub evaluate_spf : Bytes → A → SpfResult
  unfolding evaluate_parts codes
  evaluate_spf rec ip = evaluate_parts ip (fields (trim_prefix (to_lower rec) (codes "v=spf1 ")))

-- the records that begin as one of SPF does
unfoldable pub spf_records : List Bytes → List Bytes
unfolding codes
spf_records [] = []
spf_records (r ∷ rs) =
    if has_prefix (to_lower r) (codes "v=spf1") then r ∷ spf_records rs else spf_records rs

-- the domain of a sender that has one @ and something after it
unfoldable pub sender_domain : Bytes → Option Bytes
sender_domain from = elim (split b'@' from) [ user ∷ (b ∷ host) ∷ [] ↦ some (b ∷ host) | _ ↦ none ]

-- the reply to a result
unfoldable pub reply_to : SpfResult → Option Error
unfolding codes
reply_to fail = refusal 550 (codes "5.7.23") (codes "Message rejected due to SPF policy")
reply_to temp_error = refusal 451 (codes "4.4.3") (codes "Temporary error during SPF evaluation")
reply_to perm_error = refusal 550 (codes "5.5.2") (codes "Permanent error evaluating SPF policy")
reply_to other = none

module _ {N A : Type 0} (parse_cidr : Bytes → Option N) (contains : N → A → Bool)
    (is_v4 : A → Bool) where
  -- what follows the lookup, as a reply and a result
  unfoldable pub answer_records : List Bytes → A → Option Error × SpfResult
  unfolding evaluate_spf reply_to codes
  answer_records [] ip = (none, no_record)
  answer_records (r ∷ []) ip =
      let result = evaluate_spf parse_cidr contains is_v4 r ip in (reply_to result, result)
  answer_records (r ∷ s ∷ rs) ip = (
    refusal 451 (codes "4.3.0") (codes "Temporary error: Multiple SPF records found"),
    perm_error,
  )

  unfoldable pub answer_lookup : TxtAnswer → A → Option Error × SpfResult
  unfolding answer_records spf_records codes
  answer_lookup (records rs) ip = answer_records (spf_records rs) ip
  answer_lookup (dns_error true timeout temporary) ip = (none, no_record)
  answer_lookup (dns_error false true temporary) ip = (
    refusal 451 (codes "4.3.2") (codes "Temporary error: DNS lookup timeout during SPF check"),
    temp_error,
  )
  answer_lookup (dns_error false false true) ip =
      (refusal 451 (codes "4.3.0") (codes "Temporary error: Cannot resolve SPF record"), temp_error)
  answer_lookup (dns_error false false false) ip =
      (refusal 451 (codes "4.3.0") (codes "Temporary error: SPF record lookup issue"), temp_error)
  answer_lookup other_error ip =
      (refusal 451 (codes "4.3.0") (codes "Temporary error: Cannot resolve SPF record"), perm_error)

  -- the rest of `OnMailFrom`, for a sender with a domain
  unfoldable pub check_domain :
      {W : Type 0}
      → (Bytes → W → TxtAnswer × W)
      → A
      → Option Bytes
      → W
      → Option Error × StoredSpfResult × W
  unfolding answer_lookup codes
  check_domain lookup_txt ip none w = (
    refusal 553 (codes "5.1.7") (codes "Sender address format invalid"),
    record { result = perm_error; domain = [] },
    w,
  )
  check_domain lookup_txt ip (some domain) w =
      let (answer, w') = lookup_txt domain w in
      let (e, result) = answer_lookup answer ip in
      (e, record { result = result; domain = domain }, w')

  -- `OnMailFrom`, with the result that it puts into a context of its own; none is a client without
  -- an address of the network
  unfoldable pub on_mail_from :
      {W : Type 0}
      → (Bytes → W → TxtAnswer × W)
      → Option A
      → Bytes
      → W
      → Option Error × StoredSpfResult × W
  unfolding check_domain sender_domain codes
  on_mail_from lookup_txt none from w = (
    refusal 451 (codes "4.3.0") (codes "Temporary error: Could not determine client IP"),
    record { result = no_record; domain = [] },
    w,
  )
  on_mail_from lookup_txt (some ip) from w =
      if bytes_eq from (codes "<>")
      then (none, record { result = no_record; domain = [] }, w)
      else check_domain lookup_txt ip (sender_domain from) w
