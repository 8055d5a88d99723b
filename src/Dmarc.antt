-- ===== src/Dmarc.antt =====
-- internal/plugins/dmarc: the check of the From header's domain, and the events for the reports. The
-- parsing of headers by net/mail and the resolver are parameters.
pub mod Record
pub mod Policy
mod Tests
use smtpd.Prelude.{
  Bool, true, false, ◌&&◌, ◌||◌, not, Option, none, some, List, [], ◌∷◌, ◌++◌, is_empty,
  if◌then◌else◌,
}
use smtpd.Text.{Bytes, codes, to_lower, bytes_eq, equal_fold, has_suffix, has_prefix, split}
use smtpd.Smtp.{Error}
use smtpd.Plugin.{Plugin, base_plugin}
use smtpd.Spf.{TxtAnswer, records, dns_error, other_error, refusal}
use smtpd.Plugin.Values.{SpfResult, pass, no_record, StoredSpfResult, Verification, Results}
use smtpd.Dmarc.Record.{DmarcRecord, parse_dmarc_record}

-- what a report tells of a message
pub record DmarcEvent : Type 0 where
  pub envelope_from : Bytes
  pub policy_domain : Bytes
  pub disposition : Bytes
  pub dkim_result : Bytes
  pub spf_result : Bytes
  pub policy : Bytes
  pub subdomain_policy : Bytes

-- the store of the events, with the world of the resolver
pub record Store (W : Type 0) : Type 0 where
  pub events : List DmarcEvent
  pub world : W

unfoldable pub add_event : {W : Type 0} → DmarcEvent → Store W → Store W
add_event e s = record s { events = s.events ++ e ∷ [] }

unfoldable pub clear : {W : Type 0} → Store W → Store W
clear s = record s { events = [] }

-- one domain against another: the same, or in relaxed alignment a subdomain of it
unfoldable pub aligned : Bytes → Bytes → Bytes → Bool
unfolding codes
aligned domain from_domain alignment =
    if bytes_eq alignment (codes "s")
    then equal_fold domain from_domain
    else equal_fold domain from_domain
      || has_suffix (to_lower domain) (codes "." ++ to_lower from_domain)

unfoldable pub check_spf_alignment : SpfResult → Bytes → Bytes → Bytes → Bool
unfolding aligned
check_spf_alignment pass spf_domain from_domain alignment =
    if is_empty spf_domain || is_empty from_domain
    then false
    else aligned spf_domain from_domain alignment
check_spf_alignment other spf_domain from_domain alignment = false

unfoldable pub any_aligned : List Verification → Bytes → Bytes → Bool
unfolding aligned
any_aligned [] from_domain alignment = false
any_aligned (v ∷ vs) from_domain alignment =
    (v.passed && (not (is_empty v.domain) && aligned v.domain from_domain alignment))
    || any_aligned vs from_domain alignment

unfoldable pub check_dkim_alignment : List Verification → Bytes → Bytes → Bool
unfolding any_aligned
check_dkim_alignment results from_domain alignment =
    if is_empty from_domain then false else any_aligned results from_domain alignment

-- the first record that begins as one of DMARC does
unfoldable pub find_record : List Bytes → Option DmarcRecord
unfolding parse_dmarc_record codes
find_record [] = none
find_record (r ∷ rs) =
    if has_prefix (to_lower r) (codes "v=dmarc1")
    then some (parse_dmarc_record r)
    else find_record rs

-- the domain of the From header's address
unfoldable pub from_domain_of : Bytes → Bytes
unfolding split
from_domain_of addr = elim (split b'@' addr) [ user ∷ host ∷ [] ↦ host | _ ↦ [] ]

abbrev pub spf_of : Option StoredSpfResult → StoredSpfResult
spf_of none = record { result = no_record; domain = [] }
spf_of (some s) = s

abbrev pub dkim_of : Option (List Verification) → List Verification
dkim_of none = []
dkim_of (some vs) = vs

unfoldable pub passes : DmarcRecord → Bytes → Results → Bool
unfolding check_spf_alignment check_dkim_alignment
passes policy from_domain r =
    check_spf_alignment (spf_of r.spf).result (spf_of r.spf).domain from_domain policy.spf_alignment
    || check_dkim_alignment (dkim_of r.dkim) from_domain policy.dkim_alignment

-- the policy, for a message that fails
unfoldable pub apply_policy : DmarcRecord → Bytes → Results → Option Error
unfolding passes codes
apply_policy policy from_domain r =
    if passes policy from_domain r
    then none
    else if bytes_eq policy.policy (codes "reject")
    then refusal 550 (codes "5.7.26")
        (codes "Message rejected due to DMARC policy for " ++ from_domain)
    else none

-- a domain without a record has no policy
unfoldable pub apply_record : Option DmarcRecord → Bytes → Results → Option Error
unfolding apply_policy
apply_record none from_domain r = none
apply_record (some policy) from_domain r = apply_policy policy from_domain r

unfoldable pub answer_lookup : TxtAnswer → Bytes → Results → Option Error
unfolding apply_record find_record codes
answer_lookup (records rs) from_domain r = apply_record (find_record rs) from_domain r
answer_lookup (dns_error true timeout temporary) from_domain r = none
answer_lookup (dns_error false timeout temporary) from_domain r =
    if timeout || temporary
    then refusal 451 (codes "4.4.3") (codes "Temporary error during DMARC DNS lookup")
    else refusal 451 (codes "4.4.3") (codes "Error resolving DMARC record")
answer_lookup other_error from_domain r =
    refusal 451 (codes "4.4.3") (codes "Error resolving DMARC record")

-- the event of a message: of what is reported, only the domain is ever set
unfoldable pub event_of : Bytes → Bytes → DmarcEvent
unfolding codes
event_of sender from_domain = record {
  envelope_from = sender;
  policy_domain = from_domain;
  disposition = codes "none";
  dkim_result = codes "fail";
  spf_result = codes "none";
  policy = [];
  subdomain_policy = [];
}

module _ {W : Type 0} (parse_from : Bytes → Option Bytes)
    (lookup_txt : Bytes → W → TxtAnswer × W) where
  unfoldable pub check_domain : Bytes → Results → W → Option Error × W
  unfolding answer_lookup codes
  check_domain from_domain r w =
      let (answer, w') = lookup_txt (codes "_dmarc." ++ from_domain) w in
      if is_empty from_domain then (none, w) else (answer_lookup answer from_domain r, w')

  -- what follows the parsing of the From header
  unfoldable pub check_address : Results → Bytes → Option Bytes → Store W → Option Error × Store W
  unfolding check_domain from_domain_of event_of add_event codes
  check_address r sender none s = (
    refusal 451 (codes "4.6.0") (codes "Error processing message headers for DMARC"),
    add_event (event_of sender []) s,
  )
  check_address r sender (some addr) s =
      let (e, w) = check_domain (from_domain_of addr) r s.world in
      (e, add_event (event_of sender (from_domain_of addr)) (record s { world = w }))

  -- `OnMessage`, with the results that its context holds
  unfoldable pub on_message : Results → Bytes → Bytes → Store W → Option Error × Store W
  unfolding check_address
  on_message r sender content s = check_address r sender (parse_from content) s

  unfoldable pub dmarc_checker : Plugin (Store W)
  unfolding base_plugin on_message
  dmarc_checker = record base_plugin {
    on_message = λ c i m s. on_message c.results m.sender m.content s;
  }
