-- ===== src/Spf/Tests.antt =====
-- The check of two domains, and the theorems about it at concrete inputs. An address is a number, and
-- a network a list of them.
use smtpd.Prelude.{
  ℕ, ◌≡◌, refl, Bool, true, Option, none, some, List, [], ◌∷◌, any, ◌==◌, if◌then◌else◌,
}
use smtpd.Text.{
  Bytes, codes, contains_byte, bytes_eq, split, has_prefix, to_lower, trim_prefix, fields,
}
use smtpd.Spf.{
  TxtAnswer, records, refusal, qualify, spf_records, evaluate_spf, sender_domain, on_mail_from,
}
use smtpd.Plugin.Values.{perm_error}
use smtpd.Spf.Mechanisms.{on_mail_from_unsupported}
use smtpd.Spf.Replies.{IsForbidden, on_mail_from_refuses}

-- net.ParseCIDR wants a prefix length
abbrev parse_cidr : Bytes → Option (List ℕ)
unfolding contains_byte
parse_cidr s = if contains_byte b'/' s then some (1 ∷ 2 ∷ []) else none

abbrev within : List ℕ → ℕ → Bool
within n ip = any (λ a. a == ip) n

abbrev v4 : ℕ → Bool
v4 ip = true

abbrev record_of : Bytes → ℕ → TxtAnswer × ℕ
unfolding codes
record_of domain w = (records (codes "v=spf1 include:_spf.google.com -all" ∷ []), w)

-- an address without a prefix length is taken for an error, and the mail is refused
ip4_address : evaluate_spf parse_cidr within v4 (codes "v=spf1 ip4:192.0.2.1 -all") 1 ≡ perm_error
unfolding evaluate_spf parse_cidr codes contains_byte fields trim_prefix to_lower has_prefix
ip4_address = refl

on_mail_from_unsupported_example :
    (on_mail_from parse_cidr within v4 record_of (some 1) (codes "me@x.org") 0).0
    ≡ refusal 550 (codes "5.7.23") (codes "Message rejected due to SPF policy")
unfolding record_of codes bytes_eq split sender_domain spf_records has_prefix to_lower trim_prefix
    fields qualify
on_mail_from_unsupported_example =
    on_mail_from_unsupported parse_cidr within v4 record_of 1 (codes "me@x.org") (codes "x.org")
      (codes "v=spf1 include:_spf.google.com -all") (codes "include:_spf.google.com" ∷ []) []
      (codes "v=spf1 include:_spf.google.com -all" ∷ []) 0 refl refl refl refl refl
      (record { not_ip4 = refl; not_ip6 = refl; not_all = refl }, tt)

on_mail_from_refuses_example : IsForbidden parse_cidr within v4 (record_of (codes "x.org") 0).0 1
unfolding codes split sender_domain on_mail_from bytes_eq has_prefix to_lower fields trim_prefix
on_mail_from_refuses_example =
    on_mail_from_refuses parse_cidr within v4 record_of 1 (codes "me@x.org") (codes "x.org") 0 refl
      refl
