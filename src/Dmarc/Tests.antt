-- ===== src/Dmarc/Tests.antt =====
-- A record, and the theorem about the plugin at a concrete message.
use smtpd.Prelude.{ℕ, ◌≡◌, refl, false, none, some, [], ◌∷◌}
use smtpd.Text.{
  Bytes, codes, split, split_n, to_lower, trim_space, bytes_eq, has_prefix, equal_fold, has_suffix,
}
use smtpd.Plugin.{Context, SessionInfo, MessageInfo}
use smtpd.Plugin.Values.{Results, pass}
use smtpd.Spf.Replies.{code_of}
use smtpd.Spf.{TxtAnswer, records}
use smtpd.Dmarc.{Store, aligned, find_record, from_domain_of, dmarc_checker, on_message}
use smtpd.Dmarc.Record.{parse_dmarc_record}
use smtpd.Dmarc.Policy.{IsRejected, dmarc_checker_refuses}

abbrev text : Bytes
unfolding codes
text = codes "v=DMARC1; p=Reject; adkim=s"

parses_tags : (parse_dmarc_record text).policy ≡ codes "reject"
unfolding codes text parse_dmarc_record split split_n to_lower trim_space bytes_eq
parses_tags = refl

-- relaxed alignment takes a subdomain, but not the organization's domain
parent_domain : aligned (codes "x.org") (codes "mail.x.org") (codes "r") ≡ false
unfolding codes aligned to_lower bytes_eq equal_fold has_suffix
parent_domain = refl

abbrev letter : MessageInfo
unfolding codes
letter = record { sender = codes "a@x.org"; recipients = []; content = codes "a@x.org" }

-- SPF passed, for a domain that is not aligned
abbrev mail : Results
unfolding codes
mail = record { spf = some (record { result = pass; domain = codes "lists.org" }); dkim = none }

abbrev context : Context
context = record { session_id = []; remote_addr = []; sender = none; results = mail }

abbrev info : SessionInfo
info = record {
  session_id = [];
  remote_addr = [];
  local_addr = [];
  is_tls = false;
  helo_domain = [];
}

abbrev published : Bytes → ℕ → TxtAnswer × ℕ
unfolding text
published name w = (records (text ∷ []), w)

abbrev start : Store ℕ
start = record { events = []; world = 0 }

refused :
    code_of
      ((dmarc_checker (λ content. some content) published).on_message context info letter start).0
    ≡ 550
unfolding codes letter published text from_domain_of split find_record has_prefix to_lower
    parse_dmarc_record split_n trim_space bytes_eq dmarc_checker on_message equal_fold has_suffix
refused = refl

dmarc_checker_refuses_example :
    IsRejected (λ content. some content) published context.results letter.content 0
dmarc_checker_refuses_example =
    dmarc_checker_refuses (λ content. some content) published context info letter start refused
