-- ===== src/Spf/Mechanisms.antt =====
-- internal/plugins/spf/spf.go: the mechanisms that evaluateSPF does not know.
use smtpd.Prelude.{◌≡◌, refl, Bool, false, Option, some, List, [], ◌∷◌, ◌++◌}
use smtpd.Text.{Bytes, codes, to_lower, has_prefix, trim_prefix, bytes_eq, fields}
use smtpd.Spf.{
  TxtAnswer, records, refusal, matched, passed_over, qualify, judge, conclude, evaluate_parts,
  evaluate_spf, spf_records, reply_to, answer_records, answer_lookup, sender_domain, check_domain,
  on_mail_from,
}
use smtpd.Plugin.Values.{fail}

-- a term of another mechanism than ip4, ip6 and all, such as include, a or mx
pub record IsUnsupported (part : Bytes) : Type 0 where
  pub not_ip4 : has_prefix (qualify part).1 (codes "ip4:") ≡ false
  pub not_ip6 : has_prefix (qualify part).1 (codes "ip6:") ≡ false
  pub not_all : bytes_eq (qualify part).1 (codes "all") ≡ false

abbrev pub AllUnsupported : List Bytes → Type 0
AllUnsupported [] = Unit {0}
AllUnsupported (p ∷ ps) = IsUnsupported p × AllUnsupported ps

module _ {N A : Type 0} (parse_cidr : Bytes → Option N) (contains : N → A → Bool)
    (is_v4 : A → Bool) where
  judge_unsupported :
      (ip : A) (part : Bytes)
      → IsUnsupported part
      → judge parse_cidr contains is_v4 ip part ≡ passed_over
  unfolding judge
  judge_unsupported ip part k = rw (k.not_ip4, k.not_ip6, k.not_all) refl

  judge_all : (ip : A) → judge parse_cidr contains is_v4 ip (codes "-all") ≡ matched fail
  unfolding judge qualify has_prefix bytes_eq codes
  judge_all ip = refl

  evaluate_unsupported :
      (ip : A) (parts rest : List Bytes)
      → AllUnsupported parts
      → evaluate_parts parse_cidr contains is_v4 ip (parts ++ codes "-all" ∷ rest) ≡ fail
  unfolding evaluate_parts conclude
  evaluate_unsupported ip [] rest k = rw (judge_all ip) refl
  evaluate_unsupported ip (p ∷ parts) rest k =
      rw (judge_unsupported ip p k.0) (evaluate_unsupported ip parts rest k.1)

  -- A domain that says by include, a or mx where its mail comes from has all of it refused: if its
  -- only SPF record has terms that evaluateSPF does not know and then -all, OnMailFrom refuses the
  -- sender for good, from whatever address the client connects.
  pub on_mail_from_unsupported :
      {W : Type 0} (lookup_txt : Bytes → W → TxtAnswer × W) (ip : A) (from domain rec : Bytes)
      (parts rest all : List Bytes) (w : W)
      → bytes_eq from (codes "<>") ≡ false
      → sender_domain from ≡ some domain
      → (lookup_txt domain w).0 ≡ records all
      → spf_records all ≡ rec ∷ []
      → fields (trim_prefix (to_lower rec) (codes "v=spf1 ")) ≡ parts ++ codes "-all" ∷ rest
      → AllUnsupported parts
      → (on_mail_from parse_cidr contains is_v4 lookup_txt (some ip) from w).0
        ≡ refusal 550 (codes "5.7.23") (codes "Message rejected due to SPF policy")
  unfolding on_mail_from check_domain answer_lookup answer_records evaluate_spf reply_to
  on_mail_from_unsupported lookup_txt ip from domain rec parts rest all w f d l one terms k =
      rw (f, d, l, one, terms, evaluate_unsupported ip parts rest k) refl
