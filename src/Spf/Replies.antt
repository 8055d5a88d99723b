-- ===== src/Spf/Replies.antt =====
-- internal/plugins/spf/spf.go: which answers of DNS have a sender refused for good.
use smtpd.Prelude.{
  ℕ, ◌≡◌, refl, sym, ap, ◌∙◌, ◌⊎◌, inl, inr, Bool, true, false, Option, none, some, List, [], ◌∷◌,
  Bool-cases, arith,
}
use smtpd.Text.{Bytes, codes, bytes_eq}
use smtpd.Smtp.{Error, smtp, plain, wrap}
use smtpd.Spf.{
  TxtAnswer, records, dns_error, other_error, evaluate_spf, spf_records, reply_to, answer_records,
  answer_lookup, sender_domain, check_domain, on_mail_from,
}
use smtpd.Plugin.Values.{
  SpfResult, pass, fail, soft_fail, neutral, temp_error, perm_error, no_record,
}

-- the code of a reply
abbrev pub code_of : Option Error → ℕ
code_of none = 250
code_of (some (smtp e)) = e.code
code_of (some (plain t)) = 451
code_of (some (wrap t e)) = 451

module _ {N A : Type 0} (parse_cidr : Bytes → Option N) (contains : N → A → Bool)
    (is_v4 : A → Bool) where
  -- the domain has one SPF record, which says that the address may not send
  pub record IsForbidden (answer : TxtAnswer) (ip : A) : Type 0 where
    pub found : List Bytes
    pub answered : answer ≡ records found
    pub policy : Bytes
    pub only : spf_records found ≡ policy ∷ []
    pub verdict :
        (evaluate_spf parse_cidr contains is_v4 policy ip ≡ fail)
        ⊎ (evaluate_spf parse_cidr contains is_v4 policy ip ≡ perm_error)

  reply_to_refuses : (r : SpfResult) → code_of (reply_to r) ≡ 550 → (r ≡ fail) ⊎ (r ≡ perm_error)
  unfolding reply_to
  reply_to_refuses pass e = absurd (omega arith)
  reply_to_refuses fail e = inl refl
  reply_to_refuses soft_fail e = absurd (omega arith)
  reply_to_refuses neutral e = absurd (omega arith)
  reply_to_refuses temp_error e = absurd (omega arith)
  reply_to_refuses perm_error e = inr refl
  reply_to_refuses no_record e = absurd (omega arith)

  answer_records_refuses :
      (found rs : List Bytes) (ip : A)
      → spf_records found ≡ rs
      → code_of (answer_records parse_cidr contains is_v4 rs ip).0 ≡ 550
      → IsForbidden (records found) ip
  unfolding answer_records
  answer_records_refuses found [] ip f e = absurd (omega arith)
  answer_records_refuses found (r ∷ []) ip f e = record {
    found = found;
    answered = refl;
    policy = r;
    only = f;
    verdict = reply_to_refuses _ e;
  }
  answer_records_refuses found (r ∷ s ∷ rs) ip f e = absurd (omega arith)

  answer_lookup_refuses :
      (answer : TxtAnswer) (ip : A)
      → code_of (answer_lookup parse_cidr contains is_v4 answer ip).0 ≡ 550
      → IsForbidden answer ip
  unfolding answer_lookup
  answer_lookup_refuses (records found) ip e =
      answer_records_refuses found (spf_records found) ip refl e
  answer_lookup_refuses (dns_error true t m) ip e = absurd (omega arith)
  answer_lookup_refuses (dns_error false true m) ip e = absurd (omega arith)
  answer_lookup_refuses (dns_error false false true) ip e = absurd (omega arith)
  answer_lookup_refuses (dns_error false false false) ip e = absurd (omega arith)
  answer_lookup_refuses other_error ip e = absurd (omega arith)

  -- Whatever DNS answers, errors included: OnMailFrom refuses a sender with a 550 only if its domain
  -- has exactly one SPF record, and that evaluates to Fail or PermError for the client's address.
  pub on_mail_from_refuses :
      {W : Type 0} (lookup_txt : Bytes → W → TxtAnswer × W) (ip : A) (from domain : Bytes) (w : W)
      → sender_domain from ≡ some domain
      → code_of (on_mail_from parse_cidr contains is_v4 lookup_txt (some ip) from w).0 ≡ 550
      → IsForbidden (lookup_txt domain w).0 ip
  unfolding on_mail_from check_domain
  on_mail_from_refuses lookup_txt ip from domain w d e =
      let call = on_mail_from parse_cidr contains is_v4 lookup_txt (some ip) from w in
      elim (Bool-cases (bytes_eq from (codes "<>"))) [
        | inl b ↦ let accepted : code_of call.0 ≡ 250 = rw b refl in absurd (omega arith)
        | inr b ↦
            let same : call.0
                ≡ (answer_lookup parse_cidr contains is_v4 (lookup_txt domain w).0 ip).0 =
              rw (b, d) refl in
            answer_lookup_refuses (lookup_txt domain w).0 ip (sym (ap code_of same) ∙ e)
      ]
