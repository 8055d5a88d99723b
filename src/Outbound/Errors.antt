-- ===== src/Outbound/Errors.antt =====
-- pkg/outbound/deliverer.go: which errors of the network and of SMTP are temporary or permanent.
use smtpd.Prelude.{
  ◌⊎◌, inl, inr, Bool, false, ◌&&◌, ◌||◌, ◌++◌, Option, none, some, List, [], ◌∷◌, any,
  if◌then◌else◌,
}
use smtpd.Text.{Bytes, codes, contains, has_prefix, to_lower}

-- a *net.OpError in the chain of an error, with the text of the one that it wraps
pub record OpError : Type 0 where
  pub timeout : Bool
  pub text : Bytes

-- a *net.DNSError in the chain
pub record DnsError : Type 0 where
  pub is_temporary : Bool
  pub is_timeout : Bool

-- what `errors.Is`, `errors.As` and Error tell of an error
pub record Failure : Type 0 where
  pub deadline_exceeded : Bool
  pub canceled : Bool
  pub op : Option OpError
  pub dns : Option DnsError
  pub text : Bytes

-- fmt.Errorf with %w: the chain stays, the text grows in front
abbrev pub wrap : Bytes → Failure → Failure
wrap prefix e = record e { text = prefix ++ e.text }

-- errors.New and fmt.Errorf without an error
abbrev pub plain : Bytes → Failure
plain text = record {
  deadline_exceeded = false;
  canceled = false;
  op = none;
  dns = none;
  text = text;
}

abbrev pub temporary_codes : List Bytes
unfolding codes
temporary_codes =
    codes "421" ∷ codes "450" ∷ codes "451" ∷ codes "452" ∷ codes "454" ∷ codes "455" ∷ []

abbrev pub permanent_codes : List Bytes
unfolding codes
permanent_codes =
    codes "500"
    ∷ codes "501"
    ∷ codes "502"
    ∷ codes "503"
    ∷ codes "504"
    ∷ codes "521"
    ∷ codes "530"
    ∷ codes "541"
    ∷ codes "550"
    ∷ codes "551"
    ∷ codes "552"
    ∷ codes "553"
    ∷ codes "554"
    ∷ codes "555"
    ∷ codes "571"
    ∷ []

abbrev pub temporary_statuses : List Bytes
unfolding codes
temporary_statuses =
    codes "4.0."
    ∷ codes "4.1."
    ∷ codes "4.2."
    ∷ codes "4.3."
    ∷ codes "4.4."
    ∷ codes "4.5."
    ∷ codes "4.6."
    ∷ codes "4.7."
    ∷ []

abbrev pub permanent_statuses : List Bytes
unfolding codes
permanent_statuses =
    codes "5.0."
    ∷ codes "5.1."
    ∷ codes "5.2."
    ∷ codes "5.3."
    ∷ codes "5.4."
    ∷ codes "5.5."
    ∷ codes "5.6."
    ∷ codes "5.7."
    ∷ []

abbrev pub unreachable : List Bytes
unfolding codes
unreachable =
    codes "connection refused"
    ∷ codes "host is down"
    ∷ codes "network is unreachable"
    ∷ codes "no route to host"
    ∷ codes "connection reset by peer"
    ∷ []

abbrev pub temporary_phrases : List Bytes
unfolding codes
temporary_phrases =
    codes "temporary"
    ∷ codes "try again later"
    ∷ codes "greylisted"
    ∷ codes "retry"
    ∷ codes "timeout"
    ∷ codes "rate limit"
    ∷ codes "service unavailable"
    ∷ []

abbrev pub permanent_phrases : List Bytes
unfolding codes
permanent_phrases =
    codes "permanent"
    ∷ codes "rejected"
    ∷ codes "blocked"
    ∷ codes "spam"
    ∷ codes "denied"
    ∷ codes "banned"
    ∷ codes "blacklisted"
    ∷ []

-- a code within the text, after a space or a colon and a space, or at its start
unfoldable pub has_code : List Bytes → Bytes → Bool
unfolding codes
has_code cs text =
    any (λ prefix. any (λ code. contains text (prefix ++ code ++ codes " ")) cs)
      (codes " " ∷ codes ": " ∷ [])
    || any (λ code. has_prefix text (code ++ codes " ")) cs

unfoldable pub is_temporary_dns_error : Failure → Bool
is_temporary_dns_error e = elim e.dns [
  | some d ↦ d.is_temporary || d.is_timeout
  | none ↦ e.deadline_exceeded
]

abbrev pub op_timeout : Failure → Bool
op_timeout e = elim e.op [ some o ↦ o.timeout | none ↦ false ]

abbrev pub op_unreachable : Failure → Bool
op_unreachable e = elim e.op [ some o ↦ any (λ s. contains o.text s) unreachable | none ↦ false ]

unfoldable pub is_temporary_smtp_error : Failure → Bool
unfolding has_code
is_temporary_smtp_error e =
    e.deadline_exceeded
    || e.canceled
    || op_timeout e
    || op_unreachable e
    || has_code temporary_codes e.text
    || any (λ s. contains e.text s) temporary_statuses
    || any (λ s. contains (to_lower e.text) s) temporary_phrases

unfoldable pub is_permanent_smtp_error : Failure → Bool
unfolding has_code codes
is_permanent_smtp_error e =
    if e.deadline_exceeded || e.canceled || op_timeout e
    then false
    else has_code permanent_codes e.text
      || any (λ s. contains e.text s) permanent_statuses
      || any (λ s. contains (to_lower e.text) s) permanent_phrases
      || (contains (to_lower e.text) (codes "invalid")
          && contains (to_lower e.text) (codes "address"))

-- `if err != nil`, and what follows it
abbrev pub on_error {ℓ} : {A : Type ℓ} → Option Failure → (Failure → A) → A → A
on_error none handle rest = rest
on_error (some e) handle rest = handle e

-- the same for a call with another result
abbrev pub on_result {ℓ} : {A : Type 0} {B : Type ℓ} → Failure ⊎ A → (Failure → B) → (A → B) → B
on_result (inl e) handle rest = handle e
on_result (inr a) handle rest = rest a
