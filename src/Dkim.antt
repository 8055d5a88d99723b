-- ===== src/Dkim.antt =====
-- internal/plugins/dkim/dkim.go: the check of a message's signatures. The verification is a parameter:
-- it answers the signatures, each with its error, or fails as a whole.
use smtpd.Prelude.{Bool, ◌⊎◌, inl, inr, Option, none, some, List, [], ◌∷◌, ◌++◌, if◌then◌else◌}
use smtpd.Text.{Bytes, codes}
use smtpd.Smtp.{Error}
use smtpd.Spf.{refusal}

-- an error of the library, with its text; `permanent` and `temporary` are dkim.IsPermFail and
-- dkim.IsTempFail
pub record DkimError : Type 0 where
  pub permanent : Bool
  pub temporary : Bool
  pub text : Bytes

pub record Verification : Type 0 where
  pub domain : Bytes
  pub error : Option DkimError

-- the first error, if no signature before the end of the list is valid; none when one is
unfoldable pub first_failure : Option DkimError → List Verification → Option (Option DkimError)
first_failure first [] = some first
first_failure first (v ∷ vs) = elim v.error [
  | none ↦ none
  | some e ↦ first_failure (elim first [ none ↦ some e | some f ↦ some f ]) vs
]

unfoldable pub reply_to_failure : Option DkimError → Option Error
unfolding codes
reply_to_failure none =
    refusal 451 (codes "4.7.0")
      (codes "DKIM check failed (temporary): no valid DKIM signatures found")
reply_to_failure (some e) =
    if e.permanent
    then refusal 550 (codes "5.7.24") (codes "DKIM check failed (permanent): " ++ e.text)
    else refusal 451 (codes "4.7.0") (codes "DKIM check failed (temporary): " ++ e.text)

-- `OnMessage`
unfoldable pub on_message : (Bytes → DkimError ⊎ List Verification) → Bytes → Option Error
unfolding first_failure reply_to_failure codes
on_message verify content = elim (verify content) [
  | inl e ↦
      if e.temporary
      then refusal 451 (codes "4.7.0") (codes "Temporary DKIM processing error: " ++ e.text)
      else refusal 451 (codes "4.7.0") (codes "DKIM processing error: " ++ e.text)
  | inr [] ↦ none
  | inr (v ∷ vs) ↦ (elim (first_failure none (v ∷ vs)) [
    | none ↦ none
    | some e ↦ reply_to_failure e
  ])
]
