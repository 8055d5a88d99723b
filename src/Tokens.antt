-- ===== src/Tokens.antt =====
-- internal/auth/jwt.go: the check of a token. The parser of the JWT library, with its signatures and
-- its clock, is a parameter.
pub mod Claims
use smtpd.Prelude.{
  ℕ, ◌⊎◌, inl, inr, Bool, true, false, not, Option, none, some, List, [], ◌∷◌, any, is_empty, ltb,
  if◌then◌else◌,
}
use smtpd.Text.{Bytes, bytes_eq}

-- the claims of a token; none where the library answers an error or nothing
pub record MapClaims : Type 0 where
  pub issuer : Option Bytes
  pub audience : Option (List Bytes)
  pub expires_at : Option ℕ
  pub subject : Option Bytes

pub data TokenError : Type 0 where
  token_expired token_invalid invalid_issuer invalid_aud : TokenError

pub record JwtAuthenticator : Type 0 where
  pub issuer : Bytes
  pub audience : Bytes

unfoldable pub issued : JwtAuthenticator → MapClaims → Bool
issued j c = elim c.issuer [ some i ↦ bytes_eq i j.issuer | none ↦ false ]

unfoldable pub addressed : JwtAuthenticator → MapClaims → Bool
addressed j c = elim c.audience [
  | some names ↦ any (λ a. bytes_eq a j.audience) names
  | none ↦ false
]

unfoldable pub unexpired : ℕ → MapClaims → Bool
unexpired now c = elim c.expires_at [ some t ↦ not (ltb t now) | none ↦ false ]

unfoldable pub subject_of : Option Bytes → TokenError ⊎ Bytes
subject_of none = inl token_invalid
subject_of (some []) = inl token_invalid
subject_of (some (b ∷ name)) = inr (b ∷ name)

unfoldable pub check_claims : JwtAuthenticator → ℕ → MapClaims → TokenError ⊎ Bytes
unfolding issued addressed unexpired subject_of
check_claims j now c =
    if not (issued j c)
    then inl invalid_issuer
    else if not (addressed j c)
    then inl invalid_aud
    else if not (unexpired now c)
    then inl token_expired
    else subject_of c.subject

-- `AuthenticateToken`; `parse` answers the claims of a token that is valid
unfoldable pub check_parsed : JwtAuthenticator → ℕ → Option MapClaims → TokenError ⊎ Bytes
unfolding check_claims
check_parsed j now none = inl token_invalid
check_parsed j now (some c) = check_claims j now c

unfoldable pub authenticate_token :
    (Bytes → Option MapClaims) → JwtAuthenticator → ℕ → Bytes → TokenError ⊎ Bytes
unfolding check_parsed
authenticate_token parse j now token = check_parsed j now (parse token)
