-- ===== src/Tokens/Claims.antt =====
-- internal/auth/jwt.go: what a token that is accepted claims.
use smtpd.Prelude.{ℕ, ◌≡◌, refl, inr, true, Option, none, some, [], ◌∷◌, arith}
use smtpd.Text.{Bytes}
use smtpd.Tokens.{
  MapClaims, JwtAuthenticator, issued, addressed, unexpired, subject_of, check_claims, check_parsed,
  authenticate_token,
}

-- a token of the issuer for the audience, which has not expired and names the subject
pub record IsEntitled (j : JwtAuthenticator) (now : ℕ) (c : MapClaims) (name : Bytes) : Type 0 where
  pub from_issuer : issued j c ≡ true
  pub for_audience : addressed j c ≡ true
  pub in_time : unexpired now c ≡ true
  pub named : c.subject ≡ some name

named_subject : (o : Option Bytes) (name : Bytes) → subject_of o ≡ inr name → o ≡ some name
unfolding subject_of
named_subject none name e = absurd cc
named_subject (some []) name e = absurd cc
named_subject (some (b ∷ rest)) name e = cc

check_claims-IsEntitled :
    (j : JwtAuthenticator) (now : ℕ) (c : MapClaims) (name : Bytes)
    → check_claims j now c ≡ inr name
    → IsEntitled j now c name
unfolding check_claims
check_claims-IsEntitled j now c name e =
    let last : subject_of c.subject ≡ inr name = ground (arith, e) in
    record {
      from_issuer = ground (arith, e);
      for_audience = ground (arith, e);
      in_time = ground (arith, e);
      named = named_subject c.subject name last;
    }

check_parsed-IsEntitled :
    (j : JwtAuthenticator) (now : ℕ) (o : Option MapClaims) (name : Bytes)
    → check_parsed j now o ≡ inr name
    → (c : MapClaims) × (o ≡ some c) × IsEntitled j now c name
unfolding check_parsed
check_parsed-IsEntitled j now none name e = absurd cc
check_parsed-IsEntitled j now (some c) name e = (c, refl, check_claims-IsEntitled j now c name e)

-- A token is accepted only if the library finds it valid, and it is of the issuer, for the audience,
-- not expired, and names the user that is answered.
pub authenticate_token-IsEntitled :
    (parse : Bytes → Option MapClaims) (j : JwtAuthenticator) (now : ℕ) (token name : Bytes)
    → authenticate_token parse j now token ≡ inr name
    → (c : MapClaims) × (parse token ≡ some c) × IsEntitled j now c name
unfolding authenticate_token
authenticate_token-IsEntitled parse j now token name e =
    check_parsed-IsEntitled j now (parse token) name e
