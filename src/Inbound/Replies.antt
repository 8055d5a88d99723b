-- ===== src/Inbound/Replies.antt =====
-- pkg/inbound/server.go: the replies that are not the acknowledgement of a message.
use smtpd.Prelude.{
  ℕ, zero, suc, ◌/◌, ◌≤◌, ◌<◌, ◌≡◌, refl, Bool, true, false, ◌&&◌, Option, none, some, [], ◌∷◌,
  ◌++◌, is_empty, ltb, arith, if◌then◌else◌, Bool-cases, inl, inr,
}
use smtpd.Text.{
  Bytes, codes, bytes_eq, eq_of_bytes_eq, has_prefix, has_suffix, split, trim_suffix, trim_prefix,
}
use smtpd.Smtp.{Error, SmtpError, as_smtp, decimal, decimal_from, error_text}
use smtpd.Inbound.Address.{valid_host, valid_label, is_alnum}
use smtpd.Inbound.State.{Receiver, reply_error, is_failure_code, is_safe_message}
use smtpd.Inbound.Commands.{greeting}

unfoldable pub acknowledgement : Bytes
unfolding codes
acknowledgement = codes "250 Message accepted"

-- a text is another reply
abbrev pub IsOther : Bytes → Type 0
IsOther msg = bytes_eq msg acknowledgement ≡ false

-- the first byte is the digit 4 or more
Fails : Bytes → Type 0
Fails [] = ⊥
Fails (c ∷ s) = 52 ≤ c

Fails-append : (s t : Bytes) → Fails s → Fails (s ++ t)
unfolding Fails
Fails-append [] t h = absurd h
Fails-append (c ∷ s) t h = h

Fails-IsOther : (s : Bytes) → Fails s → IsOther s
unfolding Fails bytes_eq acknowledgement
Fails-IsOther [] h = refl
Fails-IsOther (c ∷ s) h = ground arith

one_digit : (f n : ℕ) → 4 ≤ n → n < 10 → Fails (decimal_from f n)
unfolding decimal_from Fails
one_digit zero n h l = omega arith
one_digit (suc f) n h l = elim (Bool-cases (ltb n 10)) [
  | inl e ↦ rw e (omega arith)
  | inr e ↦ absurd (ground arith)
]

two_digits : (f n : ℕ) → 40 ≤ n → n < 100 → Fails (decimal_from (suc f) n)
unfolding decimal_from
two_digits f n h l = elim (Bool-cases (ltb n 10)) [
  | inl e ↦ absurd (ground arith)
  | inr e ↦ rw e (Fails-append _ _ (one_digit f (n / 10) (omega arith) (omega arith)))
]

three_digits : (f n : ℕ) → 400 ≤ n → n < 1000 → Fails (decimal_from (suc (suc f)) n)
unfolding decimal_from
three_digits f n h l = elim (Bool-cases (ltb n 10)) [
  | inl e ↦ absurd (ground arith)
  | inr e ↦ rw e (Fails-append _ _ (two_digits f (n / 10) (omega arith) (omega arith)))
]

decimal-Fails : (n : ℕ) → 400 ≤ n → n < 1000 → Fails (decimal n)
unfolding decimal
decimal-Fails zero h l = absurd (omega arith)
decimal-Fails (suc zero) h l = absurd (omega arith)
decimal-Fails (suc (suc f)) h l = three_digits f (suc (suc f)) h l

error_text-Fails : (e : SmtpError) → is_failure_code e.code ≡ true → Fails (error_text e)
unfolding error_text is_failure_code
error_text-Fails e h =
    let number = decimal-Fails e.code (ground arith) (ground arith) in
    elim (Bool-cases (is_empty e.enh_code)) [
      | inl i ↦ rw i (Fails-append (decimal e.code) _ number)
      | inr i ↦ rw i (Fails-append (decimal e.code) _ number)
    ]

local_failure : Fails (codes "451 Temporary local failure")
unfolding Fails codes
local_failure = omega arith

-- an error never reads as the acknowledgement, whatever its code and its text
reply_error-Fails : (e : Error) → Fails (reply_error e)
unfolding reply_error
reply_error-Fails e = reply (as_smtp e)
  where
    reply :
        (o : Option SmtpError)
        → Fails (elim o [
          | none ↦ codes "451 Temporary local failure"
          | some x ↦
              if is_failure_code x.code && is_safe_message x
              then error_text x
              else codes "451 Temporary local failure"
        ])
    reply none = local_failure
    reply (some x) = elim (Bool-cases (is_failure_code x.code)) [
      | inr e ↦ rw e local_failure
      | inl e ↦ elim (Bool-cases (is_safe_message x)) [
        | inl i ↦ rw (e, i) (error_text-Fails x e)
        | inr i ↦ rw (e, i) local_failure
      ]
    ]

pub reply_error-IsOther : (e : Error) → IsOther (reply_error e)
reply_error-IsOther e = Fails-IsOther (reply_error e) (reply_error-Fails e)

-- no valid host name has a space
misnamed : (parse_ip : Bytes → Bool) → valid_host parse_ip (codes "Message accepted") ≡ false
unfolding valid_host valid_label is_alnum codes has_prefix has_suffix split trim_suffix trim_prefix
misnamed parse_ip = refl

module _ {W : Type 0} (srv : Receiver W) where
  pub greeting-IsOther :
      (extended tls : Bool)
      → valid_host srv.parse_ip srv.hostname ≡ true
      → IsOther (greeting srv extended tls)
  unfolding greeting codes bytes_eq acknowledgement
  greeting-IsOther true tls h = refl
  greeting-IsOther false tls h =
      elim (Bool-cases (bytes_eq srv.hostname (codes "Message accepted"))) [
        | inr e ↦ e
        | inl e ↦
            let named = eq_of_bytes_eq srv.hostname (codes "Message accepted") e in
            let bad = misnamed srv.parse_ip in absurd (cc)
      ]
