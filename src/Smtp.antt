-- ===== src/Smtp.antt =====
-- pkg/smtp/error.go: SMTP errors, and Go's error values as far as the handlers tell them apart.
use smtpd.Prelude.{
  ℕ, zero, suc, ◌+◌, ◌/◌, ◌%◌, Option, none, some, [], ◌∷◌, ◌++◌, is_empty, ltb, if◌then◌else◌,
}
use smtpd.Text.{Bytes}

-- fmt's %d; the fuel `n` bounds the number of digits
unfoldable pub decimal_from : ℕ → ℕ → Bytes
decimal_from zero n = (48 + n % 10) ∷ []
decimal_from (suc f) n =
    let rest = decimal_from f (n / 10) ++ (48 + n % 10) ∷ [] in
    if ltb n 10 then (48 + n) ∷ [] else rest

unfoldable pub decimal : ℕ → Bytes
unfolding decimal_from
decimal n = decimal_from n n

pub record SmtpError : Type 0 where
  pub code : ℕ
  pub enh_code : Bytes
  pub message : Bytes

-- `Error`, and `Message`, which returns the same text
unfoldable pub error_text : SmtpError → Bytes
unfolding decimal
error_text e =
    if is_empty e.enh_code
    then decimal e.code ++ 32 ∷ e.message
    else decimal e.code ++ 32 ∷ (e.enh_code ++ 32 ∷ e.message)

-- An `error`: an smtp.Error, another error with its text, or one that wraps an error by `%w`.
pub data Error : Type 0 where
  smtp : SmtpError → Error
  plain : Bytes → Error
  wrap : Bytes → Error → Error

-- `err.(smtp.Error)`: the error itself, not one that it wraps
unfoldable pub assert_smtp : Error → Option SmtpError
assert_smtp (smtp e) = some e
assert_smtp (plain t) = none
assert_smtp (wrap t e) = none

-- `errors.As(err, &e)`: the first smtp.Error of the chain
unfoldable pub as_smtp : Error → Option SmtpError
as_smtp (smtp e) = some e
as_smtp (plain t) = none
as_smtp (wrap t e) = as_smtp e
