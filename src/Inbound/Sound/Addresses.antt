-- ===== src/Inbound/Sound/Addresses.antt =====
-- pkg/inbound/server.go: what `path` and `mailPath` answer.
use smtpd.Prelude.{
  ℕ, ◌≡◌, refl, Bool, true, false, not, ◌||◌, Option, none, some, List, [], ◌∷◌, ◌++◌, is_empty,
  all, drop, ltb, arith, if◌then◌else◌,
}
use smtpd.Text.{Bytes, codes, bytes_eq, has_prefix, to_upper, cut, fields}
use smtpd.Inbound.Address.{
  MailPath, sender, refused, valid_mailbox, path, mail_path, check_tail, check_params, check_size,
  parse_uint, is_digit,
}
use smtpd.Inbound.Replies.{IsOther, acknowledgement}

-- an address that `path` reads without leave for <> is a mailbox
pub path-IsMailbox :
    (parse_ip : Bytes → Bool) (arg prefix a : Bytes)
    → path parse_ip arg prefix false ≡ some a
    → valid_mailbox parse_ip a ≡ true
unfolding path
path-IsMailbox parse_ip arg prefix a h = ground arith

-- every refusal of `mail_path` is an error
abbrev pub Refuses : MailPath → Type 0
Refuses (refused msg) = IsOther msg
Refuses (sender a) = Unit {0}

Refuses-if : (b : Bool) (x y : MailPath) → Refuses x → Refuses y → Refuses (if b then x else y)
Refuses-if true x y hx hy = hx
Refuses-if false x y hx hy = hy

module _ (parse_ip : Bytes → Bool) (limit : ℕ) (from : Bytes) where
  check_size-Refuses : (value : Bytes) → Refuses (check_size parse_ip limit from value)
  unfolding check_size codes bytes_eq acknowledgement
  check_size-Refuses value =
      Refuses-if (is_empty value || not (all is_digit value)) _ _ refl (sized (parse_uint value))
    where
      sized :
          (o : Option ℕ)
          → Refuses (elim o [
            | none ↦ refused (codes "552 Declared message size exceeds limit")
            | some size ↦
                if ltb limit size
                then refused (codes "552 Declared message size exceeds limit")
                else sender from
          ])
      sized none = refl
      sized (some size) = Refuses-if (ltb limit size) _ _ refl tt

  check_params-Refuses : (ps : List Bytes) → Refuses (check_params parse_ip limit from ps)
  unfolding check_params codes bytes_eq acknowledgement
  check_params-Refuses [] = refl
  check_params-Refuses (p ∷ q ∷ ps) = refl
  check_params-Refuses (p ∷ []) =
      Refuses-if (has_prefix (to_upper p) (codes "SIZE=")) _ _ (check_size-Refuses (drop 5 p)) refl

  check_tail-Refuses : (tail : Bytes) → Refuses (check_tail parse_ip limit from tail)
  unfolding check_tail codes bytes_eq acknowledgement
  check_tail-Refuses tail =
      Refuses-if (is_empty tail) _ _ tt
        (Refuses-if (not (has_prefix tail (32 ∷ []))) _ _ refl (check_params-Refuses (fields tail)))

pub mail_path-Refuses :
    (parse_ip : Bytes → Bool) (arg : Bytes) (limit : ℕ) → Refuses (mail_path parse_ip arg limit)
unfolding mail_path codes bytes_eq acknowledgement
mail_path-Refuses parse_ip arg limit =
    let (before, tail, found) = cut b'>' arg in
    Refuses-if (not found) _ _ refl
      (parsed tail (path parse_ip (before ++ b'>' ∷ []) (codes "FROM") true))
  where
    parsed :
        (tail : Bytes) (o : Option Bytes)
        → Refuses (elim o [
          | none ↦ refused (codes "501 Invalid sender")
          | some from ↦ check_tail parse_ip limit from tail
        ])
    parsed tail none = refl
    parsed tail (some from) = check_tail-Refuses parse_ip limit from tail
