-- ===== src/Inbound/Address.antt =====
-- pkg/inbound/server.go: `validHost`, `path` and `mailPath`.
use smtpd.Prelude.{
  ℕ, suc, ◌+◌, ◌-◌, ◌*◌, ◌^◌, Bool, true, false, not, ◌&&◌, ◌||◌, Option, none, some, List, [], ◌∷◌,
  ◌++◌, length, drop, take, all, is_empty, ltb, leb, ◌==◌, if◌then◌else◌,
}
use smtpd.Text.{
  Bytes, codes, to_upper, has_prefix, has_suffix, trim_prefix, trim_suffix, contains, contains_byte,
  split, cut, fields,
}

unfoldable pub is_alnum : ℕ → Bool
is_alnum c =
    (leb b'a' c && leb c b'z') || ((leb b'A' c && leb c b'Z') || (leb b'0' c && leb c b'9'))

-- a label of a host name
unfoldable pub valid_label : Bytes → Bool
unfolding is_alnum
valid_label label =
    not (is_empty label)
    && (leb (length label) 63
        && (not (has_prefix label (b'-' ∷ []))
            && (not (has_suffix label (b'-' ∷ [])) && all (λ c. is_alnum c || c == b'-') label)))

-- the text between the first byte and the last
unfoldable pub inside : Bytes → Bytes
inside s = drop 1 (take (length s - 1) s)

-- what `path` and `mailPath` answer: the address, or the reply that refuses it
pub data MailPath : Type 0 where
  sender : Bytes → MailPath
  refused : Bytes → MailPath

-- the bytes that a local part may have
unfoldable pub is_local_byte : ℕ → Bool
unfolding is_alnum
is_local_byte c = is_alnum c || contains_byte c (codes "!#$%&'*+-/=?^_`{|}~.")

unfoldable pub count_byte : ℕ → Bytes → ℕ
count_byte b [] = 0
count_byte b (c ∷ s) = let n = count_byte b s in if c == b then suc n else n

unfoldable pub is_digit : ℕ → Bool
is_digit c = leb b'0' c && leb c b'9'

-- strconv.ParseUint(value, 10, 64) on digits: none when the value does not fit 64 bits
unfoldable pub parse_digits : ℕ → Bytes → ℕ
parse_digits n [] = n
parse_digits n (c ∷ s) = parse_digits (n * 10 + (c - b'0')) s

unfoldable pub parse_uint : Bytes → Option ℕ
unfolding parse_digits
parse_uint s = let n = parse_digits 0 s in if ltb n (2 ^ 64) then some n else none

-- `parse_ip` is net.ParseIP(s) != nil
module _ (parse_ip : Bytes → Bool) where
  unfoldable pub valid_host : Bytes → Bool
  unfolding valid_label inside
  valid_host s =
      if is_empty s || ltb 255 (length s)
      then false
      else if has_prefix s (b'[' ∷ []) && has_suffix s (b']' ∷ [])
      then parse_ip (trim_prefix (inside s) (codes "IPv6:"))
      else all valid_label (split b'.' (trim_suffix s (b'.' ∷ [])))

  -- the local part and the host of an address that is not empty
  unfoldable pub valid_local : Bytes → Bool
  unfolding is_local_byte
  valid_local a =
      not (is_empty a)
      && (not (has_prefix a (b'.' ∷ []))
          && (not (has_suffix a (b'.' ∷ []))
              && (not (contains a (b'.' ∷ b'.' ∷ [])) && all is_local_byte a)))

  unfoldable pub valid_mailbox : Bytes → Bool
  unfolding valid_host valid_local count_byte
  valid_mailbox v =
      let (a, b, found) = cut b'@' v in
      leb (length v) 254 && (count_byte b'@' v == 1 && (valid_local a && valid_host b))

  -- `path`; `empty` allows <>
  unfoldable pub path : Bytes → Bytes → Bool → Option Bytes
  unfolding valid_mailbox
  path arg prefix empty =
      let v = drop (length prefix + 2) (take (length arg - 1) arg) in
      if not (has_prefix (to_upper arg) (prefix ++ codes ":<")) || not (has_suffix arg (b'>' ∷ []))
      then none
      else if is_empty v
      then (if empty then some v else none)
      else if valid_mailbox v
      then some v
      else none

  -- the SIZE parameter, the only one that is accepted
  unfoldable pub check_size : ℕ → Bytes → Bytes → MailPath
  unfolding parse_uint is_digit
  check_size limit from value =
      if is_empty value || not (all is_digit value)
      then refused (codes "501 Invalid SIZE")
      else elim (parse_uint value) [
        | none ↦ refused (codes "552 Declared message size exceeds limit")
        | some size ↦
            if ltb limit size
            then refused (codes "552 Declared message size exceeds limit")
            else sender from
      ]

  unfoldable pub check_params : ℕ → Bytes → List Bytes → MailPath
  unfolding check_size
  check_params limit from (p ∷ []) =
      if has_prefix (to_upper p) (codes "SIZE=")
      then check_size limit from (drop 5 p)
      else refused (codes "555 Unsupported MAIL parameters")
  check_params limit from _ = refused (codes "555 Unsupported MAIL parameters")

  unfoldable pub check_tail : ℕ → Bytes → Bytes → MailPath
  unfolding check_params
  check_tail limit from tail =
      if is_empty tail
      then sender from
      else if not (has_prefix tail (32 ∷ []))
      then refused (codes "501 Invalid MAIL parameters")
      else check_params limit from (fields tail)

  unfoldable pub mail_path : Bytes → ℕ → MailPath
  unfolding check_tail
  mail_path arg limit =
      let (before, tail, found) = cut b'>' arg in
      if not found
      then refused (codes "501 Invalid sender")
      else elim (path (before ++ b'>' ∷ []) (codes "FROM") true) [
        | none ↦ refused (codes "501 Invalid sender")
        | some from ↦ check_tail limit from tail
      ]
