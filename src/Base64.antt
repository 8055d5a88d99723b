-- ===== src/Base64.antt =====
-- encoding/base64's StdEncoding.DecodeString, by which internal/base64 and the AUTH handlers decode.
use smtpd.Prelude.{
  ℕ, ◌+◌, ◌-◌, ◌*◌, ◌/◌, ◌%◌, ◌&&◌, ◌||◌, Option, none, some, [], ◌∷◌, ◌≡◌, refl, leb, ◌==◌,
  if◌then◌else◌,
}
use smtpd.Text.{Bytes, codes}

-- the value of a digit; `=` is none
unfoldable pub digit : ℕ → Option ℕ
digit c =
    if leb b'A' c && leb c b'Z'
    then some (c - b'A')
    else if leb b'a' c && leb c b'z'
    then some (c - b'a' + 26)
    else if leb b'0' c && leb c b'9'
    then some (c - b'0' + 52)
    else if c == b'+'
    then some 62
    else if c == b'/'
    then some 63
    else none

infixl 5 ◌>>=◌
abbrev ◌>>=◌ : {A B : Type 0} → Option A → (A → Option B) → Option B
none >>= f = none
some a >>= f = f a

-- the decoder skips line breaks anywhere
unfoldable pub strip_newlines : Bytes → Bytes
strip_newlines [] = []
strip_newlines (c ∷ s) =
    let rest = strip_newlines s in if c == 10 || c == 13 then rest else c ∷ rest

-- the last quantum, which may be padded: one byte, two bytes or three
unfoldable pub last_quantum : ℕ → ℕ → ℕ → ℕ → Option Bytes
unfolding digit
last_quantum a b c d =
    if c == b'=' && d == b'='
    then (do x ← digit a; y ← digit b; some ((x * 4 + y / 16) ∷ []))
    else if d == b'='
    then (do
      x ← digit a
      y ← digit b
      z ← digit c
      some ((x * 4 + y / 16) ∷ (y % 16 * 16 + z / 4) ∷ []))
    else do
      x ← digit a
      y ← digit b
      z ← digit c
      w ← digit d
      some ((x * 4 + y / 16) ∷ (y % 16 * 16 + z / 4) ∷ (z % 4 * 64 + w) ∷ [])

abbrev full_quantum : ℕ → ℕ → ℕ → ℕ → Option Bytes → Option Bytes
full_quantum a b c d rest = do
  x ← digit a
  y ← digit b
  z ← digit c
  w ← digit d
  s ← rest
  some ((x * 4 + y / 16) ∷ (y % 16 * 16 + z / 4) ∷ (z % 4 * 64 + w) ∷ s)

unfoldable pub decode_quanta : Bytes → Option Bytes
unfolding digit last_quantum
decode_quanta [] = some []
decode_quanta (a ∷ b ∷ c ∷ d ∷ []) = last_quantum a b c d
decode_quanta (a ∷ b ∷ c ∷ d ∷ e ∷ s) = full_quantum a b c d (decode_quanta (e ∷ s))
decode_quanta _ = none

-- Decode
unfoldable pub decode : Bytes → Option Bytes
unfolding strip_newlines decode_quanta
decode s = decode_quanta (strip_newlines s)

decode_prompt : decode (codes "VXNlcm5hbWU6") ≡ some (codes "Username:")
unfolding decode codes
decode_prompt = refl

decode_padded :
    decode (codes "AGFsaWNlAHB3\r\n")
    ≡ some (0 ∷ b'a' ∷ b'l' ∷ b'i' ∷ b'c' ∷ b'e' ∷ 0 ∷ b'p' ∷ b'w' ∷ [])
unfolding decode codes
decode_padded = refl

decode_short : decode (codes "YQ=") ≡ none
unfolding decode codes
decode_short = refl
