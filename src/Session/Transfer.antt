-- ===== src/Session/Transfer.antt =====
-- session.go: the message transfer of DATA against RFC 5321's dot stuffing.
use smtpd.Prelude.{
  ℕ, ◌≤◌, ◌≡◌, refl, true, false, List, [], ◌∷◌, ◌++◌, map, length, length-append, append_assoc,
  append-nil, leb, arith, if◌then◌else◌,
}
use smtpd.Text.{Bytes, bytes_eq, has_prefix}
use smtpd.Session.Data.{terminator, Transfer, complete, oversize, drain, unstuff, read_message}

-- What a client sends for a line of its message: a dot more where the line begins with one.
unfoldable pub stuff : Bytes → Bytes
stuff line = if has_prefix line (b'.' ∷ []) then b'.' ∷ line else line

abbrev pub joined : List Bytes → Bytes
joined [] = []
joined (l ∷ ls) = l ++ joined ls

stuff-ne-terminator : (l : Bytes) → bytes_eq (stuff l) terminator ≡ false
unfolding stuff bytes_eq terminator has_prefix
stuff-ne-terminator [] = refl
stuff-ne-terminator (c ∷ []) = ground arith
stuff-ne-terminator (c ∷ d ∷ l) = ground arith

unstuff-stuff : (l : Bytes) → unstuff (stuff l) ≡ l
unfolding stuff unstuff has_prefix
unstuff-stuff [] = refl
unstuff-stuff (c ∷ []) = ground arith
unstuff-stuff (c ∷ d ∷ l) = ground arith

abbrev pub sent : List Bytes → List Bytes → List Bytes
sent body rest = map stuff body ++ terminator ∷ rest

terminator_refl : bytes_eq terminator terminator ≡ true
unfolding bytes_eq terminator
terminator_refl = refl

drain-sent : (body rest : List Bytes) → drain (sent body rest) ≡ (oversize, rest)
unfolding drain
drain-sent [] rest = rw terminator_refl
drain-sent (l ∷ body) rest = rw (stuff-ne-terminator l) (drain-sent body rest)

abbrev outcome : ℕ → Bytes → Transfer
outcome max content = if leb (length content) max then complete content else oversize

read_message-sent :
    (max : ℕ) (buf : Bytes) (body rest : List Bytes)
    → length buf ≤ max
    → read_message max buf (sent body rest) ≡ (outcome max (buf ++ joined body), rest)
unfolding read_message
read_message-sent max buf [] rest h = rw terminator_refl (rw append-nil (ground arith))
read_message-sent max buf (l ∷ body) rest h =
    rw (stuff-ne-terminator l, unstuff-stuff l, drain-sent body rest)
      (ground (
        arith,
        length-append buf l,
        length-append (buf ++ l) (joined body),
        append_assoc buf l (joined body),
        read_message-sent max (buf ++ l) body rest,
      ))

-- Whatever lines a client's message has, sent with dot stuffing and the terminator, DATA reads back
-- exactly their bytes if they fit the limit and else finds the message oversize; either way the
-- lines after the terminator, and only those, are left for the next command.
pub read_message-round_trip :
    (max : ℕ) (body rest : List Bytes)
    → read_message max [] (sent body rest)
      ≡ (if leb (length (joined body)) max then complete (joined body) else oversize, rest)
read_message-round_trip max body rest = read_message-sent max [] body rest (omega arith)
