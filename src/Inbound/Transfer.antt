-- ===== src/Inbound/Transfer.antt =====
-- pkg/inbound/server.go: DATA against RFC 5321's dot stuffing.
use smtpd.Prelude.{
  ℕ, suc, ◌≤◌, ◌≡◌, refl, true, false, some, List, [], ◌∷◌, ◌++◌, map, length, length-append,
  append_assoc, append-nil, All, arith,
}
use smtpd.Text.{Bytes, bytes_eq, has_prefix}
use smtpd.Session.Transfer.{stuff, joined}
use smtpd.Inbound.Data.{terminator, has_cr, well_framed, undot, read_body}

-- a line of a message that may be sent, with its CRLF
pub record IsSendable (line : Bytes) : Type 0 where
  pub framed : has_cr line ≡ true
  pub size : length line ≤ 1000

abbrev pub sent : List Bytes → List Bytes → List Bytes
sent body rest = map stuff body ++ terminator ∷ rest

stuff-ne-terminator : (l : Bytes) → bytes_eq (stuff l) terminator ≡ false
unfolding stuff bytes_eq terminator has_prefix
stuff-ne-terminator [] = refl
stuff-ne-terminator (c ∷ []) = ground arith
stuff-ne-terminator (c ∷ d ∷ l) = ground arith

undot-stuff : (l : Bytes) → undot (stuff l) ≡ l
unfolding stuff undot has_prefix
undot-stuff [] = refl
undot-stuff (c ∷ l) = ground arith

has_cr-stuff : (l : Bytes) → has_cr l ≡ true → has_cr (stuff l) ≡ true
unfolding stuff has_cr has_prefix
has_cr-stuff [] h = cc
has_cr-stuff (c ∷ []) h = cc
has_cr-stuff (c ∷ d ∷ l) h = ground arith

length-stuff : (l : Bytes) → length (stuff l) ≤ suc (length l)
unfolding stuff
length-stuff l = ground arith

stuff-IsFramed : (l : Bytes) → IsSendable l → well_framed 1001 (stuff l) ≡ true
unfolding well_framed
stuff-IsFramed l h = ground (arith, has_cr-stuff l h.framed, length-stuff l, h.size)

terminator-IsFramed : well_framed 1001 terminator ≡ true
unfolding well_framed terminator has_cr
terminator-IsFramed = refl

terminator_refl : bytes_eq terminator terminator ≡ true
unfolding bytes_eq terminator
terminator_refl = refl

read_body-sent :
    (max : ℕ) (buf : Bytes) (body rest : List Bytes)
    → All IsSendable body
    → length (buf ++ joined body) ≤ max
    → read_body max buf (sent body rest) ≡ (some (buf ++ joined body), rest)
unfolding read_body
read_body-sent max buf [] rest h fits = rw (terminator-IsFramed, terminator_refl, append-nil) refl
read_body-sent max buf (l ∷ body) rest h fits =
    rw (stuff-IsFramed l h.0, stuff-ne-terminator l, undot-stuff l)
      (ground (
        arith,
        h.0.size,
        length-append buf l,
        length-append (buf ++ l) (joined body),
        append_assoc buf l (joined body),
        read_body-sent max (buf ++ l) body rest h.1,
      ))

-- Whatever lines of at most 1000 bytes a client's message has, within the size limit, sent with dot
-- stuffing and the terminator: DATA reads back exactly their bytes, and leaves the lines after the
-- terminator, and only those, for the next command.
pub read_body-round_trip :
    (max : ℕ) (body rest : List Bytes)
    → All IsSendable body
    → length (joined body) ≤ max
    → read_body max [] (sent body rest) ≡ (some (joined body), rest)
read_body-round_trip max body rest h fits = read_body-sent max [] body rest h fits
