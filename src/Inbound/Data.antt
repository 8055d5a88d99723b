-- ===== src/Inbound/Data.antt =====
-- pkg/inbound/server.go: `readLine` and DATA in `session`.
use smtpd.Prelude.{
  ℕ, suc, ◌+◌, ◌-◌, Bool, false, not, ◌&&◌, ◌||◌, Option, none, some, List, [], ◌∷◌, ◌++◌, length,
  is_empty, ltb, leb, ◌==◌, if◌then◌else◌,
}
use smtpd.Text.{Bytes, codes, bytes_eq}
use smtpd.Smtp.{Error}
use smtpd.Inbound.State.{Receiver, Session, Control, next, return, reply_error, send, say, reset}

-- the byte before the last one is a carriage return; false for a line of one byte or none
unfoldable pub has_cr : Bytes → Bool
has_cr [] = false
has_cr (c ∷ []) = false
has_cr (c ∷ d ∷ []) = c == 13
has_cr (c ∷ d ∷ e ∷ s) = has_cr (d ∷ e ∷ s)

-- what `readLine` demands of a line; a line longer than the reader's 4096 bytes fails there too
unfoldable pub well_framed : ℕ → Bytes → Bool
unfolding has_cr
well_framed max line = leb (length line) max && has_cr line

-- ".\r\n"
unfoldable pub terminator : Bytes
terminator = b'.' ∷ 13 ∷ 10 ∷ []

-- a dot at the start of a line is taken off
unfoldable pub undot : Bytes → Bytes
undot [] = []
undot (c ∷ s) = if c == b'.' then s else c ∷ s

-- the loop that reads a message, with the lines that are left; none is its `failure`
unfoldable pub read_body : ℕ → Bytes → List Bytes → Option Bytes × List Bytes
read_body max buf [] = (none, [])
read_body max buf (l ∷ ls) =
    let b = undot l in
    let rest = read_body max (buf ++ b) ls in
    if not (well_framed 1001 l)
    then (none, ls)
    else if bytes_eq l terminator
    then (some buf, ls)
    else if ltb 1000 (length b) || ltb max (length buf + length b)
    then (none, ls)
    else rest

module _ {W : Type 0} (srv : Receiver W) where
  unfoldable pub release : Session W → Session W
  release s = record s { held = s.held - 1 }

  -- Accept, unless the context has ended, and the context once more after it
  unfoldable pub commit : Bytes → Session W → Option Error × Session W
  commit content s =
      let (e, w) = srv.backend.tx_err s.world in
      let (a, w') = srv.backend.accept s.envelope content w in
      let (x, w'') = srv.backend.tx_err w' in
      elim e [
        | some y ↦ (some y, record s { world = w })
        | none ↦ (elim a [
          | some y ↦ (some y, record s { world = w' })
          | none ↦ (
            x,
            record s {
              world = w'';
              stored = s.stored ++ record { envelope = s.envelope; content = content } ∷ [];
            },
          )
        ])
      ]

  abbrev pub and_reset : Bool × Session W → Control × Session W
  and_reset (ok, s) = if ok then (next, reset s) else (return, s)

  -- the reply to a message, and the reset unless it could not be sent
  unfoldable pub answer : Option Error → Session W → Control × Session W
  answer (some e) s = and_reset (send (reply_error e) s)
  answer none s = and_reset (send (codes "250 Message accepted") s)

  unfoldable pub deliver : Bytes → Session W → Control × Session W
  unfolding commit answer
  deliver content s = let (e, s') = commit content s in answer e (release s')

  unfoldable pub finish_transfer : Option Bytes → Session W → Control × Session W
  unfolding deliver
  finish_transfer none s =
      (return, (send (codes "552 Message size or framing limit exceeded") (release s)).1)
  finish_transfer (some content) s = deliver content s

  unfoldable pub receive : Session W → Control × Session W
  unfolding finish_transfer
  receive s =
      let (body, rest) = read_body srv.limits.max_message_bytes [] s.conn.input in
      finish_transfer body (record s { conn = record s.conn { input = rest } })

  -- with a slot of the DATA channel
  unfoldable pub with_slot : Session W → Control × Session W
  unfolding receive
  with_slot s =
      let (ok, s') = send (codes "354 End with <CRLF>.<CRLF>") (record s { held = suc s.held }) in
      if ok then receive s' else (return, release s')

  unfoldable pub handle_data : Bytes → Session W → Control × Session W
  unfolding with_slot
  handle_data arg s =
      let (free, w) = srv.backend.take_slot s.world in
      let s' = record s { world = w } in
      if not (is_empty arg)
      then say (codes "501 Unexpected arguments") s
      else if not s.mail || is_empty s.envelope.recipients
      then say (codes "503 Recipient required") s
      else if free
      then with_slot s'
      else say (codes "452 DATA capacity exceeded") s'
