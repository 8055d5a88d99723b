-- ===== src/Inbound/Sound/Data.antt =====
-- pkg/inbound/server.go: DATA, its slot and its acknowledgement.
use smtpd.Prelude.{
  ℕ, suc, ◌+◌, ◌≤◌, ◌<◌, ◌≡◌, refl, Bool, true, false, not, ◌||◌, Option, none, some, List, [], ◌∷◌,
  ◌++◌, length, length-append, All-append, is_empty, ltb, arith, Bool-cases, inl, inr,
}
use smtpd.Text.{Bytes, codes, bytes_eq}
use smtpd.Smtp.{Error}
use smtpd.Inbound.State.{Receiver, Session, reply_error, send}
use smtpd.Inbound.Data.{
  read_body, undot, well_framed, terminator, release, commit, and_reset, answer, deliver,
  finish_transfer, receive, with_slot, handle_data,
}
use smtpd.Inbound.Replies.{acknowledgement, reply_error-IsOther}
use smtpd.Inbound.Sound.{
  Keeps, Ends, IsAcceptable, Ends-if, Ends-next, Ends-return, Ends-say, Keeps-send,
  Keeps-acknowledge, Keeps-reset, acks,
}
use smtpd.Inbound.Sound.Changes.{with_world, release-Keeps, take-Keeps, with_input}

-- what is read fits, and no line is given back
Fits : ℕ → Option Bytes → Type 0
Fits max none = Unit {0}
Fits max (some content) = length content ≤ max

read_body-Fits :
    (max : ℕ) (buf : Bytes) (ls : List Bytes)
    → length buf ≤ max
    → Fits max (read_body max buf ls).0 × (length (read_body max buf ls).1 ≤ length ls)
unfolding read_body Fits
read_body-Fits max buf [] h = (tt, omega arith)
read_body-Fits max buf (l ∷ ls) h = elim (Bool-cases (not (well_framed 1001 l))) [
  | inl e ↦ rw e (tt, omega arith)
  | inr e ↦ elim (Bool-cases (bytes_eq l terminator)) [
    | inl t ↦ rw (e, t) (h, omega arith)
    | inr t ↦
        elim (Bool-cases (ltb 1000 (length (undot l)) || ltb max (length buf + length (undot l)))) [
          | inl o ↦ rw (e, t, o) (tt, omega arith)
          | inr o ↦
              rw (e, t, o)
                (let fits : length (buf ++ undot l) ≤ max =
                    ground (arith, length-append buf (undot l)) in
                  let (f, r) = read_body-Fits max (buf ++ undot l) ls fits in (f, omega (arith, r)))
        ]
  ]
]

-- a delivery has not been acknowledged
abbrev Unacknowledged : {W : Type 0} → Session W → Type 0
Unacknowledged s = acks s.conn.sent < length s.stored

module _ {W : Type 0} (srv : Receiver W) {n k : ℕ} where
  commit-Keeps :
      (content : Bytes) (s : Session W)
      → length content ≤ srv.limits.max_message_bytes
      → is_empty s.envelope.recipients ≡ false
      → Keeps srv n k s
      → Keeps srv n k (commit srv content s).1
        × ((commit srv content s).0 ≡ none → Unacknowledged (commit srv content s).1)
  unfolding commit
  commit-Keeps content s fits full h =
      let (e, w) = srv.backend.tx_err s.world in
      let (a, w') = srv.backend.accept s.envelope content w in
      let (x, w'') = srv.backend.tx_err w' in verdict e w a w' x w''
    where
      verdict :
          (e : Option Error) (w : W) (a : Option Error) (w' : W) (x : Option Error) (w'' : W)
          → let r : Option Error × Session W = elim e [
            | some y ↦ (some y, record s { world = w })
            | none ↦ (elim a [
              | some y ↦ (some y, record s { world = w' })
              | none ↦ (
                x,
                record s {
                  world = w'';
                  stored = s.stored ++ record { envelope = s.envelope; content = content } ∷ [];
                },
              )
            ])
          ] in
            Keeps srv n k r.1 × (r.0 ≡ none → acks (r.1).conn.sent < length (r.1).stored)
      verdict (some y) w a w' x w'' = (with_world srv w s h, λ e. cc)
      verdict none w (some y) w' x w'' = (with_world srv w' s h, λ e. cc)
      verdict none w none w' x w'' = (
        record {
          sound = record {
            balance = h.sound.balance;
            held = h.sound.held;
            recipients = h.sound.recipients;
            valid = h.sound.valid;
            stored = All-append (IsAcceptable srv) s.stored _ h.sound.stored (
              record {
                some_recipient = full;
                recipients = h.sound.recipients;
                valid = h.sound.valid;
                size = fits;
              },
              tt,
            );
            acknowledged = omega (
              arith,
              h.sound.acknowledged,
              length-append s.stored (record { envelope = s.envelope; content = content } ∷ []),
            );
          };
          begun = h.begun;
          left = h.left;
        },
        λ e. omega (
          arith,
          h.sound.acknowledged,
          length-append s.stored (record { envelope = s.envelope; content = content } ∷ []),
        ),
      )

  and_reset-Ends : (r : Bool × Session W) → Keeps srv n k r.1 → Ends srv n k (and_reset srv r)
  and_reset-Ends (true, s) h = Ends-next srv (Keeps-reset srv s h)
  and_reset-Ends (false, s) h = Ends-return srv h

  answer-Ends :
      (e : Option Error) (s : Session W)
      → Keeps srv n k s
      → (e ≡ none → Unacknowledged s)
      → Ends srv n k (answer srv e s)
  unfolding answer
  answer-Ends (some e) s h u =
      and_reset-Ends (send (reply_error e) s)
        (Keeps-send srv (reply_error e) s (reply_error-IsOther e) h)
  answer-Ends none s h u =
      and_reset-Ends (send (codes "250 Message accepted") s)
        (Keeps-acknowledge srv (codes "250 Message accepted") s (u refl) h)

module _ {W : Type 0} (srv : Receiver W) {n k : ℕ} where
  deliver-Ends :
      (content : Bytes) (s : Session W)
      → length content ≤ srv.limits.max_message_bytes
      → is_empty s.envelope.recipients ≡ false
      → Keeps srv (suc n) k s
      → Ends srv n k (deliver srv content s)
  unfolding deliver release
  deliver-Ends content s fits full h =
      let (e, s') = commit srv content s in
      let (c, u) = commit-Keeps srv content s fits full h in
      answer-Ends srv e (release srv s') (release-Keeps srv s' c) u

  finish_transfer-Ends :
      (body : Option Bytes) (s : Session W)
      → Fits srv.limits.max_message_bytes body
      → is_empty s.envelope.recipients ≡ false
      → Keeps srv (suc n) k s
      → Ends srv n k (finish_transfer srv body s)
  unfolding finish_transfer Fits codes bytes_eq acknowledgement
  finish_transfer-Ends none s fits full h = Ends-return srv (
      Keeps-send srv (codes "552 Message size or framing limit exceeded") (release srv s) refl
        (release-Keeps srv s h))
  finish_transfer-Ends (some content) s fits full h = deliver-Ends content s fits full h

module _ {W : Type 0} (srv : Receiver W) {n k : ℕ} where
  receive-Ends :
      (s : Session W)
      → is_empty s.envelope.recipients ≡ false
      → Keeps srv (suc n) k s
      → Ends srv n k (receive srv s)
  unfolding receive
  receive-Ends s full h =
      let max = srv.limits.max_message_bytes in
      let (body, rest) = read_body max [] s.conn.input in
      let (fits, fewer) = read_body-Fits max [] s.conn.input (omega arith) in
      finish_transfer-Ends srv body (record s { conn = record s.conn { input = rest } }) fits full
        (with_input srv rest s fewer h)

  with_slot-Ends :
      (s : Session W)
      → is_empty s.envelope.recipients ≡ false
      → Keeps srv n k s
      → Ends srv n k (with_slot srv s)
  unfolding with_slot codes bytes_eq acknowledgement send
  with_slot-Ends s full h =
      let r = send (codes "354 End with <CRLF>.<CRLF>") (record s { held = suc s.held }) in
      let answered =
        Keeps-send srv (codes "354 End with <CRLF>.<CRLF>") (record s { held = suc s.held }) refl
          (take-Keeps srv s h) in
      Ends-if srv r.0 (λ _. receive-Ends r.1 full answered)
        (λ _. Ends-return srv (release-Keeps srv r.1 answered))

  pub handle_data-Ends :
      (arg : Bytes) (s : Session W) → Keeps srv n k s → Ends srv n k (handle_data srv arg s)
  unfolding handle_data codes bytes_eq acknowledgement
  handle_data-Ends arg s h =
      let w = (srv.backend.take_slot s.world).1 in
      Ends-if srv (not (is_empty arg))
        (λ _. Ends-say srv (codes "501 Unexpected arguments") s refl h)
        λ _.
          Ends-if srv (not s.mail || is_empty s.envelope.recipients)
            (λ _. Ends-say srv (codes "503 Recipient required") s refl h)
            λ e.
              Ends-if srv (srv.backend.take_slot s.world).0
                (λ _. with_slot-Ends (record s { world = w }) (ground arith) (with_world srv w s h))
                (λ _.
                  Ends-say srv (codes "452 DATA capacity exceeded") (record s { world = w }) refl
                    (with_world srv w s h))
