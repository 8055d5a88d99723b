-- ===== src/Session/Lines.antt =====
-- session.go: the addresses that MAIL lines carry, in capitals and not.
use mathlib.Core.List.{reverse-append, reverse-reverse}
use smtpd.Prelude.{ℕ, ◌≡◌, ◌∙◌, refl, ap, Bool, true, false, [], ◌∷◌, ◌++◌, reverse, Option}
use smtpd.Text.{
  Bytes, codes, to_upper, has_prefix, trim_prefix, trim_by, trim_space, trim_angles, drop_while,
  is_space, is_angle,
}
use smtpd.Smtp.{Error}
use smtpd.Plugin.{Plugin, first_error}
use smtpd.Session.State.{at_mail, at_rcpt, Core, Session, Config, Step, write_response, policy_gate}
use smtpd.Session.Envelope.{is_valid_email, address_of, handle_mail, check_sender, accept_sender}

drop_while-stop : (p : ℕ → Bool) (c : ℕ) (s : Bytes) → p c ≡ false → drop_while p (c ∷ s) ≡ c ∷ s
unfolding drop_while
drop_while-stop p c s h = rw h

drop_while-skip :
    (p : ℕ → Bool) (c : ℕ) (s : Bytes) → p c ≡ true → drop_while p (c ∷ s) ≡ drop_while p s
unfolding drop_while
drop_while-skip p c s h = rw h

reverse-cons-reverse : (d : ℕ) (x : Bytes) → reverse (d ∷ reverse x) ≡ x ++ d ∷ []
reverse-cons-reverse d x =
    reverse-append (d ∷ []) (reverse x) ∙ ap (λ (y : Bytes). y ++ d ∷ []) (reverse-reverse x)

reverse-snoc : (x : Bytes) (d : ℕ) → reverse (x ++ d ∷ []) ≡ d ∷ reverse x
reverse-snoc x d = reverse-append x (d ∷ [])

-- a text between two bytes that stop the trimming is left alone
trim_by-stop :
    (p : ℕ → Bool) (c d : ℕ) (s : Bytes)
    → p c ≡ false
    → p d ≡ false
    → trim_by p ((c ∷ s) ++ d ∷ []) ≡ (c ∷ s) ++ d ∷ []
unfolding trim_by
trim_by-stop p c d s hc hd =
    ap (λ (y : Bytes). reverse (drop_while p (reverse y))) (drop_while-stop p c (s ++ d ∷ []) hc)
    ∙ ap (λ (y : Bytes). reverse (drop_while p y)) (reverse-snoc (c ∷ s) d)
    ∙ ap (λ (y : Bytes). reverse y) (drop_while-stop p d (reverse (c ∷ s)) hd)
    ∙ reverse-cons-reverse d (c ∷ s)

-- a byte to trim at the end goes, and what is before it stays
trim_by-end :
    (p : ℕ → Bool) (d : ℕ) (a : Bytes)
    → drop_while p (a ++ d ∷ []) ≡ a ++ d ∷ []
    → p d ≡ true
    → drop_while p (reverse a) ≡ reverse a
    → trim_by p (a ++ d ∷ []) ≡ a
unfolding trim_by
trim_by-end p d a hl hd hr =
    ap (λ (y : Bytes). reverse (drop_while p (reverse y))) hl
    ∙ ap (λ (y : Bytes). reverse (drop_while p y)) (reverse-snoc a d)
    ∙ ap (λ (y : Bytes). reverse y) (drop_while-skip p d (reverse a) hd ∙ hr)
    ∙ reverse-reverse a

trim_by-ends :
    (p : ℕ → Bool) (c d : ℕ) (a : Bytes)
    → p c ≡ true
    → p d ≡ true
    → drop_while p (a ++ d ∷ []) ≡ a ++ d ∷ []
    → drop_while p (reverse a) ≡ reverse a
    → trim_by p (c ∷ (a ++ d ∷ [])) ≡ a
unfolding trim_by
trim_by-ends p c d a hc hd hl hr =
    ap (λ (y : Bytes). reverse (drop_while p (reverse y))) (drop_while-skip p c (a ++ d ∷ []) hc)
    ∙ trim_by-end p d a hl hd hr

-- An address whose first and last bytes are no angle brackets.
pub record IsBare (a : Bytes) : Type 0 where
  pub first : ℕ
  pub inner : Bytes
  pub starts : a ≡ first ∷ inner
  pub opens : is_angle first ≡ false
  pub last : ℕ
  pub front : Bytes
  pub ends : a ≡ front ++ last ∷ []
  pub closes : is_angle last ≡ false

bare_left : (a : Bytes) (d : ℕ) → IsBare a → drop_while is_angle (a ++ d ∷ []) ≡ a ++ d ∷ []
bare_left a d h = rw h.starts (drop_while-stop is_angle h.first (h.inner ++ d ∷ []) h.opens)

bare_right :
    (x : Bytes) (d : ℕ)
    → is_angle d ≡ false
    → drop_while is_angle (reverse (x ++ d ∷ [])) ≡ reverse (x ++ d ∷ [])
bare_right x d h = rw (reverse-snoc x d) (drop_while-stop is_angle d (reverse x) h)

-- the two spellings of a MAIL line for the address `a`
abbrev pub mail_line : Bytes → Bytes
mail_line a = codes "MAIL FROM:<" ++ (a ++ b'>' ∷ [])

abbrev pub lower_mail_line : Bytes → Bytes
lower_mail_line a = codes "mail from:<" ++ (a ++ b'>' ∷ [])

address_of-mail_line : (a : Bytes) → IsBare a → address_of (codes "MAIL FROM:") (mail_line a) ≡ a
unfolding address_of trim_prefix codes has_prefix trim_space trim_angles
address_of-mail_line a h =
    ap (trim_by is_angle)
      (trim_by-stop is_space b'<' b'>' a (unfold is_space in refl) (unfold is_space in refl))
    ∙ trim_by-ends is_angle b'<' b'>' a (unfold is_angle in refl) (unfold is_angle in refl)
        (bare_left a b'>' h) (rw h.ends (bare_right h.front h.last h.closes))

address_of-lower_mail_line :
    (a : Bytes)
    → IsBare a
    → address_of (codes "MAIL FROM:") (lower_mail_line a) ≡ codes "mail from:<" ++ a
unfolding address_of trim_prefix codes has_prefix trim_space trim_angles
address_of-lower_mail_line a h =
    ap (trim_by is_angle) (
      trim_by-stop is_space b'm' b'>' (codes "ail from:<" ++ a) (unfold is_space in refl)
        (unfold is_space in refl))
    ∙ trim_by-end is_angle b'>' (codes "mail from:<" ++ a) refl (unfold is_angle in refl)
        (rw h.ends (bare_right (codes "mail from:<" ++ h.front) h.last h.closes))

module _ {W : Type 0} (cfg : Config W) (s : Session W) where
  unopposed :
      (hook : Plugin W → W → Option Error × W) (code : ℕ) (text : Bytes) (k : Step W)
      (t : Session W)
      → cfg.plugins ≡ []
      → policy_gate cfg hook code text k t ≡ k t
  unfolding policy_gate first_error
  unopposed hook code text k t quiet = rw (quiet, policy_gate) (rw (quiet, first_error))

  abbrev Opened : Bytes → Core → Type 0
  Opened a c = (c.sender ≡ a) × (c.state ≡ at_rcpt)

  check_sender_opens :
      (a : Bytes) (t : Session W)
      → cfg.plugins ≡ []
      → is_valid_email a ≡ true
      → Opened a (check_sender cfg a t).1.core
  unfolding check_sender accept_sender write_response
  check_sender_opens a t quiet valid = rw valid (rw (unopposed, quiet) (refl, refl))

  opens :
      (line a : Bytes)
      → s.state ≡ at_mail
      → has_prefix (to_upper line) (codes "MAIL FROM:") ≡ true
      → address_of (codes "MAIL FROM:") line ≡ a
      → cfg.plugins ≡ []
      → is_valid_email a ≡ true
      → Opened a (handle_mail cfg line s).1.core
  unfolding handle_mail
  opens line a mail prefix e quiet valid =
      rw mail (rw prefix (rw e (check_sender_opens a _ quiet valid)))

  -- With no plugin to object, MAIL FROM:<a> makes `a` the sender and opens the envelope.
  pub handle_mail_sender :
      (a : Bytes)
      → s.state ≡ at_mail
      → IsBare a
      → cfg.plugins ≡ []
      → is_valid_email a ≡ true
      → ((handle_mail cfg (mail_line a) s).1.sender ≡ a)
        × ((handle_mail cfg (mail_line a) s).1.state ≡ at_rcpt)
  handle_mail_sender a mail bare quiet valid =
      opens (mail_line a) a mail (unfold has_prefix to_upper codes in refl)
        (address_of-mail_line a bare) quiet valid

  -- The same line in small letters is accepted too, but its verb becomes a part of the sender.
  pub handle_mail_lower :
      (a : Bytes)
      → s.state ≡ at_mail
      → IsBare a
      → cfg.plugins ≡ []
      → is_valid_email (codes "mail from:<" ++ a) ≡ true
      → ((handle_mail cfg (lower_mail_line a) s).1.sender ≡ codes "mail from:<" ++ a)
        × ((handle_mail cfg (lower_mail_line a) s).1.state ≡ at_rcpt)
  handle_mail_lower a mail bare quiet valid =
      opens (lower_mail_line a) (codes "mail from:<" ++ a) mail
        (unfold has_prefix to_upper codes in refl) (address_of-lower_mail_line a bare) quiet valid
