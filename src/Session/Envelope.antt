-- ===== src/Session/Envelope.antt =====
-- session.go: `handleMail`, `handleRcpt`, `isValidEmail` and `isLocalRecipient`.
use smtpd.Prelude.{
  Bool, false, not, ◌&&◌, none, some, List, [], ◌∷◌, ◌++◌, length, any, ltb, if◌then◌else◌,
}
use smtpd.Text.{
  Bytes, codes, to_upper, equal_fold, has_prefix, trim_prefix, trim_space, trim_angles, contains,
  after_last,
}
use smtpd.Session.State.{
  at_rcpt, at_data, is_mail, is_rcpt, is_data, Config, Step, reset_transaction_state,
  write_response, session_info, context, policy_gate,
}

unfoldable pub is_valid_email : Bytes → Bool
is_valid_email addr = contains addr (codes "@") && ltb 2 (length addr)

-- the address of a command line: `prefix` is taken off where it stands in capitals
unfoldable pub address_of : Bytes → Bytes → Bytes
address_of prefix line = trim_angles (trim_space (trim_prefix line prefix))

unfoldable pub is_local_recipient : List Bytes → Bytes → Bool
is_local_recipient local_domains addr = elim (after_last b'@' addr) [
  | none ↦ false
  | some domain ↦ any (λ d. equal_fold domain d) local_domains
]

module _ {W : Type 0} (cfg : Config W) where
  -- the end of `handleMail`, once every plugin has accepted the sender
  unfoldable pub accept_sender : Bytes → Step W
  accept_sender sender s = write_response 250 (codes "OK") (record s {
    core = record s.core { sender = sender; state = at_rcpt; ctx_sender = some sender };
  })

  unfoldable pub check_sender : Bytes → Step W
  unfolding accept_sender
  check_sender sender s =
      if not (is_valid_email sender)
      then write_response 501 (codes "Invalid sender address format") s
      else policy_gate cfg
          (λ p. p.on_mail_from (context cfg (some sender)) (session_info cfg s) sender) 554
          (codes "Transaction failed (rejected by policy)") (accept_sender sender) s

  unfoldable pub handle_mail : Bytes → Step W
  unfolding check_sender
  handle_mail line s =
      let s' = record s { core = reset_transaction_state s.core } in
      if not (is_mail s.state)
      then write_response 503 (codes "Send HELO/EHLO first") s
      else if not (has_prefix (to_upper line) (codes "MAIL FROM:"))
      then write_response 501 (codes "Syntax error in MAIL command") s'
      else check_sender (address_of (codes "MAIL FROM:") line) s'

  -- the end of `handleRcpt`, once every plugin has accepted the recipient
  unfoldable pub accept_recipient : Bytes → Step W
  accept_recipient recipient s = write_response 250 (codes "OK") (record s {
    core = record s.core { recipients = s.recipients ++ recipient ∷ []; state = at_data };
  })

  unfoldable pub check_recipient : Bytes → Step W
  unfolding accept_recipient
  check_recipient recipient s =
      if not (is_valid_email recipient)
      then write_response 501 (codes "Invalid recipient address format") s
      else if not s.auth && not (is_local_recipient cfg.local_domains recipient)
      then write_response 550 (codes "Relaying denied") s
      else policy_gate cfg
          (λ p. p.on_rcpt_to (context cfg s.ctx_sender) (session_info cfg s) recipient) 550
          (codes "Requested action not taken: mailbox unavailable (rejected by policy)")
          (accept_recipient recipient) s

  unfoldable pub handle_rcpt : Bytes → Step W
  unfolding check_recipient
  handle_rcpt line s =
      if not (is_rcpt s.state) && not (is_data s.state)
      then write_response 503 (codes "Need MAIL command first") s
      else if not (has_prefix (to_upper line) (codes "RCPT TO:"))
      then write_response 501 (codes "Syntax error in RCPT command") s
      else check_recipient (address_of (codes "RCPT TO:") line) s
