-- ===== src/Session/Data.antt =====
-- session.go: `handleData` and `drainUntilDataTerminator`.
use smtpd.Prelude.{
  ℕ, suc, ◌+◌, not, List, [], ◌∷◌, ◌++◌, length, drop, is_empty, ltb, if◌then◌else◌,
}
use smtpd.Text.{Bytes, codes, bytes_eq, has_prefix}
use smtpd.Session.State.{
  at_mail, is_data, Message, Config, failed, Step, reset_transaction_state, write_response,
  and_then, set_deadline, session_info, context, policy_gate,
}

-- ".\r\n"
unfoldable pub terminator : Bytes
terminator = b'.' ∷ 13 ∷ 10 ∷ []

-- the loop that reads the message ended with it, with a message over the limit, or with a read error
pub data Transfer : Type 0 where
  complete : Bytes → Transfer
  oversize : Transfer
  broken : Transfer

-- `drainUntilDataTerminator`, with the lines that are left
unfoldable pub drain : List Bytes → Transfer × List Bytes
drain [] = (broken, [])
drain (l ∷ ls) = let rest = drain ls in if bytes_eq l terminator then (oversize, ls) else rest

-- a dot before a dot is taken off
unfoldable pub unstuff : Bytes → Bytes
unstuff line = if has_prefix line (b'.' ∷ b'.' ∷ []) then drop 1 line else line

unfoldable pub read_message : ℕ → Bytes → List Bytes → Transfer × List Bytes
read_message max buf [] = (broken, [])
read_message max buf (l ∷ ls) =
    let line = unstuff l in
    let rest = read_message max (buf ++ line) ls in
    if bytes_eq l terminator
    then (complete buf, ls)
    else if ltb max (length buf + length line)
    then drain ls
    else rest

module _ {W : Type 0} (cfg : Config W) where
  -- the end of `handleData`: the message is made and put into the queue
  unfoldable pub enqueue_message : Bytes → Step W
  enqueue_message content s =
      let msg : Message = record {
        id = cfg.new_id s.minted;
        sender = s.sender;
        recipients = s.recipients;
        content = content;
      } in
      let core' = record s.core { minted = suc s.minted } in
      if cfg.enqueue msg
      then write_response 250 (codes "OK: message queued") (record s {
        core =
            reset_transaction_state
              (record core' { state = at_mail; queued = s.queued ++ msg ∷ [] });
      })
      else write_response 451 (codes "Internal server error: Failed to queue message")
          (record s { core = core' })

  -- once the message is in: OnMessage with the message, then the queue
  unfoldable pub accept_message : Bytes → Step W
  unfolding enqueue_message
  accept_message content s =
      policy_gate cfg
        (λ p.
          p.on_message (context cfg s.ctx_sender) (session_info cfg s)
            (record { sender = s.sender; recipients = s.recipients; content = content }))
        554 (codes "Transaction failed (rejected by content policy)") (enqueue_message content) s

  unfoldable pub reject_oversize : Step W
  reject_oversize s =
      write_response 552 (codes "Message size exceeds fixed maximum message size")
        (record s { core = reset_transaction_state (record s.core { state = at_mail }) })

  unfoldable pub finish_transfer : Transfer → Step W
  unfolding accept_message reject_oversize
  finish_transfer (complete content) s = and_then set_deadline (accept_message content) s
  finish_transfer oversize s = reject_oversize s
  finish_transfer broken s = (failed, s)

  unfoldable pub receive : Step W
  unfolding finish_transfer
  receive s =
      let (t, rest) = read_message cfg.max_message_size [] s.conn.input in
      finish_transfer t (record s { conn = record s.conn { input = rest } })

  unfoldable pub handle_data : Step W
  unfolding receive
  handle_data s =
      if not (is_data s.state)
      then write_response 503 (codes "Need RCPT command first") s
      else if is_empty s.recipients
      then write_response 503 (codes "Need RCPT command first") s
      else policy_gate cfg (λ p. p.on_data (context cfg s.ctx_sender) (session_info cfg s)) 554
          (codes "Transaction failed (rejected before data transfer)")
          (and_then set_deadline
            (and_then (write_response 354 (codes "End data with <CR><LF>.<CR><LF>")) receive))
          s
