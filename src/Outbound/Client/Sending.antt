-- ===== src/Outbound/Client/Sending.antt =====
-- pkg/outbound/smtp_client.go: the dialogue that Send holds with a host.
use smtpd.Prelude.{
  ◌≡◌, ◌≢◌, refl, ap, ◌∙◌, Option, none, some, Option-cases, inl, inr, List, [], ◌∷◌, ◌++◌, map,
  append_assoc,
}
use smtpd.Text.{Bytes}
use smtpd.Outbound.Errors.{Failure, on_error}
use smtpd.Outbound.Client.{
  Net, SmtpClient, Sent, answered, deadlock, send_rcpts, send_data, send_envelope, send_with, send,
}

-- the commands of a transaction; the message is written and then ended
pub data Command : Type 0 where
  rset : Command
  mail_from : Bytes → Command
  rcpt_to : Bytes → Command
  data_begins : Command
  text : Bytes → Command
  data_ends : Command

-- a command with its answer
abbrev pub Exchange : Type 0
Exchange = Command × Option Failure

pub record Traced (W : Type 0) : Type 0 where
  pub world : W
  pub exchanges : List Exchange

module _ {W : Type 0} where
  abbrev tell : Command → (W → Option Failure × W) → Traced W → Option Failure × Traced W
  tell c f s =
      let (r, w) = f s.world in (r, record { world = w; exchanges = s.exchanges ++ (c, r) ∷ [] })

  abbrev pass_on : {A : Type 0} → (W → A × W) → Traced W → A × Traced W
  pass_on f s = let (r, w) = f s.world in (r, record s { world = w })

-- the network, where each command of a transaction adds itself to the log
abbrev pub logged : {W N K : Type 0} → Net W N K → Net (Traced W) N K
logged net = record {
  dial = λ addr. pass_on (net.dial addr);
  new_client = λ conn host. pass_on (net.new_client conn host);
  close_conn = λ conn s. record s { world = net.close_conn conn s.world };
  hello = λ k name. pass_on (net.hello k name);
  extension = λ k name. pass_on (net.extension k name);
  start_tls = λ k name. pass_on (net.start_tls k name);
  reset = λ k. tell rset (net.reset k);
  mail = λ k sender. tell (mail_from sender) (net.mail k sender);
  rcpt = λ k addr. tell (rcpt_to addr) (net.rcpt k addr);
  begin_data = λ k. tell data_begins (net.begin_data k);
  write = λ k msg. tell (text msg) (net.write k msg);
  end_data = λ k. tell data_ends (net.end_data k);
  quit = λ k. pass_on (net.quit k);
  close = λ k. pass_on (net.close k);
}

-- `Dialogue fine plan exchanges answer`: the commands of the plan are sent in their order, up to the
-- first that is refused; the answer is `fine` if and only if all of them were accepted
pub data Dialogue {A : Type 0} (fine : A) : List Command → List Exchange → A → Type 0 where
  accepted : Dialogue fine [] [] fine
  goes_on :
      {plan : List Command} {es : List Exchange} {a : A} (c : Command)
      → Dialogue fine plan es a
      → Dialogue fine (c ∷ plan) ((c, none) ∷ es) a
  refused :
      {plan : List Command} {a : A} (c : Command) (x : Failure)
      → a ≢ fine
      → Dialogue fine (c ∷ plan) ((c, some x) ∷ []) a
  -- a message that cannot be written is ended all the same
  broken :
      {a : A} (msg : Bytes) (x : Failure) (o : Option Failure)
      → a ≢ fine
      → Dialogue fine (text msg ∷ data_ends ∷ []) ((text msg, some x) ∷ (data_ends, o) ∷ []) a

-- what a part of Send adds to the log
pub record Follows {W A : Type 0} (fine : A) (plan : List Command) (s : Traced W) (r : A × Traced W)
    : Type 0 where
  pub made : List Exchange
  pub record_of : r.1.exchanges ≡ s.exchanges ++ made
  pub dialogue : Dialogue fine plan made r.0

module _ {W : Type 0} where
  after :
      {A : Type 0} (fine : A) (c : Command) (plan : List Command) (s s' : Traced W)
      (r : A × Traced W)
      → s'.exchanges ≡ s.exchanges ++ (c, none) ∷ []
      → Follows fine plan s' r
      → Follows fine (c ∷ plan) s r
  after fine c plan s s' r e k = record {
    made = (c, none) ∷ k.made;
    record_of =
        k.record_of ∙ ap (λ x. x ++ k.made) e ∙ append_assoc s.exchanges ((c, none) ∷ []) k.made;
    dialogue = goes_on c k.dialogue;
  }

failed_is : (x : Failure) → some x ≢ none
failed_is x e = absurd cc

as_option : Sent → Option Failure
as_option (answered r) = r
as_option deadlock = none

answered_is : (r : Option Failure) → r ≢ none → answered r ≢ answered none
unfolding as_option
answered_is r h e = h (ap as_option e)

answered-Dialogue :
    (plan : List Command) (es : List Exchange) (r : Option Failure)
    → Dialogue none plan es r
    → Dialogue (answered none) plan es (answered r)
answered-Dialogue plan es r accepted = accepted
answered-Dialogue plan es r (goes_on {plan = rest} {es = fs} c d) =
    goes_on c (answered-Dialogue rest fs r d)
answered-Dialogue plan es r (refused c x n) = refused c x (answered_is r n)
answered-Dialogue plan es r (broken msg x o n) = broken msg x o (answered_is r n)

deadlock_is : deadlock ≢ answered none
deadlock_is e = absurd cc

abbrev pub whole_plan : Bytes → List Bytes → Bytes → List Command
whole_plan sender rcpts msg =
    rset ∷ mail_from sender ∷ map rcpt_to rcpts ++ data_begins ∷ text msg ∷ data_ends ∷ []

module _ {W N K : Type 0} (net : Net W N K) (k : K) where
  abbrev data_plan : Bytes → List Command
  data_plan msg = data_begins ∷ text msg ∷ data_ends ∷ []

  send_data-Follows :
      (msg : Bytes) (s : Traced W) → Follows none (data_plan msg) s (send_data (logged net) k msg s)
  unfolding send_data
  send_data-Follows msg s =
      let begun = net.begin_data k s.world in
      let put = net.write k msg begun.1 in
      let ended = net.end_data k put.1 in
      elim (Option-cases begun.0) [
        | inr (x, e) ↦ rw e (record {
          made = (data_begins, some x) ∷ [];
          record_of = refl;
          dialogue = refused data_begins x (failed_is _);
        })
        | inl e ↦ elim (Option-cases put.0) [
          | inr (x, f) ↦
              rw (e, f)
                (record {
                  made = (data_begins, none) ∷ (text msg, some x) ∷ (data_ends, ended.0) ∷ [];
                  record_of = three s.exchanges _ _ _;
                  dialogue = goes_on data_begins (broken msg x ended.0 (failed_is _));
                })
          | inl f ↦ elim (Option-cases ended.0) [
            | inr (x, g) ↦
                rw (e, f, g)
                  (record {
                    made = (data_begins, none) ∷ (text msg, none) ∷ (data_ends, some x) ∷ [];
                    record_of = three s.exchanges _ _ _;
                    dialogue =
                        goes_on data_begins
                          (goes_on (text msg) (refused data_ends x (failed_is _)));
                  })
            | inl g ↦
                rw (e, f, g)
                  (record {
                    made = (data_begins, none) ∷ (text msg, none) ∷ (data_ends, none) ∷ [];
                    record_of = three s.exchanges _ _ _;
                    dialogue =
                        goes_on data_begins (goes_on (text msg) (goes_on data_ends accepted));
                  })
          ]
        ]
      ]
    where
      three :
          (es : List Exchange) (a b c : Exchange)
          → ((es ++ a ∷ []) ++ b ∷ []) ++ c ∷ [] ≡ es ++ a ∷ b ∷ c ∷ []
      three es a b c =
          append_assoc (es ++ a ∷ []) (b ∷ []) (c ∷ []) ∙ append_assoc es (a ∷ []) (b ∷ c ∷ [])

  -- the recipients, and what follows them
  abbrev named : Bytes → Option Failure × Traced W → Option Failure × Traced W
  named msg r = on_error r.0 (λ x. (some x, r.1)) (send_data (logged net) k msg r.1)

  send_rcpts-Follows :
      (rcpts : List Bytes) (msg : Bytes) (s : Traced W)
      → Follows none
          (map rcpt_to rcpts ++ data_plan msg)
          s
          (named msg (send_rcpts (logged net) k rcpts s))
  unfolding send_rcpts
  send_rcpts-Follows [] msg s = send_data-Follows msg s
  send_rcpts-Follows (addr ∷ rcpts) msg s =
      let sent = net.rcpt k addr s.world in
      elim (Option-cases sent.0) [
        | inr (x, e) ↦ rw e (record {
          made = (rcpt_to addr, some x) ∷ [];
          record_of = refl;
          dialogue = refused (rcpt_to addr) x (failed_is _);
        })
        | inl e ↦
            let s' : Traced W = record {
              world = sent.1;
              exchanges = s.exchanges ++ (rcpt_to addr, none) ∷ [];
            } in
            rw e (after none (rcpt_to addr) _ s s' _ refl (send_rcpts-Follows rcpts msg s'))
      ]

  send_envelope-Follows :
      (sender : Bytes) (rcpts : List Bytes) (msg : Bytes) (s : Traced W)
      → Follows none
          (mail_from sender ∷ map rcpt_to rcpts ++ data_plan msg)
          s
          (send_envelope (logged net) k sender rcpts msg s)
  unfolding send_envelope
  send_envelope-Follows sender rcpts msg s =
      let sent = net.mail k sender s.world in
      elim (Option-cases sent.0) [
        | inr (x, e) ↦ rw e (record {
          made = (mail_from sender, some x) ∷ [];
          record_of = refl;
          dialogue = refused (mail_from sender) x (failed_is _);
        })
        | inl e ↦
            let s' : Traced W = record {
              world = sent.1;
              exchanges = s.exchanges ++ (mail_from sender, none) ∷ [];
            } in
            rw e (after none (mail_from sender) _ s s' _ refl (send_rcpts-Follows rcpts msg s'))
      ]

  send_with-Follows :
      (sender : Bytes) (rcpts : List Bytes) (msg : Bytes) (s : Traced W)
      → Follows
          (answered none)
          (whole_plan sender rcpts msg)
          s
          (send_with (logged net) (some k) sender rcpts msg s)
  unfolding send_with
  send_with-Follows sender rcpts msg s =
      let sent = net.reset k s.world in
      elim (Option-cases sent.0) [
        | inr (x, e) ↦ rw e (record {
          made = (rset, some x) ∷ [];
          record_of = refl;
          dialogue = refused rset x deadlock_is;
        })
        | inl e ↦
            let s' : Traced W = record {
              world = sent.1;
              exchanges = s.exchanges ++ (rset, none) ∷ [];
            } in
            let rest = send_envelope-Follows sender rcpts msg s' in
            rw e (
              after (answered none) rset _ s s' _ refl (record {
                made = rest.made;
                record_of = rest.record_of;
                dialogue = answered-Dialogue _ rest.made _ rest.dialogue;
              }))
      ]

  -- Whatever the host answers: Send through a client that is open sends RSET, MAIL, RCPT for each
  -- recipient in its order, DATA, the message and its end, up to the first that is refused and no
  -- command after that, but that a message that cannot be written is ended all the same; and it
  -- answers nil if and only if all were accepted. One recipient that is refused keeps the message
  -- from all of them.
  pub send-Dialogue :
      (c : SmtpClient K) (sender : Bytes) (rcpts : List Bytes) (msg : Bytes) (s : Traced W)
      → c.client ≡ some k
      → Follows
          (answered none)
          (whole_plan sender rcpts msg)
          s
          (send (logged net) c sender rcpts msg s)
  unfolding send
  send-Dialogue c sender rcpts msg s e = rw e (send_with-Follows sender rcpts msg s)
