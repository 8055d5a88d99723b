-- ===== src/Outbound/Tests.antt =====
-- A deliverer and a pool at work, and the theorems about them at concrete inputs.
use smtpd.Prelude.{
  ℕ, suc, ◌≡◌, inr, refl, Bool, true, none, some, List, [], ◌∷◌, pos, arith, ◌==◌, ltb,
  if◌then◌else◌,
}
use smtpd.Text.{Bytes, codes, split, to_lower, bytes_eq}
use smtpd.Table.{lookup}
use smtpd.Message.{Message}
use smtpd.Outbound.Errors.{Failure, plain}
use smtpd.Outbound.Deliver.{
  Environment, Deliverer, domain_of, group_recipients, deliver_to_domain, prepare_message_data,
}
use smtpd.Outbound.Deliver.Domains.{Selected, found, IsDistinct, group_recipients_lem}
use smtpd.Outbound.Deliver.Log.{Traced, logged}
use smtpd.Outbound.Deliver.Outcome.{Delivers, deliver_to_domain-Delivers}
use smtpd.Outbound.Client.{Net, SmtpClientConfig, SmtpClient, new_smtp_client, send, answered}
use smtpd.Outbound.Client.Greeting.{GreetsOnce, IsFailure, new_smtp_client_starttls}
use smtpd.Outbound.Client.Pool.{Call, get, release, shut}
use smtpd.Outbound.Client.Sending
use smtpd.Outbound.Client.Sending.{Follows, whole_plan, send-Dialogue}

abbrev rcpts : List Bytes
unfolding codes
rcpts = codes "a@x.org" ∷ codes "nobody" ∷ codes "b@Y.org" ∷ codes "c@X.org" ∷ []

groups_by_domain :
    group_recipients rcpts []
    ≡ (codes "x.org", codes "a@x.org" ∷ codes "c@X.org" ∷ [])
      ∷ (codes "y.org", codes "b@Y.org" ∷ [])
      ∷ []
unfolding group_recipients domain_of split to_lower bytes_eq codes
groups_by_domain = refl

group_recipients_lem_example :
    IsDistinct (group_recipients rcpts [])
    × ((domain : Bytes) → Selected domain rcpts (found (lookup domain (group_recipients rcpts []))))
group_recipients_lem_example = group_recipients_lem rcpts

abbrev refusal : Failure
unfolding codes
refusal = plain (codes "556 Domain does not accept mail")

-- every host has a client, and refuses with a code that the deliverer does not know
abbrev env : Environment ℕ Bytes
unfolding codes
env = record {
  lookup_mx = λ domain w. (inr (record { host = codes "mx.x.org."; pref = 10 } ∷ []), w);
  get_client = λ host w. (inr host, w);
  send = λ c sender to msg w. (some refusal, suc w);
  release_client = λ c w. w;
  sign = λ o msg w. (inr msg, w);
  record_status = λ what domain w. w;
}

abbrev deliverer : Deliverer
deliverer = record { local_domains = []; dkim_signers = []; helo_hostname = [] }

abbrev letter : Message
unfolding codes
letter = record {
  id = [];
  sender = codes "me";
  recipients = rcpts;
  content = [];
  created_at = 0;
  retry_count = 0;
  next_attempt_at = 0;
}

abbrev start : Traced ℕ Bytes
start = record { world = 0; events = [] }

deliver_to_domain-Delivers_example :
    (let found = (logged env).lookup_mx (codes "x.org") start in
      Delivers env deliverer letter
        (codes "x.org")
        rcpts
        (prepare_message_data (logged env) deliverer letter found.1).0
        found.0
        start
        (deliver_to_domain (logged env) deliverer letter (codes "x.org") rcpts start))
deliver_to_domain-Delivers_example =
    deliver_to_domain-Delivers env deliverer letter (codes "x.org") rcpts start

-- a host that offers STARTTLS; the state counts the greetings
abbrev net : Net ℕ Bytes Bytes
unfolding codes
net = record {
  dial = λ addr w. (inr addr, 0);
  new_client = λ conn host w. (inr host, w);
  close_conn = λ conn w. w;
  hello = λ k name w. (
    (if w == 0 then none else some (plain (codes "smtp: Hello called after other methods"))),
    suc w,
  );
  extension = λ k ext w. (true, w);
  start_tls = λ k name w. (none, w);
  reset = λ k w. (none, w);
  mail = λ k sender w. (none, w);
  rcpt = λ k addr w. (none, w);
  begin_data = λ k w. (none, w);
  write = λ k msg w. (none, w);
  end_data = λ k w. (none, w);
  quit = λ k w. (none, w);
  close = λ k w. (none, w);
}

net-GreetsOnce : GreetsOnce net
unfolding net
net-GreetsOnce = record {
  greeted = λ k w. ltb 0 w;
  hello_greets = λ k name w. ground arith;
  extension_keeps = λ k ext w g. g;
  start_tls_keeps = λ k name w g. g;
  hello_twice = λ k name w g e. absurd (ground (arith));
}

abbrev config : Bool → SmtpClientConfig
config tls = record {
  max_connections = pos 1;
  tls_enabled = tls;
  tls_config = none;
  helo_hostname = [];
}

new_smtp_client_starttls_example : IsFailure (new_smtp_client net (codes "mx") (config true) 0).0
unfolding net
new_smtp_client_starttls_example =
    new_smtp_client_starttls net net-GreetsOnce (config true) (codes "mx") 0 refl (λ k v. refl)

abbrev client : SmtpClient Bytes
unfolding codes
client = record { host = codes "mx"; client = some (codes "mx") }

-- the only client is given back twice, and the second call closes it, in its channel
abbrev calls : List Call
unfolding codes
calls = get (codes "mx") ∷ release 0 ∷ release 0 ∷ get (codes "mx") ∷ shut ∷ []

abbrev quiet : Sending.Traced ℕ
quiet = record { world = 0; exchanges = [] }

send-Dialogue_example :
    Follows
      (answered none)
      (whole_plan (codes "me") rcpts (codes "hi"))
      quiet
      (send (Sending.logged net) client (codes "me") rcpts (codes "hi") quiet)
unfolding client codes
send-Dialogue_example =
    send-Dialogue net (codes "mx") client (codes "me") rcpts (codes "hi") quiet refl
