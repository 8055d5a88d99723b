-- ===== src/Delivery/Tests.antt =====
-- A worker whose deliverer meets a host that refuses, and the theorem about it.
use smtpd.Prelude.{◌≡◌, refl, ℕ, suc, inl, inr, true, none, List, [], ◌∷◌, ltb}
use smtpd.Text.{Bytes, codes}
use smtpd.Message.{Message}
use smtpd.Outbound.Errors.{plain}
use smtpd.Outbound.Deliver.{Deliverer}
use smtpd.Outbound.Deliver
use smtpd.Retry.Worker.{message, process}
use smtpd.Retry.Worker
use smtpd.Delivery.{with_deliverer}

-- no host of any domain has a client
abbrev hosts : Deliver.Environment ℕ Bytes
unfolding codes
hosts = record {
  lookup_mx = λ domain w. (inr (record { host = codes "mx.x.org."; pref = 10 } ∷ []), w);
  get_client = λ host w. (inl (plain (codes "connection refused")), w);
  send = λ c sender to msg w. (none, w);
  release_client = λ c w. w;
  sign = λ o msg w. (inr msg, w);
  record_status = λ what domain w. w;
}

abbrev deliverer : Deliverer
deliverer = record { local_domains = []; dkim_signers = []; helo_hostname = [] }

abbrev letter : Message
unfolding codes
letter = record {
  id = [];
  sender = codes "me@y.org";
  recipients = codes "a@x.org" ∷ [];
  content = [];
  created_at = 0;
  retry_count = 0;
  next_attempt_at = 0;
}

-- one message, and then the end of the context; the state counts the calls
abbrev outer : Worker.Environment ℕ
unfolding letter
outer = record {
  dequeue = λ w. (message letter, suc w);
  requeue = λ m w. (true, w);
  deliver = λ m w. (Worker.success, w);
  now = λ w. (7, w);
  done = λ w. (ltb 1 w, suc w);
}

-- the goroutines run one after the other
abbrev together : List (ℕ → ℕ) → ℕ → ℕ
together [] w = w
together (t ∷ ts) w = together ts (t w)

-- no host could be reached, and the worker counts a delivery
counted_as_delivered :
    (process
      (with_deliverer outer hosts deliverer (λ gs. gs) together)
      3
      (record { world = 0; taken = []; fates = [] })).1.fates
    ≡ Worker.delivered letter ∷ []
unfolding process with_deliverer outer hosts letter
counted_as_delivered = refl
