-- ===== src/Outbound/Deliver/Outcome.antt =====
-- pkg/outbound/deliverer.go: the outcome of deliverToDomain.
use smtpd.Prelude.{
  ◌≡◌, refl, ap, ◌∙◌, ◌⊎◌, inl, inr, true, false, Option, none, some, List, [], ◌∷◌, ◌++◌,
  Bool-cases,
}
use smtpd.Text.{Bytes}
use smtpd.Message.{Message}
use smtpd.Outbound.Errors.{Failure, is_temporary_dns_error}
use smtpd.Outbound.Deliver.{
  Mx, Environment, Deliverer, mx_lookup_temp_failed, mx_lookup_perm_failed, no_mx_records,
  use_hosts, prepare_message_data, deliver_to_domain,
}
use smtpd.Outbound.Deliver.Log.{Event, status, Traced, logged, events-prepare_message_data}
use smtpd.Outbound.Deliver.Hosts.{Course, try_hosts-Follows}

-- what follows the answer of LookupMX
pub data Outcome {C : Type 0} (domain sender : Bytes) (rcpts : List Bytes) (content : Bytes)
    : Failure ⊎ List Mx → List (Event C) → Option Failure → Type 0 where
  unknown_for_now :
      (e f : Failure)
      → is_temporary_dns_error e ≡ true
      → Outcome domain sender rcpts content
          (inl e)
          (status mx_lookup_temp_failed domain ∷ [])
          (some f)
  unknown :
      (e f : Failure)
      → is_temporary_dns_error e ≡ false
      → Outcome domain sender rcpts content
          (inl e)
          (status mx_lookup_perm_failed domain ∷ [])
          (some f)
  no_hosts :
      (f : Failure)
      → Outcome domain sender rcpts content (inr []) (status no_mx_records domain ∷ []) (some f)
  tried :
      {mx : Mx} {hosts : List Mx} {es : List (Event C)} {o : Option Failure}
      → Course domain sender rcpts content (mx ∷ hosts) es o
      → Outcome domain sender rcpts content (inr (mx ∷ hosts)) es o

module _ {W C : Type 0} (env : Environment W C) (d : Deliverer) (msg : Message) where
  -- the calls that a delivery makes from `s` on
  pub record Delivers (domain : Bytes) (rcpts : List Bytes) (content : Bytes)
      (answer : Failure ⊎ List Mx) (s : Traced W C) (r : Option Failure × Traced W C) : Type 0 where
    pub made : List (Event C)
    pub record_of : r.1.events ≡ s.events ++ made
    pub outcome : Outcome domain msg.sender rcpts content answer made r.0

  use_hosts-Delivers :
      (domain : Bytes) (rcpts : List Bytes) (answer : Failure ⊎ List Mx) (s : Traced W C)
      → Delivers domain rcpts
          (prepare_message_data (logged env) d msg s).0
          answer
          s
          (use_hosts (logged env) d msg domain rcpts answer s)
  unfolding use_hosts
  use_hosts-Delivers domain rcpts (inl e) s = elim (Bool-cases (is_temporary_dns_error e)) [
    | inl t ↦ rw t (record { made = _; record_of = refl; outcome = unknown_for_now e _ t })
    | inr t ↦ rw t (record { made = _; record_of = refl; outcome = unknown e _ t })
  ]
  use_hosts-Delivers domain rcpts (inr []) s = record {
    made = _;
    record_of = refl;
    outcome = no_hosts _;
  }
  use_hosts-Delivers domain rcpts (inr (mx ∷ hosts)) s =
      let p = prepare_message_data (logged env) d msg s in
      let k = try_hosts-Follows env d msg domain rcpts p.0 (mx ∷ hosts) none p.1 in
      record {
        made = k.made;
        record_of = k.record_of ∙ ap (λ es. es ++ k.made) (events-prepare_message_data env d msg s);
        outcome = tried k.course;
      }

  -- Whatever DNS, the pool, the hosts and the signer answer, the calls that deliverToDomain makes of
  -- the pool, its clients and the recorder are these: the hosts are tried in the order that LookupMX
  -- gives; GetClient is asked once for each, and a client that it gives gets one Send, of the
  -- message's sender, the domain's recipients and the prepared data, and is given back at once; a
  -- host without a client, and one that refuses for good, is followed by the next, and one that
  -- refuses for now by none. The delivery ends with one status, and its answer is nil if and only if
  -- that status is delivered, after a Send that answered nil or an error that is neither temporary
  -- nor permanent.
  pub deliver_to_domain-Delivers :
      (domain : Bytes) (rcpts : List Bytes) (s : Traced W C)
      → (let found = (logged env).lookup_mx domain s in
          Delivers domain rcpts
            (prepare_message_data (logged env) d msg found.1).0
            found.0
            s
            (deliver_to_domain (logged env) d msg domain rcpts s))
  unfolding deliver_to_domain
  deliver_to_domain-Delivers domain rcpts s =
      let found = (logged env).lookup_mx domain s in
      let k = use_hosts-Delivers domain rcpts found.0 found.1 in
      record { made = k.made; record_of = k.record_of; outcome = k.outcome }
