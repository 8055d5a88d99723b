-- ===== src/Outbound/Deliver.antt =====
-- pkg/outbound/deliverer.go: `Deliverer`. What running the goroutines of Deliver concurrently, one for
-- each domain, makes of the world is a parameter, and so is the order in which Go's maps are walked.
pub mod Addresses
pub mod Domains
pub mod Hosts
pub mod Log
pub mod Outcome
use smtpd.Prelude.{
  ℕ, ◌⊎◌, inl, inr, Bool, true, false, not, ◌||◌, ◌&&◌, Option, none, some, List, [], ◌∷◌, ◌++◌,
  map, length, any, ◌==◌, if◌then◌else◌,
}
use smtpd.Text.{Bytes, codes, to_lower, trim_space, trim_suffix, bytes_eq, equal_fold, split}
use smtpd.Table.{lookup}
use smtpd.Message.{Message}
use smtpd.Outbound.Errors.{
  Failure, wrap, plain, is_temporary_dns_error, is_temporary_smtp_error, is_permanent_smtp_error,
}

-- net.MX
pub record Mx : Type 0 where
  pub host : Bytes
  pub pref : ℕ

-- a signer of the package's own, or one that the caller gives
pub data Signer : Type 0 where
  default_signer : Signer
  custom : ℕ → Signer

pub record DkimSignerOptions : Type 0 where
  pub domain : Bytes
  pub selector : Bytes
  pub private_key : Option Bytes
  pub signer : Option Signer

-- the statuses that are recorded for a domain
pub data Status : Type 0 where
  mx_lookup_temp_failed mx_lookup_perm_failed no_mx_records : Status
  delivery_temp_failed delivery_perm_failed_mx delivery_perm_failed_domain : Status
  delivered : Status

-- `C` is the type of clients; the recorder is one of package metrics
pub record Environment (W C : Type 0) : Type 0 where
  pub lookup_mx : Bytes → W → (Failure ⊎ List Mx) × W
  pub get_client : Bytes → W → (Failure ⊎ C) × W
  pub send : C → Bytes → List Bytes → Bytes → W → Option Failure × W
  pub release_client : C → W → W
  pub sign : DkimSignerOptions → Bytes → W → (Failure ⊎ Bytes) × W
  pub record_status : Status → Bytes → W → W

pub record Deliverer : Type 0 where
  pub local_domains : List Bytes
  pub dkim_signers : List (Bytes × DkimSignerOptions)
  pub helo_hostname : Bytes

-- a signer's options as they are kept, none for those that are skipped
unfoldable pub valid_signer : Bytes → DkimSignerOptions → Option DkimSignerOptions
valid_signer domain opts =
    let o = if equal_fold domain opts.domain then opts else record opts { domain = domain } in
    elim o.private_key [
      | some k ↦ elim o.signer [
        | some s ↦ some o
        | none ↦ some (record o { signer = some default_signer })
      ]
      | none ↦ elim o.signer [ some s ↦ some o | none ↦ none ]
    ]

-- the configurations stand in the reverse of the order in which the map is walked, since of two
-- with one key the last stays
unfoldable pub valid_signers : List (Bytes × DkimSignerOptions) → List (Bytes × DkimSignerOptions)
unfolding valid_signer
valid_signers [] = []
valid_signers ((domain, opts) ∷ cs) = elim (valid_signer domain opts) [
  | some o ↦ (to_lower domain, o) ∷ valid_signers cs
  | none ↦ valid_signers cs
]

-- `NewDeliverer`: the dependencies that may be missing, the name of the host (none when the
-- operating system has none), the domains and the signers in the order of the map
unfoldable pub new_deliverer :
    Bool
    → Bool
    → Option Bytes
    → List Bytes
    → List (Bytes × DkimSignerOptions)
    → Bytes
    → Failure ⊎ Deliverer
unfolding valid_signers
new_deliverer has_resolver has_pool os_hostname local_domains dkim_configs helo_name =
    let os : Bytes = elim os_hostname [
      | some h ↦ if length h == 0 then codes "localhost" else h
      | none ↦ codes "localhost"
    ] in
    if not has_resolver
    then inl (plain (codes "resolver cannot be nil"))
    else if not has_pool
    then inl (plain (codes "clientPool cannot be nil"))
    else inr (record {
      local_domains = map (λ d. to_lower (trim_space d)) local_domains;
      dkim_signers = valid_signers dkim_configs;
      helo_hostname = if length helo_name == 0 then os else helo_name;
    })

unfoldable pub is_local : Deliverer → Bytes → Bool
is_local d domain = any (λ l. bytes_eq l (to_lower domain)) d.local_domains

-- two parts, none of them empty
unfoldable pub domain_of_parts : List Bytes → Option Bytes
domain_of_parts ((b ∷ user) ∷ (c ∷ host) ∷ []) = some (to_lower (c ∷ host))
domain_of_parts _ = none

-- the domain of an address that Deliver takes
unfoldable pub domain_of : Bytes → Option Bytes
unfolding split domain_of_parts
domain_of rcpt = domain_of_parts (split b'@' rcpt)

-- domainRecipients[domain] = append(domainRecipients[domain], rcpt)
unfoldable pub add_recipient : Bytes → Bytes → List (Bytes × List Bytes) → List (Bytes × List Bytes)
add_recipient domain rcpt [] = (domain, rcpt ∷ []) ∷ []
add_recipient domain rcpt ((d, rs) ∷ groups) =
    if bytes_eq d domain
    then (d, rs ++ rcpt ∷ []) ∷ groups
    else (d, rs) ∷ add_recipient domain rcpt groups

-- an address without a domain is skipped
unfoldable pub place : Option Bytes → Bytes → List (Bytes × List Bytes) → List (Bytes × List Bytes)
unfolding add_recipient
place none rcpt groups = groups
place (some domain) rcpt groups = add_recipient domain rcpt groups

unfoldable pub group_recipients : List Bytes → List (Bytes × List Bytes) → List (Bytes × List Bytes)
unfolding domain_of place
group_recipients [] groups = groups
group_recipients (r ∷ rs) groups = group_recipients rs (place (domain_of r) r groups)

-- what an answer of Send is taken for
pub data Verdict : Type 0 where
  accepted : Verdict
  deferred : Failure → Verdict
  bounced : Failure → Verdict

unfoldable pub verdict : Option Failure → Verdict
verdict none = accepted
verdict (some e) =
    if is_temporary_smtp_error e
    then deferred e
    else if is_permanent_smtp_error e
    then bounced e
    else accepted

-- the domain of the sender, for the signature
unfoldable pub from_domain : Bytes → Option Bytes
unfolding split
from_domain sender = elim (split b'@' sender) [ user ∷ host ∷ [] ↦ some (to_lower host) | _ ↦ none ]

-- the options that may sign for a sender
unfoldable pub signer_for : Deliverer → Bytes → Option DkimSignerOptions
unfolding from_domain lookup
signer_for d sender = elim (from_domain sender) [
  | none ↦ none
  | some domain ↦ elim (lookup domain d.dkim_signers) [
    | none ↦ none
    | some o ↦ elim o.signer [
      | none ↦ none
      | some s ↦ elim o.private_key [ none ↦ none | some k ↦ some o ]
    ]
  ]
]

-- the data to send, with the answer of Sign
unfoldable pub signed : {W : Type 0} → Bytes → Failure ⊎ Bytes → W → Bytes × W
signed content (inl e) w = (content, w)
signed content (inr b) w = (b, w)

module _ {W C : Type 0} (env : Environment W C) (d : Deliverer) where
  unfoldable pub sign_with : Option DkimSignerOptions → Bytes → W → Bytes × W
  unfolding signed
  sign_with none content w = (content, w)
  sign_with (some o) content w = let (answer, w') = env.sign o content w in signed content answer w'

  -- `prepareMessageData`, with the data that deliverToDomain takes when it fails
  unfoldable pub prepare_message_data : Message → W → Bytes × W
  unfolding sign_with signer_for
  prepare_message_data msg w = sign_with (signer_for d msg.sender) msg.content w

  abbrev pub exhausted : Bytes → Option Failure → Failure
  unfolding codes
  exhausted domain last = elim last [
    | some e ↦
        wrap
          (codes "failed to deliver to domain " ++ domain ++ codes " after trying all MX hosts: ") e
    | none ↦ plain (
        codes "failed to deliver to domain "
        ++ domain
        ++ codes " after trying all MX hosts (no specific error)")
  ]

  -- a Send through a client of the pool, which gets it back
  unfoldable pub send_once : C → Bytes → List Bytes → Bytes → W → Option Failure × W
  send_once client sender rcpts content w =
      let (answer, w') = env.send client sender rcpts content w in
      (answer, env.release_client client w')

  -- what follows a Send; `next` goes on with the other hosts
  unfoldable pub settle :
      Bytes → Bytes → (Option Failure → W → Option Failure × W) → Verdict → W → Option Failure × W
  unfolding codes
  settle domain host next accepted s = (none, env.record_status delivered domain s)
  settle domain host next (deferred e) s = (
    some (wrap (codes "temporary failure at " ++ host ++ codes ": ") e),
    env.record_status delivery_temp_failed domain s,
  )
  settle domain host next (bounced e) s =
      next (some e) (env.record_status delivery_perm_failed_mx domain s)

  -- what follows GetClient
  unfoldable pub use_client :
      Message
      → Bytes
      → List Bytes
      → Bytes
      → Bytes
      → (Option Failure → W → Option Failure × W)
      → Failure ⊎ C
      → W
      → Option Failure × W
  unfolding codes send_once settle verdict
  use_client msg domain rcpts content host next (inl e) s =
      next (some (wrap (codes "failed to get client for " ++ host ++ codes ": ") e)) s
  use_client msg domain rcpts content host next (inr client) s =
      let (r, s') = send_once client msg.sender rcpts content s in
      settle domain host next (verdict r) s'

  -- the loop over the hosts and what follows it; none is a nil error
  unfoldable pub try_hosts :
      Message → Bytes → List Bytes → Bytes → List Mx → Option Failure → W → Option Failure × W
  unfolding use_client
  try_hosts msg domain rcpts content [] last s =
      (some (exhausted domain last), env.record_status delivery_perm_failed_domain domain s)
  try_hosts msg domain rcpts content (mx ∷ rest) last s =
      let host = trim_suffix mx.host (codes ".") in
      let (answer, w) = env.get_client host s in
      use_client msg domain rcpts content host (try_hosts msg domain rcpts content rest) answer w

  -- what follows LookupMX
  unfoldable pub use_hosts :
      Message → Bytes → List Bytes → Failure ⊎ List Mx → W → Option Failure × W
  unfolding codes try_hosts prepare_message_data
  use_hosts msg domain rcpts (inl e) s =
      if is_temporary_dns_error e
      then (
        some (wrap (codes "temporary MX lookup failure for " ++ domain ++ codes ": ") e),
        env.record_status mx_lookup_temp_failed domain s,
      )
      else (
        some (wrap (codes "permanent MX lookup failure for " ++ domain ++ codes ": ") e),
        env.record_status mx_lookup_perm_failed domain s,
      )
  use_hosts msg domain rcpts (inr []) s = (
    some (plain (codes "no MX records found for domain " ++ domain)),
    env.record_status no_mx_records domain s,
  )
  use_hosts msg domain rcpts (inr (mx ∷ hosts)) s =
      let (content, w) = prepare_message_data msg s in
      try_hosts msg domain rcpts content (mx ∷ hosts) none w

  unfoldable pub deliver_to_domain : Message → Bytes → List Bytes → W → Option Failure × W
  unfolding use_hosts
  deliver_to_domain msg domain rcpts s =
      let (answer, w) = env.lookup_mx domain s in use_hosts msg domain rcpts answer w

  -- the goroutines, whose errors are logged; local domains have none
  unfoldable pub tasks : Message → List (Bytes × List Bytes) → List (W → W)
  unfolding deliver_to_domain is_local
  tasks msg [] = []
  tasks msg ((domain, rcpts) ∷ groups) =
      if is_local d domain
      then tasks msg groups
      else (λ w. (deliver_to_domain msg domain rcpts w).1) ∷ tasks msg groups

  -- `Deliver`; `order` arranges the domains, and `together` runs the goroutines and waits for them
  unfoldable pub deliver :
      (List (Bytes × List Bytes) → List (Bytes × List Bytes))
      → (List (W → W) → W → W)
      → Option Message
      → W
      → Option Failure × W
  unfolding group_recipients tasks
  deliver order together none w = (some (plain (codes "cannot deliver nil message")), w)
  deliver order together (some msg) w =
      (none, together (tasks msg (order (group_recipients msg.recipients []))) w)
