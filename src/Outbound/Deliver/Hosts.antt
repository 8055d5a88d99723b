-- ===== src/Outbound/Deliver/Hosts.antt =====
-- pkg/outbound/deliverer.go: the calls that the loop of deliverToDomain makes, host by host.
use smtpd.Prelude.{
  ◌≡◌, refl, ap, ◌∙◌, ◌⊎◌, inl, inr, true, false, Option, none, some, List, [], ◌∷◌, ◌++◌,
  append_assoc, Bool-cases,
}
use smtpd.Text.{Bytes, codes, trim_suffix}
use smtpd.Message.{Message}
use smtpd.Outbound.Errors.{Failure, is_temporary_smtp_error, is_permanent_smtp_error}
use smtpd.Outbound.Deliver.{
  Mx, Environment, Deliverer, delivered, delivery_temp_failed, delivery_perm_failed_mx,
  delivery_perm_failed_domain, verdict, send_once, settle, use_client, try_hosts,
}
use smtpd.Outbound.Deliver.Log.{Event, got, missed, sent, released, status, Traced, asked, logged}

module _ {C : Type 0} (domain sender : Bytes) (rcpts : List Bytes) (content : Bytes) where
  -- a client of the host is taken from the pool, used for one Send, and given back
  abbrev pub exchange : Mx → C → Option Failure → List (Event C) → List (Event C)
  exchange mx c r es =
      got (trim_suffix mx.host (codes ".")) c ∷ sent c sender rcpts content r ∷ released c ∷ es

  -- `Course hosts calls answer`: the hosts are tried in their order
  pub data Course : List Mx → List (Event C) → Option Failure → Type 0 where
    -- no host is left
    failed : (e : Failure) → Course [] (status delivery_perm_failed_domain domain ∷ []) (some e)
    -- the pool has no client for the host
    unreached :
        {mx : Mx} {hosts : List Mx} {es : List (Event C)} {o : Option Failure} (e : Failure)
        → Course hosts es o
        → Course (mx ∷ hosts) (missed (trim_suffix mx.host (codes ".")) e ∷ es) o
    -- the host refuses for good
    refused :
        {mx : Mx} {hosts : List Mx} {es : List (Event C)} {o : Option Failure} (c : C) (e : Failure)
        → is_temporary_smtp_error e ≡ false
        → is_permanent_smtp_error e ≡ true
        → Course hosts es o
        → Course
            (mx ∷ hosts)
            (exchange mx c (some e) (status delivery_perm_failed_mx domain ∷ es))
            o
    -- the host refuses for now: the other hosts are left
    put_off :
        {mx : Mx} {hosts : List Mx} (c : C) (e f : Failure)
        → is_temporary_smtp_error e ≡ true
        → Course
            (mx ∷ hosts)
            (exchange mx c (some e) (status delivery_temp_failed domain ∷ []))
            (some f)
    taken :
        {mx : Mx} {hosts : List Mx} (c : C)
        → Course (mx ∷ hosts) (exchange mx c none (status delivered domain ∷ [])) none
    -- the answer of Send is an error that is neither temporary nor permanent
    mistaken :
        {mx : Mx} {hosts : List Mx} (c : C) (e : Failure)
        → is_temporary_smtp_error e ≡ false
        → is_permanent_smtp_error e ≡ false
        → Course (mx ∷ hosts) (exchange mx c (some e) (status delivered domain ∷ [])) none

module _ {W C : Type 0} (env : Environment W C) (d : Deliverer) (msg : Message) (domain : Bytes)
    (rcpts : List Bytes) (content : Bytes) where
  -- the calls made from `s` on, to the end of the loop
  pub record Follows (hosts : List Mx) (s : Traced W C) (r : Option Failure × Traced W C)
      : Type 0 where
    pub made : List (Event C)
    pub record_of : r.1.events ≡ s.events ++ made
    pub course : Course domain msg.sender rcpts content hosts made r.0

  -- the course from a state that comes after more calls
  extend :
      (hosts : List Mx) (r : Option Failure × Traced W C) (s s' : Traced W C)
      (es fs : List (Event C))
      → s'.events ≡ s.events ++ es
      → r.1.events ≡ s'.events ++ fs
      → Course domain msg.sender rcpts content hosts (es ++ fs) r.0
      → Follows hosts s r
  extend hosts r s s' es fs e f course = record {
    made = es ++ fs;
    record_of = f ∙ ap (λ x. x ++ fs) e ∙ append_assoc s.events es fs;
    course = course;
  }

  abbrev Next : Type 0
  Next = Option Failure → Traced W C → Option Failure × Traced W C

  abbrev swap : Mx → C → Option Failure → List (Event C)
  swap mx c r = exchange domain msg.sender rcpts content mx c r []

  settle-Follows :
      (mx : Mx) (rest : List Mx) (next : Next) (c : C) (r : Option Failure) (s s' : Traced W C)
      → s'.events ≡ s.events ++ swap mx c r
      → ((l : Option Failure) (t : Traced W C) → Follows rest t (next l t))
      → Follows
          (mx ∷ rest)
          s
          (settle (logged env) d domain (trim_suffix mx.host (codes ".")) next (verdict r) s')
  unfolding settle verdict
  settle-Follows mx rest next c none s s' e later =
      extend (mx ∷ rest) _ s s' (swap mx c none) _ e refl (taken c)
  settle-Follows mx rest next c (some f) s s' e later =
      elim (Bool-cases (is_temporary_smtp_error f)) [
        | inl t ↦ rw t (extend (mx ∷ rest) _ s s' (swap mx c (some f)) _ e refl (put_off c f _ t))
        | inr t ↦ elim (Bool-cases (is_permanent_smtp_error f)) [
          | inl p ↦
              let s1 = (logged env).record_status delivery_perm_failed_mx domain s' in
              let rest_of = later (some f) s1 in
              rw (t, p)
                (extend (mx ∷ rest) _ s s' (swap mx c (some f))
                  (status delivery_perm_failed_mx domain ∷ rest_of.made) e
                  (rest_of.record_of ∙ append_assoc s'.events _ _) (refused c f t p rest_of.course))
          | inr p ↦
              rw (t, p) (extend (mx ∷ rest) _ s s' (swap mx c (some f)) _ e refl (mistaken c f t p))
        ]
      ]

  three_calls :
      (es fs : List (Event C)) (a b c : Event C)
      → fs ≡ es ++ a ∷ []
      → (fs ++ b ∷ []) ++ c ∷ [] ≡ es ++ a ∷ b ∷ c ∷ []
  three_calls es fs a b c e =
      append_assoc fs (b ∷ []) (c ∷ [])
      ∙ ap (λ x. x ++ b ∷ c ∷ []) e
      ∙ append_assoc es (a ∷ []) (b ∷ c ∷ [])

  use_client-Follows :
      (mx : Mx) (rest : List Mx) (next : Next) (answer : Failure ⊎ C) (s s' : Traced W C)
      → s'.events ≡ s.events ++ asked (trim_suffix mx.host (codes ".")) answer ∷ []
      → ((l : Option Failure) (t : Traced W C) → Follows rest t (next l t))
      → Follows (mx ∷ rest) s (
          use_client
            (logged env)
            d
            msg
            domain
            rcpts
            content
            (trim_suffix mx.host (codes "."))
            next
            answer
            s')
  unfolding use_client send_once
  use_client-Follows mx rest next (inl f) s s' e later =
      let k = later _ s' in
      extend (mx ∷ rest) _ s s' (missed _ f ∷ []) k.made e k.record_of (unreached f k.course)
  use_client-Follows mx rest next (inr c) s s' e later =
      settle-Follows mx rest next c _ s _ (three_calls s.events s'.events _ _ _ e) later

  pub try_hosts-Follows :
      (hosts : List Mx) (last : Option Failure) (s : Traced W C)
      → Follows hosts s (try_hosts (logged env) d msg domain rcpts content hosts last s)
  unfolding try_hosts
  try_hosts-Follows [] last s = record { made = _; record_of = refl; course = failed _ }
  try_hosts-Follows (mx ∷ rest) last s =
      use_client-Follows mx rest _ _ s _ refl (λ l t. try_hosts-Follows rest l t)
