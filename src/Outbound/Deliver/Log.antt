-- ===== src/Outbound/Deliver/Log.antt =====
-- pkg/outbound/deliverer.go: what a delivery asks of the pool, its clients and the recorder, call by
-- call.
use smtpd.Prelude.{◌≡◌, refl, ◌⊎◌, inl, inr, Option, none, some, List, [], ◌∷◌, ◌++◌}
use smtpd.Text.{Bytes}
use smtpd.Message.{Message}
use smtpd.Outbound.Errors.{Failure}
use smtpd.Outbound.Deliver.{
  Environment, Deliverer, DkimSignerOptions, Status, signed, sign_with, signer_for,
  prepare_message_data,
}

-- one call, with its answer
pub data Event (C : Type 0) : Type 0 where
  got : Bytes → C → Event C  -- GetClient
  missed : Bytes → Failure → Event C  -- GetClient
  sent : C → Bytes → List Bytes → Bytes → Option Failure → Event C
  released : C → Event C
  status : Status → Bytes → Event C

pub record Traced (W C : Type 0) : Type 0 where
  pub world : W
  pub events : List (Event C)

abbrev pub asked : {C : Type 0} → Bytes → Failure ⊎ C → Event C
asked host (inl e) = missed host e
asked host (inr c) = got host c

-- the environment, each of whose calls adds itself to the log
abbrev pub logged : {W C : Type 0} → Environment W C → Environment (Traced W C) C
logged env = record {
  lookup_mx = λ domain s. let (r, w) = env.lookup_mx domain s.world in (r, record s { world = w });
  get_client = λ host s.
      let (r, w) = env.get_client host s.world in
      (r, record { world = w; events = s.events ++ asked host r ∷ [] });
  send = λ c sender rcpts content s.
      let (r, w) = env.send c sender rcpts content s.world in
      (r, record { world = w; events = s.events ++ sent c sender rcpts content r ∷ [] });
  release_client =
      λ c s. record { world = env.release_client c s.world; events = s.events ++ released c ∷ [] };
  sign = λ o content s. let (r, w) = env.sign o content s.world in (r, record s { world = w });
  record_status = λ what domain s. record {
    world = env.record_status what domain s.world;
    events = s.events ++ status what domain ∷ [];
  };
}

module _ {W C : Type 0} where
  events-signed :
      (content : Bytes) (answer : Failure ⊎ Bytes) (s : Traced W C)
      → (signed content answer s).1.events ≡ s.events
  unfolding signed
  events-signed content (inl e) s = refl
  events-signed content (inr b) s = refl

  events-sign_with :
      (env : Environment W C) (d : Deliverer) (o : Option DkimSignerOptions) (content : Bytes)
      (s : Traced W C)
      → (sign_with (logged env) d o content s).1.events ≡ s.events
  unfolding sign_with
  events-sign_with env d none content s = refl
  events-sign_with env d (some o) content s = events-signed content _ _

  -- no call of the pool, of a client or of the recorder is made before the hosts are tried
  pub events-prepare_message_data :
      (env : Environment W C) (d : Deliverer) (msg : Message) (s : Traced W C)
      → (prepare_message_data (logged env) d msg s).1.events ≡ s.events
  unfolding prepare_message_data
  events-prepare_message_data env d msg s = events-sign_with env d (signer_for d msg.sender) _ s
