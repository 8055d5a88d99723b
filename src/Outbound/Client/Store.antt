-- ===== src/Outbound/Client/Store.antt =====
-- pkg/outbound/smtp_client.go: the channels of a pool and the clients that they refer to.
use mathlib.Core.Option.{some-injective}
use mathlib.Core.Path.{subst}
use smtpd.Prelude.{
  ℕ, ◌≡◌, ◌≤◌, refl, sym, ◌∙◌, ap, inl, inr, false, Option, none, some, List, [], ◌∷◌, ◌++◌, length,
  ◌==◌, arith, Bool-cases,
}
use smtpd.Text.{Bytes, bytes_eq, bytes_eq_refl, eq_of_bytes_eq}
use smtpd.Table.{lookup, update}
use smtpd.Outbound.Client.{SmtpClient}
use smtpd.Outbound.Client.Pool.{
  HostPool, Objects, SmtpClientPool, pool_size, open_pool, allot, set_object, put_clients,
  get_or_create_host_pool,
}

module _ {K : Type 0} where
  -- the reference is to a client that was made for the host
  pub record IsMadeFor (obs : Objects K) (host : Bytes) (r : ℕ) : Type 0 where
    pub object : SmtpClient K
    pub found : obs r ≡ some object
    pub host_is : object.host ≡ host

  abbrev pub AllMadeFor : Objects K → Bytes → List ℕ → Type 0
  AllMadeFor obs host [] = Unit {0}
  AllMadeFor obs host (r ∷ rs) = IsMadeFor obs host r × AllMadeFor obs host rs

  pub record IsHostPool (obs : Objects K) (limit : ℕ) (host : Bytes) (h : HostPool) : Type 0 where
    pub size : h.size ≡ limit
    pub room : length h.clients ≤ limit
    pub made : AllMadeFor obs host h.clients

  abbrev pub AllHostPools : Objects K → ℕ → List (Bytes × HostPool) → Type 0
  AllHostPools obs limit [] = Unit {0}
  AllHostPools obs limit ((host, h) ∷ ps) = IsHostPool obs limit host h × AllHostPools obs limit ps

  pub record IsPool (limit : ℕ) (p : SmtpClientPool K) : Type 0 where
    pub limit_is : pool_size p.config.max_connections ≡ limit
    pub hosts : AllHostPools p.objects limit p.pools
    pub fresh : (r : ℕ) → p.next ≤ r → p.objects r ≡ none

  -- every client stays, and its host
  abbrev Extends : Objects K → Objects K → Type 0
  Extends obs later = (host : Bytes) (r : ℕ) → IsMadeFor obs host r → IsMadeFor later host r

  Extends-AllMadeFor :
      (obs later : Objects K) (host : Bytes) (rs : List ℕ)
      → Extends obs later
      → AllMadeFor obs host rs
      → AllMadeFor later host rs
  Extends-AllMadeFor obs later host [] x k = tt
  Extends-AllMadeFor obs later host (r ∷ rs) x (k, ks) =
      (x host r k, Extends-AllMadeFor obs later host rs x ks)

  Extends-AllHostPools :
      (limit : ℕ) (obs later : Objects K) (ps : List (Bytes × HostPool))
      → Extends obs later
      → AllHostPools obs limit ps
      → AllHostPools later limit ps
  Extends-AllHostPools limit obs later [] x k = tt
  Extends-AllHostPools limit obs later ((host, h) ∷ ps) x (k, ks) = (
    record {
      size = k.size;
      room = k.room;
      made = Extends-AllMadeFor obs later host h.clients x k.made;
    },
    Extends-AllHostPools limit obs later ps x ks,
  )

  -- the object of one reference is set to `c`, of the host of those that were it before
  Extends-set :
      (p : SmtpClientPool K) (r : ℕ) (c : SmtpClient K)
      → ((d : SmtpClient K) → p.objects r ≡ some d → c.host ≡ d.host)
      → Extends p.objects (set_object r c p).objects
  unfolding set_object
  Extends-set p r c same host x k = elim (Bool-cases (x == r)) [
    | inl e ↦
        let at : x ≡ r = ground arith in
        record {
          object = c;
          found = rw e refl;
          host_is = same k.object (ap p.objects (sym at) ∙ k.found) ∙ k.host_is;
        }
    | inr e ↦ record { object = k.object; found = rw e k.found; host_is = k.host_is }
  ]

  pub append-AllMadeFor :
      (obs : Objects K) (host : Bytes) (rs : List ℕ) (r : ℕ)
      → AllMadeFor obs host rs
      → IsMadeFor obs host r
      → AllMadeFor obs host (rs ++ r ∷ [])
  append-AllMadeFor obs host [] r k m = (m, tt)
  append-AllMadeFor obs host (x ∷ rs) r (j, k) m = (j, append-AllMadeFor obs host rs r k m)

  module _ (limit : ℕ) (obs : Objects K) where
    AllHostPools-lookup :
        (host : Bytes) (ps : List (Bytes × HostPool)) (h : HostPool)
        → AllHostPools obs limit ps
        → lookup host ps ≡ some h
        → IsHostPool obs limit host h
    unfolding lookup
    AllHostPools-lookup host [] h k e = absurd cc
    AllHostPools-lookup host ((j, g) ∷ ps) h k e = elim (Bool-cases (bytes_eq j host)) [
      | inl b ↦
          let same : g ≡ h = ground (arith, e) in
          subst (λ x. IsHostPool obs limit host x) same
            (subst (λ x. IsHostPool obs limit x g) (eq_of_bytes_eq j host b) k.0)
      | inr b ↦ AllHostPools-lookup host ps h k.1 (ground (arith, e))
    ]

    AllHostPools-update :
        (host : Bytes) (f : HostPool → HostPool) (ps : List (Bytes × HostPool))
        → AllHostPools obs limit ps
        → ((h : HostPool)
            → IsHostPool obs limit host h
            → lookup host ps ≡ some h
            → IsHostPool obs limit host (f h))
        → AllHostPools obs limit (update host f ps)
    unfolding update lookup
    AllHostPools-update host f [] k s = tt
    AllHostPools-update host f ((j, g) ∷ ps) k s = elim (Bool-cases (bytes_eq j host)) [
      | inl b ↦
          let same = eq_of_bytes_eq j host b in
          let kept = s g (subst (λ x. IsHostPool obs limit x g) same k.0) (rw b refl) in
          rw b (subst (λ x. IsHostPool obs limit x (f g)) (sym same) kept, k.1)
      | inr b ↦ rw b (k.0, AllHostPools-update host f ps k.1 (λ h i e. s h i (rw b e)))
    ]

    AllHostPools-append :
        (host : Bytes) (h : HostPool) (ps : List (Bytes × HostPool))
        → AllHostPools obs limit ps
        → IsHostPool obs limit host h
        → AllHostPools obs limit (ps ++ (host, h) ∷ [])
    AllHostPools-append host h [] k i = (i, tt)
    AllHostPools-append host h ((j, g) ∷ ps) k i = (k.0, AllHostPools-append host h ps k.1 i)

    lookup-append_none :
        (host : Bytes) (h : HostPool) (ps : List (Bytes × HostPool))
        → lookup host ps ≡ none
        → lookup host (ps ++ (host, h) ∷ []) ≡ some h
    unfolding lookup
    lookup-append_none host h [] e = rw (bytes_eq_refl host) refl
    lookup-append_none host h ((j, g) ∷ ps) e = elim (Bool-cases (bytes_eq j host)) [
      | inl b ↦ absurd (ground (arith, e))
      | inr b ↦ rw b (lookup-append_none host h ps (ground (arith, e)))
    ]

  module _ (limit : ℕ) where
    -- the channel of a host, and the pool it is in
    pub record IsOpened (host : Bytes) (r : HostPool × SmtpClientPool K) : Type 0 where
      pub pool : IsPool limit r.1
      pub channel : IsHostPool r.1.objects limit host r.0
      pub found : lookup host r.1.pools ≡ some r.0

    open_pool-IsOpened :
        (host : Bytes) (p : SmtpClientPool K) (o : Option (HostPool))
        → lookup host p.pools ≡ o
        → IsPool limit p
        → IsOpened host (open_pool host p o)
    unfolding open_pool
    open_pool-IsOpened host p (some h) e k = record {
      pool = k;
      channel = AllHostPools-lookup limit p.objects host p.pools h k.hosts e;
      found = e;
    }
    open_pool-IsOpened host p none e k =
        let new : IsHostPool p.objects limit host
            (record { size = pool_size p.config.max_connections; clients = [] }) =
          record { size = k.limit_is; room = omega arith; made = tt } in
        record {
          pool = record {
            limit_is = k.limit_is;
            fresh = k.fresh;
            hosts = AllHostPools-append limit p.objects host _ p.pools k.hosts new;
          };
          channel = new;
          found = lookup-append_none limit p.objects host _ p.pools e;
        }

    pub create-IsOpened :
        (host : Bytes) (p : SmtpClientPool K)
        → IsPool limit p
        → IsOpened host (get_or_create_host_pool host p)
    unfolding get_or_create_host_pool
    create-IsOpened host p k = open_pool-IsOpened host p (lookup host p.pools) refl k

    pub put_clients-IsPool :
        (host : Bytes) (p : SmtpClientPool K) (cs : List ℕ)
        → IsPool limit p
        → length cs ≤ limit
        → AllMadeFor p.objects host cs
        → IsPool limit (put_clients host cs p)
    unfolding put_clients
    put_clients-IsPool host p cs k room ready = record {
      limit_is = k.limit_is;
      fresh = k.fresh;
      hosts =
          AllHostPools-update limit p.objects host _ p.pools k.hosts
            (λ h i e. record { size = i.size; room = room; made = ready });
    }

    -- an object of the pool is changed, but for its host
    pub set_object-IsPool :
        (p : SmtpClientPool K) (r : ℕ) (c d : SmtpClient K)
        → p.objects r ≡ some c
        → d.host ≡ c.host
        → IsPool limit p
        → IsPool limit (set_object r d p)
    unfolding set_object
    set_object-IsPool p r c d e same k = record {
      limit_is = k.limit_is;
      hosts =
          Extends-AllHostPools limit p.objects _ p.pools
            (unfold set_object in
              Extends-set p r d
                (λ x f. same ∙ ap (λ (y : SmtpClient K). y.host) (some-injective c x (sym e ∙ f))))
            k.hosts;
      fresh = λ x l. elim (Bool-cases (x == r)) [
        | inl b ↦
            let at : x ≡ r = ground arith in
            let gone : p.objects r ≡ none = ap p.objects (sym at) ∙ k.fresh x l in absurd cc
        | inr b ↦ rw b (k.fresh x l)
      ];
    }

    -- a new client
    pub allot-IsPool :
        (host : Bytes) (p : SmtpClientPool K) (c : SmtpClient K)
        → IsPool limit p
        → IsPool limit (allot (inr c) p).1
    unfolding allot set_object
    allot-IsPool host p c k = record {
      limit_is = k.limit_is;
      hosts =
          Extends-AllHostPools limit p.objects _ p.pools
            (unfold set_object in
              Extends-set p p.next c (λ d e. let gone = k.fresh p.next (omega arith) in absurd cc))
            k.hosts;
      fresh = λ x l. let b : (x == p.next) ≡ false = ground arith in rw b (k.fresh x (omega arith));
    }
