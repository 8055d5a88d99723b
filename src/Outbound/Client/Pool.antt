-- ===== src/Outbound/Client/Pool.antt =====
-- pkg/outbound/smtp_client.go: `SMTPClientPool`. A call is one step. Clients are
-- references to objects, as they are pointers in Go: the channel of a host is the list of those in
-- it, oldest first, and no nil client is ever put into one.
use smtpd.Prelude.{
  ℕ, suc, ◌⊎◌, inl, inr, Option, none, some, List, [], ◌∷◌, ◌++◌, length, ltb, ℤ, pos, negsuc, ◌==◌,
  if◌then◌else◌,
}
use smtpd.Text.{Bytes}
use smtpd.Table.{lookup, update}
use smtpd.Outbound.Errors.{Failure}
use smtpd.Outbound.Client.{Net, SmtpClientConfig, SmtpClient, new_smtp_client, close_client}

-- a channel with room for `size` clients
pub record HostPool : Type 0 where
  pub size : ℕ
  pub clients : List ℕ

-- the clients that were made, by reference
abbrev pub Objects : Type 0 → Type 0
Objects K = ℕ → Option (SmtpClient K)

-- `objects` and `next` are the store of the program: the clients that exist, and the reference of
-- the one to be made next
pub record SmtpClientPool (K : Type 0) : Type 0 where
  pub config : SmtpClientConfig
  pub pools : List (Bytes × HostPool)
  pub objects : Objects K
  pub next : ℕ

unfoldable pub pool_size : ℤ → ℕ
pool_size (negsuc n) = 1
pool_size (pos n) = if n == 0 then 1 else n

module _ {K : Type 0} where
  unfoldable pub new_pool : SmtpClientConfig → SmtpClientPool K
  new_pool config = record { config = config; pools = []; objects = λ r. none; next = 0 }

  -- the channel of a host that has one, or a new one
  unfoldable pub open_pool :
      Bytes → SmtpClientPool K → Option (HostPool) → HostPool × SmtpClientPool K
  unfolding pool_size
  open_pool host p (some h) = (h, p)
  open_pool host p none =
      let h : HostPool = record { size = pool_size p.config.max_connections; clients = [] } in
      (h, record p { pools = p.pools ++ (host, h) ∷ [] })

  -- `getOrCreateHostPool`
  unfoldable pub get_or_create_host_pool : Bytes → SmtpClientPool K → HostPool × SmtpClientPool K
  unfolding open_pool lookup
  get_or_create_host_pool host p = open_pool host p (lookup host p.pools)

  -- the clients of a channel
  unfoldable pub put_clients : Bytes → List ℕ → SmtpClientPool K → SmtpClientPool K
  unfolding update
  put_clients host cs p = record p { pools = update host (λ h. record h { clients = cs }) p.pools }

  -- the object that the reference is to
  unfoldable pub set_object : ℕ → SmtpClient K → SmtpClientPool K → SmtpClientPool K
  set_object r c p = record p { objects = λ x. if x == r then some c else p.objects x }

  -- a client that was made gets a reference of its own
  unfoldable pub allot :
      Failure ⊎ SmtpClient K → SmtpClientPool K → (Failure ⊎ ℕ) × SmtpClientPool K
  unfolding set_object
  allot (inl e) p = (inl e, p)
  allot (inr c) p = (inr p.next, record (set_object p.next c p) { next = suc p.next })

-- the calls of a pool, and the Close of a client by whoever holds it
pub data Call : Type 0 where
  get : Bytes → Call
  release : ℕ → Call
  close : ℕ → Call
  shut : Call

module _ {W N K : Type 0} (net : Net W N K) where
  -- the oldest client of the channel, or a new one
  unfoldable pub serve :
      Bytes → SmtpClientPool K → List ℕ → W → (Failure ⊎ ℕ) × SmtpClientPool K × W
  unfolding new_smtp_client put_clients allot
  serve host p (r ∷ rs) w = (inr r, put_clients host rs p, w)
  serve host p [] w =
      let (answer, cfg, w') = new_smtp_client net host p.config w in
      let (r, p') = allot answer (record p { config = cfg }) in (r, p', w')

  unfoldable pub get_client : Bytes → SmtpClientPool K → W → (Failure ⊎ ℕ) × SmtpClientPool K × W
  unfolding get_or_create_host_pool serve
  get_client host p w =
      let (pool, p') = get_or_create_host_pool host p in serve host p' pool.clients w

  -- the Close of the object `c` that `r` refers to, whoever else holds `r`
  unfoldable pub close_object : ℕ → SmtpClient K → SmtpClientPool K → W → SmtpClientPool K × W
  unfolding close_client set_object
  close_object r c p w = let (e, c', w') = close_client net c w in (set_object r c' p, w')

  unfoldable pub close_found :
      Option (SmtpClient K) → ℕ → SmtpClientPool K → W → SmtpClientPool K × W
  unfolding close_object
  close_found none r p w = (p, w)
  close_found (some c) r p w = close_object r c p w

  unfoldable pub close_ref : ℕ → SmtpClientPool K → W → SmtpClientPool K × W
  unfolding close_found
  close_ref r p w = close_found (p.objects r) r p w

  -- a client goes into its channel, or is closed when there is no room; its connection is its object's
  unfoldable pub keep_or_close :
      ℕ → SmtpClient K → Option K → HostPool → SmtpClientPool K → W → SmtpClientPool K × W
  unfolding close_object put_clients
  keep_or_close r c none pool p w = (p, w)
  keep_or_close r c (some k) pool p w =
      if ltb (length pool.clients) pool.size
      then (put_clients c.host (pool.clients ++ r ∷ []) p, w)
      else close_object r c p w

  -- a nil client is only logged
  unfoldable pub release_found :
      Option (SmtpClient K) → ℕ → SmtpClientPool K → W → SmtpClientPool K × W
  unfolding get_or_create_host_pool keep_or_close
  release_found none r p w = (p, w)
  release_found (some c) r p w =
      let (pool, p') = get_or_create_host_pool c.host p in keep_or_close r c c.client pool p' w

  -- `ReleaseClient`, of a client of the pool's own type
  unfoldable pub release_client : ℕ → SmtpClientPool K → W → SmtpClientPool K × W
  unfolding release_found
  release_client r p w = release_found (p.objects r) r p w

  unfoldable pub close_clients : List ℕ → SmtpClientPool K → W → SmtpClientPool K × W
  unfolding close_ref
  close_clients [] p w = (p, w)
  close_clients (r ∷ rs) p w = let (p', w') = close_ref r p w in close_clients rs p' w'

  unfoldable pub close_pools : List (Bytes × HostPool) → SmtpClientPool K → W → SmtpClientPool K × W
  unfolding close_clients
  close_pools [] p w = (p, w)
  close_pools ((host, pool) ∷ ps) p w =
      let (p', w') = close_clients pool.clients p w in close_pools ps p' w'

  unfoldable pub close_all : SmtpClientPool K → W → SmtpClientPool K × W
  unfolding close_pools
  close_all p w = let (p', w') = close_pools p.pools p w in (record p' { pools = [] }, w')

  unfoldable pub run : List Call → SmtpClientPool K → W → SmtpClientPool K × W
  unfolding get_client release_client close_ref close_all
  run [] p w = (p, w)
  run (get host ∷ calls) p w = let (answer, p', w') = get_client host p w in run calls p' w'
  run (release r ∷ calls) p w = let (p', w') = release_client r p w in run calls p' w'
  run (close r ∷ calls) p w = let (p', w') = close_ref r p w in run calls p' w'
  run (shut ∷ calls) p w = let (p', w') = close_all p w in run calls p' w'
