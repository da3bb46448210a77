-- ===== src/Process/Safety.antt =====
-- What holds in every state that the program reaches from its start.
use dns_box.Prelude.{
  Bool, true, false, All, ℕ, Bool, Text, Option, some, [], ◌≡◌, refl, sym, subst, In,
}
use dns_box.Cache.FastCache.{FastCache}
use dns_box.Cache.DnsCache.{RrCodec}
use dns_box.Cache.DnsCache.Readable.{new_dns_cache-IsReadable}
use dns_box.Config.Mutators.{apply_all}
use dns_box.Config.Save.{SavedConfig, World}
use dns_box.Config.Load.{load_config}
use dns_box.Config.Save.Atomic.{Always}
use dns_box.Ipset.{Command, add}
use dns_box.Dns.Message.{Rr}
use dns_box.Dns.Resolver.Good.{Returns}
use dns_box.Dns.Handler.{Request, serve_dns}
use dns_box.Dns.Handler.Serve.{IsServed, serve_dns_replies}
use dns_box.Startup.Sets.Ready.{IsMade}
use dns_box.Startup.Begin.{begun, begin}
use dns_box.Startup.Begin.Ready.{begin-IsReady, begin-loads, begin-IsLoadedBy}
use dns_box.Api.{Server}
use dns_box.Api.Routes.Disk.{Loads, LoadsIf, AlwaysLoads}
use dns_box.Config.Disk.{Snapshot}
use dns_box.Process.{Process, Outside, launched, handler_of, Reach}
use dns_box.Process.Kept.{IsSound, Reach-IsSound}
use dns_box.Process.Updates.{last_update, Reach-IsLoadedBy}
use dns_box.Blocklist.{BlockList}
use dns_box.Blocklist.Service.{IsLoadedBy, loaded_by}
use dns_box.Process.Disk.{load_config-path, All-LoadsIf, All-Loads, Reach-IsLoadable}

-- The program has been started with the file at the path.
module _ (f : FastCache) (rr : RrCodec Rr) (Bytes : Type 0) (outside : Outside Bytes)
    (init_fails : Bool) (fails : Command → Bool) (parse_cidr : Text → Option Bool) (path : Text)
    (world : World Bytes) (s : Server f Bytes)
    (started : begin f Bytes outside.json init_fails fails parse_cidr path world ≡ begun s)
    (p : Process f rr Bytes)
    (reach : Reach f rr Bytes outside (launched f rr Bytes outside s) p) where
  sound : IsSound f rr Bytes outside s.config p
  unfolding apply_all
  sound = Reach-IsSound f rr Bytes outside s.config reach (
    ([], refl),
    begin-IsReady f Bytes outside.json init_fails fails parse_cidr path world s started,
    new_dns_cache-IsReadable rr f _,
  )

  -- In every state that the program reaches from its start, whatever the requests to its two servers
  -- are and however they interleave with saves, blocklist updates and the shutdown, each set that an
  -- address or a network was ever added to has been created.
  pub Reach-IsMade :
      (name ip : Text) (timeout : ℕ)
      → In (add name ip timeout) p.server.sent
      → IsMade name p.server.sent
  Reach-IsMade = sound.1.2

  -- In every state that the program reaches from its start, a DNS request is answered, so none makes the program
  -- crash: the response is authoritative, with the EDNS0 record of the request and one of three codes.
  pub Reach-IsServed :
      (request : Request)
      → let h = handler_of f rr Bytes outside p.server in
        Returns (IsServed f rr h request.edns) (serve_dns f rr h request p.answers).0
  Reach-IsServed request =
      (serve_dns_replies f rr (handler_of f rr Bytes outside p.server) request p.answers sound.2).0

  pub Reach-AlwaysLoads :
      (round : (d : SavedConfig) → outside.json.decode (outside.json.encode d) ≡ some d)
      (strict : Bool)
      → All
          (λ (t : Snapshot Bytes).
            LoadsIf Bytes outside.json round strict path (t.unsynced path) (t.disk path))
          world.history
      → (strict ≡ true → world.unsynced path ≡ false)
      → AlwaysLoads Bytes outside.json round strict path p.server.world
  unfolding apply_all load_config
  Reach-AlwaysLoads round strict past synced =
      let (loaded, same) =
        begin-loads f Bytes outside.json init_fails fails parse_cidr path world s started in
      let here = load_config-path outside.json path (world.disk path) s.config loaded in
      let first =
        subst (AlwaysLoads Bytes outside.json round strict path) (sym same)
          (past, ((s.config, loaded), synced)) in
      subst (λ x. AlwaysLoads Bytes outside.json round strict x p.server.world) here
        ((Reach-IsLoadable f rr Bytes outside round strict s.config reach (
          ([], refl),
          subst (λ x. AlwaysLoads Bytes outside.json round strict x s.world) (sym here) first,
        )).1)

  -- In every state that the program reaches from its start, the file of the configuration can be loaded; and so it
  -- can in every state that the disk has been in since the start, whichever system calls failed. The
  -- documents that are written decode to themselves.
  pub Reach-Loads :
      ((d : SavedConfig) → outside.json.decode (outside.json.encode d) ≡ some d)
      → Always (λ d. Loads outside.json path (d path)) world
      → Always (λ d. Loads outside.json path (d path)) p.server.world
        × Loads outside.json path (p.server.world.disk path)
  Reach-Loads round past =
      let (always, now) =
        Reach-AlwaysLoads round false (All-LoadsIf Bytes outside.json round path world.history past)
          (λ e. cc) in
      (All-Loads Bytes outside.json round path p.server.world.history always, now.0)

  -- In every state that the program reaches from its start, whatever requests and updates have
  -- interleaved, the domains that are blocked and their number are exactly what the last update of the
  -- run has read from all addresses that the service had at that update, and nothing where there was no
  -- update: never a part of an update, or of two of them.
  pub Reach-loaded_by :
      (b : BlockList f)
      → p.server.block_list ≡ some b
      → (b.blocked_domains, b.total_domains) ≡ loaded_by f (last_update f rr Bytes outside reach)
  Reach-loaded_by b e = subst (IsLoadedBy f (last_update f rr Bytes outside reach)) e (
      Reach-IsLoadedBy f rr Bytes outside reach
        (begin-IsLoadedBy f Bytes outside.json init_fails fails parse_cidr path world s started))
