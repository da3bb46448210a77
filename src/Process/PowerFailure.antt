-- ===== src/Process/PowerFailure.antt =====
-- A failure of the power while the program runs, and the file that `SaveConfig` writes.
use dns_box.Prelude.{Bool, true, false, All, Text, Option, some, [], ◌≡◌}
use dns_box.Cache.FastCache.{FastCache}
use dns_box.Cache.DnsCache.{RrCodec}
use dns_box.Config.Save.{SavedConfig, World}
use dns_box.Ipset.{Command}
use dns_box.Dns.Message.{Rr}
use dns_box.Startup.Begin.{begun, begin}
use dns_box.Api.{Server}
use dns_box.Api.Routes.Disk.{LoadsIf}
use dns_box.Config.Disk.{Snapshot}
use dns_box.Process.{Process, Outside, launched, Reach}
use dns_box.Process.Disk.{LoadsAfterCrash, LoadsAfterCrash-of_LoadsIf, All-LoadsAfterCrash}
use dns_box.Process.Safety.{Reach-AlwaysLoads}

-- What the disk is now.
abbrev pub now : {Bytes : Type 0} → World Bytes → Snapshot Bytes
now w = record { disk = w.disk; unsynced = w.unsynced }

-- The program has been started with the file at the path.
module _ (f : FastCache) (rr : RrCodec Rr) (Bytes : Type 0) (outside : Outside Bytes)
    (init_fails : Bool) (fails : Command → Bool) (parse_cidr : Text → Option Bool) (path : Text)
    (world : World Bytes) (s : Server f Bytes)
    (started : begin f Bytes outside.json init_fails fails parse_cidr path world ≡ begun s)
    (p : Process f rr Bytes)
    (reach : Reach f rr Bytes outside (launched f rr Bytes outside s) p) where
  -- If the power fails in any state that the program reaches from its start, or in any state of the disk
  -- on the way there, whichever system calls failed before, and leaves anything in the files that are
  -- not synced, then the file of the configuration can be loaded. The documents that are written decode
  -- to themselves, and the file that the program is started with is synced.
  pub Reach-LoadsAfterCrash :
      ((d : SavedConfig) → outside.json.decode (outside.json.encode d) ≡ some d)
      → world.unsynced path ≡ false
      → world.history ≡ []
      → LoadsAfterCrash outside.json path (now p.server.world)
        × All (LoadsAfterCrash outside.json path) p.server.world.history
  Reach-LoadsAfterCrash round synced fresh =
      let (always, last) =
        Reach-AlwaysLoads f rr Bytes outside init_fails fails parse_cidr path world s started p
          reach round true (no_past round) (λ e. synced) in
      (
        LoadsAfterCrash-of_LoadsIf Bytes outside.json round path (now p.server.world) last,
        All-LoadsAfterCrash Bytes outside.json round path p.server.world.history always,
      )
    where
      no_past :
          (round : (d : SavedConfig) → outside.json.decode (outside.json.encode d) ≡ some d)
          → All
              (λ (t : Snapshot Bytes).
                LoadsIf Bytes outside.json round true path (t.unsynced path) (t.disk path))
              world.history
      no_past round = rw fresh tt
