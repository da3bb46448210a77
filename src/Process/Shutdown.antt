-- ===== src/Process/Shutdown.antt =====
-- How the program ends behind a signal.
use dns_box.Prelude.{ℕ, ◌<◌, true, false, Text, some, List, ◌≡◌, ◌≢◌, ◌⊎◌, All, get_elem?}
use dns_box.Cache.FastCache.{FastCache}
use dns_box.Cache.DnsCache.{RrCodec}
use dns_box.Config.{Config}
use dns_box.Config.Save.{Faults, World, SaveError, err, save_config}
use dns_box.Github.{Api}
use dns_box.Dns.Message.{Rr}
use dns_box.Process.{fresh, serving, ended, Listener, crashed, is_running, Process, Outside, Step}
use dns_box.Process.Rank.{rank}

-- The listener has ended, or its `Shutdown` is still to come.
abbrev pub IsHeard : Listener → Type 0
IsHeard l = (l.phase ≡ ended) ⊎ (l.told ≡ false)

abbrev IsEnded : Listener → Type 0
IsEnded l = l.phase ≡ ended

-- A listener that has not ended and is still to be told.
abbrev IsOpen : List Listener → Type 0
IsOpen ls =
    (i : ℕ) × (l : Listener) × (get_elem? ls i ≡ some l)
    × (l.told ≡ false)
    × ((l.phase ≡ fresh) ⊎ (l.phase ≡ serving))

module _ (f : FastCache) (rr : RrCodec Rr) (Bytes : Type 0) (outside : Outside Bytes)
    (faults : Faults Bytes) (api : Api Bytes) (env : Text)
    (saves : (c : Config) (w : World Bytes)
      → (save_config outside.json faults api c env w).0 ≢ err SaveError.upload_panicked) where
  -- The signal has come, and no listener has missed its `Shutdown`.
  abbrev IsStopping : Process f rr Bytes → Type 0
  IsStopping p = (p.cancelled ≡ true) × All IsHeard p.listeners × (p.main ≢ crashed)

  abbrev Nearer : Process f rr Bytes → Type 0
  Nearer p =
      (q : Process f rr Bytes) × Step f rr Bytes outside p q
      × (is_running p.main ≡ true)
      × (rank f rr Bytes outside q < rank f rr Bytes outside p)
      × IsStopping q
