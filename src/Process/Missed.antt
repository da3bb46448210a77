-- ===== src/Process/Missed.antt =====
-- A listener whose `Shutdown` comes before its `ListenAndServe`.
use dns_box.Prelude.{ℕ, Bool, true, false, some, List, ◌≡◌, ◌≢◌, get_elem?}
use dns_box.Cache.FastCache.{FastCache}
use dns_box.Cache.DnsCache.{RrCodec}
use dns_box.Dns.Message.{Rr}
use dns_box.Process.{
  ended, Listener, stopping_api, returned, Process, Outside, Step, fail, Reach, here, next,
}

-- The listener at the place has been told to stop, and still has to end.
abbrev pub HasMissed : List Listener → ℕ → Type 0
HasMissed ls i = (l : Listener) × (get_elem? ls i ≡ some l) × (l.told ≡ true) × (l.phase ≢ ended)

module _ (f : FastCache) (rr : RrCodec Rr) (Bytes : Type 0) (outside : Outside Bytes) where
  abbrev pub is_failure : {p q : Process f rr Bytes} → Step f rr Bytes outside p q → Bool
  is_failure (fail _ _ _ _) = true
  is_failure _ = false

  -- No `ListenAndServe` returns by itself in the run.
  abbrev pub HasNoFailure : {p q : Process f rr Bytes} → Reach f rr Bytes outside p q → Type 0
  HasNoFailure here = Unit
  HasNoFailure (next r running step) = HasNoFailure r × (is_failure step ≡ false)

  -- `run` is before the end of its `wg.Wait`, which waits for the listener.
  abbrev Hangs : ℕ → Process f rr Bytes → Type 0
  Hangs i p = HasMissed p.listeners i × ((p.main ≢ stopping_api) × (p.main ≢ returned))
