-- ===== src/Blocklist/Service.antt =====
-- The goroutine of `Start` beside the calls of the other goroutines, as a step relation.
use dns_box.Prelude.{ℕ, true, false, Text, Option, none, some, List, ◌≡◌, refl}
use dns_box.Cache.FastCache.{FastCache}
use dns_box.Cache.DomainCache.{DomainCache, new_domain_cache}
use dns_box.Blocklist.{Sources, BlockList, load_sources, update_lists, force_refresh, update_urls}

-- The later of two updates.
abbrev pub later :
    Option (Sources × List Text) → Option (Sources × List Text) → Option (Sources × List Text)
later (some u) earlier = some u
later none earlier = earlier

module _ (f : FastCache) where
  -- One step: of the loop in `Start`, whose `select` takes any case that is ready, or a call.
  pub data Step : BlockList f → BlockList f → Type 0 where
    tick :
        (sources : Sources) (now : ℕ) (b : BlockList f)
        → b.stopped ≡ false
        → Step b (update_lists f sources now b)
    take_forced :
        (sources : Sources) (now : ℕ) (b : BlockList f)
        → b.stopped ≡ false
        → b.forced ≡ true
        → Step b (update_lists f sources now (record b { forced = false }))
    cancel : (b : BlockList f) → b.stopped ≡ false → Step b (record b { stopped = true })
    force : (b : BlockList f) → Step b (force_refresh f b)
    set_urls : (urls : List Text) (b : BlockList f) → Step b (update_urls f b urls)

  -- The update that a step is, if it is one: what the sources answer, and the addresses that the
  -- service has.
  unfoldable pub update_of : {b c : BlockList f} → Step b c → Option (Sources × List Text)
  update_of (tick sources _ b _) = some (sources, b.urls)
  update_of (take_forced sources _ b _ _) = some (sources, b.urls)
  update_of _ = none

  -- The content of a service whose last update is `u`: what the loop over all of its addresses reads,
  -- or nothing where there was no update.
  abbrev pub loaded_by : Option (Sources × List Text) → DomainCache f × ℕ
  loaded_by none = (new_domain_cache f 1000000, 0)
  loaded_by (some (sources, urls)) = load_sources f sources (new_domain_cache f 1000000, 0) urls

  -- The service, if there is one, has the content of that update.
  abbrev pub IsLoadedBy : Option (Sources × List Text) → Option (BlockList f) → Type 0
  IsLoadedBy u none = Unit
  IsLoadedBy u (some b) = (b.blocked_domains, b.total_domains) ≡ loaded_by u

  pub Step-IsLoadedBy :
      (u : Option (Sources × List Text)) (b c : BlockList f) (step : Step b c)
      → IsLoadedBy u (some b)
      → IsLoadedBy (later (update_of step) u) (some c)
  unfolding update_of update_lists force_refresh update_urls
  Step-IsLoadedBy u b c (tick sources now _ running) h = refl
  Step-IsLoadedBy u b c (take_forced sources now _ running forced) h = refl
  Step-IsLoadedBy u b c (cancel _ running) h = h
  Step-IsLoadedBy u b c (force _) h = h
  Step-IsLoadedBy u b c (set_urls urls _) h = h
