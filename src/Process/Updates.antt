-- ===== src/Process/Updates.antt =====
-- The blocklist while the program runs.
use mathlib.Core.Option.{some-injective}
use dns_box.Prelude.{Text, List, Option, none, some, ◌≡◌, subst}
use dns_box.Cache.FastCache.{FastCache}
use dns_box.Cache.DnsCache.{RrCodec}
use dns_box.Blocklist.{Sources, BlockList}
use dns_box.Blocklist.Service.{update_of, later, IsLoadedBy, Step-IsLoadedBy}
use dns_box.Blocklist.Service
use dns_box.Dns.Message.{Rr}
use dns_box.Api.Routes.Service.{serve-IsLoadedBy}
use dns_box.Process.{
  Process, Outside, saving_with, Step, cancel, spawn, listen, fail, shut, query, query_panics,
  api_start, api_listen, api_fails, call, refresh, wake, save, save_panics, join, stop, stop_absent,
  stop_late, Reach, here, next,
}

module _ (f : FastCache) (rr : RrCodec Rr) (Bytes : Type 0) (outside : Outside Bytes) where
  abbrev update_in :
      {p q : Process f rr Bytes} → Step f rr Bytes outside p q → Option (Sources × List Text)
  update_in (refresh _ _ _ step _) = update_of f step
  update_in _ = none

  -- The last update in a run.
  unfoldable pub last_update :
      {p q : Process f rr Bytes} → Reach f rr Bytes outside p q → Option (Sources × List Text)
  last_update here = none
  last_update (next r running step) = later (update_in step) (last_update r)

  refresh-IsLoadedBy :
      (u : Option (Sources × List Text)) (o : Option (BlockList f)) (b c : BlockList f)
      (step : Service.Step f b c)
      → o ≡ some b
      → IsLoadedBy f u o
      → IsLoadedBy f (later (update_of f step) u) (some c)
  refresh-IsLoadedBy u none b c step e h = cc
  refresh-IsLoadedBy u (some d) b c step e h =
      Step-IsLoadedBy f u b c step (subst (λ b. IsLoadedBy f u (some b)) (some-injective d b e) h)

  Step-IsLoadedBy_in :
      (u : Option (Sources × List Text)) (p q : Process f rr Bytes)
      (step : Step f rr Bytes outside p q)
      → IsLoadedBy f u p.server.block_list
      → IsLoadedBy f (later (update_in step) u) q.server.block_list
  Step-IsLoadedBy_in u p q (cancel _) h = h
  Step-IsLoadedBy_in u p q (spawn _ _ _) h = h
  Step-IsLoadedBy_in u p q (listen _ _ _ _) h = h
  Step-IsLoadedBy_in u p q (fail _ _ _ _) h = h
  Step-IsLoadedBy_in u p q (shut _ _ _ _ _) h = h
  Step-IsLoadedBy_in u p q (query _ _ _ _ _ _ _) h = h
  Step-IsLoadedBy_in u p q (query_panics _ _ _ _ _ _) h = h
  Step-IsLoadedBy_in u p q (api_start _) h = h
  Step-IsLoadedBy_in u p q (api_listen _) h = h
  Step-IsLoadedBy_in u p q (api_fails _) h = h
  Step-IsLoadedBy_in u p q (call fails faults api env request _) h =
      serve-IsLoadedBy f Bytes fails outside.is_cidr u outside.api_json
        (saving_with f rr Bytes outside faults api env) request p.server h
  Step-IsLoadedBy_in u p q (refresh b c at step _) h =
      refresh-IsLoadedBy u p.server.block_list b c step at h
  Step-IsLoadedBy_in u p q (wake _ _) h = h
  Step-IsLoadedBy_in u p q (save _ _ _ _ _) h = h
  Step-IsLoadedBy_in u p q (save_panics _ _ _ _ _) h = h
  Step-IsLoadedBy_in u p q (join _ _) h = h
  Step-IsLoadedBy_in u p q (stop _ _) h = h
  Step-IsLoadedBy_in u p q (stop_absent _ _) h = h
  Step-IsLoadedBy_in u p q (stop_late _ _) h = h

  -- The service has the content of the last update in the run, which every other step leaves there.
  pub Reach-IsLoadedBy :
      {p q : Process f rr Bytes} (reach : Reach f rr Bytes outside p q)
      → IsLoadedBy f none p.server.block_list
      → IsLoadedBy f (last_update reach) q.server.block_list
  unfolding last_update
  Reach-IsLoadedBy here h = h
  Reach-IsLoadedBy {q = q} (next {p = m} r running step) h =
      Step-IsLoadedBy_in (last_update r) m q step (Reach-IsLoadedBy r h)
