-- ===== src/Process/Keeps.antt =====
-- Invariants of the state that the two servers share, over all steps of the program.
use dns_box.Prelude.{Bool, Text, some, List, ◌++◌, ◌≡◌}
use dns_box.Cache.FastCache.{FastCache}
use dns_box.Cache.DnsCache.{RrCodec}
use dns_box.Config.Save.{Faults, save_config}
use dns_box.Github.{Api}
use dns_box.Ipset.{Command}
use dns_box.Blocklist.{BlockList}
use dns_box.Blocklist.Service
use dns_box.Dns.Message.{Rr}
use dns_box.Api.{Server}
use dns_box.Api.Routes.{ApiRequest, serve}
use dns_box.Process.{
  Process, Outside, saving_with, Step, cancel, spawn, listen, fail, shut, query, query_panics,
  api_start, api_listen, api_fails, call, refresh, wake, save, save_panics, join, stop, stop_absent,
  stop_late, Reach, here, next,
}

module _ (f : FastCache) (rr : RrCodec Rr) (Bytes : Type 0) (outside : Outside Bytes) where
  -- What the commands of a query, a request to the API, a step of the blocklist and a save keep.
  pub record IsKept (P : Server f Bytes → Type 0) : Type 0 where
    pub sent :
        (commands : List Command) (s : Server f Bytes)
        → P s
        → P (record s { sent = s.sent ++ commands })
    pub called :
        (fails : Command → Bool) (faults : Faults Bytes) (api : Api Bytes) (env : Text)
        (request : ApiRequest) (s : Server f Bytes)
        → P s
        → P
            (serve f Bytes fails outside.is_cidr outside.api_json
              (saving_with f rr Bytes outside faults api env)
              request
              s).server
    pub refreshed :
        (s : Server f Bytes) (b c : BlockList f)
        → s.block_list ≡ some b
        → Service.Step f b c
        → P s
        → P (record s { block_list = some c })
    pub saved :
        (faults : Faults Bytes) (api : Api Bytes) (env : Text) (s : Server f Bytes)
        → P s
        → P (record s { world = (save_config outside.json faults api s.config env s.world).1 })

  module _ (P : Server f Bytes → Type 0) (k : IsKept P) where
    Step-keeps : (p q : Process f rr Bytes) → Step f rr Bytes outside p q → P p.server → P q.server
    Step-keeps p q (cancel _) h = h
    Step-keeps p q (spawn _ _ _) h = h
    Step-keeps p q (listen _ _ _ _) h = h
    Step-keeps p q (fail _ _ _ _) h = h
    Step-keeps p q (shut _ _ _ _ _) h = h
    Step-keeps p q (query _ _ _ response _ _ _) h = k.sent response.sent p.server h
    Step-keeps p q (query_panics _ _ _ _ _ _) h = h
    Step-keeps p q (api_start _) h = h
    Step-keeps p q (api_listen _) h = h
    Step-keeps p q (api_fails _) h = h
    Step-keeps p q (call fails faults api env request _) h =
        k.called fails faults api env request p.server h
    Step-keeps p q (refresh b c at step _) h = k.refreshed p.server b c at step h
    Step-keeps p q (wake _ _) h = h
    Step-keeps p q (save faults api env _ _) h = k.saved faults api env p.server h
    Step-keeps p q (save_panics faults api env _ _) h = k.saved faults api env p.server h
    Step-keeps p q (join _ _) h = h
    Step-keeps p q (stop _ _) h = h
    Step-keeps p q (stop_absent _ _) h = h
    Step-keeps p q (stop_late _ _) h = h

    pub Reach-keeps :
        {p q : Process f rr Bytes} → Reach f rr Bytes outside p q → P p.server → P q.server
    Reach-keeps here h = h
    Reach-keeps (next {p} {q} r running step) h = Step-keeps p q step (Reach-keeps r h)
