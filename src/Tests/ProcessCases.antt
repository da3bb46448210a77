-- ===== src/Tests/ProcessCases.antt =====
-- The program as a whole.
use dns_box.Prelude.{All, ◌+◌, ◌≤◌, ◌≡◌, refl, codes, true, false, some, [], ◌∷◌}
use dns_box.Cache.FastCache.Assoc.{assoc}
use dns_box.Config.Save.Atomic.{Always}
use dns_box.Startup.Sets.Ready.{IsMade}
use dns_box.Blocklist.Service.{loaded_by}
use dns_box.Process.Updates.{last_update}
use dns_box.Dns.Resolver.Good.{Returns}
use dns_box.Dns.Handler.{serve_dns}
use dns_box.Dns.Handler.Serve.{IsServed}
use dns_box.Api.Routes.Disk.{Loads}
use dns_box.Process.{
  fresh, serving, Listener, in_phase, saving, Process, handler_of, listen, wake, Reach, here, next,
}
use dns_box.Process.Safety.{Reach-loaded_by, Reach-IsMade, Reach-IsServed, Reach-Loads}
use dns_box.Process.Rank.{rank, own_steps, own_steps-rank}
use dns_box.Process.Disk.{LoadsAfterCrash}
use dns_box.Process.PowerFailure.{now, Reach-LoadsAfterCrash}
use dns_box.Process.Order.{SavesBetween, returned_saves}
use dns_box.Tests.Values.{Document, json, codec}
use dns_box.Tests.Runs.{
  outside, no_failure, parse_cidr, path, world, start, started, at_wait, spawned, posted, signalled,
  to_posted, to_signalled, posted_network, video, loaded_list, refreshed, to_refreshed, over,
  to_over,
}

Reach-IsMade_example : IsMade (codes "office") signalled.server.sent
Reach-IsMade_example =
    Reach-IsMade assoc codec Document outside false no_failure parse_cidr path world start started
      signalled to_signalled (codes "office") (codes "10.1.0.0/16") 7200 posted_network

Reach-IsServed_example :
    let h = handler_of assoc codec Document outside posted.server in
    Returns (IsServed assoc codec h (some true)) (serve_dns assoc codec h video posted.answers).0
Reach-IsServed_example =
    Reach-IsServed assoc codec Document outside false no_failure parse_cidr path world start started
      posted to_posted video

Reach-Loads_example :
    Always (λ d. Loads json path (d path)) posted.server.world
    × Loads json path (posted.server.world.disk path)
Reach-Loads_example =
    Reach-Loads assoc codec Document outside false no_failure parse_cidr path world start started
      posted to_posted (λ d. refl) tt

Reach-LoadsAfterCrash_example :
    LoadsAfterCrash json path (now posted.server.world)
    × All (LoadsAfterCrash json path) posted.server.world.history
Reach-LoadsAfterCrash_example =
    Reach-LoadsAfterCrash assoc codec Document outside false no_failure parse_cidr path world start
      started posted to_posted (λ d. refl) refl refl

Reach-loaded_by_example :
    (loaded_list.blocked_domains, loaded_list.total_domains)
    ≡ loaded_by assoc (last_update assoc codec Document outside to_refreshed)
Reach-loaded_by_example =
    Reach-loaded_by assoc codec Document outside false no_failure parse_cidr path world start
      started refreshed to_refreshed loaded_list refl

own_steps-rank_example :
    own_steps assoc codec Document outside to_signalled
      + rank assoc codec Document outside signalled
    ≤ rank assoc codec Document outside at_wait
own_steps-rank_example = own_steps-rank assoc codec Document outside at_wait signalled to_signalled

returned_saves_example : SavesBetween assoc codec Document outside at_wait over
returned_saves_example = returned_saves assoc codec Document outside start over to_over refl

-- The signal comes before the goroutine listens.
abbrev missed : Listener
missed = record { phase = fresh; told = true }

abbrev early : Process assoc codec Document
early = record spawned { cancelled = true; listeners = missed ∷ [] }

abbrev late : Process assoc codec Document
late = record early { listeners = in_phase serving missed ∷ []; main = saving }

abbrev to_late : Reach assoc codec Document outside early late
to_late = next (next here refl (listen 0 missed refl refl)) refl (wake refl refl)
