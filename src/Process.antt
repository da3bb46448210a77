-- ===== src/Process.antt =====
-- The running program: `run` of cmd/dns-box/main.go behind its start, `Start`, `startServer` and `Stop` of
-- internal/dns/server.go, and `Start` and `Stop` of internal/api/server.go. The goroutines interleave in
-- any order; a DNS request, a request to the API and a save are one step each.
pub mod Keeps
pub mod Kept
pub mod Disk
pub mod Updates
pub mod PowerFailure
pub mod Safety
pub mod Rank
pub mod Shutdown
pub mod Missed
pub mod Order
use dns_box.Prelude.{
  ℕ, Bool, true, false, Text, Option, none, some, List, [], ◌∷◌, ◌++◌, ◌≡◌, ◌≢◌, ◌⊎◌, All, modify,
  get_elem?, ◌*◌,
}
use dns_box.Cache.FastCache.{FastCache}
use dns_box.Cache.DnsCache.{RrCodec, new_dns_cache}
use dns_box.Config.{Config}
use dns_box.Config.Save.{Codec, Faults, World, SaveError, err, save_config}
use dns_box.Github.{Api}
use dns_box.Ipset.{Command}
use dns_box.Dns.Message.{Rr}
use dns_box.Dns.Upstream.{Net}
use dns_box.Dns.Resolver.{State, panics, done}
use dns_box.Dns.Handler.{Handler, Request, Response, serve_dns}
use dns_box.Blocklist.{BlockList}
use dns_box.Blocklist.Service
use dns_box.Api.{Server, Saving}
use dns_box.Api.Routes.{ApiRequest, ApiJson, serve}

-- A goroutine of `startServer`: before `ListenAndServe`, in it, and behind it, where it has called
-- `wg.Done`.
pub data Phase : Type 0 where
  fresh serving ended : Phase

-- `told` is whether the goroutine that waits for the context has called `Shutdown`.
pub record Listener : Type 0 where
  pub phase : Phase
  pub told : Bool

abbrev pub new_listener : Listener
new_listener = record { phase = fresh; told = false }

abbrev pub in_phase : Phase → Listener → Listener
in_phase p l = record l { phase = p }

-- `Shutdown` ends a server that is serving. One that does not serve yet it refuses, with an error that
-- nobody reads.
abbrev pub phase_after_shutdown : Phase → Phase
phase_after_shutdown fresh = fresh
phase_after_shutdown serving = ended
phase_after_shutdown ended = ended

unfoldable pub shut_down : Listener → Listener
shut_down l = record { phase = phase_after_shutdown l.phase; told = true }

-- The server of the API: `httpServer` is nil, is set, is listening, or is shut down.
pub data ApiPhase : Type 0 where
  absent created listening closed : ApiPhase

-- Where `run` is: at its wait, and at the calls behind it. A panic ends the program.
pub data Main : Type 0 where
  waiting saving stopping_dns stopping_api returned crashed : Main

abbrev pub is_running : Main → Bool
is_running returned = false
is_running crashed = false
is_running _ = true

-- What runs: the shared state, the answer cache, and the goroutines. `unspawned` are the addresses for
-- which `Start` has still to start a goroutine.
pub record Process (f : FastCache) (rr : RrCodec Rr) (Bytes : Type 0) : Type 0 where
  pub server : Server f Bytes
  pub answers : State f rr
  pub cancelled : Bool
  pub main : Main
  pub unspawned : List Text
  pub listeners : List Listener
  pub api : ApiPhase

-- The packages outside the program.
pub record Outside (Bytes : Type 0) : Type 0 where
  pub json : Codec Bytes
  pub api_json : ApiJson
  pub is_cidr : Text → Bool
  pub net : Net
  pub now : ℕ → ℕ
  pub new_rr : Text → Option Rr

module _ (f : FastCache) (rr : RrCodec Rr) (Bytes : Type 0) (outside : Outside Bytes) where
  open outside use {json, api_json, is_cidr, net, now, new_rr}

  -- The state in which `run` comes to its wait, with an answer cache of 8 MB.
  abbrev pub launched : Server f Bytes → Process f rr Bytes
  launched s = record {
    server = s;
    answers = record { cache = new_dns_cache rr f (1024 * 1024 * 8); calls = 0; ticks = 0 };
    cancelled = false;
    main = waiting;
    unspawned = s.config.server.address;
    listeners = [];
    api = absent;
  }

  -- `NewDnsHandler`: what the handler works with.
  unfoldable pub handler_of : Server f Bytes → Handler f
  handler_of s = record {
    config = s.config;
    net = net;
    now = now;
    domain_cache = s.domain_cache;
    list_domain_caches = s.list_domain_caches;
    block_list = s.block_list;
    new_rr = new_rr;
  }

  abbrev pub saving_with : Faults Bytes → Api Bytes → Text → Saving f Bytes
  saving_with faults api env = record { json = json; faults = faults; api = api; env = env }

  abbrev pub with_listeners : Process f rr Bytes → List Listener → Process f rr Bytes
  with_listeners p ls = record p { listeners = ls }

  abbrev pub at_main : Process f rr Bytes → Main → Process f rr Bytes
  at_main p m = record p { main = m }

  -- A step of the program, or of what it meets.
  pub data Step (p : Process f rr Bytes) : Process f rr Bytes → Type 0 where
    -- a signal, by the goroutine of `main`
    cancel : p.cancelled ≡ false → Step p (record p { cancelled = true })
    -- the DNS server
    spawn :
        (address : Text) (addresses : List Text)
        → p.unspawned ≡ address ∷ addresses
        → Step p (record p { unspawned = addresses; listeners = p.listeners ++ new_listener ∷ [] })
    listen :
        (i : ℕ) (l : Listener)
        → get_elem? p.listeners i ≡ some l
        → l.phase ≡ fresh
        → Step p (with_listeners p (modify p.listeners i (in_phase serving)))
    fail :
        (i : ℕ) (l : Listener)
        → get_elem? p.listeners i ≡ some l
        → l.phase ≢ ended
        → Step p (with_listeners p (modify p.listeners i (in_phase ended)))
    shut :
        (i : ℕ) (l : Listener)
        → p.cancelled ≡ true
        → get_elem? p.listeners i ≡ some l
        → l.told ≡ false
        → Step p (with_listeners p (modify p.listeners i shut_down))
    query :
        (i : ℕ) (l : Listener) (request : Request) (response : Response)
        → get_elem? p.listeners i ≡ some l
        → l.phase ≡ serving
        → (serve_dns f rr (handler_of p.server) request p.answers).0 ≡ done response
        → Step p (record p {
          server = record p.server { sent = p.server.sent ++ response.sent };
          answers = (serve_dns f rr (handler_of p.server) request p.answers).1;
        })
    query_panics :
        (i : ℕ) (l : Listener) (request : Request)
        → get_elem? p.listeners i ≡ some l
        → l.phase ≡ serving
        → (serve_dns f rr (handler_of p.server) request p.answers).0 ≡ panics
        → Step p (at_main p crashed)
    -- the server of the API; a panic in its handlers is recovered by net/http
    api_start : p.api ≡ absent → Step p (record p { api = created })
    api_listen : p.api ≡ created → Step p (record p { api = listening })
    -- `ListenAndServe` fails at once or later, which is a panic behind which nothing runs
    api_fails : (p.api ≡ created) ⊎ (p.api ≡ listening) → Step p (at_main p crashed)
    call :
        (fails : Command → Bool) (faults : Faults Bytes) (api : Api Bytes) (env : Text)
        (request : ApiRequest)
        → p.api ≡ listening
        → Step p (record p {
          server =
              (serve f Bytes fails is_cidr api_json
                (saving_with faults api env)
                request
                p.server).server;
        })
    -- the service of the blocklist, which stops when the context is cancelled
    refresh :
        (b c : BlockList f)
        → p.server.block_list ≡ some b
        → Service.Step f b c
        → (c.stopped ≡ true → p.cancelled ≡ true)
        → Step p (record p { server = record p.server { block_list = some c } })
    -- `run`
    wake : p.main ≡ waiting → p.cancelled ≡ true → Step p (at_main p saving)
    save :
        (faults : Faults Bytes) (api : Api Bytes) (env : Text)
        → p.main ≡ saving
        → (save_config json faults api p.server.config env p.server.world).0
          ≢ err SaveError.upload_panicked
        → Step p (record p {
          server = record p.server {
            world = (save_config json faults api p.server.config env p.server.world).1;
          };
          main = stopping_dns;
        })
    save_panics :
        (faults : Faults Bytes) (api : Api Bytes) (env : Text)
        → p.main ≡ saving
        → (save_config json faults api p.server.config env p.server.world).0
          ≡ err SaveError.upload_panicked
        → Step p (record p {
          server = record p.server {
            world = (save_config json faults api p.server.config env p.server.world).1;
          };
          main = crashed;
        })
    -- `wg.Wait` counts the goroutines that were started
    join :
        p.main ≡ stopping_dns
        → All (λ (l : Listener). l.phase ≡ ended) p.listeners
        → Step p (at_main p stopping_api)
    stop :
        p.main ≡ stopping_api → p.api ≢ absent → Step p (record p { api = closed; main = returned })
    stop_absent : p.main ≡ stopping_api → p.api ≡ absent → Step p (at_main p crashed)
    -- requests that run for five seconds more make `Shutdown` fail
    stop_late : p.main ≡ stopping_api → p.api ≡ listening → Step p (at_main p crashed)

  pub data Reach (start : Process f rr Bytes) : Process f rr Bytes → Type 0 where
    here : Reach start start
    next :
        {p q : Process f rr Bytes}
        → Reach start p
        → is_running p.main ≡ true
        → Step p q
        → Reach start q
