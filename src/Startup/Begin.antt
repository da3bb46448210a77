-- ===== src/Startup/Begin.antt =====
-- cmd/dns-box/main.go, `run` up to the wait for its context, with `New` of internal/ipset, and
-- `NewHandlers` of internal/api. What the log says is left out.
pub mod Starts
pub mod Ready
use dns_box.Prelude.{
  Bool, true, false, not, Text, Option, none, some, List, [], ◌∷◌, ◌≡◌, if◌then◌else◌,
}
use dns_box.Cache.FastCache.{FastCache}
use dns_box.Cache.DomainCache.{DomainCache}
use dns_box.Config.{Config}
use dns_box.Config.Save.{Codec, World}
use dns_box.Config.Load.{load_config}
use dns_box.Ipset.{Command}
use dns_box.Blocklist.{BlockList, new_block_list}
use dns_box.Startup.{domain_cache, list_domain_caches}
use dns_box.Startup.Sets.{set_up}
use dns_box.Startup.Durations.{is_positive, refresh_period}
use dns_box.Api.{Server}

module _ (f : FastCache) (Bytes : Type 0) where
  -- What `run` comes to: an error that it returns, a panic, or the state in which it waits.
  pub data Begun : Type 0 where
    load_failed : Begun
    init_panicked : Begun
    set_up_failed : List Command → Begun
    ticker_panicked : List Command → Begun
    no_address : Server f Bytes → Begun
    begun : Server f Bytes → Begun

  -- What the handlers of the API share with the handler of the DNS requests.
  unfoldable pub new_handlers :
      Config
      → DomainCache f
      → List (DomainCache f)
      → Option (BlockList f)
      → World Bytes
      → List Command
      → Server f Bytes
  new_handlers cfg shared lists block_list world sent = record {
    config = cfg;
    domain_cache = shared;
    list_domain_caches = lists;
    block_list = block_list;
    world = world;
    sent = sent;
  }

  -- `none` is a panic of time.NewTicker.
  unfoldable pub block_list_of : Config → Option (Option (BlockList f))
  block_list_of cfg =
      if cfg.block_list.enabled
      then (if is_positive (refresh_period cfg.block_list.refresh_hours)
          then some (some (new_block_list f cfg.block_list.urls))
          else none)
      else some none

  -- The servers are started before the first address is read for the log.
  abbrev pub first_address : List Text → Server f Bytes → Begun
  first_address [] s = no_address s
  first_address (address ∷ addresses) s = begun s

  abbrev pub with_block_list :
      Config → World Bytes → List Command → Option (Option (BlockList f)) → Begun
  with_block_list cfg world sent none = ticker_panicked sent
  with_block_list cfg world sent (some block_list) =
      first_address cfg.server.address
        (new_handlers cfg (domain_cache f cfg) (list_domain_caches f cfg) block_list world sent)

  abbrev pub with_sets : Config → World Bytes → Bool × List Command → Begun
  with_sets cfg world (false, sent) = set_up_failed sent
  with_sets cfg world (true, sent) = with_block_list cfg world sent (block_list_of cfg)

  -- encoding/json, whether the ipset package fails to start, and which of its commands fail.
  module _ (json : Codec Bytes) (init_fails : Bool) (fails : Command → Bool)
      (parse_cidr : Text → Option Bool) where
    abbrev pub with_config : World Bytes → Option Config → Begun
    with_config world none = load_failed
    with_config world (some cfg) =
        if init_fails then init_panicked else with_sets cfg world (set_up fails parse_cidr cfg [])

    unfoldable pub begin : Text → World Bytes → Begun
    unfolding new_handlers block_list_of
    begin path world = with_config world (load_config json world.disk path)
