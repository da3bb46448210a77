-- ===== src/Startup.antt =====
-- cmd/dns-box/main.go, `run`: the caches that are filled from the configuration.
pub mod Routing
pub mod Sets
pub mod Durations
pub mod Begin
use dns_box.Prelude.{ℕ, ◌*◌, Text, List, [], ◌∷◌, map}
use dns_box.Config.{Config, RulesConfig, IpSetListConfig, get_ipset_lists}
use dns_box.Cache.FastCache.{FastCache}
use dns_box.Cache.DomainCache.{DomainCache, new_domain_cache, add, add_suffix}

module _ (f : FastCache) where
  add_domains : DomainCache f → List Text → DomainCache f
  add_domains c [] = c
  add_domains c (d ∷ ds) = add_domains (add f c d) ds

  add_suffixes : DomainCache f → List Text → DomainCache f
  add_suffixes c [] = c
  add_suffixes c (s ∷ ss) = add_suffixes (add_suffix f c s) ss

  -- A new cache of the given size that holds the rules.
  unfoldable pub fill_cache : ℕ → RulesConfig → DomainCache f
  unfolding add_domains add_suffixes
  fill_cache size rules =
      add_suffixes (add_domains (new_domain_cache f size) rules.domains) rules.domain_suffix

  unfoldable pub domain_cache : Config → DomainCache f
  domain_cache cfg = fill_cache (1024 * 1024 * 8) cfg.rules

  -- The caches of the lists, in the order of the lists.
  unfoldable pub list_domain_caches : Config → List (DomainCache f)
  list_domain_caches cfg =
      map (λ (l : IpSetListConfig). fill_cache (1024 * 1024 * 2) l.rules) (get_ipset_lists cfg)
