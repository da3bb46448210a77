-- ===== src/Api/Routes/Edits/Effects.antt =====
-- What the edits of a line do beside the configuration: only those of the CIDRs send commands, and none
-- writes to the disk or changes the blocklist.
use dns_box.Blocklist.{BlockList}
use dns_box.Prelude.{Option, Bool, ℕ, Text, List, ◌≡◌, refl, inl, inr, Bool-cases}
use dns_box.Cache.FastCache.{FastCache}
use dns_box.Cache.DomainCache.{contains, contains_suffix}
use dns_box.Config.{NetListConfig}
use dns_box.Config.Save.{World}
use dns_box.Ipset.{Command, add_element, remove_element}
use dns_box.Startup.Sets.{timeout_or_default}
use dns_box.Api.{Server, Served}
use dns_box.Api.Shared.{add_domain, remove_domain, add_suffix, remove_suffix}
use dns_box.Api.NetLists.{add_cidr, remove_cidr}

module _ (f : FastCache) (Bytes : Type 0) where
  abbrev pub effects : Server f Bytes → World Bytes × List Command × Option (BlockList f)
  effects s = (s.world, s.sent, s.block_list)

  abbrev pub unsent : Server f Bytes → World Bytes × Option (BlockList f)
  unsent s = (s.world, s.block_list)

  pub effects-add_domain :
      (t : Text) (x : Served f Bytes) → effects (add_domain f Bytes t x).server ≡ effects x.server
  unfolding add_domain
  effects-add_domain t x = elim (Bool-cases (contains f x.server.domain_cache t)) [
    | inl there ↦ rw there refl
    | inr new ↦ rw new refl
  ]

  pub effects-remove_domain :
      (t : Text) (x : Served f Bytes)
      → effects (remove_domain f Bytes t x).server ≡ effects x.server
  unfolding remove_domain
  effects-remove_domain t x = elim (Bool-cases (contains f x.server.domain_cache t)) [
    | inl there ↦ rw there refl
    | inr new ↦ rw new refl
  ]

  pub effects-add_suffix :
      (t : Text) (x : Served f Bytes) → effects (add_suffix f Bytes t x).server ≡ effects x.server
  unfolding add_suffix
  effects-add_suffix t x = elim (Bool-cases (contains_suffix f x.server.domain_cache t)) [
    | inl there ↦ rw there refl
    | inr new ↦ rw new refl
  ]

  pub effects-remove_suffix :
      (t : Text) (x : Served f Bytes)
      → effects (remove_suffix f Bytes t x).server ≡ effects x.server
  unfolding remove_suffix
  effects-remove_suffix t x = elim (Bool-cases (contains_suffix f x.server.domain_cache t)) [
    | inl there ↦ rw there refl
    | inr new ↦ rw new refl
  ]

  module _ (fails : Command → Bool) (is_cidr : Text → Bool) where
    pub unsent-add_cidr :
        (i : ℕ) (list : NetListConfig) (t : Text) (x : Served f Bytes)
        → unsent (add_cidr f Bytes fails is_cidr i list t x).server ≡ unsent x.server
    unfolding add_cidr
    unsent-add_cidr i list t x = elim (Bool-cases (is_cidr t)) [
      | inr bad ↦ rw bad refl
      | inl good ↦
          elim (Bool-cases (fails (add_element list.name t (timeout_or_default list.timeout)))) [
            | inl failed ↦ rw (good, failed) refl
            | inr done ↦ rw (good, done) refl
          ]
    ]

    pub unsent-remove_cidr :
        (i : ℕ) (list : NetListConfig) (t : Text) (x : Served f Bytes)
        → unsent (remove_cidr f Bytes fails is_cidr i list t x).server ≡ unsent x.server
    unfolding remove_cidr
    unsent-remove_cidr i list t x = elim (Bool-cases (fails (remove_element list.name t))) [
      | inl failed ↦ rw failed refl
      | inr done ↦ rw done refl
    ]
