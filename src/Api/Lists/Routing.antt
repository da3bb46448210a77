-- ===== src/Api/Lists/Routing.antt =====
-- Which lists a question is in after domains were posted to the lists.
use mathlib.Core.Option
use dns_box.Prelude.{
  ℕ, zero, suc, ◌*◌, ◌<◌, true, Text, Option, none, some, List, [], ◌∷◌, ◌≡◌, refl, sym, ◌∙◌, ◌↔◌,
  arith, pos, length, ltb, lt→ltb, get_elem?, get_elem?-map,
}
use dns_box.Cache.FastCache.{FastCache, IsLossless}
use dns_box.Cache.DomainCache.{DomainCache}
use dns_box.Config.{
  Config, RulesConfig, IpSetListConfig, get_list_rules, get_ipset_lists, rules_at, in_range,
}
use dns_box.Config.Save.{World}
use dns_box.Blocklist.{BlockList}
use dns_box.Dns.Match.{is_domain_in_list}
use dns_box.Startup.{fill_cache, list_domain_caches}
use dns_box.Startup.Routing.{IsRouted, fill_cache_sound, fill_cache_complete}
use dns_box.Api.{Saving}
use dns_box.Api.Shared.Synced.{IsSynced}
use dns_box.Api.Shared.Edits.{started, matches_iff}
use dns_box.Api.Lists.Domains.{
  ListDomains, ArePlain, edit_list_domains, edit_list_domains-IsListSynced,
}

get_elem?_lt :
    (xs : List IpSetListConfig) (i : ℕ) (x : IpSetListConfig)
    → get_elem? xs i ≡ some x
    → i < length xs
get_elem?_lt [] i x h = absurd cc
get_elem?_lt (y ∷ xs) zero x h = omega arith
get_elem?_lt (y ∷ xs) (suc i) x h = omega (arith, get_elem?_lt xs i x h)

rules_at-some :
    (xs : List IpSetListConfig) (k : ℕ) (list : IpSetListConfig)
    → get_elem? xs k ≡ some list
    → rules_at xs (in_range (pos k) xs) ≡ some list.rules
rules_at-some xs k list at =
    let short : ltb k (length xs) ≡ true = lt→ltb k (length xs) (get_elem?_lt xs k list at) in
    ground (arith, short, at)

-- The rules that are read at the index of a list are those of the list.
rules_of_list :
    (cfg : Config) (lists : List IpSetListConfig) (k : ℕ) (list : IpSetListConfig)
    → cfg.ipset.lists ≡ lists
    → get_elem? (get_ipset_lists cfg) k ≡ some list
    → get_list_rules cfg (pos k) ≡ some list.rules
unfolding get_ipset_lists get_list_rules
rules_of_list cfg [] zero list e h = ground (arith, e, h)
rules_of_list cfg [] (suc k) list e h = ground (arith, e, h)
rules_of_list cfg (l ∷ lists) k list e h = rw e (rules_at-some (l ∷ lists) k list (rw e at h))

module _ (f : FastCache) (Bytes : Type 0) (l : IsLossless f) where
  fill_cache-IsSynced : (size : ℕ) (r : RulesConfig) → IsSynced f (fill_cache f size r) r
  fill_cache-IsSynced size r = record {
    has_keys = λ k. (fill_cache_sound f size r k, fill_cache_complete f l size r k);
  }

  map-some :
      (g : IpSetListConfig → DomainCache f) (o : Option IpSetListConfig) (c : DomainCache f)
      → Option.map g o ≡ some c
      → (x : IpSetListConfig) × (o ≡ some x) × (g x ≡ c)
  map-some g none c h = absurd cc
  map-some g (some x) c h = (x, refl, cc)

  started-cache :
      (cfg : Config) (k : ℕ) (c : DomainCache f) (r : RulesConfig)
      → get_elem? (list_domain_caches f cfg) k ≡ some c
      → get_list_rules cfg (pos k) ≡ some r
      → IsSynced f c r
  unfolding list_domain_caches
  started-cache cfg k c r ec er =
      let (x, ex, eg) =
        map-some (λ (t : IpSetListConfig). fill_cache f (1024 * 1024 * 2) t.rules)
          (get_elem? (get_ipset_lists cfg) k) c
          (sym (
              get_elem?-map (λ (t : IpSetListConfig). fill_cache f (1024 * 1024 * 2) t.rules)
                (get_ipset_lists cfg) k)
            ∙ ec) in
      let rules : x.rules ≡ r = cc (rules_of_list cfg cfg.ipset.lists k x refl ex, er) in
      rw (← eg, ← rules) (fill_cache-IsSynced (1024 * 1024 * 2) x.rules)

  module _ (encode : List Text → Text) (encode_lists : List IpSetListConfig → Text) where
    -- After any number of POST and DELETE requests for the domains of lists since the start, whatever
    -- their saves have met, a question is in the list at an index that has a cache exactly if the rules
    -- that are then read at that index route it. The caches lose nothing, and no domain that is to be
    -- deleted has a leading dot.
    pub is_domain_in_list-edit_list_domains :
        (cfg : Config) (block_list : Option (BlockList f)) (world : World Bytes)
        (ps : List (Saving f Bytes × ListDomains)) (question : Text) (k : ℕ) (c : DomainCache f)
        (r : RulesConfig)
        → ArePlain f Bytes encode encode_lists ps
        → get_elem?
            (edit_list_domains f Bytes encode encode_lists ps
              (started f Bytes encode cfg block_list world)).list_domain_caches
            k
          ≡ some c
        → get_list_rules
            (edit_list_domains f Bytes encode encode_lists ps
              (started f Bytes encode cfg block_list world)).config
            (pos k)
          ≡ some r
        → (is_domain_in_list f
              (edit_list_domains f Bytes encode encode_lists ps
                (started f Bytes encode cfg block_list world)).list_domain_caches
              question
              k
            ≡ true)
          ↔ IsRouted r question
    unfolding is_domain_in_list
    is_domain_in_list-edit_list_domains cfg block_list world ps question k c r plain ec er = rw ec (
        matches_iff f Bytes encode l c r question (
          (edit_list_domains-IsListSynced f Bytes l encode encode_lists ps
              (started f Bytes encode cfg block_list world) plain
              (record { at = started-cache cfg })).at
            k c r ec er))
