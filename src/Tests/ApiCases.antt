-- ===== src/Tests/ApiCases.antt =====
-- The handlers of the API.
use dns_box.Prelude.{
  not, ◌≢◌, get_elem?, pos, ℕ, Bool, true, false, Text, codes, Option, none, some, List, [], ◌∷◌,
  ◌++◌, ◌≡◌, refl, ◌↔◌, In, has_prefix,
}
use dns_box.Cache.FastCache.Assoc.{assoc, assoc-IsLossless}
use dns_box.Cache.DomainCache.{DomainCache, dot, dotted, contains, contains_suffix}
use dns_box.Config.{IpSetListConfig, RulesConfig, get_list_rules}
use dns_box.Config.Save.{World}
use dns_box.Dns.Match.{matches, is_domain_in_list}
use dns_box.Startup.Routing.{IsRouted}
use dns_box.Api.{Server, Served, Saving, empty_reply, post}
use dns_box.Api.Lists.Domains.{ListDomains, posted, deleted, edit_list_domains}
use dns_box.Api.Lists.Routing.{is_domain_in_list-edit_list_domains}
use dns_box.Api.Shared.{remove_suffix, handle_domains}
use dns_box.Api.Shared.Status.{reported, handle_domains_status}
use dns_box.Api.Shared.Edits.{
  Edit, posted_domains, posted_suffixes, deleted_domains, serve_edits, started, matches-serve_edits,
}
use dns_box.Config.Rules.Sets.{is_listed}
use dns_box.Api.Shared.Race.{CanEnd, both_begin, overlap_disagrees}
use dns_box.Api.Shared.Removals.{remove_suffix-contains}
use dns_box.Tests.Values.{Document, config, video, json, no_faults, rename_fault, repository}

abbrev encode : List Text → Text
encode names = codes "[]"

abbrev world : World Document
world = record { disk = λ _. none; unsynced = λ _. false; history = [] }

abbrev saving : Saving assoc Document
saving = record { json = json; faults = no_faults; api = repository; env = [] }

abbrev failing : Saving assoc Document
failing = record { json = json; faults = rename_fault; api = repository; env = [] }

abbrev edits : List (Saving assoc Document × Edit)
edits =
    (saving, posted_domains (some (codes " new.example\n\nshared.example")))
    ∷ (failing, posted_suffixes (some (codes "cdn.example")))
    ∷ (saving, deleted_domains (some (codes "shared.example\n")))
    ∷ []

abbrev after_edits : Server assoc Document
after_edits =
    serve_edits assoc Document encode edits (started assoc Document encode config none world)

matches-serve_edits_example :
    (matches assoc after_edits.domain_cache (codes "www.cdn.example.") ≡ true)
    ↔ IsRouted after_edits.config.rules (codes "www.cdn.example.")
unfolding has_prefix dns_box.Prelude.split dns_box.Prelude.trim_space
matches-serve_edits_example =
    matches-serve_edits assoc Document encode assoc-IsLossless config none world edits
      (codes "www.cdn.example.") (tt, (tt, ((refl, (refl, tt)), tt)))

-- A server with the rules of a list as its shared rules.
abbrev served : Served assoc Document
served = record {
  server = started assoc Document encode (record config { rules = video }) none world;
  reply = empty_reply;
}

plain : has_prefix (codes "cdn.example") (dot ∷ []) ≡ false
unfolding has_prefix
plain = refl

found : contains_suffix assoc served.server.domain_cache (codes "cdn.example") ≡ true
unfolding contains_suffix dns_box.Cache.FastCache.Assoc.find dns_box.Startup.domain_cache
    dns_box.Startup.fill_cache dns_box.Cache.DomainCache.add_suffix dns_box.Prelude.text_eq dotted
    dns_box.Cache.DomainCache.suffix_key dns_box.Prelude.split
found = refl

remove_suffix-contains_example :
    (¬ In
      (codes "cdn.example")
      (remove_suffix assoc Document (codes "cdn.example") served).server.config.rules.domain_suffix)
    × (contains assoc
          (remove_suffix assoc Document (codes "cdn.example") served).server.domain_cache
          (dotted (codes "cdn.example"))
        ≡ contains assoc served.server.domain_cache (dotted (codes "cdn.example")))
remove_suffix-contains_example =
    remove_suffix-contains assoc Document (codes "cdn.example") served plain found

abbrev encode_lists : List IpSetListConfig → Text
encode_lists lists = codes "[]"

abbrev list_posts : List (Saving assoc Document × ListDomains)
list_posts =
    (saving, posted 0 (some (codes "live.example\nvideo.example")))
    ∷ (failing, posted 7 (some (codes "x.example")))
    ∷ (saving, deleted 0 (some (codes "video.example")))
    ∷ []

abbrev after_list_posts : Server assoc Document
after_list_posts =
    edit_list_domains assoc Document encode encode_lists list_posts
      (started assoc Document encode config none world)

-- What the three requests make of the rules and of the cache of the list.
abbrev rules_after : RulesConfig
rules_after = record {
  domains = codes "live.example" ∷ [];
  domain_suffix = codes "cdn.example" ∷ [];
}

abbrev cache_after : DomainCache assoc
cache_after = record { cache = (codes "live.example", []) ∷ (codes ".cdn.example", []) ∷ [] }

list_posts_test :
    (get_elem? after_list_posts.list_domain_caches 0 ≡ some cache_after)
    × (get_list_rules after_list_posts.config (pos 0) ≡ some rules_after)
unfolding edit_list_domains dns_box.Api.Lists.handle_list_domains dns_box.Api.with_lines
    dns_box.Api.finish dns_box.Config.Save.save_config dns_box.Api.each_line dns_box.Prelude.split
    dns_box.Prelude.text_eq dns_box.Prelude.trim_space dns_box.Api.Lists.add_list_domain
    dns_box.Config.Lists.add_domain_to_list dns_box.Github.save_file
    dns_box.Startup.list_domain_caches dns_box.Config.get_ipset_lists contains
    dns_box.Cache.FastCache.Assoc.find dns_box.Startup.fill_cache
    dns_box.Cache.DomainCache.add_suffix dns_box.Cache.DomainCache.add dotted
    dns_box.Cache.DomainCache.new_domain_cache dns_box.Config.Rules.Sets.append_new
    dns_box.Config.Rules.Sets.is_listed dns_box.Config.Save.static_parts get_list_rules
    dns_box.Config.get_token has_prefix dns_box.Api.Lists.remove_list_domain
    dns_box.Cache.DomainCache.remove dns_box.Config.Lists.remove_domain_from_list
    dns_box.Config.Rules.Sets.without dns_box.Cache.FastCache.Assoc.erase
list_posts_test = (refl, refl)

is_domain_in_list-edit_list_domains_example :
    (is_domain_in_list assoc after_list_posts.list_domain_caches (codes "live.example.") 0 ≡ true)
    ↔ IsRouted rules_after (codes "live.example.")
unfolding has_prefix dns_box.Prelude.split dns_box.Prelude.trim_space
is_domain_in_list-edit_list_domains_example =
    is_domain_in_list-edit_list_domains assoc Document assoc-IsLossless encode encode_lists config
      none world list_posts (codes "live.example.") 0 cache_after rules_after
      (tt, (tt, ((refl, tt), tt))) list_posts_test.0 list_posts_test.1

abbrev known : Text
known = codes "shared.example"

abbrev start : Server assoc Document
start = started assoc Document encode config none world

reported_test :
    reported assoc Document failing encode known start ≡ codes "domain shared.example exist\n" ∷ []
unfolding dns_box.Api.each_line dns_box.Prelude.split dns_box.Prelude.text_eq
    dns_box.Prelude.trim_space dns_box.Api.Shared.add_domain contains
    dns_box.Cache.FastCache.Assoc.find dns_box.Startup.domain_cache dns_box.Startup.fill_cache
    dns_box.Cache.DomainCache.add dns_box.Api.write
reported_test = refl

handle_domains_status_example :
    (handle_domains assoc Document failing encode post (some known) start).reply.status ≡ some 200
handle_domains_status_example =
    handle_domains_status assoc Document failing encode known start (λ e. cc (reported_test, e))

overlap_disagrees_example :
    CanEnd assoc (codes "shared.example") (both_begin assoc config.rules start.domain_cache) (λ r c.
      is_listed (codes "shared.example") r.domains
      ≡ not (contains assoc c (codes "shared.example")))
overlap_disagrees_example =
    overlap_disagrees assoc (codes "shared.example") assoc-IsLossless config.rules
      start.domain_cache
