-- ===== src/Api/Lists.antt =====
-- internal/api/handlers.go: the handlers of /ipset/lists and /ipset/{name}/{domains|suffixes}.
pub mod Domains
pub mod Routing
use dns_box.Prelude.{
  ℕ, zero, suc, Bool, true, false, ◌||◌, Text, codes, Option, none, some, List, [], ◌∷◌, ◌++◌, pos,
  modify, split, trim_prefix, text_eq, if◌then◌else◌,
}
use dns_box.Cache.FastCache.{FastCache}
use dns_box.Cache.DomainCache.{DomainCache, contains, contains_suffix, remove}
use dns_box.Cache.DomainCache
use dns_box.Config.{Config, IpSetListConfig, RulesConfig, get_ipset_lists, get_list_rules}
use dns_box.Config.Lists.{
  add_domain_to_list, remove_domain_from_list, add_suffix_to_list, remove_suffix_from_list,
}
use dns_box.Api.{
  Method, get, post, delete, other, Reply, empty_reply, write, http_error, Server, Served, Saving,
  with_lines,
}

-- The first list of the name; `none` is the result -1.
unfoldable pub find_list_index : Text → List IpSetListConfig → Option ℕ
find_list_index name [] = none
find_list_index name (l ∷ ls) =
    let rest = find_list_index name ls in
    if text_eq l.name name then some zero else elim rest [ none ↦ none | some i ↦ some (suc i) ]

module _ (f : FastCache) (Bytes : Type 0) where
  -- An edit of the configuration and of the cache of the list, if there is one.
  abbrev pub edit_list :
      Config → ℕ → (DomainCache f → DomainCache f) → Served f Bytes → Served f Bytes
  edit_list cfg i g x = record x {
    server = record x.server {
      config = cfg;
      list_domain_caches = modify x.server.list_domain_caches i g;
    };
  }

  unfoldable pub add_list_domain : ℕ → Text → Served f Bytes → Served f Bytes
  add_list_domain i domain x =
      edit_list (add_domain_to_list x.server.config (pos i) domain) i
        (λ c. if contains f c domain then c else DomainCache.add f c domain) x

  unfoldable pub remove_list_domain : ℕ → Text → Served f Bytes → Served f Bytes
  remove_list_domain i domain x =
      edit_list (remove_domain_from_list x.server.config (pos i) domain) i (λ c. remove f c domain)
        x

  unfoldable pub add_list_suffix : ℕ → Text → Served f Bytes → Served f Bytes
  add_list_suffix i suffix x =
      edit_list (add_suffix_to_list x.server.config (pos i) suffix) i
        (λ c. if contains_suffix f c suffix then c else DomainCache.add_suffix f c suffix) x

  unfoldable pub remove_list_suffix : ℕ → Text → Served f Bytes → Served f Bytes
  remove_list_suffix i suffix x =
      edit_list (remove_suffix_from_list x.server.config (pos i) suffix) i (λ c. remove f c suffix)
        x

  module _ (saving : Saving f Bytes) (encode : List Text → Text)
      (encode_lists : List IpSetListConfig → Text) where
    abbrev refuse : Text → ℕ → Server f Bytes → Served f Bytes
    refuse text code s = record { server = s; reply = http_error text code empty_reply }

    abbrev shown : (RulesConfig → List Text) → Server f Bytes → Option RulesConfig → Served f Bytes
    shown part s none = refuse (codes "List not found") 404 s
    shown part s (some rules) = record {
      server = s;
      reply = write (encode (part rules)) empty_reply;
    }

    unfoldable pub handle_list_domains : Method → ℕ → Option Text → Server f Bytes → Served f Bytes
    handle_list_domains get i body s =
        shown (λ (r : RulesConfig). r.domains) s (get_list_rules s.config (pos i))
    handle_list_domains post i body s = with_lines f Bytes saving (add_list_domain i) body s
    handle_list_domains delete i body s = with_lines f Bytes saving (remove_list_domain i) body s
    handle_list_domains other i body s = refuse (codes "Method not allowed") 405 s

    unfoldable pub handle_list_suffixes : Method → ℕ → Option Text → Server f Bytes → Served f Bytes
    handle_list_suffixes get i body s =
        shown (λ (r : RulesConfig). r.domain_suffix) s (get_list_rules s.config (pos i))
    handle_list_suffixes post i body s = with_lines f Bytes saving (add_list_suffix i) body s
    handle_list_suffixes delete i body s = with_lines f Bytes saving (remove_list_suffix i) body s
    handle_list_suffixes other i body s = refuse (codes "Method not allowed") 405 s

    abbrev pub found :
        Method → Text → Text → Option Text → Server f Bytes → Option ℕ → Served f Bytes
    found method name resource body s none =
        refuse (codes "List '" ++ name ++ codes "' not found") 404 s
    found method name resource body s (some i) =
        if text_eq resource (codes "domains")
        then handle_list_domains method i body s
        else handle_list_suffixes method i body s

    abbrev pub resolved : Method → List Text → Option Text → Server f Bytes → Served f Bytes
    resolved method (name ∷ resource ∷ []) body s =
        if text_eq resource (codes "domains") || text_eq resource (codes "suffixes")
        then found method name resource body s (find_list_index name (get_ipset_lists s.config))
        else refuse (codes "Invalid resource. Expected 'domains' or 'suffixes'") 400 s
    resolved method [] body s =
        refuse (codes "Invalid path. Expected /ipset/{name}/{domains|suffixes}") 400 s
    resolved method (name ∷ []) body s =
        refuse (codes "Invalid path. Expected /ipset/{name}/{domains|suffixes}") 400 s
    resolved method (name ∷ resource ∷ more ∷ parts) body s =
        refuse (codes "Invalid path. Expected /ipset/{name}/{domains|suffixes}") 400 s

    unfoldable pub handle_ipset_list : Method → Text → Option Text → Server f Bytes → Served f Bytes
    handle_ipset_list method path body s =
        resolved method (split (trim_prefix path (codes "/ipset/")) b'/') body s

    unfoldable pub handle_ipset_lists : Method → Server f Bytes → Served f Bytes
    handle_ipset_lists get s = record {
      server = s;
      reply = write (encode_lists (get_ipset_lists s.config)) empty_reply;
    }
    handle_ipset_lists post s = refuse (codes "Method not allowed") 405 s
    handle_ipset_lists delete s = refuse (codes "Method not allowed") 405 s
    handle_ipset_lists other s = refuse (codes "Method not allowed") 405 s
