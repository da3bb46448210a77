-- ===== src/Api/Routes/Edits/ListKeeps.antt =====
-- Invariants of the handlers of /ipset/ and /ipset/net/.
use dns_box.Prelude.{
  ℕ, Bool, true, false, ◌||◌, Text, codes, Option, none, some, List, [], ◌∷◌, ◌≡◌, refl, inl, inr,
  pos, text_eq, Bool-cases, Option-cases, if◌then◌else◌,
}
use dns_box.Cache.FastCache.{FastCache}
use dns_box.Config.{
  NetListConfig, get_ipset_lists, get_list_rules, get_net_lists, get_net_list_cidrs,
}
use dns_box.Ipset.{Command}
use dns_box.Api.{Method, get, post, delete, other, Server, Served, Saving}
use dns_box.Api.Lists.{
  add_list_domain, remove_list_domain, add_list_suffix, remove_list_suffix, handle_list_domains,
  handle_list_suffixes, handle_ipset_list, handle_ipset_lists, find_list_index,
}
use dns_box.Api.Lists
use dns_box.Api.NetLists.{
  add_cidr, remove_cidr, handle_net_list_cidrs, handle_net_list, handle_net_lists,
  find_net_list_index, with_list,
}
use dns_box.Api.NetLists
use dns_box.Api.Routes.{ApiJson}
use dns_box.Api.Routes.Edits.{IsKept}
use dns_box.Api.Routes.Edits.SharedKeeps.{lines-keeps}

module _ (f : FastCache) (Bytes : Type 0) (fails : Command → Bool) (is_cidr : Text → Bool) where
  module _ (json : ApiJson) (saving : Saving f Bytes) (P : Server f Bytes → Type 0)
      (Q : NetListConfig → Type 0) (k : IsKept f Bytes fails is_cidr saving P Q) where
    handle_list_domains-keeps :
        (method : Method) (i : ℕ) (body : Option Text) (s : Server f Bytes)
        → P s
        → P (handle_list_domains f Bytes saving json.names json.lists method i body s).server
    unfolding handle_list_domains
    handle_list_domains-keeps get i body s h =
        elim (Option-cases (get_list_rules s.config (pos i))) [
          | inl e ↦ rw e h
          | inr (r, e) ↦ rw e h
        ]
    handle_list_domains-keeps post i body s h =
        lines-keeps f Bytes fails is_cidr json saving P Q k (add_list_domain f Bytes i)
          (k.list_domain_added i) body s h
    handle_list_domains-keeps delete i body s h =
        lines-keeps f Bytes fails is_cidr json saving P Q k (remove_list_domain f Bytes i)
          (k.list_domain_removed i) body s h
    handle_list_domains-keeps other i body s h = h

    handle_list_suffixes-keeps :
        (method : Method) (i : ℕ) (body : Option Text) (s : Server f Bytes)
        → P s
        → P (handle_list_suffixes f Bytes saving json.names json.lists method i body s).server
    unfolding handle_list_suffixes
    handle_list_suffixes-keeps get i body s h =
        elim (Option-cases (get_list_rules s.config (pos i))) [
          | inl e ↦ rw e h
          | inr (r, e) ↦ rw e h
        ]
    handle_list_suffixes-keeps post i body s h =
        lines-keeps f Bytes fails is_cidr json saving P Q k (add_list_suffix f Bytes i)
          (k.list_suffix_added i) body s h
    handle_list_suffixes-keeps delete i body s h =
        lines-keeps f Bytes fails is_cidr json saving P Q k (remove_list_suffix f Bytes i)
          (k.list_suffix_removed i) body s h
    handle_list_suffixes-keeps other i body s h = h

    found-keeps :
        (b : Bool) (method : Method) (i : ℕ) (body : Option Text) (s : Server f Bytes)
        → P s
        → P
            (if b
              then handle_list_domains f Bytes saving json.names json.lists method i body s
              else handle_list_suffixes f Bytes saving json.names json.lists method i body s).server
    found-keeps true method i body s h = handle_list_domains-keeps method i body s h
    found-keeps false method i body s h = handle_list_suffixes-keeps method i body s h

    pub resolved-keeps :
        (method : Method) (parts : List Text) (body : Option Text) (s : Server f Bytes)
        → P s
        → P (Lists.resolved f Bytes saving json.names json.lists method parts body s).server
    resolved-keeps method [] body s h = h
    resolved-keeps method (name ∷ []) body s h = h
    resolved-keeps method (name ∷ resource ∷ more ∷ parts) body s h = h
    resolved-keeps method (name ∷ resource ∷ []) body s h =
        elim (Bool-cases
          (text_eq resource (codes "domains") || text_eq resource (codes "suffixes"))) [
            | inr unknown ↦ rw unknown h
            | inl known ↦ elim (Option-cases (find_list_index name (get_ipset_lists s.config))) [
              | inl e ↦ rw (known, e) h
              | inr (i, e) ↦
                  rw (known, e) (found-keeps (text_eq resource (codes "domains")) method i body s h)
            ]
          ]

    with_list-keeps :
        (edit : ℕ → NetListConfig → Text → Served f Bytes → Served f Bytes)
        (keep : (i : ℕ) (list : NetListConfig) (t : Text) (x : Served f Bytes)
          → Q list
          → P x.server
          → P (edit i list t x).server)
        (i : ℕ) (body : Option Text) (s : Server f Bytes) (o : Option NetListConfig)
        → ((list : NetListConfig) → o ≡ some list → Q list)
        → P s
        → P
            (with_list f Bytes fails is_cidr saving json.names json.net_lists edit i body s
              o).server
    with_list-keeps edit keep i none s o q h = h
    with_list-keeps edit keep i (some body) s none q h = h
    with_list-keeps edit keep i (some body) s (some list) q h =
        lines-keeps f Bytes fails is_cidr json saving P Q k (edit i list)
          (λ t x. keep i list t x (q list refl)) (some body) s h

    handle_net_list_cidrs-keeps :
        (method : Method) (i : ℕ) (body : Option Text) (s : Server f Bytes)
        → P s
        → P
            (handle_net_list_cidrs f Bytes fails is_cidr saving json.names json.net_lists method i
              body s).server
    unfolding handle_net_list_cidrs
    handle_net_list_cidrs-keeps get i body s h =
        elim (Option-cases (get_net_list_cidrs s.config (pos i))) [
          | inl e ↦ rw e h
          | inr (r, e) ↦ rw e h
        ]
    handle_net_list_cidrs-keeps post i body s h =
        with_list-keeps (add_cidr f Bytes fails is_cidr) k.cidr_added i body s _
          (λ list e. k.net_list_known s i list h e) h
    handle_net_list_cidrs-keeps delete i body s h =
        with_list-keeps (remove_cidr f Bytes fails is_cidr) k.cidr_removed i body s _
          (λ list e. k.net_list_known s i list h e) h
    handle_net_list_cidrs-keeps other i body s h = h

    pub resolved_net-keeps :
        (method : Method) (parts : List Text) (body : Option Text) (s : Server f Bytes)
        → P s
        → P
            (NetLists.resolved f Bytes fails is_cidr saving json.names json.net_lists method parts
              body s).server
    resolved_net-keeps method [] body s h = h
    resolved_net-keeps method (name ∷ []) body s h = h
    resolved_net-keeps method (name ∷ resource ∷ more ∷ parts) body s h = h
    resolved_net-keeps method (name ∷ resource ∷ []) body s h =
        elim (Bool-cases (text_eq resource (codes "cidrs"))) [
          | inr unknown ↦ rw unknown h
          | inl known ↦ elim (Option-cases (find_net_list_index name (get_net_lists s.config))) [
            | inl e ↦ rw (known, e) h
            | inr (i, e) ↦ rw (known, e) (handle_net_list_cidrs-keeps method i body s h)
          ]
        ]
