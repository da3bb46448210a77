-- ===== src/Api/Routes/Edits.antt =====
-- The edits that the handlers of the API make, and what it means that all of them keep an invariant.
pub mod SharedKeeps
pub mod ListKeeps
pub mod Effects
use dns_box.Prelude.{
  ℕ, Bool, true, false, ◌||◌, Text, codes, Option, none, some, List, [], ◌∷◌, ◌≡◌, refl, inl, inr,
  pos, get_elem?, text_eq, Bool-cases, Option-cases, if◌then◌else◌,
}
use dns_box.Cache.FastCache.{FastCache}
use dns_box.Config.{
  Config, NetListConfig, get_ipset_lists, get_list_rules, get_net_lists, get_net_list_cidrs,
}
use dns_box.Config.Rules.{add_block_list_url, remove_block_list_url}
use dns_box.Config.Save.{World}
use dns_box.Ipset.{Command}
use dns_box.Api.{
  Method, get, post, delete, other, write_header, Server, Served, Saving, after_save, with_lines,
}
use dns_box.Api.Keeps.{finish-keeps, with_lines-keeps}
use dns_box.Api.Shared.{handle_domains, handle_suffixes, handle_blocklist_urls, refresh, edit_url}
use dns_box.Api.Shared
use dns_box.Api.Lists.{
  add_list_domain, remove_list_domain, add_list_suffix, remove_list_suffix, handle_list_domains,
  handle_list_suffixes, handle_ipset_list, handle_ipset_lists, find_list_index,
}
use dns_box.Api.Lists
use dns_box.Api.NetLists.{
  add_cidr, remove_cidr, handle_net_list_cidrs, handle_net_list, handle_net_lists,
  find_net_list_index, with_list,
}
use dns_box.Api.NetLists
use dns_box.Api.Routes.{
  Route, domains, suffixes, blocklist_urls, ipset_lists, net_lists, net_list, ipset_list,
  Dispatched, redirected, not_found, to, dispatch, ApiRequest, ApiJson, handle, answer, serve,
}

module _ (f : FastCache) (Bytes : Type 0) (fails : Command → Bool) (is_cidr : Text → Bool) where
  -- What every edit keeps, and a save. `Q` is what is then known of a net list
  -- that the configuration has, when its CIDRs are edited.
  pub record IsKept (saving : Saving f Bytes) (P : Server f Bytes → Type 0)
      (Q : NetListConfig → Type 0) : Type 0 where
    pub saves : (s : Server f Bytes) → P s → P (after_save f Bytes saving s)
    pub domain_added :
        (t : Text) (x : Served f Bytes) → P x.server → P (Shared.add_domain f Bytes t x).server
    pub domain_removed :
        (t : Text) (x : Served f Bytes) → P x.server → P (Shared.remove_domain f Bytes t x).server
    pub suffix_added :
        (t : Text) (x : Served f Bytes) → P x.server → P (Shared.add_suffix f Bytes t x).server
    pub suffix_removed :
        (t : Text) (x : Served f Bytes) → P x.server → P (Shared.remove_suffix f Bytes t x).server
    pub url_added :
        (t : Text) (s : Server f Bytes)
        → P s
        → let c = add_block_list_url s.config t in
          P (record s { config = c; block_list = refresh f Bytes c.block_list.urls s.block_list })
    pub url_removed :
        (t : Text) (s : Server f Bytes)
        → P s
        → let c = remove_block_list_url s.config t in
          P (record s { config = c; block_list = refresh f Bytes c.block_list.urls s.block_list })
    pub list_domain_added :
        (i : ℕ) (t : Text) (x : Served f Bytes)
        → P x.server
        → P (add_list_domain f Bytes i t x).server
    pub list_domain_removed :
        (i : ℕ) (t : Text) (x : Served f Bytes)
        → P x.server
        → P (remove_list_domain f Bytes i t x).server
    pub list_suffix_added :
        (i : ℕ) (t : Text) (x : Served f Bytes)
        → P x.server
        → P (add_list_suffix f Bytes i t x).server
    pub list_suffix_removed :
        (i : ℕ) (t : Text) (x : Served f Bytes)
        → P x.server
        → P (remove_list_suffix f Bytes i t x).server
    pub net_list_known :
        (s : Server f Bytes) (i : ℕ) (list : NetListConfig)
        → P s
        → get_elem? (get_net_lists s.config) i ≡ some list
        → Q list
    pub cidr_added :
        (i : ℕ) (list : NetListConfig) (t : Text) (x : Served f Bytes)
        → Q list
        → P x.server
        → P (add_cidr f Bytes fails is_cidr i list t x).server
    pub cidr_removed :
        (i : ℕ) (list : NetListConfig) (t : Text) (x : Served f Bytes)
        → Q list
        → P x.server
        → P (remove_cidr f Bytes fails is_cidr i list t x).server
