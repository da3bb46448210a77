-- ===== src/Api/Routes/Keeps.antt =====
-- Invariants of all requests to the API, from those of the edits that the handlers make.
use dns_box.Prelude.{Bool, Text}
use dns_box.Cache.FastCache.{FastCache}
use dns_box.Config.{NetListConfig}
use dns_box.Ipset.{Command}
use dns_box.Api.{get, post, delete, other, Server, Saving}
use dns_box.Api.Lists.{handle_ipset_list, handle_ipset_lists}
use dns_box.Api.NetLists.{handle_net_list, handle_net_lists}
use dns_box.Api.Routes.{
  Route, domains, suffixes, blocklist_urls, ipset_lists, net_lists, net_list, ipset_list,
  Dispatched, redirected, not_found, to, dispatch, ApiRequest, ApiJson, handle, answer, serve,
}
use dns_box.Api.Routes.Edits.{IsKept}
use dns_box.Api.Routes.Edits.SharedKeeps.{
  handle_domains-keeps, handle_suffixes-keeps, handle_blocklist_urls-keeps,
}
use dns_box.Api.Routes.Edits.ListKeeps.{resolved-keeps, resolved_net-keeps}

module _ (f : FastCache) (Bytes : Type 0) (fails : Command → Bool) (is_cidr : Text → Bool) where
  module _ (json : ApiJson) (saving : Saving f Bytes) (P : Server f Bytes → Type 0)
      (Q : NetListConfig → Type 0) (k : IsKept f Bytes fails is_cidr saving P Q) where
    handle-keeps :
        (route : Route) (r : ApiRequest) (s : Server f Bytes)
        → P s
        → P (handle f Bytes fails is_cidr json saving route r s).server
    unfolding handle handle_ipset_list handle_net_list handle_ipset_lists handle_net_lists
    handle-keeps domains r s h =
        handle_domains-keeps f Bytes fails is_cidr json saving P Q k r.method r.body s h
    handle-keeps suffixes r s h =
        handle_suffixes-keeps f Bytes fails is_cidr json saving P Q k r.method r.body s h
    handle-keeps blocklist_urls r s h =
        handle_blocklist_urls-keeps f Bytes fails is_cidr json saving P Q k r.method _ s h
    handle-keeps ipset_list r s h =
        resolved-keeps f Bytes fails is_cidr json saving P Q k r.method _ r.body s h
    handle-keeps net_list r s h =
        resolved_net-keeps f Bytes fails is_cidr json saving P Q k r.method _ r.body s h
    handle-keeps ipset_lists r s h =
        elim r.method
          as (λ m. P (handle_ipset_lists f Bytes saving json.names json.lists m s).server) [
            | get ↦ h
            | post ↦ h
            | delete ↦ h
            | other ↦ h
          ]
    handle-keeps net_lists r s h =
        elim r.method
          as (λ m.
            P
              (handle_net_lists f Bytes fails is_cidr saving json.names json.net_lists m
                s).server) [ get ↦ h | post ↦ h | delete ↦ h | other ↦ h ]

    pub serve-keeps :
        (r : ApiRequest) (s : Server f Bytes)
        → P s
        → P (serve f Bytes fails is_cidr json saving r s).server
    unfolding serve
    serve-keeps r s h = go (dispatch r.path)
      where
        go : (d : Dispatched) → P (answer f Bytes fails is_cidr json saving d r s).server
        go (redirected location) = h
        go not_found = h
        go (to route) = handle-keeps route r s h
