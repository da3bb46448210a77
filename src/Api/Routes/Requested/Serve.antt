-- ===== src/Api/Routes/Requested/Serve.antt =====
-- `Routes` (internal/api/handlers.go) beside the calls that a request asks for.
use dns_box.Prelude.{Bool, Text, none, some, [], refl}
use dns_box.Cache.FastCache.{FastCache}
use dns_box.Config.{}
use dns_box.Ipset.{Command}
use dns_box.Api.{get, post, delete, other, Server, Saving}
use dns_box.Api.Shared.{handle_blocklist_urls}
use dns_box.Api.Lists.{handle_ipset_list, handle_ipset_lists}
use dns_box.Api.NetLists.{handle_net_list, handle_net_lists}
use dns_box.Api.Routes.{
  domains, suffixes, blocklist_urls, ipset_lists, net_lists, net_list, ipset_list, Route,
  Dispatched, redirected, not_found, to, dispatch, ApiRequest, ApiJson, handle, payload, answer,
  serve,
}
use dns_box.Api.Routes.Requested.{url_edits, asked, url_of, requested, IsPerformed}
use dns_box.Api.Routes.Requested.SharedEdits.{
  Performs, domains-Performs, suffixes-Performs, urls-Performs,
}
use dns_box.Api.Routes.Requested.ListEdits.{resolved-Performs, resolved_net-Performs}

module _ (f : FastCache) (Bytes : Type 0) (fails : Command → Bool) (is_cidr : Text → Bool) where
  module _ (json : ApiJson) (saving : Saving f Bytes) where
    handle-Performs :
        (route : Route) (r : ApiRequest) (s : Server f Bytes)
        → Performs f Bytes fails is_cidr json saving
            (asked r (url_of json r.body) s.config (to route))
            s
            (handle f Bytes fails is_cidr json saving route r s)
    unfolding handle handle_ipset_list handle_net_list handle_ipset_lists handle_net_lists
    handle-Performs domains r s =
        domains-Performs f Bytes fails is_cidr json saving r.method r.body s
    handle-Performs suffixes r s =
        suffixes-Performs f Bytes fails is_cidr json saving r.method r.body s
    handle-Performs blocklist_urls r s =
        elim r.body
          as (λ b.
            Performs f Bytes fails is_cidr json saving (url_edits r.method (url_of json b)) s (
              handle_blocklist_urls f Bytes saving json.names r.method
                (payload f Bytes fails is_cidr json saving b) s)) [
                  | none ↦ urls-Performs f Bytes fails is_cidr json saving r.method none s
                  | some body ↦
                      urls-Performs f Bytes fails is_cidr json saving r.method (json.url body) s
                ]
    handle-Performs ipset_list r s =
        resolved-Performs f Bytes fails is_cidr json saving r.method _ r.body s
    handle-Performs net_list r s =
        resolved_net-Performs f Bytes fails is_cidr json saving r.method _ r.body s
    handle-Performs ipset_lists r s =
        elim r.method
          as (λ m.
            Performs f Bytes fails is_cidr json saving [] s
              (handle_ipset_lists f Bytes saving json.names json.lists m s)) [
                | get ↦ refl
                | post ↦ refl
                | delete ↦ refl
                | other ↦ refl
              ]
    handle-Performs net_lists r s =
        elim r.method
          as (λ m.
            Performs f Bytes fails is_cidr json saving [] s
              (handle_net_lists f Bytes fails is_cidr saving json.names json.net_lists m s)) [
                | get ↦ refl
                | post ↦ refl
                | delete ↦ refl
                | other ↦ refl
              ]

    -- What a request makes of the configuration is what the calls of its mutators that the request asks
    -- for make of it, in their order. They follow from its path, its method and its body: a POST adds
    -- and a DELETE removes each entry of the body, in the shared rules, the first list of the name in
    -- the path, or the addresses of the blocklist, and any other request asks for nothing. Each call is
    -- made once or left out; it can be left out only in the shared rules and in the networks, whatever
    -- the save and the ipsets meet.
    pub serve-IsPerformed :
        (r : ApiRequest) (s : Server f Bytes)
        → IsPerformed
            (requested json r s.config)
            s.config
            (serve f Bytes fails is_cidr json saving r s).server.config
    unfolding serve
    serve-IsPerformed r s = go (dispatch r.path)
      where
        go :
            (d : Dispatched)
            → Performs f Bytes fails is_cidr json saving
                (asked r (url_of json r.body) s.config d)
                s
                (answer f Bytes fails is_cidr json saving d r s)
        go (redirected location) = refl
        go not_found = refl
        go (to route) = handle-Performs route r s
