-- ===== src/Api/Routes/Outcome/Serve.antt =====
-- What any request to the API comes to.
use dns_box.Prelude.{Bool, Text, refl, inl, inr}
use dns_box.Cache.FastCache.{FastCache}
use dns_box.Config.{}
use dns_box.Ipset.{Command}
use dns_box.Api.{Method, get, post, delete, other, write_header, Server, Saving}
use dns_box.Api.Lists.{handle_ipset_list, handle_ipset_lists}
use dns_box.Api.NetLists.{handle_net_list, handle_net_lists}
use dns_box.Api.Routes.{
  domains, suffixes, blocklist_urls, ipset_lists, net_lists, net_list, ipset_list, Dispatched,
  redirected, not_found, to, dispatch, ApiRequest, ApiJson, handle, answer, serve,
}
use dns_box.Api.Routes.Outcome.{Outcome, shown, not_allowed, missing}
use dns_box.Api.Routes.Outcome.SharedHandlers.{
  handle_domains-Outcome, handle_suffixes-Outcome, handle_blocklist_urls-Outcome,
}
use dns_box.Api.Routes.Outcome.ListHandlers.{resolved-Outcome, resolved_net-Outcome}

module _ (f : FastCache) (Bytes : Type 0) where
  module _ (fails : Command → Bool) (is_cidr : Text → Bool) (json : ApiJson)
      (saving : Saving f Bytes) (s : Server f Bytes) where
    handle_ipset_lists-Outcome :
        (m : Method)
        → Outcome f Bytes m s (handle_ipset_lists f Bytes saving json.names json.lists m s)
    unfolding handle_ipset_lists
    handle_ipset_lists-Outcome get = shown f Bytes s get _
    handle_ipset_lists-Outcome post = not_allowed f Bytes s post
    handle_ipset_lists-Outcome delete = not_allowed f Bytes s delete
    handle_ipset_lists-Outcome other = not_allowed f Bytes s other

    handle_net_lists-Outcome :
        (m : Method)
        → Outcome f Bytes m s
            (handle_net_lists f Bytes fails is_cidr saving json.names json.net_lists m s)
    unfolding handle_net_lists
    handle_net_lists-Outcome get = shown f Bytes s get _
    handle_net_lists-Outcome post = not_allowed f Bytes s post
    handle_net_lists-Outcome delete = not_allowed f Bytes s delete
    handle_net_lists-Outcome other = not_allowed f Bytes s other

    answer-Outcome :
        (r : ApiRequest) (d : Dispatched)
        → Outcome f Bytes r.method s (answer f Bytes fails is_cidr json saving d r s)
    unfolding handle handle_ipset_list handle_net_list write_header
    answer-Outcome r (redirected location) = inl (refl, (301, inr (inl refl), refl))
    answer-Outcome r not_found = missing f Bytes s r.method _
    answer-Outcome r (to domains) = handle_domains-Outcome f Bytes json saving s r.method r.body
    answer-Outcome r (to suffixes) = handle_suffixes-Outcome f Bytes json saving s r.method r.body
    answer-Outcome r (to blocklist_urls) =
        handle_blocklist_urls-Outcome f Bytes json saving s r.method _
    answer-Outcome r (to ipset_lists) = handle_ipset_lists-Outcome r.method
    answer-Outcome r (to net_lists) = handle_net_lists-Outcome r.method
    answer-Outcome r (to net_list) =
        resolved_net-Outcome f Bytes fails is_cidr json saving s r.method _ r.body
    answer-Outcome r (to ipset_list) =
        resolved-Outcome f Bytes fails is_cidr json saving s r.method _ r.body

  -- Every request is answered. Either nothing of the server changes and the status is 200, 301, 400,
  -- 404 or 405; or the method is POST or DELETE, and the status is 200, 204 or 500, or the save has
  -- crashed. So a GET changes nothing, and neither does a request that is refused.
  pub serve-Outcome :
      (fails : Command → Bool) (is_cidr : Text → Bool) (json : ApiJson) (saving : Saving f Bytes)
      (r : ApiRequest) (s : Server f Bytes)
      → Outcome f Bytes r.method s (serve f Bytes fails is_cidr json saving r s)
  unfolding serve
  serve-Outcome fails is_cidr json saving r s =
      answer-Outcome fails is_cidr json saving s r (dispatch r.path)
