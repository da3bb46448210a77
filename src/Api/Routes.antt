-- ===== src/Api/Routes.antt =====
-- internal/api/handlers.go: `Routes`, and what ServeMux of net/http does with its patterns. A path here
-- has no percent-escapes; a CONNECT, whose path ServeMux does not clean, is left out.
pub mod Edits
pub mod Keeps
pub mod Calls
pub mod Outcome
pub mod Ready
pub mod Disk
pub mod Service
pub mod Paths
pub mod Reach
pub mod ListPath
pub mod Requested
use dns_box.Prelude.{
  Bool, true, false, not, ◌||◌, ◌&&◌, ◌==◌, Text, codes, Option, none, some, List, [], ◌∷◌, ◌++◌,
  length, ltb, split, join, has_prefix, text_eq, if◌then◌else◌,
}
use dns_box.Cache.FastCache.{FastCache}
use dns_box.Config.{IpSetListConfig, NetListConfig}
use dns_box.Ipset.{Command}
use dns_box.Api.{Method, Reply, empty_reply, write_header, http_error, Server, Served, Saving}
use dns_box.Api.Shared.{handle_domains, handle_suffixes, handle_blocklist_urls}
use dns_box.Api.Lists.{handle_ipset_list, handle_ipset_lists}
use dns_box.Api.NetLists.{handle_net_list, handle_net_lists}

-- The handlers that are registered.
pub data Route : Type 0 where
  domains suffixes blocklist_urls ipset_lists net_lists net_list ipset_list : Route

unfoldable pub routes : List (Text × Route)
routes =
    (codes "/domains", domains)
    ∷ (codes "/suffixes", suffixes)
    ∷ (codes "/blocklist/urls", blocklist_urls)
    ∷ (codes "/ipset/lists", ipset_lists)
    ∷ (codes "/ipset/net_lists", net_lists)
    ∷ (codes "/ipset/net/", net_list)
    ∷ (codes "/ipset/", ipset_list)
    ∷ []

unfoldable pub ends_with_slash : Text → Bool
ends_with_slash [] = false
ends_with_slash (c ∷ []) = c == b'/'
ends_with_slash (c ∷ d ∷ s) = ends_with_slash (d ∷ s)

-- A pattern that ends in a slash stands for a whole subtree, any other for one path.
abbrev pub fits : Text → Text → Bool
fits pattern path =
    if ends_with_slash pattern then has_prefix path pattern else text_eq path pattern

-- Of two patterns that fit, the longer one is the more specific one.
abbrev pub better : Text × Route → Option (Text × Route) → Option (Text × Route)
better (p, r) none = some (p, r)
better (p, r) (some (q, t)) = if ltb (length p) (length q) then some (q, t) else some (p, r)

unfoldable pub best : List (Text × Route) → Text → Option (Text × Route)
unfolding ends_with_slash
best [] path = none
best ((p, r) ∷ ps) path =
    let rest = best ps path in if fits p path then better (p, r) rest else rest

abbrev pub is_exact : Option (Text × Route) → Text → Bool
is_exact none path = false
is_exact (some (p, r)) path = text_eq p path

abbrev parent : List Text → List Text
parent [] = []
parent (w ∷ ws) = ws

-- path.Clean on the segments of a rooted path; the stack has its top at the head.
unfoldable pub clean_segments : List Text → List Text → List Text
clean_segments stack [] = stack
clean_segments stack (w ∷ ws) =
    clean_segments
      (if text_eq w [] || text_eq w (codes ".")
        then stack
        else if text_eq w (codes "..")
        then parent stack
        else w ∷ stack)
      ws

abbrev from_top : List Text → List Text → List Text
from_top [] done = done
from_top (w ∷ ws) done = from_top ws (w ∷ done)

-- `cleanPath` of net/http: a slash at the end is kept.
unfoldable pub clean_path : Text → Text
unfolding clean_segments
clean_path path =
    let clean = b'/' ∷ join (from_top (clean_segments [] (split path b'/')) []) b'/' in
    if ends_with_slash path && not (ends_with_slash clean) then clean ++ (b'/' ∷ []) else clean

pub data Dispatched : Type 0 where
  redirected : Text → Dispatched
  not_found : Dispatched
  to : Route → Dispatched

abbrev routed : Option (Text × Route) → Dispatched
routed none = not_found
routed (some (p, r)) = to r

-- The root of a subtree without its slash, unless it is registered itself.
abbrev is_bare_root : Text → Bool
is_bare_root path =
    not (is_exact (best routes path) path)
    && not (ends_with_slash path)
    && is_exact (best routes (path ++ (b'/' ∷ []))) (path ++ (b'/' ∷ []))

unfoldable pub dispatch : Text → Dispatched
unfolding clean_path best routes
dispatch path =
    let clean = clean_path path in
    if is_bare_root clean
    then redirected (clean ++ (b'/' ∷ []))
    else if text_eq clean path
    then routed (best routes clean)
    else redirected clean

-- A request; `none` is a body that cannot be read.
pub record ApiRequest : Type 0 where
  pub method : Method
  pub path : Text
  pub body : Option Text

-- encoding/json, as the handlers use it: it does not fail on lists, and finds the field `url` of a
-- body or does not.
pub record ApiJson : Type 0 where
  pub names : List Text → Text
  pub lists : List IpSetListConfig → Text
  pub net_lists : List NetListConfig → Text
  pub url : Text → Option Text

module _ (f : FastCache) (Bytes : Type 0) (fails : Command → Bool) (is_cidr : Text → Bool)
    (json : ApiJson) (saving : Saving f Bytes) where
  abbrev pub payload : Option Text → Option Text
  payload none = none
  payload (some body) = json.url body

  unfoldable pub handle : Route → ApiRequest → Server f Bytes → Served f Bytes
  handle domains r s = handle_domains f Bytes saving json.names r.method r.body s
  handle suffixes r s = handle_suffixes f Bytes saving json.names r.method r.body s
  handle blocklist_urls r s =
      handle_blocklist_urls f Bytes saving json.names r.method (payload r.body) s
  handle ipset_lists r s = handle_ipset_lists f Bytes saving json.names json.lists r.method s
  handle net_lists r s =
      handle_net_lists f Bytes fails is_cidr saving json.names json.net_lists r.method s
  handle net_list r s =
      handle_net_list f Bytes fails is_cidr saving json.names json.net_lists r.method r.path r.body
        s
  handle ipset_list r s =
      handle_ipset_list f Bytes saving json.names json.lists r.method r.path r.body s

  -- The page that a redirect may carry is left out.
  abbrev pub answer : Dispatched → ApiRequest → Server f Bytes → Served f Bytes
  answer (redirected location) r s = record { server = s; reply = write_header 301 empty_reply }
  answer not_found r s = record {
    server = s;
    reply = http_error (codes "404 page not found") 404 empty_reply;
  }
  answer (to route) r s = handle route r s

  unfoldable pub serve : ApiRequest → Server f Bytes → Served f Bytes
  unfolding dispatch
  serve r s = answer (dispatch r.path) r s
