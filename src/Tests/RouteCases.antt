-- ===== src/Tests/RouteCases.antt =====
-- The routes of the API.
use dns_box.Prelude.{
  pos, ◌≡◌, refl, arith, codes, ℕ, Bool, true, false, Text, none, some, List, [], ◌∷◌, text_eq,
  if◌then◌else◌,
}
use dns_box.Cache.FastCache.Assoc.{assoc}
use dns_box.Ipset.{Command}
use dns_box.Config.Save.{World}
use dns_box.Api.{Server, Saving, get, delete}
use dns_box.Api.NetLists.{find_net_list_index}
use dns_box.Api.Lists.{handle_list_domains, handle_list_suffixes}
use dns_box.Api.Shared.Edits.{started}
use dns_box.Api.Routes.{ApiJson, ApiRequest, serve}
use dns_box.Config.Mutators.{Call}
use dns_box.Api.Routes.Requested.{IsPerformed, requested}
use dns_box.Api.Routes.Requested.Serve.{serve-IsPerformed}
use dns_box.Api.Routes.Outcome.{Outcome}
use dns_box.Api.Routes.Outcome.Serve.{serve-Outcome}
use dns_box.Api.Routes.Paths.{IsSegment, list_path}
use dns_box.Api.Routes.Reach.{dispatch-list_path}
use dns_box.Api.Routes.ListPath.{serve-list_path}
use dns_box.Tests.Values.{Document, config, json, no_faults, repository}
use dns_box.Api.Routes.{
  redirected, not_found, to, domains, ipset_lists, net_list, ipset_list, dispatch,
}

dispatch_test :
    (dispatch (codes "/domains") ≡ to domains)
    × (dispatch (codes "/ipset/lists") ≡ to ipset_lists)
    × (dispatch (codes "/ipset/video/domains") ≡ to ipset_list)
    × (dispatch (codes "/ipset/net/office/cidrs") ≡ to net_list)
    × (dispatch (codes "/ipset") ≡ redirected (codes "/ipset/"))
    × (dispatch (codes "/ipset/net") ≡ redirected (codes "/ipset/net/"))
    × (dispatch (codes "/ipset/../domains") ≡ redirected (codes "/domains"))
    × (dispatch (codes "/ipset//video/") ≡ redirected (codes "/ipset/video/"))
    × (dispatch (codes "/domains/") ≡ not_found)
    × (dispatch (codes "") ≡ redirected (codes "/"))
unfolding dispatch dns_box.Prelude.join dns_box.Prelude.split text_eq dns_box.Prelude.has_prefix
dispatch_test = (refl, refl, refl, refl, refl, refl, refl, refl, refl, refl)

abbrev api_json : ApiJson
api_json = record {
  names = λ names. codes "[]";
  lists = λ lists. codes "[]";
  net_lists = λ lists. codes "[]";
  url = λ body. some body;
}

abbrev world : World Document
world = record { disk = λ _. none; unsynced = λ _. false; history = [] }

abbrev saving : Saving assoc Document
saving = record { json = json; faults = no_faults; api = repository; env = [] }

abbrev start : Server assoc Document
start = started assoc Document (λ names. codes "[]") config none world

-- The set does not exist.
abbrev fails : Command → Bool
fails c = true

abbrev is_cidr : Text → Bool
is_cidr t = true

abbrev remove_cidrs : ApiRequest
remove_cidrs = record {
  method = delete;
  path = codes "/ipset/net/office/cidrs";
  body = some (codes "10.0.0.0/8\n");
}

serve-IsPerformed_example :
    IsPerformed
      (requested api_json remove_cidrs config)
      config
      (serve assoc Document fails is_cidr api_json saving remove_cidrs start).server.config
serve-IsPerformed_example =
    serve-IsPerformed assoc Document fails is_cidr api_json saving remove_cidrs start

-- What that request asks for.
requested_test :
    requested api_json remove_cidrs config ≡ Call.remove_cidr (pos 0) (codes "10.0.0.0/8") ∷ []
unfolding dispatch find_net_list_index dns_box.Prelude.split dns_box.Prelude.trim_space
    dns_box.Prelude.trim_prefix dns_box.Prelude.has_prefix dns_box.Prelude.join text_eq
    dns_box.Config.get_net_lists
requested_test = refl

serve-Outcome_example :
    Outcome assoc Document delete start
      (serve assoc Document fails is_cidr api_json saving remove_cidrs start)
serve-Outcome_example =
    serve-Outcome assoc Document fails is_cidr api_json saving remove_cidrs start

video-IsSegment : IsSegment (codes "video")
video-IsSegment = record {
  nonempty = λ e. cc;
  not_here = λ e. cc;
  not_parent = λ e. cc;
  whole = ground arith;
}

net-IsSegment : IsSegment (codes "net")
net-IsSegment = record {
  nonempty = λ e. cc;
  not_here = λ e. cc;
  not_parent = λ e. cc;
  whole = ground arith;
}

dispatch-list_path_example : dispatch (list_path (codes "net") (codes "video")) ≡ to net_list
unfolding text_eq
dispatch-list_path_example =
    dispatch-list_path (codes "net") (codes "video") net-IsSegment video-IsSegment

serve-list_path_example :
    (serve assoc Document fails is_cidr api_json saving
        (record { method = get; path = codes "/ipset/video/domains"; body = none })
        start
      ≡ handle_list_domains assoc Document saving api_json.names api_json.lists get 0 none start)
    × (serve assoc Document fails is_cidr api_json saving
          (record { method = get; path = codes "/ipset/video/suffixes"; body = none })
          start
        ≡ handle_list_suffixes assoc Document saving api_json.names api_json.lists get 0 none start)
unfolding dns_box.Config.get_ipset_lists
serve-list_path_example =
    serve-list_path assoc Document fails is_cidr api_json saving get (codes "video") none start 0
      video-IsSegment (λ e. cc) refl
