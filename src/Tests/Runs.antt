-- ===== src/Tests/Runs.antt =====
-- The program as a whole: a start, and runs from it.
use dns_box.Prelude.{
  ℕ, zero, suc, ◌+◌, ◌≤◌, ◌≡◌, ◌≢◌, refl, arith, codes, Bool, true, false, Text, Option, none, some,
  List, [], ◌∷◌, inl, inr, text_eq, if◌then◌else◌, pos, Bool-cases, ap, In, All, modify, subst,
}
use dns_box.Cache.FastCache.Assoc.{assoc}
use dns_box.Config.{Config, is_nonempty}
use dns_box.Config.Save.{World, SaveError, err, final_config, save_config}
use dns_box.Config.Load.{load_config}
use dns_box.Ipset.{Command, add}
use dns_box.Startup.{domain_cache, list_domain_caches}
use dns_box.Startup.Sets.{set_up, add_network}
use dns_box.Startup.Begin.{Begun, begun, begin, new_handlers}
use dns_box.Blocklist.{BlockList, Sources, update_lists, new_block_list}
use dns_box.Blocklist.Service.{tick}
use dns_box.Dns.Handler.{Request}
use dns_box.Api.{Server, Saving, post}
use dns_box.Api.Routes.{ApiJson, ApiRequest, serve}
use dns_box.Process.{
  serving, new_listener, in_phase, listening, returned, Process, Outside, launched, saving_with,
  refresh, cancel, spawn, stopping_dns, stopping_api, closed, save, join, stop, listen, api_start,
  api_listen, call, wake, Reach, here, next, ended, shut_down, shut,
}
use dns_box.Process.Safety.{}
use dns_box.Tests.Values.{Document, document, config, json, no_faults, repository, network, codec}

abbrev api_json : ApiJson
api_json = record {
  names = λ names. codes "[]";
  lists = λ lists. codes "[]";
  net_lists = λ lists. codes "[]";
  url = λ body. some body;
}

abbrev pub outside : Outside Document
outside = record {
  json = json;
  api_json = api_json;
  is_cidr = λ t. true;
  net = network;
  now = λ tick. 1000 + tick;
  new_rr = λ name. none;
}

abbrev pub no_failure : Command → Bool
no_failure c = false

abbrev pub parse_cidr : Text → Option Bool
parse_cidr t = some true

abbrev pub path : Text
path = codes "config.json"

abbrev pub world : World Document
world = record {
  disk = λ p.
      if text_eq p (codes "config.json")
      then some (document (final_config json config (λ _. none)))
      else none;
  unsynced = λ _. false;
  history = [];
}

abbrev pub start : Server assoc Document
start = record {
  config = config;
  domain_cache = domain_cache assoc config;
  list_domain_caches = list_domain_caches assoc config;
  block_list = some (new_block_list assoc config.block_list.urls);
  world = world;
  sent = (set_up no_failure parse_cidr config []).1;
}

pub loads : load_config json world.disk path ≡ some config
unfolding load_config text_eq final_config
loads = refl

pub started : begin assoc Document json false no_failure parse_cidr path world ≡ begun start
unfolding begin new_handlers load_config text_eq final_config set_up
    dns_box.Startup.Sets.create_sets dns_box.Startup.Begin.block_list_of
    dns_box.Config.get_ipset_lists dns_box.Startup.Sets.create_list_sets
    dns_box.Startup.Sets.create_net_lists dns_box.Startup.Sets.create_net_list
    dns_box.Startup.Sets.add_networks dns_box.Startup.Durations.refresh_period
started = refl

abbrev add_cidrs : ApiRequest
add_cidrs = record {
  method = post;
  path = codes "/ipset/net/office/cidrs";
  body = some (codes "10.1.0.0/16\n");
}

-- A listener serves, a network is posted, and the signal comes.
abbrev pub at_wait : Process assoc codec Document
at_wait = launched assoc codec Document outside start

abbrev pub spawned : Process assoc codec Document
spawned = record at_wait { unspawned = []; listeners = new_listener ∷ [] }

abbrev with_api : Process assoc codec Document
with_api = record spawned { listeners = in_phase serving new_listener ∷ []; api = listening }

abbrev pub posted : Process assoc codec Document
posted = record with_api {
  server =
      (serve assoc Document no_failure outside.is_cidr api_json
        (saving_with assoc codec Document outside no_faults repository []) add_cidrs start).server;
}

abbrev pub signalled : Process assoc codec Document
signalled = record posted { cancelled = true }

abbrev to_api : Reach assoc codec Document outside at_wait with_api
to_api =
    next
      (next
        (next (next here refl (spawn (codes ":53") [] refl)) refl (listen 0 new_listener refl refl))
        refl (api_start refl))
      refl (api_listen refl)

abbrev pub to_posted : Reach assoc codec Document outside at_wait posted
to_posted = next to_api refl (call no_failure no_faults repository [] add_cidrs refl)

abbrev pub to_signalled : Reach assoc codec Document outside at_wait signalled
to_signalled = next to_posted refl (cancel refl)

-- The network that was posted, behind the sets and the network of the configuration.
pub posted_network : In (add (codes "office") (codes "10.1.0.0/16") 7200) signalled.server.sent
unfolding serve text_eq dns_box.Prelude.join dns_box.Prelude.split dns_box.Prelude.has_prefix
    dns_box.Api.Routes.handle dns_box.Api.NetLists.handle_net_list dns_box.Prelude.trim_prefix
    dns_box.Api.NetLists.find_net_list_index dns_box.Config.get_net_lists
    dns_box.Api.NetLists.handle_net_list_cidrs dns_box.Api.with_lines dns_box.Api.finish save_config
    dns_box.Api.each_line dns_box.Prelude.trim_space dns_box.Api.NetLists.add_cidr set_up
    dns_box.Startup.Sets.create_sets dns_box.Config.get_ipset_lists
    dns_box.Startup.Sets.create_list_sets dns_box.Startup.Sets.create_net_lists
    dns_box.Startup.Sets.create_net_list dns_box.Startup.Sets.add_networks
    dns_box.Config.Lists.add_cidr_to_net_list dns_box.Github.save_file dns_box.Ipset.add_element
posted_network = inr (inr (inr (inr (inl refl))))

abbrev pub video : Request
video = record {
  questions = record { name = codes "video.example."; qtype = 1 } ∷ [];
  edns = some true;
}

-- The service of the blocklist has loaded its list.
abbrev sources : Sources
sources = record {
  get = λ url. none;
  open_file = λ name. some (record { lines = codes "0.0.0.0 ads.example" ∷ []; broken = false });
}

abbrev pub loaded_list : BlockList assoc
loaded_list = update_lists assoc sources 7 (new_block_list assoc config.block_list.urls)

abbrev pub refreshed : Process assoc codec Document
refreshed = record with_api { server = record with_api.server { block_list = some loaded_list } }

stopped_later : loaded_list.stopped ≡ true → with_api.cancelled ≡ true
unfolding update_lists new_block_list
stopped_later e = cc

pub to_refreshed : Reach assoc codec Document outside at_wait refreshed
unfolding new_block_list
to_refreshed = next to_api refl (
    refresh (new_block_list assoc config.block_list.urls) loaded_list refl
      (tick sources 7 (new_block_list assoc config.block_list.urls) refl) stopped_later)

pub never_panics :
    (c : Config) (w : World Document)
    → (save_config json no_faults repository c [] w).0 ≢ err SaveError.upload_panicked
unfolding save_config dns_box.Github.save_file
never_panics c w = elim (Bool-cases (is_nonempty c.path)) [
  | inl named ↦ elim (Bool-cases c.github_backup.enabled) [
    | inl on ↦ rw (named, on) (λ e. cc)
    | inr off ↦ rw (named, off) (λ e. cc)
  ]
  | inr unnamed ↦ rw unnamed (λ e. cc)
]

-- The run goes on to its end.
abbrev saved : Process assoc codec Document
saved = record signalled {
  server = record signalled.server {
    world =
        (save_config json no_faults repository signalled.server.config [] signalled.server.world).1;
  };
  main = stopping_dns;
}

abbrev ended_listeners : Process assoc codec Document
ended_listeners = record saved {
  listeners = record { phase = ended; told = true } ∷ [];
  main = stopping_api;
}

abbrev pub over : Process assoc codec Document
over = record ended_listeners { api = closed; main = returned }

to_saved : Reach assoc codec Document outside at_wait saved
to_saved = next (next to_signalled refl (wake refl refl)) refl (
    save no_faults repository [] refl (never_panics signalled.server.config signalled.server.world))

pub to_over : Reach assoc codec Document outside at_wait over
unfolding shut_down
to_over =
    next
      (next (next to_saved refl (shut 0 (in_phase serving new_listener) refl refl refl)) refl
        (join refl (refl, tt)))
      refl (stop refl (λ e. cc))
