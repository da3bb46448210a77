-- ===== src/Tests/HandlerCases.antt =====
-- Whole requests.
use dns_box.Prelude.{
  ℕ, inl, inr, ◌+◌, ◌*◌, ◌≤◌, Bool, true, false, Text, codes, Option, none, some, List, [], ◌∷◌,
  ◌≡◌, refl, ◌↔◌, All, In, text_eq,
}
use dns_box.Blocklist
use dns_box.Blocklist.{BlockList, new_block_list}
use dns_box.Cache.DomainCache
use dns_box.Cache.DomainCache.{new_domain_cache}
use dns_box.Cache.FastCache.Assoc.{assoc}
use dns_box.Cache.DnsCache.Readable.{IsReadable}
use dns_box.Config.{get_ipset_lists}
use dns_box.Ipset.{Command, add}
use dns_box.Dns.Match.{is_domain_in_list}
use dns_box.Dns.Message.{a, Question, rcode_success}
use dns_box.Dns.Resolver.{done, State}
use dns_box.Dns.Resolver.Good.{Returns}
use dns_box.Dns.Resolver.Calls.{servers}
use dns_box.Dns.Handler.{Request, Handler, process_answers, serve_dns}
use dns_box.Dns.Handler.Answers.{CommandFrom}
use dns_box.Dns.Handler.Times.{count, pairs_for, process_answers_times}
use dns_box.Dns.Handler.Serve.{
  IsServed, count_free, null_answers, serve_dns_replies, serve_dns_calls, serve_dns_blocked,
}
use dns_box.Startup.Sets.{
  set_up, create_sets, create_list_sets, create_net_lists, create_net_list, add_networks,
}
use dns_box.Startup.{domain_cache, list_domain_caches}
use dns_box.Tests.CacheCases.{answers, answers-IsReadable}
use dns_box.Tests.Values.{config, network, codec, address, address6}

abbrev ads_list : BlockList assoc
ads_list = record (new_block_list assoc []) {
  blocked_domains = DomainCache.add assoc (new_domain_cache assoc 64) (codes "ads.example");
}

abbrev handler : Handler assoc
handler = record {
  config = config;
  net = network;
  now = λ tick. 1000 + tick;
  domain_cache = domain_cache assoc config;
  list_domain_caches = list_domain_caches assoc config;
  block_list = some ads_list;
  new_rr = λ name. some (record { name = name; ttl = 3600; rr_data = a (codes "0.0.0.0") });
}

abbrev state : State assoc codec
state = record { cache = answers; calls = 0; ticks = 0 }

abbrev ads : Question
ads = record { name = codes "ads.example."; qtype = 1 }

abbrev video : Question
video = record { name = codes "video.example."; qtype = 1 }

abbrev mixed : Request
mixed = record { questions = ads ∷ video ∷ []; edns = some true }

abbrev only_ads : Request
only_ads = record { questions = ads ∷ []; edns = none }

process_answers_times_example :
    ((cmd : Command)
      → In cmd (
          process_answers assoc config
            (list_domain_caches assoc config)
            (address ∷ address6 ∷ [])
            video.name)
        ↔ CommandFrom
            (is_domain_in_list assoc (list_domain_caches assoc config) video.name)
            (get_ipset_lists config)
            (address ∷ address6 ∷ [])
            cmd)
    × ((p : Command → Bool)
        → count p (
            process_answers assoc config
              (list_domain_caches assoc config)
              (address ∷ address6 ∷ [])
              video.name)
          ≡ pairs_for p
              (is_domain_in_list assoc (list_domain_caches assoc config) video.name)
              0
              (get_ipset_lists config)
              (address ∷ address6 ∷ []))
process_answers_times_example =
    process_answers_times assoc config (list_domain_caches assoc config) (address ∷ address6 ∷ [])
      video.name

serve_dns_replies_example :
    Returns (IsServed assoc codec handler (some true)) (serve_dns assoc codec handler mixed state).0
    × IsReadable codec assoc (serve_dns assoc codec handler mixed state).1.cache
serve_dns_replies_example = serve_dns_replies assoc codec handler mixed state answers-IsReadable

serve_dns_calls_example :
    (serve_dns assoc codec handler mixed state).1.calls
    ≤ 0
      + count_free assoc codec handler (ads ∷ video ∷ [])
        * (11 * servers assoc codec config network (λ tick. 1000 + tick))
serve_dns_calls_example = serve_dns_calls assoc codec handler mixed state

ads_blocked : Blocklist.is_blocked assoc ads_list (dns_box.Dns.Match.question_name ads.name) ≡ true
unfolding dns_box.Dns.Match.question_name dns_box.Prelude.trim_suffix text_eq Blocklist.is_blocked
    DomainCache.contains dns_box.Cache.FastCache.Assoc.find DomainCache.add
ads_blocked = refl

serve_dns_blocked_example : serve_dns assoc codec handler only_ads state ≡ (
  done (record {
    authoritative = true;
    edns = none;
    answer = null_answers assoc codec handler (ads ∷ []);
    rcode = rcode_success;
    sent = [];
  }),
  state,
)
serve_dns_blocked_example = serve_dns_blocked assoc codec handler only_ads state (ads_blocked, tt)

abbrev no_failure : Command → Bool
no_failure c = false

abbrev parse_cidr : Text → Option Bool
parse_cidr cidr = some true

set_up_test : (set_up no_failure parse_cidr config []).0 ≡ true
unfolding set_up create_sets create_list_sets create_net_lists create_net_list add_networks
    get_ipset_lists
set_up_test = refl

v6_command : In (add (codes "video6") (codes "fd00::9") 900) (
    process_answers assoc config
      (list_domain_caches assoc config)
      (address ∷ address6 ∷ [])
      video.name)
unfolding process_answers dns_box.Dns.Handler.answer_commands dns_box.Dns.Handler.list_commands
    get_ipset_lists dns_box.Dns.Handler.list_command is_domain_in_list list_domain_caches
    dns_box.Dns.Match.matches dns_box.Cache.DomainCache.contains dns_box.Cache.FastCache.Assoc.find
    dns_box.Startup.fill_cache dns_box.Cache.DomainCache.add_suffix text_eq
    dns_box.Cache.DomainCache.dotted dns_box.Dns.Match.question_name dns_box.Prelude.trim_suffix
    dns_box.Cache.DomainCache.add dns_box.Ipset.add_element dns_box.Dns.Ttl.normalize_ttl
v6_command = inr (inl refl)
