-- ===== src/Tests/DnsCases.antt =====
-- The servers and the resolver.
use dns_box.Prelude.{
  ℕ, zero, suc, ◌+◌, ◌*◌, ◌<◌, ◌≤◌, ◌^◌, Bool, true, false, Text, codes, Option, none, some, List,
  [], ◌∷◌, ◌≡◌, ◌≢◌, refl, arith, length, if◌then◌else◌,
}
use mathlib.Core.List.{Perm}
use dns_box.Cache.FastCache.Assoc.{assoc}
use dns_box.Cache.DnsCache.Decode.{packable}
use dns_box.Cache.DnsCache.Readable.{IsReadable}
use dns_box.Dns.Message.{rcode_success, rcode_name_error}
use dns_box.Dns.Servers.{sort_servers, server_rank}
use dns_box.Dns.Servers.Sorted.{IsSorted, sort_servers-IsSorted}
use dns_box.Dns.Resolver.{Outcome, panics, done, State, Answers, resolver, get_from_cache}
use dns_box.Dns.Resolver.Good.{Returns, IsReply, resolver_replies}
use dns_box.Dns.Resolver.Repeat.{
  IsFresh, read_once, resolver_repeats_success, resolver_forgets_name_error,
}
use dns_box.Dns.Upstream.{Net, no_ip, udp, attempt_for}
use dns_box.Tests.CacheCases.{answers, answers-IsReadable}
use dns_box.Tests.Values.{config, network, codec, codec-IsFaithful, address}

abbrev scheme : Text → Option Text
scheme ns = elim (network.parse_url ns) [ none ↦ none | some u ↦ some u.scheme ]

sort_servers-IsSorted_example :
    Perm (sort_servers scheme config.dns.upstream_servers) config.dns.upstream_servers
    × IsSorted (server_rank scheme) (sort_servers scheme config.dns.upstream_servers)
sort_servers-IsSorted_example = sort_servers-IsSorted scheme config.dns.upstream_servers

sort_servers_test :
    sort_servers scheme config.dns.upstream_servers
    ≡ codes "https://dns.example/q" ∷ codes "tcp://1.1.1.1:53" ∷ []
unfolding sort_servers dns_box.Dns.Servers.exchange_sort dns_box.Dns.Servers.exchange server_rank
    dns_box.Dns.Servers.priority dns_box.Dns.Servers.get_scheme dns_box.Prelude.has_prefix
sort_servers_test = refl

abbrev clock : ℕ → ℕ
clock tick = 1000 + tick

abbrev state : State assoc codec
state = record { cache = answers; calls = 0; ticks = 0 }

abbrev ask_video : State assoc codec → Outcome (Answers assoc codec) × State assoc codec
ask_video = resolver assoc codec config network clock 11 (codes "video.example.") 1

abbrev ask_gone : State assoc codec → Outcome (Answers assoc codec) × State assoc codec
ask_gone = resolver assoc codec config network clock 11 (codes "gone.example.") 1

resolver_replies_example :
    Returns (IsReply assoc codec config network clock) (ask_gone state).0
    × IsReadable codec assoc (ask_gone state).1.cache
resolver_replies_example =
    resolver_replies assoc codec config network clock 11 (codes "gone.example.") 1 state
      answers-IsReadable

missed_video :
    (get_from_cache assoc codec config network clock (codes "video.example.") 1 state).0 ≡ done none
unfolding get_from_cache dns_box.Cache.DnsCache.get dns_box.Cache.DnsCache.get_value
    dns_box.Cache.FastCache.Assoc.find
missed_video = refl

answered_video :
    ((ask_video state).0 ≡ done (some (address ∷ []), rcode_success))
    × ((ask_video state).1.ticks ≡ 2)
unfolding resolver get_from_cache dns_box.Cache.DnsCache.get dns_box.Cache.DnsCache.get_value
    dns_box.Cache.FastCache.Assoc.find dns_box.Dns.Resolver.query_upstream
    dns_box.Dns.Upstream.query_servers sort_servers dns_box.Dns.Servers.exchange_sort
    dns_box.Dns.Upstream.attempt_for dns_box.Dns.Upstream.server_url dns_box.Prelude.has_prefix
    dns_box.Dns.Servers.exchange server_rank dns_box.Dns.Servers.priority
    dns_box.Dns.Servers.get_scheme dns_box.Dns.Upstream.ask dns_box.Dns.Upstream.exchange_doh
    dns_box.Cache.DnsCache.decode_from dns_box.Cache.DnsCache.encode_records
    dns_box.Cache.DnsCache.set dns_box.Cache.DnsCache.stored dns_box.Cache.Wire.put_u16
    dns_box.Cache.Wire.put_u64 dns_box.Cache.Wire.read_be dns_box.Dns.Resolver.cache_key
    dns_box.Dns.Resolver.cache_response dns_box.Dns.Resolver.decimal dns_box.Dns.Resolver.follow
    dns_box.Dns.Resolver.min_ttl dns_box.Dns.Resolver.negative_ttl dns_box.Dns.Resolver.resolve_step
    dns_box.Dns.Resolver.store dns_box.Dns.Ttl.normalize_ttl dns_box.Dns.Upstream.dial_host
    dns_box.Dns.Upstream.endpoint_url dns_box.Prelude.to_u32 dns_box.Prelude.contains_text
    dns_box.Prelude.text_eq
answered_video = (refl, refl)

abbrev later_video : State assoc codec
later_video = record (ask_video state).1 { ticks = 200 }

IsFresh-video :
    IsFresh assoc codec config network clock
      (codes "video.example.")
      1
      (ask_video state).1
      later_video
IsFresh-video = record {
  tick = 1;
  latest = answered_video.1;
  same = refl;
  soon = omega arith;
  small = omega arith;
}

resolver_repeats_success_example : ask_video later_video ≡ (
  done (some (packable codec (address ∷ [])), rcode_success),
  read_once assoc codec config network clock (codes "video.example.") 1 later_video,
)
resolver_repeats_success_example =
    resolver_repeats_success assoc codec config network clock (codes "video.example.") 1
      codec-IsFaithful (λ v. refl) 10 10 state later_video address [] missed_video answered_video.0
      IsFresh-video

missed_gone :
    (get_from_cache assoc codec config network clock (codes "gone.example.") 1 state).0 ≡ done none
unfolding get_from_cache dns_box.Cache.DnsCache.get dns_box.Cache.DnsCache.get_value
    dns_box.Cache.FastCache.Assoc.find
missed_gone = refl

answered_gone :
    ((ask_gone state).0 ≡ done (none, rcode_name_error)) × ((ask_gone state).1.ticks ≡ 2)
unfolding resolver get_from_cache dns_box.Cache.DnsCache.get dns_box.Cache.DnsCache.get_value
    dns_box.Cache.FastCache.Assoc.find dns_box.Dns.Resolver.query_upstream
    dns_box.Dns.Upstream.query_servers sort_servers dns_box.Dns.Servers.exchange_sort
    dns_box.Dns.Upstream.attempt_for dns_box.Dns.Upstream.server_url dns_box.Prelude.has_prefix
    dns_box.Dns.Servers.exchange server_rank dns_box.Dns.Servers.priority
    dns_box.Dns.Servers.get_scheme dns_box.Dns.Upstream.ask dns_box.Dns.Upstream.exchange_doh
    dns_box.Cache.DnsCache.decode_from dns_box.Cache.DnsCache.encode_records
    dns_box.Cache.DnsCache.set dns_box.Cache.DnsCache.stored dns_box.Cache.Wire.put_u16
    dns_box.Cache.Wire.put_u64 dns_box.Cache.Wire.read_be dns_box.Dns.Resolver.cache_key
    dns_box.Dns.Resolver.cache_response dns_box.Dns.Resolver.decimal dns_box.Dns.Resolver.follow
    dns_box.Dns.Resolver.min_ttl dns_box.Dns.Resolver.negative_ttl dns_box.Dns.Resolver.resolve_step
    dns_box.Dns.Resolver.store dns_box.Dns.Ttl.normalize_ttl dns_box.Dns.Upstream.dial_host
    dns_box.Dns.Upstream.endpoint_url dns_box.Prelude.to_u32 dns_box.Prelude.contains_text
    dns_box.Prelude.text_eq
answered_gone = (refl, refl)

abbrev later_gone : State assoc codec
later_gone = record (ask_gone state).1 { ticks = 200 }

IsFresh-gone :
    IsFresh assoc codec config network clock (codes "gone.example.") 1 (ask_gone state).1 later_gone
IsFresh-gone = record {
  tick = 1;
  latest = answered_gone.1;
  same = refl;
  soon = omega arith;
  small = omega arith;
}

resolver_forgets_name_error_example : ask_gone later_gone ≡ (
  done (some [], rcode_success),
  read_once assoc codec config network clock (codes "gone.example.") 1 later_gone,
)
resolver_forgets_name_error_example =
    resolver_forgets_name_error assoc codec config network clock (codes "gone.example.") 1
      codec-IsFaithful (λ v. refl) 10 10 state later_gone missed_gone answered_gone.0 IsFresh-gone

-- net/url and net on an address without a scheme.
abbrev bare : Net
bare = record network {
  parse_url = λ _. some (record { scheme = []; host = []; hostname = [] });
  has_port = λ _. false;
  parse_ip = λ _. no_ip;
}

attempt_for_test : attempt_for bare (codes "62.112.106.130") ≡ some (udp [])
unfolding attempt_for dns_box.Dns.Upstream.server_url dns_box.Dns.Upstream.dial_host
    dns_box.Prelude.text_eq
attempt_for_test = refl
