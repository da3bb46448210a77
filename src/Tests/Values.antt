-- ===== src/Tests/Values.antt =====
-- A configuration, a codec for records, a network and a repository to try the code on.
use dns_box.Prelude.{
  ℕ, ◌<◌, ◌^◌, true, false, Text, codes, Option, none, some, List, [], ◌∷◌, ◌++◌, ◌≡◌, refl, arith,
  pos, length, drop, drop-append, text_eq, if◌then◌else◌, has_prefix, trim_prefix,
}
use mathlib.Core.List.{append_assoc}
use dns_box.Cache.DnsCache.{RrCodec, IsFaithful}
use dns_box.Config.{Config, IpSetListConfig, NetListConfig, RulesConfig, HostsConfig}
use dns_box.Config.Save.{SavedConfig, Codec, Faults}
use dns_box.Github.{Api, file}
use dns_box.Dns.Message.{RrData, a, aaaa, Rr, Msg}
use dns_box.Dns.Upstream.{Net, Url, ipv4}

abbrev pub video : RulesConfig
video = record { domains = codes "video.example" ∷ []; domain_suffix = codes "cdn.example" ∷ [] }

abbrev pub video_list : IpSetListConfig
video_list = record { name = codes "video"; enable_ipv6 = true; timeout = 0; rules = video }

abbrev pub office : NetListConfig
office = record {
  name = codes "office";
  enable_ipv6 = false;
  timeout = 0;
  asn = [];
  cidrs = some (codes "10.0.0.0/8" ∷ []);
}

abbrev pub config : Config
config = record {
  server = record { address = codes ":53" ∷ []; log = codes "info" };
  dns = record {
    upstream_servers = codes "tcp://1.1.1.1:53" ∷ codes "https://dns.example/q" ∷ [];
    timeout = pos 5;
  };
  ipset = record {
    ipv4_name = [];
    ipv6_name = [];
    lists = video_list ∷ [];
    net_lists = office ∷ [];
  };
  rules = record { domains = codes "shared.example" ∷ []; domain_suffix = [] };
  block_list = record { enabled = true; urls = codes "hosts" ∷ []; refresh_hours = pos 24 };
  github_backup = record {
    enabled = true;
    token = codes "t";
    owner = codes "o";
    repo = codes "r";
    path = codes "hosts.json";
    branch = codes "main";
  };
  path = codes "config.json";
}

-- The codec whose documents are the configurations themselves.
pub data Document : Type 0 where
  document : SavedConfig → Document
  hosts : HostsConfig → Document
  torn : Document

abbrev saved_of : Document → Option SavedConfig
saved_of (document s) = some s
saved_of (hosts h) = none
saved_of torn = none

abbrev hosts_of : Document → Option HostsConfig
hosts_of (document s) = none
hosts_of (hosts h) = some h
hosts_of torn = none

abbrev pub json : Codec Document
json = record {
  encode = document;
  decode = saved_of;
  encode_hosts = λ h. some (hosts h);
  decode_hosts = hosts_of;
}

abbrev pub no_faults : Faults Document
no_faults = record {
  open_fails = false;
  create_fails = false;
  encode_fails = false;
  sync_fails = false;
  close_fails = false;
  rename_fails = false;
  remove_fails = false;
  part = torn;
  empty = torn;
}

abbrev pub rename_fault : Faults Document
rename_fault = record no_faults { rename_fails = true }

abbrev pub repository : Api Document
repository = record {
  get_contents = λ _. file (some (codes "5ha")) (some torn);
  accepts = λ _. true;
}

-- A record is packed if its name has two characters and its address seven.
abbrev packed : Text → ℕ → RrData → Option (List ℕ)
packed (n ∷ m ∷ []) ttl (a (p ∷ q ∷ r ∷ s ∷ t ∷ u ∷ v ∷ [])) =
    some (n ∷ m ∷ ttl ∷ p ∷ q ∷ r ∷ s ∷ t ∷ u ∷ v ∷ [])
packed name ttl d = none

abbrev unpacked : List ℕ → Option Rr
unpacked (n ∷ m ∷ ttl ∷ p ∷ q ∷ r ∷ s ∷ t ∷ u ∷ v ∷ behind) =
    some (record { name = n ∷ m ∷ []; ttl = ttl; rr_data = a (p ∷ q ∷ r ∷ s ∷ t ∷ u ∷ v ∷ []) })
unpacked buf = none

abbrev pub codec : RrCodec Rr
codec = record {
  pack = λ r. packed r.name r.ttl r.rr_data;
  unpack = λ buf offset. unpacked (drop offset buf);
}

abbrev pub address : Rr
address = record { name = codes "v."; ttl = 60; rr_data = a (codes "9.9.9.9") }

abbrev pub address6 : Rr
address6 = record { name = codes "v."; ttl = 60; rr_data = aaaa (codes "fd00::9") }

-- Every server that is asked has the address of "video.example." and knows no other name.
abbrev reply : Text → Option Msg
reply name =
    if text_eq name (codes "video.example.")
    then some (record { rcode = 0; answer = address ∷ []; ns = [] })
    else some (record { rcode = 3; answer = []; ns = [] })

abbrev parsed : Text → Option Url
parsed ns =
    if has_prefix ns (codes "tcp://")
    then some (record {
      scheme = codes "tcp";
      host = trim_prefix ns (codes "tcp://");
      hostname = trim_prefix ns (codes "tcp://");
    })
    else if has_prefix ns (codes "https://")
    then some (record { scheme = codes "https"; host = ns; hostname = ns })
    else none

abbrev pub network : Net
network = record {
  parse_url = parsed;
  has_port = λ _. true;
  parse_ip = λ _. ipv4;
  fqdn = λ name. name;
  client_exchange = λ _ _ q. reply q.name;
  post = λ _ _ _. none;
  unpack = λ _. none;
}

unpack-pack :
    (name : Text) (ttl : ℕ) (d : RrData) (b behind : List ℕ)
    → packed name ttl d ≡ some b
    → unpacked (b ++ behind) ≡ some (record { name = name; ttl = ttl; rr_data = d })
unpack-pack (n ∷ m ∷ []) ttl (a (p ∷ q ∷ r ∷ s ∷ t ∷ u ∷ v ∷ [])) b behind h =
    let same : (n ∷ m ∷ ttl ∷ p ∷ q ∷ r ∷ s ∷ t ∷ u ∷ v ∷ []) ≡ b = cc in rw (← same) refl
unpack-pack name ttl d b behind h = cc

pack-lt :
    (name : Text) (ttl : ℕ) (d : RrData) (b : List ℕ)
    → packed name ttl d ≡ some b
    → length b < 2 ^ 16
pack-lt (n ∷ m ∷ []) ttl (a (p ∷ q ∷ r ∷ s ∷ t ∷ u ∷ v ∷ [])) b h =
    let same : (n ∷ m ∷ ttl ∷ p ∷ q ∷ r ∷ s ∷ t ∷ u ∷ v ∷ []) ≡ b = cc in rw (← same) (omega arith)
pack-lt name ttl d b h = cc

pub codec-IsFaithful : IsFaithful codec
codec-IsFaithful = record {
  unpack-pack = λ r b before behind h.
      rw (append_assoc before b behind, drop-append before (b ++ behind))
        (unpack-pack r.name r.ttl r.rr_data b behind h);
  pack-lt = λ r b h. pack-lt r.name r.ttl r.rr_data b h;
}
