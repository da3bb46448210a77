-- ===== src/Config.antt =====
-- internal/config/config.go: the types of the configuration and the read accessors. The mutators
-- are in the modules below. The mutex is not modelled: each method is one step.
pub mod Rules
pub mod Lists
pub mod Mutators
pub mod Disk
pub mod Save
pub mod Load
use dns_box.Prelude.{
  ℕ, ◌-◌, ◌<◌, zero, suc, Bool, true, false, not, Text, List, [], ◌∷◌, ◌++◌, Option, none, some, ℤ,
  pos, negsuc, length, get_elem?, ltb, if◌then◌else◌,
}

pub record ServerConfig : Type 0 where
  pub address : List Text
  pub log : Text

pub record DnsConfig : Type 0 where
  pub upstream_servers : List Text
  pub timeout : ℤ

pub record RulesConfig : Type 0 where
  pub domains : List Text
  pub domain_suffix : List Text

-- `timeout` is a uint32; 0 stands for the default.
pub record IpSetListConfig : Type 0 where
  pub name : Text
  pub enable_ipv6 : Bool
  pub timeout : ℕ
  pub rules : RulesConfig

-- The CIDRs keep the difference between a nil and an empty slice, which a handler tests.
pub record NetListConfig : Type 0 where
  pub name : Text
  pub enable_ipv6 : Bool
  pub timeout : ℕ
  pub asn : Text
  pub cidrs : Option (List Text)

pub record IpSetConfig : Type 0 where
  pub ipv4_name : Text
  pub ipv6_name : Text
  pub lists : List IpSetListConfig
  pub net_lists : List NetListConfig

pub record BlockListConfig : Type 0 where
  pub enabled : Bool
  pub urls : List Text
  pub refresh_hours : ℤ

pub record GithubConfig : Type 0 where
  pub enabled : Bool
  pub token : Text
  pub owner : Text
  pub repo : Text
  pub path : Text
  pub branch : Text

pub record Config : Type 0 where
  pub server : ServerConfig
  pub dns : DnsConfig
  pub ipset : IpSetConfig
  pub rules : RulesConfig
  pub block_list : BlockListConfig
  pub github_backup : GithubConfig
  pub path : Text

pub record HostsConfig : Type 0 where
  pub domains : List Text
  pub domain_suffix : List Text
  pub ipset_lists : List IpSetListConfig

abbrev pub is_nonempty {ℓ} : {A : Type ℓ} → List A → Bool
is_nonempty [] = false
is_nonempty (x ∷ xs) = true

-- The environment variable wins over the configured token; `env` is its value, empty if unset.
unfoldable pub get_token : GithubConfig → Text → Text
get_token g env = if is_nonempty env then env else g.token

-- The one list that stands for the legacy names; its rules are the shared ones.
abbrev pub legacy_list : Config → IpSetListConfig
legacy_list c = record {
  name = c.ipset.ipv4_name;
  enable_ipv6 = is_nonempty c.ipset.ipv6_name;
  timeout = 0;
  rules = c.rules;
}

unfoldable pub get_ipset_lists : Config → List IpSetListConfig
get_ipset_lists c =
    if is_nonempty c.ipset.lists
    then c.ipset.lists
    else if is_nonempty c.ipset.ipv4_name
    then legacy_list c ∷ []
    else []

-- The guard `listIndex < 0 || listIndex >= len(xs)`: the index as a number, if it is in range.
abbrev pub in_range {ℓ} : {A : Type ℓ} → ℤ → List A → Option ℕ
in_range (pos i) xs = if ltb i (length xs) then some i else none
in_range (negsuc i) xs = none

abbrev pub is_first : ℤ → Bool
is_first (pos zero) = true
is_first (pos (suc i)) = false
is_first (negsuc i) = false

abbrev pub rules_at : List IpSetListConfig → Option ℕ → Option RulesConfig
rules_at lists none = none
rules_at lists (some i) = elim (get_elem? lists i) [ none ↦ none | some l ↦ some l.rules ]

-- `none` is the nil pointer.
unfoldable pub get_list_rules : Config → ℤ → Option RulesConfig
get_list_rules c index =
    if is_nonempty c.ipset.lists
    then rules_at c.ipset.lists (in_range index c.ipset.lists)
    else if is_first index
    then some c.rules
    else none

unfoldable pub get_net_lists : Config → List NetListConfig
get_net_lists c = c.ipset.net_lists

abbrev cidrs_at : List NetListConfig → Option ℕ → Option (List Text)
cidrs_at lists none = none
cidrs_at lists (some i) = elim (get_elem? lists i) [ none ↦ none | some l ↦ l.cidrs ]

unfoldable pub get_net_list_cidrs : Config → ℤ → Option (List Text)
get_net_list_cidrs c index = cidrs_at c.ipset.net_lists (in_range index c.ipset.net_lists)
