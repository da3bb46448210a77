-- ===== src/Config/Lists.antt =====
-- The rules of one ipset list, and the CIDRs of one net list, addressed by an index.
pub mod Laws
use dns_box.Prelude.{Text, ℤ, Option, none, some, ℕ, modify, items, List, if◌then◌else◌}
use dns_box.Config.{
  Config, RulesConfig, IpSetListConfig, NetListConfig, is_nonempty, in_range, is_first,
}
use dns_box.Config.Rules.{
  rules_add_domain, rules_remove_domain, rules_add_suffix, rules_remove_suffix,
}
use dns_box.Config.Rules.Sets.{append_new, without}

abbrev pub set_lists : Config → List IpSetListConfig → Config
set_lists c lists = record c { ipset = record c.ipset { lists = lists } }

abbrev pub at_list : Config → Option ℕ → (RulesConfig → RulesConfig) → Config
at_list c none change = c
at_list c (some i) change =
    set_lists c (modify c.ipset.lists i (λ l. record l { rules = change l.rules }))

-- The guards that the four mutators share: with no lists index 0 means the shared rules, and an
-- index out of range changes nothing.
unfoldable pub change_rules : Config → ℤ → (RulesConfig → RulesConfig) → Config
change_rules c index change =
    if is_nonempty c.ipset.lists
    then at_list c (in_range index c.ipset.lists) change
    else if is_first index
    then record c { rules = change c.rules }
    else c

unfoldable pub add_domain_to_list : Config → ℤ → Text → Config
unfolding change_rules
add_domain_to_list c index domain = change_rules c index (rules_add_domain domain)

unfoldable pub remove_domain_from_list : Config → ℤ → Text → Config
unfolding change_rules
remove_domain_from_list c index domain = change_rules c index (rules_remove_domain domain)

unfoldable pub add_suffix_to_list : Config → ℤ → Text → Config
unfolding change_rules
add_suffix_to_list c index suffix = change_rules c index (rules_add_suffix suffix)

unfoldable pub remove_suffix_from_list : Config → ℤ → Text → Config
unfolding change_rules
remove_suffix_from_list c index suffix = change_rules c index (rules_remove_suffix suffix)

-- `append` on a nil slice makes a slice.
abbrev pub append_new_cidr : Text → Option (List Text) → Option (List Text)
append_new_cidr cidr none = some (append_new cidr (items none))
append_new_cidr cidr (some xs) = some (append_new cidr xs)

abbrev pub at_net_list : Config → Option ℕ → (NetListConfig → NetListConfig) → Config
at_net_list c none change = c
at_net_list c (some i) change = record c {
  ipset = record c.ipset { net_lists = modify c.ipset.net_lists i change };
}

unfoldable pub add_cidr_to_net_list : Config → ℤ → Text → Config
add_cidr_to_net_list c index cidr =
    at_net_list c (in_range index c.ipset.net_lists)
      (λ l. record l { cidrs = append_new_cidr cidr l.cidrs })

unfoldable pub remove_cidr_from_net_list : Config → ℤ → Text → Config
remove_cidr_from_net_list c index cidr =
    at_net_list c (in_range index c.ipset.net_lists)
      (λ l. record l { cidrs = some (without cidr (items l.cidrs)) })
