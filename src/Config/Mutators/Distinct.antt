-- ===== src/Config/Mutators/Distinct.antt =====
-- Entries that stand twice in a list of the configuration, under the mutators of config.go.
use dns_box.Prelude.{
  ℕ, Bool, true, false, Text, ℤ, Option, none, some, List, [], ◌∷◌, items, All, All-modify,
  if◌then◌else◌,
}
use dns_box.Config.{Config, RulesConfig, IpSetListConfig, NetListConfig, is_first, in_range}
use dns_box.Config.Rules.Sets.{without, IsDistinct, append_new-IsDistinct, without-IsDistinct}
use dns_box.Config.Rules.{
  add_domain, remove_domain, add_suffix, remove_suffix, add_block_list_url, remove_block_list_url,
}
use dns_box.Config.Lists.Laws.{ListEdit, edit_rules, edit_list-change_rules}
use dns_box.Config.Lists.{
  add_cidr_to_net_list, remove_cidr_from_net_list, change_rules, at_list, at_net_list,
  append_new_cidr, set_lists,
}
use dns_box.Config.Mutators.{Call, apply, apply_all}

pub record HasDistinctRules (r : RulesConfig) : Type 0 where
  pub domains : IsDistinct r.domains
  pub suffixes : IsDistinct r.domain_suffix

pub record HasDistinctEntries (c : Config) : Type 0 where
  pub shared : HasDistinctRules c.rules
  pub urls : IsDistinct c.block_list.urls
  pub lists : All (λ l. HasDistinctRules l.rules) c.ipset.lists
  pub cidrs : All (λ l. IsDistinct (items l.cidrs)) c.ipset.net_lists

edit_rules-HasDistinctRules :
    (e : ListEdit) (r : RulesConfig) → HasDistinctRules r → HasDistinctRules (edit_rules e r)
edit_rules-HasDistinctRules (ListEdit.add_domain d) r h = record {
  domains = append_new-IsDistinct d r.domains h.domains;
  suffixes = h.suffixes;
}
edit_rules-HasDistinctRules (ListEdit.remove_domain d) r h = record {
  domains = without-IsDistinct d r.domains h.domains;
  suffixes = h.suffixes;
}
edit_rules-HasDistinctRules (ListEdit.add_suffix s) r h = record {
  domains = h.domains;
  suffixes = append_new-IsDistinct s r.domain_suffix h.suffixes;
}
edit_rules-HasDistinctRules (ListEdit.remove_suffix s) r h = record {
  domains = h.domains;
  suffixes = without-IsDistinct s r.domain_suffix h.suffixes;
}

at_list-HasDistinctEntries :
    (c : Config) (o : Option ℕ) (e : ListEdit)
    → HasDistinctEntries c
    → HasDistinctEntries (at_list c o (edit_rules e))
at_list-HasDistinctEntries c none e h = h
at_list-HasDistinctEntries c (some i) e h = record {
  shared = h.shared;
  urls = h.urls;
  lists =
      All-modify (λ l. HasDistinctRules l.rules) (λ l. record l { rules = edit_rules e l.rules })
        (λ l. edit_rules-HasDistinctRules e l.rules) c.ipset.lists i h.lists;
  cidrs = h.cidrs;
}

shared-HasDistinctEntries :
    (c : Config) (b : Bool) (e : ListEdit)
    → HasDistinctEntries c
    → HasDistinctEntries (if b then record c { rules = edit_rules e c.rules } else c)
shared-HasDistinctEntries c true e h = record {
  shared = edit_rules-HasDistinctRules e c.rules h.shared;
  urls = h.urls;
  lists = h.lists;
  cidrs = h.cidrs;
}
shared-HasDistinctEntries c false e h = h

change_rules-HasDistinctEntries :
    (c : Config) (lists : List IpSetListConfig) (i : ℤ) (e : ListEdit)
    → HasDistinctEntries (set_lists c lists)
    → HasDistinctEntries (change_rules (set_lists c lists) i (edit_rules e))
unfolding change_rules
change_rules-HasDistinctEntries c [] i e h =
    shared-HasDistinctEntries (set_lists c []) (is_first i) e h
change_rules-HasDistinctEntries c (l ∷ ls) i e h =
    at_list-HasDistinctEntries (set_lists c (l ∷ ls)) (in_range i (l ∷ ls)) e h

at_net_list-HasDistinctEntries :
    (c : Config) (o : Option ℕ) (f : NetListConfig → NetListConfig)
    → ((l : NetListConfig) → IsDistinct (items l.cidrs) → IsDistinct (items (f l).cidrs))
    → HasDistinctEntries c
    → HasDistinctEntries (at_net_list c o f)
at_net_list-HasDistinctEntries c none f k h = h
at_net_list-HasDistinctEntries c (some i) f k h = record {
  shared = h.shared;
  urls = h.urls;
  lists = h.lists;
  cidrs = All-modify (λ l. IsDistinct (items l.cidrs)) f k c.ipset.net_lists i h.cidrs;
}

append_new_cidr-IsDistinct :
    (s : Text) (o : Option (List Text))
    → IsDistinct (items o)
    → IsDistinct (items (append_new_cidr s o))
append_new_cidr-IsDistinct s none h = append_new-IsDistinct s [] h
append_new_cidr-IsDistinct s (some xs) h = append_new-IsDistinct s xs h

apply-HasDistinctEntries :
    (c : Config) (k : Call) → HasDistinctEntries c → HasDistinctEntries (apply c k)
unfolding add_domain remove_domain add_suffix remove_suffix add_block_list_url remove_block_list_url
    add_cidr_to_net_list remove_cidr_from_net_list
apply-HasDistinctEntries c (Call.add_domain d) h =
    shared-HasDistinctEntries c true (ListEdit.add_domain d) h
apply-HasDistinctEntries c (Call.remove_domain d) h =
    shared-HasDistinctEntries c true (ListEdit.remove_domain d) h
apply-HasDistinctEntries c (Call.add_suffix s) h =
    shared-HasDistinctEntries c true (ListEdit.add_suffix s) h
apply-HasDistinctEntries c (Call.remove_suffix s) h =
    shared-HasDistinctEntries c true (ListEdit.remove_suffix s) h
apply-HasDistinctEntries c (Call.add_block_list_url u) h = record {
  shared = h.shared;
  urls = append_new-IsDistinct u c.block_list.urls h.urls;
  lists = h.lists;
  cidrs = h.cidrs;
}
apply-HasDistinctEntries c (Call.remove_block_list_url u) h = record {
  shared = h.shared;
  urls = without-IsDistinct u c.block_list.urls h.urls;
  lists = h.lists;
  cidrs = h.cidrs;
}
apply-HasDistinctEntries c (Call.in_list i e) h =
    rw (edit_list-change_rules c i e) (change_rules-HasDistinctEntries c c.ipset.lists i e h)
apply-HasDistinctEntries c (Call.add_cidr i s) h =
    at_net_list-HasDistinctEntries c (in_range i c.ipset.net_lists)
      (λ l. record l { cidrs = append_new_cidr s l.cidrs })
      (λ l. append_new_cidr-IsDistinct s l.cidrs) h
apply-HasDistinctEntries c (Call.remove_cidr i s) h =
    at_net_list-HasDistinctEntries c (in_range i c.ipset.net_lists)
      (λ l. record l { cidrs = some (without s (items l.cidrs)) })
      (λ l. without-IsDistinct s (items l.cidrs)) h

-- From a configuration whose lists hold no entry twice, every sequence of calls of the mutators, at
-- any indices, leads to one whose lists hold no entry twice.
pub apply_all-HasDistinctEntries :
    (c : Config) (ks : List Call) → HasDistinctEntries c → HasDistinctEntries (apply_all c ks)
unfolding apply_all
apply_all-HasDistinctEntries c [] h = h
apply_all-HasDistinctEntries c (k ∷ ks) h =
    apply_all-HasDistinctEntries (apply c k) ks (apply-HasDistinctEntries c k h)
