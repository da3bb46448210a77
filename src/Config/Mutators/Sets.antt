-- ===== src/Config/Mutators/Sets.antt =====
-- The configuration as sets: what its mutators mean, without the order of the entries.
pub mod Refines
use dns_box.Prelude.{
  ℕ, ℤ, Bool, true, false, not, ◌&&◌, ◌||◌, Text, Option, none, some, List, [], ◌∷◌, map, modify,
  items, text_eq, if◌then◌else◌,
}
use dns_box.Config.{Config, RulesConfig, in_range, is_first}
use dns_box.Config.Rules.Sets.{is_listed}
use dns_box.Config.Lists.Laws.{ListEdit}
use dns_box.Config.Mutators.{Call}

abbrev pub TextSet : Type 0
TextSet = Text → Bool

abbrev pub insert : Text → TextSet → TextSet
insert x s = λ y. text_eq x y || s y

abbrev pub delete : Text → TextSet → TextSet
delete x s = λ y. not (text_eq x y) && s y

pub record RuleSets : Type 0 where
  pub domains : TextSet
  pub suffixes : TextSet

-- The shared rules, the addresses of blocklists, the rules of each list, the networks of each net list.
pub record ConfigSets : Type 0 where
  pub shared : RuleSets
  pub urls : TextSet
  pub lists : List RuleSets
  pub cidrs : List TextSet

abbrev pub set_of : List Text → TextSet
set_of xs = λ y. is_listed y xs

abbrev pub rule_sets : RulesConfig → RuleSets
rule_sets r = record { domains = set_of r.domains; suffixes = set_of r.domain_suffix }

abbrev pub config_sets : Config → ConfigSets
config_sets c = record {
  shared = rule_sets c.rules;
  urls = set_of c.block_list.urls;
  lists = map (λ l. rule_sets l.rules) c.ipset.lists;
  cidrs = map (λ l. set_of (items l.cidrs)) c.ipset.net_lists;
}

abbrev pub edit_sets : ListEdit → RuleSets → RuleSets
edit_sets (ListEdit.add_domain d) r = record r { domains = insert d r.domains }
edit_sets (ListEdit.remove_domain d) r = record r { domains = delete d r.domains }
edit_sets (ListEdit.add_suffix s) r = record r { suffixes = insert s r.suffixes }
edit_sets (ListEdit.remove_suffix s) r = record r { suffixes = delete s r.suffixes }

abbrev pub modify_at : {A : Type 0} → List A → Option ℕ → (A → A) → List A
modify_at xs none f = xs
modify_at xs (some i) f = modify xs i f

-- With no lists, index 0 means the shared rules; an index out of range changes nothing.
abbrev pub perform_in : ConfigSets → List RuleSets → ℤ → ListEdit → ConfigSets
perform_in s [] i e = if is_first i then record s { shared = edit_sets e s.shared } else s
perform_in s (r ∷ rs) i e = record s {
  lists = modify_at (r ∷ rs) (in_range i (r ∷ rs)) (edit_sets e);
}

abbrev pub perform : ConfigSets → Call → ConfigSets
perform s (Call.add_domain d) = record s { shared = edit_sets (ListEdit.add_domain d) s.shared }
perform s (Call.remove_domain d) = record s {
  shared = edit_sets (ListEdit.remove_domain d) s.shared;
}
perform s (Call.add_suffix t) = record s { shared = edit_sets (ListEdit.add_suffix t) s.shared }
perform s (Call.remove_suffix t) = record s {
  shared = edit_sets (ListEdit.remove_suffix t) s.shared;
}
perform s (Call.add_block_list_url u) = record s { urls = insert u s.urls }
perform s (Call.remove_block_list_url u) = record s { urls = delete u s.urls }
perform s (Call.in_list i e) = perform_in s s.lists i e
perform s (Call.add_cidr i t) = record s {
  cidrs = modify_at s.cidrs (in_range i s.cidrs) (insert t);
}
perform s (Call.remove_cidr i t) = record s {
  cidrs = modify_at s.cidrs (in_range i s.cidrs) (delete t);
}

abbrev pub perform_all : ConfigSets → List Call → ConfigSets
perform_all s [] = s
perform_all s (k ∷ ks) = perform_all (perform s k) ks
