-- ===== src/Config/Rules.antt =====
-- The shared rules and the blocklist URLs: lists of texts that are used as sets.
pub mod Sets
use dns_box.Prelude.{Text}
use dns_box.Config.{Config, RulesConfig}
use Sets.{append_new, without}

abbrev pub rules_add_domain : Text → RulesConfig → RulesConfig
rules_add_domain d r = record r { domains = append_new d r.domains }

abbrev pub rules_remove_domain : Text → RulesConfig → RulesConfig
rules_remove_domain d r = record r { domains = without d r.domains }

abbrev pub rules_add_suffix : Text → RulesConfig → RulesConfig
rules_add_suffix s r = record r { domain_suffix = append_new s r.domain_suffix }

abbrev pub rules_remove_suffix : Text → RulesConfig → RulesConfig
rules_remove_suffix s r = record r { domain_suffix = without s r.domain_suffix }

unfoldable pub add_domain : Config → Text → Config
add_domain c domain = record c { rules = rules_add_domain domain c.rules }

unfoldable pub remove_domain : Config → Text → Config
remove_domain c domain = record c { rules = rules_remove_domain domain c.rules }

unfoldable pub add_suffix : Config → Text → Config
add_suffix c suffix = record c { rules = rules_add_suffix suffix c.rules }

unfoldable pub remove_suffix : Config → Text → Config
remove_suffix c suffix = record c { rules = rules_remove_suffix suffix c.rules }

unfoldable pub add_block_list_url : Config → Text → Config
add_block_list_url c url = record c {
  block_list = record c.block_list { urls = append_new url c.block_list.urls };
}

unfoldable pub remove_block_list_url : Config → Text → Config
remove_block_list_url c url = record c {
  block_list = record c.block_list { urls = without url c.block_list.urls };
}
