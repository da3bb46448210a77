-- ===== src/Config/Mutators.antt =====
-- All mutators of the configuration together: a call as data, and sequences of calls.
pub mod Distinct
pub mod Frame
pub mod Sets
use dns_box.Prelude.{Text, ℤ, List, [], ◌∷◌}
use dns_box.Config.{Config}
use dns_box.Config.Rules
use dns_box.Config.Lists.Laws.{ListEdit, edit_list}
use dns_box.Config.Lists.{add_cidr_to_net_list, remove_cidr_from_net_list}

pub data Call : Type 0 where
  add_domain remove_domain add_suffix remove_suffix : Text → Call
  add_block_list_url remove_block_list_url : Text → Call
  in_list : ℤ → ListEdit → Call
  add_cidr remove_cidr : ℤ → Text → Call

abbrev pub apply : Config → Call → Config
apply c (add_domain d) = Rules.add_domain c d
apply c (remove_domain d) = Rules.remove_domain c d
apply c (add_suffix s) = Rules.add_suffix c s
apply c (remove_suffix s) = Rules.remove_suffix c s
apply c (add_block_list_url u) = Rules.add_block_list_url c u
apply c (remove_block_list_url u) = Rules.remove_block_list_url c u
apply c (in_list i e) = edit_list c i e
apply c (add_cidr i s) = add_cidr_to_net_list c i s
apply c (remove_cidr i s) = remove_cidr_from_net_list c i s

unfoldable pub apply_all : Config → List Call → Config
apply_all c [] = c
apply_all c (k ∷ ks) = apply_all (apply c k) ks
