-- ===== src/Startup/Sets.antt =====
-- cmd/dns-box/main.go, `run`: the sets that are created for the lists, and the networks that are added
-- to them. A set that cannot be created ends the program; a network that cannot be added is logged.
pub mod Grows
pub mod Created
pub mod Ready
pub mod Triples
pub mod Steps
use dns_box.Prelude.{
  ℕ, Bool, true, false, not, Text, codes, Option, none, some, List, [], ◌∷◌, ◌++◌, items, ◌==◌,
  if◌then◌else◌,
}
use dns_box.Config.{Config, IpSetListConfig, NetListConfig, get_ipset_lists}
use dns_box.Ipset.{
  Command, create_ipv4_set, create_ipv6_set, create_ipv4_net_set, create_ipv6_net_set, add_element,
}

-- The commands that were sent so far; and with them, whether the program goes on.
abbrev pub Run : Type 0
Run = List Command → Bool × List Command

abbrev pub continue : Bool × List Command → Run → Bool × List Command
continue (false, sent) k = (false, sent)
continue (true, sent) k = k sent

infixl 5 ◌>>◌
abbrev pub ◌>>◌ : Run → Run → Run
◌>>◌ m k sent = continue (m sent) k

abbrev pub go_on : Run
go_on sent = (true, sent)

abbrev pub timeout_or_default : ℕ → ℕ
timeout_or_default timeout = if timeout == 0 then 7200 else timeout

abbrev pub name6 : Text → Text
name6 name = name ++ codes "6"

-- Which commands fail, and net.ParseCIDR: `none` is its error, and the Boolean says whether the
-- network is one of IPv4.
module _ (fails : Command → Bool) (parse_cidr : Text → Option Bool) where
  abbrev pub require : Command → Run
  require c sent = (not (fails c), sent ++ c ∷ [])

  abbrev pub attempt : Command → Run
  attempt c sent = (true, sent ++ c ∷ [])

  unfoldable pub create_list_sets : IpSetListConfig → Run
  create_list_sets list =
      require (create_ipv4_set list.name (timeout_or_default list.timeout))
      >> (if list.enable_ipv6
          then require (create_ipv6_set (name6 list.name) (timeout_or_default list.timeout))
          else go_on)

  unfoldable pub create_sets : List IpSetListConfig → Run
  create_sets [] = go_on
  create_sets (list ∷ lists) = create_list_sets list >> create_sets lists

  abbrev pub add_network : NetListConfig → Text → Option Bool → Run
  add_network list cidr none = go_on
  add_network list cidr (some true) =
      attempt (add_element list.name cidr (timeout_or_default list.timeout))
  add_network list cidr (some false) =
      if list.enable_ipv6
      then attempt (add_element (name6 list.name) cidr (timeout_or_default list.timeout))
      else go_on

  unfoldable pub add_networks : NetListConfig → List Text → Run
  add_networks list [] = go_on
  add_networks list (cidr ∷ cidrs) =
      add_network list cidr (parse_cidr cidr) >> add_networks list cidrs

  unfoldable pub create_net_list : NetListConfig → Run
  create_net_list list =
      require (create_ipv4_net_set list.name (timeout_or_default list.timeout))
      >> (if list.enable_ipv6
          then require (create_ipv6_net_set (name6 list.name) (timeout_or_default list.timeout))
          else go_on)
      >> add_networks list (items list.cidrs)

  unfoldable pub create_net_lists : List NetListConfig → Run
  create_net_lists [] = go_on
  create_net_lists (list ∷ lists) = create_net_list list >> create_net_lists lists

  unfoldable pub set_up : Config → Run
  set_up cfg = create_sets (get_ipset_lists cfg) >> create_net_lists cfg.ipset.net_lists
