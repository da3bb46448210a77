-- ===== src/Startup/Sets/Grows.antt =====
-- The commands that the set-up has sent, through its steps.
use dns_box.Prelude.{
  Bool, true, false, Text, Option, none, some, List, [], ◌∷◌, items, ◌≡◌, In, Any-append_left,
  if◌then◌else◌,
}
use dns_box.Config.{IpSetListConfig, NetListConfig}
use dns_box.Ipset.{Command}
use dns_box.Startup.Sets.{
  Run, continue, ◌>>◌, go_on, require, attempt, create_list_sets, create_sets, add_network,
  add_networks, create_net_list, create_net_lists,
}

-- The action loses no command.
pub record Grows (m : Run) : Type 0 where
  pub at : (c : Command) (sent : List Command) → In c sent → In c (m sent).1

Grows-go_on : Grows go_on
Grows-go_on = record { at = λ c sent h. h }

Grows-then : (m k : Run) → Grows m → Grows k → Grows (m >> k)
Grows-then m k gm gk = record { at = λ c sent h. go c (m sent) (gm.at c sent h) }
  where
    go : (c : Command) (r : Bool × List Command) → In c r.1 → In c (continue r k).1
    go c (true, sent) h = gk.at c sent h
    go c (false, sent) h = h

module _ (fails : Command → Bool) (parse_cidr : Text → Option Bool) where
  Grows-require : (c : Command) → Grows (require fails parse_cidr c)
  Grows-require c = record { at = λ d sent h. Any-append_left (λ x. d ≡ x) sent (c ∷ []) h }

  Grows-attempt : (c : Command) → Grows (attempt fails parse_cidr c)
  Grows-attempt c = record { at = λ d sent h. Any-append_left (λ x. d ≡ x) sent (c ∷ []) h }

  Grows-if : (b : Bool) (m : Run) → Grows m → Grows (if b then m else go_on)
  Grows-if true m g = g
  Grows-if false m g = Grows-go_on

  pub Grows-create_list_sets :
      (list : IpSetListConfig) → Grows (create_list_sets fails parse_cidr list)
  unfolding create_list_sets
  Grows-create_list_sets list =
      Grows-then _ _ (Grows-require _) (Grows-if list.enable_ipv6 _ (Grows-require _))

  pub Grows-create_sets :
      (lists : List IpSetListConfig) → Grows (create_sets fails parse_cidr lists)
  unfolding create_sets
  Grows-create_sets [] = Grows-go_on
  Grows-create_sets (list ∷ lists) =
      Grows-then _ _ (Grows-create_list_sets list) (Grows-create_sets lists)

  Grows-add_network :
      (list : NetListConfig) (cidr : Text) (o : Option Bool)
      → Grows (add_network fails parse_cidr list cidr o)
  Grows-add_network list cidr none = Grows-go_on
  Grows-add_network list cidr (some true) = Grows-attempt _
  Grows-add_network list cidr (some false) = Grows-if list.enable_ipv6 _ (Grows-attempt _)

  Grows-add_networks :
      (list : NetListConfig) (cidrs : List Text) → Grows (add_networks fails parse_cidr list cidrs)
  unfolding add_networks
  Grows-add_networks list [] = Grows-go_on
  Grows-add_networks list (cidr ∷ cidrs) =
      Grows-then _ _ (Grows-add_network list cidr (parse_cidr cidr)) (Grows-add_networks list cidrs)

  pub Grows-create_net_lists :
      (lists : List NetListConfig) → Grows (create_net_lists fails parse_cidr lists)
  unfolding create_net_lists create_net_list
  Grows-create_net_lists [] = Grows-go_on
  Grows-create_net_lists (list ∷ lists) =
      Grows-then _ _
        (Grows-then _ _
          (Grows-then _ _ (Grows-require _) (Grows-if list.enable_ipv6 _ (Grows-require _)))
          (Grows-add_networks list (items list.cidrs)))
        (Grows-create_net_lists lists)
