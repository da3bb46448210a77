-- ===== src/Startup/Begin/Starts.antt =====
-- When `run` reaches its wait.
use dns_box.Prelude.{
  Bool, true, false, not, Text, Option, none, some, List, [], ◌∷◌, items, ◌≡◌, refl, ap,
  if◌then◌else◌,
}
use dns_box.Cache.FastCache.{FastCache}
use dns_box.Config.{Config, IpSetListConfig, NetListConfig, get_ipset_lists}
use dns_box.Config.Save.{Codec}
use dns_box.Ipset.{Command}
use dns_box.Startup.Sets.{
  Run, continue, ◌>>◌, go_on, require, create_list_sets, create_sets, add_network, add_networks,
  create_net_list, create_net_lists, set_up,
}
use dns_box.Api.{Server}
use dns_box.Startup.Begin.{Begun, begun}

-- The action does not end the program.
abbrev GoesOn : Run → Type 0
GoesOn m = (sent : List Command) → (m sent).0 ≡ true

GoesOn-then : (m k : Run) → GoesOn m → GoesOn k → GoesOn (m >> k)
GoesOn-then m k gm gk sent = go (m sent) (gm sent)
  where
    go : (r : Bool × List Command) → r.0 ≡ true → (continue r k).0 ≡ true
    go (true, s) e = gk s
    go (false, s) e = cc

module _ (fails : Command → Bool) (parse_cidr : Text → Option Bool)
    (fine : (c : Command) → fails c ≡ false) where
  GoesOn-require : (c : Command) → GoesOn (require fails parse_cidr c)
  GoesOn-require c sent = ap not (fine c)

  GoesOn-if : (b : Bool) (m : Run) → GoesOn m → GoesOn (if b then m else go_on)
  GoesOn-if true m g = g
  GoesOn-if false m g = λ sent. refl

  GoesOn-create_sets : (lists : List IpSetListConfig) → GoesOn (create_sets fails parse_cidr lists)
  unfolding create_sets create_list_sets
  GoesOn-create_sets [] = λ sent. refl
  GoesOn-create_sets (list ∷ lists) =
      GoesOn-then _ _
        (GoesOn-then _ _ (GoesOn-require _) (GoesOn-if list.enable_ipv6 _ (GoesOn-require _)))
        (GoesOn-create_sets lists)

  GoesOn-add_network :
      (list : NetListConfig) (cidr : Text) (o : Option Bool)
      → GoesOn (add_network fails parse_cidr list cidr o)
  GoesOn-add_network list cidr none = λ sent. refl
  GoesOn-add_network list cidr (some true) = λ sent. refl
  GoesOn-add_network list cidr (some false) = GoesOn-if list.enable_ipv6 _ (λ sent. refl)

  GoesOn-add_networks :
      (list : NetListConfig) (cidrs : List Text) → GoesOn (add_networks fails parse_cidr list cidrs)
  unfolding add_networks
  GoesOn-add_networks list [] = λ sent. refl
  GoesOn-add_networks list (cidr ∷ cidrs) =
      GoesOn-then _ _ (GoesOn-add_network list cidr (parse_cidr cidr))
        (GoesOn-add_networks list cidrs)

  GoesOn-create_net_lists :
      (lists : List NetListConfig) → GoesOn (create_net_lists fails parse_cidr lists)
  unfolding create_net_lists create_net_list
  GoesOn-create_net_lists [] = λ sent. refl
  GoesOn-create_net_lists (list ∷ lists) =
      GoesOn-then _ _
        (GoesOn-then _ _
          (GoesOn-then _ _ (GoesOn-require _) (GoesOn-if list.enable_ipv6 _ (GoesOn-require _)))
          (GoesOn-add_networks list (items list.cidrs)))
        (GoesOn-create_net_lists lists)

  -- Commands that succeed do not end the set-up.
  pub GoesOn-set_up : (cfg : Config) → GoesOn (set_up fails parse_cidr cfg)
  unfolding set_up
  GoesOn-set_up cfg =
      GoesOn-then _ _ (GoesOn-create_sets (get_ipset_lists cfg))
        (GoesOn-create_net_lists cfg.ipset.net_lists)

module _ (f : FastCache) (Bytes : Type 0) (json : Codec Bytes) (fails : Command → Bool)
    (parse_cidr : Text → Option Bool) where
  -- `run` waits, with the configuration.
  abbrev pub BeginsWith : Begun f Bytes → Config → Type 0
  BeginsWith b cfg = (s : Server f Bytes) × (b ≡ begun s) × (s.config ≡ cfg)
