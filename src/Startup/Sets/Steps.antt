-- ===== src/Startup/Sets/Steps.antt =====
-- What the set-up has created when it does not end the program.
use dns_box.Prelude.{
  ℕ, Bool, true, false, Text, Option, none, some, List, [], ◌∷◌, items, map, ◌≡◌, All,
  if◌then◌else◌,
}
use dns_box.Config.{Config, IpSetListConfig, NetListConfig, get_ipset_lists}
use dns_box.Config.Mutators.Frame.{Header, header, net_header, frame}
use dns_box.Ipset.{
  Command, create, add, SetType, hash_ip, hash_net, ipv4, ipv6, create_ipv4_set, create_ipv6_set,
  create_ipv4_net_set, create_ipv6_net_set, add_element,
}
use dns_box.Startup.Sets.{
  ◌>>◌, go_on, require, attempt, timeout_or_default, name6, create_list_sets, create_sets,
  add_network, add_networks, create_net_list, create_net_lists, set_up,
}
use dns_box.Startup.Sets.Grows.{Grows-create_sets, Grows-create_net_lists}
use dns_box.Startup.Sets.Ready.{IsMade, HasMade, IsReady, IsMade-append, HasMade-append}
use dns_box.Startup.Sets.Triples.{
  Does, Does-then, Does-if, Fine, Fine-create, Fine-add, IsMade-create, Does-keeping, Does-cons,
}

module _ (fails : Command → Bool) (parse_cidr : Text → Option Bool) where
  -- The two sets of a header.
  Does-create_two :
      (h : Header) (type : SetType)
      → Does Fine
          (λ sent. HasMade sent h × Fine sent)
          (require fails parse_cidr (create h.name type ipv4 (timeout_or_default h.timeout))
            >> (if h.enable_ipv6
                then require fails parse_cidr
                    (create (name6 h.name) type ipv6 (timeout_or_default h.timeout))
                else go_on))
  Does-create_two h type = Does-then _ _ four (Does-if h.enable_ipv6 _ (λ on. six) skip)
    where
      four :
          Does Fine
            (λ sent. IsMade h.name sent × Fine sent)
            (require fails parse_cidr (create h.name type ipv4 (timeout_or_default h.timeout)))
      four = record {
        at = λ sent fine e.
            (IsMade-create h.name type ipv4 _ sent, Fine-create h.name type ipv4 _ sent fine);
      }

      six :
          Does
            (λ sent. IsMade h.name sent × Fine sent)
            (λ sent. HasMade sent h × Fine sent)
            (require fails parse_cidr
              (create (name6 h.name) type ipv6 (timeout_or_default h.timeout)))
      six = record {
        at = λ sent (made, fine) e. (
          (IsMade-append h.name sent _ made, λ on. IsMade-create (name6 h.name) type ipv6 _ sent),
          Fine-create (name6 h.name) type ipv6 _ sent fine,
        );
      }

      skip :
          h.enable_ipv6 ≡ false
          → (sent : List Command) → IsMade h.name sent × Fine sent
          → HasMade sent h × Fine sent
      skip off sent (made, fine) = ((made, λ on. absurd cc), fine)

  Does-add :
      (h : Header) (name ip : Text) (timeout : ℕ)
      → ((sent : List Command) → HasMade sent h → IsMade name sent)
      → Does
          (λ sent. HasMade sent h × Fine sent)
          (λ sent. HasMade sent h × Fine sent)
          (attempt fails parse_cidr (add name ip timeout))
  Does-add h name ip timeout made = record {
    at = λ sent (has, fine) e.
        (HasMade-append sent _ h has, Fine-add name ip timeout sent (made sent has) fine);
  }

  Does-add_network :
      (list : NetListConfig) (cidr : Text) (o : Option Bool)
      → Does
          (λ sent. HasMade sent (net_header list) × Fine sent)
          (λ sent. HasMade sent (net_header list) × Fine sent)
          (add_network fails parse_cidr list cidr o)
  unfolding add_element
  Does-add_network list cidr none = record { at = λ sent p e. p }
  Does-add_network list cidr (some true) =
      Does-add (net_header list) list.name cidr _ (λ sent has. has.0)
  Does-add_network list cidr (some false) =
      Does-if list.enable_ipv6 _
        (λ on. Does-add (net_header list) (name6 list.name) cidr _ (λ sent has. has.1 on))
        (λ off sent p. p)

  Does-add_networks :
      (list : NetListConfig) (cidrs : List Text)
      → Does
          (λ sent. HasMade sent (net_header list) × Fine sent)
          (λ sent. HasMade sent (net_header list) × Fine sent)
          (add_networks fails parse_cidr list cidrs)
  unfolding add_networks
  Does-add_networks list [] = record { at = λ sent p e. p }
  Does-add_networks list (cidr ∷ cidrs) =
      Does-then _ _ (Does-add_network list cidr (parse_cidr cidr)) (Does-add_networks list cidrs)

  Does-create_list_sets :
      (list : IpSetListConfig)
      → Does Fine
          (λ sent. HasMade sent (header list) × Fine sent)
          (create_list_sets fails parse_cidr list)
  unfolding create_list_sets create_ipv4_set create_ipv6_set
  Does-create_list_sets list = Does-create_two (header list) hash_ip

  Does-create_net_list :
      (list : NetListConfig)
      → Does Fine
          (λ sent. HasMade sent (net_header list) × Fine sent)
          (create_net_list fails parse_cidr list)
  unfolding create_net_list create_ipv4_net_set create_ipv6_net_set
  Does-create_net_list list =
      Does-then _ _ (Does-create_two (net_header list) hash_net)
        (Does-add_networks list (items list.cidrs))

  Does-create_sets :
      (lists : List IpSetListConfig)
      → Does Fine
          (λ sent. All (HasMade sent) (map header lists) × Fine sent)
          (create_sets fails parse_cidr lists)
  unfolding create_sets
  Does-create_sets [] = record { at = λ sent fine e. (tt, fine) }
  Does-create_sets (list ∷ lists) =
      Does-cons (header list) (map header lists) _ _ (Does-create_list_sets list)
        (Grows-create_sets fails parse_cidr lists) (Does-create_sets lists)

  Does-create_net_lists :
      (lists : List NetListConfig)
      → Does Fine
          (λ sent. All (HasMade sent) (map net_header lists) × Fine sent)
          (create_net_lists fails parse_cidr lists)
  unfolding create_net_lists
  Does-create_net_lists [] = record { at = λ sent fine e. (tt, fine) }
  Does-create_net_lists (list ∷ lists) =
      Does-cons (net_header list) (map net_header lists) _ _ (Does-create_net_list list)
        (Grows-create_net_lists fails parse_cidr lists) (Does-create_net_lists lists)

  -- If the set-up does not end the program, it has created the sets of all lists and net lists, and
  -- added networks only to created sets.
  pub set_up-IsReady :
      (cfg : Config)
      → (set_up fails parse_cidr cfg []).0 ≡ true
      → IsReady (frame cfg) (set_up fails parse_cidr cfg []).1
  unfolding set_up
  set_up-IsReady cfg e =
      let (lists, (nets, fine)) =
        (Does-then _ _ (Does-create_sets (get_ipset_lists cfg)) (
            Does-keeping (map header (get_ipset_lists cfg)) _
              (Grows-create_net_lists fails parse_cidr cfg.ipset.net_lists)
              (Does-create_net_lists cfg.ipset.net_lists))).at
          [] (λ name ip t m. elim m [ ]) e in
      (lists, nets, fine)
