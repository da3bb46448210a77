-- ===== src/Startup/Sets/Created.antt =====
-- The sets that `run` creates beside the sets that `processAnswers` adds addresses to.
use dns_box.Prelude.{
  ℕ, zero, suc, Bool, true, false, not, Text, Option, some, List, [], ◌∷◌, ◌++◌, ◌≡◌, refl, sym,
  inl, inr, In, Any-append_left, Any-append_right, get_elem?, if◌then◌else◌, subst,
}
use dns_box.Config.{Config, IpSetListConfig, get_ipset_lists}
use dns_box.Cache.FastCache.{FastCache}
use dns_box.Cache.DomainCache.{DomainCache}
use dns_box.Ipset.{
  Command, create, add, Family, ipv4, ipv6, hash_ip, create_ipv4_set, create_ipv6_set,
}
use dns_box.Dns.Message.{Rr, RrData, a, aaaa, cname, soa, other}
use dns_box.Dns.Match.{is_domain_in_list}
use dns_box.Dns.Handler.{process_answers}
use dns_box.Dns.Handler.Answers.{Calls, CommandFrom, process_answers_iff}
use dns_box.Startup.Sets.{
  Run, continue, ◌>>◌, go_on, timeout_or_default, name6, create_list_sets, create_sets, set_up,
}
use dns_box.Startup.Sets.Grows.{Grows, Grows-create_sets, Grows-create_net_lists}

-- A set of addresses has been created under the name.
abbrev pub IsCreated : Text → List Command → Type 0
IsCreated name sent =
    (family : Family) × (timeout : ℕ) × In (create name hash_ip family timeout) sent

-- The sets of a list.
abbrev HasSets : IpSetListConfig → List Command → Type 0
HasSets list sent =
    IsCreated list.name sent × ((list.enable_ipv6 ≡ true) → IsCreated (name6 list.name) sent)

some-injective : (x y : IpSetListConfig) → some x ≡ some y → x ≡ y
some-injective x y h = cc

add-injective : (n m ip jp : Text) (t u : ℕ) → add n ip t ≡ add m jp u → n ≡ m
add-injective n m ip jp t u h = cc

module _ (fails : Command → Bool) (parse_cidr : Text → Option Bool) where
  -- What an action reaches if the program goes on.
  record Reaches (P : List Command → Type 0) (m : Run) : Type 0 where
    pub at : (sent : List Command) → (m sent).0 ≡ true → P (m sent).1

  Reaches-first :
      (P : List Command → Type 0) (m k : Run)
      → ((sent : List Command) → P sent → P (k sent).1)
      → Reaches P m
      → Reaches P (m >> k)
  Reaches-first P m k keep rm = record { at = λ sent e. go (m sent) (rm.at sent) e }
    where
      go :
          (r : Bool × List Command)
          → (r.0 ≡ true → P r.1)
          → (continue r k).0 ≡ true
          → P (continue r k).1
      go (true, sent) p e = keep sent (p refl)
      go (false, sent) p e = cc

  Reaches-second : (P : List Command → Type 0) (m k : Run) → Reaches P k → Reaches P (m >> k)
  Reaches-second P m k rk = record { at = λ sent e. go (m sent) e }
    where
      go : (r : Bool × List Command) → (continue r k).0 ≡ true → P (continue r k).1
      go (true, sent) e = rk.at sent e
      go (false, sent) e = cc

  HasSets-Grows :
      (list : IpSetListConfig) (k : Run)
      → Grows k
      → (sent : List Command) → HasSets list sent
      → HasSets list (k sent).1
  HasSets-Grows list k g sent ((f4, t4, h4), v6) =
      ((f4, t4, g.at _ sent h4), λ on. let (f6, t6, h6) = v6 on in (f6, t6, g.at _ sent h6))

  In-snoc : (c : Command) (sent : List Command) → In c (sent ++ c ∷ [])
  In-snoc c sent = Any-append_right (λ x. c ≡ x) sent (c ∷ []) (inl refl)

  abbrev create_two : Bool → Bool → Bool → Command → Command → Run
  create_two f4 f6 b c4 c6 sent =
      continue (not f4, sent ++ c4 ∷ []) (if b then (λ s. (not f6, s ++ c6 ∷ [])) else go_on)

  create_two-In :
      (f4 f6 b : Bool) (c4 c6 : Command) (sent : List Command)
      → (create_two f4 f6 b c4 c6 sent).0 ≡ true
      → In c4 (create_two f4 f6 b c4 c6 sent).1
        × (b ≡ true → In c6 (create_two f4 f6 b c4 c6 sent).1)
  create_two-In true f6 b c4 c6 sent e = cc
  create_two-In false f6 true c4 c6 sent e = (
    Any-append_left (λ x. c4 ≡ x) (sent ++ c4 ∷ []) (c6 ∷ []) (In-snoc c4 sent),
    λ on. In-snoc c6 (sent ++ c4 ∷ []),
  )
  create_two-In false f6 false c4 c6 sent e = (In-snoc c4 sent, λ on. cc)

  create_list_sets-HasSets :
      (list : IpSetListConfig) → Reaches (HasSets list) (create_list_sets fails parse_cidr list)
  unfolding create_list_sets create_ipv4_set create_ipv6_set
  create_list_sets-HasSets list = record {
    at = λ sent e.
        let (in4, in6) =
          create_two-In _ _ list.enable_ipv6
            (create list.name hash_ip ipv4 (timeout_or_default list.timeout))
            (create (name6 list.name) hash_ip ipv6 (timeout_or_default list.timeout)) sent e in
        ((ipv4, _, in4), λ on. (ipv6, _, in6 on));
  }

  create_sets-HasSets :
      (lists : List IpSetListConfig) (k : ℕ) (list : IpSetListConfig)
      → get_elem? lists k ≡ some list
      → Reaches (HasSets list) (create_sets fails parse_cidr lists)
  unfolding create_sets
  create_sets-HasSets [] k list at = absurd cc
  create_sets-HasSets (l ∷ lists) zero list at =
      Reaches-first (HasSets list) _ _
        (HasSets-Grows list _ (Grows-create_sets fails parse_cidr lists))
        (subst (λ x. Reaches (HasSets x) (create_list_sets fails parse_cidr l))
          (some-injective l list at) (create_list_sets-HasSets l))
  create_sets-HasSets (l ∷ lists) (suc k) list at =
      Reaches-second (HasSets list) _ _ (create_sets-HasSets lists k list at)

  set_up-HasSets :
      (cfg : Config) (k : ℕ) (list : IpSetListConfig)
      → get_elem? (get_ipset_lists cfg) k ≡ some list
      → Reaches (HasSets list) (set_up fails parse_cidr cfg)
  unfolding set_up
  set_up-HasSets cfg k list at =
      Reaches-first (HasSets list) _ _
        (HasSets-Grows list _ (Grows-create_net_lists fails parse_cidr cfg.ipset.net_lists))
        (create_sets-HasSets (get_ipset_lists cfg) k list at)

  IsCreated-of_Calls :
      (name ip : Text) (ttl t : ℕ) (d : RrData) (list : IpSetListConfig) (sent : List Command)
      → Calls (add name ip ttl) d t list
      → HasSets list sent
      → IsCreated name sent
  IsCreated-of_Calls name ip ttl t (a _) list sent c h =
      subst (λ n. IsCreated n sent) (sym (add-injective _ _ _ _ _ _ c)) h.0
  IsCreated-of_Calls name ip ttl t (aaaa _) list sent (on, c) h =
      subst (λ n. IsCreated n sent) (sym (add-injective _ _ _ _ _ _ c)) (h.1 on)
  IsCreated-of_Calls name ip ttl t (cname _) list sent c h = absurd c
  IsCreated-of_Calls name ip ttl t (soa _) list sent c h = absurd c
  IsCreated-of_Calls name ip ttl t (other _) list sent c h = absurd c

  IsCreated-of_CommandFrom :
      (in_list : ℕ → Bool) (cfg : Config) (rrs : List Rr) (name ip : Text) (ttl : ℕ)
      (sent : List Command)
      → (set_up fails parse_cidr cfg sent).0 ≡ true
      → CommandFrom in_list (get_ipset_lists cfg) rrs (add name ip ttl)
      → IsCreated name (set_up fails parse_cidr cfg sent).1
  IsCreated-of_CommandFrom in_list cfg [] name ip ttl sent fine h = absurd h
  IsCreated-of_CommandFrom in_list cfg (rr ∷ rrs) name ip ttl sent fine
        (inl (k, list, (at, e, c))) =
      IsCreated-of_Calls name ip ttl rr.ttl rr.rr_data list _ c
        ((set_up-HasSets cfg k list at).at sent fine)
  IsCreated-of_CommandFrom in_list cfg (rr ∷ rrs) name ip ttl sent fine (inr later) =
      IsCreated-of_CommandFrom in_list cfg rrs name ip ttl sent fine later

  -- If the set-up has not ended the program, then every set to which the addresses of an answer are
  -- ever added was created by it, as a set of addresses; whatever the answer, the question and the
  -- contents of the domain caches are.
  process_answers-IsCreated :
      (f : FastCache) (cfg : Config) (caches : List (DomainCache f)) (answers : List Rr)
      (question name ip : Text) (ttl : ℕ)
      → (set_up fails parse_cidr cfg []).0 ≡ true
      → In (add name ip ttl) (process_answers f cfg caches answers question)
      → IsCreated name (set_up fails parse_cidr cfg []).1
  process_answers-IsCreated f cfg caches answers question name ip ttl fine h =
      IsCreated-of_CommandFrom (is_domain_in_list f caches question) cfg answers name ip ttl [] fine
        ((process_answers_iff f cfg caches answers question (add name ip ttl)).0 h)
