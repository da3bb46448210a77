-- ===== src/Startup/Routing/Bare.antt =====
-- A suffix rule, `isDomainInList` (internal/dns/handler.go), and the domain behind the dot of the rule.
use dns_box.Prelude.{
  ℕ, true, Text, some, List, [], ◌∷◌, ◌++◌, ◌≡◌, refl, sym, arith, length, map, In,
  Any-append_right, split, inl, inr, get_elem?, subst, ap, ◌∙◌,
}
use dns_box.Prelude.Strings.Laws.{join-split}
use dns_box.Config.{Config, IpSetListConfig, get_ipset_lists}
use dns_box.Cache.FastCache.{FastCache, IsLossless}
use dns_box.Cache.DomainCache.{dot, dotted, last_two}
use dns_box.Dns.Match.{question_name, is_domain_in_list}
use dns_box.Dns.Match.Laws.{two_label_key}
use dns_box.Startup.{list_domain_caches}
use dns_box.Startup.Routing.{is_domain_in_list_iff}

In-map-dotted : (s : Text) (ss : List Text) → In s ss → In (dotted s) (map dotted ss)
In-map-dotted s [] m = m
In-map-dotted s (t ∷ ss) (inl e) = inl (ap dotted e)
In-map-dotted s (t ∷ ss) (inr m) = inr (In-map-dotted s ss m)

last_two_of_two : (labels : List Text) → length labels ≡ 2 → last_two labels ≡ labels
last_two_of_two labels two = rw two refl

two_label_key_of_two :
    (name : Text) → length (split name dot) ≡ 2 → two_label_key (split name dot) ≡ dotted name
two_label_key_of_two name two = rw (last_two_of_two (split name dot) two, join-split name dot) refl

module _ (f : FastCache) (l : IsLossless f) where
  -- A suffix rule of two labels selects the domain behind its dot, not only what lies below that: if
  -- a suffix of the list at an index is, with its dot, the name of the question with a dot before it,
  -- and this name has two labels, then the question is in that list. The caches are freshly filled and
  -- keep what they are given.
  pub is_domain_in_list_bare :
      (cfg : Config) (question : Text) (i : ℕ) (list : IpSetListConfig) (suffix : Text)
      → get_elem? (get_ipset_lists cfg) i ≡ some list
      → In suffix list.rules.domain_suffix
      → dotted suffix ≡ dotted (question_name question)
      → length (split (question_name question) dot) ≡ 2
      → is_domain_in_list f (list_domain_caches f cfg) question i ≡ true
  is_domain_in_list_bare cfg question i list suffix at rule same two =
      (is_domain_in_list_iff f l cfg question i).1 (
        list,
        at,
        inr (
          omega (arith, two),
          subst (λ k. In k (list.rules.domains ++ map dotted list.rules.domain_suffix))
              (same ∙ sym (two_label_key_of_two (question_name question) two))
              (Any-append_right (λ x. dotted suffix ≡ x) list.rules.domains _
                (In-map-dotted suffix list.rules.domain_suffix rule)),
        ),
      )
