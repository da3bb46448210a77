-- ===== src/Startup/Routing.antt =====
-- The rules of the configuration beside the questions that the caches of `run` select.
pub mod Bare
use mathlib.Core.Bool.{or-true}
use mathlib.Core.Option
use mathlib.Core.Option.{some-injective}
use mathlib.Core.Path.{subst}
use dns_box.Prelude.{
  ℕ, ◌*◌, ◌<◌, Bool, true, false, ◌||◌, ◌&&◌, Text, Option, none, some, List, [], ◌∷◌, ◌++◌, ◌≡◌,
  refl, sym, ◌∙◌, arith, length, ltb, map, In, Any-append_left, Any-append_right, Any-append_cases,
  split, inl, inr, ◌⊎◌, ◌↔◌, get_elem?, ltb→lt, lt→ltb, get_elem?-map,
}
use dns_box.Prelude.Strings.Laws.{text_eq_iff}
use dns_box.Config.{Config, RulesConfig, IpSetListConfig, get_ipset_lists}
use dns_box.Cache.FastCache.{FastCache, IsLossless}
use dns_box.Cache.DomainCache.{
  DomainCache, dot, dotted, new_domain_cache, add, add_suffix, contains,
}
use dns_box.Cache.DomainCache.Laws.{
  contains-new_domain_cache, contains-add, contains-add_suffix, contains-add_sound,
  contains-add_suffix_sound,
}
use dns_box.Dns.Match.{question_name, matches, is_domain_in_list, in_cache}
use dns_box.Dns.Match.Laws.{two_label_key, matches-contains}
use dns_box.Startup.{add_domains, add_suffixes, fill_cache, list_domain_caches}

-- What the rules put into the cache: the domains, and the suffixes with a leading dot.
abbrev pub rule_keys : RulesConfig → List Text
rule_keys r = r.domains ++ map dotted r.domain_suffix

-- The name is a rule, or it has two labels or more and the last two, dotted, are a rule. This is what
-- the lookup asks for; README.md describes the rules otherwise in its table of examples, where
-- ".youtube.com" is said not to match `youtube.com`.
abbrev pub IsRouted : RulesConfig → Text → Type 0
IsRouted r question =
    In (question_name question) (rule_keys r)
    ⊎ ((1 < length (split (question_name question) dot))
        × In (two_label_key (split (question_name question) dot)) (rule_keys r))

module _ (f : FastCache) where
  add_domains_sound :
      (c : DomainCache f) (ds : List Text) (k : Text)
      → contains f (add_domains f c ds) k ≡ true
      → In k ds ⊎ (contains f c k ≡ true)
  unfolding add_domains
  add_domains_sound c [] k h = inr h
  add_domains_sound c (d ∷ ds) k h = elim (add_domains_sound (add f c d) ds k h) [
    | inl m ↦ inl (inr m)
    | inr m ↦ elim (contains-add_sound f c d k m) [ inl e ↦ inl (inl (sym e)) | inr n ↦ inr n ]
  ]

  add_suffixes_sound :
      (c : DomainCache f) (ss : List Text) (k : Text)
      → contains f (add_suffixes f c ss) k ≡ true
      → In k (map dotted ss) ⊎ (contains f c k ≡ true)
  unfolding add_suffixes
  add_suffixes_sound c [] k h = inr h
  add_suffixes_sound c (s ∷ ss) k h = elim (add_suffixes_sound (add_suffix f c s) ss k h) [
    | inl m ↦ inl (inr m)
    | inr m ↦ elim (contains-add_suffix_sound f c s k m) [
      | inl e ↦ inl (inl (sym e))
      | inr n ↦ inr n
    ]
  ]

  pub fill_cache_sound :
      (size : ℕ) (r : RulesConfig) (k : Text)
      → contains f (fill_cache f size r) k ≡ true
      → In k (rule_keys r)
  unfolding fill_cache
  fill_cache_sound size r k h =
      elim (add_suffixes_sound (add_domains f (new_domain_cache f size) r.domains) r.domain_suffix k
        h) [
          | inl m ↦ Any-append_right (λ x. k ≡ x) r.domains (map dotted r.domain_suffix) m
          | inr m ↦ elim (add_domains_sound (new_domain_cache f size) r.domains k m) [
            | inl n ↦ Any-append_left (λ x. k ≡ x) r.domains (map dotted r.domain_suffix) n
            | inr n ↦ ground (arith, contains-new_domain_cache f size k)
          ]
        ]

  -- A question that a freshly filled cache selects is routed by the rules, whatever the cache evicts.
  matches-fill_cache_sound :
      (size : ℕ) (r : RulesConfig) (question : Text)
      → matches f (fill_cache f size r) question ≡ true
      → IsRouted r question
  matches-fill_cache_sound size r question h =
      go (contains f (fill_cache f size r) (question_name question)) refl
        (sym (matches-contains f (fill_cache f size r) question) ∙ h)
    where
      go :
          (b : Bool)
          → contains f (fill_cache f size r) (question_name question) ≡ b
          → (b
              || (ltb 1 (length (split (question_name question) dot))
                  && contains f
                      (fill_cache f size r)
                      (two_label_key (split (question_name question) dot))))
            ≡ true
          → IsRouted r question
      go true e p = inl (fill_cache_sound size r _ e)
      go false e p = inr (ltb→lt _ _ (ground arith), fill_cache_sound size r _ (ground arith))

  module _ (l : IsLossless f) where
    contains-add_of :
        (c : DomainCache f) (d k : Text)
        → (k ≡ d) ⊎ (contains f c k ≡ true)
        → contains f (add f c d) k ≡ true
    contains-add_of c d k (inl e) = ground (arith, contains-add f l c d k, text_eq_iff d k)
    contains-add_of c d k (inr h) = ground (arith, contains-add f l c d k)

    contains-add_suffix_of :
        (c : DomainCache f) (s k : Text)
        → (k ≡ dotted s) ⊎ (contains f c k ≡ true)
        → contains f (add_suffix f c s) k ≡ true
    contains-add_suffix_of c s k (inl e) =
        ground (arith, contains-add_suffix f l c s k, text_eq_iff (dotted s) k)
    contains-add_suffix_of c s k (inr h) = ground (arith, contains-add_suffix f l c s k)

    add_domains_complete :
        (c : DomainCache f) (ds : List Text) (k : Text)
        → In k ds ⊎ (contains f c k ≡ true)
        → contains f (add_domains f c ds) k ≡ true
    unfolding add_domains
    add_domains_complete c [] k (inl m) = elim m [ ]
    add_domains_complete c [] k (inr h) = h
    add_domains_complete c (d ∷ ds) k (inl (inl e)) =
        add_domains_complete (add f c d) ds k (inr (contains-add_of c d k (inl e)))
    add_domains_complete c (d ∷ ds) k (inl (inr m)) = add_domains_complete (add f c d) ds k (inl m)
    add_domains_complete c (d ∷ ds) k (inr h) =
        add_domains_complete (add f c d) ds k (inr (contains-add_of c d k (inr h)))

    add_suffixes_complete :
        (c : DomainCache f) (ss : List Text) (k : Text)
        → In k (map dotted ss) ⊎ (contains f c k ≡ true)
        → contains f (add_suffixes f c ss) k ≡ true
    unfolding add_suffixes
    add_suffixes_complete c [] k (inl m) = elim m [ ]
    add_suffixes_complete c [] k (inr h) = h
    add_suffixes_complete c (s ∷ ss) k (inl (inl e)) =
        add_suffixes_complete (add_suffix f c s) ss k (inr (contains-add_suffix_of c s k (inl e)))
    add_suffixes_complete c (s ∷ ss) k (inl (inr m)) =
        add_suffixes_complete (add_suffix f c s) ss k (inl m)
    add_suffixes_complete c (s ∷ ss) k (inr h) =
        add_suffixes_complete (add_suffix f c s) ss k (inr (contains-add_suffix_of c s k (inr h)))

    pub fill_cache_complete :
        (size : ℕ) (r : RulesConfig) (k : Text)
        → In k (rule_keys r)
        → contains f (fill_cache f size r) k ≡ true
    unfolding fill_cache
    fill_cache_complete size r k h =
        elim (Any-append_cases (λ x. k ≡ x) r.domains (map dotted r.domain_suffix) h) [
          | inl m ↦
              add_suffixes_complete _ r.domain_suffix k
                (inr (add_domains_complete (new_domain_cache f size) r.domains k (inl m)))
          | inr m ↦ add_suffixes_complete _ r.domain_suffix k (inl m)
        ]

    matches-fill_cache_complete :
        (size : ℕ) (r : RulesConfig) (question : Text)
        → IsRouted r question
        → matches f (fill_cache f size r) question ≡ true
    matches-fill_cache_complete size r question (inl m) =
        rw (matches-contains, fill_cache_complete size r _ m) refl
    matches-fill_cache_complete size r question (inr (two, m)) =
        rw (matches-contains, lt→ltb _ _ two, fill_cache_complete size r _ m) (or-true _)

    -- With a cache that keeps what it is given, the questions that a freshly filled cache selects are
    -- exactly those that the rules route.
    matches-fill_cache_iff :
        (size : ℕ) (r : RulesConfig) (question : Text)
        → (matches f (fill_cache f size r) question ≡ true) ↔ IsRouted r question
    matches-fill_cache_iff size r question =
        (matches-fill_cache_sound size r question, matches-fill_cache_complete size r question)

    in_cache_iff :
        (size : ℕ) (question : Text) (o : Option IpSetListConfig)
        → (in_cache f
              (Option.map (λ (list : IpSetListConfig). fill_cache f size list.rules) o)
              question
            ≡ true)
          ↔ ((list : IpSetListConfig) × (o ≡ some list) × IsRouted list.rules question)
    in_cache_iff size question none = ((λ e. cc), λ h. cc (h.1))
    in_cache_iff size question (some list) = (
      (λ e. (list, refl, matches-fill_cache_sound size list.rules question e)),
      λ h. matches-fill_cache_complete size list.rules question (
          subst (λ (x : IpSetListConfig). IsRouted x.rules question) (sym (some-injective _ _ h.1))
            h.2),
    )

    -- `isDomainInList` holds exactly for the index of a configured list, or of the one list that stands
    -- for the legacy names, whose rules route the question. The caches are freshly filled and keep
    -- what they are given.
    pub is_domain_in_list_iff :
        (cfg : Config) (question : Text) (i : ℕ)
        → (is_domain_in_list f (list_domain_caches f cfg) question i ≡ true) ↔ (
            (list : IpSetListConfig) × (get_elem? (get_ipset_lists cfg) i ≡ some list)
            × IsRouted list.rules question)
    unfolding is_domain_in_list list_domain_caches
    is_domain_in_list_iff cfg question i =
        rw get_elem?-map
          (in_cache_iff (1024 * 1024 * 2) question (get_elem? (get_ipset_lists cfg) i))
