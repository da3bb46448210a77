-- ===== src/Api/Shared/Race.antt =====
-- A POST and a DELETE of the same domain at one time: addDomains and removeDomains of
-- internal/api/handlers.go ask the cache, change the cache and change the configuration, each under a
-- lock of its own. Here each of the three is a step, for one line of each of two requests.
use dns_box.Prelude.{true, false, not, Text, ◌≡◌, refl, inl, inr, List, Bool-cases}
use dns_box.Prelude.Strings.Laws.{text_eq_refl}
use dns_box.Cache.FastCache.{FastCache, IsLossless}
use dns_box.Cache.DomainCache.{DomainCache, add, remove, contains}
use dns_box.Cache.DomainCache.Laws.{contains-add, contains-remove}
use dns_box.Config.{RulesConfig}
use dns_box.Config.Rules.{rules_add_domain, rules_remove_domain}
use dns_box.Config.Rules.Sets.{is_listed, is_listed_iff, without, In-append_new, In-without}

-- What a request still has to do for its line: to ask, to change both, to change the configuration.
pub data Todo : Type 0 where
  ask both rules_only nothing : Todo

module _ (f : FastCache) where
  -- The rules and the cache that the two requests share, and where each of them is.
  pub record Requests : Type 0 where
    pub rules : RulesConfig
    pub cache : DomainCache f
    pub adder : Todo
    pub remover : Todo

  abbrev pub both_begin : RulesConfig → DomainCache f → Requests
  both_begin r c = record { rules = r; cache = c; adder = ask; remover = ask }

  module _ (d : Text) where
    pub data AddStep (p : Requests) : Requests → Type 0 where
      add_refused :
          p.adder ≡ ask → contains f p.cache d ≡ true → AddStep p (record p { adder = nothing })
      add_asked :
          p.adder ≡ ask → contains f p.cache d ≡ false → AddStep p (record p { adder = both })
      add_cached :
          p.adder ≡ both → AddStep p (record p { cache = add f p.cache d; adder = rules_only })
      add_configured :
          p.adder ≡ rules_only
          → AddStep p (record p { rules = rules_add_domain d p.rules; adder = nothing })

    pub data RemoveStep (p : Requests) : Requests → Type 0 where
      remove_refused :
          p.remover ≡ ask
          → contains f p.cache d ≡ false
          → RemoveStep p (record p { remover = nothing })
      remove_asked :
          p.remover ≡ ask → contains f p.cache d ≡ true → RemoveStep p (record p { remover = both })
      remove_cached :
          p.remover ≡ both
          → RemoveStep p (record p { cache = remove f p.cache d; remover = rules_only })
      remove_configured :
          p.remover ≡ rules_only
          → RemoveStep p (record p { rules = rules_remove_domain d p.rules; remover = nothing })

    -- The steps of the two requests in any order.
    pub data Interleaved (start : Requests) : Requests → Type 0 where
      begin : Interleaved start start
      adds : {p q : Requests} → Interleaved start p → AddStep p q → Interleaved start q
      removes : {p q : Requests} → Interleaved start p → RemoveStep p q → Interleaved start q

    -- From the state, both requests can end in one with the property.
    abbrev pub CanEnd : Requests → (RulesConfig → DomainCache f → Type 0) → Type 0
    CanEnd start P =
        (q : Requests) × Interleaved start q
        × (q.adder ≡ nothing)
        × (q.remover ≡ nothing)
        × P q.rules q.cache

    module _ (l : IsLossless f) where
      contains-added : (c : DomainCache f) → contains f (add f c d) d ≡ true
      contains-added c = rw (contains-add f l c d d, text_eq_refl d) refl

      contains-removed : (c : DomainCache f) → contains f (remove f c d) d ≡ false
      contains-removed c = rw (contains-remove f c d d, text_eq_refl d) refl

      not_listed : (xs : List Text) → is_listed d (without d xs) ≡ false
      not_listed xs = elim (Bool-cases (is_listed d (without d xs))) [
        | inr absent ↦ absent
        | inl listed ↦
            absurd (((In-without d d xs).0 ((is_listed_iff d (without d xs)).0 listed)).0 refl)
      ]

      added_meanwhile :
          (r : RulesConfig) (c : DomainCache f)
          → contains f c d ≡ false
          → CanEnd (both_begin r c) (λ r' c'. is_listed d r'.domains ≡ not (contains f c' d))
      added_meanwhile r c new = (
        _,
        adds
            (removes
              (removes
                (removes (adds (adds begin (add_asked refl new)) (add_cached refl))
                  (remove_asked refl (contains-added c)))
                (remove_cached refl))
              (remove_configured refl))
            (add_configured refl),
        refl,
        refl,
        rw (contains-removed (add f c d))
            ((is_listed_iff d _).1 ((In-append_new d d _).1 (inl refl))),
      )

      removed_meanwhile :
          (r : RulesConfig) (c : DomainCache f)
          → contains f c d ≡ true
          → CanEnd (both_begin r c) (λ r' c'. is_listed d r'.domains ≡ not (contains f c' d))
      removed_meanwhile r c there = (
        _,
        removes
            (adds
              (adds
                (adds (removes (removes begin (remove_asked refl there)) (remove_cached refl))
                  (add_asked refl (contains-removed c)))
                (add_cached refl))
              (add_configured refl))
            (remove_configured refl),
        refl,
        refl,
        rw (contains-added (remove f c d)) (not_listed _),
      )

      -- A POST and a DELETE of one domain at the same time can end with the domain in the cache and not
      -- in the configuration, or in the configuration and not in the cache: whatever the rules and the
      -- cache are, there is an order of their steps that leaves the two different. The cache loses
      -- nothing.
      pub overlap_disagrees :
          (r : RulesConfig) (c : DomainCache f)
          → CanEnd (both_begin r c) (λ r' c'. is_listed d r'.domains ≡ not (contains f c' d))
      overlap_disagrees r c = elim (Bool-cases (contains f c d)) [
        | inl there ↦ removed_meanwhile r c there
        | inr new ↦ added_meanwhile r c new
      ]
