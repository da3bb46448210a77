-- ===== src/Api/Shared/Synced.antt =====
-- The shared domain cache beside the shared rules of the configuration.
use dns_box.Prelude.{
  false, not, ◌&&◌, ◌≢◌, Bool, true, ◌||◌, Text, ◌≡◌, refl, sym, ◌∙◌, ◌⊎◌, ◌↔◌, inl, inr, arith, In,
  text_eq, Bool-cases,
}
use dns_box.Prelude.Strings.Laws.{text_eq_iff, text_eq→ne, ne→text_eq}
use dns_box.Cache.FastCache.{FastCache, IsLossless}
use dns_box.Cache.DomainCache.{DomainCache, dot, dotted, contains, contains_suffix}
use dns_box.Cache.DomainCache
use dns_box.Cache.DomainCache.Laws.{contains-add, contains-add_suffix, contains-remove}
use dns_box.Config.{RulesConfig}
use dns_box.Config.Rules.{rules_add_domain, rules_add_suffix, rules_remove_domain}
use dns_box.Startup.Routing.{rule_keys}
use dns_box.Api.Shared.Keys.{
  IsPlain, In-rules_add_domain, In-rules_add_suffix, In-rules_remove_domain,
}

or_iff : (d k : Text) (b : Bool) → (text_eq d k || b ≡ true) ↔ ((d ≡ k) ⊎ (b ≡ true))
or_iff d k b = (to, from)
  where
    to : text_eq d k || b ≡ true → (d ≡ k) ⊎ (b ≡ true)
    to h = elim (Bool-cases (text_eq d k)) [
      | inl same ↦ inl ((text_eq_iff d k).0 same)
      | inr other ↦ inr (rw other at h)
    ]

    from : (d ≡ k) ⊎ (b ≡ true) → text_eq d k || b ≡ true
    from (inl e) = rw ((text_eq_iff d k).1 e) refl
    from (inr e) = ground (arith, e)

and_iff : (d k : Text) (b : Bool) → not (text_eq d k) && b ≡ true → (k ≢ d) × (b ≡ true)
and_iff d k b h = elim (Bool-cases (text_eq d k)) [
  | inl same ↦ let no : false ≡ true = rw same at h in absurd cc
  | inr other ↦ (λ e. text_eq→ne d k other (sym e), rw other at h)
]

module _ (f : FastCache) where
  -- The cache holds the keys of the rules, and no other.
  pub record IsSynced (c : DomainCache f) (r : RulesConfig) : Type 0 where
    pub has_keys : (k : Text) → (contains f c k ≡ true) ↔ In k (rule_keys r)

  module _ (l : IsLossless f) where
    pub add-IsSynced :
        (c : DomainCache f) (r : RulesConfig) (d : Text)
        → IsSynced c r
        → IsSynced (DomainCache.add f c d) (rules_add_domain d r)
    add-IsSynced c r d h = record { has_keys = λ k. (to k, from k) }
      where
        to :
            (k : Text)
            → contains f (DomainCache.add f c d) k ≡ true
            → In k (rule_keys (rules_add_domain d r))
        to k e = elim ((or_iff d k (contains f c k)).0 (sym (contains-add f l c d k) ∙ e)) [
          | inl same ↦ (In-rules_add_domain d k r).1 (inl same)
          | inr old ↦ (In-rules_add_domain d k r).1 (inr ((h.has_keys k).0 old))
        ]

        from :
            (k : Text)
            → In k (rule_keys (rules_add_domain d r))
            → contains f (DomainCache.add f c d) k ≡ true
        from k m = contains-add f l c d k ∙ elim ((In-rules_add_domain d k r).0 m) [
          | inl same ↦ (or_iff d k (contains f c k)).1 (inl same)
          | inr old ↦ (or_iff d k (contains f c k)).1 (inr ((h.has_keys k).1 old))
        ]

    pub add_suffix-IsSynced :
        (c : DomainCache f) (r : RulesConfig) (s : Text)
        → IsSynced c r
        → IsSynced (DomainCache.add_suffix f c s) (rules_add_suffix s r)
    add_suffix-IsSynced c r s h = record { has_keys = λ k. (to k, from k) }
      where
        to :
            (k : Text)
            → contains f (DomainCache.add_suffix f c s) k ≡ true
            → In k (rule_keys (rules_add_suffix s r))
        to k e =
            elim ((or_iff (dotted s) k (contains f c k)).0
              (sym (contains-add_suffix f l c s k) ∙ e)) [
                | inl same ↦ (In-rules_add_suffix s k r).1 (inl same)
                | inr old ↦ (In-rules_add_suffix s k r).1 (inr ((h.has_keys k).0 old))
              ]

        from :
            (k : Text)
            → In k (rule_keys (rules_add_suffix s r))
            → contains f (DomainCache.add_suffix f c s) k ≡ true
        from k m = contains-add_suffix f l c s k ∙ elim ((In-rules_add_suffix s k r).0 m) [
          | inl same ↦ (or_iff (dotted s) k (contains f c k)).1 (inl same)
          | inr old ↦ (or_iff (dotted s) k (contains f c k)).1 (inr ((h.has_keys k).1 old))
        ]

  pub remove-IsSynced :
      (c : DomainCache f) (r : RulesConfig) (d : Text)
      → IsPlain d
      → IsSynced c r
      → IsSynced (DomainCache.remove f c d) (rules_remove_domain d r)
  remove-IsSynced c r d plain h = record { has_keys = λ k. (to k, from k) }
    where
      to :
          (k : Text)
          → contains f (DomainCache.remove f c d) k ≡ true
          → In k (rule_keys (rules_remove_domain d r))
      to k e =
          let (other, there) = and_iff d k (contains f c k) (sym (contains-remove f c d k) ∙ e) in
          (In-rules_remove_domain d k r plain).1 (other, (h.has_keys k).0 there)

      from :
          (k : Text)
          → In k (rule_keys (rules_remove_domain d r))
          → contains f (DomainCache.remove f c d) k ≡ true
      from k m =
          let (other, there) = (In-rules_remove_domain d k r plain).0 m in
          contains-remove f c d k
          ∙ rw (ne→text_eq d k (λ e. other (sym e)), (h.has_keys k).1 there) refl
