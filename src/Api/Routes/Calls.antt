-- ===== src/Api/Routes/Calls.antt =====
-- Requests to the API beside the mutators of the configuration.
use dns_box.Prelude.{ℕ, Bool-cases, Text, List, [], ◌∷◌, ◌++◌, ◌≡◌, refl, inl, inr, pos, Bool}
use dns_box.Cache.FastCache.{FastCache}
use dns_box.Cache.DomainCache.{contains, contains_suffix}
use dns_box.Config.{Config, NetListConfig}
use dns_box.Config.Lists.Laws.{ListEdit}
use dns_box.Config.Mutators.{Call, apply, apply_all}
use dns_box.Ipset.{Command, add_element, remove_element}
use dns_box.Startup.Sets.{timeout_or_default}
use dns_box.Api.{Server, Served, Saving}
use dns_box.Api.Shared.{add_domain, remove_domain, add_suffix, remove_suffix}
use dns_box.Api.Lists.{add_list_domain, remove_list_domain, add_list_suffix, remove_list_suffix}
use dns_box.Api.NetLists.{add_cidr, remove_cidr}
use dns_box.Api.Routes.Edits.{IsKept}

-- The second configuration is what some calls of the mutators make of the first.
abbrev pub IsCalled : Config → Config → Type 0
IsCalled c d = (ks : List Call) × (apply_all c ks ≡ d)

apply_all-snoc :
    (c : Config) (ks : List Call) (k : Call) → apply_all c (ks ++ k ∷ []) ≡ apply (apply_all c ks) k
unfolding apply_all
apply_all-snoc c [] k = refl
apply_all-snoc c (j ∷ ks) k = apply_all-snoc (apply c j) ks k

apply-IsCalled : (c d : Config) (k : Call) → IsCalled c d → IsCalled c (apply d k)
apply-IsCalled c d k (ks, e) = (ks ++ k ∷ [], rw (apply_all-snoc c ks k, e) refl)

module _ (f : FastCache) (Bytes : Type 0) (fails : Command → Bool) (is_cidr : Text → Bool) where
  module _ (c : Config) where
    abbrev pub IsFrom : Server f Bytes → Type 0
    IsFrom s = IsCalled c s.config

    domain_added :
        (t : Text) (x : Served f Bytes) → IsFrom x.server → IsFrom (add_domain f Bytes t x).server
    unfolding add_domain
    domain_added t x h = elim (Bool-cases (contains f x.server.domain_cache t)) [
      | inl there ↦ rw there h
      | inr new ↦ rw new (apply-IsCalled c x.server.config (Call.add_domain t) h)
    ]

    domain_removed :
        (t : Text) (x : Served f Bytes)
        → IsFrom x.server
        → IsFrom (remove_domain f Bytes t x).server
    unfolding remove_domain
    domain_removed t x h = elim (Bool-cases (contains f x.server.domain_cache t)) [
      | inl there ↦ rw there (apply-IsCalled c x.server.config (Call.remove_domain t) h)
      | inr new ↦ rw new h
    ]

    suffix_added :
        (t : Text) (x : Served f Bytes) → IsFrom x.server → IsFrom (add_suffix f Bytes t x).server
    unfolding add_suffix
    suffix_added t x h = elim (Bool-cases (contains_suffix f x.server.domain_cache t)) [
      | inl there ↦ rw there h
      | inr new ↦ rw new (apply-IsCalled c x.server.config (Call.add_suffix t) h)
    ]

    suffix_removed :
        (t : Text) (x : Served f Bytes)
        → IsFrom x.server
        → IsFrom (remove_suffix f Bytes t x).server
    unfolding remove_suffix
    suffix_removed t x h = elim (Bool-cases (contains_suffix f x.server.domain_cache t)) [
      | inl there ↦ rw there (apply-IsCalled c x.server.config (Call.remove_suffix t) h)
      | inr new ↦ rw new h
    ]

    cidr_added :
        (i : ℕ) (list : NetListConfig) (t : Text) (x : Served f Bytes)
        → IsFrom x.server
        → IsFrom (add_cidr f Bytes fails is_cidr i list t x).server
    unfolding add_cidr
    cidr_added i list t x h = elim (Bool-cases (is_cidr t)) [
      | inr bad ↦ rw bad h
      | inl good ↦
          elim (Bool-cases (fails (add_element list.name t (timeout_or_default list.timeout)))) [
            | inl failed ↦ rw (good, failed) h
            | inr done ↦
                rw (good, done) (apply-IsCalled c x.server.config (Call.add_cidr (pos i) t) h)
          ]
    ]

    cidr_removed :
        (i : ℕ) (list : NetListConfig) (t : Text) (x : Served f Bytes)
        → IsFrom x.server
        → IsFrom (remove_cidr f Bytes fails is_cidr i list t x).server
    unfolding remove_cidr
    cidr_removed i list t x h = elim (Bool-cases (fails (remove_element list.name t))) [
      | inl failed ↦ rw failed h
      | inr done ↦ rw done (apply-IsCalled c x.server.config (Call.remove_cidr (pos i) t) h)
    ]

    pub edits-IsFrom :
        (saving : Saving f Bytes) → IsKept f Bytes fails is_cidr saving IsFrom (λ list. Unit {0})
    unfolding add_list_domain remove_list_domain add_list_suffix remove_list_suffix
    edits-IsFrom saving = record {
      saves = λ s h. h;
      domain_added = domain_added;
      domain_removed = domain_removed;
      suffix_added = suffix_added;
      suffix_removed = suffix_removed;
      url_added = λ t s h. apply-IsCalled c s.config (Call.add_block_list_url t) h;
      url_removed = λ t s h. apply-IsCalled c s.config (Call.remove_block_list_url t) h;
      list_domain_added = λ i t x h.
          apply-IsCalled c x.server.config (Call.in_list (pos i) (ListEdit.add_domain t)) h;
      list_domain_removed = λ i t x h.
          apply-IsCalled c x.server.config (Call.in_list (pos i) (ListEdit.remove_domain t)) h;
      list_suffix_added = λ i t x h.
          apply-IsCalled c x.server.config (Call.in_list (pos i) (ListEdit.add_suffix t)) h;
      list_suffix_removed = λ i t x h.
          apply-IsCalled c x.server.config (Call.in_list (pos i) (ListEdit.remove_suffix t)) h;
      net_list_known = λ s i list h e. tt;
      cidr_added = λ i list t x q h. cidr_added i list t x h;
      cidr_removed = λ i list t x q h. cidr_removed i list t x h;
    }
