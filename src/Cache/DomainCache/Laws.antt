-- ===== src/Cache/DomainCache/Laws.antt =====
-- What a domain cache contains after each operation.
use dns_box.Prelude.{
  ℕ, true, false, not, ◌||◌, ◌&&◌, Text, Option, none, some, List, [], ◌≡◌, refl, text_eq, ◌⊎◌, inl,
  inr, Bool-cases,
}
use dns_box.Prelude.Strings.Laws.{text_eq_iff, text_eq→ne}
use dns_box.Cache.FastCache.{FastCache, IsLossless, has, is_some}
use dns_box.Cache.DomainCache.{
  DomainCache, new_domain_cache, dotted, add, add_suffix, remove, contains,
}

module _ (f : FastCache) where
  pub contains-new_domain_cache :
      (size : ℕ) (k : Text) → contains f (new_domain_cache f size) k ≡ false
  unfolding contains new_domain_cache
  contains-new_domain_cache size k = rw (f.get-new size k)

  pub contains-remove :
      (c : DomainCache f) (d k : Text)
      → contains f (remove f c d) k ≡ not (text_eq d k) && contains f c k
  unfolding contains remove
  contains-remove c d k = elim (Bool-cases (text_eq d k)) [
    | inl e ↦ let same = (text_eq_iff d k).0 e in rw (e, ← same, f.get-del_self c.cache d)
    | inr n ↦ rw (n, f.get-del_ne c.cache d k (text_eq→ne d k n))
  ]

  -- Nothing is in the cache that was not added, even where entries are evicted.
  contains-set_sound :
      (c : f.Store) (d k : Text) → has f (f.set c d []) k ≡ true → (d ≡ k) ⊎ (has f c k ≡ true)
  unfolding has
  contains-set_sound c d k h = was_there (f.get (f.set c d []) k) refl h
    where
      was_there :
          (o : Option (List ℕ))
          → f.get (f.set c d []) k ≡ o
          → is_some o ≡ true
          → (d ≡ k) ⊎ (is_some (f.get c k) ≡ true)
      was_there none e p = cc
      was_there (some v) e p = elim (f.get-set_sound c d k [] v e) [
        | inl same ↦ inl (same.0)
        | inr old ↦ inr (rw old)
      ]

  module _ (l : IsLossless f) where
    has-set : (c : f.Store) (d k : Text) → has f (f.set c d []) k ≡ text_eq d k || has f c k
    unfolding has
    has-set c d k = elim (Bool-cases (text_eq d k)) [
      | inl e ↦
          let same = (text_eq_iff d k).0 e in
          rw (e, ← same, f.get-set_self c d [] (l.fits_all d []))
      | inr n ↦ rw (n, l.kept c d k [] (text_eq→ne d k n))
    ]

    pub contains-add :
        (c : DomainCache f) (d k : Text) → contains f (add f c d) k ≡ text_eq d k || contains f c k
    unfolding contains add
    contains-add c d k = has-set c.cache d k

    pub contains-add_suffix :
        (c : DomainCache f) (s k : Text)
        → contains f (add_suffix f c s) k ≡ text_eq (dotted s) k || contains f c k
    unfolding contains add_suffix
    contains-add_suffix c s k = has-set c.cache (dotted s) k

  pub contains-add_sound :
      (c : DomainCache f) (d k : Text)
      → contains f (add f c d) k ≡ true
      → (d ≡ k) ⊎ (contains f c k ≡ true)
  unfolding contains add
  contains-add_sound c d k h = contains-set_sound c.cache d k h

  pub contains-add_suffix_sound :
      (c : DomainCache f) (s k : Text)
      → contains f (add_suffix f c s) k ≡ true
      → (dotted s ≡ k) ⊎ (contains f c k ≡ true)
  unfolding contains add_suffix
  contains-add_suffix_sound c s k h = contains-set_sound c.cache (dotted s) k h
