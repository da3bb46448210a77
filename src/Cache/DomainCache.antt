-- ===== src/Cache/DomainCache.antt =====
-- internal/cache/domain_cache.go: a set of domain names and of dotted suffixes.
pub mod Laws
use dns_box.Prelude.{
  ℕ, ◌-◌, Bool, Text, List, [], ◌∷◌, length, drop, ltb, if◌then◌else◌, has_prefix, split, join,
}
use dns_box.Cache.FastCache.{FastCache, has}

abbrev pub dot : ℕ
dot = b'.'

-- A leading dot is added where there is none.
unfoldable pub dotted : Text → Text
unfolding has_prefix
dotted s = if has_prefix s (dot ∷ []) then s else dot ∷ s

-- `parts[len(parts)-2:]`
abbrev pub last_two : List Text → List Text
last_two parts = drop (length parts - 2) parts

-- The key that `ContainsSuffix` looks up.
unfoldable pub suffix_key : Text → Text
suffix_key domain =
    let parts = split domain dot in
    dotted (if ltb 2 (length parts) then join (last_two parts) dot else domain)

module _ (f : FastCache) where
  pub record DomainCache : Type 0 where
    pub cache : f.Store

  unfoldable pub new_domain_cache : ℕ → DomainCache
  new_domain_cache size = record { cache = f.new size }

  unfoldable pub add : DomainCache → Text → DomainCache
  add c domain = record { cache = f.set c.cache domain [] }

  unfoldable pub add_suffix : DomainCache → Text → DomainCache
  add_suffix c suffix = record { cache = f.set c.cache (dotted suffix) [] }

  unfoldable pub remove : DomainCache → Text → DomainCache
  remove c domain = record { cache = f.del c.cache domain }

  unfoldable pub contains : DomainCache → Text → Bool
  unfolding has
  contains c domain = has f c.cache domain

  unfoldable pub contains_suffix : DomainCache → Text → Bool
  unfolding has
  contains_suffix c domain = has f c.cache (suffix_key domain)
