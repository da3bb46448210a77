-- ===== src/Cache/FastCache.antt =====
-- The interface of github.com/VictoriaMetrics/fastcache that internal/cache uses. The package is not
-- part of the repository, so a value of `FastCache` is a parameter wherever a cache is used.
pub mod Assoc
use dns_box.Prelude.{ℕ, Bool, true, false, Text, Option, none, some, List, ◌≡◌, ◌≢◌, ◌⊎◌}

-- The laws are the documented behaviour: a stored entry is found under its key, unless it is too
-- large to be stored (`fits`), and storing one entry may evict others but never invents one.
pub record FastCache : Type 1 where
  pub Store : Type 0
  pub new : ℕ → Store
  pub get : Store → Text → Option (List ℕ)
  pub set : Store → Text → List ℕ → Store
  pub del : Store → Text → Store
  pub fits : Text → List ℕ → Bool
  pub get-new : (size : ℕ) (k : Text) → get (new size) k ≡ none
  pub get-set_self :
      (c : Store) (k : Text) (v : List ℕ) → fits k v ≡ true → get (set c k v) k ≡ some v
  pub get-set_sound :
      (c : Store) (k j : Text) (v w : List ℕ)
      → get (set c k v) j ≡ some w
      → ((k ≡ j) × (v ≡ w)) ⊎ (get c j ≡ some w)
  pub get-del_self : (c : Store) (k : Text) → get (del c k) k ≡ none
  pub get-del_ne : (c : Store) (k j : Text) → k ≢ j → get (del c k) j ≡ get c j

-- The cache is large enough for what it is given: every entry fits and nothing is evicted.
pub record IsLossless (f : FastCache) : Type 0 where
  pub fits_all : (k : Text) (v : List ℕ) → f.fits k v ≡ true
  pub kept : (c : f.Store) (k j : Text) (v : List ℕ) → k ≢ j → f.get (f.set c k v) j ≡ f.get c j

module _ {A : Type 0} where
  abbrev pub is_some : Option A → Bool
  is_some none = false
  is_some (some a) = true

-- `Has`
unfoldable pub has : (f : FastCache) → f.Store → Text → Bool
has f c k = is_some (f.get c k)
