-- ===== src/Cache/FastCache/Assoc.antt =====
-- An association list as an instance of the interface.
use dns_box.Prelude.{
  ℕ, true, Text, Option, none, some, List, [], ◌∷◌, ◌≡◌, ◌≢◌, refl, ◌⊎◌, inl, inr, Bool-cases,
  arith, text_eq, if◌then◌else◌,
}
use dns_box.Prelude.Strings.Laws.{text_eq_iff, text_eq_refl}
use dns_box.Cache.FastCache.{FastCache, IsLossless}

unfoldable pub find : List (Text × List ℕ) → Text → Option (List ℕ)
find [] k = none
find ((j, v) ∷ m) k = if text_eq j k then some v else find m k

unfoldable pub erase : List (Text × List ℕ) → Text → List (Text × List ℕ)
erase [] k = []
erase ((j, v) ∷ m) k = let rest = erase m k in if text_eq j k then rest else (j, v) ∷ rest

pub find-erase_self : (m : List (Text × List ℕ)) (k : Text) → find (erase m k) k ≡ none
unfolding find erase
find-erase_self [] k = refl
find-erase_self ((j, v) ∷ m) k = ground (arith, find-erase_self m k)

pub find-erase_ne : (m : List (Text × List ℕ)) (k j : Text) → k ≢ j → find (erase m k) j ≡ find m j
unfolding find erase
find-erase_ne [] k j h = refl
find-erase_ne ((i, v) ∷ m) k j h =
    ground (arith, find-erase_ne m k j h, text_eq_iff i k, text_eq_iff i j)

pub find-put_self :
    (c : List (Text × List ℕ)) (k : Text) (v : List ℕ) → find ((k, v) ∷ c) k ≡ some v
unfolding find
find-put_self c k v = ground (arith, text_eq_refl k)

pub find-put_ne :
    (c : List (Text × List ℕ)) (k j : Text) (v : List ℕ) → k ≢ j → find ((k, v) ∷ c) j ≡ find c j
unfolding find
find-put_ne c k j v h = ground (arith, text_eq_iff k j)

pub find-nil : (size : ℕ) (k : Text) → find [] k ≡ none
unfolding find
find-nil size k = refl

pub find-put_sound :
    (c : List (Text × List ℕ)) (k j : Text) (v w : List ℕ)
    → find ((k, v) ∷ c) j ≡ some w
    → ((k ≡ j) × (v ≡ w)) ⊎ (find c j ≡ some w)
unfolding find
find-put_sound c k j v w e = elim (Bool-cases (text_eq k j)) [
  | inl same ↦ inl ((text_eq_iff k j).0 same, ground arith)
  | inr other ↦ inr (rw other at e)
]

abbrev pub assoc : FastCache
assoc = record {
  Store = List (Text × List ℕ);
  new = λ _. [];
  get = find;
  set = λ c k v. (k, v) ∷ c;
  del = erase;
  fits = λ _ _. true;
  get-new = find-nil;
  get-set_self = λ c k v _. find-put_self c k v;
  get-set_sound = find-put_sound;
  get-del_self = find-erase_self;
  get-del_ne = find-erase_ne;
}

pub assoc-IsLossless : IsLossless assoc
assoc-IsLossless = record { fits_all = λ _ _. refl; kept = find-put_ne }
