-- ===== src/Dns/Match.antt =====
-- Which questions the rules of a cache select: `isDomainInList` and `shouldProcess` of
-- internal/dns/handler.go.
pub mod Laws
pub mod LongSuffix
use dns_box.Prelude.{
  ℕ, Bool, true, false, ◌||◌, Text, Option, none, some, List, [], ◌∷◌, ℤ, split, join, trim_suffix,
  get_elem?,
}
use dns_box.Cache.FastCache.{FastCache}
use dns_box.Cache.DomainCache.{DomainCache, dot, contains, contains_suffix}

-- The name that a question asks for, without the final dot.
unfoldable pub question_name : Text → Text
question_name question = trim_suffix question dot

module _ (f : FastCache) where
  -- The loop over `parts[i:]` for i from 0 to len(parts) - 2.
  unfoldable pub suffix_loop : DomainCache f → List Text → Bool
  suffix_loop c [] = false
  suffix_loop c (p ∷ []) = false
  suffix_loop c (p ∷ q ∷ ps) =
      contains_suffix f c (dot ∷ join (p ∷ q ∷ ps) dot) || suffix_loop c (q ∷ ps)

  -- The test that both functions make on one cache.
  unfoldable pub matches : DomainCache f → Text → Bool
  matches c question =
      contains f c (question_name question) || suffix_loop c (split (question_name question) dot)

  abbrev pub in_cache : Option (DomainCache f) → Text → Bool
  in_cache none question = false
  in_cache (some c) question = matches c question

  -- The per-list caches stand in the order of their keys 0, 1, …
  unfoldable pub is_domain_in_list : List (DomainCache f) → Text → ℕ → Bool
  is_domain_in_list caches question i = in_cache (get_elem? caches i) question

  unfoldable pub matches_any : List (DomainCache f) → Text → Bool
  matches_any [] question = false
  matches_any (c ∷ cs) question = matches c question || matches_any cs question

  unfoldable pub should_process : DomainCache f → List (DomainCache f) → Text → Bool
  should_process c caches question = matches c question || matches_any caches question
