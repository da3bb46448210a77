-- ===== src/Api/Shared/Removals.antt =====
-- What removing a suffix leaves behind.
use dns_box.Prelude.{true, false, Text, [], ◌∷◌, ◌≡◌, ◌≢◌, refl, ap, arith, In, has_prefix, length}
use dns_box.Prelude.Strings.Laws.{ne→text_eq}
use dns_box.Cache.FastCache.{FastCache}
use dns_box.Cache.DomainCache.{dot, dotted, contains, contains_suffix}
use dns_box.Cache.DomainCache.Laws.{contains-remove}
use dns_box.Config.Rules
use dns_box.Config.Rules.Sets.{In-without}
use dns_box.Api.{Served}
use dns_box.Api.Shared.{remove_suffix}

dotted-ne : (s : Text) → has_prefix s (dot ∷ []) ≡ false → s ≢ dotted s
unfolding dotted
dotted-ne s plain same = longer s (rw plain at same)
  where
    longer : (t : Text) → t ≡ dot ∷ t → ⊥
    longer t e = omega (arith, ap length e)

module _ (f : FastCache) (Bytes : Type 0) where
  -- Removing a suffix that is written without a leading dot, and that the cache matches, takes it out
  -- of the configuration; but the dotted key under which the suffix was added is in the domain cache
  -- exactly if it was there before.
  pub remove_suffix-contains :
      (s : Text) (x : Served f Bytes)
      → has_prefix s (dot ∷ []) ≡ false
      → contains_suffix f x.server.domain_cache s ≡ true
      → (¬ In s (remove_suffix f Bytes s x).server.config.rules.domain_suffix)
        × (contains f (remove_suffix f Bytes s x).server.domain_cache (dotted s)
            ≡ contains f x.server.domain_cache (dotted s))
  unfolding remove_suffix Rules.remove_suffix
  remove_suffix-contains s x plain found = rw found (
    (λ m. ((In-without s s x.server.config.rules.domain_suffix).0 m).0 refl),
    rw
        (
          contains-remove f x.server.domain_cache s (dotted s),
          ne→text_eq s (dotted s) (dotted-ne s plain),
        )
        refl,
  )
