-- ===== src/Dns/Ttl.antt =====
-- `normalizeTTL` of internal/dns/handler.go. The comparison `ttl <= 0` of a uint32 is `ttl == 0`.
use dns_box.Prelude.{ℕ, ◌≤◌, ◌<◌, ◌≡◌, ◌↔◌, arith, ltb, leb, if◌then◌else◌}

abbrev effective : ℕ → ℕ
effective ttl = if leb ttl 0 then 3600 else if ltb ttl 180 then 900 else ttl

abbrev at_least : ℕ → ℕ
at_least e = if ltb e 300 then 300 else e

abbrev at_most : ℕ → ℕ
at_most e = if ltb 3600 e then 3600 else e

unfoldable pub normalize_ttl : ℕ → ℕ
normalize_ttl ttl = at_most (at_least (effective ttl))

-- Every normalised TTL lies between five minutes and an hour, and normalising it again changes
-- nothing.
pub normalize_ttl_bounds :
    (ttl : ℕ)
    → (300 ≤ normalize_ttl ttl)
      × (normalize_ttl ttl ≤ 3600)
      × (normalize_ttl (normalize_ttl ttl) ≡ normalize_ttl ttl)
unfolding normalize_ttl
normalize_ttl_bounds ttl = ground arith

-- A TTL is kept exactly if it lies between five minutes and an hour; it is lowered exactly if it is
-- longer than an hour, and else raised.
normalize_ttl_kept :
    (ttl : ℕ)
    → ((normalize_ttl ttl ≡ ttl) ↔ ((300 ≤ ttl) × (ttl ≤ 3600)))
      × ((normalize_ttl ttl < ttl) ↔ (3600 < ttl))
      × ((ttl < normalize_ttl ttl) ↔ (ttl < 300))
unfolding normalize_ttl
normalize_ttl_kept ttl = ground arith
