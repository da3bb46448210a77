-- ===== src/Dns/Resolver/Repeat.antt =====
-- What a second question for the same name and type gets while the entry of the first is fresh.
use dns_box.Prelude.{
  ℕ, suc, ◌+◌, ◌≤◌, ◌<◌, ◌^◌, true, false, Text, none, some, List, [], ◌∷◌, ◌≡◌, sym, ap, ◌∙◌,
  arith, ltb, subst,
}
use dns_box.Cache.FastCache.{FastCache}
use dns_box.Cache.DnsCache
use dns_box.Cache.DnsCache.{RrCodec, IsFaithful, Got, panicked, returned, DnsCache, stored}
use dns_box.Cache.DnsCache.Decode.{packable}
use dns_box.Cache.DnsCache.Laws.{get-set}
use dns_box.Config.{Config}
use dns_box.Dns.Message.{Rr, rcode_success, rcode_name_error}
use dns_box.Dns.Ttl.{normalize_ttl, normalize_ttl_bounds}
use dns_box.Dns.Upstream.{Net}
use dns_box.Dns.Resolver.{
  Outcome, panics, done, State, Answers, cache_key, get_from_cache, resolve_step, resolver,
}
use dns_box.Dns.Resolver.Kept.{Stored, IsKept, resolver-IsKept}

module _ (f : FastCache) (rr : RrCodec Rr) (cfg : Config) (net : Net) (now : ℕ → ℕ) where
  module _ (domain : Text) (qtype : ℕ) where
    -- The state after a question that the cache answers.
    abbrev pub read_once : State f rr → State f rr
    read_once s = record s { ticks = suc s.ticks }

    -- Within five minutes of the write, and for entries that fit the cache.
    pub record IsFresh (s later : State f rr) : Type 0 where
      pub tick : ℕ
      pub latest : s.ticks ≡ suc tick
      pub same : later.cache ≡ s.cache
      pub soon : now later.ticks ≤ now tick + 300
      pub small : now tick + 3600 < 2 ^ 63

    module _ (faithful : IsFaithful rr)
        (fits : (v : List ℕ) → f.fits (cache_key domain qtype) v ≡ true) where
      get-Stored :
          (s later : State f rr) (rrs : List Rr)
          → Stored f rr cfg net now domain qtype s rrs
          → IsFresh s later
          → DnsCache.get rr f later.cache (now later.ticks) (cache_key domain qtype)
            ≡ (returned (some (packable rr rrs)), later.cache)
      get-Stored s later rrs w h =
          let same_tick : now w.tick ≡ now h.tick = ap now (omega arith) in
          let fresh : ltb (now w.tick + normalize_ttl w.ttl) (now later.ticks) ≡ false =
            ground (arith, same_tick, normalize_ttl_bounds w.ttl) in
          let small : now w.tick + normalize_ttl w.ttl < 2 ^ 63 =
            omega (arith, same_tick, normalize_ttl_bounds w.ttl) in
          let read =
            get-set rr faithful f w.cache (now w.tick) (now later.ticks) (normalize_ttl w.ttl)
              (cache_key domain qtype) rrs (fits _) small in
          subst
            (λ (c : DnsCache rr f).
              DnsCache.get rr f c (now later.ticks) (cache_key domain qtype)
              ≡ (returned (some (packable rr rrs)), c))
            (sym (h.same ∙ w.written)) (rw fresh at read)

      resolver-Stored :
          (levels : ℕ) (s later : State f rr) (rrs : List Rr)
          → Stored f rr cfg net now domain qtype s rrs
          → IsFresh s later
          → resolver f rr cfg net now (suc levels) domain qtype later
            ≡ (done (some (packable rr rrs), rcode_success), read_once later)
      unfolding resolver resolve_step get_from_cache
      resolver-Stored levels s later rrs w h = rw (get-Stored s later rrs w h)

      -- A success with records, for a name that was not in the cache, is repeated for five minutes
      -- without a network call: the same question gets the records that can be packed. Entries fit the
      -- cache, packed records are read back, and no other entry was written in between.
      pub resolver_repeats_success :
          (levels levels' : ℕ) (s later : State f rr) (r : Rr) (rs : List Rr)
          → (get_from_cache f rr cfg net now domain qtype s).0 ≡ done none
          → (resolver f rr cfg net now (suc levels) domain qtype s).0
            ≡ done (some (r ∷ rs), rcode_success)
          → IsFresh (resolver f rr cfg net now (suc levels) domain qtype s).1 later
          → resolver f rr cfg net now (suc levels') domain qtype later
            ≡ (done (some (packable rr (r ∷ rs)), rcode_success), read_once later)
      resolver_repeats_success levels levels' s later r rs missed result h =
          let kept = resolver-IsKept f rr cfg net now domain qtype levels s missed in
          resolver-Stored levels' _ later (r ∷ rs)
            (success_of (resolver f rr cfg net now (suc levels) domain qtype s) kept result) h
        where
          success_of :
              (o : Outcome (Answers f rr) × State f rr)
              → IsKept f rr cfg net now domain qtype o
              → o.0 ≡ done (some (r ∷ rs), rcode_success)
              → Stored f rr cfg net now domain qtype o.1 (r ∷ rs)
          success_of (panics, t) k e = cc
          success_of (done (none, rcode), t) k e = cc
          success_of (done (some [], rcode), t) k e = cc
          success_of (done (some (q ∷ qs), rcode), t) k e =
              let same : ◌≡◌ {A = List Rr} (q ∷ qs) (r ∷ rs) = cc in
              let fine : rcode ≡ rcode_success = cc in
              subst (λ xs. Stored f rr cfg net now domain qtype t xs) same (k fine)

      -- A name error is answered once: the same question, asked again within five minutes, gets the
      -- code success with no record. Entries fit the cache, packed records are read back, and no other
      -- entry was written in between.
      pub resolver_forgets_name_error :
          (levels levels' : ℕ) (s later : State f rr)
          → (get_from_cache f rr cfg net now domain qtype s).0 ≡ done none
          → (resolver f rr cfg net now (suc levels) domain qtype s).0
            ≡ done (none, rcode_name_error)
          → IsFresh (resolver f rr cfg net now (suc levels) domain qtype s).1 later
          → resolver f rr cfg net now (suc levels') domain qtype later
            ≡ (done (some [], rcode_success), read_once later)
      resolver_forgets_name_error levels levels' s later missed result h =
          let kept = resolver-IsKept f rr cfg net now domain qtype levels s missed in
          resolver-Stored levels' _ later []
            (error_of (resolver f rr cfg net now (suc levels) domain qtype s) kept result) h
        where
          error_of :
              (o : Outcome (Answers f rr) × State f rr)
              → IsKept f rr cfg net now domain qtype o
              → o.0 ≡ done (none, rcode_name_error)
              → Stored f rr cfg net now domain qtype o.1 []
          error_of (panics, t) k e = cc
          error_of (done (none, rcode), t) k e = k (ground arith)
          error_of (done (some [], rcode), t) k e = cc
          error_of (done (some (q ∷ qs), rcode), t) k e = cc
