-- ===== src/Dns/Resolver/Kept.antt =====
-- What the resolver leaves in the cache when it answers a question that was not there.
use dns_box.Prelude.{
  ℕ, suc, Text, Option, none, some, List, [], ◌∷◌, ◌++◌, ◌≡◌, refl, inl, inr, arith, ◌==◌, items,
  Bool-cases, Option-cases,
}
use dns_box.Cache.FastCache.{FastCache}
use dns_box.Cache.DnsCache
use dns_box.Cache.DnsCache.{RrCodec, IsFaithful, Got, panicked, returned, DnsCache, stored}
use dns_box.Config.{Config}
use dns_box.Dns.Message.{Rr, Msg, rcode_success, rcode_name_error, cname_target}
use dns_box.Dns.Ttl.{normalize_ttl}
use dns_box.Dns.Upstream.{Net}
use dns_box.Dns.Resolver.{
  Outcome, panics, done, State, M, ◌>>=◌, ◌>>◌, continue, pure, Answers, cache_key, get_from_cache,
  store, cache_response, query_upstream, follow, respond, resolve_step, resolver, chain, min_ttl,
  negative_ttl,
}

module _ (f : FastCache) (rr : RrCodec Rr) (cfg : Config) (net : Net) (now : ℕ → ℕ) where
  module _ (domain : Text) (qtype : ℕ) where
    -- The last write stored the records for the question, at the last reading of the clock.
    pub record Stored (s : State f rr) (rrs : List Rr) : Type 0 where
      pub tick : ℕ
      pub cache : DnsCache rr f
      pub ttl : ℕ
      pub written :
          s.cache
          ≡ DnsCache.set rr f cache (now tick) (cache_key domain qtype) rrs (normalize_ttl ttl)
      pub latest : s.ticks ≡ suc tick

    -- A name error, and a success with records, have been stored.
    abbrev pub IsKept : Outcome (Answers f rr) × State f rr → Type 0
    IsKept (panics, s) = Unit
    IsKept (done (none, rcode), s) = rcode ≡ rcode_name_error → Stored s []
    IsKept (done (some [], rcode), s) = Unit
    IsKept (done (some (r ∷ rs), rcode), s) = rcode ≡ rcode_success → Stored s (r ∷ rs)

    store-Stored :
        (rrs : List Rr) (ttl : ℕ) (s : State f rr)
        → Stored (store f rr cfg net now domain qtype rrs ttl s).1 rrs
    unfolding store
    store-Stored rrs ttl s = record {
      tick = s.ticks;
      cache = s.cache;
      ttl = ttl;
      written = refl;
      latest = refl;
    }

    cached-IsKept :
        (rrs : List Rr) (s : State f rr)
        → IsKept (
            (◌>>◌ f rr
                (cache_response f rr cfg net now domain qtype rrs)
                (pure f rr (some rrs, rcode_success)))
              s)
    unfolding cache_response store
    cached-IsKept [] s = tt
    cached-IsKept (r ∷ rs) s = λ _. store-Stored (r ∷ rs) (min_ttl r.ttl (r ∷ rs)) s

    name_error-IsKept :
        (ttl : ℕ) (s : State f rr)
        → IsKept (
            (◌>>◌ f rr
                (store f rr cfg net now domain qtype [] ttl)
                (pure f rr (none, rcode_name_error)))
              s)
    unfolding store
    name_error-IsKept ttl s = λ _. store-Stored [] ttl s

    module _ (resolve : Text → ℕ → M f rr (Answers f rr)) where
      chain-IsKept :
          (answer : Rr) (r : Answers f rr) (s : State f rr)
          → IsKept (chain f rr cfg net now resolve domain qtype answer r s)
      chain-IsKept answer (recursive, rcode) s = elim (Bool-cases (rcode == rcode_success)) [
        | inl fine ↦ rw fine (cached-IsKept (answer ∷ items recursive) s)
        | inr bad ↦ rw bad (λ e. absurd (ground arith))
      ]

      resolved-IsKept :
          (answer : Rr) (r : Outcome (Answers f rr) × State f rr)
          → IsKept (continue f rr r.0 (chain f rr cfg net now resolve domain qtype answer) r.1)
      resolved-IsKept answer (panics, s) = tt
      resolved-IsKept answer (done r, s) = chain-IsKept answer r s

      follow-IsKept :
          (kept answers : List Rr) (s : State f rr)
          → IsKept (follow f rr cfg net now resolve domain qtype kept answers s)
      unfolding follow
      follow-IsKept kept [] s = cached-IsKept kept s
      follow-IsKept kept (answer ∷ answers) s = elim (Option-cases (cname_target answer.rr_data)) [
        | inl kept_on ↦ rw (kept_on, follow) (follow-IsKept (kept ++ answer ∷ []) answers s)
        | inr (target, found) ↦ rw (found, follow) (resolved-IsKept answer (resolve target qtype s))
      ]

      respond-IsKept :
          (o : Option Msg) (s : State f rr)
          → IsKept (respond f rr cfg net now resolve domain qtype o s)
      unfolding respond
      respond-IsKept none s = λ e. absurd (omega arith)
      respond-IsKept (some m) s = elim (Bool-cases (m.rcode == rcode_name_error)) [
        | inl gone ↦ rw gone (name_error-IsKept (negative_ttl cfg m) s)
        | inr there ↦ rw there (follow-IsKept [] m.answer s)
      ]

      asked-IsKept :
          (s : State f rr)
          → IsKept (
              ◌>>=◌ f rr
                (query_upstream f rr cfg net now domain qtype)
                (respond f rr cfg net now resolve domain qtype)
                s)
      unfolding query_upstream
      asked-IsKept s = respond-IsKept _ _

      missed-IsKept :
          (r : Outcome (Option (List Rr)) × State f rr)
          → r.0 ≡ done none
          → IsKept (
              continue f rr r.0
                (λ cached. elim cached [
                  | some rrs ↦ pure f rr (some rrs, rcode_success)
                  | none ↦
                      ◌>>=◌ f rr
                        (query_upstream f rr cfg net now domain qtype)
                        (respond f rr cfg net now resolve domain qtype)
                ])
                r.1)
      missed-IsKept (panics, s) e = cc
      missed-IsKept (done none, s) e = asked-IsKept s
      missed-IsKept (done (some rrs), s) e = cc

      resolve_step-IsKept :
          (s : State f rr)
          → (get_from_cache f rr cfg net now domain qtype s).0 ≡ done none
          → IsKept (resolve_step f rr cfg net now resolve domain qtype s)
      unfolding resolve_step
      resolve_step-IsKept s missed =
          missed-IsKept (get_from_cache f rr cfg net now domain qtype s) missed

    pub resolver-IsKept :
        (levels : ℕ) (s : State f rr)
        → (get_from_cache f rr cfg net now domain qtype s).0 ≡ done none
        → IsKept (resolver f rr cfg net now (suc levels) domain qtype s)
    unfolding resolver
    resolver-IsKept levels s missed =
        resolve_step-IsKept (resolver f rr cfg net now levels) s missed
