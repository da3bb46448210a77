-- ===== src/Dns/Resolver/Good.antt =====
-- The replies of `resolver`, its panics, and the readable entries of the answer cache.
use dns_box.Prelude.{
  ℕ, zero, suc, Text, Option, none, some, List, [], ◌∷◌, ◌≡◌, ◌≢◌, refl, ◌⊎◌, inl, inr, arith, ◌==◌,
  Bool-cases, Option-cases, ◌++◌,
}
use dns_box.Cache.FastCache.{FastCache}
use dns_box.Cache.DnsCache.{RrCodec, Got, panicked, returned, DnsCache}
use dns_box.Cache.DnsCache.Readable.{IsReadable, Returned, get-IsReadable, set-IsReadable}
use dns_box.Config.{Config}
use dns_box.Dns.Message.{
  Rr, Msg, rcode_success, rcode_server_failure, rcode_name_error, cname_target,
}
use dns_box.Dns.Upstream.{Net}
use dns_box.Dns.Upstream.Laws.{query_servers_rcode}
use dns_box.Dns.Resolver.{
  Outcome, panics, done, State, M, ◌>>=◌, ◌>>◌, continue, pure, Answers, get_from_cache, store,
  cache_response, query_upstream, follow, respond, resolve_step, resolver, got, chain,
}

abbrev pub Returns : {A : Type 0} → (A → Type 0) → Outcome A → Type 0
Returns P panics = ⊥
Returns P (done x) = P x

module _ (f : FastCache) (rr : RrCodec Rr) where
  -- From a state with a readable cache the action returns a value with the property, and leaves the
  -- cache readable.
  pub record Good {A : Type 0} (P : A → Type 0) (m : M f rr A) : Type 0 where
    pub at :
        (s : State f rr)
        → IsReadable rr f s.cache
        → IsReadable rr f (m s).1.cache × Returns P (m s).0

  module _ {A : Type 0} {P : A → Type 0} where
    pub Good-pure : (x : A) → P x → Good P (pure f rr x)
    Good-pure x p = record { at = λ s h. (h, p) }

  module _ {A B : Type 0} {P : A → Type 0} {Q : B → Type 0} where
    pub Good-bind :
        (m : M f rr A) (k : A → M f rr B)
        → Good P m
        → ((x : A) → P x → Good Q (k x))
        → Good Q (◌>>=◌ f rr m k)
    Good-bind m k gm gk = record { at = λ s h. go (m s) (gm.at s h) }
      where
        go :
            (r : Outcome A × State f rr)
            → IsReadable rr f r.1.cache × Returns P r.0
            → IsReadable rr f (continue f rr r.0 k r.1).1.cache
              × Returns Q (continue f rr r.0 k r.1).0
        go (panics, s) (h, p) = elim p [ ]
        go (done x, s) (h, p) = (gk x p).at s h

  module _ (cfg : Config) (net : Net) (now : ℕ → ℕ) where
    Good-got :
        (r : Got Rr × DnsCache rr f) (s : State f rr)
        → Returned rr f r.0 × IsReadable rr f r.1
        → IsReadable rr f (got f rr cfg net now r s).1.cache
          × Returns (λ _. Unit {0}) (got f rr cfg net now r s).0
    Good-got (panicked, c) s (p, h) = elim p [ ]
    Good-got (returned o, c) s (p, h) = (h, tt)

    Good-get_from_cache :
        (domain : Text) (qtype : ℕ)
        → Good (λ _. Unit {0}) (get_from_cache f rr cfg net now domain qtype)
    unfolding get_from_cache
    Good-get_from_cache domain qtype = record {
      at = λ s h. Good-got _ s (get-IsReadable rr f s.cache _ _ h);
    }

    Good-store :
        (domain : Text) (qtype : ℕ) (rrs : List Rr) (ttl : ℕ)
        → Good (λ _. Unit {0}) (store f rr cfg net now domain qtype rrs ttl)
    unfolding store
    Good-store domain qtype rrs ttl = record {
      at = λ s h. (set-IsReadable rr f s.cache _ _ rrs _ h, tt);
    }

    Good-cache_response :
        (domain : Text) (qtype : ℕ) (rrs : List Rr)
        → Good (λ _. Unit {0}) (cache_response f rr cfg net now domain qtype rrs)
    unfolding cache_response
    Good-cache_response domain qtype [] = Good-pure tt tt
    Good-cache_response domain qtype (r ∷ rs) = Good-store domain qtype (r ∷ rs) _

    -- The response of the loop over the servers, if there is one, has one of the two codes.
    abbrev IsUsable : Option Msg → Type 0
    IsUsable none = Unit
    IsUsable (some m) = (m.rcode ≡ rcode_success) ⊎ (m.rcode ≡ rcode_name_error)

    IsUsable-of : (o : Option Msg) → ((m : Msg) → o ≡ some m → IsUsable (some m)) → IsUsable o
    IsUsable-of none h = tt
    IsUsable-of (some m) h = h m refl

    Good-query_upstream :
        (domain : Text) (qtype : ℕ) → Good IsUsable (query_upstream f rr cfg net now domain qtype)
    unfolding query_upstream
    Good-query_upstream domain qtype = record {
      at = λ s h. (h, IsUsable-of _ (query_servers_rcode net _ _ s.calls));
    }

    -- The code is one of three, and success comes with a slice that is not nil.
    abbrev pub IsReply : Answers f rr → Type 0
    IsReply (rrs, rcode) =
        ((rcode ≡ rcode_success) × (rrs ≢ none))
        ⊎ ((rcode ≡ rcode_server_failure) ⊎ (rcode ≡ rcode_name_error))

    IsReply-ok : (rrs : List Rr) → IsReply (some rrs, rcode_success)
    IsReply-ok rrs = inl (refl, λ e. cc)

    module _ (resolve : Text → ℕ → M f rr (Answers f rr))
        (good : (d : Text) (t : ℕ) → Good IsReply (resolve d t)) (domain : Text) (qtype : ℕ) where
      Good-cached :
          (rrs kept : List Rr)
          → Good IsReply (
              ◌>>◌ f rr
                (cache_response f rr cfg net now domain qtype rrs)
                (pure f rr (some kept, rcode_success)))
      Good-cached rrs kept =
          Good-bind _ _ (Good-cache_response domain qtype rrs)
            (λ _ _. Good-pure _ (IsReply-ok kept))

      Good-chain :
          (answer : Rr) (r : Answers f rr)
          → IsReply r
          → Good IsReply (chain f rr cfg net now resolve domain qtype answer r)
      Good-chain answer (recursive, rcode) p = elim (Bool-cases (rcode == rcode_success)) [
        | inl fine ↦ rw fine (Good-cached _ _)
        | inr bad ↦
            rw bad (Good-pure _ (elim p [ inl q ↦ absurd (ground (arith, q.0)) | inr q ↦ inr q ]))
      ]

      Good-follow :
          (kept answers : List Rr)
          → Good IsReply (follow f rr cfg net now resolve domain qtype kept answers)
      unfolding follow
      Good-follow kept [] = Good-cached kept kept
      Good-follow kept (answer ∷ answers) = elim (Option-cases (cname_target answer.rr_data)) [
        | inl kept_on ↦ rw (kept_on, follow) (Good-follow (kept ++ answer ∷ []) answers)
        | inr (target, found) ↦
            rw (found, follow) (Good-bind _ _ (good target qtype) (λ r p. Good-chain answer r p))
      ]

      Good-respond :
          (o : Option Msg)
          → IsUsable o
          → Good IsReply (respond f rr cfg net now resolve domain qtype o)
      unfolding respond
      Good-respond none p = Good-pure _ (inr (inl refl))
      Good-respond (some m) p = elim (Bool-cases (m.rcode == rcode_name_error)) [
        | inl gone ↦
            rw gone
              (Good-bind _ _ (Good-store domain qtype [] _) (λ _ _. Good-pure _ (inr (inr refl))))
        | inr there ↦ rw there (Good-follow [] m.answer)
      ]

      Good-missed :
          (o : Option (List Rr))
          → Good IsReply (elim o [
            | some rrs ↦ pure f rr (some rrs, rcode_success)
            | none ↦
                ◌>>=◌ f rr
                  (query_upstream f rr cfg net now domain qtype)
                  (respond f rr cfg net now resolve domain qtype)
          ])
      Good-missed none = Good-bind _ _ (Good-query_upstream domain qtype) Good-respond
      Good-missed (some rrs) = Good-pure _ (IsReply-ok rrs)

      Good-resolve_step : Good IsReply (resolve_step f rr cfg net now resolve domain qtype)
      unfolding resolve_step
      Good-resolve_step = Good-bind _ _ (Good-get_from_cache domain qtype) (λ o _. Good-missed o)

    pub Good-resolver :
        (levels : ℕ) (domain : Text) (qtype : ℕ)
        → Good IsReply (resolver f rr cfg net now levels domain qtype)
    unfolding resolver
    Good-resolver zero domain qtype = Good-pure _ (inr (inl refl))
    Good-resolver (suc levels) domain qtype =
        Good-resolve_step (resolver f rr cfg net now levels) (Good-resolver levels) domain qtype

    -- From a cache in which every entry is empty or has its time stamp, resolving any name, at any
    -- depth and whatever the upstream servers answer, does not panic; it returns with the code
    -- success and records that are not nil, with a server failure, or with a name error; and the
    -- cache is again such a one.
    pub resolver_replies :
        (levels : ℕ) (domain : Text) (qtype : ℕ) (s : State f rr)
        → IsReadable rr f s.cache
        → Returns IsReply (resolver f rr cfg net now levels domain qtype s).0
          × IsReadable rr f (resolver f rr cfg net now levels domain qtype s).1.cache
    resolver_replies levels domain qtype s h =
        let (kept, replied) = (Good-resolver levels domain qtype).at s h in (replied, kept)
