-- ===== src/Dns/Resolver/Calls.antt =====
-- How often the network is asked, also where the names refer to one another in a circle.
use dns_box.Prelude.{
  ℕ, zero, suc, ◌+◌, ◌*◌, ◌≤◌, Text, Option, none, some, List, [], ◌∷◌, ◌++◌, inl, inr, arith,
  length, ◌==◌, Bool-cases, Option-cases,
}
use dns_box.Cache.FastCache.{FastCache}
use dns_box.Cache.DnsCache.{RrCodec, Got, panicked, returned, DnsCache}
use dns_box.Config.{Config}
use dns_box.Dns.Message.{Rr, Msg, rcode_success, rcode_name_error, cname_target}
use dns_box.Dns.Servers.{sort_servers}
use dns_box.Dns.Servers.Sorted.{length-sort_servers}
use dns_box.Dns.Upstream.{Net}
use dns_box.Dns.Upstream.Laws.{query_servers_calls}
use dns_box.Dns.Resolver.{
  Outcome, panics, done, State, M, ◌>>=◌, ◌>>◌, continue, pure, Answers, get_from_cache, store,
  cache_response, query_upstream, follow, respond, resolve_step, resolver, got, chain, parse_scheme,
}

module _ (f : FastCache) (rr : RrCodec Rr) where
  -- The action makes at most `n` network calls.
  pub record Uses {A : Type 0} (n : ℕ) (m : M f rr A) : Type 0 where
    pub at : (s : State f rr) → (m s).1.calls ≤ s.calls + n

  module _ {A : Type 0} where
    pub Uses-pure : (n : ℕ) (x : A) → Uses n (pure f rr x)
    Uses-pure n x = record { at = λ s. omega arith }

    pub Uses-le : (m n : ℕ) (act : M f rr A) → m ≤ n → Uses m act → Uses n act
    Uses-le m n act h u = record { at = λ s. omega (arith, u.at s) }

  module _ {A B : Type 0} where
    pub Uses-bind :
        (a b : ℕ) (m : M f rr A) (k : A → M f rr B)
        → Uses a m
        → ((x : A) → Uses b (k x))
        → Uses (a + b) (◌>>=◌ f rr m k)
    Uses-bind a b m k um uk = record { at = λ s. go s (m s) (um.at s) }
      where
        go :
            (s : State f rr) (r : Outcome A × State f rr)
            → r.1.calls ≤ s.calls + a
            → (continue f rr r.0 k r.1).1.calls ≤ s.calls + (a + b)
        go s (panics, t) h = omega arith
        go s (done x, t) h = omega (arith, (uk x).at t)

  module _ (cfg : Config) (net : Net) (now : ℕ → ℕ) where
    abbrev pub servers : ℕ
    servers = length cfg.dns.upstream_servers

    got-calls :
        (r : Got Rr × DnsCache rr f) (s : State f rr)
        → (got f rr cfg net now r s).1.calls ≤ s.calls + 0
    got-calls (panicked, c) s = omega arith
    got-calls (returned o, c) s = omega arith

    Uses-get_from_cache :
        (domain : Text) (qtype : ℕ) → Uses 0 (get_from_cache f rr cfg net now domain qtype)
    unfolding get_from_cache
    Uses-get_from_cache domain qtype = record { at = λ s. got-calls _ s }

    Uses-store :
        (domain : Text) (qtype : ℕ) (rrs : List Rr) (ttl : ℕ)
        → Uses 0 (store f rr cfg net now domain qtype rrs ttl)
    unfolding store
    Uses-store domain qtype rrs ttl = record { at = λ s. omega arith }

    Uses-cache_response :
        (domain : Text) (qtype : ℕ) (rrs : List Rr)
        → Uses 0 (cache_response f rr cfg net now domain qtype rrs)
    unfolding cache_response
    Uses-cache_response domain qtype [] = Uses-pure 0 tt
    Uses-cache_response domain qtype (r ∷ rs) = Uses-store domain qtype (r ∷ rs) _

    Uses-query_upstream :
        (domain : Text) (qtype : ℕ) → Uses servers (query_upstream f rr cfg net now domain qtype)
    unfolding query_upstream
    Uses-query_upstream domain qtype = record {
      at = λ s. omega (
        arith,
        (query_servers_calls net _
            (sort_servers (parse_scheme f rr cfg net now) cfg.dns.upstream_servers) s.calls).1,
        length-sort_servers (parse_scheme f rr cfg net now) cfg.dns.upstream_servers,
      );
    }

    module _ (n : ℕ) (resolve : Text → ℕ → M f rr (Answers f rr))
        (uses : (d : Text) (t : ℕ) → Uses n (resolve d t)) (domain : Text) (qtype : ℕ) where
      Uses-cached :
          (rrs kept : List Rr) (rcode : ℕ)
          → Uses {A = Answers f rr} 0 (
              ◌>>◌ f rr
                (cache_response f rr cfg net now domain qtype rrs)
                (pure f rr (some kept, rcode)))
      Uses-cached rrs kept rcode =
          Uses-bind 0 0 _ _ (Uses-cache_response domain qtype rrs) (λ _. Uses-pure 0 _)

      Uses-chain :
          (answer : Rr) (r : Answers f rr)
          → Uses 0 (chain f rr cfg net now resolve domain qtype answer r)
      Uses-chain answer (recursive, rcode) = elim (Bool-cases (rcode == rcode_success)) [
        | inl fine ↦ rw fine (Uses-cached _ _ _)
        | inr bad ↦ rw bad (Uses-pure 0 _)
      ]

      Uses-follow :
          (kept answers : List Rr)
          → Uses n (follow f rr cfg net now resolve domain qtype kept answers)
      unfolding follow
      Uses-follow kept [] = Uses-le 0 n _ (omega arith) (Uses-cached kept kept _)
      Uses-follow kept (answer ∷ answers) = elim (Option-cases (cname_target answer.rr_data)) [
        | inl kept_on ↦ rw (kept_on, follow) (Uses-follow (kept ++ answer ∷ []) answers)
        | inr (target, found) ↦
            rw (found, follow)
              (Uses-le (n + 0) n _ (omega arith)
                (Uses-bind n 0 _ _ (uses target qtype) (λ r. Uses-chain answer r)))
      ]

      Uses-respond : (o : Option Msg) → Uses n (respond f rr cfg net now resolve domain qtype o)
      unfolding respond
      Uses-respond none = Uses-pure n _
      Uses-respond (some m) = elim (Bool-cases (m.rcode == rcode_name_error)) [
        | inl gone ↦ rw gone (
            Uses-le 0 n _ (omega arith)
              (Uses-bind 0 0 _ _ (Uses-store domain qtype [] _) (λ _. Uses-pure 0 _)))
        | inr there ↦ rw there (Uses-follow [] m.answer)
      ]

      Uses-missed :
          (o : Option (List Rr))
          → Uses (servers + n) (elim o [
            | some rrs ↦ pure f rr (some rrs, rcode_success)
            | none ↦
                ◌>>=◌ f rr
                  (query_upstream f rr cfg net now domain qtype)
                  (respond f rr cfg net now resolve domain qtype)
          ])
      Uses-missed none = Uses-bind servers n _ _ (Uses-query_upstream domain qtype) Uses-respond
      Uses-missed (some rrs) = Uses-pure (servers + n) _

      Uses-resolve_step : Uses (servers + n) (resolve_step f rr cfg net now resolve domain qtype)
      unfolding resolve_step
      Uses-resolve_step =
          Uses-le (0 + (servers + n)) (servers + n) _ (omega arith)
            (Uses-bind 0 (servers + n) _ _ (Uses-get_from_cache domain qtype) Uses-missed)

    pub Uses-resolver :
        (levels : ℕ) (domain : Text) (qtype : ℕ)
        → Uses (levels * servers) (resolver f rr cfg net now levels domain qtype)
    unfolding resolver
    Uses-resolver zero domain qtype = Uses-pure _ _
    Uses-resolver (suc levels) domain qtype =
        Uses-le (servers + levels * servers) (suc levels * servers) _ (grind arith) (
          Uses-resolve_step (levels * servers) (resolver f rr cfg net now levels)
            (Uses-resolver levels) domain qtype)

    -- Resolving a name asks the network at most once for each configured server and level, whatever
    -- the servers answer: for a name that is asked for at depth 0 that is eleven times the number of
    -- the servers.
    resolver_calls :
        (levels : ℕ) (domain : Text) (qtype : ℕ) (s : State f rr)
        → (resolver f rr cfg net now levels domain qtype s).1.calls ≤ s.calls + levels * servers
    resolver_calls levels domain qtype s = (Uses-resolver levels domain qtype).at s
