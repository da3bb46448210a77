-- ===== src/Dns/Resolver.antt =====
-- `resolver`, `getFromCache` and `cacheResponse` of internal/dns/handler.go. The state is the answer
-- cache, with the number of the network call and of the reading of the clock that come next.
pub mod Good
pub mod Kept
pub mod Repeat
pub mod Calls
use dns_box.Prelude.{
  ℕ, zero, suc, ◌+◌, ◌/◌, ◌%◌, Bool, true, false, Text, codes, Option, none, some, List, [], ◌∷◌,
  ◌++◌, ℤ, to_u32, ltb, ◌==◌, items, if◌then◌else◌,
}
use dns_box.Cache.FastCache.{FastCache}
use dns_box.Cache.DnsCache.{RrCodec, Got, panicked, returned}
use dns_box.Cache.DnsCache
use dns_box.Config.{Config}
use dns_box.Dns.Message.{
  RrData, soa, cname_target, Rr, Question, Msg, rcode_success, rcode_server_failure,
  rcode_name_error,
}
use dns_box.Dns.Ttl.{normalize_ttl}
use dns_box.Dns.Servers.{sort_servers}
use dns_box.Dns.Upstream.{Net, Url, query_servers}

-- The digits of a number, with fuel; 5 digits are enough for a query type.
decimal_digits : ℕ → ℕ → Text → Text
decimal_digits zero n behind = behind
decimal_digits (suc fuel) n behind =
    let more = decimal_digits fuel (n / 10) ((b'0' + n % 10) ∷ behind) in
    if ltb n 10 then (b'0' + n) ∷ behind else more

unfoldable pub decimal : ℕ → Text
unfolding decimal_digits
decimal n = decimal_digits 20 n []

-- fmt.Sprintf("%s|%d", domain, qtype)
unfoldable pub cache_key : Text → ℕ → Text
cache_key domain qtype = domain ++ (b'|' ∷ decimal qtype)

-- The least TTL, behind the one that was found so far.
unfoldable pub min_ttl : ℕ → List Rr → ℕ
min_ttl ttl [] = ttl
min_ttl ttl (rr ∷ rrs) = min_ttl (if ltb rr.ttl ttl then rr.ttl else ttl) rrs

abbrev soa_minttl : ℕ → List Rr → ℕ
soa_minttl ttl [] = ttl
soa_minttl ttl (rr ∷ rrs) = elim rr.rr_data [ soa minttl ↦ minttl | _ ↦ ttl ]

-- The TTL of a negative answer: of the SOA, if it is the first authority record, and else the
-- configured time-out of the servers, or 300.
unfoldable pub negative_ttl : Config → Msg → ℕ
negative_ttl cfg response =
    let timeout = to_u32 cfg.dns.timeout in
    soa_minttl (if timeout == 0 then 300 else timeout) response.ns

pub data Outcome (A : Type 0) : Type 0 where
  panics : Outcome A
  done : A → Outcome A

module _ (f : FastCache) (rr : RrCodec Rr) where
  pub record State : Type 0 where
    pub cache : DnsCache.DnsCache rr f
    pub calls : ℕ
    pub ticks : ℕ

  abbrev pub M : Type 0 → Type 0
  M A = State → Outcome A × State

  abbrev continue : {A B : Type 0} → Outcome A → (A → M B) → M B
  continue panics k s = (panics, s)
  continue (done x) k s = k x s

  infixl 5 ◌>>=◌ ◌>>◌
  abbrev pub ◌>>=◌ : {A B : Type 0} → M A → (A → M B) → M B
  ◌>>=◌ m k s = let (r, s') = m s in continue r k s'

  abbrev pub ◌>>◌ : {B : Type 0} → M (Unit {0}) → M B → M B
  m >> k = m >>= λ _. k

  abbrev pub pure : {A : Type 0} → A → M A
  pure x s = (done x, s)

  -- The slice may be nil.
  abbrev pub Answers : Type 0
  Answers = Option (List Rr) × ℕ

  -- `now` is the clock, by the number of the reading.
  module _ (cfg : Config) (net : Net) (now : ℕ → ℕ) where
    abbrev got : Got Rr × DnsCache.DnsCache rr f → State → Outcome (Option (List Rr)) × State
    got (panicked, c) s = (panics, record s { cache = c; ticks = suc s.ticks })
    got (returned r, c) s = (done r, record s { cache = c; ticks = suc s.ticks })

    unfoldable pub get_from_cache : Text → ℕ → M (Option (List Rr))
    get_from_cache domain qtype s =
        got (DnsCache.get rr f s.cache (now s.ticks) (cache_key domain qtype)) s

    unfoldable pub store : Text → ℕ → List Rr → ℕ → M (Unit {0})
    store domain qtype rrs ttl s = (
      done tt,
      record s {
        cache =
            DnsCache.set rr f s.cache (now s.ticks) (cache_key domain qtype) rrs
              (normalize_ttl ttl);
        ticks = suc s.ticks;
      },
    )

    unfoldable pub cache_response : Text → ℕ → List Rr → M (Unit {0})
    cache_response domain qtype [] = pure tt
    cache_response domain qtype (r ∷ rs) = store domain qtype (r ∷ rs) (min_ttl r.ttl (r ∷ rs))

    parse_scheme : Text → Option Text
    parse_scheme server = elim (net.parse_url server) [ none ↦ none | some u ↦ some u.scheme ]

    unfoldable pub query_upstream : Text → ℕ → M (Option Msg)
    unfolding parse_scheme
    query_upstream domain qtype s =
        let (response, next) =
          query_servers net (record { name = net.fqdn domain; qtype = qtype })
            (sort_servers parse_scheme cfg.dns.upstream_servers) s.calls in
        (done response, record s { calls = next })

    module _ (resolve : Text → ℕ → M Answers) (domain : Text) (qtype : ℕ) where
      -- What follows the recursive call for a CNAME.
      abbrev chain : Rr → Answers → M Answers
      chain answer (recursive, rcode) =
          if rcode == rcode_success
          then (do
            cache_response domain qtype (answer ∷ items recursive)
            pure (some (answer ∷ items recursive), rcode_success))
          else pure (some (answer ∷ items recursive), rcode)

      -- The loop over the answers, with those that were kept. The first CNAME ends it.
      unfoldable pub follow : List Rr → List Rr → M Answers
      follow kept [] = do cache_response domain qtype kept; pure (some kept, rcode_success)
      follow kept (answer ∷ answers) =
          let rest = follow (kept ++ answer ∷ []) answers in
          elim (cname_target answer.rr_data) [
            | some target ↦ (do recursive ← resolve target qtype; chain answer recursive)
            | none ↦ rest
          ]

      respond : Option Msg → M Answers
      unfolding follow
      respond none = pure (none, rcode_server_failure)
      respond (some response) =
          if response.rcode == rcode_name_error
          then (do store domain qtype [] (negative_ttl cfg response); pure (none, rcode_name_error))
          else follow [] response.answer

      -- The body of `resolver` behind the test of the depth.
      unfoldable pub resolve_step : M Answers
      unfolding respond
      resolve_step = do
        cached ← get_from_cache domain qtype
        elim cached [
          | some rrs ↦ pure (some rrs, rcode_success)
          | none ↦ (do response ← query_upstream domain qtype; respond response)
        ]

    -- `depth` runs from 0 to 10: eleven levels are resolved, and the next one fails. The first argument
    -- is the number of levels that are left.
    unfoldable pub resolver : ℕ → Text → ℕ → M Answers
    unfolding resolve_step
    resolver zero domain qtype = pure (none, rcode_server_failure)
    resolver (suc levels) domain qtype = resolve_step (resolver levels) domain qtype
