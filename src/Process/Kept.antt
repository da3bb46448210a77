-- ===== src/Process/Kept.antt =====
-- What every step of the program keeps: the readable answer cache, the frame of the configuration, and
-- that additions go to created sets.
use dns_box.Prelude.{ℕ, Text, List, ◌++◌, ◌≡◌, sym, subst, inl, inr, All-In, In-map}
use dns_box.Cache.FastCache.{FastCache}
use dns_box.Cache.DnsCache.{RrCodec}
use dns_box.Cache.DnsCache.Readable.{IsReadable}
use dns_box.Config.{Config, get_ipset_lists}
use dns_box.Config.Mutators.Frame.{header, Frame, frame}
use dns_box.Ipset.{Command, add}
use dns_box.Dns.Message.{Rr}
use dns_box.Dns.Resolver.{done}
use dns_box.Dns.Resolver.Good.{Returns}
use dns_box.Dns.Handler.{Request, Response, serve_dns}
use dns_box.Dns.Handler.Serve.{serve_dns_replies}
use dns_box.Dns.Handler.Sent.{IsToList, AddsToLists, serve_dns-AddsToLists}
use dns_box.Startup.Sets.Ready.{IsMade, HasMade, AddsToMade, IsReady, IsReady-append, IsMade-append}
use dns_box.Api.Routes.Calls.{IsCalled}
use dns_box.Api.Routes.Ready.{frame_of_IsCalled, serve-IsReadyFrom}
use dns_box.Process.{
  Process, Outside, handler_of, saving_with, Step, cancel, spawn, listen, fail, shut, query,
  query_panics, api_start, api_listen, api_fails, call, refresh, wake, save, save_panics, join,
  stop, stop_absent, stop_late, Reach, here, next,
}

-- A command for a list of the configuration adds to a created set.
IsMade-of_IsToList :
    (c : Config) (sent : List Command) (name ip : Text) (timeout : ℕ)
    → IsReady (frame c) sent
    → IsToList (get_ipset_lists c) (add name ip timeout)
    → IsMade name sent
IsMade-of_IsToList c sent name ip timeout ready (k, list, at, inl e) =
    subst (λ x. IsMade x sent) (sym e)
      ((All-In (HasMade sent) (frame c).lists (header list)
        (In-map header (get_ipset_lists c) k list at) ready.0).0)
IsMade-of_IsToList c sent name ip timeout ready (k, list, at, inr (on, e)) =
    subst (λ x. IsMade x sent) (sym e)
      ((All-In (HasMade sent) (frame c).lists (header list)
          (In-map header (get_ipset_lists c) k list at) ready.0).1
        on)

module _ (f : FastCache) (rr : RrCodec Rr) (Bytes : Type 0) (outside : Outside Bytes) where
  -- The configuration comes from the first one by calls of its mutators, its sets are created, and
  -- the answer cache is readable.
  abbrev pub IsSound : Config → Process f rr Bytes → Type 0
  IsSound c p =
      IsCalled c p.server.config × IsReady (frame c) p.server.sent × IsReadable rr f p.answers.cache

  queried :
      (c : Config) (p : Process f rr Bytes) (request : Request) (response : Response)
      → (serve_dns f rr (handler_of f rr Bytes outside p.server) request p.answers).0
        ≡ done response
      → IsSound c p
      → AddsToMade response.sent (p.server.sent ++ response.sent)
  unfolding handler_of
  queried c p request response e (called, ready, readable) name ip timeout m =
      IsMade-append name p.server.sent response.sent (
        IsMade-of_IsToList p.server.config p.server.sent name ip timeout
          (subst (λ (fr : Frame). IsReady fr p.server.sent)
            (sym (frame_of_IsCalled c p.server.config called)) ready)
          (adds (add name ip timeout) m))
    where
      adds : AddsToLists f rr (handler_of f rr Bytes outside p.server) response
      adds = subst (Returns (AddsToLists f rr (handler_of f rr Bytes outside p.server))) e (
          serve_dns-AddsToLists f rr (handler_of f rr Bytes outside p.server) request p.answers
            readable)

  Step-IsSound :
      (c : Config) (p q : Process f rr Bytes)
      → Step f rr Bytes outside p q
      → IsSound c p
      → IsSound c q
  Step-IsSound c p q (cancel _) h = h
  Step-IsSound c p q (spawn _ _ _) h = h
  Step-IsSound c p q (listen _ _ _ _) h = h
  Step-IsSound c p q (fail _ _ _ _) h = h
  Step-IsSound c p q (shut _ _ _ _ _) h = h
  Step-IsSound c p q (query i l request response _ _ e) (called, ready, readable) = (
    called,
    IsReady-append (frame c) p.server.sent response.sent ready
        (queried c p request response e (called, ready, readable)),
    (serve_dns_replies f rr (handler_of f rr Bytes outside p.server) request p.answers readable).1,
  )
  Step-IsSound c p q (query_panics _ _ _ _ _ _) h = h
  Step-IsSound c p q (api_start _) h = h
  Step-IsSound c p q (api_listen _) h = h
  Step-IsSound c p q (api_fails _) h = h
  Step-IsSound c p q (call fails faults api env request _) (called, ready, readable) =
      let (called', ready') =
        serve-IsReadyFrom f Bytes fails outside.is_cidr c outside.api_json
          (saving_with f rr Bytes outside faults api env) request p.server (called, ready) in
      (called', ready', readable)
  Step-IsSound c p q (refresh _ _ _ _ _) h = h
  Step-IsSound c p q (wake _ _) h = h
  Step-IsSound c p q (save _ _ _ _ _) h = h
  Step-IsSound c p q (save_panics _ _ _ _ _) h = h
  Step-IsSound c p q (join _ _) h = h
  Step-IsSound c p q (stop _ _) h = h
  Step-IsSound c p q (stop_absent _ _) h = h
  Step-IsSound c p q (stop_late _ _) h = h

  pub Reach-IsSound :
      (c : Config) {p q : Process f rr Bytes}
      → Reach f rr Bytes outside p q
      → IsSound c p
      → IsSound c q
  Reach-IsSound c here h = h
  Reach-IsSound c (next {p} {q} r running step) h = Step-IsSound c p q step (Reach-IsSound c r h)
