-- ===== src/Dns/Handler/Sent.antt =====
-- The sets that a DNS request adds addresses to.
use dns_box.Prelude.{
  ℕ, Bool, true, codes, Option, some, List, [], ◌∷◌, ◌++◌, items, ◌≡◌, refl, sym, ◌⊎◌, inl, inr, In,
  Any-append_cases, get_elem?, subst, Bool-cases,
}
use dns_box.Cache.FastCache.{FastCache}
use dns_box.Cache.DnsCache.{RrCodec}
use dns_box.Cache.DnsCache.Readable.{IsReadable}
use dns_box.Config.{IpSetListConfig, get_ipset_lists}
use dns_box.Ipset.{Command, create, add, del}
use dns_box.Dns.Message.{RrData, a, aaaa, cname, soa, other, Rr, Question}
use dns_box.Dns.Match.{is_domain_in_list, should_process}
use dns_box.Dns.Resolver.{State}
use dns_box.Dns.Resolver.Good.{Returns, Good, Good-pure, Good-bind, Good-resolver}
use dns_box.Dns.Handler.{
  Request, Response, Handler, is_blocked, commands_for, with_answers, serve_question,
  serve_questions, serve_dns,
}
use dns_box.Dns.Handler.Answers.{Calls, CommandFrom, process_answers_iff}

-- The command adds to the set of a list, or to the one for IPv6 of a list that has one.
abbrev pub IsToList : List IpSetListConfig → Command → Type 0
IsToList lists (add name ip timeout) =
    (k : ℕ) × (list : IpSetListConfig) × (get_elem? lists k ≡ some list)
    × ((name ≡ list.name) ⊎ ((list.enable_ipv6 ≡ true) × (name ≡ list.name ++ codes "6")))
IsToList lists (create name type family timeout) = ⊥
IsToList lists (del name ip) = ⊥

IsToList-of_Calls :
    (lists : List IpSetListConfig) (k : ℕ) (list : IpSetListConfig) (cmd : Command) (d : RrData)
    (ttl : ℕ)
    → get_elem? lists k ≡ some list
    → Calls cmd d ttl list
    → IsToList lists cmd
IsToList-of_Calls lists k list cmd (a ip) ttl at e =
    subst (IsToList lists) (sym e) (k, list, at, inl refl)
IsToList-of_Calls lists k list cmd (aaaa ip) ttl at (on, e) =
    subst (IsToList lists) (sym e) (k, list, at, inr (on, refl))
IsToList-of_Calls lists k list cmd (cname _) ttl at c = absurd c
IsToList-of_Calls lists k list cmd (soa _) ttl at c = absurd c
IsToList-of_Calls lists k list cmd (other _) ttl at c = absurd c

IsToList-of_CommandFrom :
    (in_list : ℕ → Bool) (lists : List IpSetListConfig) (rrs : List Rr) (cmd : Command)
    → CommandFrom in_list lists rrs cmd
    → IsToList lists cmd
IsToList-of_CommandFrom in_list lists [] cmd h = absurd h
IsToList-of_CommandFrom in_list lists (rr ∷ rrs) cmd (inl (k, list, (at, e, c))) =
    IsToList-of_Calls lists k list cmd rr.rr_data rr.ttl at c
IsToList-of_CommandFrom in_list lists (rr ∷ rrs) cmd (inr later) =
    IsToList-of_CommandFrom in_list lists rrs cmd later

module _ (f : FastCache) (rr : RrCodec Rr) (h : Handler f) where
  abbrev pub AddsToLists : Response → Type 0
  AddsToLists r = (cmd : Command) → In cmd r.sent → IsToList (get_ipset_lists h.config) cmd

  commands_for-IsToList :
      (q : Question) (answers : List Rr) (cmd : Command)
      → In cmd (commands_for f rr h q answers)
      → IsToList (get_ipset_lists h.config) cmd
  commands_for-IsToList q answers cmd m =
      elim (Bool-cases (should_process f h.domain_cache h.list_domain_caches q.name)) [
        | inl on ↦
            IsToList-of_CommandFrom (is_domain_in_list f h.list_domain_caches q.name)
              (get_ipset_lists h.config) answers cmd
              ((process_answers_iff f h.config h.list_domain_caches answers q.name cmd).0
                (rw on at m))
        | inr off ↦ absurd (rw off at m)
      ]

  with_answers-AddsToLists :
      (q : Question) (o : Option (List Rr)) (rcode : ℕ) (r : Response)
      → AddsToLists r
      → AddsToLists (with_answers f rr h q (o, rcode) r)
  with_answers-AddsToLists q o rcode r old cmd m =
      elim (Any-append_cases (λ x. cmd ≡ x) r.sent (commands_for f rr h q (items o)) m) [
        | inl before ↦ old cmd before
        | inr new ↦ commands_for-IsToList q (items o) cmd new
      ]

  Good-question :
      (q : Question) (r : Response)
      → AddsToLists r
      → Good f rr AddsToLists (serve_question f rr h q r)
  unfolding serve_question
  Good-question q r old = elim (Bool-cases (is_blocked f rr h q)) [
    | inl blocked ↦ rw blocked (Good-pure f rr _ old)
    | inr free ↦ rw free (
        Good-bind f rr _ _ (Good-resolver f rr h.config h.net h.now 11 q.name q.qtype)
          (λ a reply. Good-pure f rr _ (with_answers-AddsToLists q a.0 a.1 r old)))
  ]

  Good-questions :
      (qs : List Question) (r : Response)
      → AddsToLists r
      → Good f rr AddsToLists (serve_questions f rr h qs r)
  unfolding serve_questions
  Good-questions [] r old = Good-pure f rr r old
  Good-questions (q ∷ qs) r old =
      Good-bind f rr _ _ (Good-question q r old) (λ x. Good-questions qs x)

  -- From a readable cache, every command of a request adds to a set of a configured list.
  pub serve_dns-AddsToLists :
      (request : Request) (s : State f rr)
      → IsReadable rr f s.cache
      → Returns AddsToLists (serve_dns f rr h request s).0
  unfolding serve_dns
  serve_dns-AddsToLists request s readable =
      ((Good-questions request.questions _ (λ cmd m. elim m [ ])).at s readable).1
