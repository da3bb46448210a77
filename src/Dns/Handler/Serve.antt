-- ===== src/Dns/Handler/Serve.antt =====
-- What `ServeDNS` replies to a whole request, and what it costs.
use mathlib.Core.List.{append-nil, append_assoc}
use dns_box.Prelude.{
  sym, ap, ◌∙◌, ℕ, ◌+◌, ◌*◌, ◌≤◌, Bool, true, false, Option, List, [], ◌∷◌, ◌++◌, ◌≡◌, refl, ◌⊎◌,
  inl, inr, arith, ◌==◌, if◌then◌else◌, Bool-cases, All,
}
use dns_box.Cache.FastCache.{FastCache}
use dns_box.Cache.DnsCache.{RrCodec}
use dns_box.Cache.DnsCache.Readable.{IsReadable}
use dns_box.Dns.Message.{Rr, Question, rcode_success, rcode_server_failure, rcode_name_error}
use dns_box.Dns.Resolver.{done, State}
use dns_box.Dns.Resolver.Good.{Returns, Good, Good-pure, Good-bind, Good-resolver, IsReply}
use dns_box.Dns.Resolver.Calls.{Uses, Uses-pure, Uses-le, Uses-bind, Uses-resolver, servers}
use dns_box.Dns.Handler.{
  Request, Response, Handler, is_blocked, optional, with_answers, serve_question, serve_questions,
  serve_dns,
}

abbrev pub IsCode : ℕ → Type 0
IsCode rcode =
    (rcode ≡ rcode_success) ⊎ ((rcode ≡ rcode_server_failure) ⊎ (rcode ≡ rcode_name_error))

module _ (f : FastCache) (rr : RrCodec Rr) (h : Handler f) where
  -- A reply: authoritative, with the EDNS0 record of the request, and one of three codes.
  abbrev pub IsServed : Option Bool → Response → Type 0
  IsServed edns r = (r.authoritative ≡ true) × (r.edns ≡ edns) × IsCode r.rcode

  IsCode-of :
      (b : Bool) (x y : ℕ) (o : Option (List Rr))
      → IsCode x
      → IsReply f rr h.config h.net h.now (o, y)
      → IsCode (if b then x else y)
  IsCode-of true x y o c reply = c
  IsCode-of false x y o c (inl (e, _)) = inl e
  IsCode-of false x y o c (inr e) = inr e

  with_answers-IsServed :
      (edns : Option Bool) (q : Question) (o : Option (List Rr)) (rcode : ℕ) (r : Response)
      → IsReply f rr h.config h.net h.now (o, rcode)
      → IsServed edns r
      → IsServed edns (with_answers f rr h q (o, rcode) r)
  with_answers-IsServed edns q o rcode r reply (aa, same, served) =
      (aa, same, IsCode-of (rcode == rcode_success) r.rcode rcode o served reply)

  Good-serve_question :
      (edns : Option Bool) (q : Question) (r : Response)
      → IsServed edns r
      → Good f rr (IsServed edns) (serve_question f rr h q r)
  unfolding serve_question
  Good-serve_question edns q r served = elim (Bool-cases (is_blocked f rr h q)) [
    | inl blocked ↦ rw blocked (Good-pure f rr _ served)
    | inr free ↦ rw free (
        Good-bind f rr _ _ (Good-resolver f rr h.config h.net h.now 11 q.name q.qtype)
          (λ a reply. Good-pure f rr _ (with_answers-IsServed edns q a.0 a.1 r reply served)))
  ]

  Good-serve_questions :
      (edns : Option Bool) (qs : List Question) (r : Response)
      → IsServed edns r
      → Good f rr (IsServed edns) (serve_questions f rr h qs r)
  unfolding serve_questions
  Good-serve_questions edns [] r served = Good-pure f rr r served
  Good-serve_questions edns (q ∷ qs) r served =
      Good-bind f rr _ _ (Good-serve_question edns q r served) (λ x. Good-serve_questions edns qs x)

  -- From a cache in which every entry is empty or has its time stamp, serving a request, with any
  -- number of questions and whatever the upstream servers answer, does not panic: it returns a
  -- response that is authoritative, has the EDNS0 record of the request, and has the code success,
  -- server failure or name error; and the cache is again such a one.
  pub serve_dns_replies :
      (request : Request) (s : State f rr)
      → IsReadable rr f s.cache
      → Returns (IsServed request.edns) (serve_dns f rr h request s).0
        × IsReadable rr f (serve_dns f rr h request s).1.cache
  unfolding serve_dns
  serve_dns_replies request s readable =
      let (kept, served) =
        (Good-serve_questions request.edns request.questions _ (refl, refl, inl refl)).at s
          readable in
      (served, kept)

  Uses-serve_question :
      (q : Question) (r : Response)
      → Uses f rr (11 * servers f rr h.config h.net h.now) (serve_question f rr h q r)
  unfolding serve_question
  Uses-serve_question q r = elim (Bool-cases (is_blocked f rr h q)) [
    | inl blocked ↦ rw blocked (Uses-pure f rr _ _)
    | inr free ↦ rw free (
        Uses-le f rr (11 * servers f rr h.config h.net h.now + 0) _ _ (omega arith) (
          Uses-bind f rr (11 * servers f rr h.config h.net h.now) 0 _ _
            (Uses-resolver f rr h.config h.net h.now 11 q.name q.qtype) (λ a. Uses-pure f rr 0 _)))
  ]

  -- The number of questions that are not blocked.
  abbrev pub count_free : List Question → ℕ
  count_free [] = 0
  count_free (q ∷ qs) = (if is_blocked f rr h q then 0 else 1) + count_free qs

  Uses-serve_questions :
      (qs : List Question) (r : Response)
      → Uses f rr
          (count_free qs * (11 * servers f rr h.config h.net h.now))
          (serve_questions f rr h qs r)
  unfolding serve_questions serve_question
  Uses-serve_questions [] r = Uses-pure f rr _ _
  Uses-serve_questions (q ∷ qs) r = elim (Bool-cases (is_blocked f rr h q)) [
    | inl blocked ↦ rw blocked (
        Uses-le f rr (0 + count_free qs * (11 * servers f rr h.config h.net h.now)) _ _
          (grind arith)
          (Uses-bind f rr 0 _ _ _ (Uses-pure f rr 0 _) (λ x. Uses-serve_questions qs x)))
    | inr free ↦ rw free (
        Uses-le f rr
          ((11 * servers f rr h.config h.net h.now + 0)
            + count_free qs * (11 * servers f rr h.config h.net h.now))
          _ _ (grind arith)
          (Uses-bind f rr _ _ _ _
            (Uses-bind f rr (11 * servers f rr h.config h.net h.now) 0 _ _
              (Uses-resolver f rr h.config h.net h.now 11 q.name q.qtype) (λ a. Uses-pure f rr 0 _))
            (λ x. Uses-serve_questions qs x)))
  ]

  -- Serving a request asks the network at most eleven times the number of the configured servers
  -- for each question that the blocklist does not name.
  pub serve_dns_calls :
      (request : Request) (s : State f rr)
      → (serve_dns f rr h request s).1.calls
        ≤ s.calls + count_free request.questions * (11 * servers f rr h.config h.net h.now)
  unfolding serve_dns
  serve_dns_calls request s = (Uses-serve_questions request.questions _).at s

  -- All records that dns.NewRR makes for the questions.
  abbrev pub null_answers : List Question → List Rr
  null_answers [] = []
  null_answers (q ∷ qs) = optional f (h.new_rr q.name) ++ null_answers qs

  abbrev with_null : List Question → Response → Response
  with_null qs r = record r { answer = r.answer ++ null_answers qs }

  serve_questions_blocked :
      (qs : List Question) (r : Response) (s : State f rr)
      → All (λ q. is_blocked f rr h q ≡ true) qs
      → serve_questions f rr h qs r s ≡ (done (with_null qs r), s)
  unfolding serve_questions serve_question
  serve_questions_blocked [] r s _ =
      ap (λ (xs : List Rr). (done (record r { answer = xs }), s)) (sym (append-nil r.answer))
  serve_questions_blocked (q ∷ qs) r s (blocked, h') = rw blocked (
      serve_questions_blocked qs (record r { answer = r.answer ++ optional f (h.new_rr q.name) }) s
        h'
      ∙ ap (λ (xs : List Rr). (done (record r { answer = xs }), s)) (append_assoc r.answer _ _))

  -- For a request whose questions the blocklist all names, the reply is a success with the null
  -- addresses of the questions, no address is added to an ipset, and neither the answer cache nor
  -- the network is used.
  pub serve_dns_blocked :
      (request : Request) (s : State f rr)
      → All (λ q. is_blocked f rr h q ≡ true) request.questions
      → serve_dns f rr h request s ≡ (
        done (record {
          authoritative = true;
          edns = request.edns;
          answer = null_answers request.questions;
          rcode = rcode_success;
          sent = [];
        }),
        s,
      )
  unfolding serve_dns
  serve_dns_blocked request s blocked = serve_questions_blocked request.questions _ s blocked
