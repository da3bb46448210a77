-- ===== src/Dns/Handler.antt =====
-- `ServeDNS` and `processAnswers` of internal/dns/handler.go. The commands for the ipsets are
-- collected in the order in which they are sent; their errors are only logged.
pub mod Answers
pub mod Times
pub mod Serve
pub mod Sent
use dns_box.Prelude.{
  ℕ, zero, suc, Bool, true, false, ◌&&◌, Text, codes, Option, none, some, List, [], ◌∷◌, ◌++◌,
  items, ◌==◌, if◌then◌else◌,
}
use dns_box.Cache.FastCache.{FastCache}
use dns_box.Cache.DnsCache.{RrCodec}
use dns_box.Cache.DomainCache.{DomainCache}
use dns_box.Blocklist
use dns_box.Blocklist.{BlockList}
use dns_box.Config.{Config, IpSetListConfig, get_ipset_lists}
use dns_box.Ipset
use dns_box.Ipset.{Command, add_element}
use dns_box.Dns.Match.{question_name, is_domain_in_list, should_process}
use dns_box.Dns.Message.{RrData, a, aaaa, Rr, Question, rcode_success}
use dns_box.Dns.Ttl.{normalize_ttl}
use dns_box.Dns.Upstream.{Net}
use dns_box.Dns.Resolver.{State, M, ◌>>=◌, ◌>>◌, pure, resolver}
use dns_box.Dns.Resolver

-- The command for one record and one list, of which it is known whether the question is in it.
unfoldable pub list_command : Rr → IpSetListConfig → Bool → List Command
list_command rr list in_list = elim rr.rr_data [
  | a ip ↦ if in_list then add_element list.name ip (normalize_ttl rr.ttl) ∷ [] else []
  | aaaa ip ↦
      if in_list && list.enable_ipv6
      then add_element (list.name ++ codes "6") ip (normalize_ttl rr.ttl) ∷ []
      else []
  | _ ↦ []
]

-- The loop over the lists, from an index on.
unfoldable pub list_commands : (ℕ → Bool) → Rr → ℕ → List IpSetListConfig → List Command
list_commands in_list rr i [] = []
list_commands in_list rr i (list ∷ lists) =
    list_command rr list (in_list i) ++ list_commands in_list rr (suc i) lists

-- The loop over the answers.
unfoldable pub answer_commands : (ℕ → Bool) → List IpSetListConfig → List Rr → List Command
answer_commands in_list lists [] = []
answer_commands in_list lists (rr ∷ rrs) =
    list_commands in_list rr 0 lists ++ answer_commands in_list lists rrs

-- A request, with the DO bit of its EDNS0 record if it has one.
pub record Request : Type 0 where
  pub questions : List Question
  pub edns : Option Bool

pub record Response : Type 0 where
  pub authoritative : Bool
  pub edns : Option Bool
  pub answer : List Rr
  pub rcode : ℕ
  pub sent : List Command

module _ (f : FastCache) where
  unfoldable pub process_answers : Config → List (DomainCache f) → List Rr → Text → List Command
  process_answers cfg caches answers question =
      answer_commands (is_domain_in_list f caches question) (get_ipset_lists cfg) answers

  -- The collaborators of the handler: the blocklist, if there is one; and `new_rr` is
  -- dns.NewRR of the name with "A 0.0.0.0", or `none` if that does not parse.
  pub record Handler : Type 0 where
    pub config : Config
    pub net : Net
    pub now : ℕ → ℕ
    pub domain_cache : DomainCache f
    pub list_domain_caches : List (DomainCache f)
    pub block_list : Option (BlockList f)
    pub new_rr : Text → Option Rr

  abbrev blocks : Option (BlockList f) → Text → Bool
  blocks none domain = false
  blocks (some b) domain = Blocklist.is_blocked f b domain

  abbrev optional : Option Rr → List Rr
  optional none = []
  optional (some rr) = rr ∷ []

  module _ (rr : RrCodec Rr) (h : Handler) where
    abbrev is_blocked : Question → Bool
    is_blocked q = blocks h.block_list (question_name q.name)

    abbrev pub commands_for : Question → List Rr → List Command
    commands_for q answers =
        if should_process f h.domain_cache h.list_domain_caches q.name
        then process_answers h.config h.list_domain_caches answers q.name
        else []

    abbrev with_answers : Question → Resolver.Answers f rr → Response → Response
    with_answers q (answers, rcode) r = record r {
      answer = r.answer ++ items answers;
      rcode = if rcode == rcode_success then r.rcode else rcode;
      sent = r.sent ++ commands_for q (items answers);
    }

    -- One round of the loop over the questions: `resolver` starts at depth 0, with eleven levels left.
    unfoldable pub serve_question : Question → Response → M f rr Response
    serve_question q r =
        if is_blocked q
        then pure f rr (record r { answer = r.answer ++ optional (h.new_rr q.name) })
        else ◌>>=◌ f rr (resolver f rr h.config h.net h.now 11 q.name q.qtype)
            (λ answers. pure f rr (with_answers q answers r))

    unfoldable pub serve_questions : List Question → Response → M f rr Response
    serve_questions [] r = pure f rr r
    serve_questions (q ∷ qs) r = ◌>>=◌ f rr (serve_question q r) (serve_questions qs)

    unfoldable pub serve_dns : Request → M f rr Response
    unfolding serve_questions
    serve_dns request = serve_questions request.questions (record {
      authoritative = true;
      edns = request.edns;
      answer = [];
      rcode = rcode_success;
      sent = [];
    })
