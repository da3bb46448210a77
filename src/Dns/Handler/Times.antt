-- ===== src/Dns/Handler/Times.antt =====
-- How often each command is sent for the answers of a question.
use dns_box.Prelude.{
  ℕ, suc, ◌+◌, Bool, Text, codes, Option, none, some, List, [], ◌∷◌, ◌++◌, ◌≡◌, refl, ◌↔◌, inl, inr,
  arith, In, Bool-cases, if◌then◌else◌,
}
use dns_box.Config.{Config, get_ipset_lists, IpSetListConfig}
use dns_box.Cache.FastCache.{FastCache}
use dns_box.Cache.DomainCache.{DomainCache}
use dns_box.Dns.Match.{is_domain_in_list}
use dns_box.Ipset.{Command, add, add_element}
use dns_box.Dns.Message.{RrData, a, aaaa, cname, soa, other, Rr}
use dns_box.Dns.Ttl.{normalize_ttl}
use dns_box.Dns.Handler.{list_command, list_commands, answer_commands, process_answers}
use dns_box.Dns.Handler.Answers.{CommandFrom, process_answers_iff}

-- How many commands pass a test.
abbrev pub count : (Command → Bool) → List Command → ℕ
count p [] = 0
count p (cmd ∷ cmds) = (if p cmd then 1 else 0) + count p cmds

count-append :
    (p : Command → Bool) (xs ys : List Command) → count p (xs ++ ys) ≡ count p xs + count p ys
count-append p [] ys = omega arith
count-append p (x ∷ xs) ys = omega (arith, count-append p xs ys)

-- The command that a record calls for, if the question is in the list.
abbrev pub command_of : RrData → ℕ → IpSetListConfig → Option Command
command_of (a ip) ttl list = some (add list.name ip (normalize_ttl ttl))
command_of (aaaa ip) ttl list =
    if list.enable_ipv6 then some (add (list.name ++ codes "6") ip (normalize_ttl ttl)) else none
command_of _ ttl list = none

abbrev pub passes : (Command → Bool) → Option Command → ℕ
passes p none = 0
passes p (some cmd) = if p cmd then 1 else 0

-- The records that call for such a command, for one list.
abbrev pub records_for : (Command → Bool) → IpSetListConfig → List Rr → ℕ
records_for p list [] = 0
records_for p list (rr ∷ rrs) =
    passes p (command_of rr.rr_data rr.ttl list) + records_for p list rrs

-- The pairs of a list that the question is in and such a record, list by list.
abbrev pub pairs_for : (Command → Bool) → (ℕ → Bool) → ℕ → List IpSetListConfig → List Rr → ℕ
pairs_for p in_list i [] rrs = 0
pairs_for p in_list i (list ∷ lists) rrs =
    (if in_list i then records_for p list rrs else 0) + pairs_for p in_list (suc i) lists rrs

pairs_for-nil :
    (p : Command → Bool) (in_list : ℕ → Bool) (i : ℕ) (lists : List IpSetListConfig)
    → pairs_for p in_list i lists [] ≡ 0
pairs_for-nil p in_list i [] = refl
pairs_for-nil p in_list i (list ∷ lists) = ground (arith, pairs_for-nil p in_list (suc i) lists)

-- A record adds to each list that the question is in.
pairs_for-cons :
    (p : Command → Bool) (in_list : ℕ → Bool) (i : ℕ) (lists : List IpSetListConfig) (rr : Rr)
    (rrs : List Rr)
    → pairs_for p in_list i lists (rr ∷ rrs)
      ≡ pairs_for p in_list i lists (rr ∷ []) + pairs_for p in_list i lists rrs
pairs_for-cons p in_list i [] rr rrs = refl
pairs_for-cons p in_list i (list ∷ lists) rr rrs =
    let rest = pairs_for-cons p in_list (suc i) lists rr rrs in
    elim (Bool-cases (in_list i)) [
      | inl e ↦ rw e (omega (arith, rest))
      | inr n ↦ rw n (omega (arith, rest))
    ]

count-list_command :
    (p : Command → Bool) (ttl : ℕ) (name : Text) (d : RrData) (list : IpSetListConfig) (b : Bool)
    → count p (list_command (record { name = name; ttl = ttl; rr_data = d }) list b)
      ≡ (if b then passes p (command_of d ttl list) + 0 else 0)
unfolding list_command add_element
count-list_command p ttl name (a ip) list b = ground arith
count-list_command p ttl name (aaaa ip) list b = ground arith
count-list_command p ttl name (cname _) list b = ground arith
count-list_command p ttl name (soa _) list b = ground arith
count-list_command p ttl name (other _) list b = ground arith

count-list_commands :
    (p : Command → Bool) (in_list : ℕ → Bool) (rr : Rr) (i : ℕ) (lists : List IpSetListConfig)
    → count p (list_commands in_list rr i lists) ≡ pairs_for p in_list i lists (rr ∷ [])
unfolding list_commands
count-list_commands p in_list rr i [] = refl
count-list_commands p in_list rr i (list ∷ lists) = rw (
  count-append p (list_command rr list (in_list i)) (list_commands in_list rr (suc i) lists),
  count-list_command p rr.ttl rr.name rr.rr_data list (in_list i),
  count-list_commands p in_list rr (suc i) lists,
)

count-answer_commands :
    (p : Command → Bool) (in_list : ℕ → Bool) (lists : List IpSetListConfig) (rrs : List Rr)
    → count p (answer_commands in_list lists rrs) ≡ pairs_for p in_list 0 lists rrs
unfolding answer_commands
count-answer_commands p in_list lists [] = rw (pairs_for-nil p in_list 0 lists)
count-answer_commands p in_list lists (rr ∷ rrs) = rw (
  pairs_for-cons p in_list 0 lists rr rrs,
  count-append p (list_commands in_list rr 0 lists) (answer_commands in_list lists rrs),
  count-list_commands p in_list rr 0 lists,
  count-answer_commands p in_list lists rrs,
)

-- The commands that `process_answers` sends are these, and each as often as it is called for. A command
-- is sent exactly if it comes from a record of the answer and a list whose own domain cache matches the
-- question: for an A record the address is added to the set named by the list; for an AAAA record, if
-- the list has IPv6 enabled, it is added to that name with "6"; the timeout is the TTL of the record,
-- normalized; no other record calls for a command. And for every test on commands, as many commands
-- that pass it are sent as there are pairs of a matching list and a record that calls for such a one, so
-- that each pair sends its command once.
pub process_answers_times :
    (f : FastCache) (cfg : Config) (caches : List (DomainCache f)) (answers : List Rr)
    (question : Text)
    → ((cmd : Command)
        → In cmd (process_answers f cfg caches answers question)
          ↔ CommandFrom (is_domain_in_list f caches question) (get_ipset_lists cfg) answers cmd)
      × ((p : Command → Bool)
          → count p (process_answers f cfg caches answers question)
            ≡ pairs_for p (is_domain_in_list f caches question) 0 (get_ipset_lists cfg) answers)
unfolding process_answers
process_answers_times f cfg caches answers question = (
  process_answers_iff f cfg caches answers question,
  λ p. count-answer_commands p (is_domain_in_list f caches question) (get_ipset_lists cfg) answers,
)
