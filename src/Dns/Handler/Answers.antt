-- ===== src/Dns/Handler/Answers.antt =====
-- Which addresses go into which sets.
use dns_box.Prelude.{
  ℕ, zero, suc, ◌+◌, Bool, true, false, ◌&&◌, Text, codes, some, List, [], ◌∷◌, ◌++◌, ◌≡◌, refl,
  ◌↔◌, inl, inr, arith, In, Any, Any-append_left, Any-append_right, Any-append_cases, get_elem?,
  if◌then◌else◌, subst,
}
use dns_box.Config.{Config, get_ipset_lists, IpSetListConfig}
use dns_box.Cache.FastCache.{FastCache}
use dns_box.Cache.DomainCache.{DomainCache}
use dns_box.Dns.Match.{is_domain_in_list}
use dns_box.Ipset.{Command, add, add_element}
use dns_box.Dns.Message.{RrData, a, aaaa, cname, soa, other, Rr}
use dns_box.Dns.Ttl.{normalize_ttl}
use dns_box.Dns.Handler.{list_command, list_commands, answer_commands, process_answers}

-- The command that a record calls for, for a list that the question is in.
abbrev pub Calls : Command → RrData → ℕ → IpSetListConfig → Type 0
Calls cmd (a ip) ttl list = cmd ≡ add list.name ip (normalize_ttl ttl)
Calls cmd (aaaa ip) ttl list =
    (list.enable_ipv6 ≡ true) × (cmd ≡ add (list.name ++ codes "6") ip (normalize_ttl ttl))
Calls cmd (cname _) ttl list = ⊥
Calls cmd (soa _) ttl list = ⊥
Calls cmd (other _) ttl list = ⊥

both_on :
    (b on : Bool) (cmd c : Command)
    → In cmd (if b && on then c ∷ [] else [])
    → (b ≡ true) × (on ≡ true) × (cmd ≡ c)
both_on true true cmd c (inl e) = (refl, refl, e)
both_on true true cmd c (inr n) = absurd n
both_on true false cmd c h = absurd h
both_on false on cmd c h = absurd h

list_command→ :
    (cmd : Command) (ttl : ℕ) (name : Text) (d : RrData) (list : IpSetListConfig) (b : Bool)
    → In cmd (list_command (record { name = name; ttl = ttl; rr_data = d }) list b)
    → (b ≡ true) × Calls cmd d ttl list
unfolding list_command add_element
list_command→ cmd ttl name (a ip) list true (inl e) = (refl, e)
list_command→ cmd ttl name (a ip) list true (inr n) = absurd n
list_command→ cmd ttl name (a ip) list false h = absurd h
list_command→ cmd ttl name (aaaa ip) list b h =
    let (here, on, e) = both_on b list.enable_ipv6 cmd _ h in (here, (on, e))
list_command→ cmd ttl name (cname _) list b h = absurd h
list_command→ cmd ttl name (soa _) list b h = absurd h
list_command→ cmd ttl name (other _) list b h = absurd h

list_command← :
    (cmd : Command) (ttl : ℕ) (name : Text) (d : RrData) (list : IpSetListConfig) (b : Bool)
    → b ≡ true
    → Calls cmd d ttl list
    → In cmd (list_command (record { name = name; ttl = ttl; rr_data = d }) list b)
unfolding list_command add_element
list_command← cmd ttl name (a ip) list b e h = rw e (inl h)
list_command← cmd ttl name (aaaa ip) list b e (on, h) = rw (e, on) (inl h)
list_command← cmd ttl name (cname _) list b e h = absurd h
list_command← cmd ttl name (soa _) list b e h = absurd h
list_command← cmd ttl name (other _) list b e h = absurd h

move : (p : ℕ → Bool) (i j : ℕ) → i ≡ j → p i ≡ true → p j ≡ true
move p i j same h = subst (λ k. p k ≡ true) same h

-- The list at an index, in which the question is and which the record calls the command for.
abbrev pub CallsAt :
    (ℕ → Bool) → List IpSetListConfig → ℕ → Command → RrData → ℕ → ℕ → IpSetListConfig → Type 0
CallsAt in_list lists i cmd d ttl k list =
    (get_elem? lists k ≡ some list) × (in_list (i + k) ≡ true) × Calls cmd d ttl list

shift :
    (in_list : ℕ → Bool) (l : IpSetListConfig) (lists : List IpSetListConfig) (i : ℕ)
    (cmd : Command) (d : RrData) (ttl : ℕ)
    → ((k : ℕ) × (list : IpSetListConfig) × CallsAt in_list lists (suc i) cmd d ttl k list)
    → (k : ℕ) × (list : IpSetListConfig) × CallsAt in_list (l ∷ lists) i cmd d ttl k list
shift in_list l lists i cmd d ttl (k, list, (at, e, c)) =
    (suc k, list, (at, move in_list (suc i + k) (i + suc k) (omega arith) e, c))

list_commands→ :
    (in_list : ℕ → Bool) (cmd : Command) (ttl : ℕ) (name : Text) (d : RrData) (i : ℕ)
    (lists : List IpSetListConfig)
    → In cmd (list_commands in_list (record { name = name; ttl = ttl; rr_data = d }) i lists)
    → (k : ℕ) × (list : IpSetListConfig) × CallsAt in_list lists i cmd d ttl k list
unfolding list_commands
list_commands→ in_list cmd ttl name d i [] h = absurd h
list_commands→ in_list cmd ttl name d i (l ∷ lists) h =
    elim (Any-append_cases (λ x. cmd ≡ x)
      (list_command (record { name = name; ttl = ttl; rr_data = d }) l (in_list i)) _ h) [
        | inl here ↦ first (list_command→ cmd ttl name d l (in_list i) here)
        | inr later ↦
            shift in_list l lists i cmd d ttl
              (list_commands→ in_list cmd ttl name d (suc i) lists later)
      ]
  where
    first :
        (in_list i ≡ true) × Calls cmd d ttl l
        → (k : ℕ) × (list : IpSetListConfig) × CallsAt in_list (l ∷ lists) i cmd d ttl k list
    first (e, c) = (0, l, (refl, move in_list i (i + 0) (omega arith) e, c))

some-injective : (x y : IpSetListConfig) → some y ≡ some x → x ≡ y
some-injective x y h = cc

list_commands← :
    (in_list : ℕ → Bool) (cmd : Command) (ttl : ℕ) (name : Text) (d : RrData) (i : ℕ)
    (lists : List IpSetListConfig) (k : ℕ) (list : IpSetListConfig)
    → CallsAt in_list lists i cmd d ttl k list
    → In cmd (list_commands in_list (record { name = name; ttl = ttl; rr_data = d }) i lists)
unfolding list_commands
list_commands← in_list cmd ttl name d i [] k list (at, e, c) = cc
list_commands← in_list cmd ttl name d i (l ∷ lists) zero list (at, e, c) =
    Any-append_left (λ x. cmd ≡ x)
      (list_command (record { name = name; ttl = ttl; rr_data = d }) l (in_list i)) _
      (list_command← cmd ttl name d l (in_list i) (move in_list (i + 0) i (omega arith) e)
        (subst (λ x. Calls cmd d ttl x) (some-injective list l at) c))
list_commands← in_list cmd ttl name d i (l ∷ lists) (suc k) list (at, e, c) =
    Any-append_right (λ x. cmd ≡ x)
      (list_command (record { name = name; ttl = ttl; rr_data = d }) l (in_list i)) _
      (list_commands← in_list cmd ttl name d (suc i) lists k list
        (at, move in_list (i + suc k) (suc i + k) (omega arith) e, c))

-- The record and the list that a command comes from.
abbrev pub CommandFrom : (ℕ → Bool) → List IpSetListConfig → List Rr → Command → Type 0
CommandFrom in_list lists rrs cmd =
    Any
      (λ rr.
        (k : ℕ) × (list : IpSetListConfig) × CallsAt in_list lists 0 cmd rr.rr_data rr.ttl k list)
      rrs

answer_commands→ :
    (in_list : ℕ → Bool) (lists : List IpSetListConfig) (rrs : List Rr) (cmd : Command)
    → In cmd (answer_commands in_list lists rrs)
    → CommandFrom in_list lists rrs cmd
unfolding answer_commands
answer_commands→ in_list lists [] cmd h = absurd h
answer_commands→ in_list lists (rr ∷ rrs) cmd h =
    elim (Any-append_cases (λ x. cmd ≡ x) (list_commands in_list rr 0 lists) _ h) [
      | inl here ↦ inl (list_commands→ in_list cmd rr.ttl rr.name rr.rr_data 0 lists here)
      | inr later ↦ inr (answer_commands→ in_list lists rrs cmd later)
    ]

answer_commands← :
    (in_list : ℕ → Bool) (lists : List IpSetListConfig) (rrs : List Rr) (cmd : Command)
    → CommandFrom in_list lists rrs cmd
    → In cmd (answer_commands in_list lists rrs)
unfolding answer_commands
answer_commands← in_list lists [] cmd h = absurd h
answer_commands← in_list lists (rr ∷ rrs) cmd (inl (k, list, c)) =
    Any-append_left (λ x. cmd ≡ x) (list_commands in_list rr 0 lists) _
      (list_commands← in_list cmd rr.ttl rr.name rr.rr_data 0 lists k list c)
answer_commands← in_list lists (rr ∷ rrs) cmd (inr later) =
    Any-append_right (λ x. cmd ≡ x) (list_commands in_list rr 0 lists) _
      (answer_commands← in_list lists rrs cmd later)

-- The commands that `process_answers` sends are exactly these: for an A record of the answer, and
-- for a list whose own domain cache matches the question, the address is added to the set named by
-- the list; for an AAAA record, if the list has IPv6 enabled, it is added to that name with "6".
-- The timeout is the TTL of the record, normalized. No other record calls for a command.
pub process_answers_iff :
    (f : FastCache) (cfg : Config) (caches : List (DomainCache f)) (answers : List Rr)
    (question : Text) (cmd : Command)
    → In cmd (process_answers f cfg caches answers question)
      ↔ CommandFrom (is_domain_in_list f caches question) (get_ipset_lists cfg) answers cmd
unfolding process_answers
process_answers_iff f cfg caches answers question cmd = (
  answer_commands→ (is_domain_in_list f caches question) (get_ipset_lists cfg) answers cmd,
  answer_commands← (is_domain_in_list f caches question) (get_ipset_lists cfg) answers cmd,
)
