-- ===== src/Dns/Message.antt =====
-- The parts of a DNS message that internal/dns/handler.go reads. The types are those of
-- github.com/miekg/dns, cut down to the fields that are used.
use dns_box.Prelude.{ℕ, Text, List, Option, none, some}

-- A and AAAA carry the text of their address, CNAME its target and SOA its `Minttl`.
pub data RrData : Type 0 where
  a aaaa cname : Text → RrData
  soa : ℕ → RrData
  other : ℕ → RrData

pub record Rr : Type 0 where
  pub name : Text
  pub ttl : ℕ
  pub rr_data : RrData

pub record Question : Type 0 where
  pub name : Text
  pub qtype : ℕ

pub record Msg : Type 0 where
  pub rcode : ℕ
  pub answer : List Rr
  pub ns : List Rr

abbrev pub rcode_success : ℕ
rcode_success = 0

abbrev pub rcode_server_failure : ℕ
rcode_server_failure = 2

abbrev pub rcode_name_error : ℕ
rcode_name_error = 3

-- `answer.(*dns.CNAME)`: the target.
abbrev pub cname_target : RrData → Option Text
cname_target (cname target) = some target
cname_target (a _) = none
cname_target (aaaa _) = none
cname_target (soa _) = none
cname_target (other _) = none
