-- ===== src/Ipset.antt =====
-- internal/ipset: the commands that are sent to github.com/crazytypewriter/ipset. The kernel's sets
-- are not modelled; what matters is which commands are sent, and whether each fails.
use dns_box.Prelude.{ℕ, Bool, false, Text}

pub data Family : Type 0 where
  ipv4 ipv6 : Family

-- `hash:ip` is the type of a set for which no type is given.
pub data SetType : Type 0 where
  hash_ip hash_net : SetType

pub data Command : Type 0 where
  create : Text → SetType → Family → ℕ → Command
  add : Text → Text → ℕ → Command
  del : Text → Text → Command

unfoldable pub create_ipv4_set : Text → ℕ → Command
create_ipv4_set name timeout = create name hash_ip ipv4 timeout

unfoldable pub create_ipv6_set : Text → ℕ → Command
create_ipv6_set name timeout = create name hash_ip ipv6 timeout

unfoldable pub create_ipv4_net_set : Text → ℕ → Command
create_ipv4_net_set name timeout = create name hash_net ipv4 timeout

unfoldable pub create_ipv6_net_set : Text → ℕ → Command
create_ipv6_net_set name timeout = create name hash_net ipv6 timeout

unfoldable pub add_element : Text → Text → ℕ → Command
add_element set_name ip ttl = add set_name ip ttl

unfoldable pub remove_element : Text → Text → Command
remove_element set_name ip = del set_name ip

-- ipset_stub.go, for systems other than Linux: its methods ignore the command, and succeed.
unfoldable pub stub_fails : Command → Bool
stub_fails (create name type family timeout) = false
stub_fails (add name ip timeout) = false
stub_fails (del name ip) = false
