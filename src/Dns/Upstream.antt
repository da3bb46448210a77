-- ===== src/Dns/Upstream.antt =====
-- The loop over the upstream servers in `resolver`, and `exchangeDoH` (internal/dns/handler.go).
pub mod Laws
use dns_box.Prelude.{
  ℕ, suc, ◌+◌, Bool, true, false, not, ◌||◌, Text, codes, Option, none, some, List, [], ◌∷◌, ◌++◌,
  if◌then◌else◌, has_prefix, contains_text, text_eq, ◌==◌,
}
use dns_box.Dns.Message.{Question, Msg, rcode_success, rcode_name_error}

pub record Url : Type 0 where
  pub scheme : Text
  pub host : Text
  pub hostname : Text

pub data Ip : Type 0 where
  no_ip ipv4 ipv6 : Ip

-- How a server is asked: the URL of a POST, or the address of a client, for TLS with the name that
-- its certificate must bear.
pub data Attempt : Type 0 where
  doh : Text → Attempt
  tls : Text → Text → Attempt
  tcp : Text → Attempt
  udp : Text → Attempt

-- The packages net/url and net, the client of github.com/miekg/dns and the HTTP client. The network
-- may answer each call differently: a call carries its number. `none` is an error or a nil response.
pub record Net : Type 0 where
  pub parse_url : Text → Option Url
  pub has_port : Text → Bool
  pub parse_ip : Text → Ip
  pub fqdn : Text → Text
  pub client_exchange : ℕ → Attempt → Question → Option Msg
  pub post : ℕ → Text → Question → Option (ℕ × List ℕ)
  pub unpack : List ℕ → Option Msg

module _ (net : Net) where
  -- The URL of a server; one that does not parse and names no scheme is the address of a UDP server.
  unfoldable pub server_url : Text → Option Url
  server_url ns = elim (net.parse_url ns) [
    | some u ↦ some u
    | none ↦
        if contains_text ns (codes "://")
        then none
        else some (record { scheme = codes "udp"; host = ns; hostname = ns })
  ]

  abbrev bracketed : Text → Ip → Text
  bracketed host ipv6 = codes "[" ++ host ++ codes "]"
  bracketed host ipv4 = host
  bracketed host no_ip = host

  is_one_of : Text → Text → Text → Bool
  is_one_of scheme x y = text_eq scheme x || text_eq scheme y

  abbrev with_port : Text → Text → Text
  with_port scheme host =
      if is_one_of scheme (codes "tls") (codes "dot")
      then host ++ codes ":853"
      else if is_one_of scheme (codes "https") (codes "doh")
      then host ++ codes ":443"
      else if is_one_of scheme (codes "tcp") (codes "udp")
      then host ++ codes ":53"
      else host

  -- The address that is dialled, with the default port where there is none.
  unfoldable pub dial_host : Url → Text
  unfolding is_one_of
  dial_host u =
      if net.has_port u.host
      then u.host
      else with_port u.scheme (bracketed u.host (net.parse_ip u.host))

  abbrev attempt_to : Text → Url → Attempt
  attempt_to ns u =
      if is_one_of u.scheme (codes "https") (codes "doh")
      then doh ns
      else if is_one_of u.scheme (codes "tls") (codes "dot")
      then tls (dial_host u) u.hostname
      else if text_eq u.scheme (codes "tcp")
      then tcp (dial_host u)
      else udp (dial_host u)

  -- `none` skips the server.
  unfoldable pub attempt_for : Text → Option Attempt
  unfolding is_one_of
  attempt_for ns = elim (server_url ns) [ none ↦ none | some u ↦ some (attempt_to ns u) ]

  unfoldable pub endpoint_url : Text → Text
  endpoint_url endpoint =
      if has_prefix endpoint (codes "http") then endpoint else codes "https://" ++ endpoint

  abbrev message_of : Option (ℕ × List ℕ) → Option Msg
  message_of none = none
  message_of (some (status, body)) = if status == 200 then net.unpack body else none

  abbrev posted : ℕ → Question → Text → Option Url → Option Msg
  posted call q endpoint none = none
  posted call q endpoint (some u) = message_of (net.post call endpoint q)

  unfoldable pub exchange_doh : ℕ → Question → Text → Option Msg
  exchange_doh call q endpoint =
      posted call q (endpoint_url endpoint) (net.parse_url (endpoint_url endpoint))

  unfoldable pub ask : ℕ → Question → Attempt → Option Msg
  ask call q (doh endpoint) = exchange_doh call q endpoint
  ask call q (tls host name) = net.client_exchange call (tls host name) q
  ask call q (tcp host) = net.client_exchange call (tcp host) q
  ask call q (udp host) = net.client_exchange call (udp host) q

  -- A response that ends the loop.
  abbrev pub usable : Option Msg → Option Msg
  usable none = none
  usable (some m) = if m.rcode == rcode_success || m.rcode == rcode_name_error then some m else none

  -- The first usable response, and the number of the next call.
  unfoldable pub query_servers : Question → List Text → ℕ → Option Msg × ℕ
  query_servers q [] call = (none, call)
  query_servers q (ns ∷ servers) call =
      let skip = query_servers q servers call in
      let next = query_servers q servers (suc call) in
      elim (attempt_for ns) [
        | none ↦ skip
        | some attempt ↦ elim (usable (ask call q attempt)) [
          | none ↦ next
          | some m ↦ (some m, suc call)
        ]
      ]
