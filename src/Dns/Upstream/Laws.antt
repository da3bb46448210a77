-- ===== src/Dns/Upstream/Laws.antt =====
-- What the loop over the servers returns.
use dns_box.Prelude.{
  ℕ, suc, ◌+◌, ◌≤◌, Text, Option, none, some, List, [], ◌∷◌, ◌≡◌, ◌∙◌, ◌⊎◌, arith, length,
  Option-cases, inl, inr,
}
use dns_box.Dns.Message.{Question, Msg, rcode_success, rcode_name_error}
use dns_box.Dns.Upstream.{Net, attempt_for, ask, usable, query_servers}

module _ (net : Net) (q : Question) where
  -- At most one call is made for each server.
  pub query_servers_calls :
      (servers : List Text) (call : ℕ)
      → (call ≤ (query_servers net q servers call).1)
        × ((query_servers net q servers call).1 ≤ call + length servers)
  unfolding query_servers
  query_servers_calls [] call = omega arith
  query_servers_calls (ns ∷ servers) call =
      ground (arith, query_servers_calls servers call, query_servers_calls servers (suc call))

  usable_rcode :
      (o : Option Msg) (m : Msg)
      → usable net o ≡ some m
      → (m.rcode ≡ rcode_success) ⊎ (m.rcode ≡ rcode_name_error)
  usable_rcode none m h = cc
  usable_rcode (some r) m h = ground arith

  tried_rcode :
      (rest : Option Msg × ℕ) (call : ℕ) (o : Option Msg) (m : Msg)
      → (rest.0 ≡ some m → (m.rcode ≡ rcode_success) ⊎ (m.rcode ≡ rcode_name_error))
      → (elim (usable net o) as (λ _. Option Msg × ℕ) [
        | none ↦ rest
        | some r ↦ (some r, suc call)
      ]).0
        ≡ some m
      → (m.rcode ≡ rcode_success) ⊎ (m.rcode ≡ rcode_name_error)
  tried_rcode rest call o m later h = elim (Option-cases (usable net o)) [
    | inl failed ↦ later (rw failed at h)
    | inr (r, used) ↦ usable_rcode o m (used ∙ (rw used at h))
  ]

  -- A response that is used says success or that the name does not exist.
  pub query_servers_rcode :
      (servers : List Text) (call : ℕ) (m : Msg)
      → (query_servers net q servers call).0 ≡ some m
      → (m.rcode ≡ rcode_success) ⊎ (m.rcode ≡ rcode_name_error)
  unfolding query_servers
  query_servers_rcode [] call m h = cc
  query_servers_rcode (ns ∷ servers) call m h = elim (Option-cases (attempt_for net ns)) [
    | inl skipped ↦ query_servers_rcode servers call m (rw (skipped, query_servers) at h)
    | inr (attempt, found) ↦
        tried_rcode (query_servers net q servers (suc call)) call (ask net call q attempt) m
          (query_servers_rcode servers (suc call) m) (rw (found, query_servers) at h)
  ]
