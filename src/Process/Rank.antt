-- ===== src/Process/Rank.antt =====
-- Every step that is no work on a request brings the program nearer to its end.
use mathlib.Core.Option.{some-injective}
use dns_box.Prelude.{
  subst, sym, ℕ, zero, suc, ◌+◌, ◌*◌, ◌<◌, ◌≤◌, if◌then◌else◌, Bool, true, false, some, List, [],
  ◌∷◌, ◌++◌, ◌≡◌, ◌≢◌, refl, arith, get_elem?, modify, length,
}
use dns_box.Cache.FastCache.{FastCache}
use dns_box.Cache.DnsCache.{RrCodec}
use dns_box.Dns.Message.{Rr}
use dns_box.Process.{
  Phase, fresh, serving, ended, Listener, new_listener, in_phase, shut_down, ApiPhase, absent,
  created, listening, closed, Main, waiting, saving, stopping_dns, stopping_api, returned, crashed,
  is_running, Process, Outside, Step, cancel, spawn, listen, fail, shut, query, query_panics,
  api_start, api_listen, api_fails, call, refresh, wake, save, save_panics, join, stop, stop_absent,
  stop_late, Reach, here, next,
}

abbrev phase_rank : Phase → ℕ
phase_rank fresh = 2
phase_rank serving = 1
phase_rank ended = 0

abbrev told_rank : Bool → ℕ
told_rank true = 0
told_rank false = 1

abbrev listener_rank : Listener → ℕ
listener_rank l = phase_rank l.phase + told_rank l.told

abbrev listeners_rank : List Listener → ℕ
listeners_rank [] = 0
listeners_rank (l ∷ ls) = listener_rank l + listeners_rank ls

abbrev api_rank : ApiPhase → ℕ
api_rank absent = 3
api_rank created = 2
api_rank listening = 1
api_rank closed = 0

abbrev main_rank : Main → ℕ
main_rank waiting = 4
main_rank saving = 3
main_rank stopping_dns = 2
main_rank stopping_api = 1
main_rank returned = 0
main_rank crashed = 0

listeners_rank-append :
    (ls ms : List Listener) → listeners_rank (ls ++ ms) ≡ listeners_rank ls + listeners_rank ms
listeners_rank-append [] ms = omega arith
listeners_rank-append (l ∷ ls) ms = omega (arith, listeners_rank-append ls ms)

-- One listener comes nearer to its end.
listeners_rank-modify :
    (g : Listener → Listener) (ls : List Listener) (i : ℕ) (l : Listener)
    → get_elem? ls i ≡ some l
    → listener_rank (g l) < listener_rank l
    → listeners_rank (modify ls i g) < listeners_rank ls
listeners_rank-modify g [] i l e h = absurd cc
listeners_rank-modify g (k ∷ ls) zero l e h =
    let closer : listener_rank (g k) < listener_rank k =
      subst (λ x. listener_rank (g x) < listener_rank x) (sym (some-injective k l e)) h in
    omega (arith, closer)
listeners_rank-modify g (k ∷ ls) (suc i) l e h = omega (arith, listeners_rank-modify g ls i l e h)

running-rank : (m : Main) → is_running m ≡ true → 0 < main_rank m
running-rank waiting h = omega arith
running-rank saving h = omega arith
running-rank stopping_dns h = omega arith
running-rank stopping_api h = omega arith
running-rank returned h = cc
running-rank crashed h = cc

module _ (f : FastCache) (rr : RrCodec Rr) (Bytes : Type 0) (outside : Outside Bytes) where
  -- How many steps of its own the program can still take.
  abbrev pub rank : Process f rr Bytes → ℕ
  rank p =
      main_rank p.main
      + told_rank p.cancelled
      + api_rank p.api
      + 4 * length p.unspawned
      + listeners_rank p.listeners

  -- The step serves a request, or is one of the blocklist.
  abbrev pub is_work : {p q : Process f rr Bytes} → Step f rr Bytes outside p q → Bool
  is_work (query _ _ _ _ _ _ _) = true
  is_work (call _ _ _ _ _ _) = true
  is_work (refresh _ _ _ _ _) = true
  is_work _ = false

  -- A listener starts to serve, ends, or is told to stop.
  pub listening-rank :
      (l : Listener) → l.phase ≡ fresh → listener_rank (in_phase serving l) < listener_rank l
  listening-rank l e = rw e (omega arith)

  ending-rank :
      (p : Phase) (b : Bool)
      → p ≢ ended
      → listener_rank (in_phase ended (record { phase = p; told = b }))
        < listener_rank (record { phase = p; told = b })
  ending-rank fresh b h = omega arith
  ending-rank serving b h = omega arith
  ending-rank ended b h = absurd (h refl)

  pub shutting-rank :
      (p : Phase) (b : Bool)
      → b ≡ false
      → listener_rank (shut_down (record { phase = p; told = b }))
        < listener_rank (record { phase = p; told = b })
  unfolding shut_down
  shutting-rank fresh b e = rw e (omega arith)
  shutting-rank serving b e = rw e (omega arith)
  shutting-rank ended b e = rw e (omega arith)

  abbrev pub own_step : {p q : Process f rr Bytes} → Step f rr Bytes outside p q → ℕ
  own_step step = if is_work step then 0 else 1

  -- A step that does no work on a request takes one of the steps that are left.
  pub rank-Step :
      (p q : Process f rr Bytes) (step : Step f rr Bytes outside p q)
      → is_running p.main ≡ true
      → own_step step + rank q ≤ rank p
  rank-Step p q (cancel e) r = rw e (omega arith)
  rank-Step p q (spawn a as' e) r =
      rw e (omega (arith, listeners_rank-append p.listeners (new_listener ∷ [])))
  rank-Step p q (listen i l at e) r =
      omega
        (arith, listeners_rank-modify (in_phase serving) p.listeners i l at (listening-rank l e))
  rank-Step p q (fail i l at e) r = omega (
    arith,
    listeners_rank-modify (in_phase ended) p.listeners i l at (ending-rank l.phase l.told e),
  )
  rank-Step p q (shut i l c at e) r =
      omega
        (arith, listeners_rank-modify shut_down p.listeners i l at (shutting-rank l.phase l.told e))
  rank-Step p q (query _ _ _ _ _ _ _) r = omega arith
  rank-Step p q (query_panics _ _ _ _ _ _) r = omega (arith, running-rank p.main r)
  rank-Step p q (api_start e) r = rw e (omega arith)
  rank-Step p q (api_listen e) r = rw e (omega arith)
  rank-Step p q (api_fails _) r = omega (arith, running-rank p.main r)
  rank-Step p q (call _ _ _ _ _ _) r = omega arith
  rank-Step p q (refresh _ _ _ _ _) r = omega arith
  rank-Step p q (wake e _) r = rw e (omega arith)
  rank-Step p q (save _ _ _ e _) r = rw e (omega arith)
  rank-Step p q (save_panics _ _ _ e _) r = rw e (omega arith)
  rank-Step p q (join e _) r = rw e (omega arith)
  rank-Step p q (stop e _) r = rw e (omega arith)
  rank-Step p q (stop_absent e _) r = rw e (omega arith)
  rank-Step p q (stop_late e _) r = rw e (omega arith)

  -- The steps of a run that do no work on a request.
  abbrev pub own_steps : {p q : Process f rr Bytes} → Reach f rr Bytes outside p q → ℕ
  own_steps here = 0
  own_steps (next r running step) = own_step step + own_steps r

  -- However its goroutines interleave, the program takes only a bounded number of steps beside its
  -- work on requests and blocklists: at most four for each address of the DNS server, three for each
  -- of its listeners, three for the server of the API, one for the signal, and four for `run`.
  pub own_steps-rank :
      (p q : Process f rr Bytes) (r : Reach f rr Bytes outside p q) → own_steps r + rank q ≤ rank p
  own_steps-rank p q here = omega arith
  own_steps-rank p q (next {p = m} r running step) =
      omega (arith, own_steps-rank p m r, rank-Step m q step running)
