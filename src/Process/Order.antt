-- ===== src/Process/Order.antt =====
-- What lies behind `run` when it returns.
use dns_box.Prelude.{Option, none, some, Bool, true, false, Text, ◌≡◌, refl, subst, sym, ap}
use dns_box.Cache.FastCache.{FastCache}
use dns_box.Cache.DnsCache.{RrCodec}
use dns_box.Config.Save.{Faults, save_config}
use dns_box.Github.{Api}
use dns_box.Dns.Message.{Rr}
use dns_box.Api.{Server}
use dns_box.Process.{
  Main, waiting, saving, stopping_dns, stopping_api, returned, crashed, Process, Outside, launched,
  Step, cancel, spawn, listen, fail, shut, query, query_panics, api_start, api_listen, api_fails,
  call, refresh, wake, save, save_panics, join, stop, stop_absent, stop_late, Reach, here, next,
}

-- Where `run` can be only behind a signal, the context is cancelled.
abbrev IsSignalled : Main → Bool → Type 0
IsSignalled waiting c = Unit
IsSignalled crashed c = Unit
IsSignalled _ c = c ≡ true

IsSignalled-true : (m : Main) → IsSignalled m true
IsSignalled-true waiting = tt
IsSignalled-true saving = refl
IsSignalled-true stopping_dns = refl
IsSignalled-true stopping_api = refl
IsSignalled-true returned = refl
IsSignalled-true crashed = tt

abbrev is_past_save : Main → Bool
is_past_save stopping_dns = true
is_past_save stopping_api = true
is_past_save returned = true
is_past_save _ = false

module _ (f : FastCache) (rr : RrCodec Rr) (Bytes : Type 0) (outside : Outside Bytes) where
  IsSignalled-Step :
      (p q : Process f rr Bytes) (step : Step f rr Bytes outside p q)
      → IsSignalled p.main p.cancelled
      → IsSignalled q.main q.cancelled
  IsSignalled-Step p q (cancel e) h = IsSignalled-true p.main
  IsSignalled-Step p q (spawn _ _ _) h = h
  IsSignalled-Step p q (listen _ _ _ _) h = h
  IsSignalled-Step p q (fail _ _ _ _) h = h
  IsSignalled-Step p q (shut _ _ _ _ _) h = h
  IsSignalled-Step p q (query _ _ _ _ _ _ _) h = h
  IsSignalled-Step p q (query_panics _ _ _ _ _ _) h = tt
  IsSignalled-Step p q (api_start _) h = h
  IsSignalled-Step p q (api_listen _) h = h
  IsSignalled-Step p q (api_fails _) h = tt
  IsSignalled-Step p q (call _ _ _ _ _ _) h = h
  IsSignalled-Step p q (refresh _ _ _ _ _) h = h
  IsSignalled-Step p q (wake _ cancelled) h = cancelled
  IsSignalled-Step p q (save _ _ _ at _) h = subst (λ m. IsSignalled m p.cancelled) at h
  IsSignalled-Step p q (save_panics _ _ _ _ _) h = tt
  IsSignalled-Step p q (join at _) h = subst (λ m. IsSignalled m p.cancelled) at h
  IsSignalled-Step p q (stop at _) h = subst (λ m. IsSignalled m p.cancelled) at h
  IsSignalled-Step p q (stop_absent _ _) h = tt
  IsSignalled-Step p q (stop_late _ _) h = tt

  -- The save that a step is, if it is one: which of its calls fail, GitHub, and the environment.
  abbrev pub save_of :
      {p q : Process f rr Bytes}
      → Step f rr Bytes outside p q
      → Option (Faults Bytes × Api Bytes × Text)
  save_of (save faults api env _ _) = some (faults, api, env)
  save_of _ = none

  -- A save between the two states of a run: a step that is one, and the world that `save_config` leaves.
  abbrev pub SavesBetween : Process f rr Bytes → Process f rr Bytes → Type 0
  SavesBetween start end =
      (p q : Process f rr Bytes) × (faults : Faults Bytes) × (api : Api Bytes) × (env : Text)
      × Reach f rr Bytes outside start p
      × (p.main ≡ saving)
      × (p.cancelled ≡ true)
      × (step : Step f rr Bytes outside p q) × (save_of step ≡ some (faults, api, env))
      × (q.server.world
          ≡ (save_config outside.json faults api p.server.config env p.server.world).1)
      × Reach f rr Bytes outside q end

  -- A step comes behind the save only if it starts there, or is the save.
  is_past_save-Step :
      (start p q : Process f rr Bytes) (step : Step f rr Bytes outside p q)
      → Reach f rr Bytes outside start p
      → IsSignalled p.main p.cancelled
      → (is_past_save p.main ≡ true → SavesBetween start q)
      → is_past_save q.main ≡ true
      → SavesBetween start q
  is_past_save-Step start p q (cancel _) r h earlier past = earlier past
  is_past_save-Step start p q (spawn _ _ _) r h earlier past = earlier past
  is_past_save-Step start p q (listen _ _ _ _) r h earlier past = earlier past
  is_past_save-Step start p q (fail _ _ _ _) r h earlier past = earlier past
  is_past_save-Step start p q (shut _ _ _ _ _) r h earlier past = earlier past
  is_past_save-Step start p q (query _ _ _ _ _ _ _) r h earlier past = earlier past
  is_past_save-Step start p q (query_panics _ _ _ _ _ _) r h earlier past = cc
  is_past_save-Step start p q (api_start _) r h earlier past = earlier past
  is_past_save-Step start p q (api_listen _) r h earlier past = earlier past
  is_past_save-Step start p q (api_fails _) r h earlier past = cc
  is_past_save-Step start p q (call _ _ _ _ _ _) r h earlier past = earlier past
  is_past_save-Step start p q (refresh _ _ _ _ _) r h earlier past = earlier past
  is_past_save-Step start p q (wake _ _) r h earlier past = cc
  is_past_save-Step start p q (save faults api env at ok) r h earlier past = (
    p,
    q,
    faults,
    api,
    env,
    r,
    at,
    subst (λ m. IsSignalled m p.cancelled) at h,
    save faults api env at ok,
    refl,
    refl,
    here,
  )
  is_past_save-Step start p q (save_panics _ _ _ _ _) r h earlier past = cc
  is_past_save-Step start p q (join at _) r h earlier past = earlier (ap is_past_save at)
  is_past_save-Step start p q (stop at _) r h earlier past = earlier (ap is_past_save at)
  is_past_save-Step start p q (stop_absent _ _) r h earlier past = cc
  is_past_save-Step start p q (stop_late _ _) r h earlier past = cc

  IsSignalled-Reach :
      (start p : Process f rr Bytes)
      → IsSignalled start.main start.cancelled
      → Reach f rr Bytes outside start p
      → IsSignalled p.main p.cancelled
  IsSignalled-Reach start p h here = h
  IsSignalled-Reach start p h (next {p = m} r running step) =
      IsSignalled-Step m p step (IsSignalled-Reach start m h r)

  is_past_save-Reach :
      (start p : Process f rr Bytes)
      → start.main ≡ waiting
      → (r : Reach f rr Bytes outside start p) → is_past_save p.main ≡ true
      → SavesBetween start p
  is_past_save-Reach start p waits here past =
      let e : is_past_save start.main ≡ false = ap is_past_save waits in cc
  is_past_save-Reach start p waits (next {p = m} r running step) past =
      is_past_save-Step start m p step r
        (IsSignalled-Reach start m (subst (λ m. IsSignalled m start.cancelled) (sym waits) tt) r)
        (λ earlier.
          let (a, b, faults, api, env, before, at, signalled, saving_step, is_save, saved, behind) =
            is_past_save-Reach start m waits r earlier in
          (
            a,
            b,
            faults,
            api,
            env,
            before,
            at,
            signalled,
            saving_step,
            is_save,
            saved,
            next behind running step,
          ))
        past

  -- If `run` has returned, it has called `save_config` before, behind the signal, whatever that call
  -- met: a state of the run in which the context was cancelled is followed, by the step that is the save,
  -- by one with the world that `save_config` leaves.
  pub returned_saves :
      (s : Server f Bytes) (p : Process f rr Bytes)
      → Reach f rr Bytes outside (launched f rr Bytes outside s) p
      → p.main ≡ returned
      → SavesBetween (launched f rr Bytes outside s) p
  returned_saves s p r at =
      is_past_save-Reach (launched f rr Bytes outside s) p refl r (ap is_past_save at)
