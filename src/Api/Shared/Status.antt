-- ===== src/Api/Shared/Status.antt =====
-- The status of a reply to posted domains.
use dns_box.Prelude.{
  Text, codes, none, some, List, [], ◌≡◌, ◌≢◌, refl, ◌⊎◌, inl, inr, split, Bool-cases,
}
use dns_box.Cache.FastCache.{FastCache}
use dns_box.Cache.DomainCache.{contains}
use dns_box.Config.Save.{World, Result, ok, err, SaveError}
use dns_box.Api.{
  Reply, empty_reply, send, write, http_error, Server, Served, Saving, post, finish, saved,
  each_line, with_lines,
}
use dns_box.Api.Keeps.{each_line-holds}
use dns_box.Api.Shared.{add_domain, handle_domains}

-- Nothing was sent so far, or the status 200.
abbrev pub IsFine : Reply → Type 0
IsFine r = (r.body ≡ []) × (r.status ≡ none) ⊎ (r.status ≡ some 200)

told_status : (r : Reply) → r.body ≢ [] → IsFine r → r.status ≡ some 200
told_status r told (inl (nothing, _)) = absurd (told nothing)
told_status r told (inr sent) = sent

pub write-IsFine : (text : Text) (r : Reply) → IsFine r → IsFine (write text r)
unfolding write send
write-IsFine text r (inl (_, fresh)) = inr (rw fresh refl)
write-IsFine text r (inr sent) = inr (rw sent refl)

module _ (f : FastCache) (Bytes : Type 0) (saving : Saving f Bytes)
    (encode : List Text → Text) where
  pub add_domain-IsFine :
      (d : Text) (x : Served f Bytes) → IsFine x.reply → IsFine (add_domain f Bytes d x).reply
  unfolding add_domain
  add_domain-IsFine d x h = elim (Bool-cases (contains f x.server.domain_cache d)) [
    | inl there ↦ rw there (write-IsFine _ x.reply h)
    | inr new ↦ rw new h
  ]

  saved_status :
      (s : Server f Bytes) (r : Reply) (o : Result (Unit {0}) × World Bytes)
      → r.status ≡ some 200
      → (saved f Bytes saving (write (codes "ok")) s r o).reply.status ≡ some 200
  unfolding write http_error send
  saved_status s r (ok _, w) h = rw h refl
  saved_status s r (err SaveError.upload_panicked, w) h = h
  saved_status s r (err e, w) h = rw h refl

  -- What the lines of a body have put into the reply before the configuration is saved.
  abbrev pub reported : Text → Server f Bytes → List Text
  reported body s =
      (each_line f Bytes saving (add_domain f Bytes) (split body 10)
        (record { server = s; reply = empty_reply })).reply.body

  -- If a line of the posted domains has been reported, as one that is there already, then the reply
  -- has the status 200, also where saving the configuration fails.
  pub handle_domains_status :
      (body : Text) (s : Server f Bytes)
      → reported body s ≢ []
      → (handle_domains f Bytes saving encode post (some body) s).reply.status ≡ some 200
  unfolding handle_domains with_lines finish
  handle_domains_status body s told =
      let x =
        each_line f Bytes saving (add_domain f Bytes) (split body 10)
          (record { server = s; reply = empty_reply }) in
      saved_status x.server x.reply _ (
        told_status x.reply told (
          each_line-holds f Bytes (λ x. IsFine x.reply) (add_domain f Bytes) add_domain-IsFine
            saving (split body 10) (record { server = s; reply = empty_reply }) (inl (refl, refl))))
