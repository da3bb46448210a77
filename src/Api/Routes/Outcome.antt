-- ===== src/Api/Routes/Outcome.antt =====
-- What a request to the API can come to.
pub mod SharedHandlers
pub mod ListHandlers
pub mod Serve
use dns_box.Prelude.{
  ℕ, Bool, true, false, ◌||◌, Text, codes, Option, none, some, List, [], ◌∷◌, ◌≡◌, refl, ◌⊎◌, inl,
  inr, In, pos, get_elem?, split, text_eq, Bool-cases, Option-cases, if◌then◌else◌,
}
use dns_box.Cache.FastCache.{FastCache}
use dns_box.Cache.DomainCache.{contains, contains_suffix}
use dns_box.Config.{
  Config, NetListConfig, get_ipset_lists, get_list_rules, get_net_lists, get_net_list_cidrs,
}
use dns_box.Config.Save.{World, Result, ok, err, SaveError}
use dns_box.Ipset.{Command, add_element, remove_element}
use dns_box.Startup.Sets.{timeout_or_default}
use dns_box.Api.{
  Method, get, post, delete, other, Reply, empty_reply, send, write, write_header, http_error,
  Server, Served, Saving, finish, saved, each_line, with_lines,
}
use dns_box.Api.Keeps.{each_line-holds}
use dns_box.Api.Shared.{handle_domains, handle_suffixes, handle_blocklist_urls, edit_url}
use dns_box.Api.Shared
use dns_box.Api.Shared.Status.{IsFine, write-IsFine, add_domain-IsFine}
use dns_box.Api.Lists.{
  add_list_domain, remove_list_domain, add_list_suffix, remove_list_suffix, handle_list_domains,
  handle_list_suffixes, handle_ipset_list, handle_ipset_lists, find_list_index,
}
use dns_box.Api.Lists
use dns_box.Api.NetLists.{
  add_cidr, remove_cidr, handle_net_list_cidrs, handle_net_list, handle_net_lists,
  find_net_list_index, with_list,
}
use dns_box.Api.NetLists
use dns_box.Api.Routes.{
  Route, domains, suffixes, blocklist_urls, ipset_lists, net_lists, net_list, ipset_list,
  Dispatched, redirected, not_found, to, dispatch, ApiRequest, ApiJson, handle, answer, serve,
}

-- The reply has one of the statuses.
abbrev pub HasStatus : List ℕ → Reply → Type 0
HasStatus statuses r = (c : ℕ) × In c statuses × (r.status ≡ some c)

abbrev pub IsEdit : Method → Type 0
IsEdit m = (m ≡ post) ⊎ (m ≡ delete)

write-HasStatus :
    (text : Text) (r : Reply) → IsFine r → HasStatus (200 ∷ 204 ∷ 500 ∷ []) (write text r)
unfolding write send
write-HasStatus text r (inl (_, fresh)) = (200, inl refl, rw fresh refl)
write-HasStatus text r (inr sent) = (200, inl refl, rw sent refl)

error-HasStatus :
    (text : Text) (r : Reply) → IsFine r → HasStatus (200 ∷ 204 ∷ 500 ∷ []) (http_error text 500 r)
unfolding http_error send
error-HasStatus text r (inl (_, fresh)) = (500, inr (inr (inl refl)), rw fresh refl)
error-HasStatus text r (inr sent) = (200, inl refl, rw sent refl)

module _ (f : FastCache) (Bytes : Type 0) where
  -- The server is as it was, and the status says that something was read, or why nothing was done.
  abbrev pub IsUntouched : Server f Bytes → Served f Bytes → Type 0
  IsUntouched s x = (x.server ≡ s) × HasStatus (200 ∷ 301 ∷ 400 ∷ 404 ∷ 405 ∷ []) x.reply

  -- The configuration was saved, or that failed, or the save crashed and the connection was cut.
  abbrev pub IsSaved : Served f Bytes → Type 0
  IsSaved x = HasStatus (200 ∷ 204 ∷ 500 ∷ []) x.reply ⊎ (x.reply.aborted ≡ true)

  abbrev pub Outcome : Method → Server f Bytes → Served f Bytes → Type 0
  Outcome m s x = IsUntouched s x ⊎ (IsEdit m × IsSaved x)

  module _ (saving : Saving f Bytes) where
    saved-lines :
        (s : Server f Bytes) (r : Reply) (o : Result (Unit {0}) × World Bytes)
        → IsFine r
        → IsSaved (saved f Bytes saving (write (codes "ok")) s r o)
    saved-lines s r (ok _, w) h = inl (write-HasStatus _ r h)
    saved-lines s r (err SaveError.upload_panicked, w) h = inr refl
    saved-lines s r (err e, w) h = inl (error-HasStatus _ r h)

    pub saved-urls :
        (s : Server f Bytes) (o : Result (Unit {0}) × World Bytes)
        → IsSaved (saved f Bytes saving (write_header 204) s empty_reply o)
    unfolding write_header
    saved-urls s (ok _, w) = inl (204, inr (inl refl), refl)
    saved-urls s (err SaveError.upload_panicked, w) = inr refl
    saved-urls s (err e, w) = inl (error-HasStatus _ empty_reply (inl (refl, refl)))

    pub lines-Outcome :
        (m : Method) (edit : Text → Served f Bytes → Served f Bytes)
        (keep : (t : Text) (x : Served f Bytes) → IsFine x.reply → IsFine (edit t x).reply)
        (body : Option Text) (s : Server f Bytes)
        → IsEdit m
        → Outcome m s (with_lines f Bytes saving edit body s)
    unfolding with_lines finish http_error send
    lines-Outcome m edit keep none s h = inl (refl, (400, inr (inr (inl refl)), refl))
    lines-Outcome m edit keep (some body) s h =
        let x =
          each_line f Bytes saving edit (split body 10)
            (record { server = s; reply = empty_reply }) in
        inr (
          h,
          saved-lines x.server x.reply _ (
              each_line-holds f Bytes (λ x. IsFine x.reply) edit keep saving (split body 10)
                (record { server = s; reply = empty_reply }) (inl (refl, refl))),
        )

  module _ (s : Server f Bytes) where
    -- A refusal.
    pub refused :
        (m : Method) (text : Text) (code : ℕ)
        → In code (200 ∷ 301 ∷ 400 ∷ 404 ∷ 405 ∷ [])
        → Outcome m s (record { server = s; reply = http_error text code empty_reply })
    unfolding http_error send
    refused m text code h = inl (refl, (code, h, refl))

    pub shown :
        (m : Method) (text : Text)
        → Outcome m s (record { server = s; reply = write text empty_reply })
    unfolding write send
    shown m text = inl (refl, (200, inl refl, refl))

    pub not_allowed :
        (m : Method)
        → Outcome m s
            (record { server = s; reply = http_error (codes "Method not allowed") 405 empty_reply })
    not_allowed m = refused m _ 405 (inr (inr (inr (inr (inl refl)))))

    pub missing :
        (m : Method) (text : Text)
        → Outcome m s (record { server = s; reply = http_error text 404 empty_reply })
    missing m text = refused m text 404 (inr (inr (inr (inl refl))))

    pub bad_request :
        (m : Method) (text : Text)
        → Outcome m s (record { server = s; reply = http_error text 400 empty_reply })
    bad_request m text = refused m text 400 (inr (inr (inl refl)))
