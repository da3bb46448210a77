-- ===== src/Api/Routes/Outcome/SharedHandlers.antt =====
-- What a request to /domains, /suffixes and /blocklist/urls comes to.
use dns_box.Prelude.{Text, Option, none, some, refl, inl, inr, Bool-cases}
use dns_box.Cache.FastCache.{FastCache}
use dns_box.Cache.DomainCache.{contains, contains_suffix}
use dns_box.Config.{Config}
use dns_box.Api.{Method, get, post, delete, other, Server, Served, Saving, finish}
use dns_box.Api.Shared.{handle_domains, handle_suffixes, handle_blocklist_urls, edit_url}
use dns_box.Api.Shared
use dns_box.Api.Shared.Status.{IsFine, write-IsFine, add_domain-IsFine}
use dns_box.Api.Lists.{}
use dns_box.Api.NetLists.{}
use dns_box.Api.Routes.{ApiJson}
use dns_box.Api.Routes.Outcome.{
  IsEdit, Outcome, lines-Outcome, saved-urls, shown, not_allowed, bad_request,
}

module _ (f : FastCache) (Bytes : Type 0) where
  remove_domain-IsFine :
      (t : Text) (x : Served f Bytes)
      → IsFine x.reply
      → IsFine (Shared.remove_domain f Bytes t x).reply
  unfolding Shared.remove_domain
  remove_domain-IsFine t x h = elim (Bool-cases (contains f x.server.domain_cache t)) [
    | inl there ↦ rw there h
    | inr new ↦ rw new (write-IsFine _ x.reply h)
  ]

  add_suffix-IsFine :
      (t : Text) (x : Served f Bytes)
      → IsFine x.reply
      → IsFine (Shared.add_suffix f Bytes t x).reply
  unfolding Shared.add_suffix
  add_suffix-IsFine t x h = elim (Bool-cases (contains_suffix f x.server.domain_cache t)) [
    | inl there ↦ rw there (write-IsFine _ x.reply h)
    | inr new ↦ rw new h
  ]

  remove_suffix-IsFine :
      (t : Text) (x : Served f Bytes)
      → IsFine x.reply
      → IsFine (Shared.remove_suffix f Bytes t x).reply
  unfolding Shared.remove_suffix
  remove_suffix-IsFine t x h = elim (Bool-cases (contains_suffix f x.server.domain_cache t)) [
    | inl there ↦ rw there h
    | inr new ↦ rw new (write-IsFine _ x.reply h)
  ]

  module _ (json : ApiJson) (saving : Saving f Bytes) (s : Server f Bytes) where
    pub handle_domains-Outcome :
        (m : Method) (body : Option Text)
        → Outcome f Bytes m s (handle_domains f Bytes saving json.names m body s)
    unfolding handle_domains
    handle_domains-Outcome get body = shown f Bytes s get _
    handle_domains-Outcome post body =
        lines-Outcome f Bytes saving post _ (add_domain-IsFine f Bytes saving json.names) body s
          (inl refl)
    handle_domains-Outcome delete body =
        lines-Outcome f Bytes saving delete _ remove_domain-IsFine body s (inr refl)
    handle_domains-Outcome other body = not_allowed f Bytes s other

    pub handle_suffixes-Outcome :
        (m : Method) (body : Option Text)
        → Outcome f Bytes m s (handle_suffixes f Bytes saving json.names m body s)
    unfolding handle_suffixes
    handle_suffixes-Outcome get body = shown f Bytes s get _
    handle_suffixes-Outcome post body =
        lines-Outcome f Bytes saving post _ add_suffix-IsFine body s (inl refl)
    handle_suffixes-Outcome delete body =
        lines-Outcome f Bytes saving delete _ remove_suffix-IsFine body s (inr refl)
    handle_suffixes-Outcome other body = not_allowed f Bytes s other

    edit_url-Outcome :
        (m : Method) (edit : Config → Text → Config) (url : Option Text)
        → IsEdit m
        → Outcome f Bytes m s (edit_url f Bytes saving json.names edit url s)
    unfolding finish
    edit_url-Outcome m edit none h = bad_request f Bytes s m _
    edit_url-Outcome m edit (some url) h =
        let c = edit s.config url in
        let t : Server f Bytes = record s {
          config = c;
          block_list = Shared.refresh f Bytes c.block_list.urls s.block_list;
        } in
        inr (h, saved-urls f Bytes saving t _)

    pub handle_blocklist_urls-Outcome :
        (m : Method) (url : Option Text)
        → Outcome f Bytes m s (handle_blocklist_urls f Bytes saving json.names m url s)
    unfolding handle_blocklist_urls
    handle_blocklist_urls-Outcome get url = shown f Bytes s get _
    handle_blocklist_urls-Outcome post url = edit_url-Outcome post _ url (inl refl)
    handle_blocklist_urls-Outcome delete url = edit_url-Outcome delete _ url (inr refl)
    handle_blocklist_urls-Outcome other url = not_allowed f Bytes s other
