-- ===== src/Api/Routes/Requested/SharedEdits.antt =====
-- The handlers of /domains, /suffixes and /blocklist/urls beside the calls that are asked for.
use dns_box.Prelude.{Bool, Text, Option, none, some, List, [], ◌∷◌, refl, inl, inr, Bool-cases}
use dns_box.Cache.FastCache.{FastCache}
use dns_box.Cache.DomainCache.{contains, contains_suffix}
use dns_box.Config.{}
use dns_box.Config.Mutators.{Call}
use dns_box.Ipset.{Command}
use dns_box.Api.{Method, get, post, delete, other, write_header, Server, Served, Saving}
use dns_box.Api.Keeps.{finish-keeps}
use dns_box.Api.Shared
use dns_box.Api.Shared.{handle_domains, handle_suffixes, handle_blocklist_urls}
use dns_box.Api.Lists.{}
use dns_box.Api.NetLists.{}
use dns_box.Api.Routes.{ApiJson}
use dns_box.Api.Routes.Requested.{edits, url_edits, IsPerformed, MakesCall, with_lines-IsPerformed}

module _ (f : FastCache) (Bytes : Type 0) (fails : Command → Bool) (is_cidr : Text → Bool) where
  abbrev pub Makes : (Text → Served f Bytes → Served f Bytes) → (Text → Call) → Type 0
  Makes edit k =
      (t : Text) (x : Served f Bytes) → MakesCall (k t) x.server.config (edit t x).server.config

  add_domain-Makes : Makes (Shared.add_domain f Bytes) Call.add_domain
  unfolding Shared.add_domain
  add_domain-Makes t x = elim (Bool-cases (contains f x.server.domain_cache t)) [
    | inl there ↦ rw there (inr (refl, refl))
    | inr new ↦ rw new (inl refl)
  ]

  remove_domain-Makes : Makes (Shared.remove_domain f Bytes) Call.remove_domain
  unfolding Shared.remove_domain
  remove_domain-Makes t x = elim (Bool-cases (contains f x.server.domain_cache t)) [
    | inl there ↦ rw there (inl refl)
    | inr new ↦ rw new (inr (refl, refl))
  ]

  add_suffix-Makes : Makes (Shared.add_suffix f Bytes) Call.add_suffix
  unfolding Shared.add_suffix
  add_suffix-Makes t x = elim (Bool-cases (contains_suffix f x.server.domain_cache t)) [
    | inl there ↦ rw there (inr (refl, refl))
    | inr new ↦ rw new (inl refl)
  ]

  remove_suffix-Makes : Makes (Shared.remove_suffix f Bytes) Call.remove_suffix
  unfolding Shared.remove_suffix
  remove_suffix-Makes t x = elim (Bool-cases (contains_suffix f x.server.domain_cache t)) [
    | inl there ↦ rw there (inl refl)
    | inr new ↦ rw new (inr (refl, refl))
  ]

  module _ (json : ApiJson) (saving : Saving f Bytes) where
    abbrev pub Performs : List Call → Server f Bytes → Served f Bytes → Type 0
    Performs ks s x = IsPerformed ks s.config x.server.config

    pub domains-Performs :
        (method : Method) (body : Option Text) (s : Server f Bytes)
        → Performs
            (edits Call.add_domain Call.remove_domain method body)
            s
            (handle_domains f Bytes saving json.names method body s)
    unfolding handle_domains
    domains-Performs get body s = refl
    domains-Performs post body s =
        with_lines-IsPerformed f Bytes saving _ Call.add_domain add_domain-Makes body s
    domains-Performs delete body s =
        with_lines-IsPerformed f Bytes saving _ Call.remove_domain remove_domain-Makes body s
    domains-Performs other body s = refl

    pub suffixes-Performs :
        (method : Method) (body : Option Text) (s : Server f Bytes)
        → Performs
            (edits Call.add_suffix Call.remove_suffix method body)
            s
            (handle_suffixes f Bytes saving json.names method body s)
    unfolding handle_suffixes
    suffixes-Performs get body s = refl
    suffixes-Performs post body s =
        with_lines-IsPerformed f Bytes saving _ Call.add_suffix add_suffix-Makes body s
    suffixes-Performs delete body s =
        with_lines-IsPerformed f Bytes saving _ Call.remove_suffix remove_suffix-Makes body s
    suffixes-Performs other body s = refl

    pub urls-Performs :
        (method : Method) (url : Option Text) (s : Server f Bytes)
        → Performs
            (url_edits method url)
            s
            (handle_blocklist_urls f Bytes saving json.names method url s)
    unfolding handle_blocklist_urls
    urls-Performs get none s = refl
    urls-Performs post none s = refl
    urls-Performs delete none s = refl
    urls-Performs other none s = refl
    urls-Performs get (some url) s = refl
    urls-Performs post (some url) s =
        finish-keeps f Bytes saving
          (λ x. IsPerformed (Call.add_block_list_url url ∷ []) s.config x.config) (λ x h. h)
          (write_header 204) _ (inl refl)
    urls-Performs delete (some url) s =
        finish-keeps f Bytes saving
          (λ x. IsPerformed (Call.remove_block_list_url url ∷ []) s.config x.config) (λ x h. h)
          (write_header 204) _ (inl refl)
    urls-Performs other (some url) s = refl
