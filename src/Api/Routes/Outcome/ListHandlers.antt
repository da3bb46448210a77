-- ===== src/Api/Routes/Outcome/ListHandlers.antt =====
-- What a request to /ipset/ and /ipset/net/ comes to.
use dns_box.Prelude.{
  ℕ, Bool, true, false, ◌||◌, Text, codes, Option, none, some, List, [], ◌∷◌, refl, inl, inr, pos,
  get_elem?, text_eq, Bool-cases, Option-cases, if◌then◌else◌,
}
use dns_box.Cache.FastCache.{FastCache}
use dns_box.Config.{
  NetListConfig, get_ipset_lists, get_list_rules, get_net_lists, get_net_list_cidrs,
}
use dns_box.Ipset.{Command, add_element, remove_element}
use dns_box.Startup.Sets.{timeout_or_default}
use dns_box.Api.{Method, get, post, delete, other, Server, Served, Saving}
use dns_box.Api.Shared.Status.{IsFine, write-IsFine}
use dns_box.Api.Lists.{
  add_list_domain, remove_list_domain, add_list_suffix, remove_list_suffix, handle_list_domains,
  handle_list_suffixes, handle_ipset_list, handle_ipset_lists, find_list_index,
}
use dns_box.Api.Lists
use dns_box.Api.NetLists.{
  add_cidr, remove_cidr, handle_net_list_cidrs, handle_net_list, handle_net_lists,
  find_net_list_index, with_list,
}
use dns_box.Api.NetLists
use dns_box.Api.Routes.{ApiJson}
use dns_box.Api.Routes.Outcome.{
  IsEdit, Outcome, lines-Outcome, shown, not_allowed, missing, bad_request,
}

module _ (f : FastCache) (Bytes : Type 0) where
  module _ (fails : Command → Bool) (is_cidr : Text → Bool) where
    add_cidr-IsFine :
        (i : ℕ) (list : NetListConfig) (t : Text) (x : Served f Bytes)
        → IsFine x.reply
        → IsFine (add_cidr f Bytes fails is_cidr i list t x).reply
    unfolding add_cidr
    add_cidr-IsFine i list t x h = elim (Bool-cases (is_cidr t)) [
      | inr bad ↦ rw bad (write-IsFine _ x.reply h)
      | inl good ↦
          elim (Bool-cases (fails (add_element list.name t (timeout_or_default list.timeout)))) [
            | inl failed ↦ rw (good, failed) (write-IsFine _ x.reply h)
            | inr done ↦ rw (good, done) h
          ]
    ]

    remove_cidr-IsFine :
        (i : ℕ) (list : NetListConfig) (t : Text) (x : Served f Bytes)
        → IsFine x.reply
        → IsFine (remove_cidr f Bytes fails is_cidr i list t x).reply
    unfolding remove_cidr
    remove_cidr-IsFine i list t x h = elim (Bool-cases (fails (remove_element list.name t))) [
      | inl failed ↦ rw failed (write-IsFine _ x.reply h)
      | inr done ↦ rw done h
    ]

    module _ (json : ApiJson) (saving : Saving f Bytes) (s : Server f Bytes) where
      handle_list_domains-Outcome :
          (m : Method) (i : ℕ) (body : Option Text)
          → Outcome f Bytes m s
              (handle_list_domains f Bytes saving json.names json.lists m i body s)
      unfolding handle_list_domains add_list_domain remove_list_domain
      handle_list_domains-Outcome get i body =
          elim (Option-cases (get_list_rules s.config (pos i))) [
            | inl e ↦ rw e (missing f Bytes s get _)
            | inr (r, e) ↦ rw e (shown f Bytes s get _)
          ]
      handle_list_domains-Outcome post i body =
          lines-Outcome f Bytes saving post _ (λ t x h. h) body s (inl refl)
      handle_list_domains-Outcome delete i body =
          lines-Outcome f Bytes saving delete _ (λ t x h. h) body s (inr refl)
      handle_list_domains-Outcome other i body = not_allowed f Bytes s other

      handle_list_suffixes-Outcome :
          (m : Method) (i : ℕ) (body : Option Text)
          → Outcome f Bytes m s
              (handle_list_suffixes f Bytes saving json.names json.lists m i body s)
      unfolding handle_list_suffixes add_list_suffix remove_list_suffix
      handle_list_suffixes-Outcome get i body =
          elim (Option-cases (get_list_rules s.config (pos i))) [
            | inl e ↦ rw e (missing f Bytes s get _)
            | inr (r, e) ↦ rw e (shown f Bytes s get _)
          ]
      handle_list_suffixes-Outcome post i body =
          lines-Outcome f Bytes saving post _ (λ t x h. h) body s (inl refl)
      handle_list_suffixes-Outcome delete i body =
          lines-Outcome f Bytes saving delete _ (λ t x h. h) body s (inr refl)
      handle_list_suffixes-Outcome other i body = not_allowed f Bytes s other

      found-Outcome :
          (b : Bool) (m : Method) (i : ℕ) (body : Option Text)
          → Outcome f Bytes m s (
              if b
              then handle_list_domains f Bytes saving json.names json.lists m i body s
              else handle_list_suffixes f Bytes saving json.names json.lists m i body s)
      found-Outcome true m i body = handle_list_domains-Outcome m i body
      found-Outcome false m i body = handle_list_suffixes-Outcome m i body

      pub resolved-Outcome :
          (m : Method) (parts : List Text) (body : Option Text)
          → Outcome f Bytes m s (Lists.resolved f Bytes saving json.names json.lists m parts body s)
      resolved-Outcome m [] body = bad_request f Bytes s m _
      resolved-Outcome m (name ∷ []) body = bad_request f Bytes s m _
      resolved-Outcome m (name ∷ resource ∷ more ∷ parts) body = bad_request f Bytes s m _
      resolved-Outcome m (name ∷ resource ∷ []) body =
          elim (Bool-cases
            (text_eq resource (codes "domains") || text_eq resource (codes "suffixes"))) [
              | inr unknown ↦ rw unknown (bad_request f Bytes s m _)
              | inl known ↦ elim (Option-cases (find_list_index name (get_ipset_lists s.config))) [
                | inl e ↦ rw (known, e) (missing f Bytes s m _)
                | inr (i, e) ↦
                    rw (known, e) (found-Outcome (text_eq resource (codes "domains")) m i body)
              ]
            ]

      with_list-Outcome :
          (m : Method) (edit : ℕ → NetListConfig → Text → Served f Bytes → Served f Bytes)
          (keep : (i : ℕ) (list : NetListConfig) (t : Text) (x : Served f Bytes)
            → IsFine x.reply
            → IsFine (edit i list t x).reply)
          (i : ℕ) (body : Option Text) (o : Option NetListConfig)
          → IsEdit m
          → Outcome f Bytes m s
              (with_list f Bytes fails is_cidr saving json.names json.net_lists edit i body s o)
      with_list-Outcome m edit keep i none o h = bad_request f Bytes s m _
      with_list-Outcome m edit keep i (some body) none h = missing f Bytes s m _
      with_list-Outcome m edit keep i (some body) (some list) h =
          lines-Outcome f Bytes saving m (edit i list) (keep i list) (some body) s h

      handle_net_list_cidrs-Outcome :
          (m : Method) (i : ℕ) (body : Option Text)
          → Outcome f Bytes m s (
              handle_net_list_cidrs f Bytes fails is_cidr saving json.names json.net_lists m i body
                s)
      unfolding handle_net_list_cidrs
      handle_net_list_cidrs-Outcome get i body =
          elim (Option-cases (get_net_list_cidrs s.config (pos i))) [
            | inl e ↦ rw e (missing f Bytes s get _)
            | inr (r, e) ↦ rw e (shown f Bytes s get _)
          ]
      handle_net_list_cidrs-Outcome post i body =
          with_list-Outcome post (add_cidr f Bytes fails is_cidr) add_cidr-IsFine i body
            (get_elem? (get_net_lists s.config) i) (inl refl)
      handle_net_list_cidrs-Outcome delete i body =
          with_list-Outcome delete (remove_cidr f Bytes fails is_cidr) remove_cidr-IsFine i body
            (get_elem? (get_net_lists s.config) i) (inr refl)
      handle_net_list_cidrs-Outcome other i body = not_allowed f Bytes s other

      pub resolved_net-Outcome :
          (m : Method) (parts : List Text) (body : Option Text)
          → Outcome f Bytes m s (
              NetLists.resolved f Bytes fails is_cidr saving json.names json.net_lists m parts body
                s)
      resolved_net-Outcome m [] body = bad_request f Bytes s m _
      resolved_net-Outcome m (name ∷ []) body = bad_request f Bytes s m _
      resolved_net-Outcome m (name ∷ resource ∷ more ∷ parts) body = bad_request f Bytes s m _
      resolved_net-Outcome m (name ∷ resource ∷ []) body =
          elim (Bool-cases (text_eq resource (codes "cidrs"))) [
            | inr unknown ↦ rw unknown (bad_request f Bytes s m _)
            | inl known ↦ elim (Option-cases (find_net_list_index name (get_net_lists s.config))) [
              | inl e ↦ rw (known, e) (missing f Bytes s m _)
              | inr (i, e) ↦ rw (known, e) (handle_net_list_cidrs-Outcome m i body)
            ]
          ]
