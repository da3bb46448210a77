-- ===== src/Api/Routes/Requested/ListEdits.antt =====
-- The handlers of /ipset/ and /ipset/net/ beside the calls that are asked for.
use dns_box.Prelude.{
  ℕ, Bool, true, Text, codes, Option, none, some, List, [], ◌∷◌, ◌≡◌, refl, inl, inr, pos, split,
  get_elem?, text_eq, Bool-cases, Option-cases,
}
use dns_box.Cache.FastCache.{FastCache}
use dns_box.Config.{
  NetListConfig, get_ipset_lists, get_list_rules, get_net_lists, get_net_list_cidrs,
}
use dns_box.Config.Lists.Laws.{ListEdit}
use dns_box.Config.Mutators.{Call}
use dns_box.Ipset.{Command, add_element, remove_element}
use dns_box.Startup.Sets.{timeout_or_default}
use dns_box.Api.{Method, get, post, delete, other, Server, Served, Saving}
use dns_box.Api.Lists
use dns_box.Api.Lists.{
  add_list_domain, remove_list_domain, add_list_suffix, remove_list_suffix, handle_list_domains,
  handle_list_suffixes, handle_ipset_list, handle_ipset_lists, find_list_index,
}
use dns_box.Api.NetLists
use dns_box.Api.NetLists.{
  add_cidr, remove_cidr, handle_net_list_cidrs, handle_net_list, handle_net_lists,
  find_net_list_index, with_list,
}
use dns_box.Api.Routes.{ApiJson}
use dns_box.Api.Routes.Requested.{
  entries, calls_for, domain_edits, suffix_edits, cidr_edits, list_edits, net_list_edits, may_skip,
  IsPerformed-none, with_lines-IsPerformed,
}
use dns_box.Api.Routes.Requested.SharedEdits.{Makes, Performs}

module _ (f : FastCache) (Bytes : Type 0) (fails : Command → Bool) (is_cidr : Text → Bool) where
  add_cidr-Makes :
      (i : ℕ) (list : NetListConfig)
      → Makes f Bytes fails is_cidr (add_cidr f Bytes fails is_cidr i list) (Call.add_cidr (pos i))
  unfolding add_cidr
  add_cidr-Makes i list t x = elim (Bool-cases (is_cidr t)) [
    | inr bad ↦ rw bad (inr (refl, refl))
    | inl good ↦
        elim (Bool-cases (fails (add_element list.name t (timeout_or_default list.timeout)))) [
          | inl failed ↦ rw (good, failed) (inr (refl, refl))
          | inr done ↦ rw (good, done) (inl refl)
        ]
  ]

  remove_cidr-Makes :
      (i : ℕ) (list : NetListConfig)
      → Makes f Bytes fails is_cidr
          (remove_cidr f Bytes fails is_cidr i list)
          (Call.remove_cidr (pos i))
  unfolding remove_cidr
  remove_cidr-Makes i list t x = elim (Bool-cases (fails (remove_element list.name t))) [
    | inl failed ↦ rw failed (inr (refl, refl))
    | inr done ↦ rw done (inl refl)
  ]

  module _ (json : ApiJson) (saving : Saving f Bytes) where
    list_domains-Performs :
        (method : Method) (i : ℕ) (body : Option Text) (s : Server f Bytes)
        → Performs f Bytes fails is_cidr json saving
            (domain_edits method body (some i))
            s
            (handle_list_domains f Bytes saving json.names json.lists method i body s)
    unfolding handle_list_domains add_list_domain remove_list_domain
    list_domains-Performs get i body s = elim (Option-cases (get_list_rules s.config (pos i))) [
      | inl e ↦ rw e refl
      | inr (r, e) ↦ rw e refl
    ]
    list_domains-Performs post i body s =
        with_lines-IsPerformed f Bytes saving _ (λ t. Call.in_list (pos i) (ListEdit.add_domain t))
          (λ t x. inl refl) body s
    list_domains-Performs delete i body s =
        with_lines-IsPerformed f Bytes saving _
          (λ t. Call.in_list (pos i) (ListEdit.remove_domain t)) (λ t x. inl refl) body s
    list_domains-Performs other i body s = refl

    list_suffixes-Performs :
        (method : Method) (i : ℕ) (body : Option Text) (s : Server f Bytes)
        → Performs f Bytes fails is_cidr json saving
            (suffix_edits method body (some i))
            s
            (handle_list_suffixes f Bytes saving json.names json.lists method i body s)
    unfolding handle_list_suffixes add_list_suffix remove_list_suffix
    list_suffixes-Performs get i body s = elim (Option-cases (get_list_rules s.config (pos i))) [
      | inl e ↦ rw e refl
      | inr (r, e) ↦ rw e refl
    ]
    list_suffixes-Performs post i body s =
        with_lines-IsPerformed f Bytes saving _ (λ t. Call.in_list (pos i) (ListEdit.add_suffix t))
          (λ t x. inl refl) body s
    list_suffixes-Performs delete i body s =
        with_lines-IsPerformed f Bytes saving _
          (λ t. Call.in_list (pos i) (ListEdit.remove_suffix t)) (λ t x. inl refl) body s
    list_suffixes-Performs other i body s = refl

    pub resolved-Performs :
        (method : Method) (parts : List Text) (body : Option Text) (s : Server f Bytes)
        → Performs f Bytes fails is_cidr json saving
            (list_edits method body s.config parts)
            s
            (Lists.resolved f Bytes saving json.names json.lists method parts body s)
    resolved-Performs method [] body s = refl
    resolved-Performs method (name ∷ []) body s = refl
    resolved-Performs method (name ∷ resource ∷ more ∷ parts) body s = refl
    resolved-Performs method (name ∷ resource ∷ []) body s =
        elim (Bool-cases (text_eq resource (codes "domains"))) [
          | inl d ↦ elim (Option-cases (find_list_index name (get_ipset_lists s.config))) [
            | inl e ↦ rw (d, e) refl
            | inr (i, e) ↦ rw (d, e) (rw d (list_domains-Performs method i body s))
          ]
          | inr d ↦ elim (Bool-cases (text_eq resource (codes "suffixes"))) [
            | inr n ↦ rw (d, n) refl
            | inl n ↦ elim (Option-cases (find_list_index name (get_ipset_lists s.config))) [
              | inl e ↦ rw (d, n, e) refl
              | inr (i, e) ↦ rw (d, n, e) (rw d (list_suffixes-Performs method i body s))
            ]
          ]
        ]

    with_list-Performs :
        (edit : ℕ → NetListConfig → Text → Served f Bytes → Served f Bytes) (k : ℕ → Text → Call)
        (free : (i : ℕ) (t : Text) → may_skip (k i t) ≡ true)
        (makes : (i : ℕ) (list : NetListConfig) → Makes f Bytes fails is_cidr (edit i list) (k i))
        (i : ℕ) (body : Option Text) (s : Server f Bytes) (o : Option NetListConfig)
        → Performs f Bytes fails is_cidr json saving
            (calls_for (k i) body)
            s
            (with_list f Bytes fails is_cidr saving json.names json.net_lists edit i body s o)
    with_list-Performs edit k free makes i none s o = refl
    with_list-Performs edit k free makes i (some body) s none =
        IsPerformed-none (k i) (entries (split body 10)) s.config (free i)
    with_list-Performs edit k free makes i (some body) s (some list) =
        with_lines-IsPerformed f Bytes saving (edit i list) (k i) (makes i list) (some body) s

    cidrs-Performs :
        (method : Method) (i : ℕ) (body : Option Text) (s : Server f Bytes)
        → Performs f Bytes fails is_cidr json saving (cidr_edits method body (some i)) s (
            handle_net_list_cidrs f Bytes fails is_cidr saving json.names json.net_lists method i
              body s)
    unfolding handle_net_list_cidrs
    cidrs-Performs get i body s = elim (Option-cases (get_net_list_cidrs s.config (pos i))) [
      | inl e ↦ rw e refl
      | inr (r, e) ↦ rw e refl
    ]
    cidrs-Performs post i body s =
        with_list-Performs (add_cidr f Bytes fails is_cidr) (λ i. Call.add_cidr (pos i))
          (λ i t. refl) add_cidr-Makes i body s (get_elem? (get_net_lists s.config) i)
    cidrs-Performs delete i body s =
        with_list-Performs (remove_cidr f Bytes fails is_cidr) (λ i. Call.remove_cidr (pos i))
          (λ i t. refl) remove_cidr-Makes i body s (get_elem? (get_net_lists s.config) i)
    cidrs-Performs other i body s = refl

    pub resolved_net-Performs :
        (method : Method) (parts : List Text) (body : Option Text) (s : Server f Bytes)
        → Performs f Bytes fails is_cidr json saving (net_list_edits method body s.config parts) s (
            NetLists.resolved f Bytes fails is_cidr saving json.names json.net_lists method parts
              body s)
    resolved_net-Performs method [] body s = refl
    resolved_net-Performs method (name ∷ []) body s = refl
    resolved_net-Performs method (name ∷ resource ∷ more ∷ parts) body s = refl
    resolved_net-Performs method (name ∷ resource ∷ []) body s =
        elim (Bool-cases (text_eq resource (codes "cidrs"))) [
          | inr unknown ↦ rw unknown refl
          | inl known ↦ elim (Option-cases (find_net_list_index name (get_net_lists s.config))) [
            | inl e ↦ rw (known, e) refl
            | inr (i, e) ↦ rw (known, e) (cidrs-Performs method i body s)
          ]
        ]
