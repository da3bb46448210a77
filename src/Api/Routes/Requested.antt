-- ===== src/Api/Routes/Requested.antt =====
-- The calls of the mutators of the configuration that a request to the API asks for.
pub mod SharedEdits
pub mod ListEdits
pub mod Serve
use dns_box.Prelude.{
  ℕ, Bool, true, false, Text, codes, Option, none, some, List, [], ◌∷◌, ◌≡◌, refl, ◌⊎◌, inl, inr,
  pos, map, split, trim_space, trim_prefix, text_eq, if◌then◌else◌, Bool-cases, subst,
}
use dns_box.Cache.FastCache.{FastCache}
use dns_box.Config.{Config, get_ipset_lists, get_net_lists}
use dns_box.Config.Lists.Laws.{ListEdit}
use dns_box.Config.Mutators.{Call, apply}
use dns_box.Config.Save.{World, Result, ok, err, SaveError}
use dns_box.Api.{
  Method, get, post, delete, other, Reply, Server, Served, Saving, finish, saved, each_line,
  with_lines, write,
}
use dns_box.Api.Keeps.{finish-keeps}
use dns_box.Api.Lists.{find_list_index}
use dns_box.Api.NetLists.{find_net_list_index}
use dns_box.Api.Routes.{
  Route, domains, suffixes, blocklist_urls, ipset_lists, net_lists, net_list, ipset_list,
  Dispatched, redirected, not_found, to, dispatch, ApiRequest, ApiJson,
}

-- The entries of a body: its lines, trimmed, without the empty ones.
abbrev pub entries : List Text → List Text
entries [] = []
entries (line ∷ lines) =
    let rest = entries lines in
    if text_eq (trim_space line) [] then rest else trim_space line ∷ rest

abbrev pub calls_for : (Text → Call) → Option Text → List Call
calls_for k none = []
calls_for k (some body) = map k (entries (split body 10))

-- POST adds and DELETE removes each entry of the body; another method asks for nothing.
abbrev pub edits : (Text → Call) → (Text → Call) → Method → Option Text → List Call
edits add remove post body = calls_for add body
edits add remove delete body = calls_for remove body
edits add remove get body = []
edits add remove other body = []

-- The same for the one address in a payload.
abbrev pub url_edits : Method → Option Text → List Call
url_edits method none = []
url_edits post (some url) = Call.add_block_list_url url ∷ []
url_edits delete (some url) = Call.remove_block_list_url url ∷ []
url_edits get (some url) = []
url_edits other (some url) = []

-- The edits of the list of that index.
abbrev pub domain_edits : Method → Option Text → Option ℕ → List Call
domain_edits method body none = []
domain_edits method body (some i) =
    edits (λ t. Call.in_list (pos i) (ListEdit.add_domain t))
      (λ t. Call.in_list (pos i) (ListEdit.remove_domain t)) method body

abbrev pub suffix_edits : Method → Option Text → Option ℕ → List Call
suffix_edits method body none = []
suffix_edits method body (some i) =
    edits (λ t. Call.in_list (pos i) (ListEdit.add_suffix t))
      (λ t. Call.in_list (pos i) (ListEdit.remove_suffix t)) method body

abbrev pub cidr_edits : Method → Option Text → Option ℕ → List Call
cidr_edits method body none = []
cidr_edits method body (some i) =
    edits (Call.add_cidr (pos i)) (Call.remove_cidr (pos i)) method body

-- `parts` are the segments behind /ipset/ or /ipset/net/: the name of a list and a resource.
abbrev pub list_edits : Method → Option Text → Config → List Text → List Call
list_edits method body c (name ∷ resource ∷ []) =
    if text_eq resource (codes "domains")
    then domain_edits method body (find_list_index name (get_ipset_lists c))
    else if text_eq resource (codes "suffixes")
    then suffix_edits method body (find_list_index name (get_ipset_lists c))
    else []
list_edits method body c _ = []

abbrev pub net_list_edits : Method → Option Text → Config → List Text → List Call
net_list_edits method body c (name ∷ resource ∷ []) =
    if text_eq resource (codes "cidrs")
    then cidr_edits method body (find_net_list_index name (get_net_lists c))
    else []
net_list_edits method body c _ = []

-- `url` is the address in the payload, and `c` the configuration that the lists are looked up in.
abbrev pub asked : ApiRequest → Option Text → Config → Dispatched → List Call
asked r url c (to domains) = edits Call.add_domain Call.remove_domain r.method r.body
asked r url c (to suffixes) = edits Call.add_suffix Call.remove_suffix r.method r.body
asked r url c (to blocklist_urls) = url_edits r.method url
asked r url c (to ipset_list) =
    list_edits r.method r.body c (split (trim_prefix r.path (codes "/ipset/")) b'/')
asked r url c (to net_list) =
    net_list_edits r.method r.body c (split (trim_prefix r.path (codes "/ipset/net/")) b'/')
asked r url c _ = []

abbrev pub url_of : ApiJson → Option Text → Option Text
url_of json none = none
url_of json (some body) = json.url body

-- The calls that a request asks for, in their order: by the route of its path, its method, and the
-- entries of its body.
abbrev pub requested : ApiJson → ApiRequest → Config → List Call
requested json r c = asked r (url_of json r.body) c (dispatch r.path)

-- A call that the handler may leave out: the domain cache knows the entry already, or the entry is no
-- network or its ipset does not take it. Calls for a list of rules or an address are never left out.
abbrev pub may_skip : Call → Bool
may_skip (Call.in_list i e) = false
may_skip (Call.add_block_list_url u) = false
may_skip (Call.remove_block_list_url u) = false
may_skip _ = true

-- The second configuration is what those calls make of the first, in their order, each made once or
-- left out where it may be.
abbrev pub IsPerformed : List Call → Config → Config → Type 0
IsPerformed [] c d = d ≡ c
IsPerformed (k ∷ ks) c d = IsPerformed ks (apply c k) d ⊎ ((may_skip k ≡ true) × IsPerformed ks c d)

-- An edit makes the call, or leaves it out.
abbrev pub MakesCall : Call → Config → Config → Type 0
MakesCall k c d = (d ≡ apply c k) ⊎ ((may_skip k ≡ true) × (d ≡ c))

IsPerformed-first :
    (k : Call) (ks : List Call) (c m d : Config)
    → MakesCall k c m
    → IsPerformed ks m d
    → IsPerformed (k ∷ ks) c d
IsPerformed-first k ks c m d (inl e) h = inl (subst (λ x. IsPerformed ks x d) e h)
IsPerformed-first k ks c m d (inr (free, e)) h = inr (free, subst (λ x. IsPerformed ks x d) e h)

-- All of them are left out.
pub IsPerformed-none :
    (k : Text → Call) (ts : List Text) (c : Config)
    → ((t : Text) → may_skip (k t) ≡ true)
    → IsPerformed (map k ts) c c
IsPerformed-none k [] c free = refl
IsPerformed-none k (t ∷ ts) c free = inr (free t, IsPerformed-none k ts c free)

module _ (f : FastCache) (Bytes : Type 0) (saving : Saving f Bytes)
    (edit : Text → Served f Bytes → Served f Bytes) (k : Text → Call)
    (makes : (t : Text) (x : Served f Bytes)
      → MakesCall (k t) x.server.config (edit t x).server.config) where
  each_line-IsPerformed :
      (lines : List Text) (x : Served f Bytes)
      → IsPerformed
          (map k (entries lines))
          x.server.config
          (each_line f Bytes saving edit lines x).server.config
  unfolding each_line
  each_line-IsPerformed [] x = refl
  each_line-IsPerformed (line ∷ lines) x =
      after (text_eq (trim_space line) []) (each_line-IsPerformed lines x)
        (each_line-IsPerformed lines (edit (trim_space line) x))
    where
      after :
          (b : Bool)
          → IsPerformed
              (map k (entries lines))
              x.server.config
              (each_line f Bytes saving edit lines x).server.config
          → IsPerformed
              (map k (entries lines))
              (edit (trim_space line) x).server.config
              (each_line f Bytes saving edit lines (edit (trim_space line) x)).server.config
          → IsPerformed
              (map k (if b then entries lines else trim_space line ∷ entries lines))
              x.server.config
              (each_line f Bytes saving edit lines
                (if b then x else edit (trim_space line) x)).server.config
      after true blank full = blank
      after false blank full =
          IsPerformed-first (k (trim_space line)) (map k (entries lines)) _ _ _
            (makes (trim_space line) x) full

  -- A handler with a body of lines performs the calls for its entries.
  pub with_lines-IsPerformed :
      (body : Option Text) (s : Server f Bytes)
      → IsPerformed
          (calls_for k body)
          s.config
          (with_lines f Bytes saving edit body s).server.config
  unfolding with_lines
  with_lines-IsPerformed none s = refl
  with_lines-IsPerformed (some body) s =
      finish-keeps f Bytes saving
        (λ x. IsPerformed (map k (entries (split body 10))) s.config x.config) (λ x h. h)
        (write (codes "ok")) _ (each_line-IsPerformed (split body 10) _)
