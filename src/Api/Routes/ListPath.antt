-- ===== src/Api/Routes/ListPath.antt =====
-- A request to /ipset/{name}/domains or /ipset/{name}/suffixes, from its path to its handler.
use dns_box.Prelude.{
  ℕ, zero, suc, Bool, Text, codes, Option, some, List, [], ◌∷◌, ◌++◌, ◌≡◌, ◌≢◌, refl, ◌∙◌, text_eq,
  has_prefix, arith, ap, trim_prefix, split,
}
use dns_box.Prelude.Strings.Laws.{ne→text_eq, text_eq_refl, split-append, split_of_IsFree}
use dns_box.Cache.FastCache.{FastCache}
use dns_box.Config.{IpSetListConfig, get_ipset_lists}
use dns_box.Ipset.{Command}
use dns_box.Api.{Method, Server, Saving}
use dns_box.Api.Lists.{
  find_list_index, handle_list_domains, handle_list_suffixes, handle_ipset_list,
}
use dns_box.Api.Routes.{ApiJson, serve, handle}
use dns_box.Api.Routes.Reach.{dispatch-list_path}
use dns_box.Api.Routes.Paths.{IsSegment, list_path}

-- The list at the index is the first one of the name.
abbrev pub IsFirst : Text → List IpSetListConfig → ℕ → Type 0
IsFirst name [] i = ⊥
IsFirst name (l ∷ ls) zero = l.name ≡ name
IsFirst name (l ∷ ls) (suc i) = (l.name ≢ name) × IsFirst name ls i

find_list_index-IsFirst :
    (name : Text) (ls : List IpSetListConfig) (i : ℕ)
    → IsFirst name ls i
    → find_list_index name ls ≡ some i
unfolding find_list_index
find_list_index-IsFirst name (l ∷ ls) zero h = rw h (rw (text_eq_refl name) refl)
find_list_index-IsFirst name (l ∷ ls) (suc i) (other, h) =
    rw (ne→text_eq l.name name other, find_list_index-IsFirst name ls i h) refl
find_list_index-IsFirst name [] i h = elim h [ ]

domains-IsSegment : IsSegment (codes "domains")
domains-IsSegment = record {
  nonempty = λ e. cc;
  not_here = λ e. cc;
  not_parent = λ e. cc;
  whole = ground arith;
}

suffixes-IsSegment : IsSegment (codes "suffixes")
suffixes-IsSegment = record {
  nonempty = λ e. cc;
  not_here = λ e. cc;
  not_parent = λ e. cc;
  whole = ground arith;
}

trim-list_path :
    (name resource : Text)
    → trim_prefix (list_path name resource) (codes "/ipset/") ≡ name ++ (b'/' ∷ resource)
unfolding trim_prefix has_prefix
trim-list_path name resource = refl

split-name :
    (name resource : Text)
    → IsSegment name
    → IsSegment resource
    → split (name ++ (b'/' ∷ resource)) b'/' ≡ name ∷ resource ∷ []
split-name name resource n r =
    split-append name resource b'/' n.whole ∙ ap (◌∷◌ name) (split_of_IsFree resource b'/' r.whole)

module _ (f : FastCache) (Bytes : Type 0) (fails : Command → Bool) (is_cidr : Text → Bool)
    (json : ApiJson) (saving : Saving f Bytes) where
  -- A request to /ipset/{name}/domains or /ipset/{name}/suffixes is served by the handler of the
  -- domains or of the suffixes, at the index of the first list of that name. The name is not "net".
  pub serve-list_path :
      (m : Method) (name : Text) (body : Option Text) (s : Server f Bytes) (i : ℕ)
      → IsSegment name
      → name ≢ codes "net"
      → IsFirst name (get_ipset_lists s.config) i
      → (serve f Bytes fails is_cidr json saving
            (record { method = m; path = list_path name (codes "domains"); body = body })
            s
          ≡ handle_list_domains f Bytes saving json.names json.lists m i body s)
        × (serve f Bytes fails is_cidr json saving
              (record { method = m; path = list_path name (codes "suffixes"); body = body })
              s
            ≡ handle_list_suffixes f Bytes saving json.names json.lists m i body s)
  unfolding serve handle handle_ipset_list
  serve-list_path m name body s i n other first = (
    rw
        (
          dispatch-list_path name (codes "domains") n domains-IsSegment,
          ne→text_eq name (codes "net") other,
          trim-list_path name (codes "domains"),
          split-name name (codes "domains") n domains-IsSegment,
          find_list_index-IsFirst name (get_ipset_lists s.config) i first,
        )
        (unfold text_eq in refl),
    rw
        (
          dispatch-list_path name (codes "suffixes") n suffixes-IsSegment,
          ne→text_eq name (codes "net") other,
          trim-list_path name (codes "suffixes"),
          split-name name (codes "suffixes") n suffixes-IsSegment,
          find_list_index-IsFirst name (get_ipset_lists s.config) i first,
        )
        (unfold text_eq in refl),
  )
