-- ===== src/Api/Routes/Reach.antt =====
-- Which handler a path of the form /ipset/{name}/{resource} reaches.
use mathlib.Core.List.{append_assoc}
use dns_box.Prelude.{
  ℕ, Bool, true, false, Text, codes, some, List, [], ◌∷◌, ◌++◌, ◌≡◌, ◌≢◌, refl, ◌∙◌, inl, inr,
  text_eq, has_prefix, arith, if◌then◌else◌, Bool-cases, ap,
}
use dns_box.Prelude.Strings.Laws.{text_eq_iff, text_eq_refl}
use dns_box.Api.Lists.{}
use dns_box.Api.Routes.{
  is_exact, Route, ipset_list, net_list, to, routes, fits, best, dispatch, ends_with_slash,
}
use dns_box.Api.Routes.Paths.{
  IsSegment, list_path, clean_path-list_path, text_eq-append_of_IsFree, has_prefix-append_of_IsFree,
  list_path-ends,
}

best-skip :
    (p : Text) (r : Route) (ps : List (Text × Route)) (path : Text)
    → fits p path ≡ false
    → best ((p, r) ∷ ps) path ≡ best ps path
unfolding best
best-skip p r ps path h = rw h refl

not-nil : (s : Text) → s ≢ [] → text_eq [] s ≡ false
unfolding text_eq
not-nil [] h = absurd (h refl)
not-nil (a ∷ s) h = refl

not-nil-append : (w s : Text) → w ≢ [] → text_eq [] (w ++ s) ≡ false
unfolding text_eq
not-nil-append [] s h = absurd (h refl)
not-nil-append (a ∷ w) s h = refl

slash_behind :
    (name tail : Text) → list_path name tail ++ (b'/' ∷ []) ≡ list_path name (tail ++ (b'/' ∷ []))
slash_behind name tail =
    ap (λ s. codes "/ipset/" ++ s) (append_assoc name (b'/' ∷ tail) (b'/' ∷ []))

append-not_nil : (s : Text) (c : ℕ) → s ++ (c ∷ []) ≢ []
append-not_nil [] c h = cc
append-not_nil (a ∷ s) c h = cc

-- The tests that `best` makes on the path.
module _ (name tail : Text) (n : IsSegment name) where
  abbrev path : Text
  path = list_path name tail

  not_lists : fits (codes "/ipset/lists") path ≡ false
  unfolding text_eq ends_with_slash
  not_lists = text_eq-append_of_IsFree (codes "lists") name tail b'/' (ground arith)

  not_net_lists : fits (codes "/ipset/net_lists") path ≡ false
  unfolding text_eq ends_with_slash
  not_net_lists = text_eq-append_of_IsFree (codes "net_lists") name tail b'/' (ground arith)

  best-subtrees :
      (b : Bool)
      → text_eq name (codes "net") ≡ b
      → best ((codes "/ipset/net/", net_list) ∷ (codes "/ipset/", ipset_list) ∷ []) path
        ≡ some (if b then (codes "/ipset/net/", net_list) else (codes "/ipset/", ipset_list))
  unfolding best ends_with_slash has_prefix
  best-subtrees true e =
      rw (has_prefix-append_of_IsFree (codes "net") name tail b'/' (ground arith) n.whole, e) refl
  best-subtrees false e =
      rw (has_prefix-append_of_IsFree (codes "net") name tail b'/' (ground arith) n.whole, e) refl

  best-list_path :
      best routes path
      ≡ some (
          if text_eq name (codes "net")
          then (codes "/ipset/net/", net_list)
          else (codes "/ipset/", ipset_list))
  unfolding routes ends_with_slash text_eq
  best-list_path =
      best-skip _ _ _ path refl
      ∙ (best-skip _ _ _ path refl
          ∙ (best-skip _ _ _ path refl
              ∙ (best-skip _ _ _ path not_lists
                  ∙ (best-skip _ _ _ path not_net_lists ∙ best-subtrees _ refl))))

  not_exact : tail ≢ [] → is_exact (best routes path) path ≡ false
  unfolding text_eq
  not_exact nonempty = elim (Bool-cases (text_eq name (codes "net"))) [
    | inl same ↦
        let e : name ≡ codes "net" = (text_eq_iff name (codes "net")).0 same in
        rw (best-list_path, same, e) (not-nil tail nonempty)
    | inr other ↦ rw (best-list_path, other) (not-nil-append name (b'/' ∷ tail) n.nonempty)
  ]

-- A path of two segments below /ipset/ is neither cleaned nor extended. It reaches the handler of the
-- net lists if the first segment is "net", whatever lists there are, and else that of the lists.
pub dispatch-list_path :
    (name resource : Text)
    → IsSegment name
    → IsSegment resource
    → dispatch (list_path name resource)
      ≡ to (if text_eq name (codes "net") then net_list else ipset_list)
unfolding dispatch
dispatch-list_path name resource n r =
    rw
      (
        clean_path-list_path name resource n r,
        text_eq_refl (list_path name resource),
        not_exact name resource n r.nonempty,
        slash_behind name resource,
        not_exact name (resource ++ (b'/' ∷ [])) n (append-not_nil resource b'/'),
        best-list_path name resource n,
        list_path-ends name resource r,
      )
      (ground arith)
