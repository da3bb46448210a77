-- ===== src/Api/Lists/Domains.antt =====
-- The cache of a list beside the rules of the list, after domains were posted to the
-- lists and deleted from them.
use mathlib.Core.Option
use dns_box.Prelude.{
  ℕ, zero, suc, true, Text, Option, none, some, List, [], ◌∷◌, ◌≡◌, refl, sym, ◌∙◌, inl, inr, arith,
  pos, ◌==◌, get_elem?, get_elem?-modify_ne, modify, Bool-cases, subst, if◌then◌else◌,
}
use dns_box.Cache.FastCache.{FastCache, IsLossless}
use dns_box.Cache.DomainCache.{DomainCache, contains}
use dns_box.Cache.DomainCache
use dns_box.Config.{RulesConfig, IpSetListConfig, get_list_rules}
use dns_box.Config.Rules.{rules_add_domain, rules_remove_domain}
use dns_box.Config.Lists.Laws.{ListEdit, get_list_rules-edit_list}
use dns_box.Api.{Server, Served, Saving, post, delete}
use dns_box.Api.Keeps.{with_lines-keeps, with_lines-keeps_where, AllLines}
use dns_box.Api.Shared.Synced.{IsSynced, add-IsSynced, remove-IsSynced}
use dns_box.Api.Shared.Keys.{IsPlain, In-rules_add_domain}
use dns_box.Api.Lists.{add_list_domain, remove_list_domain, handle_list_domains}

modify-inverse :
    {A : Type 0} (xs : List A) (i : ℕ) (g : A → A) (c : A)
    → get_elem? (modify xs i g) i ≡ some c
    → (b : A) × (get_elem? xs i ≡ some b) × (g b ≡ c)
modify-inverse [] i g c h = absurd cc
modify-inverse (x ∷ xs) zero g c h = (x, refl, cc)
modify-inverse (x ∷ xs) (suc i) g c h = modify-inverse xs i g c h

map-inverse :
    (e : RulesConfig → RulesConfig) (o : Option RulesConfig) (r : RulesConfig)
    → Option.map e o ≡ some r
    → (q : RulesConfig) × (o ≡ some q) × (e q ≡ r)
map-inverse e none r h = absurd cc
map-inverse e (some q) r h = (q, refl, cc)

-- A POST or a DELETE request for the domains of a list, by its index.
pub data ListDomains : Type 0 where
  posted deleted : ℕ → Option Text → ListDomains

-- What the request asks to delete has no leading dot.
abbrev IsPlainEdit : ListDomains → Type 0
IsPlainEdit (posted i body) = Unit
IsPlainEdit (deleted i body) = AllLines IsPlain body

module _ (f : FastCache) (Bytes : Type 0) (encode : List Text → Text)
    (encode_lists : List IpSetListConfig → Text) where
  abbrev serve_edit : Saving f Bytes → ListDomains → Server f Bytes → Server f Bytes
  serve_edit saving (posted i body) s =
      (handle_list_domains f Bytes saving encode encode_lists post i body s).server
  serve_edit saving (deleted i body) s =
      (handle_list_domains f Bytes saving encode encode_lists delete i body s).server

  -- The requests in their order, each with what its save meets.
  unfoldable pub edit_list_domains :
      List (Saving f Bytes × ListDomains) → Server f Bytes → Server f Bytes
  edit_list_domains [] s = s
  edit_list_domains ((saving, p) ∷ ps) s = edit_list_domains ps (serve_edit saving p s)

  abbrev pub ArePlain : List (Saving f Bytes × ListDomains) → Type 0
  ArePlain [] = Unit
  ArePlain ((saving, p) ∷ ps) = IsPlainEdit p × ArePlain ps

module _ (f : FastCache) (Bytes : Type 0) (l : IsLossless f) where
  -- The cache at every key holds the keys of the rules that are read at that index, and no other.
  pub record IsListSynced (s : Server f Bytes) : Type 0 where
    pub at :
        (k : ℕ) (c : DomainCache f) (r : RulesConfig)
        → get_elem? s.list_domain_caches k ≡ some c
        → get_list_rules s.config (pos k) ≡ some r
        → IsSynced f c r

  abbrev add_once : Text → DomainCache f → DomainCache f
  add_once d c = if contains f c d then c else DomainCache.add f c d

  -- A domain that the cache has is in the rules as a key; adding it to them makes no new key.
  add_once-IsSynced :
      (d : Text) (c : DomainCache f) (r : RulesConfig)
      → IsSynced f c r
      → IsSynced f (add_once d c) (rules_add_domain d r)
  add_once-IsSynced d c r h = elim (Bool-cases (contains f c d)) [
    | inl there ↦ rw there (record {
      has_keys = λ k. (
        (λ e. (In-rules_add_domain d k r).1 (inr ((h.has_keys k).0 e))),
        λ m. elim ((In-rules_add_domain d k r).0 m) [
          | inl same ↦ subst (λ x. contains f c x ≡ true) same there
          | inr old ↦ (h.has_keys k).1 old
        ],
      );
    })
    | inr new ↦ rw new (add-IsSynced f l c r d h)
  ]

  -- An edit of a cache and of its rules, at one index.
  edited-IsSynced :
      (g : DomainCache f → DomainCache f) (e : RulesConfig → RulesConfig)
      (kept : (c : DomainCache f) (r : RulesConfig) → IsSynced f c r → IsSynced f (g c) (e r))
      (i k : ℕ) (s : Server f Bytes) (c : DomainCache f) (r : RulesConfig)
      → IsListSynced s
      → get_elem? (modify s.list_domain_caches i g) k ≡ some c
      → (if i == k
          then Option.map e (get_list_rules s.config (pos k))
          else get_list_rules s.config (pos k))
        ≡ some r
      → IsSynced f c r
  edited-IsSynced g e kept i k s c r h ec er = elim (Bool-cases (i == k)) [
    | inl same ↦
        let here : i ≡ k = ground arith in
        let (b, eb, eg) = modify-inverse s.list_domain_caches k g c (rw here at ec) in
        let (q, eq, ee) = map-inverse e (get_list_rules s.config (pos k)) r (rw same at er) in
        rw (← eg, ← ee) (kept b q (h.at k b q eb eq))
    | inr other ↦
        h.at k c r
          (sym (get_elem?-modify_ne s.list_domain_caches i k g (λ p. absurd (ground arith))) ∙ ec)
          (rw other at er)
  ]

  add_list_domain-IsListSynced :
      (i : ℕ) (d : Text) (x : Served f Bytes)
      → IsListSynced x.server
      → IsListSynced (add_list_domain f Bytes i d x).server
  unfolding add_list_domain
  add_list_domain-IsListSynced i d x h = record {
    at = λ k c r ec er.
        edited-IsSynced (add_once d) (rules_add_domain d) (add_once-IsSynced d) i k x.server c r h
          ec
          (sym (get_list_rules-edit_list x.server.config (pos i) (pos k) (ListEdit.add_domain d))
            ∙ er);
  }

  remove_list_domain-IsListSynced :
      (i : ℕ) (d : Text)
      → IsPlain d
      → (x : Served f Bytes) → IsListSynced x.server
      → IsListSynced (remove_list_domain f Bytes i d x).server
  unfolding remove_list_domain
  remove_list_domain-IsListSynced i d plain x h = record {
    at = λ k c r ec er.
        edited-IsSynced (λ c. DomainCache.remove f c d) (rules_remove_domain d)
          (λ c r. remove-IsSynced f c r d plain) i k x.server c r h ec
          (sym (get_list_rules-edit_list x.server.config (pos i) (pos k) (ListEdit.remove_domain d))
            ∙ er);
  }

  module _ (encode : List Text → Text) (encode_lists : List IpSetListConfig → Text) where
    pub edit_list_domains-IsListSynced :
        (ps : List (Saving f Bytes × ListDomains)) (s : Server f Bytes)
        → ArePlain f Bytes encode encode_lists ps
        → IsListSynced s
        → IsListSynced (edit_list_domains f Bytes encode encode_lists ps s)
    unfolding edit_list_domains handle_list_domains
    edit_list_domains-IsListSynced [] s plain h = h
    edit_list_domains-IsListSynced ((saving, posted i body) ∷ ps) s (_, plain) h =
        edit_list_domains-IsListSynced ps _ plain (
          with_lines-keeps f Bytes saving IsListSynced (λ t k. record { at = k.at })
            (add_list_domain f Bytes i) (add_list_domain-IsListSynced i) body s h)
    edit_list_domains-IsListSynced ((saving, deleted i body) ∷ ps) s (lines, plain) h =
        edit_list_domains-IsListSynced ps _ plain (
          with_lines-keeps_where f Bytes saving IsListSynced (λ t k. record { at = k.at }) IsPlain
            (remove_list_domain f Bytes i) (remove_list_domain-IsListSynced i) body s lines h)
