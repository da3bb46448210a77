-- ===== src/Blocklist/Laws.antt =====
-- Which domains an update blocks.
use dns_box.Prelude.{
  ℕ, true, Text, Option, none, some, List, [], ◌∷◌, ◌≡◌, ◌⊎◌, inl, inr, ◌↔◌, arith, text_eq, Any,
}
use dns_box.Prelude.Strings.Laws.{text_eq_iff}
use dns_box.Cache.FastCache.{FastCache, IsLossless}
use dns_box.Cache.DomainCache.{DomainCache, new_domain_cache, contains}
use dns_box.Cache.DomainCache.Laws.{contains-new_domain_cache, contains-add, contains-add_sound}
use dns_box.Blocklist.{
  Body, Sources, read_source, domain_of, BlockList, add_domain, load_lines, load_body, load_sources,
  update_lists, is_blocked,
}

-- A body of which some line names the domain.
abbrev pub BodyNames : Text → Option Body → Type 0
BodyNames domain none = ⊥
BodyNames domain (some body) = Any (λ line. domain_of line ≡ some domain) body.lines

-- Some source, as it was read, names the domain.
abbrev pub IsNamed : Sources → Text → List Text → Type 0
IsNamed sources domain = Any (λ url. BodyNames domain (read_source sources url))

module _ (f : FastCache) where
  add_domain_sound :
      (o : Option Text) (c : DomainCache f) (domain : Text)
      → contains f (add_domain f o c) domain ≡ true
      → (o ≡ some domain) ⊎ (contains f c domain ≡ true)
  add_domain_sound none c domain h = inr h
  add_domain_sound (some d) c domain h = elim (contains-add_sound f c d domain h) [
    | inl same ↦ inl cc
    | inr old ↦ inr old
  ]

  load_lines_sound :
      (c : DomainCache f) (lines : List Text) (domain : Text)
      → contains f (load_lines f c lines) domain ≡ true
      → Any (λ line. domain_of line ≡ some domain) lines ⊎ (contains f c domain ≡ true)
  unfolding load_lines
  load_lines_sound c [] domain h = inr h
  load_lines_sound c (line ∷ lines) domain h =
      elim (load_lines_sound (add_domain f (domain_of line) c) lines domain h) [
        | inl later ↦ inl (inr later)
        | inr before ↦ elim (add_domain_sound (domain_of line) c domain before) [
          | inl here ↦ inl (inl here)
          | inr old ↦ inr old
        ]
      ]

  load_body_sound :
      (o : Option Body) (c : DomainCache f) (n : ℕ) (domain : Text)
      → contains f (load_body f o (c, n)).0 domain ≡ true
      → BodyNames domain o ⊎ (contains f c domain ≡ true)
  load_body_sound none c n domain h = inr h
  load_body_sound (some body) c n domain h = load_lines_sound c body.lines domain h

  load_sources_sound :
      (sources : Sources) (acc : DomainCache f × ℕ) (urls : List Text) (domain : Text)
      → contains f (load_sources f sources acc urls).0 domain ≡ true
      → IsNamed sources domain urls ⊎ (contains f acc.0 domain ≡ true)
  unfolding load_sources
  load_sources_sound sources acc [] domain h = inr h
  load_sources_sound sources acc (url ∷ urls) domain h =
      elim (load_sources_sound sources (load_body f (read_source sources url) acc) urls domain h) [
        | inl later ↦ inl (inr later)
        | inr before ↦ elim (load_body_sound (read_source sources url) acc.0 acc.1 domain before) [
          | inl here ↦ inl (inl here)
          | inr old ↦ inr old
        ]
      ]

  -- After an update a domain is blocked only if some source that was read by this update names it,
  -- also where the cache evicts entries: nothing stays from the lists before.
  update_lists_sound :
      (sources : Sources) (now : ℕ) (b : BlockList f) (domain : Text)
      → is_blocked f (update_lists f sources now b) domain ≡ true
      → IsNamed sources domain b.urls
  unfolding update_lists is_blocked
  update_lists_sound sources now b domain h =
      elim (load_sources_sound sources (new_domain_cache f 1000000, 0) b.urls domain h) [
        | inl named ↦ named
        | inr old ↦ absurd (cc (old, contains-new_domain_cache f 1000000 domain))
      ]

  module _ (l : IsLossless f) where
    add_domain_keeps :
        (o : Option Text) (c : DomainCache f) (domain : Text)
        → contains f c domain ≡ true
        → contains f (add_domain f o c) domain ≡ true
    add_domain_keeps none c domain h = h
    add_domain_keeps (some d) c domain h = ground (arith, contains-add f l c d domain)

    load_lines_keeps :
        (c : DomainCache f) (lines : List Text) (domain : Text)
        → contains f c domain ≡ true
        → contains f (load_lines f c lines) domain ≡ true
    unfolding load_lines
    load_lines_keeps c [] domain h = h
    load_lines_keeps c (line ∷ lines) domain h =
        load_lines_keeps (add_domain f (domain_of line) c) lines domain
          (add_domain_keeps (domain_of line) c domain h)

    add_domain_adds :
        (o : Option Text) (c : DomainCache f) (domain : Text)
        → o ≡ some domain
        → contains f (add_domain f o c) domain ≡ true
    add_domain_adds none c domain h = cc
    add_domain_adds (some d) c domain h =
        let same : text_eq d domain ≡ true = (text_eq_iff d domain).1 cc in
        ground (arith, contains-add f l c d domain)

    load_lines_complete :
        (c : DomainCache f) (lines : List Text) (domain : Text)
        → Any (λ line. domain_of line ≡ some domain) lines
        → contains f (load_lines f c lines) domain ≡ true
    unfolding load_lines
    load_lines_complete c [] domain h = absurd h
    load_lines_complete c (line ∷ lines) domain (inl here) =
        load_lines_keeps (add_domain f (domain_of line) c) lines domain
          (add_domain_adds (domain_of line) c domain here)
    load_lines_complete c (line ∷ lines) domain (inr later) =
        load_lines_complete (add_domain f (domain_of line) c) lines domain later

    load_body_keeps :
        (o : Option Body) (c : DomainCache f) (n : ℕ) (domain : Text)
        → contains f c domain ≡ true
        → contains f (load_body f o (c, n)).0 domain ≡ true
    load_body_keeps none c n domain h = h
    load_body_keeps (some body) c n domain h = load_lines_keeps c body.lines domain h

    load_sources_keeps :
        (sources : Sources) (acc : DomainCache f × ℕ) (urls : List Text) (domain : Text)
        → contains f acc.0 domain ≡ true
        → contains f (load_sources f sources acc urls).0 domain ≡ true
    unfolding load_sources
    load_sources_keeps sources acc [] domain h = h
    load_sources_keeps sources acc (url ∷ urls) domain h =
        load_sources_keeps sources (load_body f (read_source sources url) acc) urls domain
          (load_body_keeps (read_source sources url) acc.0 acc.1 domain h)

    load_body_complete :
        (o : Option Body) (c : DomainCache f) (n : ℕ) (domain : Text)
        → BodyNames domain o
        → contains f (load_body f o (c, n)).0 domain ≡ true
    load_body_complete none c n domain h = absurd h
    load_body_complete (some body) c n domain h = load_lines_complete c body.lines domain h

    load_sources_complete :
        (sources : Sources) (acc : DomainCache f × ℕ) (urls : List Text) (domain : Text)
        → IsNamed sources domain urls
        → contains f (load_sources f sources acc urls).0 domain ≡ true
    unfolding load_sources
    load_sources_complete sources acc [] domain h = absurd h
    load_sources_complete sources acc (url ∷ urls) domain (inl here) =
        load_sources_keeps sources (load_body f (read_source sources url) acc) urls domain
          (load_body_complete (read_source sources url) acc.0 acc.1 domain here)
    load_sources_complete sources acc (url ∷ urls) domain (inr later) =
        load_sources_complete sources (load_body f (read_source sources url) acc) urls domain later

    update_lists_complete :
        (sources : Sources) (now : ℕ) (b : BlockList f) (domain : Text)
        → IsNamed sources domain b.urls
        → is_blocked f (update_lists f sources now b) domain ≡ true
    unfolding update_lists is_blocked
    update_lists_complete sources now b domain h =
        load_sources_complete sources (new_domain_cache f 1000000, 0) b.urls domain h

    -- With a cache that loses nothing, the blocked domains after an update are exactly those that a
    -- line of a source names: of a file that opens, or of an HTTP source that answers with 200.
    pub is_blocked-update_lists :
        (sources : Sources) (now : ℕ) (b : BlockList f) (domain : Text)
        → (is_blocked f (update_lists f sources now b) domain ≡ true)
          ↔ IsNamed sources domain b.urls
    is_blocked-update_lists sources now b domain =
        (update_lists_sound sources now b domain, update_lists_complete sources now b domain)
