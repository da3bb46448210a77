-- ===== src/Api/Shared/Edits.antt =====
-- What the program routes after domains and suffixes were posted, and domains deleted.
use mathlib.Core.Bool.{or-true}
use dns_box.Prelude.{
  Bool, true, false, ◌||◌, ◌&&◌, Text, Option, List, [], ◌∷◌, ◌≡◌, refl, sym, ◌∙◌, ◌↔◌, inl, inr,
  arith, split, length, ltb, ltb→lt, lt→ltb, Bool-cases,
}
use dns_box.Cache.FastCache.{FastCache, IsLossless}
use dns_box.Cache.DomainCache.{DomainCache, dot, contains, contains_suffix}
use dns_box.Config.{Config, RulesConfig}
use dns_box.Config.Rules
use dns_box.Config.Save.{World}
use dns_box.Dns.Match.{question_name, matches}
use dns_box.Dns.Match.Laws.{two_label_key, matches-contains}
use dns_box.Startup.{domain_cache, list_domain_caches}
use dns_box.Startup.Routing.{IsRouted, fill_cache_sound, fill_cache_complete}
use dns_box.Blocklist.{BlockList}
use dns_box.Api.{Server, Served, Saving, post, delete}
use dns_box.Api.Keeps.{with_lines-keeps, with_lines-keeps_where, AllLines}
use dns_box.Api.Shared.{add_domain, remove_domain, add_suffix, handle_domains, handle_suffixes}
use dns_box.Api.Shared.Synced.{IsSynced, add-IsSynced, add_suffix-IsSynced, remove-IsSynced}
use dns_box.Api.Shared.Keys.{IsPlain}

-- A POST request for /domains or /suffixes, or a DELETE for /domains; `none` is a body that cannot be
-- read.
pub data Edit : Type 0 where
  posted_domains posted_suffixes deleted_domains : Option Text → Edit

-- What the request asks to delete has no leading dot.
abbrev pub IsPlainEdit : Edit → Type 0
IsPlainEdit (posted_domains body) = Unit
IsPlainEdit (posted_suffixes body) = Unit
IsPlainEdit (deleted_domains body) = AllLines IsPlain body

module _ (f : FastCache) (Bytes : Type 0) where
  abbrev IsSyncedServer : Server f Bytes → Type 0
  IsSyncedServer s = IsSynced f s.domain_cache s.config.rules

  module _ (encode : List Text → Text) where
    abbrev pub serve_edit : Saving f Bytes → Edit → Server f Bytes → Server f Bytes
    serve_edit saving (posted_domains body) s =
        (handle_domains f Bytes saving encode post body s).server
    serve_edit saving (posted_suffixes body) s =
        (handle_suffixes f Bytes saving encode post body s).server
    serve_edit saving (deleted_domains body) s =
        (handle_domains f Bytes saving encode delete body s).server

    -- The requests in their order, each with what its save meets.
    unfoldable pub serve_edits : List (Saving f Bytes × Edit) → Server f Bytes → Server f Bytes
    serve_edits [] s = s
    serve_edits ((saving, p) ∷ ps) s = serve_edits ps (serve_edit saving p s)

    abbrev pub ArePlain : List (Saving f Bytes × Edit) → Type 0
    ArePlain [] = Unit
    ArePlain ((saving, p) ∷ ps) = IsPlainEdit p × ArePlain ps

    -- The server as `run` starts it.
    abbrev pub started : Config → Option (BlockList f) → World Bytes → Server f Bytes
    started cfg block_list world = record {
      config = cfg;
      domain_cache = domain_cache f cfg;
      list_domain_caches = list_domain_caches f cfg;
      block_list = block_list;
      world = world;
      sent = [];
    }

    module _ (l : IsLossless f) where
      add_domain-server :
          (t : Text) (x : Served f Bytes)
          → IsSyncedServer x.server
          → IsSyncedServer (add_domain f Bytes t x).server
      unfolding add_domain Rules.add_domain
      add_domain-server t x h = elim (Bool-cases (contains f x.server.domain_cache t)) [
        | inl there ↦ rw there h
        | inr new ↦ rw new (add-IsSynced f l x.server.domain_cache x.server.config.rules t h)
      ]

      add_suffix-server :
          (t : Text) (x : Served f Bytes)
          → IsSyncedServer x.server
          → IsSyncedServer (add_suffix f Bytes t x).server
      unfolding add_suffix Rules.add_suffix
      add_suffix-server t x h = elim (Bool-cases (contains_suffix f x.server.domain_cache t)) [
        | inl there ↦ rw there h
        | inr new ↦ rw new (add_suffix-IsSynced f l x.server.domain_cache x.server.config.rules t h)
      ]

      remove_domain-server :
          (t : Text)
          → IsPlain t
          → (x : Served f Bytes) → IsSyncedServer x.server
          → IsSyncedServer (remove_domain f Bytes t x).server
      unfolding remove_domain Rules.remove_domain
      remove_domain-server t plain x h = elim (Bool-cases (contains f x.server.domain_cache t)) [
        | inl there ↦
            rw there (remove-IsSynced f x.server.domain_cache x.server.config.rules t plain h)
        | inr new ↦ rw new h
      ]

      serve_edit-server :
          (saving : Saving f Bytes) (p : Edit) (s : Server f Bytes)
          → IsPlainEdit p
          → IsSyncedServer s
          → IsSyncedServer (serve_edit saving p s)
      unfolding handle_domains handle_suffixes
      serve_edit-server saving (posted_domains body) s plain h =
          with_lines-keeps f Bytes saving IsSyncedServer (λ s h. h) (add_domain f Bytes)
            add_domain-server body s h
      serve_edit-server saving (posted_suffixes body) s plain h =
          with_lines-keeps f Bytes saving IsSyncedServer (λ s h. h) (add_suffix f Bytes)
            add_suffix-server body s h
      serve_edit-server saving (deleted_domains body) s plain h =
          with_lines-keeps_where f Bytes saving IsSyncedServer (λ s h. h) IsPlain
            (remove_domain f Bytes) remove_domain-server body s plain h

      serve_edits-server :
          (ps : List (Saving f Bytes × Edit)) (s : Server f Bytes)
          → ArePlain ps
          → IsSyncedServer s
          → IsSyncedServer (serve_edits ps s)
      unfolding serve_edits
      serve_edits-server [] s plain h = h
      serve_edits-server ((saving, p) ∷ ps) s (plain, more) h =
          serve_edits-server ps (serve_edit saving p s) more (serve_edit-server saving p s plain h)

      started-server :
          (cfg : Config) (block_list : Option (BlockList f)) (world : World Bytes)
          → IsSyncedServer (started cfg block_list world)
      unfolding domain_cache
      started-server cfg block_list world = record {
        has_keys = λ k. (fill_cache_sound f _ cfg.rules k, fill_cache_complete f l _ cfg.rules k);
      }

      pub matches_iff :
          (c : DomainCache f) (r : RulesConfig) (question : Text)
          → IsSynced f c r
          → (matches f c question ≡ true) ↔ IsRouted r question
      matches_iff c r question h = (to, from)
        where
          go :
              (b : Bool)
              → contains f c (question_name question) ≡ b
              → (b
                  || (ltb 1 (length (split (question_name question) dot))
                      && contains f c (two_label_key (split (question_name question) dot))))
                ≡ true
              → IsRouted r question
          go true e p = inl ((h.has_keys (question_name question)).0 e)
          go false e p = inr (
            ltb→lt _ _ (ground arith),
            (h.has_keys (two_label_key (split (question_name question) dot))).0 (ground arith),
          )

          to : matches f c question ≡ true → IsRouted r question
          to e =
              go (contains f c (question_name question)) refl
                (sym (matches-contains f c question) ∙ e)

          from : IsRouted r question → matches f c question ≡ true
          from (inl m) = rw (matches-contains, (h.has_keys (question_name question)).1 m) refl
          from (inr (two, m)) =
              rw
                (
                  matches-contains,
                  lt→ltb _ _ two,
                  (h.has_keys (two_label_key (split (question_name question) dot))).1 m,
                )
                (or-true _)

      -- However many domains and suffixes have been posted and domains deleted since the start, and
      -- whatever their saves have met, the shared domain cache selects a question exactly if the shared
      -- rules that are then in the configuration route it. The cache loses nothing, and no domain that
      -- is to be deleted has a leading dot.
      pub matches-serve_edits :
          (cfg : Config) (block_list : Option (BlockList f)) (world : World Bytes)
          (ps : List (Saving f Bytes × Edit)) (question : Text)
          → ArePlain ps
          → (matches f (serve_edits ps (started cfg block_list world)).domain_cache question ≡ true)
            ↔ IsRouted (serve_edits ps (started cfg block_list world)).config.rules question
      matches-serve_edits cfg block_list world ps question plain = matches_iff _ _ question (
          serve_edits-server ps (started cfg block_list world) plain
            (started-server cfg block_list world))
