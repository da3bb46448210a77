-- ===== src/Api/Routes/Ready.antt =====
-- The sets that requests to the API add to.
use dns_box.Prelude.{
  ℕ, Bool, Text, Option, List, [], ◌∷◌, ◌≡◌, sym, ◌∙◌, ap, subst, inl, inr, In, Bool-cases, All-In,
  In-map,
}
use dns_box.Cache.FastCache.{FastCache}
use dns_box.Config.{Config, NetListConfig, get_net_lists}
use dns_box.Config.Save.{World}
use dns_box.Config.Mutators.Frame.{net_header, Frame, frame, frame-apply_all}
use dns_box.Ipset.{Command, add, del, add_element, remove_element}
use dns_box.Startup.Sets.{timeout_or_default}
use dns_box.Startup.Sets.Ready.{IsMade, HasMade, AddsToMade, IsReady, IsReady-append, IsMade-append}
use dns_box.Blocklist.{BlockList}
use dns_box.Api.{Server, Served, Saving}
use dns_box.Api.Lists.{add_list_domain, remove_list_domain, add_list_suffix, remove_list_suffix}
use dns_box.Api.NetLists.{add_cidr, remove_cidr}
use dns_box.Api.Routes.{ApiRequest, ApiJson, serve}
use dns_box.Api.Routes.Edits.{IsKept}
use dns_box.Api.Routes.Edits.Effects.{
  effects-add_domain, effects-remove_domain, effects-add_suffix, effects-remove_suffix,
}
use dns_box.Api.Routes.Keeps.{serve-keeps}
use dns_box.Api.Routes.Calls.{IsCalled, IsFrom, edits-IsFrom}

pub frame_of_IsCalled : (c d : Config) → IsCalled c d → frame d ≡ frame c
frame_of_IsCalled c d (ks, e) = sym (ap frame e) ∙ frame-apply_all c ks

AddsToMade-add :
    (name ip : Text) (timeout : ℕ) (sent : List Command)
    → IsMade name sent
    → AddsToMade (add name ip timeout ∷ []) sent
AddsToMade-add name ip timeout sent made n jp t (inl e) =
    let same : name ≡ n = cc in subst (λ x. IsMade x sent) same made
AddsToMade-add name ip timeout sent made n jp t (inr later) = elim later [ ]

AddsToMade-del : (name ip : Text) (sent : List Command) → AddsToMade (del name ip ∷ []) sent
AddsToMade-del name ip sent n jp t (inl e) = absurd cc
AddsToMade-del name ip sent n jp t (inr later) = elim later [ ]

module _ (f : FastCache) (Bytes : Type 0) where
  module _ (fails : Command → Bool) (is_cidr : Text → Bool) (c : Config) where
    -- The configuration comes from the first one, and all its sets are there.
    abbrev pub IsReadyFrom : Server f Bytes → Type 0
    IsReadyFrom s = IsCalled c s.config × IsReady (frame c) s.sent

    calls :
        (saving : Saving f Bytes)
        → IsKept f Bytes fails is_cidr saving (IsFrom f Bytes fails is_cidr c) (λ list. Unit {0})
    calls saving = edits-IsFrom f Bytes fails is_cidr c saving

    cidr_added :
        (i : ℕ) (list : NetListConfig) (t : Text) (x : Served f Bytes)
        → In (net_header list) (frame c).net_lists
        → IsReady (frame c) x.server.sent
        → IsReady (frame c) (add_cidr f Bytes fails is_cidr i list t x).server.sent
    unfolding add_cidr add_element
    cidr_added i list t x m ready = elim (Bool-cases (is_cidr t)) [
      | inr bad ↦ rw bad ready
      | inl good ↦
          let grown =
            IsReady-append (frame c) x.server.sent
              (add list.name t (timeout_or_default list.timeout) ∷ []) ready
              (AddsToMade-add list.name t _ _ (
                IsMade-append list.name x.server.sent _ (
                  (All-In (HasMade x.server.sent) (frame c).net_lists (net_header list) m
                    ready.1).0))) in
          elim (Bool-cases (fails (add list.name t (timeout_or_default list.timeout)))) [
            | inl failed ↦ rw (good, failed) grown
            | inr done ↦ rw (good, done) grown
          ]
    ]

    cidr_removed :
        (i : ℕ) (list : NetListConfig) (t : Text) (x : Served f Bytes)
        → IsReady (frame c) x.server.sent
        → IsReady (frame c) (remove_cidr f Bytes fails is_cidr i list t x).server.sent
    unfolding remove_cidr remove_element
    cidr_removed i list t x ready =
        let grown =
          IsReady-append (frame c) x.server.sent (del list.name t ∷ []) ready
            (AddsToMade-del list.name t _) in
        elim (Bool-cases (fails (del list.name t))) [
          | inl failed ↦ rw failed grown
          | inr done ↦ rw done grown
        ]

    abbrev sent_of : World Bytes × List Command × Option (BlockList f) → List Command
    sent_of (world, sent, block_list) = sent

    edits-IsReadyFrom :
        (saving : Saving f Bytes)
        → IsKept f Bytes fails is_cidr saving IsReadyFrom
            (λ list. In (net_header list) (frame c).net_lists)
    unfolding add_list_domain remove_list_domain add_list_suffix remove_list_suffix get_net_lists
    edits-IsReadyFrom saving = record {
      saves = λ s h. h;
      domain_added = λ t x (h, ready). (
        (calls saving).domain_added t x h,
        rw (ap sent_of (effects-add_domain f Bytes t x)) ready,
      );
      domain_removed = λ t x (h, ready). (
        (calls saving).domain_removed t x h,
        rw (ap sent_of (effects-remove_domain f Bytes t x)) ready,
      );
      suffix_added = λ t x (h, ready). (
        (calls saving).suffix_added t x h,
        rw (ap sent_of (effects-add_suffix f Bytes t x)) ready,
      );
      suffix_removed = λ t x (h, ready). (
        (calls saving).suffix_removed t x h,
        rw (ap sent_of (effects-remove_suffix f Bytes t x)) ready,
      );
      url_added = λ t s (h, ready). ((calls saving).url_added t s h, ready);
      url_removed = λ t s (h, ready). ((calls saving).url_removed t s h, ready);
      list_domain_added = λ i t x (h, ready). ((calls saving).list_domain_added i t x h, ready);
      list_domain_removed = λ i t x (h, ready). ((calls saving).list_domain_removed i t x h, ready);
      list_suffix_added = λ i t x (h, ready). ((calls saving).list_suffix_added i t x h, ready);
      list_suffix_removed = λ i t x (h, ready). ((calls saving).list_suffix_removed i t x h, ready);
      net_list_known = λ s i list (h, ready) e.
          subst (λ (fr : Frame). In (net_header list) fr.net_lists) (frame_of_IsCalled c s.config h)
            (In-map net_header s.config.ipset.net_lists i list e);
      cidr_added = λ i list t x m (h, ready).
          ((calls saving).cidr_added i list t x tt h, cidr_added i list t x m ready);
      cidr_removed = λ i list t x m (h, ready).
          ((calls saving).cidr_removed i list t x tt h, cidr_removed i list t x ready);
    }

    pub serve-IsReadyFrom :
        (json : ApiJson) (saving : Saving f Bytes) (r : ApiRequest) (s : Server f Bytes)
        → IsReadyFrom s
        → IsReadyFrom (serve f Bytes fails is_cidr json saving r s).server
    serve-IsReadyFrom json saving r s h =
        serve-keeps f Bytes fails is_cidr json saving IsReadyFrom _ (edits-IsReadyFrom saving) r s h
