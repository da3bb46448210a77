-- ===== src/Api/Routes/Service.antt =====
-- The blocklist, through requests to the API.
use dns_box.Prelude.{Bool, Text, Option, none, some, List, ap}
use dns_box.Cache.FastCache.{FastCache}
use dns_box.Config.Save.{World}
use dns_box.Ipset.{Command}
use dns_box.Blocklist.{Sources, BlockList, force_refresh, update_urls}
use dns_box.Blocklist.Service.{IsLoadedBy}
use dns_box.Api.{Server, Saving}
use dns_box.Api.Shared.{refresh}
use dns_box.Api.Lists.{add_list_domain, remove_list_domain, add_list_suffix, remove_list_suffix}
use dns_box.Api.Routes.{ApiRequest, ApiJson, serve}
use dns_box.Api.Routes.Edits.{IsKept}
use dns_box.Api.Routes.Edits.Effects.{
  effects-add_domain, effects-remove_domain, effects-add_suffix, effects-remove_suffix,
  unsent-add_cidr, unsent-remove_cidr,
}
use dns_box.Api.Routes.Keeps.{serve-keeps}

module _ (f : FastCache) (Bytes : Type 0) (fails : Command → Bool) (is_cidr : Text → Bool)
    (u : Option (Sources × List Text)) where
  abbrev HasService : Server f Bytes → Type 0
  HasService s = IsLoadedBy f u s.block_list

  refresh-IsLoadedBy :
      (urls : List Text) (o : Option (BlockList f))
      → IsLoadedBy f u o
      → IsLoadedBy f u (refresh f Bytes urls o)
  unfolding update_urls force_refresh
  refresh-IsLoadedBy urls none h = tt
  refresh-IsLoadedBy urls (some b) h = h

  abbrev list_of : World Bytes × List Command × Option (BlockList f) → Option (BlockList f)
  list_of (world, sent, block_list) = block_list

  abbrev unsent_list : World Bytes × Option (BlockList f) → Option (BlockList f)
  unsent_list (world, block_list) = block_list

  edits-HasService :
      (saving : Saving f Bytes) → IsKept f Bytes fails is_cidr saving HasService (λ list. Unit {0})
  unfolding add_list_domain remove_list_domain add_list_suffix remove_list_suffix
  edits-HasService saving = record {
    saves = λ s h. h;
    domain_added = λ t x h. rw (ap list_of (effects-add_domain f Bytes t x)) h;
    domain_removed = λ t x h. rw (ap list_of (effects-remove_domain f Bytes t x)) h;
    suffix_added = λ t x h. rw (ap list_of (effects-add_suffix f Bytes t x)) h;
    suffix_removed = λ t x h. rw (ap list_of (effects-remove_suffix f Bytes t x)) h;
    url_added = λ t s h. refresh-IsLoadedBy _ s.block_list h;
    url_removed = λ t s h. refresh-IsLoadedBy _ s.block_list h;
    list_domain_added = λ i t x h. h;
    list_domain_removed = λ i t x h. h;
    list_suffix_added = λ i t x h. h;
    list_suffix_removed = λ i t x h. h;
    net_list_known = λ s i list h e. tt;
    cidr_added =
        λ i list t x q h. rw (ap unsent_list (unsent-add_cidr f Bytes fails is_cidr i list t x)) h;
    cidr_removed = λ i list t x q h.
        rw (ap unsent_list (unsent-remove_cidr f Bytes fails is_cidr i list t x)) h;
  }

  -- A request leaves the content of the service as it was.
  pub serve-IsLoadedBy :
      (json : ApiJson) (saving : Saving f Bytes) (r : ApiRequest) (s : Server f Bytes)
      → IsLoadedBy f u s.block_list
      → IsLoadedBy f u (serve f Bytes fails is_cidr json saving r s).server.block_list
  serve-IsLoadedBy json saving r s h =
      serve-keeps f Bytes fails is_cidr json saving HasService (λ list. Unit)
        (edits-HasService saving) r s h
