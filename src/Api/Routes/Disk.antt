-- ===== src/Api/Routes/Disk.antt =====
-- The file of the configuration, through requests to the API.
use dns_box.Prelude.{Bool, true, false, Text, Option, some, List, ◌≡◌, refl, sym, ap, subst}
use dns_box.Cache.FastCache.{FastCache}
use dns_box.Config.{Config}
use dns_box.Config.Mutators.Frame.{Frame}
use dns_box.Config.Save.{SavedConfig, Codec, World, Faults, final_config, save_config}
use dns_box.Config.Load.{load_config, loaded}
use dns_box.Github.{Api}
use dns_box.Config.Save.Atomic.{AlwaysAt, save_config-AlwaysAt}
use dns_box.Ipset.{Command}
use dns_box.Blocklist.{BlockList}
use dns_box.Api.{Server, Saving}
use dns_box.Api.Lists.{add_list_domain, remove_list_domain, add_list_suffix, remove_list_suffix}
use dns_box.Api.Routes.{ApiRequest, ApiJson, serve}
use dns_box.Api.Routes.Edits.{IsKept}
use dns_box.Api.Routes.Edits.Effects.{
  effects-add_domain, effects-remove_domain, effects-add_suffix, effects-remove_suffix,
  unsent-add_cidr, unsent-remove_cidr,
}
use dns_box.Api.Routes.Keeps.{serve-keeps}
use dns_box.Api.Routes.Calls.{IsCalled, IsFrom, edits-IsFrom}
use dns_box.Api.Routes.Ready.{frame_of_IsCalled}

-- The file can be loaded.
abbrev pub Loads : {Bytes : Type 0} → Codec Bytes → Text → Option Bytes → Type 0
Loads json path file = (c : Config) × (load_config json (λ _. file) path ≡ some c)

-- `strict` is whether the file must be synced too.
module _ (Bytes : Type 0) (json : Codec Bytes)
    (round : (s : SavedConfig) → json.decode (json.encode s) ≡ some s) (strict : Bool) where
  abbrev pub LoadsIf : Text → Bool → Option Bytes → Type 0
  LoadsIf path unsynced file = Loads json path file × (strict ≡ true → unsynced ≡ false)

  -- The file at the path can be loaded now, and in every state that the disk has been in.
  abbrev pub AlwaysLoads : Text → World Bytes → Type 0
  AlwaysLoads path w = AlwaysAt path (LoadsIf path) w

  Loads-encode : (path : Text) (s : SavedConfig) → Loads json path (some (json.encode s))
  unfolding load_config
  Loads-encode path s =
      subst (λ (o : Option SavedConfig). (c : Config) × (loaded json path o ≡ some c))
        (sym (round s)) (_, refl)

  pub save_config-AlwaysLoads :
      (faults : Faults Bytes) (api : Api Bytes) (env : Text) (c : Config) (path : Text)
      (w : World Bytes)
      → c.path ≡ path
      → AlwaysLoads path w
      → AlwaysLoads path (save_config json faults api c env w).1
  save_config-AlwaysLoads faults api env c path w here =
      subst (λ p. AlwaysLoads p w → AlwaysLoads p (save_config json faults api c env w).1) here
        (save_config-AlwaysAt json faults api c env w (LoadsIf c.path)
          (Loads-encode c.path (final_config json c w.disk), λ e. refl))

  module _ (f : FastCache) (faults : Faults Bytes) (api : Api Bytes) (env : Text)
      (fails : Command → Bool) (is_cidr : Text → Bool) (c : Config) where
    abbrev pub saving : Saving f Bytes
    saving = record { json = json; faults = faults; api = api; env = env }

    -- The configuration comes from the first one, and the file can always be loaded.
    abbrev pub LoadsFrom : Server f Bytes → Type 0
    LoadsFrom s = IsCalled c s.config × AlwaysLoads c.path s.world

    calls : IsKept f Bytes fails is_cidr saving (IsFrom f Bytes fails is_cidr c) (λ list. Unit {0})
    calls = edits-IsFrom f Bytes fails is_cidr c saving

    abbrev world_of : World Bytes × List Command × Option (BlockList f) → World Bytes
    world_of (world, sent, block_list) = world

    abbrev unsent_world : World Bytes × Option (BlockList f) → World Bytes
    unsent_world (world, block_list) = world

    edits-LoadsFrom : IsKept f Bytes fails is_cidr saving LoadsFrom (λ list. Unit {0})
    unfolding add_list_domain remove_list_domain add_list_suffix remove_list_suffix
    edits-LoadsFrom = record {
      saves = λ s (h, loads). (
        h,
        save_config-AlwaysLoads faults api env s.config c.path s.world
            (ap (λ (fr : Frame). fr.path) (frame_of_IsCalled c s.config h)) loads,
      );
      domain_added = λ t x (h, loads).
          (calls.domain_added t x h, rw (ap world_of (effects-add_domain f Bytes t x)) loads);
      domain_removed = λ t x (h, loads).
          (calls.domain_removed t x h, rw (ap world_of (effects-remove_domain f Bytes t x)) loads);
      suffix_added = λ t x (h, loads).
          (calls.suffix_added t x h, rw (ap world_of (effects-add_suffix f Bytes t x)) loads);
      suffix_removed = λ t x (h, loads).
          (calls.suffix_removed t x h, rw (ap world_of (effects-remove_suffix f Bytes t x)) loads);
      url_added = λ t s (h, loads). (calls.url_added t s h, loads);
      url_removed = λ t s (h, loads). (calls.url_removed t s h, loads);
      list_domain_added = λ i t x (h, loads). (calls.list_domain_added i t x h, loads);
      list_domain_removed = λ i t x (h, loads). (calls.list_domain_removed i t x h, loads);
      list_suffix_added = λ i t x (h, loads). (calls.list_suffix_added i t x h, loads);
      list_suffix_removed = λ i t x (h, loads). (calls.list_suffix_removed i t x h, loads);
      net_list_known = λ s i list h e. tt;
      cidr_added = λ i list t x q (h, loads). (
        calls.cidr_added i list t x q h,
        rw (ap unsent_world (unsent-add_cidr f Bytes fails is_cidr i list t x)) loads,
      );
      cidr_removed = λ i list t x q (h, loads). (
        calls.cidr_removed i list t x q h,
        rw (ap unsent_world (unsent-remove_cidr f Bytes fails is_cidr i list t x)) loads,
      );
    }

    pub serve-LoadsFrom :
        (api_json : ApiJson) (r : ApiRequest) (s : Server f Bytes)
        → LoadsFrom s
        → LoadsFrom (serve f Bytes fails is_cidr api_json saving r s).server
    serve-LoadsFrom api_json r s h =
        serve-keeps f Bytes fails is_cidr api_json saving LoadsFrom (λ list. Unit) edits-LoadsFrom r
          s h
