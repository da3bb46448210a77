-- ===== src/Process/Disk.antt =====
-- The file of the configuration while the program runs.
use mathlib.Core.Option.{some-injective}
use dns_box.Config.Disk.{Disk, Snapshot, IsAfterCrash}
use dns_box.Prelude.{
  Bool, true, false, List, [], ◌∷◌, All, refl, subst, none, sym, Text, Option, some, ◌≡◌, ap,
}
use dns_box.Cache.FastCache.{FastCache}
use dns_box.Cache.DnsCache.{RrCodec}
use dns_box.Config.{Config}
use dns_box.Config.Mutators.Frame.{Frame}
use dns_box.Config.Save.{SavedConfig, Codec}
use dns_box.Config.Load.{load_config, loaded}
use dns_box.Dns.Message.{Rr}
use dns_box.Api.Routes.Calls.{IsCalled}
use dns_box.Api.Routes.Ready.{frame_of_IsCalled}
use dns_box.Api.Routes.Disk.{Loads, LoadsIf, AlwaysLoads, save_config-AlwaysLoads, serve-LoadsFrom}
use dns_box.Process.{Process, Outside, Reach}
use dns_box.Process.Keeps.{IsKept, Reach-keeps}

loaded-path :
    {Bytes : Type 0} (json : Codec Bytes) (path : Text) (o : Option SavedConfig) (c : Config)
    → loaded json path o ≡ some c
    → c.path ≡ path
loaded-path json path none c e = cc
loaded-path json path (some s) c e = ap (λ (c : Config). c.path) (sym (some-injective _ _ e))

-- A configuration that was loaded keeps where it was loaded from.
pub load_config-path :
    {Bytes : Type 0} (json : Codec Bytes) (path : Text) (file : Option Bytes) (c : Config)
    → load_config json (λ _. file) path ≡ some c
    → c.path ≡ path
unfolding load_config
load_config-path json path none c e = cc
load_config-path json path (some content) c e = loaded-path json path (json.decode content) c e

-- Whatever a failure of the power leaves, the file can be loaded.
abbrev pub LoadsAfterCrash : {Bytes : Type 0} → Codec Bytes → Text → Snapshot Bytes → Type 0
LoadsAfterCrash {Bytes = Bytes} json path t =
    (d : Disk Bytes) → IsAfterCrash t d → Loads json path (d path)

module _ (Bytes : Type 0) (json : Codec Bytes)
    (round : (s : SavedConfig) → json.decode (json.encode s) ≡ some s) (path : Text) where
  abbrev Good : Bool → Snapshot Bytes → Type 0
  Good strict t = LoadsIf Bytes json round strict path (t.unsynced path) (t.disk path)

  pub All-LoadsIf :
      (ts : List (Snapshot Bytes))
      → All (λ (t : Snapshot Bytes). Loads json path (t.disk path)) ts
      → All (Good false) ts
  All-LoadsIf [] h = tt
  All-LoadsIf (t ∷ ts) (loads, h) = ((loads, λ e. cc), All-LoadsIf ts h)

  pub All-Loads :
      (ts : List (Snapshot Bytes))
      → All (Good false) ts
      → All (λ (t : Snapshot Bytes). Loads json path (t.disk path)) ts
  All-Loads [] h = tt
  All-Loads (t ∷ ts) (good, h) = (good.0, All-Loads ts h)

  pub LoadsAfterCrash-of_LoadsIf : (t : Snapshot Bytes) → Good true t → LoadsAfterCrash json path t
  LoadsAfterCrash-of_LoadsIf t (loads, synced) d crash =
      subst (Loads json path) (sym (crash path (synced refl))) loads

  pub All-LoadsAfterCrash :
      (ts : List (Snapshot Bytes)) → All (Good true) ts → All (LoadsAfterCrash json path) ts
  All-LoadsAfterCrash [] h = tt
  All-LoadsAfterCrash (t ∷ ts) (good, h) =
      (LoadsAfterCrash-of_LoadsIf t good, All-LoadsAfterCrash ts h)

module _ (f : FastCache) (rr : RrCodec Rr) (Bytes : Type 0) (outside : Outside Bytes)
    (round : (s : SavedConfig) → outside.json.decode (outside.json.encode s) ≡ some s)
    (strict : Bool) where
  edits-LoadsFrom :
      (c : Config)
      → IsKept f rr Bytes outside
          (λ s. IsCalled c s.config × AlwaysLoads Bytes outside.json round strict c.path s.world)
  edits-LoadsFrom c = record {
    sent = λ commands s h. h;
    called = λ fails faults api env request s h.
        serve-LoadsFrom Bytes outside.json round strict f faults api env fails outside.is_cidr c
          outside.api_json request s h;
    refreshed = λ s b d at step h. h;
    saved = λ faults api env s (called, loads). (
      called,
      save_config-AlwaysLoads Bytes outside.json round strict faults api env s.config c.path s.world
          (ap (λ (fr : Frame). fr.path) (frame_of_IsCalled c s.config called)) loads,
    );
  }

  -- The configuration comes from the first one, and its file can always be loaded.
  abbrev pub IsLoadable : Config → Process f rr Bytes → Type 0
  IsLoadable c p =
      IsCalled c p.server.config × AlwaysLoads Bytes outside.json round strict c.path p.server.world

  pub Reach-IsLoadable :
      (c : Config) {p q : Process f rr Bytes}
      → Reach f rr Bytes outside p q
      → IsLoadable c p
      → IsLoadable c q
  Reach-IsLoadable c reach h =
      Reach-keeps f rr Bytes outside
        (λ s. IsCalled c s.config × AlwaysLoads Bytes outside.json round strict c.path s.world)
        (edits-LoadsFrom c) reach h
