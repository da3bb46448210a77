-- ===== src/Config/Save/Atomic.antt =====
-- The states that the disk passes through in `SaveConfig`, and what a restart loads from them.
use dns_box.Prelude.{
  Bool, false, Text, List, [], ◌∷◌, ◌++◌, Option, some, ◌≡◌, ◌≢◌, ◌⊎◌, inl, inr, refl, arith, All,
  text_eq, length, ◌∙◌, length-append, ap, codes,
}
use dns_box.Prelude.Strings.Laws.{ne→text_eq, text_eq_refl}
use dns_box.Github.{Api}
use dns_box.Config.{Config}
use dns_box.Config.Disk.{Disk, Snapshot, IsAfterCrash}
use dns_box.Config.Save.{
  Codec, Faults, World, tmp_path, final_config, static_parts, write_file, save_config,
}
use dns_box.Config.Load.{load_config}

append-ne : (s t : Text) → t ≢ [] → s ++ t ≢ s
append-ne s [] h e = h refl
append-ne s (x ∷ t) h e = absurd (omega (arith, ap length e, length-append s (x ∷ t)))

pub tmp_path-ne : (c : Config) → tmp_path c ≢ c.path
unfolding tmp_path
tmp_path-ne c = append-ne c.path (codes ".tmp") (λ e. cc)

pub tmp_path-eq_false : (c : Config) → text_eq (tmp_path c) c.path ≡ false
tmp_path-eq_false c = ne→text_eq _ _ (tmp_path-ne c)

module _ {Bytes : Type 0} where
  -- Every state that the disk has been in.
  abbrev pub Always : (Disk Bytes → Type 0) → World Bytes → Type 0
  Always P w = All (λ (s : Snapshot Bytes). P s.disk) w.history

  -- The file at the path is the old one or the whole new one.
  abbrev pub OldOrNew : Text → Option Bytes → Bytes → Disk Bytes → Type 0
  OldOrNew path old content d = (d path ≡ old) ⊎ (d path ≡ some content)

  -- And its content is synced.
  abbrev IsSafe : Text → Option Bytes → Bytes → Snapshot Bytes → Type 0
  IsSafe path old content s = (s.unsynced path ≡ false) × OldOrNew path old content s.disk

  write_file-IsSafe :
      (json : Codec Bytes) (f : Faults Bytes) (c : Config) (content : Bytes) (w : World Bytes)
      (old : Option Bytes)
      → w.disk c.path ≡ old
      → w.unsynced c.path ≡ false
      → All (IsSafe c.path old content) w.history
      → All (IsSafe c.path old content) (write_file json f c content w).1.history
  unfolding write_file
  write_file-IsSafe json f c content w old now synced past =
      ground (arith, tmp_path-eq_false c, text_eq_refl c.path, text_eq_refl (tmp_path c))

  -- What holds of the file at the path and of its flag, in every state and now.
  abbrev pub AlwaysAt : Text → (Bool → Option Bytes → Type 0) → World Bytes → Type 0
  AlwaysAt path L w =
      All (λ (s : Snapshot Bytes). L (s.unsynced path) (s.disk path)) w.history
      × L (w.unsynced path) (w.disk path)

  write_file-AlwaysAt :
      (json : Codec Bytes) (f : Faults Bytes) (c : Config) (content : Bytes) (w : World Bytes)
      (L : Bool → Option Bytes → Type 0)
      → L false (some content)
      → AlwaysAt c.path L w
      → AlwaysAt c.path L (write_file json f c content w).1
  unfolding write_file
  write_file-AlwaysAt json f c content w L new (past, old) =
      ground (arith, tmp_path-eq_false c, text_eq_refl c.path, text_eq_refl (tmp_path c))

  -- A save keeps what holds of the file, whatever its past is, if it holds of the new document, synced.
  pub save_config-AlwaysAt :
      (json : Codec Bytes) (f : Faults Bytes) (api : Api Bytes) (c : Config) (env : Text)
      (w : World Bytes) (L : Bool → Option Bytes → Type 0)
      → L false (some (json.encode (final_config json c w.disk)))
      → AlwaysAt c.path L w
      → AlwaysAt c.path L (save_config json f api c env w).1
  unfolding save_config
  save_config-AlwaysAt json f api c env w L new always = ground (
    arith,
    write_file-AlwaysAt json f c (json.encode (final_config json c w.disk)) w L new always,
  )

  -- The world in which a save begins, with all files synced.
  abbrev pub start : Disk Bytes → World Bytes
  start d = record {
    disk = d;
    unsynced = λ _. false;
    history = record { disk = d; unsynced = λ _. false } ∷ [];
  }

  module _ (json : Codec Bytes) (f : Faults Bytes) (api : Api Bytes) (c : Config) (env : Text)
      (d : Disk Bytes) where
    abbrev after_save : World Bytes
    after_save = (save_config json f api c env (start d)).1

    save_config-IsSafe :
        All (IsSafe c.path (d c.path) (json.encode (final_config json c d))) after_save.history
    unfolding save_config
    save_config-IsSafe = ground (
      arith,
      write_file-IsSafe json f c (json.encode (final_config json c d)) (start d) (d c.path) refl
          refl ((refl, inl refl), tt),
    )

    -- The configuration that is written: the one in memory, with the parts that the program never
    -- changes taken from the file.
    abbrev pub saved_config : Config
    saved_config = record c {
      server = (static_parts json c d).0;
      dns = (static_parts json c d).1;
      github_backup = (static_parts json c d).2;
    }

    load_new :
        (d' : Disk Bytes)
        → json.decode (json.encode (final_config json c d)) ≡ some (final_config json c d)
        → d' c.path ≡ some (json.encode (final_config json c d))
        → load_config json d' c.path ≡ some saved_config
    unfolding load_config final_config
    load_new d' round e = rw (e, round)

    load_old :
        (d' : Disk Bytes)
        → d' c.path ≡ d c.path
        → load_config json d' c.path ≡ load_config json d c.path
    unfolding load_config
    load_old d' e = rw e

    abbrev pub Recovers : Disk Bytes → Type 0
    Recovers d' =
        (load_config json d' c.path ≡ load_config json d c.path)
        ⊎ (load_config json d' c.path ≡ some saved_config)

    -- Whatever a failure of the power leaves of a state of the disk, a restart recovers.
    abbrev pub RecoversAfterCrash : Snapshot Bytes → Type 0
    RecoversAfterCrash s = (d' : Disk Bytes) → IsAfterCrash s d' → Recovers d'

    Recovers-of_OldOrNew :
        json.decode (json.encode (final_config json c d)) ≡ some (final_config json c d)
        → (s : Snapshot Bytes) (d' : Disk Bytes) → d' c.path ≡ s.disk c.path
        → OldOrNew c.path (d c.path) (json.encode (final_config json c d)) s.disk
        → Recovers d'
    Recovers-of_OldOrNew round s d' e (inl old) = inl (load_old d' (e ∙ old))
    Recovers-of_OldOrNew round s d' e (inr new) = inr (load_new d' round (e ∙ new))

    RecoversAfterCrash-of_IsSafe :
        json.decode (json.encode (final_config json c d)) ≡ some (final_config json c d)
        → (states : List (Snapshot Bytes))
        → All (IsSafe c.path (d c.path) (json.encode (final_config json c d))) states
        → All RecoversAfterCrash states
    RecoversAfterCrash-of_IsSafe round [] h = tt
    RecoversAfterCrash-of_IsSafe round (s ∷ states) ((synced, file), h) = (
      λ d' crash. Recovers-of_OldOrNew round s d' (crash c.path synced) file,
      RecoversAfterCrash-of_IsSafe round states h,
    )

    -- If the power fails in any state that a save passes through, whichever of its system calls fail,
    -- and leaves anything in the files that are not synced, then a restart loads what it would have
    -- loaded before the save, or the whole new configuration. The document that is written is one that
    -- decodes to itself, and all files are synced when the save begins.
    pub save_config-Recovers :
        json.decode (json.encode (final_config json c d)) ≡ some (final_config json c d)
        → All RecoversAfterCrash after_save.history
    save_config-Recovers round =
        RecoversAfterCrash-of_IsSafe round after_save.history save_config-IsSafe
