-- ===== src/Config/Save.antt =====
-- `SaveConfig` (internal/config/config.go): the configuration is written to a
-- temporary file, which then replaces the old file, and the rules are copied to GitHub.
pub mod Atomic
pub mod Outcomes
use dns_box.Prelude.{
  ℕ, Bool, true, false, not, Text, codes, List, [], ◌∷◌, ◌++◌, Option, none, some, if◌then◌else◌,
}
use dns_box.Github.{Api, Location, Outcome, Write, save_file, new_client}
use dns_box.Config.{
  Config, ServerConfig, DnsConfig, IpSetConfig, RulesConfig, BlockListConfig, GithubConfig,
  HostsConfig, get_token, is_nonempty,
}
use dns_box.Config.Disk.{Disk, Unsynced, Snapshot, mark, rename_flag, write, rename}

-- The document that is encoded.
pub record SavedConfig : Type 0 where
  pub server : ServerConfig
  pub dns : DnsConfig
  pub ipset : IpSetConfig
  pub github_backup : GithubConfig
  pub rules : RulesConfig
  pub block_list : BlockListConfig

-- encoding/json on the two documents; `none` is its error.
pub record Codec (Bytes : Type 0) : Type 0 where
  pub encode : SavedConfig → Bytes
  pub decode : Bytes → Option SavedConfig
  pub encode_hosts : HostsConfig → Option Bytes
  pub decode_hosts : Bytes → Option HostsConfig

-- Which calls of the operating system fail in this save. `part` is what a failing encoder leaves in
-- the file, `empty` what a created file holds.
pub record Faults (Bytes : Type 0) : Type 0 where
  pub open_fails : Bool
  pub create_fails : Bool
  pub encode_fails : Bool
  pub sync_fails : Bool
  pub close_fails : Bool
  pub rename_fails : Bool
  pub remove_fails : Bool
  pub part : Bytes
  pub empty : Bytes

pub data SaveError : Type 0 where
  no_config_path open_failed create_failed encode_failed sync_failed close_failed : SaveError
  rename_failed marshal_failed upload_failed upload_panicked : SaveError

pub data Result (A : Type 0) : Type 0 where
  ok : A → Result A
  err : SaveError → Result A

-- The disk, which files are not synced, and every state of the two since the save began, the latest
-- first.
pub record World (Bytes : Type 0) : Type 0 where
  pub disk : Disk Bytes
  pub unsynced : Unsynced
  pub history : List (Snapshot Bytes)

-- `c.Path + ".tmp"`
unfoldable pub tmp_path : Config → Text
tmp_path c = c.path ++ codes ".tmp"

abbrev in_memory : Config → ServerConfig × DnsConfig × GithubConfig
in_memory c = (c.server, c.dns, c.github_backup)

abbrev decoded : Config → Option SavedConfig → ServerConfig × DnsConfig × GithubConfig
decoded c none = in_memory c
decoded c (some s) = (s.server, s.dns, s.github_backup)

-- What goes to GitHub: the lists, or the shared rules where there is no list.
unfoldable pub hosts_config : Config → HostsConfig
hosts_config c =
    if is_nonempty c.ipset.lists
    then record { domains = []; domain_suffix = []; ipset_lists = c.ipset.lists }
    else record {
      domains = c.rules.domains;
      domain_suffix = c.rules.domain_suffix;
      ipset_lists = [];
    }

unfoldable pub backup_location : Config → Text → Location
unfolding get_token new_client
backup_location c env = record {
  client = new_client (get_token c.github_backup env);
  owner = c.github_backup.owner;
  repo = c.github_backup.repo;
  path = c.github_backup.path;
  branch = c.github_backup.branch;
}

abbrev pub M : Type 0 → Type 0 → Type 0
M Bytes A = World Bytes → Result A × World Bytes

module _ {Bytes : Type 0} where
  abbrev continue : {A B : Type 0} → Result A → (A → M Bytes B) → M Bytes B
  continue (ok a) f w = f a w
  continue (err e) f w = (err e, w)

  infixl 5 ◌>>=◌ ◌>>◌
  abbrev pub ◌>>=◌ : {A B : Type 0} → M Bytes A → (A → M Bytes B) → M Bytes B
  ◌>>=◌ m f w = let (r, w') = m w in continue r f w'

  abbrev pub ◌>>◌ : {B : Type 0} → M Bytes (Unit {0}) → M Bytes B → M Bytes B
  m >> k = m >>= λ _. k

  abbrev pure : {A : Type 0} → A → M Bytes A
  pure a w = (ok a, w)

  abbrev raise : {A : Type 0} → SaveError → M Bytes A
  raise e w = (err e, w)

  -- A call that changes the disk, and which files are not synced.
  abbrev change : (Disk Bytes → Disk Bytes) → (Unsynced → Unsynced) → M Bytes (Unit {0})
  change f g w = (
    ok tt,
    record {
      disk = f w.disk;
      unsynced = g w.unsynced;
      history = record { disk = f w.disk; unsynced = g w.unsynced } ∷ w.history;
    },
  )

  abbrev check : Bool → SaveError → M Bytes (Unit {0})
  check fails e = if fails then raise e else pure tt

  -- A failure behind the creation of the temporary file removes it.
  check_or_remove : Faults Bytes → Bool → SaveError → Text → M Bytes (Unit {0})
  unfolding write mark
  check_or_remove f fails e tmp =
      if fails
      then (do
        change (λ d. if f.remove_fails then d else write d tmp none) (mark tmp true)
        raise e)
      else pure tt

  abbrev pub as_result : Outcome (Write Bytes) → Result (Unit {0})
  as_result (Outcome.ok _) = ok tt
  as_result Outcome.failed = err upload_failed
  as_result Outcome.panicked = err upload_panicked

  abbrev pub upload : Api Bytes → Location → Option Bytes → Result (Unit {0})
  upload api l none = err marshal_failed
  upload api l (some content) = as_result (save_file api l content)

  module _ (json : Codec Bytes) where
    abbrev from_file : Config → Option Bytes → ServerConfig × DnsConfig × GithubConfig
    from_file c none = in_memory c
    from_file c (some content) = decoded c (json.decode content)

    -- The static parts come from the file that is there, if it can be read and decoded.
    unfoldable pub static_parts : Config → Disk Bytes → ServerConfig × DnsConfig × GithubConfig
    static_parts c d = from_file c (d c.path)

    unfoldable pub final_config : Config → Disk Bytes → SavedConfig
    unfolding static_parts
    final_config c d = record {
      server = (static_parts c d).0;
      dns = (static_parts c d).1;
      ipset = c.ipset;
      github_backup = (static_parts c d).2;
      rules = c.rules;
      block_list = c.block_list;
    }

    -- The temporary file is created, filled, synced and closed, and then renamed.
    unfoldable pub write_file : Faults Bytes → Config → Bytes → M Bytes (Unit {0})
    unfolding write rename mark rename_flag tmp_path check_or_remove
    write_file f c content = do
      check f.create_fails create_failed
      change (λ d. write d (tmp_path c) (some f.empty)) (mark (tmp_path c) true)
      change (λ d. write d (tmp_path c) (some (if f.encode_fails then f.part else content)))
          (mark (tmp_path c) true)
      check_or_remove f f.encode_fails encode_failed (tmp_path c)
      check_or_remove f f.sync_fails sync_failed (tmp_path c)
      change (λ d. d) (mark (tmp_path c) false)
      check_or_remove f f.close_fails close_failed (tmp_path c)
      check_or_remove f f.rename_fails rename_failed (tmp_path c)
      change (λ d. rename d (tmp_path c) c.path) (rename_flag (tmp_path c) c.path)

    unfoldable pub backup : Api Bytes → Config → Text → M Bytes (Unit {0})
    backup api c env w =
        if c.github_backup.enabled
        then (upload api (backup_location c env) (json.encode_hosts (hosts_config c)), w)
        else (ok tt, w)

    unfoldable pub save_config : Faults Bytes → Api Bytes → Config → Text → M Bytes (Unit {0})
    unfolding write_file final_config backup
    save_config f api c env w =
        (do
          check (not (is_nonempty c.path)) no_config_path
          check f.open_fails open_failed
          write_file f c (json.encode (final_config c w.disk))
          backup api c env)
          w
