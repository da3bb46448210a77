-- ===== src/Config/Load.antt =====
-- `LoadConfig` and `LoadConfigFromGitHub` (internal/config/config.go).
use dns_box.Prelude.{Text, Option, none, some, if◌then◌else◌}
use dns_box.Github.{Api, Outcome, load_file, new_client}
use dns_box.Config.{Config, GithubConfig, HostsConfig, get_token}
use dns_box.Config.Disk.{Disk}
use dns_box.Config.Save.{SavedConfig, Codec}

module _ {Bytes : Type 0} (json : Codec Bytes) where
  -- `LoadConfig`: `none` is its error.
  abbrev pub loaded : Text → Option SavedConfig → Option Config
  loaded path none = none
  loaded path (some s) = some (record {
    server = s.server;
    dns = s.dns;
    ipset = s.ipset;
    rules = s.rules;
    block_list = s.block_list;
    github_backup = s.github_backup;
    path = path;
  })

  abbrev pub parsed : Text → Option Bytes → Option Config
  parsed path none = none
  parsed path (some content) = loaded path (json.decode content)

  unfoldable pub load_config : Disk Bytes → Text → Option Config
  load_config d path = parsed path (d path)

  -- `LoadConfigFromGitHub`; `none` is any of its errors.
  abbrev parsed_hosts : Outcome Bytes → Option HostsConfig
  parsed_hosts (Outcome.ok content) = json.decode_hosts content
  parsed_hosts Outcome.failed = none
  parsed_hosts Outcome.panicked = none

  unfoldable pub load_config_from_github : Api Bytes → GithubConfig → Text → Option HostsConfig
  unfolding load_file get_token new_client
  load_config_from_github api g env =
      if g.enabled
      then parsed_hosts (
          load_file api (record {
            client = new_client (get_token g env);
            owner = g.owner;
            repo = g.repo;
            path = g.path;
            branch = g.branch;
          }))
      else none
