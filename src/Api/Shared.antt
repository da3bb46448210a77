-- ===== src/Api/Shared.antt =====
-- internal/api/handlers.go: the handlers of /domains, /suffixes and /blocklist/urls.
pub mod Keys
pub mod Synced
pub mod Edits
pub mod Removals
pub mod Race
pub mod Status
use dns_box.Prelude.{
  ℕ, Bool, true, false, Text, codes, Option, none, some, List, [], ◌∷◌, ◌++◌, if◌then◌else◌,
}
use dns_box.Cache.FastCache.{FastCache}
use dns_box.Cache.DomainCache.{DomainCache, contains, contains_suffix, remove}
use dns_box.Cache.DomainCache
use dns_box.Config.{Config}
use dns_box.Config.Rules
use dns_box.Blocklist.{BlockList, update_urls, force_refresh}
use dns_box.Api.{
  Method, get, post, delete, other, Reply, empty_reply, write, write_header, http_error, Server,
  Served, Saving, finish, with_lines,
}

module _ (f : FastCache) (Bytes : Type 0) where
  abbrev say : Text → Served f Bytes → Served f Bytes
  say text x = record x { reply = write text x.reply }

  abbrev change : Config → DomainCache f → Served f Bytes → Served f Bytes
  change cfg c x = record x { server = record x.server { config = cfg; domain_cache = c } }

  unfoldable pub add_domain : Text → Served f Bytes → Served f Bytes
  add_domain domain x =
      if contains f x.server.domain_cache domain
      then say (codes "domain " ++ domain ++ codes " exist\n") x
      else change (Rules.add_domain x.server.config domain)
          (DomainCache.add f x.server.domain_cache domain) x

  unfoldable pub remove_domain : Text → Served f Bytes → Served f Bytes
  remove_domain domain x =
      if contains f x.server.domain_cache domain
      then change (Rules.remove_domain x.server.config domain)
          (remove f x.server.domain_cache domain) x
      else say (codes "domain " ++ domain ++ codes " not found\n") x

  unfoldable pub add_suffix : Text → Served f Bytes → Served f Bytes
  add_suffix suffix x =
      if contains_suffix f x.server.domain_cache suffix
      then say (codes "suffix " ++ suffix ++ codes " exist\n") x
      else change (Rules.add_suffix x.server.config suffix)
          (DomainCache.add_suffix f x.server.domain_cache suffix) x

  -- The suffix is removed from the cache as it is written, without a dot put before it.
  unfoldable pub remove_suffix : Text → Served f Bytes → Served f Bytes
  remove_suffix suffix x =
      if contains_suffix f x.server.domain_cache suffix
      then change (Rules.remove_suffix x.server.config suffix)
          (remove f x.server.domain_cache suffix) x
      else say (codes "suffix " ++ suffix ++ codes " not found\n") x

  abbrev pub refresh : List Text → Option (BlockList f) → Option (BlockList f)
  refresh urls none = none
  refresh urls (some b) = some (force_refresh f (update_urls f b urls))

  -- `encode` is encoding/json on a slice of strings, which does not fail.
  module _ (saving : Saving f Bytes) (encode : List Text → Text) where
    abbrev show : List Text → Server f Bytes → Served f Bytes
    show names s = record { server = s; reply = write (encode names) empty_reply }

    abbrev refused : Server f Bytes → Served f Bytes
    refused s = record {
      server = s;
      reply = http_error (codes "Method not allowed") 405 empty_reply;
    }

    unfoldable pub handle_domains : Method → Option Text → Server f Bytes → Served f Bytes
    handle_domains get body s = show s.config.rules.domains s
    handle_domains post body s = with_lines f Bytes saving add_domain body s
    handle_domains delete body s = with_lines f Bytes saving remove_domain body s
    handle_domains other body s = refused s

    unfoldable pub handle_suffixes : Method → Option Text → Server f Bytes → Served f Bytes
    handle_suffixes get body s = show s.config.rules.domain_suffix s
    handle_suffixes post body s = with_lines f Bytes saving add_suffix body s
    handle_suffixes delete body s = with_lines f Bytes saving remove_suffix body s
    handle_suffixes other body s = refused s

    -- The running blocklist gets the new addresses, and is told to load them.
    abbrev with_urls : Config → Server f Bytes → Served f Bytes
    with_urls cfg s = finish f Bytes saving (write_header 204) (record {
      server = record s { config = cfg; block_list = refresh cfg.block_list.urls s.block_list };
      reply = empty_reply;
    })

    abbrev pub edit_url : (Config → Text → Config) → Option Text → Server f Bytes → Served f Bytes
    edit_url edit none s = record {
      server = s;
      reply = http_error (codes "Invalid request body") 400 empty_reply;
    }
    edit_url edit (some url) s = with_urls (edit s.config url) s

    -- The payload is the decoded field `url`, or `none` if the body does not decode.
    unfoldable pub handle_blocklist_urls : Method → Option Text → Server f Bytes → Served f Bytes
    handle_blocklist_urls get payload s = show s.config.block_list.urls s
    handle_blocklist_urls post payload s = edit_url Rules.add_block_list_url payload s
    handle_blocklist_urls delete payload s = edit_url Rules.remove_block_list_url payload s
    handle_blocklist_urls other payload s = refused s
