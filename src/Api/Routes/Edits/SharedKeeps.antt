-- ===== src/Api/Routes/Edits/SharedKeeps.antt =====
-- Invariants of the handlers of /domains, /suffixes and /blocklist/urls.
use dns_box.Prelude.{Bool, Text, Option, none, some}
use dns_box.Cache.FastCache.{FastCache}
use dns_box.Config.{Config, NetListConfig}
use dns_box.Config.Rules.{add_block_list_url, remove_block_list_url}
use dns_box.Ipset.{Command}
use dns_box.Api.{Method, get, post, delete, other, write_header, Server, Served, Saving, with_lines}
use dns_box.Api.Keeps.{finish-keeps, with_lines-keeps}
use dns_box.Api.Shared.{handle_domains, handle_suffixes, handle_blocklist_urls, refresh, edit_url}
use dns_box.Api.Shared
use dns_box.Api.Lists.{}
use dns_box.Api.NetLists.{}
use dns_box.Api.Routes.{ApiJson}
use dns_box.Api.Routes.Edits.{IsKept}

module _ (f : FastCache) (Bytes : Type 0) (fails : Command → Bool) (is_cidr : Text → Bool) where
  module _ (json : ApiJson) (saving : Saving f Bytes) (P : Server f Bytes → Type 0)
      (Q : NetListConfig → Type 0) (k : IsKept f Bytes fails is_cidr saving P Q) where
    pub lines-keeps :
        (edit : Text → Served f Bytes → Served f Bytes)
        (keep : (t : Text) (x : Served f Bytes) → P x.server → P (edit t x).server)
        (body : Option Text) (s : Server f Bytes)
        → P s
        → P (with_lines f Bytes saving edit body s).server
    lines-keeps edit keep body s h = with_lines-keeps f Bytes saving P k.saves edit keep body s h

    pub handle_domains-keeps :
        (method : Method) (body : Option Text) (s : Server f Bytes)
        → P s
        → P (handle_domains f Bytes saving json.names method body s).server
    unfolding handle_domains
    handle_domains-keeps get body s h = h
    handle_domains-keeps post body s h =
        lines-keeps (Shared.add_domain f Bytes) k.domain_added body s h
    handle_domains-keeps delete body s h =
        lines-keeps (Shared.remove_domain f Bytes) k.domain_removed body s h
    handle_domains-keeps other body s h = h

    pub handle_suffixes-keeps :
        (method : Method) (body : Option Text) (s : Server f Bytes)
        → P s
        → P (handle_suffixes f Bytes saving json.names method body s).server
    unfolding handle_suffixes
    handle_suffixes-keeps get body s h = h
    handle_suffixes-keeps post body s h =
        lines-keeps (Shared.add_suffix f Bytes) k.suffix_added body s h
    handle_suffixes-keeps delete body s h =
        lines-keeps (Shared.remove_suffix f Bytes) k.suffix_removed body s h
    handle_suffixes-keeps other body s h = h

    edit_url-keeps :
        (edit : Config → Text → Config)
        (keep : (t : Text) (s : Server f Bytes)
          → P s
          → P (record s {
            config = edit s.config t;
            block_list = refresh f Bytes (edit s.config t).block_list.urls s.block_list;
          }))
        (url : Option Text) (s : Server f Bytes)
        → P s
        → P (edit_url f Bytes saving json.names edit url s).server
    edit_url-keeps edit keep none s h = h
    edit_url-keeps edit keep (some url) s h =
        finish-keeps f Bytes saving P k.saves (write_header 204) _ (keep url s h)

    pub handle_blocklist_urls-keeps :
        (method : Method) (url : Option Text) (s : Server f Bytes)
        → P s
        → P (handle_blocklist_urls f Bytes saving json.names method url s).server
    unfolding handle_blocklist_urls
    handle_blocklist_urls-keeps get url s h = h
    handle_blocklist_urls-keeps post url s h = edit_url-keeps add_block_list_url k.url_added url s h
    handle_blocklist_urls-keeps delete url s h =
        edit_url-keeps remove_block_list_url k.url_removed url s h
    handle_blocklist_urls-keeps other url s h = h
