-- ===== src/Api/NetLists.antt =====
-- internal/api/handlers.go: the handlers of /ipset/net_lists and /ipset/net/{name}/cidrs.
use dns_box.Prelude.{
  ℕ, zero, suc, Bool, Text, codes, Option, none, some, List, [], ◌∷◌, ◌++◌, pos, get_elem?, split,
  trim_prefix, text_eq, if◌then◌else◌,
}
use dns_box.Cache.FastCache.{FastCache}
use dns_box.Config.{Config, NetListConfig, get_net_lists, get_net_list_cidrs}
use dns_box.Config.Lists.{add_cidr_to_net_list, remove_cidr_from_net_list}
use dns_box.Ipset.{Command, add_element, remove_element}
use dns_box.Startup.Sets.{timeout_or_default}
use dns_box.Api.{
  Method, get, post, delete, other, empty_reply, write, http_error, Server, Served, Saving,
  with_lines,
}

unfoldable pub find_net_list_index : Text → List NetListConfig → Option ℕ
find_net_list_index name [] = none
find_net_list_index name (l ∷ ls) =
    let rest = find_net_list_index name ls in
    if text_eq l.name name then some zero else elim rest [ none ↦ none | some i ↦ some (suc i) ]

-- Which commands fail, and whether net.ParseCIDR accepts a text.
module _ (f : FastCache) (Bytes : Type 0) (fails : Command → Bool) (is_cidr : Text → Bool) where
  abbrev say : Text → Served f Bytes → Served f Bytes
  say text x = record x { reply = write text x.reply }

  -- A command that was sent, and what follows if it succeeds.
  abbrev sending : Command → Text → Config → Served f Bytes → Served f Bytes
  sending c problem cfg x =
      if fails c
      then say problem (record x { server = record x.server { sent = x.server.sent ++ c ∷ [] } })
      else record x { server = record x.server { sent = x.server.sent ++ c ∷ []; config = cfg } }

  -- The errors' own texts are left out of the replies.
  unfoldable pub add_cidr : ℕ → NetListConfig → Text → Served f Bytes → Served f Bytes
  add_cidr i list cidr x =
      if is_cidr cidr
      then sending (add_element list.name cidr (timeout_or_default list.timeout))
          (codes "error adding cidr " ++ cidr) (add_cidr_to_net_list x.server.config (pos i) cidr) x
      else say (codes "invalid cidr " ++ cidr) x

  unfoldable pub remove_cidr : ℕ → NetListConfig → Text → Served f Bytes → Served f Bytes
  remove_cidr i list cidr x =
      sending (remove_element list.name cidr) (codes "error removing cidr " ++ cidr)
        (remove_cidr_from_net_list x.server.config (pos i) cidr) x

  module _ (saving : Saving f Bytes) (encode : List Text → Text)
      (encode_net_lists : List NetListConfig → Text) where
    abbrev refuse : Text → ℕ → Server f Bytes → Served f Bytes
    refuse text code s = record { server = s; reply = http_error text code empty_reply }

    abbrev shown : Server f Bytes → Option (List Text) → Served f Bytes
    shown s none = refuse (codes "Net list not found") 404 s
    shown s (some cidrs) = record { server = s; reply = write (encode cidrs) empty_reply }

    -- The list is read after the body; `none` is an index out of range.
    abbrev pub with_list :
        (ℕ → NetListConfig → Text → Served f Bytes → Served f Bytes)
        → ℕ
        → Option Text
        → Server f Bytes
        → Option NetListConfig
        → Served f Bytes
    with_list edit i none s o = refuse (codes "failed to read body") 400 s
    with_list edit i (some body) s none = refuse (codes "Net list not found") 404 s
    with_list edit i (some body) s (some list) =
        with_lines f Bytes saving (edit i list) (some body) s

    unfoldable pub handle_net_list_cidrs :
        Method → ℕ → Option Text → Server f Bytes → Served f Bytes
    handle_net_list_cidrs get i body s = shown s (get_net_list_cidrs s.config (pos i))
    handle_net_list_cidrs post i body s =
        with_list add_cidr i body s (get_elem? (get_net_lists s.config) i)
    handle_net_list_cidrs delete i body s =
        with_list remove_cidr i body s (get_elem? (get_net_lists s.config) i)
    handle_net_list_cidrs other i body s = refuse (codes "Method not allowed") 405 s

    abbrev pub found : Method → Text → Option Text → Server f Bytes → Option ℕ → Served f Bytes
    found method name body s none = refuse (codes "Net list '" ++ name ++ codes "' not found") 404 s
    found method name body s (some i) = handle_net_list_cidrs method i body s

    abbrev pub resolved : Method → List Text → Option Text → Server f Bytes → Served f Bytes
    resolved method (name ∷ resource ∷ []) body s =
        if text_eq resource (codes "cidrs")
        then found method name body s (find_net_list_index name (get_net_lists s.config))
        else refuse (codes "Invalid resource. Expected 'cidrs'") 400 s
    resolved method [] body s =
        refuse (codes "Invalid path. Expected /ipset/net/{name}/cidrs") 400 s
    resolved method (name ∷ []) body s =
        refuse (codes "Invalid path. Expected /ipset/net/{name}/cidrs") 400 s
    resolved method (name ∷ resource ∷ more ∷ parts) body s =
        refuse (codes "Invalid path. Expected /ipset/net/{name}/cidrs") 400 s

    unfoldable pub handle_net_list : Method → Text → Option Text → Server f Bytes → Served f Bytes
    handle_net_list method path body s =
        resolved method (split (trim_prefix path (codes "/ipset/net/")) b'/') body s

    unfoldable pub handle_net_lists : Method → Server f Bytes → Served f Bytes
    handle_net_lists get s = record {
      server = s;
      reply = write (encode_net_lists (get_net_lists s.config)) empty_reply;
    }
    handle_net_lists post s = refuse (codes "Method not allowed") 405 s
    handle_net_lists delete s = refuse (codes "Method not allowed") 405 s
    handle_net_lists other s = refuse (codes "Method not allowed") 405 s
