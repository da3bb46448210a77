-- ===== src/Api.antt =====
-- internal/api/handlers.go: the state that the handlers work on, the response writer of net/http, and
-- the frame that the handlers with a body share.
pub mod Keeps
pub mod Shared
pub mod Lists
pub mod NetLists
pub mod Routes
use dns_box.Prelude.{
  ℕ, Bool, true, false, Text, codes, Option, none, some, List, [], ◌∷◌, ◌++◌, split, trim_space,
  text_eq, if◌then◌else◌,
}
use dns_box.Cache.FastCache.{FastCache}
use dns_box.Cache.DomainCache.{DomainCache}
use dns_box.Config.{Config}
use dns_box.Config.Save.{Codec, Faults, World, SaveError, Result, ok, err, save_config}
use dns_box.Github
use dns_box.Ipset.{Command}
use dns_box.Blocklist.{BlockList}

pub data Method : Type 0 where
  get post delete other : Method

-- What has been sent. The first status that is written counts, and a body without one has 200.
-- A panic in a handler cuts the connection.
pub record Reply : Type 0 where
  pub status : Option ℕ
  pub body : List Text
  pub aborted : Bool

abbrev pub empty_reply : Reply
empty_reply = record { status = none; body = []; aborted = false }

abbrev pub first_status : Option ℕ → ℕ → Option ℕ
first_status none code = some code
first_status (some sent) code = some sent

unfoldable pub send : Text → ℕ → Reply → Reply
send text code r = record r { status = first_status r.status code; body = r.body ++ text ∷ [] }

-- w.Write
unfoldable pub write : Text → Reply → Reply
unfolding send
write text r = send text 200 r

-- http.Error
unfoldable pub http_error : Text → ℕ → Reply → Reply
unfolding send
http_error text code r = send text code r

unfoldable pub write_header : ℕ → Reply → Reply
write_header code r = record r { status = first_status r.status code }

module _ (f : FastCache) (Bytes : Type 0) where
  -- The configuration, the shared domain cache and those of the lists, in the order of their keys; the
  -- blocklist if there is one, the disk, and the commands that were sent to the ipsets.
  pub record Server : Type 0 where
    pub config : Config
    pub domain_cache : DomainCache f
    pub list_domain_caches : List (DomainCache f)
    pub block_list : Option (BlockList f)
    pub world : World Bytes
    pub sent : List Command

  pub record Served : Type 0 where
    pub server : Server
    pub reply : Reply

  -- What SaveConfig depends on: encoding/json, the faults of this save, GitHub, and GITHUB_TOKEN.
  pub record Saving : Type 0 where
    pub json : Codec Bytes
    pub faults : Faults Bytes
    pub api : Github.Api Bytes
    pub env : Text

  module _ (saving : Saving) where
    abbrev saved : (Reply → Reply) → Server → Reply → Result (Unit {0}) × World Bytes → Served
    saved answer s r (ok _, w) = record { server = record s { world = w }; reply = answer r }
    saved answer s r (err SaveError.upload_panicked, w) = record {
      server = record s { world = w };
      reply = record r { aborted = true };
    }
    saved answer s r (err _, w) = record {
      server = record s { world = w };
      reply = http_error (codes "Failed to save config") 500 r;
    }

    -- The server behind a save.
    abbrev pub after_save : Server → Server
    after_save s = record s {
      world = (save_config saving.json saving.faults saving.api s.config saving.env s.world).1;
    }

    -- The end of every handler that changes something: the save, and the answer to a success.
    unfoldable pub finish : (Reply → Reply) → Served → Served
    finish answer x =
        saved answer x.server x.reply (
          save_config saving.json saving.faults saving.api x.server.config saving.env
            x.server.world)

    -- The loop over the lines of a body; empty lines are skipped.
    unfoldable pub each_line : (Text → Served → Served) → List Text → Served → Served
    each_line edit [] x = x
    each_line edit (line ∷ lines) x =
        let trimmed = trim_space line in
        each_line edit lines (if text_eq trimmed [] then x else edit trimmed x)

    -- A handler with a body of lines; `none` is a body that cannot be read.
    unfoldable pub with_lines : (Text → Served → Served) → Option Text → Server → Served
    with_lines edit none s = record {
      server = s;
      reply = http_error (codes "failed to read body") 400 empty_reply;
    }
    with_lines edit (some body) s =
        finish (write (codes "ok"))
          (each_line edit (split body 10) (record { server = s; reply = empty_reply }))
