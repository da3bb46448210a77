-- ===== src/Github.antt =====
-- internal/github/client.go: a file in a repository, created or updated. The API behind
-- github.com/google/go-github is a parameter; the time limits are not modelled.
pub mod Laws
use dns_box.Prelude.{
  codes, ◌++◌, Bool, true, false, Text, Option, none, some, List, [], ◌∷◌, if◌then◌else◌,
}

-- A client, by the header `Authorization` of its requests: there is one if there is a token.
pub record Client : Type 0 where
  pub authorization : Option Text

-- `NewClient`, with what golang.org/x/oauth2 sends for a token without a type.
unfoldable pub new_client : Text → Client
new_client [] = record { authorization = none }
new_client (c ∷ token) = record { authorization = some (codes "Bearer " ++ (c ∷ token)) }

-- The client that is used, and where a file lies.
pub record Location : Type 0 where
  pub client : Client
  pub owner : Text
  pub repo : Text
  pub path : Text
  pub branch : Text

-- `Message`, `Content`, `SHA` and `Branch` of a write; a create sends no SHA.
pub data Write (Bytes : Type 0) : Type 0 where
  update_file : Location → Bytes → Text → Write Bytes
  create_file : Location → Bytes → Write Bytes

-- What GetContents gives: an error, no file (the path is a directory), or a file, whose SHA pointer
-- may be nil and whose content may not decode.
pub data Contents (Bytes : Type 0) : Type 0 where
  api_error : Contents Bytes
  no_file : Contents Bytes
  file : Option Text → Option Bytes → Contents Bytes

-- The remote side: what a read returns, and whether a write succeeds.
pub record Api (Bytes : Type 0) : Type 0 where
  pub get_contents : Location → Contents Bytes
  pub accepts : Write Bytes → Bool

-- The error of a call, or a crash on a nil pointer.
pub data Outcome (A : Type 0) : Type 0 where
  ok : A → Outcome A
  failed : Outcome A
  panicked : Outcome A

module _ {Bytes : Type 0} where
  -- A file whose SHA is empty is created again.
  abbrev choose : Location → Bytes → Text → Write Bytes
  choose l content [] = create_file l content
  choose l content (c ∷ sha) = update_file l content (c ∷ sha)

  -- The request that `SaveFile` sends after its read; `none` is the crash on a nil SHA.
  unfoldable pub save_request : Contents Bytes → Location → Bytes → Option (Write Bytes)
  save_request api_error l content = some (create_file l content)
  save_request no_file l content = some (create_file l content)
  save_request (file none body) l content = none
  save_request (file (some sha) body) l content = some (choose l content sha)

  abbrev send : Api Bytes → Option (Write Bytes) → Outcome (Write Bytes)
  send api none = panicked
  send api (some w) = if api.accepts w then ok w else failed

  -- The write that was made.
  unfoldable pub save_file : Api Bytes → Location → Bytes → Outcome (Write Bytes)
  unfolding save_request
  save_file api l content = send api (save_request (api.get_contents l) l content)

  abbrev content_of : Contents Bytes → Outcome Bytes
  content_of api_error = failed
  content_of no_file = failed
  content_of (file sha none) = failed
  content_of (file sha (some body)) = ok body

  unfoldable pub load_file : Api Bytes → Location → Outcome Bytes
  load_file api l = content_of (api.get_contents l)
