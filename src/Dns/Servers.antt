-- ===== src/Dns/Servers.antt =====
-- `getScheme` and `sortServers` of internal/dns/handler.go. net/url is the parameter `parse_scheme`:
-- the scheme of a URL, or `none` if it does not parse.
pub mod Sorted
use dns_box.Prelude.{
  ℕ, zero, suc, Bool, true, false, not, Text, codes, Option, none, some, List, [], ◌∷◌, length, ltb,
  if◌then◌else◌, has_prefix, contains_text, text_eq, ◌||◌,
}

abbrev scheme_or_empty : Option Text → Text
scheme_or_empty none = []
scheme_or_empty (some s) = s

unfoldable pub get_scheme : (Text → Option Text) → Text → Text
unfolding has_prefix contains_text
get_scheme parse_scheme server =
    if has_prefix server (codes "https://")
    then codes "https"
    else if has_prefix server (codes "tls://")
    then codes "tls"
    else if has_prefix server (codes "tcp://")
    then codes "tcp"
    else if has_prefix server (codes "udp://")
    then codes "udp"
    else if not (contains_text server (codes "://"))
    then codes "udp"
    else scheme_or_empty (parse_scheme server)

-- The map of priorities, with 99 for a key that is not in it.
unfoldable pub priority : Text → ℕ
unfolding text_eq
priority scheme =
    if text_eq scheme (codes "https") || text_eq scheme (codes "doh")
    then 0
    else if text_eq scheme (codes "tls") || text_eq scheme (codes "dot")
    then 1
    else if text_eq scheme (codes "tcp")
    then 2
    else if text_eq scheme (codes "udp")
    then 3
    else 99

module _ {A : Type 0} (rank : A → ℕ) where
  -- The inner loop: `x` stands at place i and the list behind it; each element of a lower rank takes
  -- the place i and leaves the old one behind.
  unfoldable pub exchange : A → List A → A × List A
  exchange x [] = (x, [])
  exchange x (y ∷ ys) =
      let lower = ltb (rank y) (rank x) in
      let (first, rest) = exchange (if lower then y else x) ys in
      (first, (if lower then x else y) ∷ rest)

  -- The outer loop, with the number of rounds that are left.
  unfoldable pub exchange_sort : ℕ → List A → List A
  exchange_sort zero xs = xs
  exchange_sort (suc n) [] = []
  exchange_sort (suc n) (x ∷ xs) = let (first, rest) = exchange x xs in first ∷ exchange_sort n rest

unfoldable pub server_rank : (Text → Option Text) → Text → ℕ
server_rank parse_scheme server = priority (get_scheme parse_scheme server)

unfoldable pub sort_servers : (Text → Option Text) → List Text → List Text
sort_servers parse_scheme servers =
    exchange_sort (server_rank parse_scheme) (length servers) servers
