-- ===== src/Blocklist.antt =====
-- internal/blocklist/blocklist.go: the service that loads the blocklists. An update reads every source
-- into a new cache and puts that in the place of the old one.
pub mod Laws
pub mod Service
use dns_box.Prelude.{
  ℕ, ◌+◌, Bool, true, false, ◌||◌, Text, codes, Option, none, some, List, [], ◌∷◌, text_eq,
  has_prefix, trim_space, fields, ◌==◌, if◌then◌else◌,
}
use dns_box.Cache.FastCache.{FastCache}
use dns_box.Cache.DomainCache.{DomainCache, new_domain_cache, contains}
use dns_box.Cache.DomainCache

-- What the scanner yields for a body: its lines, and whether it then fails.
pub record Body : Type 0 where
  pub lines : List Text
  pub broken : Bool

-- The sources: `get` is the HTTP client, with the status code, and `open_file` is os.Open.
pub record Sources : Type 0 where
  pub get : Text → Option (ℕ × Body)
  pub open_file : Text → Option Body

abbrev answered : Option (ℕ × Body) → Option Body
answered none = none
answered (some (status, body)) = if status == 200 then some body else none

unfoldable pub read_source : Sources → Text → Option Body
unfolding has_prefix
read_source sources url =
    if has_prefix url (codes "http://") || has_prefix url (codes "https://")
    then answered (sources.get url)
    else sources.open_file url

abbrev second : List Text → Option Text
second [] = none
second (w ∷ []) = none
second (w ∷ v ∷ ws) = some v

-- The domain in a line: its second word, unless it is a comment.
unfoldable pub domain_of : Text → Option Text
domain_of raw =
    let line = trim_space raw in
    if text_eq line [] || has_prefix line (codes "#") then none else second (fields line)

module _ (f : FastCache) where
  -- The fields of the service. `forced` is whether the channel `forceUpdate`, which holds one element,
  -- has it, and `stopped` whether the goroutine of `Start` has returned.
  pub record BlockList : Type 0 where
    pub urls : List Text
    pub blocked_domains : DomainCache f
    pub last_updated : Option ℕ
    pub total_domains : ℕ
    pub forced : Bool
    pub stopped : Bool

  unfoldable pub new_block_list : List Text → BlockList
  new_block_list urls = record {
    urls = urls;
    blocked_domains = new_domain_cache f 1000000;
    last_updated = none;
    total_domains = 0;
    forced = false;
    stopped = false;
  }

  abbrev pub add_domain : Option Text → DomainCache f → DomainCache f
  add_domain none c = c
  add_domain (some domain) c = DomainCache.add f c domain

  abbrev one_more : Option Text → ℕ → ℕ
  one_more none n = n
  one_more (some domain) n = n + 1

  -- The loop over the lines of one source.
  unfoldable pub load_lines : DomainCache f → List Text → DomainCache f
  load_lines c [] = c
  load_lines c (line ∷ lines) = load_lines (add_domain (domain_of line) c) lines

  unfoldable pub count_lines : ℕ → List Text → ℕ
  count_lines n [] = n
  count_lines n (line ∷ lines) = count_lines (one_more (domain_of line) n) lines

  -- The loop over the sources. A source whose reading fails leaves the domains of its first lines in
  -- the cache, but not in the total.
  abbrev load_body : Option Body → DomainCache f × ℕ → DomainCache f × ℕ
  load_body none (c, total) = (c, total)
  load_body (some body) (c, total) =
      (load_lines c body.lines, if body.broken then total else total + count_lines 0 body.lines)

  unfoldable pub load_sources : Sources → DomainCache f × ℕ → List Text → DomainCache f × ℕ
  load_sources sources acc [] = acc
  load_sources sources acc (url ∷ urls) =
      load_sources sources (load_body (read_source sources url) acc) urls

  unfoldable pub update_lists : Sources → ℕ → BlockList → BlockList
  update_lists sources now b =
      let (c, total) = load_sources sources (new_domain_cache f 1000000, 0) b.urls in
      record b { blocked_domains = c; total_domains = total; last_updated = some now }

  unfoldable pub is_blocked : BlockList → Text → Bool
  is_blocked b domain = contains f b.blocked_domains domain

  unfoldable pub force_refresh : BlockList → BlockList
  force_refresh b = record b { forced = true }

  unfoldable pub update_urls : BlockList → List Text → BlockList
  update_urls b urls = record b { urls = urls }

  unfoldable pub get_status : BlockList → Option ℕ × (ℕ × List Text)
  get_status b = (b.last_updated, (b.total_domains, b.urls))
