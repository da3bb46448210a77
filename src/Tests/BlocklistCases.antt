-- ===== src/Tests/BlocklistCases.antt =====
-- An update of the blocklists.
use dns_box.Prelude.{
  ℕ, Bool, true, false, Text, codes, Option, none, some, List, [], ◌∷◌, ◌≡◌, refl, ◌↔◌, text_eq,
  if◌then◌else◌,
}
use dns_box.Cache.FastCache.Assoc.{assoc, assoc-IsLossless}
use dns_box.Blocklist.{
  Body, Sources, BlockList, new_block_list, update_lists, is_blocked, force_refresh, update_urls,
  domain_of,
}
use dns_box.Blocklist.Laws.{IsNamed, is_blocked-update_lists}
use dns_box.Blocklist.Service.{update_of, take_forced}

abbrev body : Body
body = record {
  lines = codes "# comment" ∷ codes "  0.0.0.0 ads.example  # ads" ∷ codes "lonely" ∷ [];
  broken = false;
}

abbrev sources : Sources
sources = record {
  get = λ _. none;
  open_file = λ path. if text_eq path (codes "hosts") then some body else none;
}

abbrev service : BlockList assoc
service = new_block_list assoc (codes "hosts" ∷ codes "https://dead.example" ∷ [])

domain_of_test : domain_of (codes "  0.0.0.0 ads.example  # ads") ≡ some (codes "ads.example")
unfolding domain_of text_eq dns_box.Prelude.trim_space dns_box.Prelude.has_prefix
    dns_box.Prelude.fields
domain_of_test = refl

is_blocked_test :
    is_blocked assoc (update_lists assoc sources 7 service) (codes "ads.example") ≡ true
unfolding is_blocked update_lists dns_box.Cache.DomainCache.contains
    dns_box.Cache.FastCache.Assoc.find dns_box.Blocklist.load_sources new_block_list
    dns_box.Blocklist.read_source text_eq dns_box.Blocklist.load_lines domain_of
    dns_box.Prelude.trim_space dns_box.Prelude.has_prefix dns_box.Prelude.fields
    dns_box.Cache.DomainCache.add
is_blocked_test = refl

is_blocked-update_lists_example :
    (is_blocked assoc (update_lists assoc sources 7 service) (codes "ads.example") ≡ true)
    ↔ IsNamed sources (codes "ads.example") service.urls
is_blocked-update_lists_example =
    is_blocked-update_lists assoc assoc-IsLossless sources 7 service (codes "ads.example")

abbrev forced : BlockList assoc
forced = force_refresh assoc service

is_running : (forced.stopped ≡ false) × (forced.forced ≡ true)
unfolding force_refresh new_block_list
is_running = (refl, refl)

update_of_test :
    update_of assoc (take_forced sources 7 forced is_running.0 is_running.1)
    ≡ some (sources, service.urls)
unfolding update_of force_refresh
update_of_test = refl
