-- ===== src/Tests/CacheCases.antt =====
-- The answer cache, the TTLs and the domain caches.
use dns_box.Prelude.{
  ℕ, zero, suc, ◌+◌, ◌<◌, ◌≤◌, ◌^◌, Bool, true, false, ◌||◌, ◌&&◌, Text, codes, Option, none, some,
  List, [], ◌∷◌, ◌≡◌, ◌≢◌, refl, ◌⊎◌, ◌↔◌, inl, inr, arith, length, ltb, split, get_elem?,
  if◌then◌else◌, In, text_eq,
}
use dns_box.Prelude.Strings.Laws.{text_eq→ne}
use dns_box.Cache.FastCache.Assoc.{assoc, assoc-IsLossless}
use dns_box.Cache.DnsCache.{returned, DnsCache, get, set}
use dns_box.Cache.DnsCache.Decode.{packable}
use dns_box.Cache.DnsCache.Laws.{get-set}
use dns_box.Cache.DnsCache.Readable.{IsReadable}
use dns_box.Cache.DomainCache.{DomainCache, dot, dotted, add_suffix, contains, new_domain_cache}
use dns_box.Config.{IpSetListConfig, get_ipset_lists}
use dns_box.Dns.Ttl.{normalize_ttl}
use dns_box.Dns.Match.{question_name, matches, is_domain_in_list}
use dns_box.Dns.Match.Laws.{two_label_key, matches-contains}
use dns_box.Dns.Match.LongSuffix.{parts_of, matches-add_suffix_long}
use dns_box.Startup.{fill_cache, list_domain_caches}
use dns_box.Startup.Routing.Bare.{is_domain_in_list_bare}
use dns_box.Startup.Routing.{IsRouted, is_domain_in_list_iff}
use dns_box.Tests.Values.{video_list, config, video, codec, codec-IsFaithful, address, address6}

abbrev pub answers : DnsCache codec assoc
answers = record { cache = [] }

pub answers-IsReadable : IsReadable codec assoc answers
answers-IsReadable = record { stamped = λ k v e. absurd (cc (e, assoc.get-new 0 k)) }

abbrev stored_once : DnsCache codec assoc
stored_once = set codec assoc answers 1000 (codes "v.|1") (address ∷ address6 ∷ []) 300

get-set_example : get codec assoc stored_once 1300 (codes "v.|1") ≡ (
    if ltb 1300 1300
    then (returned none, record { cache = assoc.del stored_once.cache (codes "v.|1") })
    else (returned (some (packable codec (address ∷ address6 ∷ []))), stored_once))
get-set_example =
    get-set codec codec-IsFaithful assoc answers 1000 1300 300 (codes "v.|1")
      (address ∷ address6 ∷ []) refl (omega arith)

normalize_ttl_test : (normalize_ttl 0 ≡ 3600) × (normalize_ttl 30 ≡ 900) × (normalize_ttl 200 ≡ 300)
unfolding normalize_ttl
normalize_ttl_test = (refl, refl, refl)

abbrev cache : DomainCache assoc
cache = fill_cache assoc 64 video

abbrev question : Text
question = codes "a.b.cdn.example."

matches-contains_example : matches assoc cache question ≡ (
    contains assoc cache (question_name question)
    || (ltb 1 (length (split (question_name question) dot))
        && contains assoc cache (two_label_key (split (question_name question) dot))))
matches-contains_example = matches-contains assoc cache question

matches_test : matches assoc cache question ≡ true
unfolding matches contains dns_box.Cache.FastCache.Assoc.find fill_cache add_suffix text_eq dotted
    question_name dns_box.Prelude.trim_suffix dns_box.Cache.DomainCache.add new_domain_cache
    dns_box.Dns.Match.suffix_loop split dns_box.Cache.DomainCache.contains_suffix
    dns_box.Cache.DomainCache.suffix_key dns_box.Prelude.join
matches_test = refl

is_domain_in_list_iff_example :
    (is_domain_in_list assoc (list_domain_caches assoc config) question 0 ≡ true) ↔ (
      (list : IpSetListConfig) × (get_elem? (get_ipset_lists config) 0 ≡ some list)
      × IsRouted list.rules question)
is_domain_in_list_iff_example = is_domain_in_list_iff assoc assoc-IsLossless config question 0

first_list : get_elem? (get_ipset_lists config) 0 ≡ some video_list
unfolding get_ipset_lists
first_list = refl

same_name : dotted (codes "cdn.example") ≡ dotted (question_name (codes "cdn.example."))
unfolding dotted question_name dns_box.Prelude.trim_suffix
same_name = refl

two_labels : length (split (question_name (codes "cdn.example.")) dot) ≡ 2
unfolding question_name dns_box.Prelude.trim_suffix split
two_labels = refl

-- The rule "cdn.example" of the list, and the domain itself.
is_domain_in_list_bare_example :
    is_domain_in_list assoc (list_domain_caches assoc config) (codes "cdn.example.") 0 ≡ true
is_domain_in_list_bare_example =
    is_domain_in_list_bare assoc assoc-IsLossless config (codes "cdn.example.") 0 video_list
      (codes "cdn.example") first_list (inl refl) same_name two_labels

long : 3 < parts_of (dotted (codes "facebook.com.es"))
unfolding dotted split
long = omega arith

not_the_rule : question_name (codes "www.facebook.com.es.") ≢ dotted (codes "facebook.com.es")
unfolding question_name dotted text_eq dns_box.Prelude.trim_suffix
not_the_rule =
    text_eq→ne (question_name (codes "www.facebook.com.es.")) (dotted (codes "facebook.com.es"))
      refl

matches-add_suffix_long_example :
    matches assoc (add_suffix assoc cache (codes "facebook.com.es")) (codes "www.facebook.com.es.")
    ≡ matches assoc cache (codes "www.facebook.com.es.")
matches-add_suffix_long_example =
    matches-add_suffix_long assoc assoc-IsLossless cache (codes "facebook.com.es")
      (codes "www.facebook.com.es.") long not_the_rule
