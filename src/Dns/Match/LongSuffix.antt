-- ===== src/Dns/Match/LongSuffix.antt =====
-- Suffix rules of three labels or more in `AddSuffix` and `ContainsSuffix`.
use dns_box.Prelude.{
  ℕ, ◌+◌, ◌-◌, ◌<◌, ◌≤◌, false, Text, List, [], ◌∷◌, ◌≡◌, ◌≢◌, sym, ap, arith, length, All, split,
  join, text_eq, Bool-cases, inl, inr, has_prefix, length-drop, All-drop,
}
use dns_box.Prelude.Strings.Laws.{IsFree, split-join, split-append, split-IsFree, ne→text_eq}
use dns_box.Cache.FastCache.{FastCache, IsLossless}
use dns_box.Cache.DomainCache.{DomainCache, dot, dotted, last_two, add_suffix}
use dns_box.Cache.DomainCache.Laws.{contains-add_suffix}
use dns_box.Dns.Match.{question_name, matches}
use dns_box.Dns.Match.Laws.{two_label_key, matches-contains}

-- The number of parts between the dots.
abbrev pub parts_of : Text → ℕ
parts_of s = length (split s dot)

parts_of-dotted : (s : Text) → parts_of (dotted s) ≤ parts_of s + 1
unfolding dotted
parts_of-dotted s = elim (Bool-cases (has_prefix s (dot ∷ []))) [
  | inl e ↦ rw e (omega arith)
  | inr n ↦ rw (n, split-append [] s dot tt) (omega arith)
]

parts_of-join-le :
    (labels : List Text)
    → All (IsFree dot) labels
    → length labels ≤ 2
    → parts_of (join labels dot) ≤ 2
unfolding join split
parts_of-join-le [] h k = omega arith
parts_of-join-le (p ∷ ps) h k = omega (arith, ap length (split-join p ps dot h))

last_two-le : (labels : List Text) → length (last_two labels) ≤ 2
last_two-le labels = omega (arith, length-drop (length labels - 2) labels)

-- The key that a question is looked up by has two labels at most, behind the leading dot.
parts_of-two_label_key :
    (labels : List Text) → All (IsFree dot) labels → parts_of (two_label_key labels) ≤ 3
parts_of-two_label_key labels h = omega (
  arith,
  parts_of-dotted (join (last_two labels) dot),
  parts_of-join-le (last_two labels) (All-drop (IsFree dot) (length labels - 2) labels h)
      (last_two-le labels),
)

module _ (f : FastCache) (l : IsLossless f) where
  other_key :
      (s question : Text)
      → 3 < parts_of (dotted s)
      → text_eq (dotted s) (two_label_key (split (question_name question) dot)) ≡ false
  other_key s question h = ne→text_eq _ _ (λ e. absurd (
      omega (
        arith,
        ap parts_of e,
        parts_of-two_label_key _ (split-IsFree (question_name question) dot),
      )))

  -- In a cache that loses nothing, adding a suffix rule of three labels or more changes the answer for no question but one whose name
  -- is the dotted rule itself, text for text: no subdomain is selected by such a rule.
  pub matches-add_suffix_long :
      (c : DomainCache f) (s question : Text)
      → 3 < parts_of (dotted s)
      → question_name question ≢ dotted s
      → matches f (add_suffix f c s) question ≡ matches f c question
  matches-add_suffix_long c s question h k = rw (
    matches-contains f (add_suffix f c s) question,
    matches-contains f c question,
    contains-add_suffix f l c s (question_name question),
    contains-add_suffix f l c s (two_label_key (split (question_name question) dot)),
    other_key s question h,
    ne→text_eq (dotted s) (question_name question) (λ e. k (sym e)),
  )
