-- ===== src/Dns/Match/Laws.antt =====
-- What the loop over the suffixes of a name looks up in the cache.
use mathlib.Core.Bool.{or-false, or_self}
use dns_box.Prelude.{
  suc, ◌-◌, true, ◌||◌, ◌&&◌, Text, List, [], ◌∷◌, ◌≡◌, refl, ap, ◌∙◌, arith, length, ltb, All,
  split, join, lt→ltb,
}
use dns_box.Prelude.Strings.Laws.{IsFree, split-join, split-append, split-IsFree}
use dns_box.Cache.FastCache.{FastCache}
use dns_box.Cache.DomainCache.{
  DomainCache, dot, dotted, last_two, suffix_key, contains, contains_suffix,
}
use dns_box.Dns.Match.{question_name, suffix_loop, matches}

last_two-cons : (p q r : Text) (ps : List Text) → last_two (p ∷ q ∷ r ∷ ps) ≡ last_two (q ∷ r ∷ ps)
last_two-cons p q r ps =
    let e : length (p ∷ q ∷ r ∷ ps) - 2 ≡ suc (length (q ∷ r ∷ ps) - 2) = omega arith in rw e

split-dot :
    (p : Text) (ps : List Text)
    → All (IsFree dot) (p ∷ ps)
    → split (dot ∷ join (p ∷ ps) dot) dot ≡ [] ∷ p ∷ ps
split-dot p ps h = split-append [] (join (p ∷ ps) dot) dot tt ∙ ap (◌∷◌ []) (split-join p ps dot h)

three_parts : (p q : Text) (ps : List Text) → ltb 2 (length ([] ∷ p ∷ q ∷ ps)) ≡ true
three_parts p q ps = lt→ltb 2 _ (omega arith)

-- The key of any suffix with two labels or more is the dotted form of its last two labels.
pub suffix_key-join :
    (p q : Text) (ps : List Text)
    → All (IsFree dot) (p ∷ q ∷ ps)
    → suffix_key (dot ∷ join (p ∷ q ∷ ps) dot) ≡ dotted (join (last_two (p ∷ q ∷ ps)) dot)
unfolding suffix_key
suffix_key-join p q ps h =
    rw (split-dot p (q ∷ ps) h, three_parts p q ps)
      (ap (λ parts. dotted (join parts dot)) (last_two-cons [] p q ps))

two_labels : (p q : Text) (ps : List Text) → ltb 1 (length (p ∷ q ∷ ps)) ≡ true
two_labels p q ps = lt→ltb 1 _ (omega arith)

-- The rule that the loop can find, if the name has two labels.
abbrev pub two_label_key : List Text → Text
two_label_key labels = dotted (join (last_two labels) dot)

module _ (f : FastCache) where
  contains_suffix-join :
      (c : DomainCache f) (p q : Text) (ps : List Text)
      → All (IsFree dot) (p ∷ q ∷ ps)
      → contains_suffix f c (dot ∷ join (p ∷ q ∷ ps) dot)
        ≡ contains f c (two_label_key (p ∷ q ∷ ps))
  unfolding contains contains_suffix
  contains_suffix-join c p q ps h = rw (suffix_key-join p q ps h)

  -- Every round of the loop asks for the same key.
  pub suffix_loop-contains :
      (c : DomainCache f) (labels : List Text)
      → All (IsFree dot) labels
      → suffix_loop f c labels ≡ ltb 1 (length labels) && contains f c (two_label_key labels)
  unfolding suffix_loop
  suffix_loop-contains c [] h = refl
  suffix_loop-contains c (p ∷ []) h = refl
  suffix_loop-contains c (p ∷ q ∷ []) h = rw contains_suffix-join (or-false _)
  suffix_loop-contains c (p ∷ q ∷ r ∷ ps) (free, h) =
      rw (contains_suffix-join c p q (r ∷ ps) (free, h), suffix_loop-contains c (q ∷ r ∷ ps) h)
        (rw
          (
            two_labels q r ps,
            two_labels p q (r ∷ ps),
            ap (λ labels. contains f c (dotted (join labels dot))) (last_two-cons p q r ps),
          )
          (or_self _))

  -- A question matches exactly if its name, or the dotted form of the last two of at least two
  -- labels, is in the cache.
  pub matches-contains :
      (c : DomainCache f) (question : Text)
      → matches f c question ≡ (
          contains f c (question_name question)
          || (ltb 1 (length (split (question_name question) dot))
              && contains f c (two_label_key (split (question_name question) dot))))
  unfolding matches
  matches-contains c question =
      rw (suffix_loop-contains c _ (split-IsFree (question_name question) dot))
