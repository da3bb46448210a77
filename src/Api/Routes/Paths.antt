-- ===== src/Api/Routes/Paths.antt =====
-- Paths of the form /ipset/{name}/{resource}, beside the patterns.
use dns_box.Prelude.{
  ℕ, false, Text, codes, List, [], ◌∷◌, ◌++◌, ◌≡◌, ◌≢◌, refl, arith, split, text_eq, has_prefix, ap,
  ◌∙◌, join,
}
use dns_box.Prelude.Strings.Laws.{IsFree, split-append, split_of_IsFree, ne→text_eq}
use dns_box.Api.Routes.{clean_segments, ends_with_slash, clean_path}

pub ends_with_slash-append :
    (w : Text) (x : ℕ) (s : Text) → ends_with_slash (w ++ x ∷ s) ≡ ends_with_slash (x ∷ s)
unfolding ends_with_slash
ends_with_slash-append [] x s = refl
ends_with_slash-append (a ∷ []) x s = refl
ends_with_slash-append (a ∷ b ∷ w) x s = ends_with_slash-append (b ∷ w) x s

-- A text without the separator is no text with it.
pub text_eq-append_of_IsFree : (p w s : Text) (c : ℕ) → IsFree c p → text_eq (w ++ c ∷ s) p ≡ false
unfolding text_eq
text_eq-append_of_IsFree [] [] s c h = refl
text_eq-append_of_IsFree [] (a ∷ w) s c h = refl
text_eq-append_of_IsFree (b ∷ p) [] s c (n, h) = ground arith
text_eq-append_of_IsFree (b ∷ p) (a ∷ w) s c (n, h) =
    ground (arith, text_eq-append_of_IsFree p w s c h)

pub has_prefix-append_of_IsFree :
    (p w s : Text) (c : ℕ)
    → IsFree c p
    → IsFree c w
    → has_prefix (w ++ c ∷ s) (p ++ c ∷ []) ≡ text_eq w p
unfolding text_eq has_prefix
has_prefix-append_of_IsFree [] [] s c h k = ground arith
has_prefix-append_of_IsFree [] (a ∷ w) s c h (m, k) = ground arith
has_prefix-append_of_IsFree (b ∷ p) [] s c (n, h) k = ground arith
has_prefix-append_of_IsFree (b ∷ p) (a ∷ w) s c (n, h) (m, k) =
    ground (arith, has_prefix-append_of_IsFree p w s c h k)

ends_with_slash_of_IsFree : (w : Text) → IsFree b'/' w → ends_with_slash w ≡ false
unfolding ends_with_slash
ends_with_slash_of_IsFree [] h = refl
ends_with_slash_of_IsFree (a ∷ []) (n, h) = ground arith
ends_with_slash_of_IsFree (a ∷ b ∷ w) (n, h) = ends_with_slash_of_IsFree (b ∷ w) h

-- A segment that path.Clean leaves alone.
pub record IsSegment (w : Text) : Type 0 where
  pub nonempty : w ≢ []
  pub not_here : w ≢ codes "."
  pub not_parent : w ≢ codes ".."
  pub whole : IsFree b'/' w

abbrev pub list_path : Text → Text → Text
list_path name resource = codes "/ipset/" ++ name ++ (b'/' ∷ resource)

pub list_path-ends :
    (name resource : Text) → IsSegment resource → ends_with_slash (list_path name resource) ≡ false
unfolding ends_with_slash
list_path-ends name [] h = absurd (h.nonempty refl)
list_path-ends name (a ∷ resource) h =
    ends_with_slash-append (codes "/ipset/" ++ name) b'/' (a ∷ resource)
    ∙ ends_with_slash_of_IsFree (a ∷ resource) h.whole

split-list_path :
    (name resource : Text)
    → IsSegment name
    → IsSegment resource
    → split (list_path name resource) b'/' ≡ [] ∷ codes "ipset" ∷ name ∷ resource ∷ []
split-list_path name resource n r =
    split-append [] _ b'/' tt
    ∙ ap (◌∷◌ []) (
        split-append (codes "ipset") (name ++ (b'/' ∷ resource)) b'/' (ground arith)
        ∙ ap (◌∷◌ (codes "ipset")) (
            split-append name resource b'/' n.whole
            ∙ ap (◌∷◌ name) (split_of_IsFree resource b'/' r.whole)))

clean_segments-cons :
    (stack ws : List Text) (w : Text)
    → IsSegment w
    → clean_segments stack (w ∷ ws) ≡ clean_segments (w ∷ stack) ws
unfolding clean_segments
clean_segments-cons stack ws w h =
    rw
      (
        ne→text_eq w [] h.nonempty,
        ne→text_eq w (codes ".") h.not_here,
        ne→text_eq w (codes "..") h.not_parent,
      )
      refl

clean_segments-ipset :
    (ws : List Text)
    → clean_segments [] ([] ∷ codes "ipset" ∷ ws) ≡ clean_segments (codes "ipset" ∷ []) ws
unfolding clean_segments text_eq
clean_segments-ipset ws = refl

pub clean_path-list_path :
    (name resource : Text)
    → IsSegment name
    → IsSegment resource
    → clean_path (list_path name resource) ≡ list_path name resource
unfolding clean_path join clean_segments
clean_path-list_path name resource n r =
    rw
      (
        split-list_path name resource n r,
        clean_segments-ipset (name ∷ resource ∷ []),
        clean_segments-cons (codes "ipset" ∷ []) (resource ∷ []) name n,
        clean_segments-cons (name ∷ codes "ipset" ∷ []) [] resource r,
        list_path-ends name resource r,
      )
      refl
