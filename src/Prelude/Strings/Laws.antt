-- ===== src/Prelude/Strings/Laws.antt =====
-- Laws of the texts: comparison, splitting and joining.
use mathlib.Core.Path.{◌≡◌, refl, ap, ◌∙◌}
use mathlib.Core.Logic.{◌≢◌, ◌↔◌, inl, inr}
use mathlib.Core.Bool.{true, false}
use mathlib.Core.List.{List, [], ◌∷◌, ◌++◌}
use native.Mathlib.Omega.{arith}
use Prim.Native.Nat.{ℕ}
use dns_box.Prelude.Tests.{◌==◌, Bool-cases, if◌then◌else◌}
use dns_box.Prelude.Lists.{All}
use dns_box.Prelude.Strings.{Text, text_eq, push, split, join}

text_eq→eq : (s t : Text) → text_eq s t ≡ true → s ≡ t
unfolding text_eq
text_eq→eq [] [] h = refl
text_eq→eq (a ∷ s) (b ∷ t) h = ground (arith, text_eq→eq s t)
text_eq→eq [] (b ∷ t) h = cc
text_eq→eq (a ∷ s) [] h = cc

pub text_eq_refl : (s : Text) → text_eq s s ≡ true
unfolding text_eq
text_eq_refl [] = refl
text_eq_refl (a ∷ s) = ground (arith, text_eq_refl s)

eq→text_eq : (s t : Text) → s ≡ t → text_eq s t ≡ true
eq→text_eq s t e = rw e (text_eq_refl t)

-- The Boolean test decides equality of texts.
pub text_eq_iff : (s t : Text) → (text_eq s t ≡ true) ↔ (s ≡ t)
text_eq_iff s t = (text_eq→eq s t, eq→text_eq s t)

pub ne→text_eq : (s t : Text) → s ≢ t → text_eq s t ≡ false
ne→text_eq s t h = elim (Bool-cases (text_eq s t)) [
  | inl e ↦ absurd (h (text_eq→eq s t e))
  | inr n ↦ n
]

pub text_eq→ne : (s t : Text) → text_eq s t ≡ false → s ≢ t
text_eq→ne s t n e = ground (arith, eq→text_eq s t e)

-- The text has no occurrence of the character.
abbrev pub IsFree : ℕ → Text → Type 0
IsFree c = All (λ x. x ≢ c)

-- Splitting gives at least one part.
pub split-cons : (s : Text) (c : ℕ) → (w : Text) × (ws : List Text) × (split s c ≡ w ∷ ws)
unfolding split
split-cons [] c = ([], [], refl)
split-cons (x ∷ s) c =
    let (w, ws, e) = split-cons s c in
    elim (x == c)
      as (λ b.
        (v : Text) × (vs : List Text) × ((if b then [] ∷ split s c else push x (split s c))
          ≡ v ∷ vs)) [ true ↦ ([], split s c, refl) | false ↦ (x ∷ w, ws, rw e) ]

join-push : (x c : ℕ) (ws : List Text) → join (push x ws) c ≡ x ∷ join ws c
unfolding join
join-push x c [] = refl
join-push x c (w ∷ []) = refl
join-push x c (w ∷ v ∷ ws) = refl

join-cons_nil : (c : ℕ) (w : Text) (ws : List Text) → join ([] ∷ w ∷ ws) c ≡ c ∷ join (w ∷ ws) c
unfolding join
join-cons_nil c w ws = refl

-- Joining the parts gives the text back.
pub join-split : (s : Text) (c : ℕ) → join (split s c) c ≡ s
unfolding split
join-split [] c = unfold join in refl
join-split (x ∷ s) c =
    let (w, ws, e) = split-cons s c in
    ground (arith, join-split s c, join-push x c (split s c), join-cons_nil c w ws, e)

-- Splitting a text that starts with a part and a separator.
pub split-append : (w s : Text) (c : ℕ) → IsFree c w → split (w ++ c ∷ s) c ≡ w ∷ split s c
unfolding split
split-append [] s c h = ground arith
split-append (x ∷ w) s c (p, h) = ground (arith, split-append w s c h)

-- A text without the separator is one part.
pub split_of_IsFree : (w : Text) (c : ℕ) → IsFree c w → split w c ≡ w ∷ []
unfolding split
split_of_IsFree [] c h = refl
split_of_IsFree (x ∷ w) c (p, h) = ground (arith, split_of_IsFree w c h)

-- Splitting what was joined from parts without the separator gives the parts back.
pub split-join :
    (w : Text) (ws : List Text) (c : ℕ)
    → All (IsFree c) (w ∷ ws)
    → split (join (w ∷ ws) c) c ≡ w ∷ ws
unfolding join
split-join w [] c (h, _) = split_of_IsFree w c h
split-join w (v ∷ ws) c (h, k) =
    split-append w (join (v ∷ ws) c) c h ∙ ap (◌∷◌ w) (split-join v ws c k)

push-IsFree : (x c : ℕ) (ws : List Text) → x ≢ c → All (IsFree c) ws → All (IsFree c) (push x ws)
push-IsFree x c [] p h = ((p, tt), tt)
push-IsFree x c (w ∷ ws) p (q, h) = ((p, q), h)

-- No part holds the separator.
pub split-IsFree : (s : Text) (c : ℕ) → All (IsFree c) (split s c)
unfolding split
split-IsFree [] c = (tt, tt)
split-IsFree (x ∷ s) c = ground (arith, split-IsFree s c, push-IsFree x c (split s c))
