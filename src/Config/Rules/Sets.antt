-- ===== src/Config/Rules/Sets.antt =====
-- The two loops that the configuration's mutators share: append what is not there yet, and copy all
-- but one text; and both seen as operations on sets.
use dns_box.Prelude.{
  Bool, true, false, ◌||◌, Text, List, [], ◌∷◌, ◌++◌, ◌≡◌, ◌≢◌, sym, ◌↔◌, ◌⊎◌, inl, inr, arith,
  text_eq, In, Any-append_left, Any-append_right, Any-append_cases, if◌then◌else◌, Bool-cases,
}
use dns_box.Prelude.Strings.Laws.{text_eq_iff, text_eq_refl}

unfoldable pub is_listed : Text → List Text → Bool
is_listed x [] = false
is_listed x (d ∷ ds) = text_eq d x || is_listed x ds

unfoldable pub append_new : Text → List Text → List Text
unfolding is_listed
append_new x ds = if is_listed x ds then ds else ds ++ x ∷ []

unfoldable pub without : Text → List Text → List Text
without x [] = []
without x (d ∷ ds) = let rest = without x ds in if text_eq d x then rest else d ∷ rest

-- No text stands twice.
abbrev pub IsDistinct : List Text → Type 0
IsDistinct [] = Unit
IsDistinct (d ∷ ds) = (¬ In d ds) × IsDistinct ds

is_listed→In : (x : Text) (ds : List Text) → is_listed x ds ≡ true → In x ds
unfolding is_listed
is_listed→In x [] h = cc
is_listed→In x (d ∷ ds) h = ground (arith, is_listed→In x ds, text_eq_iff d x)

In→is_listed : (x : Text) (ds : List Text) → In x ds → is_listed x ds ≡ true
unfolding is_listed
In→is_listed x [] h = elim h [ ]
In→is_listed x (d ∷ ds) (inl e) = ground (arith, text_eq_iff d x)
In→is_listed x (d ∷ ds) (inr h) = ground (arith, In→is_listed x ds h)

pub is_listed_iff : (x : Text) (ds : List Text) → (is_listed x ds ≡ true) ↔ In x ds
is_listed_iff x ds = (is_listed→In x ds, In→is_listed x ds)

In-append_new→ : (x y : Text) (ds : List Text) → In y (append_new x ds) → (y ≡ x) ⊎ In y ds
unfolding append_new
In-append_new→ x y ds h = elim (Bool-cases (is_listed x ds)) [
  | inl old ↦ inr (rw old at h)
  | inr new ↦ elim (Any-append_cases (λ z. y ≡ z) ds (x ∷ []) (rw new at h)) [
    | inl k ↦ inr k
    | inr k ↦ inl (elim k [ inl e ↦ e | inr n ↦ absurd n ])
  ]
]

In-append_new← : (x y : Text) (ds : List Text) → (y ≡ x) ⊎ In y ds → In y (append_new x ds)
unfolding append_new
In-append_new← x y ds h = elim (Bool-cases (is_listed x ds)) [
  | inl old ↦ rw old (elim h [ inl e ↦ rw e (is_listed→In x ds old) | inr k ↦ k ])
  | inr new ↦ rw new (elim h [
    | inl e ↦ Any-append_right (λ z. y ≡ z) ds (x ∷ []) (inl e)
    | inr k ↦ Any-append_left (λ z. y ≡ z) ds (x ∷ []) k
  ])
]

-- After the insertion the members are the old ones and the new text.
pub In-append_new : (x y : Text) (ds : List Text) → In y (append_new x ds) ↔ ((y ≡ x) ⊎ In y ds)
In-append_new x y ds = (In-append_new→ x y ds, In-append_new← x y ds)

In-without→ : (x y : Text) (ds : List Text) → In y (without x ds) → (y ≢ x) × In y ds
unfolding without
In-without→ x y [] h = elim h [ ]
In-without→ x y (d ∷ ds) h = elim (Bool-cases (text_eq d x)) [
  | inl e ↦ let (p, k) = In-without→ x y ds (rw e at h) in (p, inr k)
  | inr n ↦
      let k : (y ≡ d) ⊎ In y (without x ds) = rw n at h in
      elim k [
        | inl q ↦ ((λ r. ground (arith, text_eq_iff d x)), inl q)
        | inr m ↦ let (p, l) = In-without→ x y ds m in (p, inr l)
      ]
]

In-without← : (x y : Text) (ds : List Text) → y ≢ x → In y ds → In y (without x ds)
unfolding without
In-without← x y [] p h = elim h [ ]
In-without← x y (d ∷ ds) p (inl e) = ground (arith, text_eq_iff d x)
In-without← x y (d ∷ ds) p (inr h) = elim (Bool-cases (text_eq d x)) [
  | inl e ↦ rw e (In-without← x y ds p h)
  | inr n ↦ rw n (inr (In-without← x y ds p h))
]

-- After the deletion the members are the old ones but the deleted text.
pub In-without : (x y : Text) (ds : List Text) → In y (without x ds) ↔ ((y ≢ x) × In y ds)
In-without x y ds = (In-without→ x y ds, λ h. In-without← x y ds h.0 h.1)

IsDistinct-snoc :
    (x : Text) (ds : List Text) → ¬ In x ds → IsDistinct ds → IsDistinct (ds ++ x ∷ [])
IsDistinct-snoc x [] h k = ((λ n. n), tt)
IsDistinct-snoc x (d ∷ ds) h (p, k) = (
  (λ m. elim (Any-append_cases (λ z. d ≡ z) ds (x ∷ []) m) [
    | inl n ↦ p n
    | inr n ↦ elim n [ inl e ↦ h (inl (sym e)) | inr z ↦ z ]
  ]),
  IsDistinct-snoc x ds (λ m. h (inr m)) k,
)

pub append_new-IsDistinct :
    (x : Text) (ds : List Text) → IsDistinct ds → IsDistinct (append_new x ds)
unfolding append_new
append_new-IsDistinct x ds h = elim (Bool-cases (is_listed x ds)) [
  | inl old ↦ rw old h
  | inr new ↦ rw new (IsDistinct-snoc x ds (λ m. ground (arith, In→is_listed x ds m)) h)
]

pub without-IsDistinct : (x : Text) (ds : List Text) → IsDistinct ds → IsDistinct (without x ds)
unfolding without
without-IsDistinct x [] h = tt
without-IsDistinct x (d ∷ ds) (p, h) = elim (Bool-cases (text_eq d x)) [
  | inl e ↦ rw e (without-IsDistinct x ds h)
  | inr n ↦ rw n ((λ m. p (In-without→ x d ds m).1), without-IsDistinct x ds h)
]

without-snoc : (x : Text) (ds : List Text) → ¬ In x ds → without x (ds ++ x ∷ []) ≡ ds
unfolding without
without-snoc x [] h = ground (arith, text_eq_refl x)
without-snoc x (d ∷ ds) h =
    let fresh : d ≢ x = λ e. h (inl (sym e)) in
    ground (arith, without-snoc x ds (λ m. h (inr m)), text_eq_iff d x)

-- Appending a text that is not there and deleting it gives the list back.
without-append_new : (x : Text) (ds : List Text) → ¬ In x ds → without x (append_new x ds) ≡ ds
unfolding append_new
without-append_new x ds h = elim (Bool-cases (is_listed x ds)) [
  | inl old ↦ absurd (h (is_listed→In x ds old))
  | inr new ↦ rw new (without-snoc x ds h)
]
