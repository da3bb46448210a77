-- ===== src/Dns/Servers/Sorted.antt =====
-- The order of the servers that `sortServers` gives.
use mathlib.Core.List.{Perm}
use mathlib.Core.List.Perm
use dns_box.Prelude.{
  ℕ, zero, suc, ◌≤◌, true, false, Text, Option, List, [], ◌∷◌, ◌≡◌, refl, arith, length, All, ltb,
  if◌then◌else◌, Bool-cases, inl, inr, ltb→lt,
}
use dns_box.Dns.Servers.{exchange, exchange_sort, server_rank, sort_servers}

module _ {A : Type 0} (rank : A → ℕ) where
  -- No element has a lower rank than one before it.
  abbrev pub IsSorted : List A → Type 0
  IsSorted [] = Unit
  IsSorted (x ∷ xs) = All (λ y. rank x ≤ rank y) xs × IsSorted xs

  length-exchange : (x : A) (xs : List A) → length (exchange rank x xs).1 ≡ length xs
  unfolding exchange
  length-exchange x [] = refl
  length-exchange x (y ∷ ys) =
      omega (arith, length-exchange (if ltb (rank y) (rank x) then y else x) ys)

  exchange-le : (x : A) (xs : List A) → rank (exchange rank x xs).0 ≤ rank x
  unfolding exchange
  exchange-le x [] = omega arith
  exchange-le x (y ∷ ys) = ground (arith, exchange-le y ys, exchange-le x ys)

  exchange-cons_lower :
      (x y : A) (ys : List A)
      → ltb (rank y) (rank x) ≡ true
      → exchange rank x (y ∷ ys) ≡ ((exchange rank y ys).0, x ∷ (exchange rank y ys).1)
  unfolding exchange
  exchange-cons_lower x y ys h = rw h

  exchange-cons_other :
      (x y : A) (ys : List A)
      → ltb (rank y) (rank x) ≡ false
      → exchange rank x (y ∷ ys) ≡ ((exchange rank x ys).0, y ∷ (exchange rank x ys).1)
  unfolding exchange
  exchange-cons_other x y ys h = rw h

  exchange-All :
      (x : A) (xs : List A) → All (λ y. rank (exchange rank x xs).0 ≤ rank y) (exchange rank x xs).1
  exchange-All x [] = unfold exchange in tt
  exchange-All x (y ∷ ys) = elim (Bool-cases (ltb (rank y) (rank x))) [
    | inl lower ↦
        rw (exchange-cons_lower x y ys lower)
          (omega (arith, ltb→lt _ _ lower, exchange-le y ys), exchange-All y ys)
    | inr other ↦
        rw (exchange-cons_other x y ys other) (ground (arith, exchange-le x ys), exchange-All x ys)
  ]

  exchange-perm :
      (x : A) (xs : List A) → Perm ((exchange rank x xs).0 ∷ (exchange rank x xs).1) (x ∷ xs)
  exchange-perm x [] = unfold exchange in Perm.refl (x ∷ [])
  exchange-perm x (y ∷ ys) = elim (Bool-cases (ltb (rank y) (rank x))) [
    | inl lower ↦
        rw (exchange-cons_lower x y ys lower)
          (Perm.trans (Perm.swap x _ _) (Perm.cons x (exchange-perm y ys)))
    | inr other ↦ rw (exchange-cons_other x y ys other) (
        Perm.trans (Perm.swap y _ _)
          (Perm.trans (Perm.cons y (exchange-perm x ys)) (Perm.swap x y ys)))
  ]

  exchange_sort-cons :
      (n : ℕ) (x : A) (xs : List A)
      → exchange_sort rank (suc n) (x ∷ xs)
        ≡ (exchange rank x xs).0 ∷ exchange_sort rank n (exchange rank x xs).1
  unfolding exchange_sort
  exchange_sort-cons n x xs = refl

  exchange_sort-perm : (n : ℕ) (xs : List A) → Perm (exchange_sort rank n xs) xs
  unfolding exchange_sort
  exchange_sort-perm zero xs = Perm.refl xs
  exchange_sort-perm (suc n) [] = Perm.refl []
  exchange_sort-perm (suc n) (x ∷ xs) =
      Perm.trans (Perm.cons _ (exchange_sort-perm n (exchange rank x xs).1)) (exchange-perm x xs)

  length-exchange_sort : (n : ℕ) (xs : List A) → length (exchange_sort rank n xs) ≡ length xs
  unfolding exchange_sort
  length-exchange_sort zero xs = refl
  length-exchange_sort (suc n) [] = refl
  length-exchange_sort (suc n) (x ∷ xs) =
      omega (arith, length-exchange_sort n (exchange rank x xs).1, length-exchange x xs)

  module _ (P : A → Type 0) where
    exchange_keeps :
        (x : A) (xs : List A)
        → P x
        → All P xs
        → P (exchange rank x xs).0 × All P (exchange rank x xs).1
    exchange_keeps x [] p h = unfold exchange in (p, tt)
    exchange_keeps x (y ∷ ys) p (q, h) = elim (Bool-cases (ltb (rank y) (rank x))) [
      | inl lower ↦
          let (first, rest) = exchange_keeps y ys q h in
          rw (exchange-cons_lower x y ys lower) (first, (p, rest))
      | inr other ↦
          let (first, rest) = exchange_keeps x ys p h in
          rw (exchange-cons_other x y ys other) (first, (q, rest))
    ]

    exchange_sort_keeps : (n : ℕ) (xs : List A) → All P xs → All P (exchange_sort rank n xs)
    unfolding exchange_sort
    exchange_sort_keeps zero xs h = h
    exchange_sort_keeps (suc n) [] h = tt
    exchange_sort_keeps (suc n) (x ∷ xs) (p, h) =
        let (first, rest) = exchange_keeps x xs p h in
        (first, exchange_sort_keeps n (exchange rank x xs).1 rest)

  exchange_sort-IsSorted :
      (n : ℕ) (xs : List A) → length xs ≤ n → IsSorted (exchange_sort rank n xs)
  unfolding exchange_sort
  exchange_sort-IsSorted zero [] h = tt
  exchange_sort-IsSorted zero (x ∷ xs) h = absurd (omega arith)
  exchange_sort-IsSorted (suc n) [] h = tt
  exchange_sort-IsSorted (suc n) (x ∷ xs) h = (
    exchange_sort_keeps (λ y. rank (exchange rank x xs).0 ≤ rank y) n (exchange rank x xs).1
        (exchange-All x xs),
    exchange_sort-IsSorted n (exchange rank x xs).1 (omega (arith, length-exchange x xs)),
  )

pub length-sort_servers :
    (parse_scheme : Text → Option Text) (servers : List Text)
    → length (sort_servers parse_scheme servers) ≡ length servers
unfolding sort_servers
length-sort_servers parse_scheme servers =
    length-exchange_sort (server_rank parse_scheme) (length servers) servers

-- The servers that are tried are the configured ones, each as often, in an order in which no server
-- comes behind one of a less preferred scheme.
pub sort_servers-IsSorted :
    (parse_scheme : Text → Option Text) (servers : List Text)
    → Perm (sort_servers parse_scheme servers) servers
      × IsSorted (server_rank parse_scheme) (sort_servers parse_scheme servers)
unfolding sort_servers
sort_servers-IsSorted parse_scheme servers = (
  exchange_sort-perm (server_rank parse_scheme) (length servers) servers,
  exchange_sort-IsSorted (server_rank parse_scheme) (length servers) servers (omega arith),
)
