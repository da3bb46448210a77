-- ===== src/Cache/DnsCache/Decode.antt =====
-- Decoding what was encoded, and how much fuel that takes.
use native.Mathlib.Nat.{mod-eq_of_lt}
use mathlib.Core.List.{append_assoc}
use dns_box.Prelude.{
  ℕ, zero, suc, ◌+◌, ◌%◌, ◌^◌, ◌≤◌, ◌<◌, Option, none, some, List, [], ◌∷◌, ◌++◌, ◌≡◌, refl, ap,
  ◌∙◌, arith, length, take, drop, length-append, drop-append,
}
use dns_box.Cache.Wire.{put_u16, read_be, read_be-put_u16}
use dns_box.Cache.DnsCache.{RrCodec, IsFaithful, decode_from, encode_records, entry}

module _ {Rr : Type 0} (rr : RrCodec Rr) where
  -- Any two amounts of fuel that cover what is left of the buffer decode the same.
  pub decode_from_fuel :
      (m n : ℕ) (buf : List ℕ) (offset : ℕ)
      → length buf ≤ offset + m
      → length buf ≤ offset + n
      → decode_from rr m buf offset ≡ decode_from rr n buf offset
  unfolding decode_from
  decode_from_fuel zero zero buf offset h k = refl
  decode_from_fuel zero (suc n) buf offset h k = ground arith
  decode_from_fuel (suc m) zero buf offset h k = ground arith
  decode_from_fuel (suc m) (suc n) buf offset h k =
      ground (arith, decode_from_fuel m n buf (offset + 2 + read_be 0 (take 2 (drop offset buf))))

  abbrev pub keep_packed : Rr → Option (List ℕ) → List Rr → List Rr
  keep_packed r none rest = rest
  keep_packed r (some b) rest = r ∷ rest

  -- The records of the list that pack.
  abbrev pub packable : List Rr → List Rr
  packable [] = []
  packable (r ∷ rs) = keep_packed r (rr.pack r) (packable rs)

  take-put_u16 : (n : ℕ) (xs : List ℕ) → take 2 (put_u16 n ++ xs) ≡ put_u16 n
  unfolding put_u16
  take-put_u16 n xs = refl

  length-put_u16 : (n : ℕ) → length (put_u16 n) ≡ 2
  unfolding put_u16
  length-put_u16 n = refl

  header :
      (before behind b : List ℕ)
      → length b < 2 ^ 16
      → read_be 0 (take 2 (drop (length before) (before ++ (entry rr (some b) ++ behind))))
        ≡ length b
  header before behind b h =
      rw
        (
          drop-append before (entry rr (some b) ++ behind),
          append_assoc (put_u16 (length b % 2 ^ 16)) b behind,
          take-put_u16 (length b % 2 ^ 16) (b ++ behind),
          mod-eq_of_lt h,
        )
        (read_be-put_u16 (length b) h)

  length_around :
      (before behind b : List ℕ)
      → length (before ++ (entry rr (some b) ++ behind))
        ≡ length before + 2 + length b + length behind
  length_around before behind b = omega (
    arith,
    length-append before (entry rr (some b) ++ behind),
    length-append (entry rr (some b)) behind,
    length-append (put_u16 (length b % 2 ^ 16)) b,
    length-put_u16 (length b % 2 ^ 16),
  )

  module _ (faithful : IsFaithful rr) where
    unpack_inside :
        (r : Rr) (before behind b : List ℕ)
        → rr.pack r ≡ some b
        → rr.unpack (before ++ (entry rr (some b) ++ behind)) (length before + 2) ≡ some r
    unpack_inside r before behind b p =
        let h = put_u16 (length b % 2 ^ 16) in
        let regroup : before ++ (entry rr (some b) ++ behind) ≡ before ++ h ++ b ++ behind =
          simp append_assoc in
        let size : length before + 2 ≡ length (before ++ h) =
          omega (arith, length-append before h, length-put_u16 (length b % 2 ^ 16)) in
        rw (regroup, size) (faithful.unpack-pack r b (before ++ h) behind p)

    -- One round over an encoded record.
    decode_step :
        (fuel : ℕ) (r : Rr) (before behind b : List ℕ)
        → rr.pack r ≡ some b
        → decode_from rr (suc fuel) (before ++ (entry rr (some b) ++ behind)) (length before)
          ≡ r
            ∷ decode_from rr fuel
                (before ++ (entry rr (some b) ++ behind))
                (length before + 2 + length b)
    unfolding decode_from
    decode_step fuel r before behind b p = ground (
      arith,
      header before behind b (faithful.pack-lt r b p),
      length_around before behind b,
      unpack_inside r before behind b p,
    )

    length-entry :
        (before b : List ℕ) → length (before ++ entry rr (some b)) ≡ length before + 2 + length b
    length-entry before b = omega (
      arith,
      length-append before (entry rr (some b)),
      length-append (put_u16 (length b % 2 ^ 16)) b,
      length-put_u16 (length b % 2 ^ 16),
    )

    decode_from_end :
        (fuel : ℕ) (before : List ℕ) → decode_from rr fuel (before ++ []) (length before) ≡ []
    unfolding decode_from
    decode_from_end zero before = refl
    decode_from_end (suc fuel) before = ground (arith, length-append before [])

    -- Decoding what was encoded behind any bytes gives the records that pack, in order.
    pub decode_from-encode_records :
        (rs : List Rr) (before : List ℕ) (fuel : ℕ)
        → length (encode_records rr rs) ≤ fuel
        → decode_from rr fuel (before ++ encode_records rr rs) (length before) ≡ packable rs
    unfolding encode_records
    decode_from-encode_records [] before fuel h = decode_from_end fuel before
    decode_from-encode_records (r ∷ rs) before fuel h =
        by_pack (rr.pack r) refl fuel h (λ behind n. decode_from-encode_records rs behind n)
      where
        by_pack :
            (o : Option (List ℕ))
            → rr.pack r ≡ o
            → (n : ℕ) → length (entry rr o ++ encode_records rr rs) ≤ n
            → ((behind : List ℕ) (k : ℕ)
                → length (encode_records rr rs) ≤ k
                → decode_from rr k (behind ++ encode_records rr rs) (length behind) ≡ packable rs)
            → decode_from rr n (before ++ (entry rr o ++ encode_records rr rs)) (length before)
              ≡ keep_packed r o (packable rs)
        by_pack none p n k ih = ih before n k
        by_pack (some b) p zero k ih =
            absurd (omega (arith, length_around [] (encode_records rr rs) b))
        by_pack (some b) p (suc n) k ih =
            let rest = encode_records rr rs in
            let room : length rest ≤ n = omega (arith, length_around [] rest b) in
            decode_step n r before rest b p
            ∙ ap (◌∷◌ r) (
                rw (← append_assoc before (entry rr (some b)) rest, ← length-entry before b)
                  (ih (before ++ entry rr (some b)) n room))
