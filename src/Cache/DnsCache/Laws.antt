-- ===== src/Cache/DnsCache/Laws.antt =====
-- Reading what was written, before and after it expires.
use dns_box.Prelude.{
  ℕ, suc, ◌+◌, ◌%◌, ◌^◌, ◌≤◌, ◌<◌, true, Text, none, some, List, [], ◌∷◌, ◌++◌, ◌≡◌, refl, ap,
  arith, length, take, drop, ltb, if◌then◌else◌, length-append,
}
use dns_box.Cache.FastCache.{FastCache}
use dns_box.Cache.Wire.{put_u64, read_be-put_u64}
use dns_box.Cache.DnsCache.{
  RrCodec, IsFaithful, decode_from, decode, encode_records, returned, DnsCache, get, get_value, set,
  stored, slice,
}
use dns_box.Cache.DnsCache.Decode.{packable, decode_from-encode_records}

module _ {Rr : Type 0} (rr : RrCodec Rr) (faithful : IsFaithful rr) where
  take-put_u64 : (n : ℕ) (xs : List ℕ) → take 8 (put_u64 n ++ xs) ≡ put_u64 n
  unfolding put_u64
  take-put_u64 n xs = refl

  drop-put_u64 : (n : ℕ) (xs : List ℕ) → drop 8 (put_u64 n ++ xs) ≡ xs
  unfolding put_u64
  drop-put_u64 n xs = refl

  length-put_u64 : (n : ℕ) → length (put_u64 n) ≡ 8
  unfolding put_u64
  length-put_u64 n = refl

  encode_records-nil : (rs : List Rr) → packable rr rs ≡ [] → encode_records rr rs ≡ []
  unfolding encode_records
  encode_records-nil [] h = refl
  encode_records-nil (r ∷ rs) h = ground (arith, encode_records-nil rs)

  slice-packable :
      (rs : List Rr) (b : ℕ) (bs : List ℕ)
      → encode_records rr rs ≡ b ∷ bs
      → slice rr (packable rr rs) ≡ some (packable rr rs)
  slice-packable rs b bs e = ground (arith, encode_records-nil rs)

  decode-encode_records : (rs : List Rr) → decode rr (encode_records rr rs) ≡ some (packable rr rs)
  unfolding decode_from
  decode-encode_records rs = by_bytes (encode_records rr rs) refl
    where
      by_bytes : (e : List ℕ) → encode_records rr rs ≡ e → decode rr e ≡ some (packable rr rs)
      by_bytes [] p =
          ap some (decode_from-encode_records rr faithful rs [] 0 (omega (arith, ap length p)))
      by_bytes (b ∷ bs) p =
          let n : ℕ = suc (length bs) in
          let enough : length (encode_records rr rs) ≤ n = omega (arith, ap length p) in
          let decoded = decode_from-encode_records rr faithful rs [] n enough in
          rw (rw p at decoded) (slice-packable rs b bs p)

  module _ (f : FastCache) where
    get_value-stored :
        (c : DnsCache rr f) (now later ttl : ℕ) (key : Text) (rs : List Rr)
        → now + ttl < 2 ^ 63
        → get_value rr f c later key (stored rr f now rs ttl) ≡ (
            if ltb (now + ttl) later
            then (returned none, record { cache = f.del c.cache key })
            else (returned (some (packable rr rs)), c))
    unfolding get_value stored
    get_value-stored c now later ttl key rs h =
        let small : (now + ttl) % 2 ^ 64 ≡ now + ttl = omega arith in
        ground (
          arith,
          small,
          take-put_u64 (now + ttl) (encode_records rr rs),
          drop-put_u64 (now + ttl) (encode_records rr rs),
          length-append (put_u64 (now + ttl)) (encode_records rr rs),
          length-put_u64 (now + ttl),
          read_be-put_u64 (now + ttl),
          decode-encode_records rs,
        )

    -- What `Get` returns for an entry that `Set` has just stored, at any later time: the records that
    -- pack, in order, until the time to live is over, also where they are none; and then nil, and
    -- the entry is gone. The entry fits the cache, packed records are read back, and the time of expiry
    -- lies below 2 ^ 63.
    pub get-set :
        (c : DnsCache rr f) (now later ttl : ℕ) (key : Text) (rs : List Rr)
        → f.fits key (stored rr f now rs ttl) ≡ true
        → now + ttl < 2 ^ 63
        → get rr f (set rr f c now key rs ttl) later key ≡ (
            if ltb (now + ttl) later
            then (returned none, record { cache = f.del (set rr f c now key rs ttl).cache key })
            else (returned (some (packable rr rs)), set rr f c now key rs ttl))
    unfolding get set
    get-set c now later ttl key rs fits h =
        rw (f.get-set_self c.cache key (stored rr f now rs ttl) fits) (
          get_value-stored (record { cache = f.set c.cache key (stored rr f now rs ttl) }) now later
            ttl key rs h)
