-- ===== src/Cache/DnsCache.antt =====
-- internal/cache/dns_cache.go: answers under a key, with the time at which they expire.
pub mod Decode
pub mod Laws
pub mod Readable
use dns_box.Prelude.{
  ℕ, zero, suc, ◌+◌, ◌-◌, ◌%◌, ◌^◌, Bool, true, false, Text, Option, none, some, List, [], ◌∷◌,
  ◌++◌, length, take, drop, ltb, leb, ◌==◌, ◌≡◌, ◌<◌, if◌then◌else◌,
}
use dns_box.Cache.FastCache.{FastCache}
use dns_box.Cache.Wire.{put_u16, put_u64, read_be}

-- dns.PackRR and dns.UnpackRR of github.com/miekg/dns: the wire form of a record, and the record at
-- an offset of a buffer. `none` is an error.
pub record RrCodec (Rr : Type 0) : Type 0 where
  pub pack : Rr → Option (List ℕ)
  pub unpack : List ℕ → ℕ → Option Rr

-- The documented behaviour: what was packed without compression is read back from any buffer, and
-- it fits the buffer of dns.MaxMsgSize bytes that `Set` hands out.
pub record IsFaithful {Rr : Type 0} (rr : RrCodec Rr) : Type 0 where
  pub unpack-pack :
      (r : Rr) (b before behind : List ℕ)
      → rr.pack r ≡ some b
      → rr.unpack (before ++ b ++ behind) (length before) ≡ some r
  pub pack-lt : (r : Rr) (b : List ℕ) → rr.pack r ≡ some b → length b < 2 ^ 16

-- The result of `Get`: the slice may be nil, and reading the first 8 bytes of a shorter value panics.
pub data Got (Rr : Type 0) : Type 0 where
  panicked : Got Rr
  returned : Option (List Rr) → Got Rr

module _ {Rr : Type 0} (rr : RrCodec Rr) where
  abbrev cons_record : Option Rr → List Rr → List Rr
  cons_record none rest = rest
  cons_record (some r) rest = r ∷ rest

  -- The loop of `Get`, at an offset. Every round moves the offset by 2 or more, so the length of the
  -- buffer is fuel enough; see `Decode`.
  unfoldable pub decode_from : ℕ → List ℕ → ℕ → List Rr
  decode_from zero buf offset = []
  decode_from (suc fuel) buf offset =
      let packed_len = read_be 0 (take 2 (drop offset buf)) in
      let rest = decode_from fuel buf (offset + 2 + packed_len) in
      if leb (length buf) offset
      then []
      else if ltb (length buf) (offset + 2)
      then []
      else if ltb (length buf) (offset + 2 + packed_len)
      then []
      else cons_record (rr.unpack buf (offset + 2)) rest

  -- A slice to which nothing was appended is nil.
  abbrev slice : List Rr → Option (List Rr)
  slice [] = none
  slice (r ∷ rs) = some (r ∷ rs)

  abbrev decode : List ℕ → Option (List Rr)
  decode [] = some []
  decode (b ∷ bs) = slice (decode_from (length (b ∷ bs)) (b ∷ bs) 0)

  abbrev entry : Option (List ℕ) → List ℕ
  entry none = []
  entry (some p) = put_u16 (length p % 2 ^ 16) ++ p

  -- The loop of `Set`: records that do not pack are left out.
  unfoldable pub encode_records : List Rr → List ℕ
  encode_records [] = []
  encode_records (r ∷ rs) = entry (rr.pack r) ++ encode_records rs

  module _ (f : FastCache) where
    pub record DnsCache : Type 0 where
      pub cache : f.Store

    -- `NewDNSCache`
    unfoldable pub new_dns_cache : ℕ → DnsCache
    new_dns_cache size = record { cache = f.new size }

    -- `time.Now().Unix() > int64(expire)`: beyond 2 ^ 63 the conversion is negative.
    abbrev is_expired : ℕ → ℕ → Bool
    is_expired now expire = if ltb expire (2 ^ 63) then ltb expire now else true

    abbrev value_of : Option (List ℕ) → List ℕ
    value_of none = []
    value_of (some v) = v

    unfoldable pub get_value : DnsCache → ℕ → Text → List ℕ → Got Rr × DnsCache
    get_value c now key val =
        if length val == 0
        then (returned none, c)
        else if ltb (length val) 8
        then (panicked, c)
        else if is_expired now (read_be 0 (take 8 val))
        then (returned none, record { cache = f.del c.cache key })
        else (returned (decode (drop 8 val)), c)

    unfoldable pub get : DnsCache → ℕ → Text → Got Rr × DnsCache
    get c now key = get_value c now key (value_of (f.get c.cache key))

    -- The value that `Set` stores at the time `now`.
    unfoldable pub stored : ℕ → List Rr → ℕ → List ℕ
    stored now rrs ttl = put_u64 ((now + ttl) % 2 ^ 64) ++ encode_records rrs

    unfoldable pub set : DnsCache → ℕ → Text → List Rr → ℕ → DnsCache
    set c now key rrs ttl = record { cache = f.set c.cache key (stored now rrs ttl) }
