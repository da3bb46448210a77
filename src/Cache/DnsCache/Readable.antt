-- ===== src/Cache/DnsCache/Readable.antt =====
-- A cache whose entries can be read: none is shorter than the time stamp but an empty one.
use dns_box.Prelude.{
  ℕ, ◌+◌, ◌≤◌, ◌%◌, ◌^◌, false, Text, Option, none, some, List, ◌≡◌, refl, sym, ◌∙◌, ◌⊎◌, inl, inr,
  arith, length, ltb, ◌==◌, Bool-cases, length-append, subst, text_eq, take,
}
use dns_box.Prelude.Strings.Laws.{text_eq→ne, text_eq_iff}
use dns_box.Cache.FastCache.{FastCache}
use dns_box.Cache.Wire.{put_u64, read_be}
use dns_box.Cache.DnsCache.{
  RrCodec, Got, panicked, returned, DnsCache, get, get_value, set, stored, value_of, encode_records,
  is_expired, new_dns_cache,
}

module _ {Rr : Type 0} (rr : RrCodec Rr) (f : FastCache) where
  abbrev pub HasStamp : List ℕ → Type 0
  HasStamp v = (length v ≡ 0) ⊎ (8 ≤ length v)

  pub record IsReadable (c : DnsCache rr f) : Type 0 where
    pub stamped : (k : Text) (v : List ℕ) → f.get c.cache k ≡ some v → HasStamp v

  pub new_dns_cache-IsReadable : (size : ℕ) → IsReadable (new_dns_cache rr f size)
  unfolding new_dns_cache
  new_dns_cache-IsReadable size = record { stamped = λ k v e. absurd (cc (e, f.get-new size k)) }

  abbrev pub Returned : Got Rr → Type 0
  Returned panicked = ⊥
  Returned (returned r) = Unit

  length-put_u64' : (n : ℕ) → length (put_u64 n) ≡ 8
  unfolding put_u64
  length-put_u64' n = refl

  stored-HasStamp : (now ttl : ℕ) (rs : List Rr) → HasStamp (stored rr f now rs ttl)
  unfolding stored
  stored-HasStamp now ttl rs = inr (
      omega (
        arith,
        length-append (put_u64 ((now + ttl) % 2 ^ 64)) (encode_records rr rs),
        length-put_u64' ((now + ttl) % 2 ^ 64),
      ))

  pub set-IsReadable :
      (c : DnsCache rr f) (now : ℕ) (key : Text) (rs : List Rr) (ttl : ℕ)
      → IsReadable c
      → IsReadable (set rr f c now key rs ttl)
  unfolding set
  set-IsReadable c now key rs ttl h = record {
    stamped = λ k v e. elim (f.get-set_sound c.cache key k (stored rr f now rs ttl) v e) [
      | inl same ↦ subst HasStamp same.1 (stored-HasStamp now ttl rs)
      | inr old ↦ h.stamped k v old
    ];
  }

  del-IsReadable :
      (c : DnsCache rr f) (key : Text)
      → IsReadable c
      → IsReadable (record { cache = f.del c.cache key })
  del-IsReadable c key h = record {
    stamped = λ k v e. elim (Bool-cases (text_eq key k)) [
      | inl same ↦ cc (f.get-del_self c.cache key, (text_eq_iff key k).0 same)
      | inr other ↦ h.stamped k v (sym (f.get-del_ne c.cache key k (text_eq→ne key k other)) ∙ e)
    ];
  }

  get_value-IsReadable :
      (c : DnsCache rr f) (now : ℕ) (key : Text) (v : List ℕ)
      → HasStamp v
      → IsReadable c
      → Returned (get_value rr f c now key v).0 × IsReadable (get_value rr f c now key v).1
  unfolding get_value
  get_value-IsReadable c now key v p h = elim (Bool-cases (length v == 0)) [
    | inl nothing ↦ rw nothing (tt, h)
    | inr entry ↦
        let long : ltb (length v) 8 ≡ false = ground arith in
        elim (Bool-cases (is_expired rr f now (read_be 0 (take 8 v)))) [
          | inl expired ↦ rw (entry, long, expired) (tt, del-IsReadable c key h)
          | inr fresh ↦ rw (entry, long, fresh) (tt, h)
        ]
  ]

  value_of-HasStamp :
      (o : Option (List ℕ)) → ((v : List ℕ) → o ≡ some v → HasStamp v) → HasStamp (value_of rr f o)
  value_of-HasStamp none h = inl refl
  value_of-HasStamp (some v) h = h v refl

  -- Reading a readable cache never panics and leaves it readable, also where the entry is dropped.
  pub get-IsReadable :
      (c : DnsCache rr f) (now : ℕ) (key : Text)
      → IsReadable c
      → Returned (get rr f c now key).0 × IsReadable (get rr f c now key).1
  unfolding get
  get-IsReadable c now key h =
      get_value-IsReadable c now key _
        (value_of-HasStamp (f.get c.cache key) (λ v. h.stamped key v)) h
