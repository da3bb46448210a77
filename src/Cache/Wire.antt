-- ===== src/Cache/Wire.antt =====
-- encoding/binary, big-endian: the 2 and 8 byte integers of a cache entry.
use dns_box.Prelude.{ℕ, ◌+◌, ◌*◌, ◌/◌, ◌%◌, ◌^◌, ◌<◌, ◌≡◌, List, [], ◌∷◌, arith}

-- binary.BigEndian.PutUint16
unfoldable pub put_u16 : ℕ → List ℕ
put_u16 n = (n / 2 ^ 8 % 256) ∷ (n % 256) ∷ []

-- binary.BigEndian.PutUint64
unfoldable pub put_u64 : ℕ → List ℕ
put_u64 n =
    (n / 2 ^ 56 % 256)
    ∷ (n / 2 ^ 48 % 256)
    ∷ (n / 2 ^ 40 % 256)
    ∷ (n / 2 ^ 32 % 256)
    ∷ (n / 2 ^ 24 % 256)
    ∷ (n / 2 ^ 16 % 256)
    ∷ (n / 2 ^ 8 % 256)
    ∷ (n % 256)
    ∷ []

-- The number that the bytes write, behind the digits that were read.
unfoldable pub read_be : ℕ → List ℕ → ℕ
read_be acc [] = acc
read_be acc (b ∷ bs) = read_be (acc * 256 + b) bs

pub read_be-put_u16 : (n : ℕ) → n < 2 ^ 16 → read_be 0 (put_u16 n) ≡ n
unfolding read_be put_u16
read_be-put_u16 n h = omega arith

pub read_be-put_u64 : (n : ℕ) → n < 2 ^ 64 → read_be 0 (put_u64 n) ≡ n
unfolding read_be put_u64
read_be-put_u64 n h = omega arith
