-- ===== src/HostOrder.antt =====
-- Byte order on a little-endian host: `htons`, the macros `htonll` and `ntohll` of
-- websocket/parser/parser.cpp, and `memcpy` of an integer.
use cxx_library.Prelude.{
  ℕ, zero, suc, ◌+◌, ◌*◌, ◌/◌, ◌%◌, ◌^◌, ◌<◌, ◌≡◌, List, [], ◌∷◌, arith, length, AllBytes,
}

-- the bytes of an integer in memory
unfoldable pub le_bytes : ℕ → ℕ → List ℕ
le_bytes zero x = []
le_bytes (suc n) x = x % 256 ∷ le_bytes n (x / 256)

-- the integer that bytes in memory are read as
unfoldable pub of_le_bytes : List ℕ → ℕ
of_le_bytes [] = 0
of_le_bytes (b ∷ bs) = b + 256 * of_le_bytes bs

-- `htons` and `ntohs`
pub swap16 : ℕ → ℕ
swap16 x = x % 256 * 2 ^ 8 + x / 2 ^ 8 % 256

-- `htonl` and `ntohl`
unfoldable pub swap32 : ℕ → ℕ
swap32 x = x % 256 * 2 ^ 24 + x / 2 ^ 8 % 256 * 2 ^ 16 + x / 2 ^ 16 % 256 * 2 ^ 8 + x / 2 ^ 24 % 256

-- `htonll` and `ntohll`; the two halves share no bit, so that `|` is a sum.
unfoldable pub swap64 : ℕ → ℕ
unfolding swap32
swap64 x = swap32 (x % 2 ^ 32) * 2 ^ 32 + swap32 (x / 2 ^ 32)

-- The number that bytes mean in network order, the first the highest.
pub of_be_bytes : ℕ → List ℕ → ℕ
of_be_bytes acc [] = acc
of_be_bytes acc (b ∷ bs) = of_be_bytes (256 * acc + b) bs

pub ntohs-of_le_bytes :
    (a b : ℕ)
    → AllBytes (a ∷ b ∷ [])
    → swap16 (of_le_bytes (a ∷ b ∷ [])) ≡ of_be_bytes 0 (a ∷ b ∷ [])
unfolding swap16 of_le_bytes of_be_bytes
ntohs-of_le_bytes a b h = omega arith

pub ntohll-of_le_bytes :
    (a b c d e f g i : ℕ)
    → AllBytes (a ∷ b ∷ c ∷ d ∷ e ∷ f ∷ g ∷ i ∷ [])
    → swap64 (of_le_bytes (a ∷ b ∷ c ∷ d ∷ e ∷ f ∷ g ∷ i ∷ []))
      ≡ of_be_bytes 0 (a ∷ b ∷ c ∷ d ∷ e ∷ f ∷ g ∷ i ∷ [])
unfolding swap64 of_le_bytes of_be_bytes
ntohll-of_le_bytes a b c d e f g i h = omega arith

-- Reading back what `htons` and `memcpy` put in memory.
pub of_be_bytes-htons : (n : ℕ) → n < 2 ^ 16 → of_be_bytes 0 (le_bytes 2 (swap16 n)) ≡ n
unfolding swap16 le_bytes of_be_bytes
of_be_bytes-htons n h = omega arith

pub of_be_bytes-htonll : (n : ℕ) → n < 2 ^ 64 → of_be_bytes 0 (le_bytes 8 (swap64 n)) ≡ n
unfolding swap64 le_bytes of_be_bytes
of_be_bytes-htonll n h = omega arith

pub length-le_bytes : (n x : ℕ) → length (le_bytes n x) ≡ n
unfolding le_bytes
length-le_bytes zero x = omega arith
length-le_bytes (suc n) x = omega (arith, length-le_bytes n (x / 256))

pub le_bytes-AllBytes : (n x : ℕ) → AllBytes (le_bytes n x)
unfolding le_bytes
le_bytes-AllBytes zero x = tt
le_bytes-AllBytes (suc n) x = (omega arith, le_bytes-AllBytes n (x / 256))

-- Reading back an integer of the host's own order.
pub of_le_bytes-le_bytes : (n : ℕ) → n < 2 ^ 64 → of_le_bytes (le_bytes 8 n) ≡ n
unfolding of_le_bytes le_bytes
of_le_bytes-le_bytes n h = omega arith
