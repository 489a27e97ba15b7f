-- ===== src/HashMap/Deps.antt =====
-- What containers/persistent/immutable_hashmap calls of other libraries: `TFile`, `TBlob::Cmp` and
-- the integer conversions of ac-common, and MurmurHash3. The laws are what the map relies on; writes
-- are taken to succeed.
use cxx_library.Prelude.{
  ℕ, ◌+◌, ◌^◌, ◌≤◌, ◌<◌, ◌≡◌, Bool, true, List, [], ◌++◌, length, take, replicate,
}
use cxx_library.HashMap.Bytes.{overwrite}

pub record Externals : Type 1 where
  pub File : Type 0
  -- `operator bool`
  pub is_open : File → Bool
  -- the file's bytes, and those in memory: `Data()[0 .. Size())`
  pub content : File → List ℕ
  pub mapped : File → List ℕ
  -- `Append(size, data)`
  pub append : List ℕ → File → File
  -- `memcpy` into `Data()`
  pub poke : ℕ → List ℕ → File → File
  pub remap : ℕ → File → File
  pub resize : ℕ → File → File
  pub seek_to_end : File → File
  -- `hton` and `ntoh` of a `uint64_t`
  pub hton : ℕ → ℕ
  pub ntoh : ℕ → ℕ
  -- `MurmurHash3_x64_128`, with the seed first
  pub murmur : ℕ → List ℕ → ℕ
  -- `Cmp(key) == 0`
  pub same : List ℕ → List ℕ → Bool
  pub mapped-take : (f : File) → mapped f ≡ take (length (mapped f)) (content f)
  pub is_open-append : (xs : List ℕ) (f : File) → is_open (append xs f) ≡ is_open f
  pub content-append : (xs : List ℕ) (f : File) → content (append xs f) ≡ content f ++ xs
  pub mapped-append : (xs : List ℕ) (f : File) → length (mapped f) ≤ length (mapped (append xs f))
  pub is_open-poke : (i : ℕ) (xs : List ℕ) (f : File) → is_open (poke i xs f) ≡ is_open f
  pub content-poke :
      (i : ℕ) (xs : List ℕ) (f : File)
      → i + length xs ≤ length (mapped f)
      → content (poke i xs f) ≡ overwrite i xs (content f)
  pub mapped-poke :
      (i : ℕ) (xs : List ℕ) (f : File) → length (mapped (poke i xs f)) ≡ length (mapped f)
  pub is_open-remap : (n : ℕ) (f : File) → n ≤ length (content f) → is_open (remap n f) ≡ is_open f
  pub content-remap : (n : ℕ) (f : File) → content (remap n f) ≡ content f
  pub mapped-remap : (n : ℕ) (f : File) → n ≤ length (content f) → n ≤ length (mapped (remap n f))
  pub content-resize : (n : ℕ) (f : File) → content f ≡ [] → content (resize n f) ≡ replicate n 0
  pub mapped-resize : (n : ℕ) (f : File) → length (mapped (resize n f)) ≡ n
  pub content-seek : (f : File) → content (seek_to_end f) ≡ content f
  pub mapped-seek : (f : File) → mapped (seek_to_end f) ≡ mapped f
  pub is_open-seek : (f : File) → is_open (seek_to_end f) ≡ is_open f
  pub hton-lt : (n : ℕ) → n < 2 ^ 64 → hton n < 2 ^ 64
  pub ntoh-hton : (n : ℕ) → n < 2 ^ 64 → ntoh (hton n) ≡ n
  pub hton-zero : hton 0 ≡ 0
  pub same-refl : (k : List ℕ) → same k k ≡ true
  pub same-eq : (k l : List ℕ) → same k l ≡ true → k ≡ l
