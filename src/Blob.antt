-- ===== src/Blob.antt =====
-- `TBlob` of ac-common, a library that the repository only links: what the sources call of it.
-- `bytes` is `Data()[0 .. Size())`; the laws are what the callers rely on.
pub mod Bare
use cxx_library.Prelude.{ℕ, ◌≡◌, List, [], ◌++◌, length, set, take, drop}

pub record BlobOps : Type 1 where
  pub Blob : Type 0
  pub bytes : Blob → List ℕ
  pub empty : Blob
  -- `Reserve(n)`: room for `n` bytes, the content stays.
  pub reserve : ℕ → Blob → Blob
  -- `Append(size, data)`
  pub append : List ℕ → Blob → Blob
  -- `Data()[i] = v`; beyond `Size()` it writes to spare room.
  pub store : ℕ → ℕ → Blob → Blob
  -- `Shrink(n)` keeps the first `n` bytes, `Chop(n)` drops them.
  pub shrink : ℕ → Blob → Blob
  pub chop : ℕ → Blob → Blob
  pub bytes-empty : bytes empty ≡ []
  pub bytes-reserve : (n : ℕ) (b : Blob) → bytes (reserve n b) ≡ bytes b
  pub bytes-append : (xs : List ℕ) (b : Blob) → bytes (append xs b) ≡ bytes b ++ xs
  pub bytes-store : (i v : ℕ) (b : Blob) → bytes (store i v b) ≡ set (bytes b) i v
  pub bytes-shrink : (n : ℕ) (b : Blob) → bytes (shrink n b) ≡ take n (bytes b)
  pub bytes-chop : (n : ℕ) (b : Blob) → bytes (chop n b) ≡ drop n (bytes b)

module _ (o : BlobOps) where
  -- `Size()`
  abbrev pub size : o.Blob → ℕ
  size b = length (o.bytes b)
