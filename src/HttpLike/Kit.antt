-- ===== src/HttpLike/Kit.antt =====
-- What httplike/parser calls of ac-common and libc: `TMemDisk`, `NStringUtils` and `atoi`. The laws
-- are what the parser relies on.
use cxx_library.Prelude.{ℕ, ◌≡◌, Bool, List, [], ◌++◌, ltb, length}

pub record Kit : Type 1 where
  -- `TMemDisk`, and its `Data()[0 .. Size())`
  pub Disk : Type 0
  pub bytes : Disk → List ℕ
  -- `TMemDisk(memMax, diskMask)`
  pub fresh : Disk
  -- `operator bool`
  pub has_data : Disk → Bool
  -- `Append(size, data)`
  pub append : List ℕ → Disk → Disk
  -- `Wrap(size, data)`: the bytes that the pointer shows
  pub wrap : List ℕ → Disk
  pub finish : Disk → Disk
  -- `NStringUtils::Strip` and `ToLower`
  pub strip : List ℕ → List ℕ
  pub to_lower : List ℕ → List ℕ
  -- `atoi`, assigned to a `size_t`
  pub atoi : List ℕ → ℕ
  pub bytes-fresh : bytes fresh ≡ []
  pub has_data-ltb : (d : Disk) → has_data d ≡ ltb 0 (length (bytes d))
  pub bytes-append : (xs : List ℕ) (d : Disk) → bytes (append xs d) ≡ bytes d ++ xs
  pub bytes-wrap : (xs : List ℕ) → bytes (wrap xs) ≡ xs
  pub bytes-finish : (d : Disk) → bytes (finish d) ≡ bytes d
