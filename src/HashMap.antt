-- ===== src/HashMap.antt =====
-- containers/persistent/immutable_hashmap: the map in a file, a header of buckets and a log of
-- entries. A blob is its bytes here, since the map only wraps and copies them.
pub mod Bytes
pub mod Log
pub mod Chain
pub mod Store
pub mod Get
pub mod Persist
pub mod Iterator
pub mod Buckets
pub mod Scan
pub mod Plain
mod Tests
pub mod Deps
use cxx_library.Prelude.{
  ℕ, zero, suc, ◌+◌, ◌-◌, ◌*◌, ◌%◌, ◌^◌, Bool, true, false, ◌||◌, not, Option, none, some, List, [],
  ◌++◌, ltb, ◌==◌, if◌then◌else◌, length,
}
use cxx_library.Prelude.Options.{◌>>=◌}
use cxx_library.HostOrder.{le_bytes, of_le_bytes}
use cxx_library.HashMap.Bytes.{read_bytes}
use cxx_library.HashMap.Deps.{Externals}

-- `TPersistentImmutableHashMap`, without its path
pub record HashMap (F : Type 0) : Type 0 where
  pub file : F
  pub bucket_count : ℕ
  pub seed : ℕ
  pub data_pos : ℕ

-- `TValue`
pub record Entry : Type 0 where
  pub key : List ℕ
  pub value : List ℕ
  pub prev : ℕ

module _ (e : Externals) where
  open e use {
    File, is_open, content, mapped, append, poke, remap, resize, seek_to_end, hton, ntoh, murmur,
    same,
  }

  -- an integer as `hton` and `memcpy` leave it
  unfoldable pub word : ℕ → List ℕ
  word n = le_bytes 8 (hton n)

  -- `memcpy` from an address and `ntoh`; out of range it is a fault, `none`.
  unfoldable pub read_word : List ℕ → ℕ → Option ℕ
  read_word d i = do xs ← read_bytes d i 8; some (ntoh (of_le_bytes xs))

  -- `TValue::Dump`: what it appends, and the size it returns
  unfoldable pub dump : Entry → File → File × ℕ
  dump x out = (
    append (word x.prev) (
        append x.value
          (append (word (length x.value)) (append x.key (append (word (length x.key)) out)))),
    (8 * 3 + length x.key + length x.value) % 2 ^ 64,
  )

  -- `TValue::Restore`
  unfoldable pub restore : List ℕ → ℕ → Option Entry
  restore d at = do
    key_size ← read_word d at
    key ← read_bytes d (at + 8) key_size
    value_size ← read_word d (at + 8 + key_size)
    value ← read_bytes d (at + 8 + key_size + 8) value_size
    prev ← read_word d (at + 8 + key_size + 8 + value_size)
    some (record { key = key; value = value; prev = prev })

  -- `sizeof(uint64_t) * (1 + BucketCount_)`
  unfoldable pub header_size : ℕ → ℕ
  header_size n = 8 * (1 + n) % 2 ^ 64

  -- `Bucket(key)`
  unfoldable pub bucket : HashMap File → List ℕ → ℕ
  bucket s k = murmur s.seed k % s.bucket_count

  -- `KeyPtr(key)`, from `Data()`
  unfoldable pub key_pos : HashMap File → List ℕ → ℕ
  key_pos s k = 8 * (1 + bucket s k) % 2 ^ 64

  -- `!*this || (BucketCount_ == 0)`
  unfoldable pub is_unusable : HashMap File → Bool
  is_unusable s = not (is_open s.file) || s.bucket_count == 0

  -- the members before a constructor's body, but for the file
  unfoldable pub blank : ℕ → ℕ → File → HashMap File
  blank n seed f = record { file = f; bucket_count = n; seed = seed; data_pos = 1 }

  -- The constructor of the create mode, on the file that it has created.
  unfoldable pub create : File → ℕ → ℕ → HashMap File
  unfolding blank
  create f n seed =
      let sized = seek_to_end (resize (header_size n) f) in
      if not (is_open f)
      then blank n seed f
      else if not (is_open sized)
      then blank n seed sized
      else blank n seed (poke 0 (word n) sized)

  -- The constructor of the read and append mode, on the file that it has opened. A file that is not
  -- open leaves `BucketCount_` unset: `unset` is its value.
  unfoldable pub reopen : ℕ → File → ℕ → Option (HashMap File)
  unfolding blank
  reopen unset f seed = if not (is_open f) then some (blank unset seed f) else do
    n ← read_word (mapped (seek_to_end f)) 0
    some (record {
      file = seek_to_end f;
      bucket_count = n;
      seed = seed;
      data_pos = (length (mapped (seek_to_end f)) + 2 ^ 64 - header_size n + 1) % 2 ^ 64;
    })

  -- `Insert`
  unfoldable pub insert : List ℕ → List ℕ → HashMap File → Option (HashMap File)
  insert k v s = if is_unusable s then some s else do
    prev ← read_word (mapped s.file) (key_pos s k)
    let (f, n) = dump (record { key = k; value = v; prev = prev }) s.file
    some (record s {
      file = poke (key_pos s k) (word s.data_pos) f;
      data_pos = (s.data_pos + n) % 2 ^ 64;
    })

  -- The loop of `Get`, on fuel, from position `at`.
  unfoldable pub walk : ℕ → List ℕ → ℕ → List ℕ → ℕ → Option (List ℕ)
  walk zero d header k at = none
  walk (suc fuel) d header k at = restore d at >>= λ x.
      let rest = walk fuel d header k ((header + x.prev + 2 ^ 64 - 1) % 2 ^ 64) in
      if same x.key k then some x.value else if ltb 0 x.prev then rest else some []

  -- the `Remap` of `Get`
  unfoldable pub refresh : HashMap File → HashMap File
  refresh s =
      let expected = (header_size s.bucket_count + s.data_pos + 2 ^ 64 - 1) % 2 ^ 64 in
      if ltb (length (mapped s.file)) expected then record s { file = remap expected s.file } else s

  -- `Get`; `TBlob()` is no bytes.
  unfoldable pub get : List ℕ → HashMap File → Option (List ℕ × HashMap File)
  unfolding refresh is_unusable
  get k s =
      if is_unusable s
      then some ([], s)
      else (let s' = refresh s in
          if not (is_open s'.file) then some ([], s') else do
            p ← read_word (mapped s'.file) (key_pos s' k)
            v ←
                (let at = (header_size s.bucket_count + p) % 2 ^ 64 in
                  if ltb (header_size s.bucket_count) at
                  then walk (length (mapped s'.file)) (mapped s'.file) (header_size s.bucket_count)
                      k (at - 1)
                  else some [])
            some (v, s'))
