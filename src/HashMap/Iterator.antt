-- ===== src/HashMap/Iterator.antt =====
-- `GetAll` and `TIterator` of containers/persistent/immutable_hashmap.
use cxx_library.Prelude.{
  ℕ, zero, suc, ◌+◌, ◌-◌, ◌*◌, ◌%◌, ◌^◌, Option, none, some, List, ltb, ◌==◌, if◌then◌else◌,
}
use cxx_library.Prelude.Options.{◌>>=◌}
use cxx_library.HashMap.{HashMap, read_word, restore, header_size, is_unusable}
use cxx_library.HashMap.Deps.{Externals}

-- `TIterator`; the pointer is to the mapped bytes, `none` for `nullptr`.
pub record Cursor : Type 0 where
  pub ptr : Option (List ℕ)
  pub count : ℕ
  pub current_bucket : ℕ
  pub offset : ℕ

-- what `Next` does: its result with the entry behind a true one, and the iterator
pub data Step : Type 0 where
  yields : List ℕ × List ℕ → Cursor → Step
  ends : Cursor → Step

module _ (e : Externals) where
  open e use {mapped}

  -- The loop of `Next` over empty buckets, on fuel: the bucket where it stops and its offset, which
  -- is 0 where it returns.
  unfoldable pub skip_empty : ℕ → List ℕ → ℕ → ℕ → Option (ℕ × ℕ)
  skip_empty zero d n b = none
  skip_empty (suc fuel) d n b = read_word e d (8 * (1 + b) % 2 ^ 64) >>= λ offset.
      let rest = skip_empty fuel d n ((b + 1) % 2 ^ 64) in
      if ltb 0 offset then some (b, offset) else if (b + 1) % 2 ^ 64 == n then some (b, 0) else rest

  -- `Next` from the entry at the iterator's offset on
  unfoldable pub next_entry : List ℕ → Cursor → Option Step
  next_entry d it = do
    x ← restore e d ((header_size e it.count + it.offset + 2 ^ 64 - 1) % 2 ^ 64)
    let moved = record it { offset = x.prev }
    some (
        yields (x.key, x.value)
          (if ltb 0 x.prev
            then moved
            else if (it.current_bucket + 1) % 2 ^ 64 == it.count
            then record moved { ptr = none }
            else record moved { current_bucket = (it.current_bucket + 1) % 2 ^ 64 }))

  -- `Next`
  unfoldable pub next : Cursor → Option Step
  unfolding skip_empty next_entry
  next it = elim it.ptr [
    | none ↦ some (ends it)
    | some d ↦
        if ltb 0 it.offset
        then next_entry d it
        else skip_empty it.count d it.count it.current_bucket >>= λ (b, offset).
            if ltb 0 offset
            then next_entry d (record it { current_bucket = b; offset = offset })
            else some (ends (record it { ptr = none; current_bucket = b; offset = offset }))
  ]

  -- `GetAll`
  unfoldable pub get_all : HashMap e.File → Cursor
  unfolding is_unusable
  get_all s =
      if is_unusable e s
      then record { ptr = none; count = 0; current_bucket = 0; offset = 0 }
      else record {
        ptr = some (mapped s.file);
        count = s.bucket_count;
        current_bucket = 0;
        offset = 0;
      }
