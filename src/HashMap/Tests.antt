-- ===== src/HashMap/Tests.antt =====
-- The map of containers/persistent/immutable_hashmap on a plain file.
use cxx_library.Prelude.{ℕ, ◌+◌, ◌*◌, ◌^◌, ◌<◌, ◌≡◌, refl, some, List, [], ◌∷◌, arith, length}
use cxx_library.HashMap.{
  HashMap, create, blank, dump, key_pos, bucket, word, header_size, insert, get, reopen,
}
use cxx_library.HostOrder.{le_bytes, swap64, swap32}
use cxx_library.HashMap.Bytes.{overwrite}
use cxx_library.HashMap.Log.{total}
use cxx_library.HashMap.Chain.{lookup, newest}
use cxx_library.HashMap.Store.{Represents, inserted, new_head, insert-Represents, insert-entries}
use cxx_library.HashMap.Get.{get-lookup, remap-Represents}
use cxx_library.HashMap.Persist.{first_head, create-Represents, reopen-Represents}
use cxx_library.HashMap.Iterator.{get_all}
use cxx_library.HashMap.Buckets.{chains}
use cxx_library.HashMap.Scan.{drain, drain-get_all}
use cxx_library.HashMap.Plain.{PlainFile, plain_files}

abbrev no_bytes : PlainFile
no_bytes = record { bytes = []; room = 0 }

abbrev new_map : HashMap PlainFile
new_map = create plain_files no_bytes 2 7

abbrev two : List (List ℕ × List ℕ)
two = (b'b' ∷ [], b'2' ∷ b'2' ∷ []) ∷ (b'd' ∷ [], b'4' ∷ []) ∷ []

abbrev one : List (List ℕ × List ℕ)
one = (b'd' ∷ [], b'4' ∷ []) ∷ []

abbrev filled : HashMap PlainFile
filled = inserted plain_files (b'd' ∷ []) (b'4' ∷ []) new_map []

new_map-Represents : Represents plain_files new_map (first_head plain_files 2) []
new_map-Represents =
    create-Represents plain_files no_bytes 2 7 refl refl refl (omega arith) (omega arith)

one_fits : 8 * (1 + new_map.bucket_count) + total one + 1 < 2 ^ 64
unfolding total create
one_fits = omega arith

filled-Represents :
    Represents plain_files filled
      (new_head plain_files (b'd' ∷ []) new_map (first_head plain_files 2))
      one
filled-Represents =
    insert-Represents plain_files new_map (first_head plain_files 2) [] (b'd' ∷ []) (b'4' ∷ [])
      new_map-Represents one_fits

two_fits : 8 * (1 + filled.bucket_count) + total two + 1 < 2 ^ 64
unfolding total create
two_fits = omega arith

create-Represents_example : Represents plain_files new_map (first_head plain_files 2) []
create-Represents_example =
    create-Represents plain_files no_bytes 2 7 refl refl refl (omega arith) (omega arith)

insert-entries_example :
    (s' : HashMap PlainFile) × (insert plain_files (b'b' ∷ []) (b'2' ∷ b'2' ∷ []) filled ≡ some s')
    × ((head' : List ℕ) × Represents plain_files s' head' two)
insert-entries_example =
    insert-entries plain_files filled
      (new_head plain_files (b'd' ∷ []) new_map (first_head plain_files 2)) one (b'b' ∷ [])
      (b'2' ∷ b'2' ∷ []) filled-Represents two_fits

get-lookup_example :
    (s' : HashMap PlainFile) × (get plain_files (b'd' ∷ []) filled
      ≡ some (lookup plain_files (b'd' ∷ []) one, s'))
    × Represents plain_files s'
        (new_head plain_files (b'd' ∷ []) new_map (first_head plain_files 2))
        one
get-lookup_example =
    get-lookup plain_files filled
      (new_head plain_files (b'd' ∷ []) new_map (first_head plain_files 2)) one (b'd' ∷ [])
      filled-Represents

abbrev full : PlainFile
full = record filled.file { room = 50 }

full_whole : plain_files.mapped full ≡ filled.file.bytes
unfolding create blank dump key_pos bucket word overwrite le_bytes swap64 swap32 header_size newest
full_whole = refl

reopen-Represents_example :
    (s' : HashMap PlainFile) × (reopen plain_files 0 full filled.seed ≡ some s')
    × Represents plain_files s'
        (new_head plain_files (b'd' ∷ []) new_map (first_head plain_files 2))
        one
reopen-Represents_example =
    reopen-Represents plain_files filled
      (new_head plain_files (b'd' ∷ []) new_map (first_head plain_files 2)) one full 0
      filled-Represents refl refl full_whole

-- the map with all of its file in memory
abbrev mapped_map : HashMap PlainFile
mapped_map = record filled { file = full }

full_size : 50 ≡ length filled.file.bytes
unfolding create blank dump key_pos bucket word overwrite le_bytes swap64 swap32 header_size newest
full_size = refl

mapped_map-Represents :
    Represents plain_files mapped_map
      (new_head plain_files (b'd' ∷ []) new_map (first_head plain_files 2))
      one
mapped_map-Represents =
    remap-Represents plain_files filled
      (new_head plain_files (b'd' ∷ []) new_map (first_head plain_files 2)) one 50 filled-Represents
      full_size

drain-get_all_example :
    drain plain_files
      (length (chains (bucket plain_files mapped_map) mapped_map.bucket_count 0 one) + 1)
      (get_all plain_files mapped_map)
    ≡ some (chains (bucket plain_files mapped_map) mapped_map.bucket_count 0 one)
drain-get_all_example =
    drain-get_all plain_files mapped_map
      (new_head plain_files (b'd' ∷ []) new_map (first_head plain_files 2)) one
      mapped_map-Represents full_whole
