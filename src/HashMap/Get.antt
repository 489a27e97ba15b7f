-- ===== src/HashMap/Get.antt =====
-- `Get` of containers/persistent/immutable_hashmap on a file that represents entries.
use cxx_library.Prelude.{
  ℕ, ◌+◌, ◌-◌, ◌*◌, ◌%◌, ◌^◌, ◌≤◌, ◌≡◌, refl, sym, ap, ◌∙◌, inl, inr, true, false, some, List, [],
  ◌++◌, arith, ltb, if◌then◌else◌, length, length-append, append-nil, Bool-cases, ltb→lt,
}
use cxx_library.HashMap.{HashMap, bucket, header_size, refresh, get, walk}
use cxx_library.HashMap.Bytes.{take-long}
use cxx_library.HashMap.Log.{total}
use cxx_library.HashMap.Chain.{
  newest, log, lookup, walk-lookup, newest_le, length-log, lookup-absent, length_le,
}
use cxx_library.HashMap.Deps.{Externals}
use cxx_library.HashMap.Store.{Represents, usable, slot_eq}

module _ (e : Externals) where
  open e use {File, is_open, content, mapped}

  total_size :
      (s : HashMap File) (head : List ℕ) (xs : List (List ℕ × List ℕ))
      → Represents e s head xs
      → length (content s.file) ≡ 8 * (1 + s.bucket_count) + total xs
  total_size s head xs r = omega (
    arith,
    ap length r.layout,
    length-append head (log e (bucket e s) xs),
    length-log e (bucket e s) xs,
    r.head_size,
  )

  -- what `Get` expects the file to have in memory
  expected_eq :
      (s : HashMap File) (head : List ℕ) (xs : List (List ℕ × List ℕ))
      → Represents e s head xs
      → (header_size e s.bucket_count + s.data_pos + 2 ^ 64 - 1) % 2 ^ 64 ≡ length (content s.file)
  unfolding header_size
  expected_eq s head xs r = omega (arith, r.pos, r.fits, total_size s head xs r)

  -- A file of which all is in memory.
  all_mapped : (f : File) → length (content f) ≤ length (mapped f) → mapped f ≡ content f
  all_mapped f h = e.mapped-take f ∙ take-long (length (mapped f)) (content f) h

  remap_whole :
      (f : File) (n : ℕ) → n ≡ length (content f) → mapped (e.remap n f) ≡ content (e.remap n f)
  remap_whole f n h =
      all_mapped (e.remap n f)
        (omega (arith, ap length (e.content-remap n f), e.mapped-remap n f (omega arith)))

  pub remap-Represents :
      (s : HashMap File) (head : List ℕ) (xs : List (List ℕ × List ℕ)) (n : ℕ)
      → Represents e s head xs
      → n ≡ length (content s.file)
      → Represents e (record s { file = e.remap n s.file }) head xs
  unfolding bucket
  remap-Represents s head xs n r h = record {
    opened = e.is_open-remap n s.file (omega arith) ∙ r.opened;
    buckets = r.buckets;
    pos = r.pos;
    layout = e.content-remap n s.file ∙ r.layout;
    head_size = r.head_size;
    count = r.count;
    slots = r.slots;
    in_memory = omega (arith, e.mapped-remap n s.file (omega arith), total_size s head xs r);
    fits = r.fits;
  }

  refresh-Represents :
      (s : HashMap File) (head : List ℕ) (xs : List (List ℕ × List ℕ))
      → Represents e s head xs
      → Represents e (refresh e s) head xs
        × (mapped (refresh e s).file ≡ content (refresh e s).file)
        × ((refresh e s).bucket_count ≡ s.bucket_count)
  unfolding refresh bucket
  refresh-Represents s head xs r =
      elim (Bool-cases (
        ltb (length (mapped s.file))
          ((header_size e s.bucket_count + s.data_pos + 2 ^ 64 - 1) % 2 ^ 64))) [
            | inl p ↦ rw p (
              remap-Represents s head xs _ r (expected_eq s head xs r),
              remap_whole s.file _ (expected_eq s head xs r),
              refl,
            )
            | inr p ↦ rw p (r, all_mapped s.file (ground (arith, p, expected_eq s head xs r)), refl)
          ]

  header_eq :
      (s : HashMap File) (head : List ℕ) (xs : List (List ℕ × List ℕ))
      → Represents e s head xs
      → header_size e s.bucket_count ≡ length head
  unfolding header_size
  header_eq s head xs r = omega (arith, r.fits, r.head_size)

  -- what `Get` does behind its read of the bucket
  search :
      (s : HashMap File) (head : List ℕ) (xs : List (List ℕ × List ℕ)) (k : List ℕ)
      → Represents e s head xs
      → mapped s.file ≡ content s.file
      → (let at = (length head + newest e (bucket e s) (bucket e s k) xs) % 2 ^ 64 in
          if ltb (length head) at
          then walk e (length (mapped s.file)) (mapped s.file) (length head) k (at - 1)
          else some [])
        ≡ some (lookup e k xs)
  search s head xs k r whole =
      let near = newest_le e (bucket e s) (bucket e s k) xs in
      let n = newest e (bucket e s) (bucket e s k) xs in
      let at : (length head + n) % 2 ^ 64 ≡ length head + n =
        omega (arith, r.fits, r.head_size, near) in
      elim (Bool-cases (ltb 0 n)) [
        | inl p ↦
            let later : ltb (length head) (length head + n) ≡ true = ground (arith, p) in
            rw (at, later)
              (walk-lookup e (bucket e s) (length (mapped s.file)) (mapped s.file) head [] k xs
                (whole ∙ r.layout ∙ ap (λ t. head ++ t) (sym (append-nil (log e (bucket e s) xs))))
                (omega (arith, r.fits, r.head_size)) (ltb→lt 0 n p)
                (omega
                  (arith, ap length whole, total_size s head xs r, length_le e (bucket e s) xs)))
        | inr p ↦
            let none_yet : n ≡ 0 = ground (arith, p) in
            let same_place : ltb (length head) (length head + n) ≡ false = ground (arith, p) in
            rw (at, same_place) (ap some (sym (lookup-absent e (bucket e s) k xs none_yet)))
      ]

  search-at :
      (s : HashMap File) (head : List ℕ) (xs : List (List ℕ × List ℕ)) (k : List ℕ) (h : ℕ)
      → Represents e s head xs
      → mapped s.file ≡ content s.file
      → h ≡ length head
      → (let at = (h + newest e (bucket e s) (bucket e s k) xs) % 2 ^ 64 in
          if ltb h at
          then walk e (length (mapped s.file)) (mapped s.file) h k (at - 1)
          else some [])
        ≡ some (lookup e k xs)
  search-at s head xs k h r whole g = rw g (search s head xs k r whole)

  -- On a map whose file is well formed and holds given entries, `Get` reads in range and ends,
  -- returns the latest value of the key, or no bytes where the key has none, and leaves a map of the
  -- same entries.
  pub get-lookup :
      (s : HashMap File) (head : List ℕ) (xs : List (List ℕ × List ℕ)) (k : List ℕ)
      → Represents e s head xs
      → (s' : HashMap File) × (get e k s ≡ some (lookup e k xs, s')) × Represents e s' head xs
  unfolding get
  get-lookup s head xs k r =
      let (r', whole, same_count) = refresh-Represents s head xs r in
      (
        refresh e s,
        rw (usable e s head xs r, r'.opened, slot_eq e (refresh e s) head xs k r')
            (rw
              (search-at (refresh e s) head xs k (header_size e s.bucket_count) r' whole
                (header_eq s head xs r))
              refl),
        r',
      )
