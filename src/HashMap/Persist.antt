-- ===== src/HashMap/Persist.antt =====
-- The two constructors of containers/persistent/immutable_hashmap: a new map, and the map of a file.
use cxx_library.Prelude.{
  ℕ, zero, suc, ◌+◌, ◌-◌, ◌*◌, ◌%◌, ◌^◌, ◌≤◌, ◌<◌, ◌≡◌, refl, sym, ap, ◌∙◌, true, some, List, [],
  ◌∷◌, ◌++◌, arith, length, length-append, append-nil, length-replicate, take, drop, replicate,
}
use cxx_library.HashMap.{HashMap, word, read_word, bucket, header_size}
use cxx_library.HashMap.Bytes.{
  overwrite, length-overwrite, take-overwrite_slot, take-drop-append, drop-overwrite,
}
use cxx_library.HashMap.Log.{total, length-word, read_word-slot}
use cxx_library.HashMap.Chain.{newest, log, length-log}
use cxx_library.HashMap.Deps.{Externals}
use cxx_library.HashMap.Store.{Represents}
use cxx_library.HashMap.{create, reopen, blank}
use cxx_library.HostOrder.{le_bytes}

take-drop-replicate :
    (n j m : ℕ) → j + n ≤ m → take {A = ℕ} n (drop j (replicate m 0)) ≡ replicate n 0
take-drop-replicate zero zero m h = refl
take-drop-replicate (suc n) zero zero h = absurd (omega arith)
take-drop-replicate n (suc j) zero h = absurd (omega arith)
take-drop-replicate (suc n) zero (suc m) h =
    ap (λ t. 0 ∷ t) (take-drop-replicate n zero m (omega arith))
take-drop-replicate n (suc j) (suc m) h = take-drop-replicate n j m (omega arith)

module _ (e : Externals) where
  open e use {File, is_open, content, mapped}

  word-zero : word e 0 ≡ replicate 8 0
  unfolding word le_bytes
  word-zero = rw e.hton-zero refl

  abbrev pub first_head : ℕ → List ℕ
  first_head n = overwrite 0 (word e n) (replicate (8 * (1 + n)) 0)

  -- the file with room for the header
  abbrev pub sized : File → ℕ → File
  sized f n = e.seek_to_end (e.resize (header_size e n) f)

  create_lem :
      (f : File) (n seed : ℕ)
      → is_open f ≡ true
      → is_open (e.resize (header_size e n) f) ≡ true
      → create e f n seed ≡ blank e n seed (e.poke 0 (word e n) (sized f n))
  unfolding create
  create_lem f n seed h k = rw (h, e.is_open-seek (e.resize (header_size e n) f), k) refl

  mapped_sized :
      (f : File) (n : ℕ) → 8 * (1 + n) + 1 < 2 ^ 64 → length (mapped (sized f n)) ≡ 8 * (1 + n)
  unfolding header_size
  mapped_sized f n h = omega (
    arith,
    ap length (e.mapped-seek (e.resize (header_size e n) f)),
    e.mapped-resize (header_size e n) f,
  )

  blank-Represents :
      (f : File) (n seed : ℕ)
      → is_open (e.resize (header_size e n) f) ≡ true
      → content f ≡ []
      → 0 < n
      → 8 * (1 + n) + 1 < 2 ^ 64
      → Represents e (blank e n seed (e.poke 0 (word e n) (sized f n))) (first_head n) []
  unfolding blank total newest log header_size
  blank-Represents f n seed k c p h =
      let zeros : List ℕ = replicate (8 * (1 + n)) 0 in
      let all = length-replicate {A = ℕ} (8 * (1 + n)) 0 in
      let eight = length-word e n in
      let size : header_size e n ≡ 8 * (1 + n) = omega arith in
      record {
        opened = e.is_open-poke 0 (word e n) (sized f n) ∙ e.is_open-seek _ ∙ k;
        buckets = p;
        pos = refl;
        layout =
            e.content-poke 0 (word e n) (sized f n) (omega (arith, mapped_sized f n h))
            ∙ ap (overwrite 0 (word e n)) (
                e.content-seek _
                ∙ e.content-resize (header_size e n) f c
                ∙ ap (λ t. replicate t 0) size)
            ∙ sym (append-nil (first_head n));
        head_size = length-overwrite 0 (word e n) zeros ∙ all;
        count = take-overwrite_slot 8 0 (word e n) zeros (sym eight) (omega arith);
        slots = λ b l.
            ap (take 8) (drop-overwrite 0 (8 * (1 + b)) (word e n) zeros (omega arith))
            ∙ take-drop-replicate 8 (8 * (1 + b)) (8 * (1 + n)) (omega arith)
            ∙ sym word-zero;
        in_memory = omega (arith, e.mapped-poke 0 (word e n) (sized f n), mapped_sized f n h);
        fits = omega arith;
      }

  -- On an empty file that opens and can be resized, with one bucket at least and a header within
  -- 64-bit sizes, the constructor of the create mode makes a well-formed map of no entries.
  pub create-Represents :
      (f : File) (n seed : ℕ)
      → is_open f ≡ true
      → is_open (e.resize (header_size e n) f) ≡ true
      → content f ≡ []
      → 0 < n
      → 8 * (1 + n) + 1 < 2 ^ 64
      → Represents e (create e f n seed) (first_head n) []
  create-Represents f n seed o k c p h =
      rw (create_lem f n seed o k) (blank-Represents f n seed k c p h)

  reopened : File → HashMap File → HashMap File
  reopened f s = record {
    file = e.seek_to_end f;
    bucket_count = s.bucket_count;
    seed = s.seed;
    data_pos =
        (length (mapped (e.seek_to_end f)) + 2 ^ 64 - header_size e s.bucket_count + 1) % 2 ^ 64;
  }

  -- A well-formed map's file, opened anew with all of it in memory and with the same seed, is a
  -- well-formed map of the same entries.
  pub reopen-Represents :
      (s : HashMap File) (head : List ℕ) (xs : List (List ℕ × List ℕ)) (f : File) (unset : ℕ)
      → Represents e s head xs
      → is_open f ≡ true
      → content f ≡ content s.file
      → mapped f ≡ content f
      → (s' : HashMap File) × (reopen e unset f s.seed ≡ some s') × Represents e s' head xs
  unfolding reopen reopened bucket header_size
  reopen-Represents s head xs f unset r o c m =
      let d : mapped (e.seek_to_end f) ≡ head ++ log e (bucket e s) xs =
        e.mapped-seek f ∙ m ∙ c ∙ r.layout in
      let size = length-append head (log e (bucket e s) xs) in
      let long = length-log e (bucket e s) xs in
      let n : read_word e (mapped (e.seek_to_end f)) 0 ≡ some s.bucket_count =
        read_word-slot e (mapped (e.seek_to_end f)) 0 s.bucket_count (omega (arith, r.fits))
          (omega (arith, ap length d, size, r.head_size))
          (ap (take 8) d
            ∙ take-drop-append 8 0 head (log e (bucket e s) xs) (omega (arith, r.head_size))
            ∙ r.count) in
      (
        reopened f s,
        rw (o, n) refl,
        record {
          opened = e.is_open-seek f ∙ o;
          buckets = r.buckets;
          pos = omega (arith, ap length d, size, long, r.head_size, r.fits);
          layout = e.content-seek f ∙ c ∙ r.layout;
          head_size = r.head_size;
          count = r.count;
          slots = r.slots;
          in_memory = omega (arith, ap length d, size, r.head_size);
          fits = r.fits;
        },
      )
