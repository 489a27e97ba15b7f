-- ===== src/HashMap/Store.antt =====
-- containers/persistent/immutable_hashmap as a store of entries: what its file holds, and that
-- `Insert` and `Get` keep to it.
use cxx_library.Prelude.{
  ℕ, ◌+◌, ◌*◌, ◌%◌, ◌^◌, ◌≤◌, ◌<◌, ◌≡◌, refl, sym, ap, ◌∙◌, inl, inr, true, false, some, List, ◌∷◌,
  ◌++◌, arith, ltb, ◌==◌, length, append_assoc, Bool-cases, ==_iff, ltb→lt, take, drop,
}
use cxx_library.HashMap.{HashMap, word, read_word, dump, bucket, key_pos, is_unusable, insert}
use cxx_library.HashMap.Bytes.{
  overwrite, length-overwrite, overwrite-append, take-overwrite_slot, take-drop-take,
  take-drop-append, take-overwrite_before, drop-overwrite,
}
use cxx_library.HashMap.Log.{
  entry_bytes, total, length-word, read_word-slot, content-dump, is_open-dump, mapped-dump,
}
use cxx_library.HashMap.Chain.{newest, log, linked, newest_le}
use cxx_library.HashMap.Deps.{Externals}

module _ (e : Externals) where
  open e use {File, is_open, content, mapped, append, poke}

  -- The file is a header, which `head` is, and the log of the entries, the newest first.
  pub record Represents (s : HashMap File) (head : List ℕ) (xs : List (List ℕ × List ℕ))
      : Type 0 where
    pub opened : is_open s.file ≡ true
    pub buckets : 0 < s.bucket_count
    pub pos : s.data_pos ≡ 1 + total xs
    pub layout : content s.file ≡ head ++ log e (bucket e s) xs
    pub head_size : length head ≡ 8 * (1 + s.bucket_count)
    pub count : take 8 head ≡ word e s.bucket_count
    pub slots :
        (b : ℕ)
        → b < s.bucket_count
        → take 8 (drop (8 * (1 + b)) head) ≡ word e (newest e (bucket e s) b xs)
    pub in_memory : 8 * (1 + s.bucket_count) ≤ length (mapped s.file)
    pub fits : 8 * (1 + s.bucket_count) + total xs + 1 < 2 ^ 64

  pub usable :
      (s : HashMap File) (head : List ℕ) (xs : List (List ℕ × List ℕ))
      → Represents s head xs
      → is_unusable e s ≡ false
  unfolding is_unusable
  usable s head xs r = rw (r.opened) (ground (arith, r.buckets))

  pub bucket_lt :
      (s : HashMap File) (k : List ℕ) → 0 < s.bucket_count → bucket e s k < s.bucket_count
  unfolding bucket
  bucket_lt s k h = ground arith

  pub key_pos_eq :
      (s : HashMap File) (head : List ℕ) (xs : List (List ℕ × List ℕ)) (k : List ℕ)
      → Represents s head xs
      → key_pos e s k ≡ 8 * (1 + bucket e s k)
  unfolding key_pos
  key_pos_eq s head xs k r = omega (arith, bucket_lt s k r.buckets, r.fits)

  -- a read of eight bytes in the header of the file
  pub header-slot :
      (s : HashMap File) (head : List ℕ) (xs : List (List ℕ × List ℕ)) (i : ℕ)
      → Represents s head xs
      → i + 8 ≤ 8 * (1 + s.bucket_count)
      → take 8 (drop i (mapped s.file)) ≡ take 8 (drop i head)
  header-slot s head xs i r h =
      ap (λ t. take 8 (drop i t)) (e.mapped-take s.file)
      ∙ take-drop-take 8 i (length (mapped s.file)) (content s.file) (omega (arith, r.in_memory))
      ∙ ap (λ t. take 8 (drop i t)) r.layout
      ∙ take-drop-append 8 i head (log e (bucket e s) xs) (omega (arith, r.head_size))

  pub slot_eq :
      (s : HashMap File) (head : List ℕ) (xs : List (List ℕ × List ℕ)) (k : List ℕ)
      → Represents s head xs
      → read_word e (mapped s.file) (key_pos e s k) ≡ some (newest e (bucket e s) (bucket e s k) xs)
  slot_eq s head xs k r =
      let lt = bucket_lt s k r.buckets in
      let at = key_pos_eq s head xs k r in
      read_word-slot e (mapped s.file) (key_pos e s k) (newest e (bucket e s) (bucket e s k) xs)
        (omega (arith, newest_le e (bucket e s) (bucket e s k) xs, r.fits))
        (omega (arith, r.in_memory))
        (header-slot s head xs (key_pos e s k) r (omega arith)
          ∙ ap (λ t. take 8 (drop t head)) at
          ∙ r.slots (bucket e s k) lt)

  -- the map after `Insert`
  abbrev pub inserted : List ℕ → List ℕ → HashMap File → List (List ℕ × List ℕ) → HashMap File
  inserted k v s xs = record s {
    file =
        poke (key_pos e s k) (word e s.data_pos)
          (dump e (linked e (bucket e s) (k, v) xs) s.file).0;
    data_pos = (s.data_pos + (dump e (linked e (bucket e s) (k, v) xs) s.file).1) % 2 ^ 64;
  }

  pub insert_lem :
      (s : HashMap File) (head : List ℕ) (xs : List (List ℕ × List ℕ)) (k v : List ℕ)
      → Represents s head xs
      → insert e k v s ≡ some (inserted k v s xs)
  unfolding insert
  insert_lem s head xs k v r = rw (usable s head xs r, slot_eq s head xs k r) refl

  abbrev pub new_head : List ℕ → HashMap File → List ℕ → List ℕ
  new_head k s head = overwrite (key_pos e s k) (word e s.data_pos) head

  new_slots :
      (s : HashMap File) (head : List ℕ) (xs : List (List ℕ × List ℕ)) (k v : List ℕ)
      → Represents s head xs
      → (b : ℕ) → b < s.bucket_count
      → take 8 (drop (8 * (1 + b)) (new_head k s head))
        ≡ word e (newest e (bucket e s) b ((k, v) ∷ xs))
  unfolding newest
  new_slots s head xs k v r b h = elim (Bool-cases (bucket e s k == b)) [
    | inl p ↦ rw p (
        ap (λ t. take 8 (drop t (new_head k s head)))
          (omega (arith, key_pos_eq s head xs k r, (==_iff (bucket e s k) b).0 p))
        ∙ take-overwrite_slot 8 (key_pos e s k) (word e s.data_pos) head
            (sym (length-word e s.data_pos))
            (omega (arith, key_pos_eq s head xs k r, bucket_lt s k r.buckets, r.head_size))
        ∙ ap (word e) r.pos)
    | inr p ↦ rw p (elim (Bool-cases (ltb b (bucket e s k))) [
      | inl q ↦
          take-overwrite_before 8 (8 * (1 + b)) (key_pos e s k) (word e s.data_pos) head
            (omega (arith, key_pos_eq s head xs k r, ltb→lt b (bucket e s k) q))
          ∙ r.slots b h
      | inr q ↦
          ap (take 8) (
            drop-overwrite (key_pos e s k) (8 * (1 + b)) (word e s.data_pos) head
              (ground (arith, p, q, key_pos_eq s head xs k r, length-word e s.data_pos)))
          ∙ r.slots b h
    ])
  ]

  layout_new :
      (s : HashMap File) (head : List ℕ) (xs : List (List ℕ × List ℕ)) (k v : List ℕ)
      → Represents s head xs
      → content (inserted k v s xs).file ≡ new_head k s head ++ log e (bucket e s) ((k, v) ∷ xs)
  unfolding log
  layout_new s head xs k v r =
      let x = linked e (bucket e s) (k, v) xs in
      let i = key_pos e s k in
      let w = word e s.data_pos in
      let at = key_pos_eq s head xs k r in
      let b = bucket_lt s k r.buckets in
      let eight = length-word e s.data_pos in
      e.content-poke i w (dump e x s.file).0 (omega (arith, mapped-dump e x s.file, r.in_memory))
      ∙ ap (overwrite i w) (
          content-dump e x s.file
          ∙ ap (λ t. t ++ entry_bytes e x) r.layout
          ∙ append_assoc head (log e (bucket e s) xs) (entry_bytes e x))
      ∙ overwrite-append i w head (log e (bucket e s) xs ++ entry_bytes e x)
          (omega (arith, r.head_size))

  pub insert-Represents :
      (s : HashMap File) (head : List ℕ) (xs : List (List ℕ × List ℕ)) (k v : List ℕ)
      → Represents s head xs
      → 8 * (1 + s.bucket_count) + total ((k, v) ∷ xs) + 1 < 2 ^ 64
      → Represents (inserted k v s xs) (new_head k s head) ((k, v) ∷ xs)
  unfolding total dump bucket
  insert-Represents s head xs k v r h = record {
    opened = e.is_open-poke _ _ _ ∙ is_open-dump e _ _ ∙ r.opened;
    buckets = r.buckets;
    pos = omega (arith, r.pos);
    layout = layout_new s head xs k v r;
    head_size = length-overwrite _ _ head ∙ r.head_size;
    count = take-overwrite_before 8 0 _ _ head (omega (arith, key_pos_eq s head xs k r)) ∙ r.count;
    slots = new_slots s head xs k v r;
    in_memory = omega (
      arith,
      e.mapped-poke (key_pos e s k) (word e s.data_pos)
          (dump e (linked e (bucket e s) (k, v) xs) s.file).0,
      mapped-dump e (linked e (bucket e s) (k, v) xs) s.file,
      r.in_memory,
    );
    fits = h;
  }

  -- On a map whose file is well formed and holds given entries, with room for one more within 64-bit
  -- sizes, `Insert` reads in range and leaves a well-formed file that holds the new entry in front of
  -- them.
  pub insert-entries :
      (s : HashMap File) (head : List ℕ) (xs : List (List ℕ × List ℕ)) (k v : List ℕ)
      → Represents s head xs
      → 8 * (1 + s.bucket_count) + total ((k, v) ∷ xs) + 1 < 2 ^ 64
      → (s' : HashMap File) × (insert e k v s ≡ some s')
        × ((head' : List ℕ) × Represents s' head' ((k, v) ∷ xs))
  insert-entries s head xs k v r h = (
    inserted k v s xs,
    insert_lem s head xs k v r,
    (new_head k s head, insert-Represents s head xs k v r h),
  )
