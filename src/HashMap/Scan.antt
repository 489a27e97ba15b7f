-- ===== src/HashMap/Scan.antt =====
-- What `GetAll` and `TIterator` of containers/persistent/immutable_hashmap visit.
use cxx_library.Prelude.{
  ℕ, zero, suc, ◌+◌, ◌-◌, ◌*◌, ◌%◌, ◌^◌, ◌≤◌, ◌<◌, ◌≡◌, refl, sym, ap, subst, ◌∙◌, inl, inr, true,
  false, Option, some, none, List, [], ◌∷◌, ◌++◌, arith, ltb, ◌==◌, if◌then◌else◌, length,
  length-append, append_assoc, append-nil, Bool-cases, ltb→lt,
}
use cxx_library.Prelude.Options.{◌>>=◌}
use cxx_library.HashMap.{HashMap, read_word, restore, bucket, header_size}
use cxx_library.HashMap.Log.{entry_bytes, restore-entry_bytes, total, read_word-slot}
use cxx_library.HashMap.Chain.{newest, log, linked, newest_le, length-log}
use cxx_library.HashMap.Iterator.{Cursor, Step, yields, ends, skip_empty, next_entry, next, get_all}
use cxx_library.HashMap.Store.{Represents, usable, header-slot}
use cxx_library.HashMap.Deps.{Externals}
use cxx_library.HashMap.Buckets.{chain, chains, chain-nil, First, newest-First}

-- All that `Next` yields until it returns false, on fuel.
unfoldable pub drain : Externals → ℕ → Cursor → Option (List (List ℕ × List ℕ))
drain e zero it = none
drain e (suc fuel) it = next e it >>= λ st. elim st [
  | yields x it' ↦ drain e fuel it' >>= λ xs. some (x ∷ xs)
  | ends it' ↦ some []
]

-- a map with its whole file in memory
module _ (e : Externals) (s : HashMap e.File) (head : List ℕ) (xs : List (List ℕ × List ℕ)) where
  open e use {mapped, content}

  -- What is left to visit.
  data Holds (it : Cursor) : List (List ℕ × List ℕ) → Type 0 where
    over : it.ptr ≡ none → Holds it []
    at_bucket :
        (m : ℕ)
        → it.ptr ≡ some (mapped s.file)
        → it.count ≡ s.bucket_count
        → it.offset ≡ 0
        → it.current_bucket + suc m ≡ s.bucket_count
        → Holds it (chains (bucket e s) (suc m) it.current_bucket xs)
    in_chain :
        (m : ℕ) (ys : List (List ℕ × List ℕ)) (later : List ℕ)
        → it.ptr ≡ some (mapped s.file)
        → it.count ≡ s.bucket_count
        → it.offset ≡ newest e (bucket e s) it.current_bucket ys
        → 0 < it.offset
        → it.current_bucket + suc m ≡ s.bucket_count
        → log e (bucket e s) xs ≡ log e (bucket e s) ys ++ later
        → total ys ≤ total xs
        → Holds it (
            chain (bucket e s) it.current_bucket ys
            ++ chains (bucket e s) m (it.current_bucket + 1) xs)

  bucket_slot :
      (b : ℕ)
      → Represents e s head xs
      → b < s.bucket_count
      → read_word e (mapped s.file) (8 * (1 + b) % 2 ^ 64) ≡ some (newest e (bucket e s) b xs)
  bucket_slot b r h =
      let small : 8 * (1 + b) % 2 ^ 64 ≡ 8 * (1 + b) = omega (arith, r.fits) in
      rw small (
        read_word-slot e (mapped s.file) (8 * (1 + b)) (newest e (bucket e s) b xs)
          (omega (arith, newest_le e (bucket e s) b xs, r.fits)) (omega (arith, r.in_memory))
          (header-slot e s head xs (8 * (1 + b)) r (omega arith) ∙ r.slots b h))

  skip_empty_lem :
      (fuel m b : ℕ)
      → Represents e s head xs
      → m < fuel
      → b + suc m ≡ s.bucket_count
      → (b' m' : ℕ) × (skip_empty e fuel (mapped s.file) s.bucket_count b
          ≡ some (b', newest e (bucket e s) b' xs))
        × (b' + suc m' ≡ s.bucket_count)
        × (chains (bucket e s) (suc m) b xs ≡ chains (bucket e s) (suc m') b' xs)
        × (newest e (bucket e s) b' xs ≡ 0 → m' ≡ 0)
  unfolding skip_empty chains
  skip_empty_lem zero m b r l h = absurd (omega arith)
  skip_empty_lem (suc fuel) zero b r l h = elim (Bool-cases (ltb 0 (newest e (bucket e s) b xs))) [
    | inl p ↦ (b, 0, rw (bucket_slot b r (omega arith), p) refl, h, refl, λ z. refl)
    | inr p ↦
        let last : ((b + 1) % 2 ^ 64 == s.bucket_count) ≡ true = ground (arith, r.fits) in
        let empty : 0 ≡ newest e (bucket e s) b xs = ground (arith, p) in
        (
          b,
          0,
          rw (bucket_slot b r (omega arith), p, last) (ap (λ (t : ℕ). some (b, t)) empty),
          h,
          refl,
          λ z. refl,
        )
  ]
  skip_empty_lem (suc fuel) (suc m) b r l h =
      elim (Bool-cases (ltb 0 (newest e (bucket e s) b xs))) [
        | inl p ↦ (
          b,
          suc m,
          rw (bucket_slot b r (omega arith), p) refl,
          h,
          refl,
          λ z. ground (arith, p, z),
        )
        | inr p ↦
            let more : ((b + 1) % 2 ^ 64 == s.bucket_count) ≡ false = ground (arith, r.fits) in
            let small : (b + 1) % 2 ^ 64 ≡ b + 1 = omega (arith, r.fits) in
            let none_here = chain-nil e (bucket e s) b xs (ground (arith, p)) in
            let (b', m', found, end, rest, stop) =
              skip_empty_lem fuel m (b + 1) r (omega arith) (omega arith) in
            (
              b',
              m',
              rw (bucket_slot b r (omega arith), p, more)
                  (ap (skip_empty e fuel (mapped s.file) s.bucket_count) small ∙ found),
              end,
              ap (λ t. t ++ chains (bucket e s) (suc m) (b + 1) xs) none_here ∙ rest,
              stop,
            )
      ]

  -- the entry that a chain begins with
  restore_lem :
      (ys : List (List ℕ × List ℕ)) (later : List ℕ) (b : ℕ) (f : First e (bucket e s) b ys)
      → Represents e s head xs
      → mapped s.file ≡ content s.file
      → log e (bucket e s) xs ≡ log e (bucket e s) ys ++ later
      → total ys ≤ total xs
      → restore e
          (mapped s.file)
          ((header_size e s.bucket_count + newest e (bucket e s) b ys + 2 ^ 64 - 1) % 2 ^ 64)
        ≡ some (linked e (bucket e s) f.entry f.older)
  unfolding header_size
  restore_lem ys later b f r whole part short =
      let near = newest_le e (bucket e s) (bucket e s f.entry.0) f.older in
      restore-entry_bytes e (mapped s.file) (head ++ log e (bucket e s) f.older) (f.newer ++ later)
        (linked e (bucket e s) f.entry f.older) _
        (whole
          ∙ r.layout
          ∙ ap (λ t. head ++ t) (part ∙ ap (λ t. t ++ later) f.bytes)
          ∙ simp append_assoc)
        (omega (
          arith,
          f.place,
          f.within,
          r.fits,
          r.head_size,
          length-append head (log e (bucket e s) f.older),
          length-log e (bucket e s) f.older,
        ))
        (omega (arith, f.within, r.fits)) (omega (arith, f.within, r.fits))
        (omega (arith, near, f.within, r.fits))

  -- what a result of `Next` says of the entries that are left
  Visits : Step → List (List ℕ × List ℕ) → Type 0
  Visits (yields x it) ys = (zs : List (List ℕ × List ℕ)) × (ys ≡ x ∷ zs) × Holds it zs
  Visits (ends it) ys = ys ≡ []

  -- where `Next` goes at the end of a chain
  past_chain :
      (it : Cursor) (m : ℕ)
      → Represents e s head xs
      → it.ptr ≡ some (mapped s.file)
      → it.count ≡ s.bucket_count
      → it.offset ≡ 0
      → it.current_bucket + suc m ≡ s.bucket_count
      → (it' : Cursor) × ((if (it.current_bucket + 1) % 2 ^ 64 == it.count
            then record it { ptr = none }
            else record it { current_bucket = (it.current_bucket + 1) % 2 ^ 64 })
          ≡ it')
        × Holds it' (chains (bucket e s) m (it.current_bucket + 1) xs)
  unfolding chains
  past_chain it zero r p c o h =
      let last : ((it.current_bucket + 1) % 2 ^ 64 == it.count) ≡ true = ground (arith, r.fits) in
      (record it { ptr = none }, rw last refl, over refl)
  past_chain it (suc m) r p c o h =
      let more : ((it.current_bucket + 1) % 2 ^ 64 == it.count) ≡ false = ground (arith, r.fits) in
      let small : (it.current_bucket + 1) % 2 ^ 64 ≡ it.current_bucket + 1 =
        omega (arith, r.fits) in
      let it' = record it { current_bucket = (it.current_bucket + 1) % 2 ^ 64 } in
      (
        it',
        rw more refl,
        subst (λ (t : ℕ). Holds it' (chains (bucket e s) (suc m) t xs)) small
            (at_bucket m p c o (omega arith)),
      )

  next_entry_lem :
      (it : Cursor) (m : ℕ) (ys : List (List ℕ × List ℕ)) (later : List ℕ)
      → Represents e s head xs
      → mapped s.file ≡ content s.file
      → it.ptr ≡ some (mapped s.file)
      → it.count ≡ s.bucket_count
      → it.offset ≡ newest e (bucket e s) it.current_bucket ys
      → 0 < it.offset
      → it.current_bucket + suc m ≡ s.bucket_count
      → log e (bucket e s) xs ≡ log e (bucket e s) ys ++ later
      → total ys ≤ total xs
      → (st : Step) × (next_entry e (mapped s.file) it ≡ some st)
        × Visits st (
            chain (bucket e s) it.current_bucket ys
            ++ chains (bucket e s) m (it.current_bucket + 1) xs)
  unfolding next_entry Visits
  next_entry_lem it m ys later r whole p c o pos h part short =
      let b = it.current_bucket in
      let f = newest-First e (bucket e s) b ys (omega arith) in
      let prev = newest e (bucket e s) (bucket e s f.entry.0) f.older in
      let same_chain : prev ≡ newest e (bucket e s) b f.older =
        ap (λ (t : ℕ). newest e (bucket e s) t f.older) f.in_bucket in
      let read : restore e (mapped s.file)
            ((header_size e it.count + it.offset + 2 ^ 64 - 1) % 2 ^ 64)
          ≡ some (linked e (bucket e s) f.entry f.older) =
        rw (c, o) (restore_lem ys later b f r whole part short) in
      let rest = chains (bucket e s) m (b + 1) xs in
      let seen = ap (λ t. t ++ rest) f.visits in
      elim (Bool-cases (ltb 0 prev)) [
        | inl q ↦ (
          yields f.entry (record it { offset = prev }),
          rw (read, q) refl,
          (
            chain (bucket e s) b f.older ++ rest,
            seen,
            in_chain m f.older
                (entry_bytes e (linked e (bucket e s) f.entry f.older) ++ (f.newer ++ later)) p c
                same_chain (ltb→lt 0 prev q) h
                (part ∙ ap (λ t. t ++ later) f.bytes ∙ simp append_assoc) (omega (arith, f.within)),
          ),
        )
        | inr q ↦
            let (it', e', left) =
              past_chain (record it { offset = prev }) m r p c (ground (arith, q)) h in
            let done = chain-nil e (bucket e s) b f.older (ground (arith, q, same_chain)) in
            (
              yields f.entry it',
              rw (read, q) (ap (λ t. some (yields f.entry t)) e'),
              (rest, seen ∙ ap (λ t. f.entry ∷ t ++ rest) done, left),
            )
      ]

  flow_lem :
      (it : Cursor)
      → it.ptr ≡ some (mapped s.file)
      → ltb 0 it.offset ≡ true
      → next e it ≡ next_entry e (mapped s.file) it
  unfolding next
  flow_lem it p flow = rw (p, flow) refl

  found_lem :
      (it : Cursor) (b o : ℕ)
      → it.ptr ≡ some (mapped s.file)
      → ltb 0 it.offset ≡ false
      → skip_empty e it.count (mapped s.file) it.count it.current_bucket ≡ some (b, o)
      → ltb 0 o ≡ true
      → next e it ≡ next_entry e (mapped s.file) (record it { current_bucket = b; offset = o })
  unfolding next
  found_lem it b o p still skip q = rw (p, still, skip, q) refl

  next_lem :
      (it : Cursor) (ys : List (List ℕ × List ℕ))
      → Represents e s head xs
      → mapped s.file ≡ content s.file
      → Holds it ys
      → (st : Step) × (next e it ≡ some st) × Visits st ys
  unfolding next Visits chains
  next_lem it _ r whole (over p) = (ends it, rw p refl, refl)
  next_lem it _ r whole (in_chain m zs later p c o pos h part short) =
      let flow : ltb 0 it.offset ≡ true = ground arith in
      let (st, e', v) = next_entry_lem it m zs later r whole p c o pos h part short in
      (st, flow_lem it p flow ∙ e', v)
  next_lem it _ r whole (at_bucket m p c o h) =
      let b = it.current_bucket in
      let (b', m', found, end, left, stop) = skip_empty_lem it.count m b r (omega arith) h in
      let still : ltb 0 it.offset ≡ false = ground arith in
      let skip : skip_empty e it.count (mapped s.file) it.count b
          ≡ some (b', newest e (bucket e s) b' xs) =
        ap (λ (t : ℕ). skip_empty e it.count (mapped s.file) t b) c ∙ found in
      let it' = record it { current_bucket = b'; offset = newest e (bucket e s) b' xs } in
      elim (Bool-cases (ltb 0 (newest e (bucket e s) b' xs))) [
        | inl q ↦
            let (st, e', v) =
              next_entry_lem it' m' xs [] r whole p c refl (ltb→lt 0 _ q) end
                (sym (append-nil (log e (bucket e s) xs))) (omega arith) in
            (
              st,
              found_lem it b' (newest e (bucket e s) b' xs) p still skip q ∙ e',
              subst (λ (t : List (List ℕ × List ℕ)). Visits st t) (sym left) v,
            )
        | inr q ↦ (
          ends (record it' { ptr = none }),
          rw (p, still, skip, q) refl,
          left
              ∙ ap (λ (t : ℕ). chain (bucket e s) b' xs ++ chains (bucket e s) t (b' + 1) xs)
                  (stop (ground (arith, q)))
              ∙ ap (λ t. t ++ []) (chain-nil e (bucket e s) b' xs (ground (arith, q))),
        )
      ]

  drain-Visits :
      (fuel : ℕ) (it : Cursor) (ys : List (List ℕ × List ℕ)) (st : Step)
      → next e it ≡ some st
      → Visits st ys
      → ((it' : Cursor) (zs : List (List ℕ × List ℕ))
          → Holds it' zs
          → length zs < fuel
          → drain e fuel it' ≡ some zs)
      → length ys < suc fuel
      → drain e (suc fuel) it ≡ some ys
  unfolding drain Visits
  drain-Visits fuel it ys (yields x it') found v rest l =
      rw (found, rest it' v.0 v.2 (omega (arith, ap length v.1))) (ap some (sym v.1))
  drain-Visits fuel it ys (ends it') found v rest l = rw found (ap some (sym v))

  drain-Holds :
      (fuel : ℕ) (it : Cursor) (ys : List (List ℕ × List ℕ))
      → Represents e s head xs
      → mapped s.file ≡ content s.file
      → Holds it ys
      → length ys < fuel
      → drain e fuel it ≡ some ys
  drain-Holds zero it ys r whole h l = absurd (omega arith)
  drain-Holds (suc fuel) it ys r whole h l =
      let (st, found, v) = next_lem it ys r whole h in
      drain-Visits fuel it ys st found v (λ it' zs. drain-Holds fuel it' zs r whole) l

  abbrev first_cursor : Cursor
  first_cursor = record {
    ptr = some (mapped s.file);
    count = s.bucket_count;
    current_bucket = 0;
    offset = 0;
  }

  get_all_lem : Represents e s head xs → get_all e s ≡ first_cursor
  unfolding get_all
  get_all_lem r = rw (usable e s head xs r) refl

  -- On a well-formed map with all of its file in memory, the iterator of `GetAll` reads in range,
  -- ends, and yields the entries bucket by bucket, each bucket's newest entry first.
  pub drain-get_all :
      Represents e s head xs
      → mapped s.file ≡ content s.file
      → drain e (length (chains (bucket e s) s.bucket_count 0 xs) + 1) (get_all e s)
        ≡ some (chains (bucket e s) s.bucket_count 0 xs)
  drain-get_all r whole =
      let one_more : suc (s.bucket_count - 1) ≡ s.bucket_count = omega (arith, r.buckets) in
      rw (get_all_lem r) (
        drain-Holds (length (chains (bucket e s) s.bucket_count 0 xs) + 1) first_cursor
          (chains (bucket e s) s.bucket_count 0 xs) r whole
          (subst (λ (t : ℕ). Holds first_cursor (chains (bucket e s) t 0 xs)) one_more
            (at_bucket (s.bucket_count - 1) refl refl refl (omega arith)))
          (omega arith))
