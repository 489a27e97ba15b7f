-- ===== src/HashMap/Log.antt =====
-- The log of containers/persistent/immutable_hashmap as a list of entries, the newest first, and
-- what `TValue::Restore` and the loop of `Get` read in it.
use cxx_library.Prelude.{
  ℕ, ◌+◌, ◌*◌, ◌^◌, ◌≤◌, ◌<◌, ◌≡◌, refl, sym, ap, ◌∙◌, some, List, [], ◌∷◌, ◌++◌, arith, length,
  length-append, append_assoc, take, drop, take-append-drop, length-take,
}
use cxx_library.HostOrder.{length-le_bytes, of_le_bytes-le_bytes}
use cxx_library.HashMap.{Entry, word, read_word, restore, dump}
use cxx_library.HashMap.Bytes.{read_bytes, read_bytes-at}
use cxx_library.HashMap.Deps.{Externals}

pub regroup : (d pre xs rest : List ℕ) → d ≡ pre ++ (xs ++ rest) → d ≡ (pre ++ xs) ++ rest
regroup d pre xs rest h = h ∙ sym (append_assoc pre xs rest)

abbrev pub entry_size : List ℕ × List ℕ → ℕ
entry_size x = 8 * 3 + length x.0 + length x.1

unfoldable pub total : List (List ℕ × List ℕ) → ℕ
total [] = 0
total (x ∷ xs) = entry_size x + total xs

module _ (e : Externals) where
  open e use {hton, ntoh, same}

  pub length-word : (n : ℕ) → length (word e n) ≡ 8
  unfolding word
  length-word n = length-le_bytes 8 (hton n)

  pub read_word-word :
      (d pre suf : List ℕ) (n i : ℕ)
      → n < 2 ^ 64
      → d ≡ pre ++ (word e n ++ suf)
      → i ≡ length pre
      → read_word e d i ≡ some n
  unfolding read_word word
  read_word-word d pre suf n i h f g =
      let found : read_bytes d i 8 ≡ some (word e n) =
        read_bytes-at d pre (word e n) suf i 8 f g (sym (length-word n)) in
      rw (found, of_le_bytes-le_bytes (hton n) (e.hton-lt n h), e.ntoh-hton n h) refl

  pub read_word-slot :
      (d : List ℕ) (i n : ℕ)
      → n < 2 ^ 64
      → i + 8 ≤ length d
      → take 8 (drop i d) ≡ word e n
      → read_word e d i ≡ some n
  read_word-slot d i n h r f =
      read_word-word d (take i d) (drop 8 (drop i d)) n i h
        (sym (take-append-drop i d)
          ∙ ap (λ t. take i d ++ t)
              (sym (take-append-drop 8 (drop i d)) ∙ ap (λ t. t ++ drop 8 (drop i d)) f))
        (omega (arith, length-take i d))

  -- the bytes of an entry
  abbrev pub entry_bytes : Entry → List ℕ
  entry_bytes x =
      word e (length x.key) ++ (x.key ++ (word e (length x.value) ++ (x.value ++ word e x.prev)))

  pub restore-entry_bytes :
      (d pre suf : List ℕ) (x : Entry) (at : ℕ)
      → d ≡ pre ++ (entry_bytes x ++ suf)
      → at ≡ length pre
      → length x.key < 2 ^ 64
      → length x.value < 2 ^ 64
      → x.prev < 2 ^ 64
      → restore e d at ≡ some x
  unfolding restore
  restore-entry_bytes d pre suf x at f g k v p =
      let w1 = word e (length x.key) in
      let w2 = word e (length x.value) in
      let w3 = word e x.prev in
      let f1 : d ≡ pre ++ (w1 ++ (x.key ++ (w2 ++ (x.value ++ (w3 ++ suf))))) =
        f ∙ ap (λ t. pre ++ t) (simp append_assoc) in
      let f2 = regroup d pre w1 _ f1 in
      let f3 = regroup d (pre ++ w1) x.key _ f2 in
      let f4 = regroup d (pre ++ w1 ++ x.key) w2 _ f3 in
      let f5 = regroup d (pre ++ w1 ++ x.key ++ w2) x.value _ f4 in
      let l1 = length-append pre w1 in
      let l2 = length-append (pre ++ w1) x.key in
      let l3 = length-append (pre ++ w1 ++ x.key) w2 in
      let l4 = length-append (pre ++ w1 ++ x.key ++ w2) x.value in
      let m1 = length-word (length x.key) in
      let m2 = length-word (length x.value) in
      let c1 = read_word-word d pre _ (length x.key) at k f1 g in
      let c2 = read_bytes-at d (pre ++ w1) x.key _ (at + 8) (length x.key) f2 (omega arith) refl in
      let c3 =
        read_word-word d (pre ++ w1 ++ x.key) _ (length x.value) (at + 8 + length x.key) v f3
          (omega arith) in
      let c4 =
        read_bytes-at d (pre ++ w1 ++ x.key ++ w2) x.value _ (at + 8 + length x.key + 8)
          (length x.value) f4 (omega arith) refl in
      let c5 =
        read_word-word d (pre ++ w1 ++ x.key ++ w2 ++ x.value) suf x.prev
          (at + 8 + length x.key + 8 + length x.value) p f5 (omega arith) in
      rw (c1, c2, c3, c4, c5) refl

  pub content-dump :
      (x : Entry) (f : e.File) → e.content (dump e x f).0 ≡ e.content f ++ entry_bytes x
  unfolding dump
  content-dump x f =
      e.content-append (word e x.prev) (a4)
      ∙ ap (λ t. t ++ word e x.prev) (e.content-append x.value a3)
      ∙ ap (λ t. t ++ x.value ++ word e x.prev) (e.content-append (word e (length x.value)) a2)
      ∙ ap (λ t. t ++ word e (length x.value) ++ x.value ++ word e x.prev)
          (e.content-append x.key a1)
      ∙ ap (λ t. t ++ x.key ++ word e (length x.value) ++ x.value ++ word e x.prev)
          (e.content-append (word e (length x.key)) f)
      ∙ simp append_assoc
    where
      a1 : e.File
      a1 = e.append (word e (length x.key)) f

      a2 : e.File
      a2 = e.append x.key a1

      a3 : e.File
      a3 = e.append (word e (length x.value)) a2

      a4 : e.File
      a4 = e.append x.value a3

  pub is_open-dump : (x : Entry) (f : e.File) → e.is_open (dump e x f).0 ≡ e.is_open f
  unfolding dump
  is_open-dump x f = simp e.is_open-append

  pub mapped-dump :
      (x : Entry) (f : e.File) → length (e.mapped f) ≤ length (e.mapped (dump e x f).0)
  unfolding dump
  mapped-dump x f = grind (arith, e.mapped-append)
