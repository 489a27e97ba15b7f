-- ===== src/Tree/Insert/Data.antt =====
-- What `Insert` writes behind the place of a node: its key and its value, each behind its size.
use cxx_library.Prelude.{
  ℕ, suc, ◌+◌, ◌*◌, ◌^◌, ◌<◌, ◌≤◌, ◌≡◌, refl, sym, ap, subst, ◌∙◌, inl, inr, true, Option, some,
  List, [], ◌∷◌, length, arith, ltb, leb, if◌then◌else◌, if_true,
}
use cxx_library.Prelude.Options.{◌>>=◌}
use cxx_library.HostOrder.{of_le_bytes, of_le_bytes-le_bytes}
use cxx_library.HashMap.Bytes.{read_bytes, overwrite, length-overwrite, take-overwrite_slot}
use cxx_library.Tree.Host.{Host}
use cxx_library.Tree.Node.{Node, word, read_word, value_at, dump, node_bytes}
use cxx_library.Tree.Codec.{
  Apart, HasKey, Apart-inside, read_bytes-overwrite, length-word, length-node_bytes,
}
use cxx_library.Tree.Get.{found_value}
use cxx_library.Tree.Insert.{write_data, data_size}

pub read_bytes-overwrite_same :
    (i : ℕ) (xs b : List ℕ)
    → i + length xs ≤ length b
    → read_bytes (overwrite i xs b) i (length xs) ≡ some xs
unfolding read_bytes
read_bytes-overwrite_same i xs b room =
    let inside : leb (i + length xs) (length (overwrite i xs b)) ≡ true =
      ground (arith, length-overwrite i xs b) in
    if_true _ _ inside ∙ ap some (take-overwrite_slot (length xs) i xs b refl room)

module _ (h : Host) where
  -- Some bytes behind their size.
  abbrev pub HasBlob : List ℕ → ℕ → List ℕ → Type 0
  HasBlob b i xs =
      (read_word h b i ≡ some (length xs)) × (read_bytes b (i + 8) (length xs) ≡ some xs)

  read_word-written :
      (b : List ℕ) (i n : ℕ)
      → n < 2 ^ 64
      → i + 8 ≤ length b
      → read_word h (overwrite i (word h n) b) i ≡ some n
  unfolding read_word word
  read_word-written b i n small room =
      let size : i + length (word h n) ≤ length b = omega (arith, length-word h n) in
      let found =
        subst (λ k. read_bytes (overwrite i (word h n) b) i k ≡ some (word h n)) (length-word h n)
          (read_bytes-overwrite_same i (word h n) b size) in
      ap (λ (o : Option (List ℕ)). o >>= λ xs. some (h.ntoh (of_le_bytes xs))) found
      ∙ ap (λ w. some (h.ntoh w)) (of_le_bytes-le_bytes (h.hton n) (h.hton-lt n small))
      ∙ ap some (h.ntoh-hton n small)

  pub blob_kept :
      (b : List ℕ) (j i : ℕ) (ys xs : List ℕ)
      → Apart i (8 + length xs) j (length ys)
      → HasBlob b i xs
      → HasBlob (overwrite j ys b) i xs
  unfolding read_word
  blob_kept b j i ys xs apart blob =
      let n = 8 + length xs in
      (
        ap (λ (o : Option (List ℕ)). o >>= λ zs. some (h.ntoh (of_le_bytes zs)))
              (read_bytes-overwrite j i 8 ys b
                (Apart-inside i n i 8 j (length ys) apart (omega arith) (omega arith)))
            ∙ blob.0,
        read_bytes-overwrite j (i + 8) (length xs) ys b
              (Apart-inside i n (i + 8) (length xs) j (length ys) apart (omega arith) (omega arith))
            ∙ blob.1,
      )

  blob_written :
      (b : List ℕ) (i : ℕ) (xs : List ℕ)
      → length xs < 2 ^ 64
      → i + 8 + length xs ≤ length b
      → HasBlob (overwrite (i + 8) xs (overwrite i (word h (length xs)) b)) i xs
  unfolding read_word
  blob_written b i xs small room =
      let b1 = overwrite i (word h (length xs)) b in
      let room1 : i + 8 + length xs ≤ length b1 =
        omega (arith, room, length-overwrite i (word h (length xs)) b) in
      (
        ap (λ (o : Option (List ℕ)). o >>= λ zs. some (h.ntoh (of_le_bytes zs)))
              (read_bytes-overwrite (i + 8) i 8 xs b1 (inl (omega arith)))
            ∙ read_word-written b i (length xs) small (omega arith),
        read_bytes-overwrite_same (i + 8) xs b1 room1,
      )

  -- The number that stands for a value in its node.
  abbrev pub value_link : ℕ → List ℕ → List ℕ → ℕ
  value_link at key value = if ltb 0 (length value) then 1 + at + 32 + 8 + length key else 0

  -- The bytes have the value that a node's number stands for.
  abbrev pub HasValue : List ℕ → ℕ → List ℕ → List ℕ → Type 0
  HasValue b at key [] = Unit
  HasValue b at key (x ∷ xs) = HasBlob b (at + 32 + 8 + length key) (x ∷ xs)

  pub found_value-HasValue :
      (b : List ℕ) (at : ℕ) (key k value : List ℕ)
      → HasValue b at key value
      → found_value h b k (value_link at key value) ≡ some value
  unfolding found_value value_at
  found_value-HasValue b at key k [] has = refl
  found_value-HasValue b at key k (x ∷ xs) has =
      let some_bytes : ltb 0 (length (x ∷ xs)) ≡ true = ground arith in
      let next : 1 + at + 32 + 8 + length key ≡ suc (at + 32 + 8 + length key) = omega arith in
      ap (found_value h b k) (if_true _ _ some_bytes ∙ next)
      ∙ ap (λ (o : Option ℕ). o >>= λ n. read_bytes b (at + 32 + 8 + length key + 8) n) has.0
      ∙ has.1

  pub write_data-HasKey :
      (b : List ℕ) (at : ℕ) (key value : List ℕ)
      → at + data_size h key value ≤ length b
      → length b < 2 ^ 64
      → HasKey h (write_data h b at key value) at key
        × HasValue (write_data h b at key value) at key value
  unfolding write_data data_size
  write_data-HasKey b at key [] room small =
      (blob_written b (at + 32) key (omega arith) (omega arith), tt)
  write_data-HasKey b at key (x ∷ xs) room small =
      let value = x ∷ xs in
      let some_bytes : ltb 0 (length value) ≡ true = ground arith in
      let size : data_size h key value ≡ 32 + 8 + length key + (8 + length value) =
        ap (λ n. 32 + 8 + length key + n) (if_true _ _ some_bytes) in
      let b1 = overwrite (at + 32) (word h (length key)) b in
      let keyed = overwrite (at + 32 + 8) key b1 in
      let same : length keyed ≡ length b =
        length-overwrite (at + 32 + 8) key b1
        ∙ length-overwrite (at + 32) (word h (length key)) b in
      let i = at + 32 + 8 + length key in
      let sized = overwrite i (word h (length value)) keyed in
      let next : at + 32 + 8 * 2 + length key ≡ i + 8 = omega arith in
      let written =
        if_true (overwrite (at + 32 + 8 * 2 + length key) value sized) keyed some_bytes
        ∙ ap (λ j. overwrite j value sized) next in
      let key_there =
        blob_written b (at + 32) key (omega (arith, room, size)) (omega (arith, room, size)) in
      let key_kept =
        blob_kept keyed i (at + 32) (word h (length value)) key (inl (omega arith)) key_there in
      subst (λ d. HasKey h d at key × HasBlob d i value) (sym written)
        (
          blob_kept sized (i + 8) (at + 32) value key (inl (omega arith)) key_kept,
          blob_written keyed i value (omega (arith, room, size, small))
              (omega (arith, room, size, same)),
        )

  -- The object of a node dumped in front of them leaves both.
  pub data_dumped :
      (b : List ℕ) (at : ℕ) (key value : List ℕ) (n : Node)
      → HasKey h b at key × HasValue b at key value
      → HasKey h (dump h b at n) at key × HasValue (dump h b at n) at key value
  unfolding dump
  data_dumped b at key [] n has = (
    blob_kept b at (at + 32) (node_bytes h n) key (inr (omega (arith, length-node_bytes h n)))
        has.0,
    tt,
  )
  data_dumped b at key (x ∷ xs) n has = (
    blob_kept b at (at + 32) (node_bytes h n) key (inr (omega (arith, length-node_bytes h n)))
        has.0,
    blob_kept b at (at + 32 + 8 + length key) (node_bytes h n) (x ∷ xs)
        (inr (omega (arith, length-node_bytes h n))) has.1,
  )

  pub length-write_data :
      (b : List ℕ) (at : ℕ) (key value : List ℕ) → length (write_data h b at key value) ≡ length b
  unfolding write_data
  length-write_data b at key [] =
      length-overwrite (at + 32 + 8) key (overwrite (at + 32) (word h (length key)) b)
      ∙ length-overwrite (at + 32) (word h (length key)) b
  length-write_data b at key (x ∷ xs) =
      let keyed = overwrite (at + 32 + 8) key (overwrite (at + 32) (word h (length key)) b) in
      let i = at + 32 + 8 + length key in
      let sized = overwrite i (word h (length (x ∷ xs))) keyed in
      let some_bytes : ltb 0 (length (x ∷ xs)) ≡ true = ground arith in
      ap length (if_true (overwrite (at + 32 + 8 * 2 + length key) (x ∷ xs) sized) keyed some_bytes)
      ∙ length-overwrite (at + 32 + 8 * 2 + length key) (x ∷ xs) sized
      ∙ length-overwrite i (word h (length (x ∷ xs))) keyed
      ∙ length-overwrite (at + 32 + 8) key (overwrite (at + 32) (word h (length key)) b)
      ∙ length-overwrite (at + 32) (word h (length key)) b

  pub value_link-lt :
      (at : ℕ) (key value : List ℕ)
      → at + data_size h key value < 2 ^ 60
      → value_link at key value < 2 ^ 64
  unfolding data_size
  value_link-lt at key value small = ground arith
