-- ===== src/Tree/Insert/First.antt =====
-- `Insert` of containers/rbtree/rbtree.cpp into a tree that has no bytes.
use cxx_library.Prelude.{
  ℕ, suc, ◌^◌, ◌<◌, ◌≡◌, ◌≢◌, refl, ap, ◌∙◌, false, some, none, List, [], length, Ordering, arith,
  ◌==◌, if_false,
}
use cxx_library.HostOrder.{le_bytes, length-le_bytes}
use cxx_library.Tree.Host.{Host}
use cxx_library.Tree.Node.{Node, new_node, dump, word}
use cxx_library.Tree.Codec.{length-dump, load-dump, length-word}
use cxx_library.Tree.Get.{get, get-find, value_of}
use cxx_library.Tree.Shape.{Spot, leaf, branch, Holds}
use cxx_library.Tree.Insert.{
  write_data, data_size, data_node, insert, insert_int, get_int64, get_int32, get_int16,
}
use cxx_library.Tree.Insert.Data.{
  value_link, value_link-lt, found_value-HasValue, write_data-HasKey, data_dumped,
  length-write_data,
}

module _ (h : Host) where
  -- `Insert` into a tree of no bytes gives one with a single node, black, as many bytes as its data takes, from
  -- which `Get` reads the value back; the key not empty, and the bytes fewer than 2^60.
  pub insert-get_first :
      (fuel : ℕ) (key value : List ℕ)
      → 0 < length key
      → data_size h key value < 2 ^ 60
      → (b : List ℕ) × (insert h fuel (record { bytes = []; root_offset = 0 }) key value
          ≡ some (record { bytes = b; root_offset = 0 }))
        × (Holds h b 0 (
              branch false
                (record { offset = 0; key = key; value = value_link h 0 key value })
                leaf
                leaf)
            × ((get h b key (suc fuel) 0 ≡ some value) × (length b ≡ data_size h key value)))
  unfolding insert data_node data_size
  insert-get_first fuel key value some_key small =
      let size = data_size h key value in
      let blank = h.fresh size [] in
      let same : length blank ≡ size = h.length-fresh size [] in
      let written = write_data h blank 0 key value in
      let node : Node = record new_node {
        is_red = false;
        value_offset = value_link h 0 key value;
      } in
      let b = dump h written 0 node in
      let spot : Spot = record { offset = 0; key = key; value = value_link h 0 key value } in
      let no_key : (length key == 0) ≡ false = ground arith in
      let has = data_dumped h written 0 key value node (
        write_data-HasKey h blank 0 key value (omega (arith, same)) (omega (arith, same, small))) in
      let bytes : length b ≡ size =
        length-dump h written 0 node ∙ length-write_data h blank 0 key value ∙ same in
      let loaded =
        load-dump h written 0 node
          (
            omega arith,
            omega arith,
            omega arith,
            value_link-lt h 0 key value (omega (arith, small)),
          )
          (omega (arith, same, length-write_data h blank 0 key value)) in
      let holds : Holds h b 0 (branch false spot leaf leaf) = ((loaded, has.0), (tt, tt)) in
      (
        b,
        if_false _ _ no_key,
        (
          holds,
          (
            get-find h b key (suc fuel) false spot leaf leaf holds (omega (arith, bytes))
                  (omega arith)
                ∙ ap
                    (λ (o : Ordering). value_of h b key (elim o [
                      | Ordering.lt ↦ none
                      | Ordering.gt ↦ none
                      | Ordering.eq ↦ some (value_link h 0 key value)
                    ]))
                    (h.cmp-self key)
                ∙ found_value-HasValue h b 0 key key value has.1,
            bytes,
          ),
        ),
      )

  other_key :
      (b k : List ℕ) (v : ℕ) (o : Ordering)
      → o ≢ Ordering.eq
      → value_of h b k (elim o [ Ordering.lt ↦ none | Ordering.gt ↦ none | Ordering.eq ↦ some v ])
        ≡ some []
  other_key b k v Ordering.lt e = refl
  other_key b k v Ordering.gt e = refl
  other_key b k v Ordering.eq e = absurd (e refl)

  -- A key of another size is not found in a tree of one node.
  get_first-other :
      (fuel : ℕ) (b k key : List ℕ) (v : ℕ)
      → Holds h b 0 (branch false (record { offset = 0; key = key; value = v }) leaf leaf)
      → 0 < length b
      → length k ≢ length key
      → get h b k (suc fuel) 0 ≡ some []
  get_first-other fuel b k key v holds some_bytes other =
      get-find h b k (suc fuel) false (record { offset = 0; key = key; value = v }) leaf leaf holds
        some_bytes (omega arith)
      ∙ other_key b k v (h.cmp k key) (λ e. other (h.cmp-length k key e))

  -- An integer of 64, 32 or 16 bits put into a tree of no bytes, the bytes fewer than 2^60: `Get` of
  -- 64 bits finds the value, and those of 32 and of 16 bits return the empty blob.
  pub insert_int-get_int :
      (fuel : ℕ) (key : ℕ) (value : List ℕ)
      → data_size h (word h key) value < 2 ^ 60
      → (b : List ℕ) × (insert_int h fuel (record { bytes = []; root_offset = 0 }) key value
          ≡ some (record { bytes = b; root_offset = 0 }))
        × (((get_int64 h b (suc fuel) 0 key ≡ some value))
            × ((get_int32 h b (suc fuel) 0 key ≡ some [])
                × (get_int16 h b (suc fuel) 0 key ≡ some [])))
  unfolding insert_int get_int64 get_int32 get_int16 data_size
  insert_int-get_int fuel key value small =
      let (b, done, (holds, (got, bytes))) =
        insert-get_first fuel (word h key) value (omega (arith, length-word h key)) small in
      let some_bytes : 0 < length b = omega (arith, bytes) in
      (
        b,
        done,
        (
          got,
          (
            get_first-other fuel b (le_bytes 4 (h.hton32 key)) (word h key)
                (value_link h 0 (word h key) value) holds some_bytes
                (λ e.
                  absurd (omega (arith, e, length-word h key, length-le_bytes 4 (h.hton32 key)))),
            get_first-other fuel b (le_bytes 2 (h.hton16 key)) (word h key)
                (value_link h 0 (word h key) value) holds some_bytes
                (λ e.
                  absurd (omega (arith, e, length-word h key, length-le_bytes 2 (h.hton16 key)))),
          ),
        ),
      )
