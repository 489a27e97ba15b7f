-- ===== src/Tree/Tests.antt =====
-- The tree of containers/rbtree on a host that swaps bytes.
use cxx_library.Prelude.{
  ℕ, ◌^◌, ◌<◌, ◌≡◌, refl, inl, inr, Bool, true, false, some, List, [], ◌∷◌, ◌++◌, length, arith,
  All, ◌==◌, if◌then◌else◌,
}
use cxx_library.HostOrder.{le_bytes, of_le_bytes, swap64}
use cxx_library.HashMap.Bytes.{read_bytes}
use cxx_library.Tree.Node.{
  new_node, has_flag, set_flag, drop_flag, node_of, word, read_word, load, node_bytes, key_at,
  value_at,
}
use cxx_library.Tree.Shape.{Spot, Tree, leaf, branch, top, node_at, spots, Holds}
use cxx_library.Tree.Get.{found_value, get, get-find, value_of, find}
use cxx_library.Tree.Rotate.{Object, rotate_left, Turned, rotate}
use cxx_library.Tree.Rotate.Pieces.{Pieces}
use cxx_library.Tree.Rotate.Turn.{turned_tree}
use cxx_library.Tree.Insert.{
  Placed, insert_impl, insert, data_size, insert_int, get_int64, get_int32, get_int16,
}
use cxx_library.Tree.Insert.Store.{AreApart, plug, object_at}
use cxx_library.Tree.Insert.Turns.{rotate-spots}
use cxx_library.Tree.Insert.First.{insert-get_first, insert_int-get_int}
use cxx_library.Tree.Insert.Descent.{insert_impl-find}
use cxx_library.Tree.Insert.Ends.{settled_bytes}
use cxx_library.Tree.Order.{Ordered, insert_spot}
use cxx_library.Tree.Codec.{HasKey}
use cxx_library.Tree.Iterator.{Cursor, get_all, drain}
use cxx_library.Tree.Iterator.After.{post_order}
use cxx_library.Tree.Iterator.Drain.{HasItem, drain-post_order}
use cxx_library.Tree.Insert.Data.{value_link}
use cxx_library.Tree.Plain.{plain_host, zeros}

-- Three nodes, each the right child of the one before; the last has a value.
abbrev spot_a : Spot
spot_a = record { offset = 0; key = b'a' ∷ []; value = 0 }

abbrev spot_b : Spot
spot_b = record { offset = 41; key = b'b' ∷ []; value = 0 }

abbrev spot_c : Spot
spot_c = record { offset = 82; key = b'c' ∷ []; value = 124 }

abbrev below : Tree
below = branch true spot_c leaf leaf

abbrev three : Tree
three = branch false spot_a leaf (branch true spot_b leaf below)

abbrev node_text : Bool → Spot → ℕ → ℕ → ℕ → List ℕ
node_text c s p l r =
    node_bytes plain_host (node_at c s p l r) ++ (word plain_host (length s.key) ++ s.key)

abbrev three_bytes : List ℕ
three_bytes =
    node_text false spot_a 0 0 42
    ++ (node_text true spot_b 1 0 83
        ++ (node_text true spot_c 42 0 0 ++ (word plain_host 2 ++ (b'x' ∷ b'y' ∷ []))))

three-Holds : Holds plain_host three_bytes 0 three
unfolding load read_word word node_bytes node_of has_flag set_flag drop_flag read_bytes le_bytes
    of_le_bytes swap64
three-Holds =
    ((refl, (refl, refl)), (tt, (((refl, (refl, refl)), (tt, ((refl, (refl, refl)), (tt, tt)))))))

length-three_bytes : length three_bytes ≡ 133
unfolding word node_bytes set_flag has_flag le_bytes
length-three_bytes = refl

get-find_example :
    get plain_host three_bytes (b'c' ∷ []) 3 0
    ≡ value_of plain_host three_bytes (b'c' ∷ []) (find plain_host.cmp (b'c' ∷ []) three)
get-find_example =
    get-find plain_host three_bytes (b'c' ∷ []) 3 false spot_a leaf (branch true spot_b leaf below)
      three-Holds (omega (arith, length-three_bytes)) (omega arith)

get_example : get plain_host three_bytes (b'c' ∷ []) 3 0 ≡ some (b'x' ∷ b'y' ∷ [])
unfolding get key_at value_at load read_word word node_bytes node_of has_flag set_flag drop_flag
    read_bytes le_bytes of_le_bytes swap64
get_example = refl

abbrev line : Pieces
line = record { path = top; node = spot_a; child = spot_b; near = leaf; middle = leaf; far = below }

abbrev no_root : Object
no_root = record { ptr = 0; node = new_node }

line-AreApart : AreApart 133 (spots three ++ [])
line-AreApart = (
  omega arith,
  (
    omega arith,
    (
      ((inl (omega arith), (inl (omega arith), tt)), ((inl (omega arith), tt), (tt, tt))),
      ((omega arith, omega arith), ((omega arith, omega arith), ((omega arith, omega arith), tt))),
    ),
  ),
)

rotate-spots_example :
    (t : Turned) × (rotate plain_host rotate_left three_bytes no_root 0
        (record { ptr = 0; node = node_at false spot_a 0 0 42 })
      ≡ some t)
    × ((Holds plain_host t.bytes 0 (plug top (turned_tree rotate_left line false true))
          × (length t.bytes ≡ 133))
        × (spots (plug top (turned_tree rotate_left line false true)) ≡ spots three))
rotate-spots_example =
    rotate-spots plain_host 133 rotate_left three_bytes line false true no_root length-three_bytes
      line-AreApart tt (three-Holds, tt)

pair_small : data_size plain_host (b'k' ∷ []) (b'x' ∷ []) < 2 ^ 60
unfolding data_size
pair_small = omega arith

insert-get_first_example :
    (b : List ℕ) × (insert plain_host 0
        (record { bytes = []; root_offset = 0 })
        (b'k' ∷ [])
        (b'x' ∷ [])
      ≡ some (record { bytes = b; root_offset = 0 }))
    × (Holds plain_host b 0 (
          branch false
            (record {
              offset = 0;
              key = b'k' ∷ [];
              value = value_link plain_host 0 (b'k' ∷ []) (b'x' ∷ []);
            })
            leaf
            leaf)
        × ((get plain_host b (b'k' ∷ []) 1 0 ≡ some (b'x' ∷ []))
            × (length b ≡ data_size plain_host (b'k' ∷ []) (b'x' ∷ []))))
insert-get_first_example =
    insert-get_first plain_host 0 (b'k' ∷ []) (b'x' ∷ []) (omega arith) pair_small

int_small : data_size plain_host (word plain_host 7) (b'x' ∷ []) < 2 ^ 60
unfolding data_size word le_bytes
int_small = omega arith

insert_int-get_int_example :
    (b : List ℕ) × (insert_int plain_host 0 (record { bytes = []; root_offset = 0 }) 7 (b'x' ∷ [])
      ≡ some (record { bytes = b; root_offset = 0 }))
    × ((get_int64 plain_host b 1 0 7 ≡ some (b'x' ∷ []))
        × ((get_int32 plain_host b 1 0 7 ≡ some []) × (get_int16 plain_host b 1 0 7 ≡ some [])))
insert_int-get_int_example = insert_int-get_int plain_host 0 7 (b'x' ∷ []) int_small

-- One node in the tree, and the key of another behind it.
abbrev one : Tree
one = branch false spot_a leaf leaf

abbrev one_bytes : List ℕ
one_bytes = node_text false spot_a 0 0 0 ++ (zeros 32 ++ (word plain_host 1 ++ (b'b' ∷ [])))

one-Holds : Holds plain_host one_bytes 0 one
unfolding load read_word word node_bytes node_of has_flag set_flag drop_flag read_bytes le_bytes
    of_le_bytes swap64
one-Holds = ((refl, (refl, refl)), (tt, tt))

b-HasKey : HasKey plain_host one_bytes 41 (b'b' ∷ [])
unfolding read_word word node_bytes set_flag has_flag read_bytes le_bytes of_le_bytes swap64
b-HasKey = (refl, refl)

length-one_bytes : length one_bytes ≡ 82
unfolding word node_bytes set_flag has_flag le_bytes
length-one_bytes = refl

two-AreApart : AreApart 82 (spot_b ∷ spots one)
two-AreApart = (
  omega arith,
  (
    omega arith,
    (
      ((inr (omega arith), tt), (tt, tt)),
      ((omega arith, omega arith), ((omega arith, omega arith), tt)),
    ),
  ),
)

insert_impl-find_example :
    (p : Placed) × (insert_impl plain_host 1 one_bytes 0 (object_at true spot_b 0 0 0) (b'b' ∷ [])
      ≡ some p)
    × ((t : Tree) × Holds plain_host (settled_bytes plain_host 82 spot_b p) 0 t
        × ((spots t ≡ insert_spot plain_host spot_b (spots one))
            × (Ordered plain_host (spots t) × (find plain_host.cmp (b'b' ∷ []) t ≡ some 0))))
insert_impl-find_example =
    insert_impl-find plain_host 82 spot_b 1 one_bytes false spot_a leaf leaf length-one_bytes
      two-AreApart (omega arith) b-HasKey (tt, tt) one-Holds (omega arith)

abbrev value_at_node : Spot → List ℕ
value_at_node s = if s.offset == 82 then b'x' ∷ b'y' ∷ [] else []

three-HasItem : All (HasItem plain_host three_bytes value_at_node) (post_order three)
unfolding found_value value_at read_word word node_bytes set_flag has_flag read_bytes le_bytes
    of_le_bytes swap64
three-HasItem = (refl, (refl, (refl, tt)))

drain-post_order_example :
    (k : Cursor) × (get_all plain_host three_bytes 3 0 ≡ some k)
    × (drain plain_host three_bytes 3 3 k
        ≡ some ((b'c' ∷ [], b'x' ∷ b'y' ∷ []) ∷ ((b'b' ∷ [], []) ∷ ((b'a' ∷ [], []) ∷ []))))
drain-post_order_example =
    drain-post_order plain_host three_bytes value_at_node 3 3 false spot_a leaf
      (branch true spot_b leaf below) three-Holds line-AreApart.1.1.0
      (omega (arith, length-three_bytes)) (omega arith) three-HasItem (omega arith)
