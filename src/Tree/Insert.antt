-- ===== src/Tree/Insert.antt =====
-- `TRBTreeBase::Insert` of containers/rbtree/rbtree.cpp, with `Root` and `InsertImpl`. The offsets that
-- the source keeps beside a node's object are where the object was loaded from. A read out of range,
-- or too little fuel, is `none`.
pub mod Store
pub mod Turns
pub mod Data
pub mod First
pub mod Moved
pub mod Ends
pub mod Descent
use cxx_library.Prelude.{
  ℕ, zero, suc, ◌+◌, ◌-◌, ◌*◌, Bool, true, false, not, ◌&&◌, ◌||◌, Option, none, some, List, [],
  ◌∷◌, ◌++◌, ltb, ◌==◌, if◌then◌else◌, length, Ordering,
}
use cxx_library.Prelude.Options.{◌>>=◌}
use cxx_library.HashMap.Bytes.{overwrite}
use cxx_library.HostOrder.{le_bytes}
use cxx_library.Tree.Host.{Host}
use cxx_library.Tree.Get.{get}
use cxx_library.Tree.Node.{Node, new_node, word, load, dump, key_at}
use cxx_library.Tree.Rotate.{
  Object, Side, rotate_left, rotate_right, Turned, save, fetch, rotate, far, near,
}

-- `TRBTreeBase`, with its backend's bytes
pub record RbTree : Type 0 where
  pub bytes : List ℕ
  pub root_offset : ℕ

abbrev pub set_parent : ℕ → Object → Object
set_parent p o = record o { node = record o.node { parent = p } }

-- `PaintBlack` and `PaintRed`
abbrev pub paint : Bool → Object → Object
paint red o = record o { node = record o.node { is_red = red } }

-- What `InsertImpl` leaves: the bytes, its argument `root`, and its result.
pub record Placed : Type 0 where
  pub bytes : List ℕ
  pub root : Object
  pub node : Object
  pub is_new : Bool

-- What the tests of case 4 leave: the bytes, the objects, and whether the loop goes on.
pub record Straight : Type 0 where
  pub bytes : List ℕ
  pub parent : Object
  pub root : Object
  pub node : Object
  pub goes_on : Bool

module _ (h : Host) where
  open h use {cmp}

  -- `Root`: the offset of the root above a node
  unfoldable pub find_root : ℕ → List ℕ → ℕ → Option ℕ
  find_root zero b at = none
  find_root (suc fuel) b at =
      load h b at >>= λ n. elim n.parent [ zero ↦ some at | suc p ↦ find_root fuel b p ]

  -- the end of `InsertImpl` at a node that has no child there
  unfoldable pub place : List ℕ → Object → Object → Placed
  place b root node =
      let node' = set_parent (suc root.ptr) node in
      record { bytes = save h b node'; root = root; node = node'; is_new = true }

  -- a key that is there already
  unfoldable pub replace : List ℕ → Object → Object → Placed
  replace b root node =
      let root' : Object = record root {
        node = record root.node { value_offset = node.node.value_offset };
      } in
      record { bytes = save h b root'; root = root'; node = node; is_new = false }

  -- `InsertImpl`, with the offset that `root` is loaded from
  unfoldable pub insert_impl : ℕ → List ℕ → ℕ → Object → List ℕ → Option Placed
  unfolding place replace
  insert_impl zero b at node key = none
  insert_impl (suc fuel) b at node key = do
    root ← fetch h b at
    k ← key_at h b at
    elim (cmp key k) [
      | Ordering.lt ↦ elim root.node.left [
        | zero ↦
            some (place b (record root { node = record root.node { left = suc node.ptr } }) node)
        | suc next ↦ insert_impl fuel b next node key
      ]
      | Ordering.gt ↦ elim root.node.right [
        | zero ↦
            some (place b (record root { node = record root.node { right = suc node.ptr } }) node)
        | suc next ↦ insert_impl fuel b next node key
      ]
      | Ordering.eq ↦ some (replace b root node)
    ]

  -- case 4 after `Rotate`: the objects are loaded again, the child that is the old `root` as `node`
  unfoldable pub reload : List ℕ → Object → Object → Object → ℕ → Option Straight
  reload b parent root node zero =
      some (record { bytes = b; parent = parent; root = root; node = node; goes_on = false })
  reload b parent root node (suc below) = do
    node' ← fetch h b below
    elim node'.node.parent [
      | zero ↦
          some (record { bytes = b; parent = parent; root = root; node = node'; goes_on = true })
      | suc i ↦ do
        root' ← fetch h b i
        parent' ← (elim root'.node.parent [ zero ↦ some parent | suc j ↦ fetch h b j ])
        some (record { bytes = b; parent = parent'; root = root'; node = node'; goes_on = true })
    ]

  unfoldable pub turn_inner : Side → List ℕ → Object → Object → Object → Option Straight
  unfolding reload
  turn_inner d b parent root node = do
    t ← rotate h d b parent root.ptr root
    node' ← fetch h t.bytes node.ptr
    reload t.bytes t.root t.node node' (near d node'.node)

  -- the tests of case 4
  unfoldable pub straighten : List ℕ → Object → Object → Object → Option Straight
  unfolding turn_inner
  straighten b parent root node =
      if suc node.ptr == root.node.right && node.node.parent == parent.node.left
      then turn_inner rotate_left b parent root node
      else if suc node.ptr == root.node.left && node.node.parent == parent.node.right
      then turn_inner rotate_right b parent root node
      else some (record {
        bytes = save h b root;
        parent = parent;
        root = root;
        node = node;
        goes_on = true;
      })

  -- `Load`, paint and `Dump`, of an object that has the other color
  unfoldable pub repaint : Bool → List ℕ → Object → Option (List ℕ)
  repaint red b o =
      if (if red then not o.node.is_red else o.node.is_red)
      then (fetch h b o.ptr >>= λ o'. some (save h b (paint red o')))
      else some b

  -- the rest of case 4; `node` is the parent of `parent` if there is one.
  unfoldable pub turn_outer : Straight → Option (List ℕ)
  unfolding repaint
  turn_outer s = do
    above ← (elim s.parent.node.parent [ zero ↦ some s.node | suc i ↦ fetch h s.bytes i ])
    t ←
        rotate h (if suc s.node.ptr == s.root.node.left then rotate_right else rotate_left) s.bytes
          above s.parent.ptr s.parent
    b ← repaint false t.bytes s.root
    repaint true b t.node

  unfoldable pub case_four : List ℕ → Object → Object → Object → Option (List ℕ)
  unfolding straighten turn_outer
  case_four b parent root node = straighten b parent root node >>= λ s.
      if not s.goes_on || s.node.node.parent == 0 || s.root.node.parent == 0
      then some s.bytes
      else turn_outer s

  -- case 3, the uncle red: `root` and the uncle become black, and `parent` red.
  unfoldable pub paint_two : List ℕ → Object → Object → List ℕ
  paint_two b root uncle = save h (save h b (paint false root)) (paint false uncle)

  unfoldable pub paint_if : Bool → List ℕ → Object → List ℕ
  paint_if red b o =
      if (if red then not o.node.is_red else o.node.is_red) then save h b (paint red o) else b

  -- the loop of `Insert`
  unfoldable pub fix : ℕ → List ℕ → Object → Object → Option (List ℕ)
  unfolding case_four paint_two paint_if
  fix zero b root node = none
  fix (suc fuel) b root node = elim root.node.parent [
    | zero ↦ none
    | suc i ↦ fetch h b i >>= λ parent.
        elim (if parent.node.left == node.node.parent
          then parent.node.right
          else parent.node.left) [
            | zero ↦ case_four b parent root node
            | suc u ↦ fetch h b u >>= λ uncle. elim uncle.node.is_red [
              | false ↦ case_four b parent root node
              | true ↦ elim parent.node.parent [
                | zero ↦ some (paint_if false (paint_two b root uncle) parent)
                | suc g ↦ fetch h (paint_if true (paint_two b root uncle) parent) g >>= λ root'.
                    elim (not root'.node.is_red || root'.node.parent == 0) [
                      | true ↦ some (paint_if true (paint_two b root uncle) parent)
                      | false ↦
                          fix fuel (paint_if true (paint_two b root uncle) parent) root'
                            (paint true parent)
                    ]
              ]
            ]
          ]
  ]

  -- the key and the value behind the place of a node, written to the end of the bytes
  unfoldable pub write_data : List ℕ → ℕ → List ℕ → List ℕ → List ℕ
  write_data b at key value =
      let keyed = overwrite (at + 32 + 8) key (overwrite (at + 32) (word h (length key)) b) in
      if ltb 0 (length value)
      then overwrite (at + 32 + 8 * 2 + length key) value
          (overwrite (at + 32 + 8 + length key) (word h (length value)) keyed)
      else keyed

  unfoldable pub data_size : List ℕ → List ℕ → ℕ
  data_size key value = 32 + 8 + length key + (if ltb 0 (length value) then 8 + length value else 0)

  -- the new node's object
  unfoldable pub data_node : ℕ → List ℕ → List ℕ → Object
  data_node at key value = record {
    ptr = at;
    node = record new_node {
      value_offset = if ltb 0 (length value) then 1 + at + 32 + 8 + length key else 0;
    };
  }

  -- after `InsertImpl`: cases 1 and 2, or the loop, and the new root
  unfoldable pub settle : ℕ → RbTree → Placed → Option RbTree
  unfolding find_root fix
  settle fuel s p =
      if not p.is_new
      then some (record s { bytes = p.bytes })
      else if not p.root.node.is_red || p.root.node.parent == 0
      then some (record s { bytes = save h p.bytes p.root })
      else (do
        b ← fix fuel p.bytes p.root p.node
        root ← find_root fuel b s.root_offset
        some (record { bytes = b; root_offset = root }))

  -- a node behind those that there are
  unfoldable pub insert_next : ℕ → RbTree → List ℕ → Object → List ℕ → Option RbTree
  unfolding find_root insert_impl settle
  insert_next fuel s b node key = do
    root ← find_root fuel b s.root_offset
    p ← insert_impl fuel b root node key
    settle fuel (record { bytes = b; root_offset = root }) p

  -- `Insert`, with fuel for its loops
  unfoldable pub insert : ℕ → RbTree → List ℕ → List ℕ → Option RbTree
  unfolding write_data data_size data_node insert_next
  insert fuel s key value =
      if length key == 0
      then some s
      else (let at = length s.bytes in
          let b = write_data (s.bytes ++ h.fresh (data_size key value) s.bytes) at key value in
          let node = data_node at key value in
          if at == 0
          then some (record s { bytes = save h b (paint false node) })
          else insert_next fuel s b node key)

  -- `Insert` of an integer of 64, 32 or 16 bits, each made one of 64
  unfoldable pub insert_int : ℕ → RbTree → ℕ → List ℕ → Option RbTree
  unfolding insert
  insert_int fuel s key value = insert fuel s (word h key) value

  -- `Get` of an integer, of as many bytes as it has
  unfoldable pub get_int64 : List ℕ → ℕ → ℕ → ℕ → Option (List ℕ)
  get_int64 b fuel root_offset key = get h b (word h key) fuel root_offset

  unfoldable pub get_int32 : List ℕ → ℕ → ℕ → ℕ → Option (List ℕ)
  get_int32 b fuel root_offset key = get h b (le_bytes 4 (h.hton32 key)) fuel root_offset

  unfoldable pub get_int16 : List ℕ → ℕ → ℕ → ℕ → Option (List ℕ)
  get_int16 b fuel root_offset key = get h b (le_bytes 2 (h.hton16 key)) fuel root_offset
