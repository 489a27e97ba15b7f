-- ===== src/Tree/Rotate.antt =====
-- `Rotate` of containers/rbtree/rbtree.cpp. A node's object is its data and the place it was loaded
-- from, to which `Dump` writes it.
pub mod Pieces
pub mod Steps
pub mod Turn
pub mod Free
pub mod Room
use cxx_library.Prelude.{
  ℕ, zero, suc, ◌+◌, ◌-◌, Bool, true, false, Option, none, some, List, ◌==◌, if◌then◌else◌,
}
use cxx_library.Prelude.Options.{◌>>=◌}
use cxx_library.Tree.Host.{Host}
use cxx_library.Tree.Node.{Node, load, dump}

pub record Object : Type 0 where
  pub ptr : ℕ
  pub node : Node

-- `TRotateLeftOps` and `TRotateRightOps`
pub data Side : Type 0 where
  rotate_left rotate_right : Side

-- their `Right` and `Left`
abbrev pub far : Side → Node → ℕ
far rotate_left n = n.right
far rotate_right n = n.left

abbrev pub near : Side → Node → ℕ
near rotate_left n = n.left
near rotate_right n = n.right

abbrev pub set_far : Side → ℕ → Node → Node
set_far rotate_left v n = record n { right = v }
set_far rotate_right v n = record n { left = v }

abbrev pub set_near : Side → ℕ → Node → Node
set_near rotate_left v n = record n { left = v }
set_near rotate_right v n = record n { right = v }

-- What `Rotate` leaves: the bytes, and its arguments `root` and `node`.
pub record Turned : Type 0 where
  pub bytes : List ℕ
  pub root : Object
  pub node : Object

-- the child that `root` shares with the node is `right` now
unfoldable pub set_child : ℕ → ℕ → Node → Node
set_child old new n =
    if suc old == n.left then record n { left = new } else record n { right = new }

module _ (h : Host) where
  -- `Dump()`
  abbrev pub save : List ℕ → Object → List ℕ
  save b o = dump h b o.ptr o.node

  -- `Load(ptr + i)`
  abbrev pub fetch : List ℕ → ℕ → Option Object
  fetch b i = load h b i >>= λ n. some (record { ptr = i; node = n })

  -- the new parent of `newRight`, if there is one
  unfoldable pub adopt : List ℕ → ℕ → ℕ → Option (List ℕ)
  adopt b zero p = some b
  adopt b (suc at) p = load h b at >>= λ n. some (dump h b at (record n { parent = p }))

  -- the rest, once `right` is loaded and `newRight` is stored
  unfoldable pub hang : Side → List ℕ → Object → ℕ → Object → Object → Turned
  unfolding set_child
  hang d b root at node right =
      let moved : Object = record root { node = set_child at (suc right.ptr) root.node } in
      let b1 = if node.node.parent == 0 then b else save b moved in
      let right' : Node = record (set_near d (suc at) right.node) { parent = node.node.parent } in
      let b2 = dump h b1 right.ptr right' in
      let node' : Node = record (set_far d (near d right.node) node.node) {
        parent = suc right.ptr;
      } in
      record {
        bytes = dump h b2 node.ptr node';
        root = if node.node.parent == 0 then root else moved;
        node = record node { node = node' };
      }

  -- with the offset of `right`, one less than the number that the node holds
  unfoldable pub rotate_to : Side → List ℕ → Object → ℕ → Object → ℕ → Option Turned
  unfolding adopt hang
  rotate_to d b root at node i = do
    right ← fetch b i
    b' ← adopt b (near d right.node) (suc at)
    some (hang d b' root at node right)

  unfoldable pub rotate_link : Side → List ℕ → Object → ℕ → Object → ℕ → Option Turned
  unfolding rotate_to
  rotate_link d b root at node zero = some (record { bytes = b; root = root; node = node })
  rotate_link d b root at node (suc i) = rotate_to d b root at node i

  -- `Rotate`
  unfoldable pub rotate : Side → List ℕ → Object → ℕ → Object → Option Turned
  unfolding rotate_link
  rotate d b root at node = rotate_link d b root at node (far d node.node)
