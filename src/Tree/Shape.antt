-- ===== src/Tree/Shape.antt =====
-- The tree that bytes of containers/rbtree stand for, and places in it.
use cxx_library.Prelude.{ℕ, suc, ◌+◌, ◌≡◌, Bool, some, List, [], ◌∷◌, ◌++◌, length}
use cxx_library.Tree.Host.{Host}
use cxx_library.Tree.Node.{Node, load}
use cxx_library.Tree.Codec.{HasKey}

-- A node's place, key and value offset.
pub record Spot : Type 0 where
  pub offset : ℕ
  pub key : List ℕ
  pub value : ℕ

pub data Tree : Type 0 where
  leaf : Tree
  branch : Bool → Spot → Tree → Tree → Tree

-- The way from a place in a tree up to its root: by a node, red or not, and the tree on its other
-- side.
pub data Route : Type 0 where
  top : Route
  left_of : Bool → Spot → Tree → Route → Route
  right_of : Bool → Spot → Tree → Route → Route

-- What a node holds for a tree below it, and for the node above it: 0, or one more than the offset.
abbrev pub link : Tree → ℕ
link leaf = 0
link (branch c s l r) = suc s.offset

abbrev pub above : Route → ℕ
above top = 0
above (left_of c s t up) = suc s.offset
above (right_of c s t up) = suc s.offset

abbrev pub node_at : Bool → Spot → ℕ → ℕ → ℕ → Node
node_at c s p l r = record { parent = p; left = l; right = r; value_offset = s.value; is_red = c }

-- The bytes of a node, its key included.
abbrev pub extent : Spot → ℕ
extent s = 40 + length s.key

abbrev pub spots : Tree → List Spot
spots leaf = []
spots (branch c s l r) = spots l ++ (s ∷ spots r)

-- The nodes to the left and to the right of a place.
abbrev pub lefts : Route → List Spot
lefts top = []
lefts (left_of c s t up) = lefts up
lefts (right_of c s t up) = lefts up ++ (spots t ++ (s ∷ []))

abbrev pub rights : Route → List Spot
rights top = []
rights (left_of c s t up) = (s ∷ spots t) ++ rights up
rights (right_of c s t up) = rights up

-- All nodes of the tree that has `t` at a place, in order.
abbrev pub all_spots : Route → Tree → List Spot
all_spots path t = lefts path ++ (spots t ++ rights path)

module _ (h : Host) (b : List ℕ) where
  abbrev pub HasNode : Bool → Spot → ℕ → ℕ → ℕ → Type 0
  HasNode c s p l r = (load h b s.offset ≡ some (node_at c s p l r)) × HasKey h b s.offset s.key

  -- The bytes hold the tree, below a node.
  abbrev pub Holds : ℕ → Tree → Type 0
  Holds p leaf = Unit
  Holds p (branch c s l r) =
      HasNode c s p (link l) (link r) × (Holds (suc s.offset) l × Holds (suc s.offset) r)

  -- The bytes hold what is around a place, which the number stands for.
  abbrev pub HoldsAround : Route → ℕ → Type 0
  HoldsAround top n = Unit
  HoldsAround (left_of c s r up) n =
      HasNode c s (above up) n (link r) × (Holds (suc s.offset) r × HoldsAround up (suc s.offset))
  HoldsAround (right_of c s l up) n =
      HasNode c s (above up) (link l) n × (Holds (suc s.offset) l × HoldsAround up (suc s.offset))

  abbrev pub HoldsAt : Route → Tree → Type 0
  HoldsAt path t = Holds (above path) t × HoldsAround path (link t)
