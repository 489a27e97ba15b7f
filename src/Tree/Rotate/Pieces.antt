-- ===== src/Tree/Rotate/Pieces.antt =====
-- The pieces of a tree that `Rotate` takes apart: the node, its far child, the three trees below
-- them, and what is above.
use cxx_library.Prelude.{ℕ, suc, ◌≡◌, ◌⊎◌, List, All}
use cxx_library.Tree.Host.{Host}
use cxx_library.Tree.Node.{Node, dump}
use cxx_library.Tree.Codec.{HasKey}
use cxx_library.Tree.Shape.{
  Spot, Tree, Route, top, left_of, right_of, spots, lefts, rights, Holds, HoldsAround,
}
use cxx_library.Tree.Frame.{IsClear, HasKey-dump, dump-Holds, dump-HoldsAround}

-- A dump at an offset is of the node itself, or does not touch it.
abbrev pub Spares : ℕ → Spot → Type 0
Spares i s = (s.offset ≡ i) ⊎ IsClear i s

abbrev pub ClearTree : ℕ → Tree → Type 0
ClearTree i t = All (IsClear i) (spots t)

abbrev pub ClearBeyond : ℕ → Route → Type 0
ClearBeyond i top = Unit
ClearBeyond i (left_of c g t up) =
    Spares i g × (ClearTree i t × (All (IsClear i) (lefts up) × All (IsClear i) (rights up)))
ClearBeyond i (right_of c g t up) =
    Spares i g × (ClearTree i t × (All (IsClear i) (lefts up) × All (IsClear i) (rights up)))

-- The pieces: a path, a node, its far child, the near tree, the middle one and the far one.
pub record Pieces : Type 0 where
  pub path : Route
  pub node : Spot
  pub child : Spot
  pub near : Tree
  pub middle : Tree
  pub far : Tree

abbrev pub ClearPieces : ℕ → Pieces → Type 0
ClearPieces i x =
    ClearBeyond i x.path
    × (Spares i x.node
        × (Spares i x.child × (ClearTree i x.near × (ClearTree i x.middle × ClearTree i x.far))))

module _ (h : Host) (b : List ℕ) where
  -- The bytes hold what is above, but for the numbers in the node at the path's head.
  abbrev pub HoldsBeyond : Route → Type 0
  HoldsBeyond top = Unit
  HoldsBeyond (left_of c g t up) =
      HasKey h b g.offset g.key × (Holds h b (suc g.offset) t × HoldsAround h b up (suc g.offset))
  HoldsBeyond (right_of c g t up) =
      HasKey h b g.offset g.key × (Holds h b (suc g.offset) t × HoldsAround h b up (suc g.offset))

  -- The bytes hold the pieces, but for the numbers in the nodes that are dumped.
  abbrev pub HoldsPieces : ℕ → Pieces → Type 0
  HoldsPieces p x =
      HoldsBeyond x.path
      × (HasKey h b x.node.offset x.node.key
          × (HasKey h b x.child.offset x.child.key
              × (Holds h b (suc x.node.offset) x.near
                  × (Holds h b p x.middle × Holds h b (suc x.child.offset) x.far))))

module _ (h : Host) (b : List ℕ) (i : ℕ) (n : Node) where
  beyond_dumped :
      (path : Route) → ClearBeyond i path → HoldsBeyond h b path → HoldsBeyond h (dump h b i n) path
  beyond_dumped top clear holds = tt
  beyond_dumped (left_of c g t up) clear holds = (
    HasKey-dump h b i n g clear.0 holds.0,
    (
      dump-Holds h b i n (suc g.offset) t clear.1.0 holds.1.0,
      dump-HoldsAround h b i n up (suc g.offset) clear.1.1.0 clear.1.1.1 holds.1.1,
    ),
  )
  beyond_dumped (right_of c g t up) clear holds = (
    HasKey-dump h b i n g clear.0 holds.0,
    (
      dump-Holds h b i n (suc g.offset) t clear.1.0 holds.1.0,
      dump-HoldsAround h b i n up (suc g.offset) clear.1.1.0 clear.1.1.1 holds.1.1,
    ),
  )

  pub pieces_dumped :
      (p : ℕ) (x : Pieces)
      → ClearPieces i x
      → HoldsPieces h b p x
      → HoldsPieces h (dump h b i n) p x
  pieces_dumped p x clear holds = (
    beyond_dumped x.path clear.0 holds.0,
    (
      HasKey-dump h b i n x.node clear.1.0 holds.1.0,
      (
        HasKey-dump h b i n x.child clear.1.1.0 holds.1.1.0,
        (
          dump-Holds h b i n (suc x.node.offset) x.near clear.1.1.1.0 holds.1.1.1.0,
          (
            dump-Holds h b i n p x.middle clear.1.1.1.1.0 holds.1.1.1.1.0,
            dump-Holds h b i n (suc x.child.offset) x.far clear.1.1.1.1.1 holds.1.1.1.1.1,
          ),
        ),
      ),
    ),
  )
