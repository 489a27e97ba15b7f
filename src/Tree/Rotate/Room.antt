-- ===== src/Tree/Rotate/Room.antt =====
-- The pieces of a tree whose nodes lie apart in the bytes, as `Rotate` dumps them.
use cxx_library.Prelude.{ℕ, ◌^◌, ◌<◌, ◌≡◌, refl, inl, inr, Bool, List, [], ◌∷◌, ◌++◌, All, arith}
use cxx_library.Tree.Shape.{
  Spot, Tree, leaf, branch, Route, top, left_of, right_of, link, above, spots, lefts, rights,
}
use cxx_library.Tree.Frame.{IsClear, Sep, All-left, All-right}
use cxx_library.Tree.Rotate.{Side, rotate_left, rotate_right}
use cxx_library.Tree.Rotate.Pieces.{Spares, ClearBeyond, Pieces, ClearPieces}
use cxx_library.Tree.Rotate.Steps.{Within, Free, FreeMiddle, FreeHead, at_middle, at_path}
use cxx_library.Tree.Rotate.Free.{
  seven, Untouched, at_first, at_second, at_inner, at_behind, at_before,
}

beyond_clear :
    (i : ℕ) (path : Route)
    → All (IsClear i) (lefts path)
    → All (IsClear i) (rights path)
    → ClearBeyond i path
beyond_clear i top f k = tt
beyond_clear i (left_of c g t up) f k =
    let near = All-left (IsClear i) (g ∷ spots t) (rights up) k in
    (inr near.0, (near.1, (f, All-right (IsClear i) (g ∷ spots t) (rights up) k)))
beyond_clear i (right_of c g t up) f k =
    let near = All-right (IsClear i) (lefts up) (spots t ++ (g ∷ [])) f in
    (
      inr (All-right (IsClear i) (spots t) (g ∷ []) near).0,
      (
        All-left (IsClear i) (spots t) (g ∷ []) near,
        (All-left (IsClear i) (lefts up) (spots t ++ (g ∷ [])) f, k),
      ),
    )

pub link_small : (size : ℕ) (t : Tree) → 0 < size → All (Within size) (spots t) → link t < size
link_small size leaf some_size h = some_size
link_small size (branch c s l r) some_size h =
    omega (arith, (All-right (Within size) (spots l) (s ∷ spots r) h).0.0)

pub above_small :
    (size : ℕ) (path : Route)
    → 0 < size
    → All (Within size) (lefts path)
    → All (Within size) (rights path)
    → above path < size
above_small size top some_size f k = some_size
above_small size (left_of c g t up) some_size f k = omega (arith, k.0.0)
above_small size (right_of c g t up) some_size f k = omega (
  arith,
  (All-right (Within size) (spots t) (g ∷ [])
      (All-right (Within size) (lefts up) (spots t ++ (g ∷ [])) f)).0.0,
)

-- A dump at an offset touches nothing of the pieces but perhaps the two nodes.
abbrev Untouches : ℕ → Pieces → Type 0
Untouches i x =
    Untouched i (lefts x.path) (spots x.near) (spots x.middle) (spots x.far) (rights x.path)

pieces_clear :
    (i : ℕ) (x : Pieces) → Spares i x.node → Spares i x.child → Untouches i x → ClearPieces i x
pieces_clear i x node child h =
    (beyond_clear i x.path h.0 h.1.1.1.1, (node, (child, (h.1.0, (h.1.1.0, h.1.1.1.0)))))

-- The same by the sides of a rotation: the near tree is the left one, or the right one.
abbrev pub sides : Side → Pieces → List Spot
sides rotate_left x =
    seven (lefts x.path) (spots x.near) x.node (spots x.middle) x.child (spots x.far)
      (rights x.path)
sides rotate_right x =
    seven (lefts x.path) (spots x.far) x.child (spots x.middle) x.node (spots x.near)
      (rights x.path)

swap_sides : (i : ℕ) (f n m r k : List Spot) → Untouched i f r m n k → Untouched i f n m r k
swap_sides i f n m r k h = (h.0, (h.1.1.1.0, (h.1.1.0, (h.1.0, h.1.1.1.1))))

node_untouched :
    (d : Side) (x : Pieces)
    → Sep (sides d x)
    → IsClear x.node.offset x.child × Untouches x.node.offset x
node_untouched rotate_left x sep = at_first _ _ x.node _ x.child _ _ sep
node_untouched rotate_right x sep =
    let (apart, rest) =
      at_second (lefts x.path) (spots x.far) x.child (spots x.middle) x.node (spots x.near)
        (rights x.path) sep in
    (apart, swap_sides x.node.offset _ _ _ _ _ rest)

child_untouched :
    (d : Side) (x : Pieces)
    → Sep (sides d x)
    → IsClear x.child.offset x.node × Untouches x.child.offset x
child_untouched rotate_left x sep = at_second _ _ x.node _ x.child _ _ sep
child_untouched rotate_right x sep =
    let rest =
      at_first (lefts x.path) (spots x.far) x.child (spots x.middle) x.node (spots x.near)
        (rights x.path) sep in
    (rest.0, swap_sides x.child.offset _ _ _ _ _ rest.1)

-- What a dump of a third node leaves: the two nodes, two lists around it, and the pieces.
abbrev Leaves : ℕ → Pieces → List Spot → List Spot → Type 0
Leaves i x u v =
    (IsClear i x.node × IsClear i x.child)
    × ((All (IsClear i) u × All (IsClear i) v) × Untouches i x)

middle_untouched :
    (d : Side) (x : Pieces) (c : Bool) (y : Spot) (l r : Tree)
    → Sep (sides d (at_middle x (branch c y l r)))
    → Leaves y.offset (at_middle x leaf) (spots l) (spots r)
middle_untouched rotate_left x c y l r sep =
    at_inner (lefts x.path) (spots x.near) x.node (spots l ++ (y ∷ spots r)) x.child (spots x.far)
      (rights x.path) (spots l) y (spots r) refl sep
middle_untouched rotate_right x c y l r sep =
    let rest =
      at_inner (lefts x.path) (spots x.far) x.child (spots l ++ (y ∷ spots r)) x.node (spots x.near)
        (rights x.path) (spots l) y (spots r) refl sep in
    (
      (rest.0.1, rest.0.0),
      (
        rest.1.0,
        swap_sides y.offset (lefts x.path) (spots x.near) [] (spots x.far) (rights x.path) rest.1.1,
      ),
    )

behind-Untouched :
    (d : Side) (x : Pieces) (g : Spot) (u v : List Spot)
    → rights x.path ≡ (g ∷ u) ++ v
    → Sep (sides d x)
    → (IsClear g.offset x.node × IsClear g.offset x.child)
      × ((All (IsClear g.offset) u × All (IsClear g.offset) v)
          × Untouched g.offset (lefts x.path) (spots x.near) (spots x.middle) (spots x.far) [])
behind-Untouched rotate_left x g u v e sep =
    at_behind _ _ x.node _ x.child _ (rights x.path) g u v e sep
behind-Untouched rotate_right x g u v e sep =
    let rest =
      at_behind (lefts x.path) (spots x.far) x.child (spots x.middle) x.node (spots x.near)
        (rights x.path) g u v e sep in
    ((rest.0.1, rest.0.0), (rest.1.0, swap_sides g.offset _ _ _ _ [] rest.1.1))

before-Untouched :
    (d : Side) (x : Pieces) (g : Spot) (u v : List Spot)
    → lefts x.path ≡ v ++ (u ++ (g ∷ []))
    → Sep (sides d x)
    → (IsClear g.offset x.node × IsClear g.offset x.child)
      × ((All (IsClear g.offset) u × All (IsClear g.offset) v)
          × Untouched g.offset [] (spots x.near) (spots x.middle) (spots x.far) (rights x.path))
before-Untouched rotate_left x g u v e sep =
    at_before (lefts x.path) _ x.node _ x.child _ _ g u v e sep
before-Untouched rotate_right x g u v e sep =
    let rest =
      at_before (lefts x.path) (spots x.far) x.child (spots x.middle) x.node (spots x.near)
        (rights x.path) g u v e sep in
    ((rest.0.1, rest.0.0), (rest.1.0, swap_sides g.offset [] _ _ _ _ rest.1.1))

-- The pieces lie within bytes of a size.
abbrev pub AllWithin : ℕ → Pieces → Type 0
AllWithin size x =
    (0 < size)
    × ((All (Within size) (lefts x.path) × All (Within size) (rights x.path))
        × ((Within size x.node × Within size x.child)
            × (All (Within size) (spots x.near)
                × (All (Within size) (spots x.middle) × All (Within size) (spots x.far)))))

middle_free :
    (d : Side) (size : ℕ) (x : Pieces) (t : Tree)
    → Sep (sides d (at_middle x t))
    → 0 < size
    → All (Within size) (spots t)
    → FreeMiddle size x t
middle_free d size x leaf sep some_size within = tt
middle_free d size x (branch c y l r) sep some_size within =
    let ((node, child), ((left, right), rest)) = middle_untouched d x c y l r sep in
    let at_y = All-right (Within size) (spots l) (y ∷ spots r) within in
    (
      pieces_clear y.offset (at_middle x leaf) (inr node) (inr child) rest,
      (
        left,
        (
          right,
          (
            at_y.0,
            (
              link_small size l some_size (All-left (Within size) (spots l) (y ∷ spots r) within),
              link_small size r some_size at_y.1,
            ),
          ),
        ),
      ),
    )

head_free :
    (d : Side) (size : ℕ) (x : Pieces) (path : Route)
    → Sep (sides d (at_path x path))
    → 0 < size
    → All (Within size) (lefts path)
    → All (Within size) (rights path)
    → FreeHead size (at_path x path) path
head_free d size x top sep some_size f k = tt
head_free d size x (left_of c g t up) sep some_size f k =
    let ((node, child), ((beside, beyond), rest)) =
      behind-Untouched d (at_path x (left_of c g t up)) g (spots t) (rights up) refl sep in
    let near = All-left (Within size) (g ∷ spots t) (rights up) k in
    (
      (
        (inl refl, (beside, (rest.0, beyond))),
        (inr node, (inr child, (rest.1.0, (rest.1.1.0, rest.1.1.1.0)))),
      ),
      (
        near.0,
        (
          above_small size up some_size f (All-right (Within size) (g ∷ spots t) (rights up) k),
          link_small size t some_size near.1,
        ),
      ),
    )
head_free d size x (right_of c g t up) sep some_size f k =
    let ((node, child), ((beside, beyond), rest)) =
      before-Untouched d (at_path x (right_of c g t up)) g (spots t) (lefts up) refl sep in
    let near = All-right (Within size) (lefts up) (spots t ++ (g ∷ [])) f in
    (
      (
        (inl refl, (beside, (beyond, rest.1.1.1.1))),
        (inr node, (inr child, (rest.1.0, (rest.1.1.0, rest.1.1.1.0)))),
      ),
      (
        (All-right (Within size) (spots t) (g ∷ []) near).0,
        (
          above_small size up some_size (All-left (Within size) (lefts up) (spots t ++ (g ∷ [])) f)
              k,
          link_small size t some_size (All-left (Within size) (spots t) (g ∷ []) near),
        ),
      ),
    )

pub pieces-Free :
    (d : Side) (size : ℕ) (x : Pieces)
    → size < 2 ^ 60
    → Sep (sides d x)
    → AllWithin size x
    → Free size x
pieces-Free d size x small sep (some_size, ((f, k), ((node, child), (near, (middle, far))))) =
    let (apart, at_node) = node_untouched d x sep in
    let (apart', at_child) = child_untouched d x sep in
    record {
      small = small;
      free_middle = middle_free d size x x.middle sep some_size middle;
      free_head = head_free d size x x.path sep some_size f k;
      at_node = pieces_clear x.node.offset x (inl refl) (inr apart) at_node;
      at_child = pieces_clear x.child.offset x (inr apart') (inl refl) at_child;
      node_path = (at_node.0, at_node.1.1.1.1);
      child_path = (at_child.0, at_child.1.1.1.1);
      apart = apart;
      node_within = node;
      child_within = child;
      above_small = above_small size x.path some_size f k;
      links_small = (
        link_small size x.near some_size near,
        (link_small size x.middle some_size middle, link_small size x.far some_size far),
      );
    }
