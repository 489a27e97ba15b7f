-- ===== src/Tree/Insert/Turns.antt =====
-- `Rotate` on a tree whose nodes lie apart.
use cxx_library.Prelude.{
  ℕ, suc, ◌<◌, ◌≡◌, sym, ap, subst, ◌∙◌, Bool, some, List, ◌∷◌, ◌++◌, append_assoc, length, All,
}
use cxx_library.Tree.Host.{Host}
use cxx_library.Tree.Node.{load}
use cxx_library.Tree.Shape.{
  Tree, Route, top, left_of, right_of, link, above, spots, lefts, rights, all_spots, HoldsAt, Holds,
  HoldsAround,
}
use cxx_library.Tree.Frame.{Sep, All-left, All-right}
use cxx_library.Tree.Rotate.{Object, Side, rotate_left, rotate_right, Turned, rotate}
use cxx_library.Tree.Rotate.Pieces.{Pieces, HoldsBeyond, HoldsPieces}
use cxx_library.Tree.Rotate.Steps.{Within, IsRoot}
use cxx_library.Tree.Rotate.Turn.{node_on, join, turned_tree, rotate-HoldsAt}
use cxx_library.Tree.Rotate.Room.{sides, AllWithin, pieces-Free}
use cxx_library.Tree.Insert.Store.{AreApart, plug, spots-plug, plug-Holds}

-- The tree before a rotation.
abbrev pub straight_tree : Side → Pieces → Bool → Bool → Tree
straight_tree d x c c' = join d c x.node x.near (join d c' x.child x.middle x.far)

sides_order :
    (d : Side) (x : Pieces) (c c' : Bool) → all_spots x.path (straight_tree d x c c') ≡ sides d x
sides_order rotate_left x c c' = simp append_assoc
sides_order rotate_right x c c' = simp append_assoc

-- A rotation keeps the order of the nodes.
pub turned_order :
    (d : Side) (x : Pieces) (c c' : Bool)
    → spots (turned_tree d x c c') ≡ spots (straight_tree d x c c')
turned_order rotate_left x c c' = simp append_assoc
turned_order rotate_right x c c' = simp append_assoc

parts-Within :
    (d : Side) (size : ℕ) (x : Pieces) → 0 < size → All (Within size) (sides d x) → AllWithin size x
parts-Within rotate_left size x some_size h =
    let W = Within size in
    let k = rights x.path in
    let one = All-right W (lefts x.path) _ h in
    let two =
      All-right W (spots x.near) (x.node ∷ (spots x.middle ++ (x.child ∷ (spots x.far ++ k))))
        one in
    let three = All-right W (spots x.middle) (x.child ∷ (spots x.far ++ k)) two.1 in
    (
      some_size,
      (
        (All-left W (lefts x.path) _ h, All-right W (spots x.far) k three.1),
        (
          (two.0, three.0),
          (
            All-left W (spots x.near) _ one,
            (All-left W (spots x.middle) _ two.1, All-left W (spots x.far) k three.1),
          ),
        ),
      ),
    )
parts-Within rotate_right size x some_size h =
    let W = Within size in
    let k = rights x.path in
    let one = All-right W (lefts x.path) _ h in
    let two =
      All-right W (spots x.far) (x.child ∷ (spots x.middle ++ (x.node ∷ (spots x.near ++ k))))
        one in
    let three = All-right W (spots x.middle) (x.node ∷ (spots x.near ++ k)) two.1 in
    (
      some_size,
      (
        (All-left W (lefts x.path) _ h, All-right W (spots x.near) k three.1),
        (
          (three.0, two.0),
          (
            All-left W (spots x.near) k three.1,
            (All-left W (spots x.middle) _ two.1, All-left W (spots x.far) _ one),
          ),
        ),
      ),
    )

module _ (h : Host) (b : List ℕ) where
  beyond : (path : Route) (n : ℕ) → HoldsAround h b path n → HoldsBeyond h b path
  beyond top n around = tt
  beyond (left_of c g t up) n around = (around.0.1, around.1)
  beyond (right_of c g t up) n around = (around.0.1, around.1)

  taken_apart :
      (d : Side) (x : Pieces) (c c' : Bool)
      → HoldsAt h b x.path (straight_tree d x c c')
      → (load h b x.child.offset
          ≡ some (node_on d c' x.child (suc x.node.offset) (link x.middle) (link x.far)))
        × HoldsPieces h b (suc x.child.offset) x
  taken_apart rotate_left x c c' (((loaded, key), (near, (child, (middle, far)))), around) =
      (child.0, (beyond x.path (suc x.node.offset) around, (key, (child.1, (near, (middle, far))))))
  taken_apart rotate_right x c c' (((loaded, key), ((child, (far, middle)), near)), around) =
      (child.0, (beyond x.path (suc x.node.offset) around, (key, (child.1, (near, (middle, far))))))

module _ (h : Host) (size : ℕ) where
  pub turned :
      (d : Side) (b : List ℕ) (x : Pieces) (c c' : Bool) (root : Object)
      → length b ≡ size
      → AreApart size (all_spots x.path (straight_tree d x c c'))
      → IsRoot x.path (suc x.node.offset) root
      → load h b x.child.offset
        ≡ some (node_on d c' x.child (suc x.node.offset) (link x.middle) (link x.far))
      → HoldsPieces h b (suc x.child.offset) x
      → (t : Turned) × (rotate h d b root x.node.offset (record {
        ptr = x.node.offset;
        node = node_on d c x.node (above x.path) (link x.near) (suc x.child.offset);
      })
          ≡ some t)
        × ((HoldsAt h t.bytes x.path (turned_tree d x c c') × (length t.bytes ≡ size))
            × ((t.node.ptr ≡ x.node.offset) × (t.node.node.is_red ≡ c)))
  turned d b x c c' root same (some_size, (small, (sep, within))) is_root loaded holds =
      let order = sides_order d x c c' in
      let free =
        pieces-Free d size x small (subst Sep order sep)
          (parts-Within d size x some_size (subst (All (Within size)) order within)) in
      rotate-HoldsAt h size d b x c c' root same free is_root loaded holds

  -- `Rotate`, on bytes that hold a tree whose nodes lie apart in fewer than 2^60 bytes, at a
  -- node with a child on the far side, and with the object of the node above as `root`: it ends, and
  -- the bytes, as many as before, hold a whole tree of the same nodes in the same order, in which
  -- the child is above the node.
  pub rotate-spots :
      (d : Side) (b : List ℕ) (x : Pieces) (c c' : Bool) (root : Object)
      → length b ≡ size
      → AreApart size (all_spots x.path (straight_tree d x c c'))
      → IsRoot x.path (suc x.node.offset) root
      → HoldsAt h b x.path (straight_tree d x c c')
      → (t : Turned) × (rotate h d b root x.node.offset (record {
        ptr = x.node.offset;
        node = node_on d c x.node (above x.path) (link x.near) (suc x.child.offset);
      })
          ≡ some t)
        × ((Holds h t.bytes 0 (plug x.path (turned_tree d x c c')) × (length t.bytes ≡ size))
            × (spots (plug x.path (turned_tree d x c c'))
                ≡ spots (plug x.path (straight_tree d x c c'))))
  rotate-spots d b x c c' root same apart is_root holds =
      let (child, pieces) = taken_apart h b d x c c' holds in
      let (t, turns, ((held, length_t), rest)) =
        turned d b x c c' root same apart is_root child pieces in
      (
        t,
        turns,
        (
          (plug-Holds h t.bytes x.path (turned_tree d x c c') held, length_t),
          spots-plug x.path (turned_tree d x c c')
              ∙ ap (λ ss. lefts x.path ++ (ss ++ rights x.path)) (turned_order d x c c')
              ∙ sym (spots-plug x.path (straight_tree d x c c')),
        ),
      )
