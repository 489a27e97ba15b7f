-- ===== src/Tree/Rotate/Turn.antt =====
-- `Rotate` of containers/rbtree/rbtree.cpp turns the tree that the bytes hold.
use cxx_library.Prelude.{
  ℕ, suc, ◌<◌, ◌≡◌, refl, sym, ap, subst, ◌∙◌, Bool, Option, some, List, length, arith,
}
use cxx_library.Prelude.Options.{◌>>=◌}
use cxx_library.Tree.Host.{Host}
use cxx_library.Tree.Node.{Node, load, dump}
use cxx_library.Tree.Shape.{Spot, Tree, branch, link, above, node_at, HoldsAt}
use cxx_library.Tree.Rotate.{
  Object, Side, rotate_left, rotate_right, Turned, adopt, hang, rotate_to, rotate_link, rotate,
}
use cxx_library.Tree.Rotate.Pieces.{Pieces, HoldsPieces}
use cxx_library.Tree.Rotate.Steps.{
  Free, IsRoot, Fits-all, middle_adopted, head_dump, head_saved, head_dumped, node_dumped,
}

-- A node and a tree by the sides of a rotation.
abbrev pub node_on : Side → Bool → Spot → ℕ → ℕ → ℕ → Node
node_on rotate_left c s p near far = node_at c s p near far
node_on rotate_right c s p near far = node_at c s p far near

abbrev pub join : Side → Bool → Spot → Tree → Tree → Tree
join rotate_left c s near far = branch c s near far
join rotate_right c s near far = branch c s far near

-- The tree after a rotation: the child on top, the middle tree below the node.
abbrev pub turned_tree : Side → Pieces → Bool → Bool → Tree
turned_tree d x c c' = join d c' x.child (join d c x.node x.near x.middle) x.far

module _ (h : Host) (size : ℕ) where
  -- the bytes that the dumps leave
  abbrev turned_bytes : Side → List ℕ → Pieces → Bool → Bool → List ℕ
  turned_bytes d b x c c' =
      dump h
        (dump h (head_dump h size b x.path (suc x.child.offset)) x.child.offset
          (node_on d c' x.child (above x.path) (suc x.node.offset) (link x.far)))
        x.node.offset (node_on d c x.node (suc x.child.offset) (link x.near) (link x.middle))

  turned_bytes-HoldsAt :
      (d : Side) (b : List ℕ) (x : Pieces) (c c' : Bool)
      → length b ≡ size
      → Free size x
      → HoldsPieces h b (suc x.node.offset) x
      → HoldsAt h (turned_bytes d b x c c') x.path (turned_tree d x c c')
        × (length (turned_bytes d b x c c') ≡ size)
  turned_bytes-HoldsAt rotate_left b x c c' same free holds =
      let node_in : suc x.node.offset < size = omega (arith, free.node_within.0) in
      let child_in : suc x.child.offset < size = omega (arith, free.child_within.0) in
      let (pieces, (around, same1)) =
        head_dumped h size b x x.path (suc x.child.offset) (suc x.node.offset) same free.small
          child_in free.free_head holds in
      let fits' =
        Fits-all (above x.path) (suc x.node.offset) (link x.far) x.child size free.small
          free.above_small node_in free.links_small.1.1 free.child_within c' in
      let fits =
        Fits-all (suc x.child.offset) (link x.near) (link x.middle) x.node size free.small child_in
          free.links_small.0 free.links_small.1.0 free.node_within c in
      let (kept, (above_kept, (child_kept, (node_kept, same2)))) =
        node_dumped h size (head_dump h size b x.path (suc x.child.offset)) x (suc x.node.offset)
          (suc x.child.offset) _ _ same1 free fits' fits pieces around in
      (
        (
          (
            (child_kept, kept.1.1.0),
            (((node_kept, kept.1.0), (kept.1.1.1.0, kept.1.1.1.1.0)), kept.1.1.1.1.1),
          ),
          above_kept,
        ),
        same2,
      )
  turned_bytes-HoldsAt rotate_right b x c c' same free holds =
      let node_in : suc x.node.offset < size = omega (arith, free.node_within.0) in
      let child_in : suc x.child.offset < size = omega (arith, free.child_within.0) in
      let (pieces, (around, same1)) =
        head_dumped h size b x x.path (suc x.child.offset) (suc x.node.offset) same free.small
          child_in free.free_head holds in
      let fits' =
        Fits-all (above x.path) (link x.far) (suc x.node.offset) x.child size free.small
          free.above_small free.links_small.1.1 node_in free.child_within c' in
      let fits =
        Fits-all (suc x.child.offset) (link x.middle) (link x.near) x.node size free.small child_in
          free.links_small.1.0 free.links_small.0 free.node_within c in
      let (kept, (above_kept, (child_kept, (node_kept, same2)))) =
        node_dumped h size (head_dump h size b x.path (suc x.child.offset)) x (suc x.node.offset)
          (suc x.child.offset) _ _ same1 free fits' fits pieces around in
      (
        (
          (
            (child_kept, kept.1.1.0),
            (kept.1.1.1.1.1, ((node_kept, kept.1.0), (kept.1.1.1.1.0, kept.1.1.1.0))),
          ),
          above_kept,
        ),
        same2,
      )

  pub rotate-HoldsAt :
      (d : Side) (b : List ℕ) (x : Pieces) (c c' : Bool) (root : Object)
      → length b ≡ size
      → Free size x
      → IsRoot x.path (suc x.node.offset) root
      → load h b x.child.offset
        ≡ some (node_on d c' x.child (suc x.node.offset) (link x.middle) (link x.far))
      → HoldsPieces h b (suc x.child.offset) x
      → (t : Turned) × (rotate h d b root x.node.offset (record {
        ptr = x.node.offset;
        node = node_on d c x.node (above x.path) (link x.near) (suc x.child.offset);
      })
          ≡ some t)
        × ((HoldsAt h t.bytes x.path (turned_tree d x c c') × (length t.bytes ≡ size))
            × ((t.node.ptr ≡ x.node.offset) × (t.node.node.is_red ≡ c)))
  unfolding rotate rotate_link rotate_to hang
  rotate-HoldsAt rotate_left b x c c' root same free is_root loaded holds =
      let node_in : suc x.node.offset < size = omega (arith, free.node_within.0) in
      let (b', adopted, (pieces, same')) =
        middle_adopted h size b x x.middle same free.small free.free_middle node_in holds in
      let right : Object = record {
        ptr = x.child.offset;
        node = node_at c' x.child (suc x.node.offset) (link x.middle) (link x.far);
      } in
      let node : Object = record {
        ptr = x.node.offset;
        node = node_at c x.node (above x.path) (link x.near) (suc x.child.offset);
      } in
      let saved =
        head_saved h size b' x.path root x.node.offset (suc x.child.offset) free.at_node.0
          is_root in
      let (held, length_held) = turned_bytes-HoldsAt rotate_left b' x c c' same' free pieces in
      let bytes =
        ap
          (λ (v : List ℕ).
            dump h
              (dump h v x.child.offset
                (node_on rotate_left c' x.child (above x.path) (suc x.node.offset) (link x.far)))
              x.node.offset
              (node_on rotate_left c x.node (suc x.child.offset) (link x.near) (link x.middle)))
          saved in
      (
        hang h rotate_left b' root x.node.offset node right,
        ap
              (λ (o : Option Node).
                (o >>= λ n. some (record { ptr = x.child.offset; node = n })) >>= λ (r : Object).
                adopt h b r.node.left (suc x.node.offset) >>= λ v.
                some (hang h rotate_left v root x.node.offset node r))
              loaded
            ∙ ap (λ o. o >>= λ v. some (hang h rotate_left v root x.node.offset node right))
                adopted,
        (
          (
            subst (λ v. HoldsAt h v x.path (turned_tree rotate_left x c c')) (sym bytes) held,
            ap length bytes ∙ length_held,
          ),
          (refl, refl),
        ),
      )
  rotate-HoldsAt rotate_right b x c c' root same free is_root loaded holds =
      let node_in : suc x.node.offset < size = omega (arith, free.node_within.0) in
      let (b', adopted, (pieces, same')) =
        middle_adopted h size b x x.middle same free.small free.free_middle node_in holds in
      let right : Object = record {
        ptr = x.child.offset;
        node = node_at c' x.child (suc x.node.offset) (link x.far) (link x.middle);
      } in
      let node : Object = record {
        ptr = x.node.offset;
        node = node_at c x.node (above x.path) (suc x.child.offset) (link x.near);
      } in
      let saved =
        head_saved h size b' x.path root x.node.offset (suc x.child.offset) free.at_node.0
          is_root in
      let (held, length_held) = turned_bytes-HoldsAt rotate_right b' x c c' same' free pieces in
      let bytes =
        ap
          (λ (v : List ℕ).
            dump h
              (dump h v x.child.offset
                (node_on rotate_right c' x.child (above x.path) (suc x.node.offset) (link x.far)))
              x.node.offset
              (node_on rotate_right c x.node (suc x.child.offset) (link x.near) (link x.middle)))
          saved in
      (
        hang h rotate_right b' root x.node.offset node right,
        ap
              (λ (o : Option Node).
                (o >>= λ n. some (record { ptr = x.child.offset; node = n })) >>= λ (r : Object).
                adopt h b r.node.right (suc x.node.offset) >>= λ v.
                some (hang h rotate_right v root x.node.offset node r))
              loaded
            ∙ ap (λ o. o >>= λ v. some (hang h rotate_right v root x.node.offset node right))
                adopted,
        (
          (
            subst (λ v. HoldsAt h v x.path (turned_tree rotate_right x c c')) (sym bytes) held,
            ap length bytes ∙ length_held,
          ),
          (refl, refl),
        ),
      )
