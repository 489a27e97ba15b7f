-- ===== src/Tree/Iterator/Visit.antt =====
-- The calls of `Next` of containers/rbtree on a tree whose nodes lie apart.
use cxx_library.Prelude.{
  ℕ, zero, suc, ◌≤◌, ◌≡◌, refl, sym, ap, ◌∙◌, ◌⊎◌, inl, inr, Bool, true, false, Option, some, List,
  [], ◌∷◌, ◌++◌, append_assoc, All, arith, ◌==◌, if_true, if_false, if◌then◌else◌,
}
use cxx_library.Prelude.Options.{◌>>=◌}
use cxx_library.Tree.Host.{Host}
use cxx_library.Tree.Node.{Node}
use cxx_library.Tree.Get.{depth}
use cxx_library.Tree.Shape.{
  Spot, Tree, leaf, branch, Route, top, left_of, right_of, link, above, spots, lefts, rights,
  HasNode, HoldsAt,
}
use cxx_library.Tree.Frame.{IsClear, Sep, All-left, All-right, IsClear-others}
use cxx_library.Tree.Insert.Store.{plug, spots-plug}
use cxx_library.Tree.Rotate.Steps.{other_child}
use cxx_library.Tree.Iterator.{Cursor, descend, move_on, leave, next}
use cxx_library.Tree.Iterator.After.{rest, root_around, depth-plug, descend-IsFirst}

abbrev pub cursor_at : ℕ → ℕ → Cursor
cursor_at root i = record { is_live = true; root_offset = root; current_offset = i }

not_root : (i root : ℕ) (x : Spot) → IsClear i x → suc root ≡ suc x.offset → (root == i) ≡ false
not_root i root x (inl before) e = ground arith
not_root i root x (inr behind) e = ground arith

module _ (h : Host) (b : List ℕ) (whole : Tree) (root fuel : ℕ) where
  -- The iterator at a node of the tree, with some nodes to come, the node's included.
  pub record IsAt (i : ℕ) (ss : List Spot) : Type 0 where
    pub path : Route
    pub color : Bool
    pub spot : Spot
    pub left : Tree
    pub right : Tree
    pub here : i ≡ spot.offset
    pub holds : HoldsAt h b path (branch color spot left right)
    pub order : spot ∷ rest path ≡ ss
    pub part : plug path (branch color spot left right) ≡ whole

  move_on-node :
      (i p x y : ℕ) (c : Bool) (s : Spot)
      → HasNode h b c s p x y
      → move_on h b fuel i s.offset ≡ elim y [
        | zero ↦ some s.offset
        | suc next ↦ if suc i == x then descend h b fuel next else some s.offset
      ]
  unfolding move_on
  move_on-node i p x y c s holds =
      ap
        (λ (o : Option Node). o >>= λ n. elim n.right [
          | zero ↦ some s.offset
          | suc next ↦ if suc i == n.left then descend h b fuel next else some s.offset
        ])
        holds.0

  -- behind a left child: the right one's first node, or the parent
  behind_left :
      (path : Route) (c d : Bool) (s g : Spot) (l r t : Tree)
      → HoldsAt h b (left_of d g t path) (branch c s l r)
      → plug (left_of d g t path) (branch c s l r) ≡ whole
      → depth whole ≤ fuel
      → (i : ℕ) × (move_on h b fuel s.offset g.offset ≡ some i) × IsAt i (rest (left_of d g t path))
  behind_left path c d s g l r leaf (held, (node, (right, around))) part deep = (
    g.offset,
    move_on-node s.offset (above path) (suc s.offset) 0 d g node,
    record {
      path = path;
      color = d;
      spot = g;
      left = branch c s l r;
      right = leaf;
      here = refl;
      holds = ((node, (held, tt)), around);
      order = refl;
      part = part;
    },
  )
  behind_left path c d s g l r (branch d' g' l' r') (held, (node, (right, around))) part deep =
      let t = branch d' g' l' r' in
      let up = right_of d g (branch c s l r) path in
      let (i, runs, (path', c', s', (at, (holds, (order, same))))) =
        descend-IsFirst h b fuel up d' g' l' r' (right, (node, (held, around)))
          (omega (arith, deep, depth-plug up t, ap depth part)) in
      let own : (suc s.offset == suc s.offset) ≡ true = ground arith in
      (
        i,
        move_on-node s.offset (above path) (suc s.offset) (suc g'.offset) d g node
            ∙ if_true (descend h b fuel g'.offset) (some g.offset) own
            ∙ runs,
        record {
          path = path';
          color = c';
          spot = s';
          left = leaf;
          right = leaf;
          here = at;
          holds = holds;
          order = order;
          part = same ∙ part;
        },
      )

  -- behind a right child: the parent
  behind_right :
      (path : Route) (c d : Bool) (s g : Spot) (l r t : Tree)
      → All (IsClear s.offset) (spots t)
      → HoldsAt h b (right_of d g t path) (branch c s l r)
      → plug (right_of d g t path) (branch c s l r) ≡ whole
      → (i : ℕ) × (move_on h b fuel s.offset g.offset ≡ some i)
        × IsAt i (rest (right_of d g t path))
  behind_right path c d s g l r t clear (held, (node, (left, around))) part = (
    g.offset,
    move_on-node s.offset (above path) (link t) (suc s.offset) d g node
        ∙ if_false (descend h b fuel s.offset) (some g.offset) (other_child t s.offset clear),
    record {
      path = path;
      color = d;
      spot = g;
      left = t;
      right = branch c s l r;
      here = refl;
      holds = ((node, (left, held)), around);
      order = refl;
      part = part;
    },
  )

  others_around :
      (path : Route) (c : Bool) (s : Spot) (l r : Tree)
      → Sep (spots whole)
      → plug path (branch c s l r) ≡ whole
      → All (IsClear s.offset) (lefts path) × All (IsClear s.offset) (rights path)
  others_around path c s l r sep part =
      let P = IsClear s.offset in
      let flat : spots whole ≡ (lefts path ++ spots l) ++ (s ∷ (spots r ++ rights path)) =
        ap spots (sym part) ∙ spots-plug path (branch c s l r) ∙ simp append_assoc in
      let both =
        IsClear-others (spots whole) (lefts path ++ spots l) s (spots r ++ rights path) flat sep in
      (All-left P (lefts path) (spots l) both.0, All-right P (spots r) (rights path) both.1)

  leave-on :
      (i at j : ℕ)
      → (root == i) ≡ false
      → move_on h b fuel i at ≡ some j
      → leave h b fuel (cursor_at root i) (suc at) ≡ some (cursor_at root j)
  unfolding leave
  leave-on i at j other moved =
      if_false _ _ other ∙ ap (λ (o : Option ℕ). o >>= λ k. some (cursor_at root k)) moved

  -- the end of `Next` at a node that is not the last
  pub leave-IsAt :
      (path : Route) (c : Bool) (s : Spot) (l r : Tree)
      → Sep (spots whole)
      → depth whole ≤ fuel
      → link whole ≡ suc root
      → HoldsAt h b path (branch c s l r)
      → plug path (branch c s l r) ≡ whole
      → ((above path ≡ 0) × (rest path ≡ []))
        ⊎ ((j : ℕ) × (leave h b fuel (cursor_at root s.offset) (above path)
              ≡ some (cursor_at root j))
            × IsAt j (rest path))
  leave-IsAt top c s l r sep deep rooted holds part = inl (refl, refl)
  leave-IsAt (left_of d g t up) c s l r sep deep rooted holds part =
      let (before, behind) = others_around (left_of d g t up) c s l r sep part in
      let (x, at_x, clear_x) =
        root_around (IsClear s.offset) up d g (branch c s l r) t behind.0 before
          (All-right (IsClear s.offset) (g ∷ spots t) (rights up) behind) in
      let (j, moved, there) = behind_left up c d s g l r t holds part deep in
      inr (
        j,
        leave-on s.offset g.offset j
            (not_root s.offset root x clear_x (sym rooted ∙ ap link (sym part) ∙ at_x)) moved,
        there,
      )
  leave-IsAt (right_of d g t up) c s l r sep deep rooted holds part =
      let P = IsClear s.offset in
      let (before, behind) = others_around (right_of d g t up) c s l r sep part in
      let near = All-right P (lefts up) (spots t ++ (g ∷ [])) before in
      let (x, at_x, clear_x) =
        root_around P up d g t (branch c s l r) (All-right P (spots t) (g ∷ []) near).0
          (All-left P (lefts up) (spots t ++ (g ∷ [])) before) behind in
      let (j, moved, there) =
        behind_right up c d s g l r t (All-left P (spots t) (g ∷ []) near) holds part in
      inr (
        j,
        leave-on s.offset g.offset j
            (not_root s.offset root x clear_x (sym rooted ∙ ap link (sym part) ∙ at_x)) moved,
        there,
      )
