-- ===== src/Tree/Iterator/After.antt =====
-- The nodes of a tree in the order that an iterator of containers/rbtree comes by them: those below a
-- node first. `Descend` finds the first.
use cxx_library.Prelude.{
  ℕ, zero, suc, ◌≤◌, ◌≡◌, refl, ap, ◌∙◌, Bool, Option, some, List, [], ◌∷◌, ◌++◌, append_assoc, All,
  arith,
}
use cxx_library.Prelude.Options.{◌>>=◌}
use cxx_library.Tree.Host.{Host}
use cxx_library.Tree.Node.{Node}
use cxx_library.Tree.Get.{depth}
use cxx_library.Tree.Shape.{
  Spot, Tree, leaf, branch, Route, top, left_of, right_of, link, above, spots, lefts, rights,
  HasNode, HoldsAt,
}
use cxx_library.Tree.Frame.{All-left, All-right}
use cxx_library.Tree.Insert.Store.{plug}
use cxx_library.Tree.Iterator.{descend}

abbrev pub post_order : Tree → List Spot
post_order leaf = []
post_order (branch c s l r) = post_order l ++ (post_order r ++ (s ∷ []))

-- What comes after all below a place.
abbrev pub rest : Route → List Spot
rest top = []
rest (left_of c s r up) = post_order r ++ (s ∷ rest up)
rest (right_of c s l up) = s ∷ rest up

-- The root of a tree that has a node at a place is that node, or one of those around.
pub root_around :
    (P : Spot → Type 0) (path : Route) (c : Bool) (s : Spot) (l r : Tree)
    → P s
    → All P (lefts path)
    → All P (rights path)
    → (x : Spot) × (link (plug path (branch c s l r)) ≡ suc x.offset) × P x
root_around P top c s l r here before behind = (s, refl, here)
root_around P (left_of d g t up) c s l r here before behind =
    root_around P up d g (branch c s l r) t behind.0 before
      (All-right P (g ∷ spots t) (rights up) behind)
root_around P (right_of d g t up) c s l r here before behind =
    root_around P up d g t (branch c s l r)
      (All-right P (spots t) (g ∷ []) (All-right P (lefts up) (spots t ++ (g ∷ [])) before)).0
      (All-left P (lefts up) (spots t ++ (g ∷ [])) before) behind

pub depth-plug : (path : Route) (t : Tree) → depth t ≤ depth (plug path t)
depth-plug top t = omega arith
depth-plug (left_of c s r up) t = omega (arith, depth-plug up (branch c s t r))
depth-plug (right_of c s l up) t = omega (arith, depth-plug up (branch c s l t))

module _ (h : Host) (b : List ℕ) where
  -- A node without any below it that comes first at a place.
  abbrev pub IsFirst : Route → Tree → ℕ → Type 0
  IsFirst path t i =
      (path' : Route) × (c : Bool) × (s : Spot) × ((i ≡ s.offset)
        × (HoldsAt h b path' (branch c s leaf leaf)
            × ((s ∷ rest path' ≡ post_order t ++ rest path)
                × (plug path' (branch c s leaf leaf) ≡ plug path t))))

  descend-node :
      (fuel p x y : ℕ) (c : Bool) (s : Spot)
      → HasNode h b c s p x y
      → descend h b (suc fuel) s.offset ≡ elim x [
        | suc next ↦ descend h b fuel next
        | zero ↦ elim y [ zero ↦ some s.offset | suc next ↦ descend h b fuel next ]
      ]
  unfolding descend
  descend-node fuel p x y c s holds =
      ap
        (λ (o : Option Node). o >>= λ root. elim root.left [
          | suc next ↦ descend h b fuel next
          | zero ↦ elim root.right [ zero ↦ some s.offset | suc next ↦ descend h b fuel next ]
        ])
        holds.0

  pub descend-IsFirst :
      (fuel : ℕ) (path : Route) (c : Bool) (s : Spot) (l r : Tree)
      → HoldsAt h b path (branch c s l r)
      → depth (branch c s l r) ≤ fuel
      → (i : ℕ) × (descend h b fuel s.offset ≡ some i) × IsFirst path (branch c s l r) i
  descend-IsFirst zero path c s l r holds deep = absurd (omega arith)
  descend-IsFirst (suc fuel) path c s leaf leaf holds deep = (
    s.offset,
    descend-node fuel (above path) 0 0 c s holds.0.0,
    (path, c, s, (refl, (holds, (refl, refl)))),
  )
  descend-IsFirst (suc fuel) path c s leaf (branch c' s' l' r') ((node, (left, right)), around)
        deep =
      let (i, runs, (path', d, x, (at, (held, (order, whole))))) =
        descend-IsFirst fuel (right_of c s leaf path) c' s' l' r' (right, (node, (left, around)))
          (omega arith) in
      (
        i,
        descend-node fuel (above path) 0 (suc s'.offset) c s node ∙ runs,
        (path', d, x, (at, (held, (order ∙ simp append_assoc, whole)))),
      )
  descend-IsFirst (suc fuel) path c s (branch c' s' l' r') r ((node, (left, right)), around) deep =
      let (i, runs, (path', d, x, (at, (held, (order, whole))))) =
        descend-IsFirst fuel (left_of c s r path) c' s' l' r' (left, (node, (right, around)))
          (omega arith) in
      (
        i,
        descend-node fuel (above path) (suc s'.offset) (link r) c s node ∙ runs,
        (path', d, x, (at, (held, (order ∙ simp append_assoc, whole)))),
      )
