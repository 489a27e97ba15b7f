-- ===== src/Tree/Insert/Store.antt =====
-- A node stored between what is above and below it, and the tree as seen from its root.
use cxx_library.Prelude.{
  ℕ, suc, ◌^◌, ◌<◌, ◌≡◌, refl, sym, ◌∙◌, inl, Bool, List, ◌∷◌, ◌++◌, append_assoc, append-nil,
  length, All,
}
use cxx_library.Tree.Host.{Host}
use cxx_library.Tree.Codec.{HasKey, load-dump, length-dump}
use cxx_library.Tree.Shape.{
  Spot, Tree, branch, Route, top, left_of, right_of, link, above, node_at, spots, lefts, rights,
  all_spots, Holds, HoldsAround, HoldsAt,
}
use cxx_library.Tree.Frame.{
  IsClear, Sep, All-left, All-right, IsClear-others, HasKey-dump, dump-Holds, dump-HoldsAround,
}
use cxx_library.Tree.Rotate.{Object, save}
use cxx_library.Tree.Rotate.Steps.{Within, Fits-all, room}
use cxx_library.Tree.Rotate.Room.{link_small, above_small}

-- Nodes that lie apart within bytes of a size.
abbrev pub AreApart : ℕ → List Spot → Type 0
AreApart size ss = (0 < size) × ((size < 2 ^ 60) × (Sep ss × All (Within size) ss))

-- The object of a node.
abbrev pub object_at : Bool → Spot → ℕ → ℕ → ℕ → Object
object_at c s p l r = record { ptr = s.offset; node = node_at c s p l r }

module _ (h : Host) (size : ℕ) where
  pub stored :
      (b : List ℕ) (path : Route) (c : Bool) (s : Spot) (l r : Tree)
      → length b ≡ size
      → AreApart size (all_spots path (branch c s l r))
      → HoldsAround h b path (suc s.offset)
      → HasKey h b s.offset s.key
      → Holds h b (suc s.offset) l
      → Holds h b (suc s.offset) r
      → HoldsAt h (save h b (object_at c s (above path) (link l) (link r))) path (branch c s l r)
        × (length (save h b (object_at c s (above path) (link l) (link r))) ≡ size)
  stored b path c s l r same (some_size, (small, (sep, within))) around key left right =
      let P = IsClear s.offset in
      let n = node_at c s (above path) (link l) (link r) in
      let split =
        IsClear-others (all_spots path (branch c s l r)) (lefts path ++ spots l) s
          (spots r ++ rights path) (simp append_assoc) sep in
      let W = Within size in
      let inner = All-right W (lefts path) ((spots l ++ (s ∷ spots r)) ++ rights path) within in
      let mine = All-left W (spots l ++ (s ∷ spots r)) (rights path) inner in
      let at_s = All-right W (spots l) (s ∷ spots r) mine in
      let above_in =
        above_small size path some_size
          (All-left W (lefts path) ((spots l ++ (s ∷ spots r)) ++ rights path) within)
          (All-right W (spots l ++ (s ∷ spots r)) (rights path) inner) in
      let fits =
        Fits-all (above path) (link l) (link r) s size small above_in
          (link_small size l some_size (All-left W (spots l) (s ∷ spots r) mine))
          (link_small size r some_size at_s.1) at_s.0 c in
      (
        (
          (
            (
              load-dump h b s.offset n fits (room s b size same at_s.0),
              HasKey-dump h b s.offset n s (inl refl) key,
            ),
            (
              dump-Holds h b s.offset n (suc s.offset) l
                  (All-right P (lefts path) (spots l) split.0) left,
              dump-Holds h b s.offset n (suc s.offset) r
                  (All-left P (spots r) (rights path) split.1) right,
            ),
          ),
          dump-HoldsAround h b s.offset n path (suc s.offset)
              (All-left P (lefts path) (spots l) split.0)
              (All-right P (spots r) (rights path) split.1) around,
        ),
        length-dump h b s.offset n ∙ same,
      )

-- The whole tree that has `t` at a place.
abbrev pub plug : Route → Tree → Tree
plug top t = t
plug (left_of c s r up) t = plug up (branch c s t r)
plug (right_of c s l up) t = plug up (branch c s l t)

pub spots-plug : (path : Route) (t : Tree) → spots (plug path t) ≡ all_spots path t
spots-plug top t = sym (append-nil (spots t))
spots-plug (left_of c s r up) t = spots-plug up (branch c s t r) ∙ simp append_assoc
spots-plug (right_of c s l up) t = spots-plug up (branch c s l t) ∙ simp append_assoc

pub plug-Holds :
    (h : Host) (b : List ℕ) (path : Route) (t : Tree)
    → HoldsAt h b path t
    → Holds h b 0 (plug path t)
plug-Holds h b top t (holds, around) = holds
plug-Holds h b (left_of c s r up) t (holds, (node, (right, around))) =
    plug-Holds h b up (branch c s t r) ((node, (holds, right)), around)
plug-Holds h b (right_of c s l up) t (holds, (node, (left, around))) =
    plug-Holds h b up (branch c s l t) ((node, (left, holds)), around)
