-- ===== src/Tree/Rotate/Steps.antt =====
-- The dumps of `Rotate`, one after the other, on the pieces of a tree.
use cxx_library.Prelude.{
  ℕ, suc, ◌+◌, ◌^◌, ◌≤◌, ◌<◌, ◌≡◌, refl, ap, ◌∙◌, inl, inr, Bool, true, false, Option, some, List,
  ◌∷◌, length, All, arith, ◌==◌, if◌then◌else◌, if_true, if_false,
}
use cxx_library.Prelude.Options.{◌>>=◌}
use cxx_library.Tree.Host.{Host}
use cxx_library.Tree.Node.{Node, load, dump}
use cxx_library.Tree.Codec.{Apart, Fits, load-dump, load-dump-Apart, length-dump}
use cxx_library.Tree.Shape.{
  Spot, Tree, leaf, branch, Route, top, left_of, right_of, link, above, node_at, extent, spots,
  lefts, rights, HoldsAround,
}
use cxx_library.Tree.Frame.{IsClear, All-right, HasKey-dump, dump-Holds, dump-HoldsAround}
use cxx_library.Tree.Rotate.{Object, set_child, save, adopt}
use cxx_library.Tree.Rotate.Pieces.{
  ClearTree, ClearBeyond, Pieces, ClearPieces, HoldsPieces, pieces_dumped,
}

-- The node lies in the bytes, and they can hold its numbers.
abbrev pub Within : ℕ → Spot → Type 0
Within size s = (s.offset + extent s ≤ size) × (s.value < 2 ^ 64)

abbrev pub at_middle : Pieces → Tree → Pieces
at_middle x t = record x { middle = t }

abbrev pub at_path : Pieces → Route → Pieces
at_path x path = record x { path = path }

-- The dump of the middle tree's root touches nothing else.
abbrev pub FreeMiddle : ℕ → Pieces → Tree → Type 0
FreeMiddle size x leaf = Unit
FreeMiddle size x (branch c y l r) =
    ClearPieces y.offset (at_middle x leaf)
    × (ClearTree y.offset l
        × (ClearTree y.offset r × (Within size y × ((link l < size) × (link r < size)))))

-- Nor does that of the path's head.
abbrev pub FreeHead : ℕ → Pieces → Route → Type 0
FreeHead size x top = Unit
FreeHead size x (left_of c g t up) =
    ClearPieces g.offset x × (Within size g × ((above up < size) × (link t < size)))
FreeHead size x (right_of c g t up) =
    ClearPieces g.offset x × (Within size g × ((above up < size) × (link t < size)))

-- The pieces lie apart in bytes of a size.
pub record Free (size : ℕ) (x : Pieces) : Type 0 where
  pub small : size < 2 ^ 60
  pub free_middle : FreeMiddle size x x.middle
  pub free_head : FreeHead size x x.path
  pub at_node : ClearPieces x.node.offset x
  pub at_child : ClearPieces x.child.offset x
  pub node_path :
      All (IsClear x.node.offset) (lefts x.path) × All (IsClear x.node.offset) (rights x.path)
  pub child_path :
      All (IsClear x.child.offset) (lefts x.path) × All (IsClear x.child.offset) (rights x.path)
  pub apart : IsClear x.node.offset x.child
  pub node_within : Within size x.node
  pub child_within : Within size x.child
  pub above_small : above x.path < size
  pub links_small : (link x.near < size) × ((link x.middle < size) × (link x.far < size))

-- What the object `root` of a node below a path is.
abbrev pub IsRoot : Route → ℕ → Object → Type 0
IsRoot top m root = Unit
IsRoot (left_of c g t up) m root =
    root ≡ record { ptr = g.offset; node = node_at c g (above up) m (link t) }
IsRoot (right_of c g t up) m root =
    root ≡ record { ptr = g.offset; node = node_at c g (above up) (link t) m }

pub Fits-all :
    (p l r : ℕ) (s : Spot) (size : ℕ)
    → size < 2 ^ 60
    → p < size
    → l < size
    → r < size
    → Within size s
    → (c : Bool) → Fits (node_at c s p l r)
Fits-all p l r s size small hp hl hr within c = (omega arith, omega arith, omega arith, within.1)

pub room :
    (s : Spot) (b : List ℕ) (size : ℕ) → length b ≡ size → Within size s → s.offset + 32 ≤ length b
room s b size same within = omega (arith, within.0, same)

head-Apart : (i : ℕ) (s : Spot) → IsClear i s → Apart s.offset 32 i 32
head-Apart i s (inl before) = inl (omega arith)
head-Apart i s (inr behind) = inr (omega arith)

not_zero : (i : ℕ) → (suc i == 0) ≡ false
not_zero i = ground arith

not_own : (i : ℕ) (s : Spot) → IsClear i s → (suc i == suc s.offset) ≡ false
not_own i s (inl before) = ground arith
not_own i s (inr behind) = ground arith

pub other_child : (t : Tree) (i : ℕ) → ClearTree i t → (suc i == link t) ≡ false
other_child leaf i clear = ground arith
other_child (branch c s l r) i clear =
    not_own i s (All-right (IsClear i) (spots l) (s ∷ spots r) clear).0

module _ (h : Host) (size : ℕ) where
  -- the middle tree gets its new parent.
  pub middle_adopted :
      (b : List ℕ) (x : Pieces) (t : Tree)
      → length b ≡ size
      → size < 2 ^ 60
      → FreeMiddle size x t
      → suc x.node.offset < size
      → HoldsPieces h b (suc x.child.offset) (at_middle x t)
      → (b' : List ℕ) × (adopt h b (link t) (suc x.node.offset) ≡ some b')
        × (HoldsPieces h b' (suc x.node.offset) (at_middle x t) × (length b' ≡ size))
  unfolding adopt
  middle_adopted b x leaf same small free node_in holds = (b, refl, (holds, same))
  middle_adopted b x (branch c y l r) same small free node_in holds =
      let n = node_at c y (suc x.node.offset) (link l) (link r) in
      let b' = dump h b y.offset n in
      let root = holds.1.1.1.1.0 in
      let bare =
        pieces_dumped h b y.offset n 0 (at_middle x leaf) free.0
          (holds.0, (holds.1.0, (holds.1.1.0, (holds.1.1.1.0, (tt, holds.1.1.1.1.1))))) in
      let loaded =
        load-dump h b y.offset n
          (Fits-all (suc x.node.offset) (link l) (link r) y size small node_in free.1.1.1.1.0
            free.1.1.1.1.1 free.1.1.1.0 c)
          (room y b size same free.1.1.1.0) in
      let key = HasKey-dump h b y.offset n y (inl refl) root.0.1 in
      (
        b',
        ap
            (λ (o : Option Node).
              o >>= λ m. some (dump h b y.offset (record m { parent = suc x.node.offset })))
            root.0.0,
        (
          (
            bare.0,
            (
              bare.1.0,
              (
                bare.1.1.0,
                (
                  bare.1.1.1.0,
                  (
                    (
                      (loaded, key),
                      (
                        dump-Holds h b y.offset n (suc y.offset) l free.1.0 root.1.0,
                        dump-Holds h b y.offset n (suc y.offset) r free.1.1.0 root.1.1,
                      ),
                    ),
                    bare.1.1.1.1.1,
                  ),
                ),
              ),
            ),
          ),
          length-dump h b y.offset n ∙ same,
        ),
      )

  -- The bytes once `root` has the child in the node's place.
  abbrev pub head_dump : List ℕ → Route → ℕ → List ℕ
  head_dump b top m = b
  head_dump b (left_of c g t up) m = dump h b g.offset (node_at c g (above up) m (link t))
  head_dump b (right_of c g t up) m = dump h b g.offset (node_at c g (above up) (link t) m)

  -- That is what `hang` saves.
  pub head_saved :
      (b : List ℕ) (path : Route) (root : Object) (at new : ℕ)
      → ClearBeyond at path
      → IsRoot path (suc at) root
      → (if above path == 0
          then b
          else save h b (record root { node = set_child at new root.node }))
        ≡ head_dump b path new
  unfolding set_child
  head_saved b top root at new clear is_root = refl
  head_saved b (left_of c g t up) root at new clear is_root =
      let same : (suc at == suc at) ≡ true = ground arith in
      if_false _ _ (not_zero g.offset)
      ∙ ap (λ (o : Object). save h b (record o { node = set_child at new o.node })) is_root
      ∙ ap (λ (n : Node). dump h b g.offset n) (if_true _ _ same)
  head_saved b (right_of c g t up) root at new clear is_root =
      if_false _ _ (not_zero g.offset)
      ∙ ap (λ (o : Object). save h b (record o { node = set_child at new o.node })) is_root
      ∙ ap (λ (n : Node). dump h b g.offset n) (if_false _ _ (other_child t at clear.1.0))

  pub head_dumped :
      (b : List ℕ) (x : Pieces) (path : Route) (m p : ℕ)
      → length b ≡ size
      → size < 2 ^ 60
      → m < size
      → FreeHead size (at_path x path) path
      → HoldsPieces h b p (at_path x path)
      → HoldsPieces h (head_dump b path m) p (at_path x path)
        × (HoldsAround h (head_dump b path m) path m × (length (head_dump b path m) ≡ size))
  head_dumped b x top m p same small m_in free holds = (holds, (tt, same))
  head_dumped b x (left_of c g t up) m p same small m_in free holds =
      let n = node_at c g (above up) m (link t) in
      let kept = pieces_dumped h b g.offset n p (at_path x (left_of c g t up)) free.0 holds in
      let fits =
        Fits-all (above up) m (link t) g size small free.1.1.0 m_in free.1.1.1 free.1.0 c in
      let loaded = load-dump h b g.offset n fits (room g b size same free.1.0) in
      (kept, (((loaded, kept.0.0), kept.0.1), length-dump h b g.offset n ∙ same))
  head_dumped b x (right_of c g t up) m p same small m_in free holds =
      let n = node_at c g (above up) (link t) m in
      let kept = pieces_dumped h b g.offset n p (at_path x (right_of c g t up)) free.0 holds in
      let fits =
        Fits-all (above up) (link t) m g size small free.1.1.0 free.1.1.1 m_in free.1.0 c in
      let loaded = load-dump h b g.offset n fits (room g b size same free.1.0) in
      (kept, (((loaded, kept.0.0), kept.0.1), length-dump h b g.offset n ∙ same))

  -- Then the child and the node are dumped.
  pub node_dumped :
      (b : List ℕ) (x : Pieces) (p m : ℕ) (n' n : Node)
      → length b ≡ size
      → Free size x
      → Fits n'
      → Fits n
      → HoldsPieces h b p x
      → HoldsAround h b x.path m
      → let b' = dump h (dump h b x.child.offset n') x.node.offset n in
        HoldsPieces h b' p x
        × (HoldsAround h b' x.path m
            × ((load h b' x.child.offset ≡ some n')
                × ((load h b' x.node.offset ≡ some n) × (length b' ≡ size))))
  node_dumped b x p m n' n same free fits' fits holds around =
      let b1 = dump h b x.child.offset n' in
      let pieces = pieces_dumped h b x.child.offset n' p x free.at_child holds in
      let around1 =
        dump-HoldsAround h b x.child.offset n' x.path m free.child_path.0 free.child_path.1
          around in
      let loaded' =
        load-dump h b x.child.offset n' fits' (room x.child b size same free.child_within) in
      let same1 = length-dump h b x.child.offset n' ∙ same in
      (
        pieces_dumped h b1 x.node.offset n p x free.at_node pieces,
        (
          dump-HoldsAround h b1 x.node.offset n x.path m free.node_path.0 free.node_path.1 around1,
          (
            load-dump-Apart h b1 x.node.offset x.child.offset n n'
                (head-Apart x.node.offset x.child free.apart) loaded',
            (
              load-dump h b1 x.node.offset n fits (room x.node b1 size same1 free.node_within),
              length-dump h b1 x.node.offset n ∙ same1,
            ),
          ),
        ),
      )
