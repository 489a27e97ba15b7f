-- ===== src/Tree/Rotate/Free.antt =====
-- Nodes that lie apart, in the order of a tree: what a dump of one of them does not touch.
use cxx_library.Prelude.{ℕ, ◌≡◌, ap, ◌∙◌, List, [], ◌∷◌, ◌++◌, append_assoc, All}
use cxx_library.Tree.Shape.{Spot}
use cxx_library.Tree.Frame.{IsClear, Sep, All-left, All-right, IsClear-others}

-- Five lists with two nodes between them.
abbrev pub seven :
    List Spot → List Spot → Spot → List Spot → Spot → List Spot → List Spot → List Spot
seven f l a m b r k = f ++ (l ++ (a ∷ (m ++ (b ∷ (r ++ k)))))

-- The dump at an offset touches none of them.
abbrev pub Untouched : ℕ → List Spot → List Spot → List Spot → List Spot → List Spot → Type 0
Untouched i f l m r k =
    All (IsClear i) f
    × (All (IsClear i) l × (All (IsClear i) m × (All (IsClear i) r × All (IsClear i) k)))

module _ (f l : List Spot) (a : Spot) (m : List Spot) (b : Spot) (r k : List Spot) where
  pub at_first : Sep (seven f l a m b r k) → IsClear a.offset b × Untouched a.offset f l m r k
  at_first h =
      let P = IsClear a.offset in
      let split =
        IsClear-others (seven f l a m b r k) (f ++ l) a (m ++ (b ∷ (r ++ k))) (simp append_assoc)
          h in
      let behind = All-right P m (b ∷ (r ++ k)) split.1 in
      (
        behind.0,
        (
          All-left P f l split.0,
          (
            All-right P f l split.0,
            (
              All-left P m (b ∷ (r ++ k)) split.1,
              (All-left P r k behind.1, All-right P r k behind.1),
            ),
          ),
        ),
      )

  pub at_second : Sep (seven f l a m b r k) → IsClear b.offset a × Untouched b.offset f l m r k
  at_second h =
      let P = IsClear b.offset in
      let split =
        IsClear-others (seven f l a m b r k) (f ++ (l ++ (a ∷ m))) b (r ++ k) (simp append_assoc)
          h in
      let before = All-right P f (l ++ (a ∷ m)) split.0 in
      let inner = All-right P l (a ∷ m) before in
      (
        inner.0,
        (
          All-left P f (l ++ (a ∷ m)) split.0,
          (
            All-left P l (a ∷ m) before,
            (inner.1, (All-left P r k split.1, All-right P r k split.1)),
          ),
        ),
      )

  -- A node of the middle list.
  pub at_inner :
      (m1 : List Spot) (y : Spot) (m2 : List Spot)
      → m ≡ m1 ++ (y ∷ m2)
      → Sep (seven f l a m b r k)
      → (IsClear y.offset a × IsClear y.offset b)
        × ((All (IsClear y.offset) m1 × All (IsClear y.offset) m2) × Untouched y.offset f l [] r k)
  at_inner m1 y m2 e h =
      let P = IsClear y.offset in
      let split =
        IsClear-others (seven f l a m b r k) (f ++ (l ++ (a ∷ m1))) y (m2 ++ (b ∷ (r ++ k)))
          (ap (λ t. seven f l a t b r k) e ∙ simp append_assoc) h in
      let before = All-right P f (l ++ (a ∷ m1)) split.0 in
      let inner = All-right P l (a ∷ m1) before in
      let behind = All-right P m2 (b ∷ (r ++ k)) split.1 in
      (
        (inner.0, behind.0),
        (
          (inner.1, All-left P m2 (b ∷ (r ++ k)) split.1),
          (
            All-left P f (l ++ (a ∷ m1)) split.0,
            (
              All-left P l (a ∷ m1) before,
              (tt, (All-left P r k behind.1, All-right P r k behind.1)),
            ),
          ),
        ),
      )

  -- A node of the last list, and one at the end of the first.
  pub at_behind :
      (g : Spot) (u v : List Spot)
      → k ≡ (g ∷ u) ++ v
      → Sep (seven f l a m b r k)
      → (IsClear g.offset a × IsClear g.offset b)
        × ((All (IsClear g.offset) u × All (IsClear g.offset) v) × Untouched g.offset f l m r [])
  at_behind g u v e h =
      let P = IsClear g.offset in
      let split =
        IsClear-others (seven f l a m b r k) (f ++ (l ++ (a ∷ (m ++ (b ∷ r))))) g (u ++ v)
          (ap (λ t. seven f l a m b r t) e ∙ simp append_assoc) h in
      let one = All-right P f (l ++ (a ∷ (m ++ (b ∷ r)))) split.0 in
      let two = All-right P l (a ∷ (m ++ (b ∷ r))) one in
      let three = All-right P m (b ∷ r) two.1 in
      (
        (two.0, three.0),
        (
          (All-left P u v split.1, All-right P u v split.1),
          (
            All-left P f (l ++ (a ∷ (m ++ (b ∷ r)))) split.0,
            (All-left P l (a ∷ (m ++ (b ∷ r))) one, (All-left P m (b ∷ r) two.1, (three.1, tt))),
          ),
        ),
      )

  pub at_before :
      (g : Spot) (u v : List Spot)
      → f ≡ v ++ (u ++ (g ∷ []))
      → Sep (seven f l a m b r k)
      → (IsClear g.offset a × IsClear g.offset b)
        × ((All (IsClear g.offset) u × All (IsClear g.offset) v) × Untouched g.offset [] l m r k)
  at_before g u v e h =
      let P = IsClear g.offset in
      let split =
        IsClear-others (seven f l a m b r k) (v ++ u) g (l ++ (a ∷ (m ++ (b ∷ (r ++ k)))))
          (ap (λ t. seven t l a m b r k) e ∙ simp append_assoc) h in
      let two = All-right P l (a ∷ (m ++ (b ∷ (r ++ k)))) split.1 in
      let three = All-right P m (b ∷ (r ++ k)) two.1 in
      (
        (two.0, three.0),
        (
          (All-right P v u split.0, All-left P v u split.0),
          (
            tt,
            (
              All-left P l (a ∷ (m ++ (b ∷ (r ++ k)))) split.1,
              (
                All-left P m (b ∷ (r ++ k)) two.1,
                (All-left P r k three.1, All-right P r k three.1),
              ),
            ),
          ),
        ),
      )
