-- ===== src/Tree/Insert/Moved.antt =====
-- Separate nodes with one more among them, or with another value.
use cxx_library.Prelude.{ℕ, ◌^◌, ◌<◌, ◌≡◌, subst, inl, inr, List, [], ◌∷◌, ◌++◌, All, All-append}
use cxx_library.Tree.Shape.{Spot}
use cxx_library.Tree.Frame.{AreAway, Sep, All-left, All-right}
use cxx_library.Tree.Rotate.Steps.{Within}
use cxx_library.Tree.Insert.Store.{AreApart}

AreAway-back : (s t : Spot) → AreAway s t → AreAway t s
AreAway-back s t (inl before) = inr before
AreAway-back s t (inr behind) = inl behind

-- A node taken from the front of separate nodes to a place between them.
Sep-moved :
    (n : Spot) (f g : List Spot) → All (AreAway n) (f ++ g) → Sep (f ++ g) → Sep (f ++ (n ∷ g))
Sep-moved n [] g away sep = (away, sep)
Sep-moved n (s ∷ f) g away sep = (
  All-append (AreAway s) f (n ∷ g) (All-left (AreAway s) f g sep.0)
      (AreAway-back n s away.0, All-right (AreAway s) f g sep.0),
  Sep-moved n f g away.1 sep.1,
)

pub AreApart-moved :
    (size : ℕ) (n : Spot) (all f g : List Spot)
    → all ≡ f ++ g
    → AreApart size (n ∷ all)
    → AreApart size (f ++ (n ∷ g))
AreApart-moved size n all f g e (some_size, (small, ((away, sep), (mine, within)))) =
    let W = Within size in
    let inside = subst (All W) e within in
    (
      some_size,
      (
        small,
        (
          Sep-moved n f g (subst (All (AreAway n)) e away) (subst Sep e sep),
          All-append W f (n ∷ g) (All-left W f g inside) (mine, All-right W f g inside),
        ),
      ),
    )

-- A node with another value takes the same bytes.
Sep-valued :
    (v : ℕ) (f : List Spot) (s : Spot) (g : List Spot)
    → Sep (f ++ (s ∷ g))
    → Sep (f ++ (record s { value = v } ∷ g))
Sep-valued v [] s g sep = sep
Sep-valued v (t ∷ f) s g sep =
    let mine = All-right (AreAway t) f (s ∷ g) sep.0 in
    (
      All-append (AreAway t) f (record s { value = v } ∷ g) (All-left (AreAway t) f (s ∷ g) sep.0)
          (mine.0, mine.1),
      Sep-valued v f s g sep.1,
    )

pub AreApart-valued :
    (size v : ℕ) (f : List Spot) (s : Spot) (g : List Spot)
    → v < 2 ^ 64
    → AreApart size (f ++ (s ∷ g))
    → AreApart size (f ++ (record s { value = v } ∷ g))
AreApart-valued size v f s g fits (some_size, (small, (sep, within))) =
    let W = Within size in
    let mine = All-right W f (s ∷ g) within in
    (
      some_size,
      (
        small,
        (
          Sep-valued v f s g sep,
          All-append W f (record s { value = v } ∷ g) (All-left W f (s ∷ g) within)
              ((mine.0.0, fits), mine.1),
        ),
      ),
    )
