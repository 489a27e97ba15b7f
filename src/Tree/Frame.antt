-- ===== src/Tree/Frame.antt =====
-- What a `Dump` at one place leaves of the tree that the bytes hold elsewhere.
use cxx_library.Prelude.{
  ℕ, suc, ◌+◌, ◌≡◌, subst, ◌⊎◌, inl, inr, Bool, List, [], ◌∷◌, ◌++◌, length, All, arith,
}
use cxx_library.Tree.Host.{Host}
use cxx_library.Tree.Node.{Node, dump}
use cxx_library.Tree.Codec.{Apart, HasKey, load-dump-Apart, dump-HasKey}
use cxx_library.Tree.Shape.{
  Spot, Tree, leaf, branch, Route, top, left_of, right_of, link, above, node_at, extent, spots,
  lefts, rights, HasNode, Holds, HoldsAround,
}

-- Two nodes do not overlap.
abbrev pub AreAway : Spot → Spot → Type 0
AreAway s t = Apart s.offset (extent s) t.offset (extent t)

abbrev pub Sep : List Spot → Type 0
Sep [] = Unit
Sep (s ∷ ss) = All (AreAway s) ss × Sep ss

-- A dump at an offset does not touch the node.
abbrev pub IsClear : ℕ → Spot → Type 0
IsClear i s = Apart s.offset (extent s) i 32

away-IsClear : (s t : Spot) → AreAway s t → IsClear t.offset s
away-IsClear s t (inl before) = inl before
away-IsClear s t (inr behind) = inr (omega arith)

away-IsClear_back : (s t : Spot) → AreAway s t → IsClear s.offset t
away-IsClear_back s t (inl before) = inr (omega arith)
away-IsClear_back s t (inr behind) = inl behind

All-back : (s : Spot) (ts : List Spot) → All (AreAway s) ts → All (IsClear s.offset) ts
All-back s [] h = tt
All-back s (t ∷ ts) h = (away-IsClear_back s t h.0, All-back s ts h.1)

module _ {ℓ} {A : Type ℓ} (P : A → Type 0) where
  pub All-left : (xs ys : List A) → All P (xs ++ ys) → All P xs
  All-left [] ys h = tt
  All-left (x ∷ xs) ys h = (h.0, All-left xs ys h.1)

  pub All-right : (xs ys : List A) → All P (xs ++ ys) → All P ys
  All-right [] ys h = h
  All-right (x ∷ xs) ys h = All-right xs ys h.1

-- What a dump at one of separate nodes does not touch: all the others.
Sep-IsClear :
    (front : List Spot) (s : Spot) (back : List Spot)
    → Sep (front ++ (s ∷ back))
    → All (IsClear s.offset) front × All (IsClear s.offset) back
Sep-IsClear [] s back h = (tt, All-back s back h.0)
Sep-IsClear (a ∷ front) s back h =
    let rest = Sep-IsClear front s back h.1 in
    ((away-IsClear a s (All-right (AreAway a) front (s ∷ back) h.0).0, rest.0), rest.1)

pub IsClear-others :
    (all front : List Spot) (s : Spot) (back : List Spot)
    → all ≡ front ++ (s ∷ back)
    → Sep all
    → All (IsClear s.offset) front × All (IsClear s.offset) back
IsClear-others all front s back e h = Sep-IsClear front s back (subst Sep e h)

beside :
    (i : ℕ) (s : Spot)
    → (s.offset ≡ i) ⊎ IsClear i s
    → Apart (s.offset + 32) (8 + length s.key) i 32
beside i s (inl own) = inr (omega arith)
beside i s (inr (inl before)) = inl (omega arith)
beside i s (inr (inr behind)) = inr (omega arith)

module _ (h : Host) (b : List ℕ) (i : ℕ) (n : Node) where
  -- A key stays, be the dump one of its own node or of one apart from it.
  pub HasKey-dump :
      (s : Spot)
      → (s.offset ≡ i) ⊎ IsClear i s
      → HasKey h b s.offset s.key
      → HasKey h (dump h b i n) s.offset s.key
  HasKey-dump s place k = dump-HasKey h b i s.offset n s.key (beside i s place) k

  head_clear : (s : Spot) → IsClear i s → Apart s.offset 32 i 32
  head_clear s (inl before) = inl (omega arith)
  head_clear s (inr behind) = inr behind

  pub dump-HasNode :
      (c : Bool) (s : Spot) (p l r : ℕ)
      → IsClear i s
      → HasNode h b c s p l r
      → HasNode h (dump h b i n) c s p l r
  dump-HasNode c s p l r clear holds = (
    load-dump-Apart h b i s.offset n (node_at c s p l r) (head_clear s clear) holds.0,
    HasKey-dump s (inr clear) holds.1,
  )

  pub dump-Holds :
      (p : ℕ) (t : Tree) → All (IsClear i) (spots t) → Holds h b p t → Holds h (dump h b i n) p t
  dump-Holds p leaf clear holds = tt
  dump-Holds p (branch c s l r) clear holds =
      let at_node = All-right (IsClear i) (spots l) (s ∷ spots r) clear in
      (
        dump-HasNode c s p (link l) (link r) at_node.0 holds.0,
        (
          dump-Holds (suc s.offset) l (All-left (IsClear i) (spots l) (s ∷ spots r) clear)
              holds.1.0,
          dump-Holds (suc s.offset) r at_node.1 holds.1.1,
        ),
      )

  pub dump-HoldsAround :
      (path : Route) (m : ℕ)
      → All (IsClear i) (lefts path)
      → All (IsClear i) (rights path)
      → HoldsAround h b path m
      → HoldsAround h (dump h b i n) path m
  dump-HoldsAround top m before behind holds = tt
  dump-HoldsAround (left_of c s r up) m before behind holds =
      let beyond = All-right (IsClear i) (s ∷ spots r) (rights up) behind in
      let near = All-left (IsClear i) (s ∷ spots r) (rights up) behind in
      (
        dump-HasNode c s (above up) m (link r) near.0 holds.0,
        (
          dump-Holds (suc s.offset) r near.1 holds.1.0,
          dump-HoldsAround up (suc s.offset) before beyond holds.1.1,
        ),
      )
  dump-HoldsAround (right_of c s l up) m before behind holds =
      let beyond = All-left (IsClear i) (lefts up) (spots l ++ (s ∷ [])) before in
      let near = All-right (IsClear i) (lefts up) (spots l ++ (s ∷ [])) before in
      (
        dump-HasNode c s (above up) (link l) m (All-right (IsClear i) (spots l) (s ∷ []) near).0
            holds.0,
        (
          dump-Holds (suc s.offset) l (All-left (IsClear i) (spots l) (s ∷ []) near) holds.1.0,
          dump-HoldsAround up (suc s.offset) beyond behind holds.1.1,
        ),
      )
