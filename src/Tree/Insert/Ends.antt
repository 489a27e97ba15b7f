-- ===== src/Tree/Insert/Ends.antt =====
-- The ends of `InsertImpl` of containers/rbtree/rbtree.cpp: a node put below another, or its value into
-- one of the same key.
use cxx_library.Prelude.{
  ℕ, suc, ◌^◌, ◌<◌, ◌≡◌, refl, sym, ap, subst, ◌∙◌, ◌⊎◌, inl, inr, Bool, true, false, List, [], ◌∷◌,
  ◌++◌, append_assoc, All, All-append, length, Ordering, arith,
}
use cxx_library.Tree.Host.{Host}
use cxx_library.Tree.Node.{dump}
use cxx_library.Tree.Codec.{HasKey, load-dump, length-dump}
use cxx_library.Tree.Shape.{
  Spot, Tree, leaf, branch, Route, link, above, node_at, spots, lefts, rights, all_spots, Holds,
  HoldsAt,
}
use cxx_library.Tree.Frame.{
  IsClear, All-left, All-right, IsClear-others, HasKey-dump, dump-Holds, dump-HoldsAround,
}
use cxx_library.Tree.Order.{
  IsAbove, Ordered, insert_spot, insert_past, insert_front, insert_same, IsAbove-front, gt_not_lt,
  eq_not_lt,
}
use cxx_library.Tree.Rotate.{save}
use cxx_library.Tree.Rotate.Steps.{Within, Fits-all, room}
use cxx_library.Tree.Insert.{Placed, place, replace}
use cxx_library.Tree.Insert.Moved.{AreApart-moved, AreApart-valued}
use cxx_library.Tree.Insert.Store.{AreApart, object_at, stored, plug, spots-plug, plug-Holds}

module _ (h : Host) (size : ℕ) (n : Spot) where
  open h use {cmp}

  -- the bytes once the object `root` is dumped, as its caller does for a new node
  abbrev pub settled_bytes : Placed → List ℕ
  settled_bytes p = elim p.is_new [ true ↦ save h p.bytes p.root | false ↦ p.bytes ]

  -- The bytes hold a whole tree of the nodes that were there and the one that is put in.
  abbrev pub IsPlaced : List Spot → Placed → Type 0
  IsPlaced before p =
      (t : Tree) × Holds h (settled_bytes p) 0 t
      × ((spots t ≡ insert_spot h n before) × (length (settled_bytes p) ≡ size))

  -- the key is there
  pub replaced :
      (b : List ℕ) (path : Route) (c : Bool) (s : Spot) (l r : Tree)
      → length b ≡ size
      → AreApart size (all_spots path (branch c s l r))
      → n.value < 2 ^ 64
      → Ordered h (all_spots path (branch c s l r))
      → HoldsAt h b path (branch c s l r)
      → cmp n.key s.key ≡ Ordering.eq
      → IsPlaced
          (all_spots path (branch c s l r))
          (replace h b (object_at c s (above path) (link l) (link r)) (object_at true n 0 0 0))
  unfolding replace
  replaced b path c s l r same apart fits ordered ((node, (left, right)), around) e =
      let s' : Spot = record s { value = n.value } in
      let f = lefts path ++ spots l in
      let g = spots r ++ rights path in
      let flat : all_spots path (branch c s l r) ≡ f ++ (s ∷ g) = simp append_assoc in
      let flat' : all_spots path (branch c s' l r) ≡ f ++ (s' ∷ g) = simp append_assoc in
      let apart' =
        subst (AreApart size) (sym flat')
          (AreApart-valued size n.value f s g fits (subst (AreApart size) flat apart)) in
      let front =
        IsAbove-front h n.key f s g (subst (Ordered h) flat ordered) (λ q. eq_not_lt (sym e ∙ q)) in
      let (held, length_held) =
        stored h size b path c s' l r same apart' around node.1 left right in
      (
        plug path (branch c s' l r),
        plug-Holds h _ path (branch c s' l r) held,
        (
          spots-plug path (branch c s' l r)
              ∙ flat'
              ∙ sym (
                  ap (insert_spot h n) flat
                  ∙ insert_past h n f (s ∷ g) front
                  ∙ ap (λ ss. f ++ ss) (insert_same h n s g e)),
          length_held,
        ),
      )

  abbrev new_leaf : Tree
  new_leaf = branch true n leaf leaf

  -- the new node dumped below another, and then that other one with its new link
  put_below :
      (b : List ℕ) (path : Route) (c : Bool) (s : Spot) (l r l' r' : Tree)
      → length b ≡ size
      → AreApart size (n ∷ all_spots path (branch c s l r))
      → AreApart size (all_spots path (branch c s l' r'))
      → HasKey h b n.offset n.key
      → HoldsAt h b path (branch c s l r)
      → (l' ≡ l) ⊎ (l' ≡ new_leaf)
      → (r' ≡ r) ⊎ (r' ≡ new_leaf)
      → (let b1 = save h b (object_at true n (suc s.offset) 0 0) in
          let b2 = save h b1 (object_at c s (above path) (link l') (link r')) in
          HoldsAt h b2 path (branch c s l' r') × (length b2 ≡ size))
  put_below b path c s l r l' r' same (some_size, (small, ((away, sep), (mine, within)))) apart' key
        ((node, (left, right)), around) new_left new_right =
      let o = node_at true n (suc s.offset) 0 0 in
      let b1 = dump h b n.offset o in
      let P = IsClear n.offset in
      let all = all_spots path (branch c s l r) in
      let clear = (IsClear-others (n ∷ all) [] n all refl (away, sep)).1 in
      let inner = All-right P (lefts path) ((spots l ++ (s ∷ spots r)) ++ rights path) clear in
      let here = All-left P (spots l ++ (s ∷ spots r)) (rights path) inner in
      let at_s = All-right P (spots l) (s ∷ spots r) here in
      let W = Within size in
      let s_within =
        (All-right W (spots l) (s ∷ spots r) (
          All-left W (spots l ++ (s ∷ spots r)) (rights path)
            (All-right W (lefts path) ((spots l ++ (s ∷ spots r)) ++ rights path) within))).0 in
      let fits =
        Fits-all (suc s.offset) 0 0 n size small (omega (arith, s_within.0)) some_size some_size
          mine true in
      let new : Holds h b1 (suc s.offset) new_leaf = (
        (
          load-dump h b n.offset o fits (room n b size same mine),
          HasKey-dump h b n.offset o n (inl refl) key,
        ),
        (tt, tt),
      ) in
      let left1 =
        dump-Holds h b n.offset o (suc s.offset) l (All-left P (spots l) (s ∷ spots r) here) left in
      let right1 = dump-Holds h b n.offset o (suc s.offset) r at_s.1 right in
      stored h size b1 path c s l' r' (length-dump h b n.offset o ∙ same) apart'
        (dump-HoldsAround h b n.offset o path (suc s.offset)
          (All-left P (lefts path) ((spots l ++ (s ∷ spots r)) ++ rights path) clear)
          (All-right P (spots l ++ (s ∷ spots r)) (rights path) inner) around)
        (HasKey-dump h b n.offset o s (inr at_s.0) node.1)
        (elim new_left [
          | inl e ↦ subst (Holds h b1 (suc s.offset)) (sym e) left1
          | inr e ↦ subst (Holds h b1 (suc s.offset)) (sym e) new
        ])
        (elim new_right [
          | inl e ↦ subst (Holds h b1 (suc s.offset)) (sym e) right1
          | inr e ↦ subst (Holds h b1 (suc s.offset)) (sym e) new
        ])

  pub put_left :
      (b : List ℕ) (path : Route) (c : Bool) (s : Spot) (r : Tree)
      → length b ≡ size
      → AreApart size (n ∷ all_spots path (branch c s leaf r))
      → HasKey h b n.offset n.key
      → HoldsAt h b path (branch c s leaf r)
      → All (IsAbove h n.key) (lefts path)
      → cmp n.key s.key ≡ Ordering.lt
      → IsPlaced
          (all_spots path (branch c s leaf r))
          (place h b (object_at c s (above path) (suc n.offset) (link r)) (object_at true n 0 0 0))
  unfolding place
  put_left b path c s r same apart key holds front e =
      let g = s ∷ (spots r ++ rights path) in
      let (held, length_held) =
        put_below b path c s leaf r new_leaf r same apart
          (AreApart-moved size n (lefts path ++ g) (lefts path) g refl apart) key holds (inr refl)
          (inl refl) in
      (
        plug path (branch c s new_leaf r),
        plug-Holds h _ path (branch c s new_leaf r) held,
        (
          spots-plug path (branch c s new_leaf r)
              ∙ sym (
                  insert_past h n (lefts path) g front
                  ∙ ap (λ ss. lefts path ++ ss) (insert_front h n s (spots r ++ rights path) e)),
          length_held,
        ),
      )

  -- The key is below the first of some nodes.
  abbrev pub IsBeforeHead : List Spot → Type 0
  IsBeforeHead [] = Unit
  IsBeforeHead (s ∷ ss) = cmp n.key s.key ≡ Ordering.lt

  insert_head : (ss : List Spot) → IsBeforeHead ss → insert_spot h n ss ≡ n ∷ ss
  insert_head [] e = refl
  insert_head (s ∷ ss) e = insert_front h n s ss e

  pub above_all :
      (path : Route) (s : Spot) (l r : Tree) (c : Bool)
      → Ordered h (all_spots path (branch c s l r))
      → cmp n.key s.key ≡ Ordering.gt
      → All (IsAbove h n.key) (lefts path ++ (spots l ++ (s ∷ [])))
  above_all path s l r c ordered e =
      let f = lefts path ++ spots l in
      let flat : all_spots path (branch c s l r) ≡ f ++ (s ∷ (spots r ++ rights path)) =
        simp append_assoc in
      let front =
        IsAbove-front h n.key f s (spots r ++ rights path) (subst (Ordered h) flat ordered)
          (λ q. gt_not_lt (sym e ∙ q)) in
      subst (All (IsAbove h n.key)) (append_assoc (lefts path) (spots l) (s ∷ []))
        (All-append (IsAbove h n.key) f (s ∷ []) front (e, tt))

  pub put_right :
      (b : List ℕ) (path : Route) (c : Bool) (s : Spot) (l : Tree)
      → length b ≡ size
      → AreApart size (n ∷ all_spots path (branch c s l leaf))
      → HasKey h b n.offset n.key
      → HoldsAt h b path (branch c s l leaf)
      → Ordered h (all_spots path (branch c s l leaf))
      → IsBeforeHead (rights path)
      → cmp n.key s.key ≡ Ordering.gt
      → IsPlaced
          (all_spots path (branch c s l leaf))
          (place h b (object_at c s (above path) (link l) (suc n.offset)) (object_at true n 0 0 0))
  unfolding place
  put_right b path c s l same apart key holds ordered before e =
      let f = lefts path ++ (spots l ++ (s ∷ [])) in
      let flat : all_spots path (branch c s l leaf) ≡ f ++ rights path = simp append_assoc in
      let flat' : all_spots path (branch c s l new_leaf) ≡ f ++ (n ∷ rights path) =
        simp append_assoc in
      let (held, length_held) =
        put_below b path c s l leaf l new_leaf same apart
          (subst (AreApart size) (sym flat')
            (AreApart-moved size n (all_spots path (branch c s l leaf)) f (rights path) flat apart))
          key holds (inl refl) (inr refl) in
      (
        plug path (branch c s l new_leaf),
        plug-Holds h _ path (branch c s l new_leaf) held,
        (
          spots-plug path (branch c s l new_leaf)
              ∙ flat'
              ∙ sym (
                  ap (insert_spot h n) flat
                  ∙ insert_past h n f (rights path) (above_all path s l leaf c ordered e)
                  ∙ ap (λ ss. f ++ ss) (insert_head (rights path) before)),
          length_held,
        ),
      )
