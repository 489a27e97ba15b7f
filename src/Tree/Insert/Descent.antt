-- ===== src/Tree/Insert/Descent.antt =====
-- `InsertImpl` of containers/rbtree/rbtree.cpp: the descent to a key's place.
use cxx_library.Prelude.{
  ℕ, zero, suc, ◌^◌, ◌<◌, ◌≤◌, ◌≡◌, refl, sym, ap, subst, ◌∙◌, Bool, true, Option, some, List, [],
  ◌∷◌, ◌++◌, append_assoc, append-nil, All, length, Ordering, arith,
}
use cxx_library.Prelude.Options.{◌>>=◌}
use cxx_library.Tree.Host.{Host}
use cxx_library.Tree.Node.{Node, key_at}
use cxx_library.Tree.Codec.{HasKey, key_at-HasKey}
use cxx_library.Tree.Shape.{
  Spot, Tree, leaf, branch, Route, top, left_of, right_of, link, above, spots, lefts, rights,
  all_spots, HasNode, Holds, HoldsAt,
}
use cxx_library.Tree.Get.{depth, find}
use cxx_library.Tree.Order.{
  IsAbove, Ordered, insert_spot, lookup, find-lookup, insert_spot-Ordered, lookup-insert_spot,
}
use cxx_library.Tree.Rotate.{Object}
use cxx_library.Tree.Insert.{Placed, place, replace, insert_impl}
use cxx_library.Tree.Insert.Ends.{
  settled_bytes, IsPlaced, IsBeforeHead, replaced, put_left, put_right, above_all,
}
use cxx_library.Tree.Insert.Store.{AreApart, object_at}

module _ (h : Host) (size : ℕ) (n : Spot) where
  open h use {cmp}

  abbrev new_object : Object
  new_object = object_at true n 0 0 0

  left_order :
      (path : Route) (c : Bool) (s : Spot) (l r : Tree)
      → all_spots (left_of c s r path) l ≡ all_spots path (branch c s l r)
  left_order path c s l r = simp append_assoc

  right_order :
      (path : Route) (c : Bool) (s : Spot) (l r : Tree)
      → all_spots (right_of c s l path) r ≡ all_spots path (branch c s l r)
  right_order path c s l r = simp append_assoc

  module _ (b : List ℕ) where
    -- What the loop does at a tree that is not empty.
    abbrev Descends : ℕ → Route → Tree → Type 0
    Descends fuel path leaf = Unit
    Descends fuel path (branch c s l r) =
        (p : Placed) × (insert_impl h fuel b s.offset new_object n.key ≡ some p)
        × IsPlaced h size n (all_spots path (branch c s l r)) p

    -- one round
    abbrev round_at : Ordering → ℕ → Object → Option Placed
    round_at o fuel root = elim o [
      | Ordering.lt ↦ elim root.node.left [
        | zero ↦
            some (
              place h b (record root { node = record root.node { left = suc n.offset } })
                new_object)
        | suc next ↦ insert_impl h fuel b next new_object n.key
      ]
      | Ordering.gt ↦ elim root.node.right [
        | zero ↦ some (
            place h b (record root { node = record root.node { right = suc n.offset } }) new_object)
        | suc next ↦ insert_impl h fuel b next new_object n.key
      ]
      | Ordering.eq ↦ some (replace h b root new_object)
    ]

    insert_impl-round :
        (fuel p x y : ℕ) (c : Bool) (s : Spot)
        → HasNode h b c s p x y
        → insert_impl h (suc fuel) b s.offset new_object n.key
          ≡ round_at (cmp n.key s.key) fuel (object_at c s p x y)
    unfolding insert_impl
    insert_impl-round fuel p x y c s holds =
        ap
          (λ (o : Option Node). (o >>= λ m. some (record { ptr = s.offset; node = m })) >>= λ root.
            key_at h b s.offset >>= λ k. round_at (cmp n.key k) fuel root)
          holds.0
        ∙ ap (λ (o : Option (List ℕ)). o >>= λ k. round_at (cmp n.key k) fuel (object_at c s p x y))
            (key_at-HasKey h b s.offset s.key holds.1)

    -- A place in the bytes where the descent may come by.
    record IsOnWay (path : Route) (t : Tree) : Type 0 where
      apart : AreApart size (n ∷ all_spots path t)
      holds : HoldsAt h b path t
      ordered : Ordered h (all_spots path t)
      front : All (IsAbove h n.key) (lefts path)
      before : IsBeforeHead h size n (rights path)

    round_at-IsPlaced :
        (o : Ordering) (fuel : ℕ) (path : Route) (c : Bool) (s : Spot) (l r : Tree)
        → cmp n.key s.key ≡ o
        → length b ≡ size
        → n.value < 2 ^ 64
        → HasKey h b n.offset n.key
        → IsOnWay path (branch c s l r)
        → (cmp n.key s.key ≡ Ordering.lt → Descends fuel (left_of c s r path) l)
        → (cmp n.key s.key ≡ Ordering.gt → Descends fuel (right_of c s l path) r)
        → (p : Placed) × (round_at o fuel (object_at c s (above path) (link l) (link r)) ≡ some p)
          × IsPlaced h size n (all_spots path (branch c s l r)) p
    round_at-IsPlaced Ordering.lt fuel path c s leaf r e same fits key way go_left go_right =
        (_, refl, put_left h size n b path c s r same way.apart key way.holds way.front e)
    round_at-IsPlaced Ordering.lt fuel path c s (branch c' s' l' r') r e same fits key way go_left
          go_right =
        let (p, runs, placed) = go_left e in
        (
          p,
          runs,
          subst (λ ss. IsPlaced h size n ss p) (left_order path c s (branch c' s' l' r') r) placed,
        )
    round_at-IsPlaced Ordering.gt fuel path c s l leaf e same fits key way go_left go_right = (
      _,
      refl,
      put_right h size n b path c s l same way.apart key way.holds way.ordered way.before e,
    )
    round_at-IsPlaced Ordering.gt fuel path c s l (branch c' s' l' r') e same fits key way go_left
          go_right =
        let (p, runs, placed) = go_right e in
        (
          p,
          runs,
          subst (λ ss. IsPlaced h size n ss p) (right_order path c s l (branch c' s' l' r')) placed,
        )
    round_at-IsPlaced Ordering.eq fuel path c s l r e same fits key way go_left go_right =
        let (some_size, (small, ((away, sep), (mine, within)))) = way.apart in
        (
          _,
          refl,
          replaced h size n b path c s l r same (some_size, (small, (sep, within))) fits way.ordered
              way.holds e,
        )

    descends :
        (fuel : ℕ) (path : Route) (t : Tree)
        → length b ≡ size
        → n.value < 2 ^ 64
        → HasKey h b n.offset n.key
        → IsOnWay path t
        → depth t ≤ fuel
        → Descends fuel path t
    descends fuel path leaf same fits key way deep = tt
    descends zero path (branch c s l r) same fits key way deep = absurd (omega arith)
    descends (suc fuel) path (branch c s l r) same fits key way deep =
        let (((node, mine), (left, right)), around) = way.holds in
        let to_left = left_order path c s l r in
        let to_right = right_order path c s l r in
        let N = λ (ss : List Spot). AreApart size (n ∷ ss) in
        let go_left = λ (e : cmp n.key s.key ≡ Ordering.lt).
          descends fuel (left_of c s r path) l same fits key
            (record {
              apart = subst N (sym to_left) way.apart;
              holds = (left, ((node, mine), (right, around)));
              ordered = subst (Ordered h) (sym to_left) way.ordered;
              front = way.front;
              before = e;
            })
            (omega arith) in
        let go_right = λ (e : cmp n.key s.key ≡ Ordering.gt).
          descends fuel (right_of c s l path) r same fits key
            (record {
              apart = subst N (sym to_right) way.apart;
              holds = (right, ((node, mine), (left, around)));
              ordered = subst (Ordered h) (sym to_right) way.ordered;
              front = above_all h size n path s l r c way.ordered e;
              before = way.before;
            })
            (omega arith) in
        let (p, runs, placed) =
          round_at-IsPlaced (cmp n.key s.key) fuel path c s l r refl same fits key way go_left
            go_right in
        (p, insert_impl-round fuel (above path) (link l) (link r) c s (node, mine) ∙ runs, placed)

  -- `InsertImpl` from the root of a search tree that fewer than 2^60 bytes hold, for a node that lies
  -- apart from the tree's, with its key behind it and its value's number below 2^64, and with as much
  -- fuel as the tree is deep: it ends, and once the object `root` of a new node is dumped, as the
  -- caller does, the bytes hold a search tree of the nodes that were there with the new one in its
  -- place, or with its value at a node of the same key, and the key is found in it with the new value.
  pub insert_impl-find :
      (fuel : ℕ) (b : List ℕ) (c : Bool) (s : Spot) (l r : Tree)
      → length b ≡ size
      → AreApart size (n ∷ spots (branch c s l r))
      → n.value < 2 ^ 64
      → HasKey h b n.offset n.key
      → Ordered h (spots (branch c s l r))
      → Holds h b 0 (branch c s l r)
      → depth (branch c s l r) ≤ fuel
      → (p : Placed) × (insert_impl h fuel b s.offset (object_at true n 0 0 0) n.key ≡ some p)
        × ((t : Tree) × Holds h (settled_bytes h size n p) 0 t
            × ((spots t ≡ insert_spot h n (spots (branch c s l r)))
                × (Ordered h (spots t) × (find cmp n.key t ≡ some n.value))))
  insert_impl-find fuel b c s l r same apart fits key ordered holds deep =
      let old = branch c s l r in
      let whole : spots old ++ [] ≡ spots old = append-nil (spots old) in
      let (p, runs, (t, held, (order, length_p))) =
        descends b fuel top old same fits key
          (record {
            apart = subst (λ ss. AreApart size (n ∷ ss)) (sym whole) apart;
            holds = (holds, tt);
            ordered = subst (Ordered h) (sym whole) ordered;
            front = tt;
            before = tt;
          })
          deep in
      let in_order = order ∙ ap (insert_spot h n) whole in
      let sorted = subst (Ordered h) (sym in_order) (insert_spot-Ordered h n (spots old) ordered) in
      (
        p,
        runs,
        (
          t,
          held,
          (
            in_order,
            (
              sorted,
              find-lookup h n.key t sorted
                  ∙ ap (lookup h n.key) in_order
                  ∙ lookup-insert_spot h n (spots old),
            ),
          ),
        ),
      )
