-- ===== src/Tree/Iterator/Drain.antt =====
-- An iterator of containers/rbtree drained: `Next` until it returns false.
use cxx_library.Prelude.{
  ℕ, zero, suc, ◌≤◌, ◌<◌, ◌≡◌, refl, sym, ap, subst, ◌∙◌, inl, inr, Bool, true, false, Option, none,
  some, List, [], ◌∷◌, append-nil, map, length, All, arith, ◌==◌, if_false, if◌then◌else◌,
}
use cxx_library.Prelude.Options.{◌>>=◌}
use cxx_library.Tree.Host.{Host}
use cxx_library.Tree.Node.{Node, load, key_at}
use cxx_library.Tree.Codec.{key_at-HasKey}
use cxx_library.Tree.Get.{depth, found_value}
use cxx_library.Tree.Shape.{
  Spot, Tree, leaf, branch, Route, top, link, above, spots, HasNode, Holds, HoldsAt,
}
use cxx_library.Tree.Frame.{Sep}
use cxx_library.Tree.Insert.Store.{plug}
use cxx_library.Tree.Iterator.{Cursor, Item, leave, next, drain, get_all, iterate}
use cxx_library.Tree.Iterator.After.{post_order, rest, descend-IsFirst}
use cxx_library.Tree.Iterator.Visit.{cursor_at, leave-IsAt}

module _ (h : Host) (b : List ℕ) (value : Spot → List ℕ) where
  -- The bytes have a value for the node.
  abbrev pub HasItem : Spot → Type 0
  HasItem s = found_value h b s.key s.value ≡ some (value s)

  abbrev pub item : Spot → List ℕ × List ℕ
  item s = (s.key, value s)

  next-node :
      (fuel p x y : ℕ) (c : Bool) (s : Spot) (k k' : Cursor)
      → k.current_offset ≡ s.offset
      → HasNode h b c s p x y
      → HasItem s
      → leave h b fuel k p ≡ some k'
      → next h b fuel k ≡ some (record { key = s.key; value = value s; cursor = k' })
  unfolding next
  next-node fuel p x y c s k k' here holds has left =
      ap
        (λ (o : Option Node). o >>= λ n. key_at h b k.current_offset >>= λ key.
          found_value h b key n.value_offset >>= λ v.
          leave h b fuel k n.parent >>= λ c'. some (record { key = key; value = v; cursor = c' }))
        (ap (load h b) here ∙ holds.0)
      ∙ ap
          (λ (o : Option (List ℕ)). o >>= λ key. found_value h b key s.value >>= λ v.
            leave h b fuel k p >>= λ c'. some (record { key = key; value = v; cursor = c' }))
          (ap (key_at h b) here ∙ key_at-HasKey h b s.offset s.key holds.1)
      ∙ ap
          (λ (o : Option (List ℕ)). o >>= λ v.
            leave h b fuel k p >>= λ c'. some (record { key = s.key; value = v; cursor = c' }))
          has
      ∙ ap
          (λ (o : Option Cursor).
            o >>= λ c'. some (record { key = s.key; value = value s; cursor = c' }))
          left

  drain-dead : (fuel n : ℕ) (k : Cursor) → k.is_live ≡ false → drain h b fuel n k ≡ some []
  unfolding drain
  drain-dead fuel zero k dead = ap (λ (x : Bool). if x then none else some []) dead
  drain-dead fuel (suc n) k dead =
      ap
        (λ (x : Bool). elim x [
          | false ↦ some []
          | true ↦ next h b fuel k >>= λ i.
              drain h b fuel n i.cursor >>= λ items. some ((i.key, i.value) ∷ items)
        ])
        dead

  drain-next :
      (fuel n root i : ℕ) (x : Item) (items : List (List ℕ × List ℕ))
      → next h b fuel (cursor_at root i) ≡ some x
      → drain h b fuel n x.cursor ≡ some items
      → drain h b fuel (suc n) (cursor_at root i) ≡ some ((x.key, x.value) ∷ items)
  unfolding drain
  drain-next fuel n root i x items nexts drains =
      ap
        (λ (o : Option Item).
          o >>= λ y. drain h b fuel n y.cursor >>= λ ys. some ((y.key, y.value) ∷ ys))
        nexts
      ∙ ap (λ (o : Option (List (List ℕ × List ℕ))). o >>= λ ys. some ((x.key, x.value) ∷ ys))
          drains

  drain-focus :
      (fuel n root : ℕ) (whole : Tree) (path : Route) (c : Bool) (s : Spot) (l r : Tree)
      → Sep (spots whole)
      → depth whole ≤ fuel
      → link whole ≡ suc root
      → HoldsAt h b path (branch c s l r)
      → plug path (branch c s l r) ≡ whole
      → All HasItem (s ∷ rest path)
      → length (s ∷ rest path) ≤ n
      → drain h b fuel n (cursor_at root s.offset) ≡ some (map item (s ∷ rest path))
  unfolding leave
  drain-focus fuel zero root whole path c s l r sep deep rooted holds part has enough =
      absurd (omega arith)
  drain-focus fuel (suc n) root whole path c s l r sep deep rooted holds part has enough =
      let k = cursor_at root s.offset in
      elim (leave-IsAt h b whole root fuel path c s l r sep deep rooted holds part) [
        | inl (at_top, all_done) ↦
            (let dead = record k { is_live = false } in
              drain-next fuel n root s.offset
                (record { key = s.key; value = value s; cursor = dead }) []
                (next-node fuel (above path) (link l) (link r) c s k dead refl holds.0.0 has.0
                  (ap (leave h b fuel k) at_top))
                (drain-dead fuel n dead refl)
              ∙ ap (λ ss. some (item s ∷ map item ss)) (sym all_done))
        | inr (j, left, there) ↦
            (let k' = cursor_at root j in
              drain-next fuel n root s.offset (record { key = s.key; value = value s; cursor = k' })
                (map item (rest path))
                (next-node fuel (above path) (link l) (link r) c s k k' refl holds.0.0 has.0 left)
                (ap (λ i. drain h b fuel n (cursor_at root i)) there.here
                  ∙ drain-focus fuel n root whole there.path there.color there.spot there.left
                      there.right sep deep rooted there.holds there.part
                      (subst (All HasItem) (sym there.order) has.1)
                      (omega (arith, enough, ap length there.order))
                  ∙ ap (λ ss. some (map item ss)) there.order))
      ]

  -- `GetAll` and then `Next` until it returns false, on bytes that hold a tree whose nodes lie apart and
  -- have values in the bytes: the iterator comes once by each node, those below a node before it, and
  -- gives its key and its value. As much fuel for each call as the tree is deep is enough, and a call
  -- per node.
  pub drain-post_order :
      (fuel n : ℕ) (c : Bool) (s : Spot) (l r : Tree)
      → Holds h b 0 (branch c s l r)
      → Sep (spots (branch c s l r))
      → 0 < length b
      → depth (branch c s l r) ≤ fuel
      → All HasItem (post_order (branch c s l r))
      → length (post_order (branch c s l r)) ≤ n
      → (k : Cursor) × (get_all h b fuel s.offset ≡ some k)
        × (drain h b fuel n k ≡ some (map item (post_order (branch c s l r))))
  unfolding get_all iterate
  drain-post_order fuel n c s l r holds sep some_bytes deep has enough =
      let whole = branch c s l r in
      let bytes : (length b == 0) ≡ false = ground arith in
      let (i, runs, (path, d, x, (at, (held, (order, part))))) =
        descend-IsFirst h b fuel top c s l r (holds, tt) deep in
      let in_order = order ∙ append-nil (post_order whole) in
      (
        cursor_at s.offset i,
        if_false _ _ bytes ∙ ap (λ (o : Option ℕ). o >>= λ j. some (cursor_at s.offset j)) runs,
        ap (λ j. drain h b fuel n (cursor_at s.offset j)) at
            ∙ drain-focus fuel n s.offset whole path d x leaf leaf sep deep refl held part
                (subst (All HasItem) (sym in_order) has) (omega (arith, enough, ap length in_order))
            ∙ ap (λ ss. some (map item ss)) in_order,
      )
