-- ===== src/Tree/Get.antt =====
-- `TRBTreeBase::Get` of containers/rbtree/rbtree.cpp. A read out of range, or too little fuel, is
-- `none`; the empty blob is the empty list.
use cxx_library.Prelude.{
  ℕ, zero, suc, ◌≤◌, ◌<◌, ◌≡◌, refl, ap, ◌∙◌, Bool, true, false, Option, none, some, List, [], ◌==◌,
  length, Ordering, arith, max,
}
use cxx_library.Prelude.Options.{◌>>=◌}
use cxx_library.Tree.Host.{Host}
use cxx_library.Tree.Node.{Node, load, key_at, value_at}
use cxx_library.Tree.Codec.{key_at-HasKey}
use cxx_library.Tree.Shape.{Spot, Tree, leaf, branch, link, HasNode, Holds}

-- `if (link > 0)`, then on to the node at `link - 1`, otherwise nothing found
unfoldable pub follow : ℕ → (ℕ → Option (List ℕ)) → Option (List ℕ)
follow zero next = some []
follow (suc at) next = next at

module _ (h : Host) (b : List ℕ) (key : List ℕ) where
  open h use {cmp}

  -- the value of a node that is found
  unfoldable pub found_value : ℕ → Option (List ℕ)
  found_value zero = some []
  found_value (suc v) = value_at h b v

  -- the loop, with the offset that `root` is loaded from
  unfoldable pub get_loop : ℕ → ℕ → Option (List ℕ)
  unfolding found_value follow
  get_loop zero at = none
  get_loop (suc fuel) at = do
    root ← load h b at
    k ← key_at h b at
    elim (cmp key k) [
      | Ordering.lt ↦ follow root.left (get_loop fuel)
      | Ordering.gt ↦ follow root.right (get_loop fuel)
      | Ordering.eq ↦ found_value root.value_offset
    ]

  -- `Get`, with fuel
  unfoldable pub get : ℕ → ℕ → Option (List ℕ)
  unfolding get_loop
  get fuel root_offset = elim (length b == 0) [ true ↦ some [] | false ↦ get_loop fuel root_offset ]

-- The value offset of a key in a search tree.
abbrev pub find : (List ℕ → List ℕ → Ordering) → List ℕ → Tree → Option ℕ
find cmp key leaf = none
find cmp key (branch c s l r) = elim (cmp key s.key) [
  | Ordering.lt ↦ find cmp key l
  | Ordering.gt ↦ find cmp key r
  | Ordering.eq ↦ some s.value
]

abbrev pub depth : Tree → ℕ
depth leaf = 0
depth (branch c s l r) = suc (max (depth l) (depth r))

module _ (h : Host) (b : List ℕ) (key : List ℕ) where
  open h use {cmp}

  -- What `Get` returns for a value offset.
  abbrev pub value_of : Option ℕ → Option (List ℕ)
  value_of none = some []
  value_of (some v) = found_value h b key v

  -- one round, at a node of the tree
  get_loop-node :
      (fuel p n m : ℕ) (c : Bool) (s : Spot)
      → HasNode h b c s p n m
      → get_loop h b key (suc fuel) s.offset ≡ elim (cmp key s.key) [
        | Ordering.lt ↦ follow n (get_loop h b key fuel)
        | Ordering.gt ↦ follow m (get_loop h b key fuel)
        | Ordering.eq ↦ found_value h b key s.value
      ]
  unfolding get_loop
  get_loop-node fuel p n m c s holds =
      ap
        (λ (o : Option Node). o >>= λ root. key_at h b s.offset >>= λ k. elim (cmp key k) [
          | Ordering.lt ↦ follow root.left (get_loop h b key fuel)
          | Ordering.gt ↦ follow root.right (get_loop h b key fuel)
          | Ordering.eq ↦ found_value h b key root.value_offset
        ])
        holds.0
      ∙ ap
          (λ (o : Option (List ℕ)). o >>= λ k. elim (cmp key k) [
            | Ordering.lt ↦ follow n (get_loop h b key fuel)
            | Ordering.gt ↦ follow m (get_loop h b key fuel)
            | Ordering.eq ↦ found_value h b key s.value
          ])
          (key_at-HasKey h b s.offset s.key holds.1)

  go_on :
      (o : Ordering) (l r : Tree) (v : ℕ) {x y : Option (List ℕ)}
      → x ≡ value_of (find cmp key l)
      → y ≡ value_of (find cmp key r)
      → elim o [ Ordering.lt ↦ x | Ordering.gt ↦ y | Ordering.eq ↦ found_value h b key v ]
        ≡ value_of (elim o [
          | Ordering.lt ↦ find cmp key l
          | Ordering.gt ↦ find cmp key r
          | Ordering.eq ↦ some v
        ])
  go_on Ordering.lt l r v e f = e
  go_on Ordering.gt l r v e f = f
  go_on Ordering.eq l r v e f = refl

  -- the loop from below a node, where there may be no tree
  follow-find :
      (fuel p : ℕ) (t : Tree)
      → Holds h b p t
      → depth t ≤ fuel
      → follow (link t) (get_loop h b key fuel) ≡ value_of (find cmp key t)
  unfolding follow
  follow-find fuel p leaf holds deep = refl
  follow-find zero p (branch c s l r) holds deep = absurd (omega arith)
  follow-find (suc fuel) p (branch c s l r) holds deep =
      let down_left = follow-find fuel (suc s.offset) l holds.1.0 (omega arith) in
      let down_right = follow-find fuel (suc s.offset) r holds.1.1 (omega arith) in
      get_loop-node fuel p (link l) (link r) c s holds.0
      ∙ go_on (cmp key s.key) l r s.value down_left down_right

  -- `Get` on bytes that hold a tree gives the value that the tree has for the key, read from its
  -- offset; the empty blob for a key that is not in the tree or has no value. As much fuel as the
  -- tree is deep is enough.
  pub get-find :
      (fuel : ℕ) (c : Bool) (s : Spot) (l r : Tree)
      → Holds h b 0 (branch c s l r)
      → 0 < length b
      → depth (branch c s l r) ≤ fuel
      → get h b key fuel s.offset ≡ value_of (find cmp key (branch c s l r))
  unfolding get follow
  get-find fuel c s l r holds some_bytes deep =
      let bytes : (length b == 0) ≡ false = ground arith in
      ap (λ (e : Bool). elim e [ true ↦ some [] | false ↦ get_loop h b key fuel s.offset ]) bytes
      ∙ follow-find fuel 0 (branch c s l r) holds deep
