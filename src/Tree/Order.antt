-- ===== src/Tree/Order.antt =====
-- The nodes of a search tree as a list in the order of their keys: a node put into it, and a key
-- looked up.
use cxx_library.Prelude.{
  ℕ, ◌≡◌, ◌≢◌, refl, sym, ap, ◌∙◌, Option, some, none, List, [], ◌∷◌, ◌++◌, All, Ordering,
}
use cxx_library.Tree.Host.{Host}
use cxx_library.Tree.Shape.{Spot, Tree, leaf, branch, spots}
use cxx_library.Tree.Frame.{All-left, All-right}
use cxx_library.Tree.Get.{find}

pub gt_not_lt : Ordering.gt ≢ Ordering.lt
gt_not_lt q = cc

pub eq_not_lt : Ordering.eq ≢ Ordering.lt
eq_not_lt q = cc

module _ (h : Host) where
  open h use {cmp}

  abbrev pub IsBelow : List ℕ → Spot → Type 0
  IsBelow key s = cmp key s.key ≡ Ordering.lt

  abbrev pub IsAbove : List ℕ → Spot → Type 0
  IsAbove key s = cmp key s.key ≡ Ordering.gt

  -- The keys grow.
  abbrev pub Ordered : List Spot → Type 0
  Ordered [] = Unit
  Ordered (s ∷ ss) = All (IsBelow s.key) ss × Ordered ss

  -- A node put in its place; one with its key gets its value.
  abbrev pub insert_spot : Spot → List Spot → List Spot
  insert_spot n [] = n ∷ []
  insert_spot n (s ∷ ss) = elim (cmp n.key s.key) [
    | Ordering.lt ↦ n ∷ (s ∷ ss)
    | Ordering.eq ↦ record s { value = n.value } ∷ ss
    | Ordering.gt ↦ s ∷ insert_spot n ss
  ]

  abbrev pub lookup : List ℕ → List Spot → Option ℕ
  lookup key [] = none
  lookup key (s ∷ ss) = elim (cmp key s.key) [
    | Ordering.lt ↦ none
    | Ordering.eq ↦ some s.value
    | Ordering.gt ↦ lookup key ss
  ]

  pub insert_past :
      (n : Spot) (f ss : List Spot)
      → All (IsAbove n.key) f
      → insert_spot n (f ++ ss) ≡ f ++ insert_spot n ss
  insert_past n [] ss above = refl
  insert_past n (s ∷ f) ss above =
      ap
        (λ (o : Ordering). elim o [
          | Ordering.lt ↦ n ∷ (s ∷ (f ++ ss))
          | Ordering.eq ↦ record s { value = n.value } ∷ (f ++ ss)
          | Ordering.gt ↦ s ∷ insert_spot n (f ++ ss)
        ])
        above.0
      ∙ ap (λ t. s ∷ t) (insert_past n f ss above.1)

  pub insert_front :
      (n s : Spot) (ss : List Spot) → IsBelow n.key s → insert_spot n (s ∷ ss) ≡ n ∷ (s ∷ ss)
  insert_front n s ss below =
      ap
        (λ (o : Ordering). elim o [
          | Ordering.lt ↦ n ∷ (s ∷ ss)
          | Ordering.eq ↦ record s { value = n.value } ∷ ss
          | Ordering.gt ↦ s ∷ insert_spot n ss
        ])
        below

  pub insert_same :
      (n s : Spot) (ss : List Spot)
      → cmp n.key s.key ≡ Ordering.eq
      → insert_spot n (s ∷ ss) ≡ record s { value = n.value } ∷ ss
  insert_same n s ss same =
      ap
        (λ (o : Ordering). elim o [
          | Ordering.lt ↦ n ∷ (s ∷ ss)
          | Ordering.eq ↦ record s { value = n.value } ∷ ss
          | Ordering.gt ↦ s ∷ insert_spot n ss
        ])
        same

  -- A key that is not below a node is above all in front of the node.
  pub IsAbove-front :
      (key : List ℕ) (f : List Spot) (s : Spot) (ss : List Spot)
      → Ordered (f ++ (s ∷ ss))
      → cmp key s.key ≢ Ordering.lt
      → All (IsAbove key) f
  IsAbove-front key [] s ss ordered not_below = tt
  IsAbove-front key (t ∷ f) s ss ordered not_below = (
    h.cmp-above key t.key s.key (All-right (IsBelow t.key) f (s ∷ ss) ordered.0).0 not_below,
    IsAbove-front key f s ss ordered.1 not_below,
  )

  IsBelow-All :
      (n s : Spot) (ss : List Spot)
      → IsBelow n.key s
      → All (IsBelow s.key) ss
      → All (IsBelow n.key) ss
  IsBelow-All n s [] below h' = tt
  IsBelow-All n s (t ∷ ss) below h' =
      (h.cmp-trans n.key s.key t.key below h'.0, IsBelow-All n s ss below h'.1)

  put-All :
      (P : Spot → Type 0) (n t : Spot) (ss : List Spot) (o : Ordering)
      → P n
      → P (record t { value = n.value })
      → All P (t ∷ ss)
      → All P (insert_spot n ss)
      → All P (elim o [
        | Ordering.lt ↦ n ∷ (t ∷ ss)
        | Ordering.eq ↦ record t { value = n.value } ∷ ss
        | Ordering.gt ↦ t ∷ insert_spot n ss
      ])
  put-All P n t ss Ordering.lt mine same all rest = (mine, all)
  put-All P n t ss Ordering.eq mine same all rest = (same, all.1)
  put-All P n t ss Ordering.gt mine same all rest = (all.0, rest)

  IsBelow-insert :
      (s n : Spot) (ss : List Spot)
      → IsBelow s.key n
      → All (IsBelow s.key) ss
      → All (IsBelow s.key) (insert_spot n ss)
  IsBelow-insert s n [] below all = (below, tt)
  IsBelow-insert s n (t ∷ ss) below all =
      put-All (IsBelow s.key) n t ss (cmp n.key t.key) below all.0 all
        (IsBelow-insert s n ss below all.1)

  put-Ordered :
      (n t : Spot) (ss : List Spot) (o : Ordering)
      → cmp n.key t.key ≡ o
      → Ordered (t ∷ ss)
      → Ordered (insert_spot n ss)
      → Ordered (elim o [
        | Ordering.lt ↦ n ∷ (t ∷ ss)
        | Ordering.eq ↦ record t { value = n.value } ∷ ss
        | Ordering.gt ↦ t ∷ insert_spot n ss
      ])
  put-Ordered n t ss Ordering.lt e ordered rest = ((e, IsBelow-All n t ss e ordered.0), ordered)
  put-Ordered n t ss Ordering.eq e ordered rest = ordered
  put-Ordered n t ss Ordering.gt e ordered rest =
      (IsBelow-insert t n ss (h.cmp-flip n.key t.key e) ordered.0, rest)

  -- The order stays.
  pub insert_spot-Ordered : (n : Spot) (ss : List Spot) → Ordered ss → Ordered (insert_spot n ss)
  insert_spot-Ordered n [] ordered = (tt, tt)
  insert_spot-Ordered n (t ∷ ss) ordered =
      put-Ordered n t ss (cmp n.key t.key) refl ordered (insert_spot-Ordered n ss ordered.1)

  lookup_past :
      (key : List ℕ) (f ss : List Spot) → All (IsAbove key) f → lookup key (f ++ ss) ≡ lookup key ss
  lookup_past key [] ss above = refl
  lookup_past key (s ∷ f) ss above =
      ap
        (λ (o : Ordering). elim o [
          | Ordering.lt ↦ none
          | Ordering.eq ↦ some s.value
          | Ordering.gt ↦ lookup key (f ++ ss)
        ])
        above.0
      ∙ lookup_past key f ss above.1

  -- A key below a node is not looked up behind it.
  lookup_before :
      (key : List ℕ) (f : List Spot) (s : Spot) (ss : List Spot)
      → IsBelow key s
      → lookup key (f ++ (s ∷ ss)) ≡ lookup key f
  lookup_before key [] s ss below =
      ap
        (λ (o : Ordering). elim o [
          | Ordering.lt ↦ none
          | Ordering.eq ↦ some s.value
          | Ordering.gt ↦ lookup key ss
        ])
        below
  lookup_before key (t ∷ f) s ss below =
      ap
        (λ r. elim (cmp key t.key) [
          | Ordering.lt ↦ none
          | Ordering.eq ↦ some t.value
          | Ordering.gt ↦ r
        ])
        (lookup_before key f s ss below)

  Ordered-left : (f ss : List Spot) → Ordered (f ++ ss) → Ordered f
  Ordered-left [] ss ordered = tt
  Ordered-left (s ∷ f) ss ordered =
      (All-left (IsBelow s.key) f ss ordered.0, Ordered-left f ss ordered.1)

  Ordered-right : (f ss : List Spot) → Ordered (f ++ ss) → Ordered ss
  Ordered-right [] ss ordered = ordered
  Ordered-right (s ∷ f) ss ordered = Ordered-right f ss ordered.1

  find_step :
      (key : List ℕ) (c : Ordering) (l r : List Spot) (s : Spot) {x y : Option ℕ}
      → cmp key s.key ≡ c
      → Ordered (l ++ (s ∷ r))
      → x ≡ lookup key l
      → y ≡ lookup key r
      → elim c [ Ordering.lt ↦ x | Ordering.gt ↦ y | Ordering.eq ↦ some s.value ]
        ≡ lookup key (l ++ (s ∷ r))
  find_step key Ordering.lt l r s e ordered in_left in_right =
      in_left ∙ sym (lookup_before key l s r e)
  find_step key Ordering.gt l r s e ordered in_left in_right =
      in_right
      ∙ sym (
          lookup_past key l (s ∷ r) (IsAbove-front key l s r ordered (λ q. gt_not_lt (sym e ∙ q)))
          ∙ ap
              (λ (o : Ordering). elim o [
                | Ordering.lt ↦ none
                | Ordering.eq ↦ some s.value
                | Ordering.gt ↦ lookup key r
              ])
              e)
  find_step key Ordering.eq l r s e ordered in_left in_right = sym (
      lookup_past key l (s ∷ r) (IsAbove-front key l s r ordered (λ q. eq_not_lt (sym e ∙ q)))
      ∙ ap
          (λ (o : Ordering). elim o [
            | Ordering.lt ↦ none
            | Ordering.eq ↦ some s.value
            | Ordering.gt ↦ lookup key r
          ])
          e)

  -- In a search tree a key is found where it stands in the order.
  pub find-lookup :
      (key : List ℕ) (t : Tree) → Ordered (spots t) → find cmp key t ≡ lookup key (spots t)
  find-lookup key leaf ordered = refl
  find-lookup key (branch c s l r) ordered =
      find_step key (cmp key s.key) (spots l) (spots r) s refl ordered
        (find-lookup key l (Ordered-left (spots l) (s ∷ spots r) ordered))
        (find-lookup key r (Ordered-right (spots l) (s ∷ spots r) ordered).1)

  put_same :
      (n s : Spot) (ss : List Spot) (o : Ordering)
      → cmp n.key s.key ≡ o
      → lookup n.key (insert_spot n ss) ≡ some n.value
      → lookup n.key (elim o [
        | Ordering.lt ↦ n ∷ (s ∷ ss)
        | Ordering.eq ↦ record s { value = n.value } ∷ ss
        | Ordering.gt ↦ s ∷ insert_spot n ss
      ])
        ≡ some n.value
  put_same n s ss Ordering.lt e rest =
      ap
        (λ (o : Ordering). elim o [
          | Ordering.lt ↦ none
          | Ordering.eq ↦ some n.value
          | Ordering.gt ↦ lookup n.key (s ∷ ss)
        ])
        (h.cmp-self n.key)
  put_same n s ss Ordering.eq e rest =
      ap
        (λ (o : Ordering). elim o [
          | Ordering.lt ↦ none
          | Ordering.eq ↦ some n.value
          | Ordering.gt ↦ lookup n.key ss
        ])
        e
  put_same n s ss Ordering.gt e rest =
      ap
        (λ (o : Ordering). elim o [
          | Ordering.lt ↦ none
          | Ordering.eq ↦ some s.value
          | Ordering.gt ↦ lookup n.key (insert_spot n ss)
        ])
        e
      ∙ rest

  -- What is put in is looked up.
  pub lookup-insert_spot :
      (n : Spot) (ss : List Spot) → lookup n.key (insert_spot n ss) ≡ some n.value
  lookup-insert_spot n [] =
      ap
        (λ (o : Ordering). elim o [
          | Ordering.lt ↦ none
          | Ordering.eq ↦ some n.value
          | Ordering.gt ↦ none
        ])
        (h.cmp-self n.key)
  lookup-insert_spot n (s ∷ ss) = put_same n s ss (cmp n.key s.key) refl (lookup-insert_spot n ss)
