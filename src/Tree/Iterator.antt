-- ===== src/Tree/Iterator.antt =====
-- `GetAll` of containers/rbtree/rbtree.cpp without a prefix, and its `TIterator`. A read out of range,
-- or too little fuel, is `none`; the empty blob is the empty list.
pub mod After
pub mod Visit
pub mod Drain
use cxx_library.Prelude.{
  ℕ, zero, suc, ◌+◌, ◌-◌, Bool, true, false, ◌&&◌, ◌||◌, Option, none, some, List, [], ◌∷◌, ltb,
  ◌==◌, if◌then◌else◌, length,
}
use cxx_library.Prelude.Options.{◌>>=◌}
use cxx_library.Tree.Host.{Host}
use cxx_library.Tree.Node.{Node, load, key_at}
use cxx_library.Tree.Get.{found_value}

-- `TIterator`; `is_live` tells that `Ptr` is not null.
pub record Cursor : Type 0 where
  pub is_live : Bool
  pub root_offset : ℕ
  pub current_offset : ℕ

-- What a call of `Next` that returns true leaves.
pub record Item : Type 0 where
  pub key : List ℕ
  pub value : List ℕ
  pub cursor : Cursor

module _ (h : Host) (b : List ℕ) where
  -- `Descend` without a prefix, from the node at an offset
  unfoldable pub descend : ℕ → ℕ → Option ℕ
  descend zero at = none
  descend (suc fuel) at = load h b at >>= λ root. elim root.left [
    | suc next ↦ descend fuel next
    | zero ↦ elim root.right [ zero ↦ some at | suc next ↦ descend fuel next ]
  ]

  -- the constructor
  unfoldable pub iterate : ℕ → ℕ → Option Cursor
  unfolding descend
  iterate fuel at = descend fuel at >>= λ current.
      some (record { is_live = true; root_offset = at; current_offset = current })

  -- `GetAll()`
  unfoldable pub get_all : ℕ → ℕ → Option Cursor
  unfolding iterate
  get_all fuel root_offset =
      if length b == 0
      then some (record { is_live = false; root_offset = 0; current_offset = 0 })
      else iterate fuel root_offset

  -- the loop of `Next`, which without a prefix has one round: the place behind a node, of its parent
  unfoldable pub move_on : ℕ → ℕ → ℕ → Option ℕ
  unfolding descend
  move_on fuel current at = load h b at >>= λ root. elim root.right [
    | zero ↦ some at
    | suc next ↦ if suc current == root.left then descend fuel next else some at
  ]

  -- the end of `Next`, for a node's parent
  unfoldable pub leave : ℕ → Cursor → ℕ → Option Cursor
  unfolding move_on
  leave fuel c zero = some (record c { is_live = false })
  leave fuel c (suc at) =
      if c.root_offset == c.current_offset
      then some (record c { is_live = false })
      else (move_on fuel c.current_offset at >>= λ current.
          some (record c { current_offset = current }))

  -- `Next` of an iterator that is not at its end
  unfoldable pub next : ℕ → Cursor → Option Item
  unfolding leave
  next fuel c = do
    node ← load h b c.current_offset
    key ← key_at h b c.current_offset
    value ← found_value h b key node.value_offset
    c' ← leave fuel c node.parent
    some (record { key = key; value = value; cursor = c' })

  -- The calls of `Next` until it returns false, at most as many as a number.
  unfoldable pub drain : ℕ → ℕ → Cursor → Option (List (List ℕ × List ℕ))
  unfolding next
  drain fuel zero c = if c.is_live then none else some []
  drain fuel (suc n) c = elim c.is_live [
    | false ↦ some []
    | true ↦ next fuel c >>= λ i. drain fuel n i.cursor >>= λ items. some ((i.key, i.value) ∷ items)
  ]
