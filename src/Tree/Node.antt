-- ===== src/Tree/Node.antt =====
-- `TRBTreeNode` of containers/rbtree/rbtree.cpp. A node's object is its `Data`, with the color out of
-- the flag bit; the address it was loaded from stands beside it. A read out of range is `none`.
use cxx_library.Prelude.{
  ℕ, ◌+◌, ◌-◌, ◌/◌, ◌%◌, ◌^◌, Bool, true, false, Option, some, List, ◌++◌, ◌==◌, if◌then◌else◌,
}
use cxx_library.Prelude.Options.{◌>>=◌}
use cxx_library.HostOrder.{le_bytes, of_le_bytes}
use cxx_library.HashMap.Bytes.{read_bytes, overwrite}
use cxx_library.Tree.Host.{Host}

pub record Node : Type 0 where
  pub parent : ℕ
  pub left : ℕ
  pub right : ℕ
  pub value_offset : ℕ
  pub is_red : Bool

-- a node's object before anything is stored in it
abbrev pub new_node : Node
new_node = record { parent = 0; left = 0; right = 0; value_offset = 0; is_red = true }

-- `Data[0] & Flag`, for the flag 2^60
unfoldable pub has_flag : ℕ → Bool
has_flag w = w / 2 ^ 60 % 2 == 1

-- `Data[0] |= Flag` and `Data[0] ^= Flag`, the latter of a word that has the flag
unfoldable pub set_flag : ℕ → ℕ
unfolding has_flag
set_flag w = if has_flag w then w else w + 2 ^ 60

unfoldable pub drop_flag : ℕ → ℕ
drop_flag w = w - 2 ^ 60

-- the object that `Load` makes of four words
unfoldable pub node_of : ℕ → ℕ → ℕ → ℕ → Node
unfolding has_flag drop_flag
node_of w l r v =
    if has_flag w
    then record { parent = drop_flag w; left = l; right = r; value_offset = v; is_red = true }
    else record { parent = w; left = l; right = r; value_offset = v; is_red = false }

module _ (h : Host) where
  open h use {hton, ntoh}

  -- an integer as `hton` and `memcpy` leave it
  unfoldable pub word : ℕ → List ℕ
  word n = le_bytes 8 (hton n)

  -- `memcpy` from an address and `ntoh`
  unfoldable pub read_word : List ℕ → ℕ → Option ℕ
  read_word b i = read_bytes b i 8 >>= λ xs. some (ntoh (of_le_bytes xs))

  -- `Load`
  unfoldable pub load : List ℕ → ℕ → Option Node
  unfolding read_word node_of
  load b i = do
    w ← read_word b i
    l ← read_word b (i + 8)
    r ← read_word b (i + 16)
    v ← read_word b (i + 24)
    some (node_of w l r v)

  -- the words that `Dump` copies
  unfoldable pub node_bytes : Node → List ℕ
  unfolding word set_flag
  node_bytes n =
      word (if n.is_red then set_flag n.parent else n.parent)
      ++ (word n.left ++ (word n.right ++ word n.value_offset))

  -- `Dump`
  unfoldable pub dump : List ℕ → ℕ → Node → List ℕ
  unfolding node_bytes
  dump b i n = overwrite i (node_bytes n) b

  -- `Key`
  unfoldable pub key_at : List ℕ → ℕ → Option (List ℕ)
  unfolding read_word
  key_at b i = read_word b (i + 32) >>= λ n. read_bytes b (i + 32 + 8) n

  -- the value behind its size, as `Get` reads it
  unfoldable pub value_at : List ℕ → ℕ → Option (List ℕ)
  unfolding read_word
  value_at b i = read_word b i >>= λ n. read_bytes b (i + 8) n
