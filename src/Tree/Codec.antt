-- ===== src/Tree/Codec.antt =====
-- What `Load` and `Key` read behind a `Dump`, at the same place and apart from it.
use cxx_library.Prelude.{
  ℕ, ◌+◌, ◌-◌, ◌^◌, ◌≤◌, ◌<◌, ◌≡◌, refl, sym, ap, ◌∙◌, ◌⊎◌, inl, inr, Bool, true, false, Option,
  some, List, ◌++◌, append_assoc, if◌then◌else◌, length, length-append, take, drop,
  take-append-drop, length-take, arith, if_true, if_false,
}
use cxx_library.Prelude.Options.{◌>>=◌}
use cxx_library.HostOrder.{of_le_bytes, length-le_bytes, of_le_bytes-le_bytes}
use cxx_library.HashMap.Bytes.{
  read_bytes, read_bytes-at, overwrite, length-overwrite, take-overwrite_before,
  take-overwrite_slot, drop-overwrite,
}
use cxx_library.Tree.Host.{Host}
use cxx_library.Tree.Node.{
  Node, has_flag, set_flag, drop_flag, word, read_word, node_of, load, node_bytes, dump, key_at,
}

-- A node whose numbers the bytes can hold.
abbrev pub Fits : Node → Type 0
Fits n = (n.parent < 2 ^ 60) × (n.left < 2 ^ 64) × (n.right < 2 ^ 64) × (n.value_offset < 2 ^ 64)

-- `n` bytes at `j` and `m` bytes at `i` do not overlap.
abbrev pub Apart : ℕ → ℕ → ℕ → ℕ → Type 0
Apart j n i m = (j + n ≤ i) ⊎ (i + m ≤ j)

pub Apart-inside : (j n k l i m : ℕ) → Apart j n i m → j ≤ k → k + l ≤ j + n → Apart k l i m
Apart-inside j n k l i m (inl before) low high = inl (omega arith)
Apart-inside j n k l i m (inr behind) low high = inr (omega arith)

pub read_bytes-overwrite :
    (i j n : ℕ) (xs b : List ℕ)
    → Apart j n i (length xs)
    → read_bytes (overwrite i xs b) j n ≡ read_bytes b j n
unfolding read_bytes
read_bytes-overwrite i j n xs b (inl before) =
    rw (length-overwrite i xs b, take-overwrite_before n j i xs b before) refl
read_bytes-overwrite i j n xs b (inr behind) =
    rw (length-overwrite i xs b, drop-overwrite i j xs b behind) refl

has_flag-low : (p : ℕ) → p < 2 ^ 60 → has_flag p ≡ false
unfolding has_flag
has_flag-low p small = ground arith

has_flag-high : (p : ℕ) → p < 2 ^ 60 → has_flag (p + 2 ^ 60) ≡ true
unfolding has_flag
has_flag-high p small = ground arith

-- a parent below the flag and the color come back from the first word.
flag-round :
    (p l r v : ℕ) (red : Bool)
    → p < 2 ^ 60
    → node_of (if red then set_flag p else p) l r v
      ≡ record { parent = p; left = l; right = r; value_offset = v; is_red = red }
unfolding node_of set_flag drop_flag
flag-round p l r v false small = if_false _ _ (has_flag-low p small)
flag-round p l r v true small =
    let same : p + 2 ^ 60 - 2 ^ 60 ≡ p = omega arith in
    ap (λ w. node_of w l r v) (if_false p (p + 2 ^ 60) (has_flag-low p small))
    ∙ if_true _ _ (has_flag-high p small)
    ∙ ap (λ q. record { parent = q; left = l; right = r; value_offset = v; is_red = true }) same

set_flag-lt : (p : ℕ) → p < 2 ^ 60 → set_flag p < 2 ^ 64
unfolding set_flag
set_flag-lt p small = ground arith

module _ (h : Host) where
  open h use {hton, ntoh}

  pub length-word : (n : ℕ) → length (word h n) ≡ 8
  unfolding word
  length-word n = length-le_bytes 8 (hton n)

  pub length-node_bytes : (n : Node) → length (node_bytes h n) ≡ 32
  unfolding node_bytes
  length-node_bytes n =
      let p = if n.is_red then set_flag n.parent else n.parent in
      omega (
        arith,
        length-append (word h p) (word h n.left ++ (word h n.right ++ word h n.value_offset)),
        length-append (word h n.left) (word h n.right ++ word h n.value_offset),
        length-append (word h n.right) (word h n.value_offset),
        length-word p,
        length-word n.left,
        length-word n.right,
        length-word n.value_offset,
      )

  pub length-dump : (b : List ℕ) (i : ℕ) (n : Node) → length (dump h b i n) ≡ length b
  unfolding dump
  length-dump b i n = length-overwrite i (node_bytes h n) b

  read_word-word :
      (d pre suf : List ℕ) (n i : ℕ)
      → n < 2 ^ 64
      → d ≡ pre ++ (word h n ++ suf)
      → i ≡ length pre
      → read_word h d i ≡ some n
  unfolding read_word word
  read_word-word d pre suf n i small f g =
      let found : read_bytes d i 8 ≡ some (word h n) =
        read_bytes-at d pre (word h n) suf i 8 f g (sym (length-word n)) in
      rw (found, of_le_bytes-le_bytes (hton n) (h.hton-lt n small), h.ntoh-hton n small) refl

  load-four :
      (b : List ℕ) (i w l r v : ℕ)
      → read_word h b i ≡ some w
      → read_word h b (i + 8) ≡ some l
      → read_word h b (i + 16) ≡ some r
      → read_word h b (i + 24) ≡ some v
      → load h b i ≡ some (node_of w l r v)
  unfolding load
  load-four b i w l r v ew el er ev =
      ap
        (λ (o : Option ℕ). o >>= λ w'. read_word h b (i + 8) >>= λ l'.
          read_word h b (i + 16) >>= λ r'.
          read_word h b (i + 24) >>= λ v'. some (node_of w' l' r' v'))
        ew
      ∙ ap
          (λ (o : Option ℕ). o >>= λ l'. read_word h b (i + 16) >>= λ r'.
            read_word h b (i + 24) >>= λ v'. some (node_of w l' r' v'))
          el
      ∙ ap (λ (o : Option ℕ). o >>= λ r'. read_word h b (i + 24) >>= λ v'. some (node_of w l r' v'))
          er
      ∙ ap (λ (o : Option ℕ). o >>= λ v'. some (node_of w l r v')) ev

  load-same :
      (b c : List ℕ) (i : ℕ)
      → read_word h b i ≡ read_word h c i
      → read_word h b (i + 8) ≡ read_word h c (i + 8)
      → read_word h b (i + 16) ≡ read_word h c (i + 16)
      → read_word h b (i + 24) ≡ read_word h c (i + 24)
      → load h b i ≡ load h c i
  unfolding load
  load-same b c i ew el er ev =
      ap
        (λ (o : Option ℕ). o >>= λ w'. read_word h b (i + 8) >>= λ l'.
          read_word h b (i + 16) >>= λ r'.
          read_word h b (i + 24) >>= λ v'. some (node_of w' l' r' v'))
        ew
      ∙ ap
          (λ (o : Option ℕ). read_word h c i >>= λ w'. o >>= λ l'. read_word h b (i + 16) >>= λ r'.
            read_word h b (i + 24) >>= λ v'. some (node_of w' l' r' v'))
          el
      ∙ ap
          (λ (o : Option ℕ). read_word h c i >>= λ w'. read_word h c (i + 8) >>= λ l'.
            o >>= λ r'. read_word h b (i + 24) >>= λ v'. some (node_of w' l' r' v'))
          er
      ∙ ap
          (λ (o : Option ℕ). read_word h c i >>= λ w'. read_word h c (i + 8) >>= λ l'.
            read_word h c (i + 16) >>= λ r'. o >>= λ v'. some (node_of w' l' r' v'))
          ev

  -- what `Load` reads where the four words of a node stand
  load-words :
      (b pre suf : List ℕ) (i : ℕ) (w l r v : ℕ)
      → w < 2 ^ 64
      → l < 2 ^ 64
      → r < 2 ^ 64
      → v < 2 ^ 64
      → b ≡ pre ++ (word h w ++ (word h l ++ (word h r ++ (word h v ++ suf))))
      → i ≡ length pre
      → load h b i ≡ some (node_of w l r v)
  unfolding load
  load-words b pre suf i w l r v sw sl sr sv e at =
      let one = sym (append_assoc pre (word h w) (word h l ++ (word h r ++ (word h v ++ suf)))) in
      let pre1 = pre ++ word h w in
      let two = sym (append_assoc pre1 (word h l) (word h r ++ (word h v ++ suf))) in
      let pre2 = pre1 ++ word h l in
      let three = sym (append_assoc pre2 (word h r) (word h v ++ suf)) in
      let at1 : i + 8 ≡ length pre1 = omega (arith, length-append pre (word h w), length-word w) in
      let at2 : i + 16 ≡ length pre2 =
        omega (arith, length-append pre1 (word h l), length-word l) in
      let at3 : i + 24 ≡ length (pre2 ++ word h r) =
        omega (arith, length-append pre2 (word h r), length-word r) in
      load-four b i w l r v (read_word-word b pre _ w i sw e at)
        (read_word-word b pre1 _ l (i + 8) sl (e ∙ one) at1)
        (read_word-word b pre2 _ r (i + 16) sr (e ∙ one ∙ two) at2)
        (read_word-word b (pre2 ++ word h r) suf v (i + 24) sv (e ∙ one ∙ two ∙ three) at3)

  parent_word-lt : (p : ℕ) (red : Bool) → p < 2 ^ 60 → (if red then set_flag p else p) < 2 ^ 64
  parent_word-lt p true small = set_flag-lt p small
  parent_word-lt p false small = omega arith

  flatten :
      (n : Node) (suf : List ℕ)
      → node_bytes h n ++ suf
        ≡ word h (if n.is_red then set_flag n.parent else n.parent)
          ++ (word h n.left ++ (word h n.right ++ (word h n.value_offset ++ suf)))
  unfolding node_bytes
  flatten n suf = simp append_assoc

  pub load-dump :
      (b : List ℕ) (i : ℕ) (n : Node)
      → Fits n
      → i + 32 ≤ length b
      → load h (dump h b i n) i ≡ some n
  unfolding dump
  load-dump b i n fits room =
      let xs = node_bytes h n in
      let after = overwrite i xs b in
      let w = if n.is_red then set_flag n.parent else n.parent in
      let slot = take-overwrite_slot 32 i xs b (sym (length-node_bytes n)) room in
      let suf = drop 32 (drop i after) in
      let split : after ≡ take i after ++ (xs ++ suf) =
        sym (take-append-drop i after)
        ∙ ap (λ t. take i after ++ t)
            (sym (take-append-drop 32 (drop i after)) ∙ ap (λ t. t ++ suf) slot) in
      let at : i ≡ length (take i after) =
        omega (arith, length-take i after, length-overwrite i xs b) in
      load-words after (take i after) suf i w n.left n.right n.value_offset
        (parent_word-lt n.parent n.is_red fits.0) fits.1 fits.2 fits.3
        (split ∙ ap (λ t. take i after ++ t) (flatten n suf)) at
      ∙ ap some (flag-round n.parent n.left n.right n.value_offset n.is_red fits.0)

  read_bytes-dump :
      (b : List ℕ) (i j k : ℕ) (n : Node)
      → Apart j k i 32
      → read_bytes (dump h b i n) j k ≡ read_bytes b j k
  unfolding dump
  read_bytes-dump b i j k n apart = read_bytes-overwrite i j k (node_bytes h n) b (elim apart [
    | inl before ↦ inl before
    | inr behind ↦ inr (omega (arith, behind, length-node_bytes n))
  ])

  read_word-dump :
      (b : List ℕ) (i j : ℕ) (n : Node)
      → Apart j 8 i 32
      → read_word h (dump h b i n) j ≡ read_word h b j
  unfolding read_word
  read_word-dump b i j n apart =
      ap (λ o. o >>= λ xs. some (ntoh (of_le_bytes xs))) (read_bytes-dump b i j 8 n apart)

  -- a node that the dump does not overlap
  pub load-dump-Apart :
      (b : List ℕ) (i j : ℕ) (n : Node) (m : Node)
      → Apart j 32 i 32
      → load h b j ≡ some m
      → load h (dump h b i n) j ≡ some m
  load-dump-Apart b i j n m apart e =
      let read = λ (k : ℕ) (low : j ≤ k) (high : k + 8 ≤ j + 32).
        read_word-dump b i k n (Apart-inside j 32 k 8 i 32 apart low high) in
      load-same (dump h b i n) b j (read j (omega arith) (omega arith))
        (read (j + 8) (omega arith) (omega arith)) (read (j + 16) (omega arith) (omega arith))
        (read (j + 24) (omega arith) (omega arith))
      ∙ e

  -- The key behind a node: its size and its bytes.
  abbrev pub HasKey : List ℕ → ℕ → List ℕ → Type 0
  HasKey b j key =
      (read_word h b (j + 32) ≡ some (length key))
      × (read_bytes b (j + 32 + 8) (length key) ≡ some key)

  pub key_at-HasKey : (b : List ℕ) (j : ℕ) (key : List ℕ) → HasKey b j key → key_at h b j ≡ some key
  unfolding key_at
  key_at-HasKey b j key e = ap (λ (o : Option ℕ). o >>= λ n. read_bytes b (j + 32 + 8) n) e.0 ∙ e.1

  pub dump-HasKey :
      (b : List ℕ) (i j : ℕ) (n : Node) (key : List ℕ)
      → Apart (j + 32) (8 + length key) i 32
      → HasKey b j key
      → HasKey (dump h b i n) j key
  dump-HasKey b i j n key apart e =
      let all = 8 + length key in
      (
        read_word-dump b i (j + 32) n
              (Apart-inside (j + 32) all (j + 32) 8 i 32 apart (omega arith) (omega arith))
            ∙ e.0,
        read_bytes-dump b i (j + 32 + 8) (length key) n (
              Apart-inside (j + 32) all (j + 32 + 8) (length key) i 32 apart (omega arith)
                (omega arith))
            ∙ e.1,
      )
