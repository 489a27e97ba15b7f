-- ===== src/Url/Unescape.antt =====
-- `URLUnescape` of http/urlescape.cpp writes, in place, what a decoder of lists gives.
use cxx_library.Prelude.{
  ℕ, zero, suc, ◌+◌, ◌-◌, ◌≤◌, ◌<◌, ◌≡◌, refl, sym, ap, ◌∙◌, ◌⊎◌, inl, inr, Bool, true, false,
  Option, none, some, List, [], ◌∷◌, ◌++◌, arith, ◌==◌, if◌then◌else◌, get_or, set, length,
  length-append, append_assoc, lt→ltb, set_past, get_or-past, Bool-cases,
}
use cxx_library.Prelude.Options.{◌>>=◌}
use cxx_library.Url.{hex_pair, to_char, unescape_round, unescape_loop, url_unescape}

-- What a text of percent escapes stands for.
unfoldable pub decode : List ℕ → Option (List ℕ)
decode [] = some []
decode (c ∷ []) = some ((if c == b'+' then b' ' else c) ∷ [])
decode (c ∷ a ∷ []) = do r ← decode (a ∷ []); some ((if c == b'+' then b' ' else c) ∷ r)
decode (c ∷ a ∷ b ∷ cs) = elim (c == b'%') [
  | true ↦ elim (hex_pair a b) [
    | none ↦ none
    | some true ↦ decode cs >>= λ r. some (to_char a b ∷ r)
    | some false ↦ decode (a ∷ b ∷ cs) >>= λ r. some (c ∷ r)
  ]
  | false ↦ decode (a ∷ b ∷ cs) >>= λ r. some ((if c == b'+' then b' ' else c) ∷ r)
]

module _ (c a b : ℕ) (cs : List ℕ) where
  pub decode_plain :
      (c == b'%') ≡ false
      → decode (c ∷ a ∷ b ∷ cs)
        ≡ (decode (a ∷ b ∷ cs) >>= λ r. some ((if c == b'+' then b' ' else c) ∷ r))
  unfolding decode
  decode_plain h = ground arith

  decode_fault : (c == b'%') ≡ true → hex_pair a b ≡ none → decode (c ∷ a ∷ b ∷ cs) ≡ none
  unfolding decode
  decode_fault h p = ground arith

  pub decode_hex :
      (c == b'%') ≡ true
      → hex_pair a b ≡ some true
      → decode (c ∷ a ∷ b ∷ cs) ≡ (decode cs >>= λ r. some (to_char a b ∷ r))
  unfolding decode
  decode_hex h p = ground arith

  decode_literal :
      (c == b'%') ≡ true
      → hex_pair a b ≡ some false
      → decode (c ∷ a ∷ b ∷ cs) ≡ (decode (a ∷ b ∷ cs) >>= λ r. some (c ∷ r))
  unfolding decode
  decode_literal h p = ground arith

-- What the loop leaves: a fault if the decoder has one; otherwise the decoded text after `out`,
-- then as much of the array as is not read again, then what lies beyond the array's size.
abbrev pub Writes : Option (List ℕ) → Option (ℕ × List ℕ) → List ℕ → List ℕ → ℕ → Type 0
Writes none result out tail n = result ≡ none
Writes (some r) result out tail n =
    (junk : List ℕ) × (result ≡ some (length out + length r, out ++ (r ++ (junk ++ tail))))
    × (length r + length junk ≡ n)

Writes-cons :
    (o : Option (List ℕ)) (result : Option (ℕ × List ℕ)) (v : ℕ) (out tail : List ℕ) (n m : ℕ)
    → n ≡ suc m
    → Writes o result (out ++ (v ∷ [])) tail m
    → Writes (o >>= λ r. some (v ∷ r)) result out tail n
Writes-cons none result v out tail n m p h = h
Writes-cons (some r) result v out tail n m p (junk, e, k) = (
  junk,
  e ∙ ap some (λ i. (count i, append_assoc out (v ∷ []) (r ++ (junk ++ tail)) i)),
  omega arith,
)
  where
    count : length (out ++ (v ∷ [])) + length r ≡ length out + suc (length r)
    count = omega (arith, length-append out (v ∷ []))

-- The window `mid` moves on by the char `c`.
shift : List ℕ → ℕ → List ℕ
shift [] c = []
shift (m ∷ ms) c = ms ++ (c ∷ [])

length-shift : (mid : List ℕ) (c : ℕ) → length (shift mid c) ≡ length mid
unfolding shift
length-shift [] c = refl
length-shift (m ∷ ms) c = omega (arith, length-append ms (c ∷ []))

set_first : (mid rest : List ℕ) (c v : ℕ) → set (mid ++ (c ∷ rest)) 0 v ≡ v ∷ (shift mid c ++ rest)
unfolding shift
set_first [] rest c v = refl
set_first (m ∷ ms) rest c v = ap (λ t. v ∷ t) (sym (append_assoc ms (c ∷ []) rest))

loop_step :
    (fuel size i i' offset v : ℕ) (chars : List ℕ)
    → i < size
    → unescape_round size chars i ≡ some (v, i')
    → unescape_loop (suc fuel) size i offset chars
      ≡ unescape_loop fuel size i' (offset + 1) (set chars offset v)
unfolding unescape_loop
loop_step fuel size i i' offset v chars lt e = rw (lt→ltb _ _ lt, e)

loop_fault :
    (fuel size i offset : ℕ) (chars : List ℕ)
    → i < size
    → unescape_round size chars i ≡ none
    → unescape_loop (suc fuel) size i offset chars ≡ none
unfolding unescape_loop
loop_fault fuel size i offset chars lt e = rw (lt→ltb _ _ lt, e)

-- A round at the chars `xs` does what the decoder does with their first.
round_short :
    (size : ℕ) (chars : List ℕ) (i c : ℕ)
    → get_or chars i 0 ≡ c
    → size ≤ i + 2
    → unescape_round size chars i ≡ some (if c == b'+' then b' ' else c, i + 1)
unfolding unescape_round
round_short size chars i c e h = rw e (ground arith)

round_plain :
    (size : ℕ) (chars : List ℕ) (i c : ℕ)
    → get_or chars i 0 ≡ c
    → (c == b'%') ≡ false
    → unescape_round size chars i ≡ some (if c == b'+' then b' ' else c, i + 1)
unfolding unescape_round
round_plain size chars i c e h = rw (e, h)

module _ (size : ℕ) (chars : List ℕ) (i c a b : ℕ) (e : get_or chars i 0 ≡ c)
    (ea : get_or chars (i + 1) 0 ≡ a) (eb : get_or chars (i + 2) 0 ≡ b) (h : (c == b'%') ≡ true)
    (room : i + 2 < size) where
  round_fault : hex_pair a b ≡ none → unescape_round size chars i ≡ none
  unfolding unescape_round
  round_fault p = rw (e, h, ea, eb, p) (ground arith)

  round_hex : hex_pair a b ≡ some true → unescape_round size chars i ≡ some (to_char a b, i + 3)
  unfolding unescape_round
  round_hex p = rw (e, h, ea, eb, p) (ground arith)

  round_literal : hex_pair a b ≡ some false → unescape_round size chars i ≡ some (c, i + 1)
  unfolding unescape_round
  round_literal p = rw (e, h, ea, eb, p) (ground arith)

-- The array is `out ++ mid ++ rest ++ tail`: written, free to be written, unread, out of reach.
abbrev Decodes : ℕ → Type 0
Decodes fuel =
    (out mid rest tail : List ℕ) (size i offset n : ℕ) (chars : List ℕ)
    → offset ≡ length out
    → i ≡ length out + length mid
    → size ≡ i + length rest
    → n ≡ length mid + length rest
    → chars ≡ out ++ (mid ++ (rest ++ tail))
    → length rest ≤ fuel
    → Writes (decode rest) (unescape_loop fuel size i offset chars) out tail n

char_at :
    (out mid xs chars : List ℕ) (i j k : ℕ)
    → i ≡ length out + length mid
    → chars ≡ out ++ (mid ++ xs)
    → j ≡ i + k
    → get_or chars j 0 ≡ get_or xs k 0
char_at out mid xs chars i j k ei ec ej =
    ap (λ t. get_or t j 0) ec
    ∙ get_or-past out (mid ++ xs) j (length mid + k) 0 (omega arith)
    ∙ get_or-past mid xs (length mid + k) k 0 refl

-- A round that consumes `c` and the chars `more`, and writes `v`.
advance :
    (fuel : ℕ) (ih : Decodes fuel) (out mid more rest tail : List ℕ) (c v size i i' offset n : ℕ)
    (chars : List ℕ)
    → offset ≡ length out
    → i ≡ length out + length mid
    → i' ≡ i + suc (length more)
    → size ≡ i' + length rest
    → n ≡ length mid + (suc (length more) + length rest)
    → chars ≡ out ++ (mid ++ (c ∷ (more ++ (rest ++ tail))))
    → length rest ≤ fuel
    → unescape_round size chars i ≡ some (v, i')
    → Writes
        (decode rest >>= λ r. some (v ∷ r))
        (unescape_loop (suc fuel) size i offset chars)
        out
        tail
        n
advance fuel ih out mid more rest tail c v size i i' offset n chars eo ei ei' es en ec hf er =
    rw (loop_step fuel size i i' offset v chars (omega arith) er) (
      Writes-cons (decode rest) _ v out tail n (n - 1) (omega arith) (
        ih (out ++ (v ∷ [])) (shift mid c ++ more) rest tail size i' (offset + 1) (n - 1)
          (set chars offset v) (omega (arith, length-append out (v ∷ [])))
          (omega (arith, length-append out (v ∷ []), len)) es (omega (arith, len)) moved hf))
  where
    len : length (shift mid c ++ more) ≡ length mid + length more
    len = omega (arith, length-append (shift mid c) more, length-shift mid c)

    moved : set chars offset v ≡ (out ++ (v ∷ [])) ++ ((shift mid c ++ more) ++ (rest ++ tail))
    moved = rw (ec, set_past out _ v offset eo, set_first) (simp append_assoc)

unescape_loop_done :
    (fuel size i offset : ℕ) (chars : List ℕ)
    → size ≡ i
    → unescape_loop fuel size i offset chars ≡ some (offset, chars)
unfolding unescape_loop
unescape_loop_done zero size i offset chars e = refl
unescape_loop_done (suc fuel) size i offset chars e = ground arith

hex_cases : (o : Option Bool) → (o ≡ none) ⊎ ((o ≡ some true) ⊎ (o ≡ some false))
hex_cases none = inl refl
hex_cases (some true) = inr (inl refl)
hex_cases (some false) = inr (inr refl)

-- The round at a percent sign with two chars behind it.
escape_Decodes :
    (fuel : ℕ)
    → Decodes fuel
    → (out mid : List ℕ) (c a b : ℕ) (cs tail : List ℕ) (size i offset n : ℕ) (chars : List ℕ)
    → offset ≡ length out
    → i ≡ length out + length mid
    → size ≡ i + length (c ∷ a ∷ b ∷ cs)
    → n ≡ length mid + length (c ∷ a ∷ b ∷ cs)
    → chars ≡ out ++ (mid ++ (c ∷ a ∷ b ∷ (cs ++ tail)))
    → length (a ∷ b ∷ cs) ≤ fuel
    → (c == b'%') ≡ true
    → Writes (decode (c ∷ a ∷ b ∷ cs)) (unescape_loop (suc fuel) size i offset chars) out tail n
escape_Decodes fuel ih out mid c a b cs tail size i offset n chars eo ei es en ec hf pc =
    elim (hex_cases (hex_pair a b)) [
      | inl p ↦ rw (decode_fault c a b cs pc p) (
          loop_fault fuel size i offset chars (omega arith)
            (round_fault size chars i c a b e0 e1 e2 pc (omega arith) p))
      | inr (inl p) ↦ rw (decode_hex c a b cs pc p) (
          advance fuel ih out mid (a ∷ b ∷ []) cs tail c (to_char a b) size i (i + 3) offset n chars
            eo ei (omega arith) (omega arith) (omega arith) ec (omega arith)
            (round_hex size chars i c a b e0 e1 e2 pc (omega arith) p))
      | inr (inr p) ↦ rw (decode_literal c a b cs pc p) (
          advance fuel ih out mid [] (a ∷ b ∷ cs) tail c c size i (i + 1) offset n chars eo ei
            (omega arith) (omega arith) (omega arith) ec hf
            (round_literal size chars i c a b e0 e1 e2 pc (omega arith) p))
    ]
  where
    e0 : get_or chars i 0 ≡ c
    e0 = char_at out mid _ chars i i 0 ei ec (omega arith)

    e1 : get_or chars (i + 1) 0 ≡ a
    e1 = char_at out mid _ chars i (i + 1) 1 ei ec refl

    e2 : get_or chars (i + 2) 0 ≡ b
    e2 = char_at out mid _ chars i (i + 2) 2 ei ec refl

unescape_loop-decode : (fuel : ℕ) → Decodes fuel
unfolding decode
unescape_loop-decode fuel out mid [] tail size i offset n chars eo ei es en ec hf = (
  mid,
  unescape_loop_done fuel size i offset chars (omega arith) ∙ ap some (λ k. (count k, ec k)),
  omega arith,
)
  where
    count : offset ≡ length out + 0
    count = omega arith
unescape_loop-decode zero out mid (c ∷ cs) tail size i offset n chars eo ei es en ec hf =
    absurd (omega arith)
unescape_loop-decode (suc fuel) out mid (c ∷ []) tail size i offset n chars eo ei es en ec hf =
    advance fuel (unescape_loop-decode fuel) out mid [] [] tail c _ size i (i + 1) offset n chars eo
      ei (omega arith) (omega arith) (omega arith) ec (omega arith)
      (round_short size chars i c (char_at out mid _ chars i i 0 ei ec (omega arith)) (omega arith))
unescape_loop-decode (suc fuel) out mid (c ∷ a ∷ []) tail size i offset n chars eo ei es en ec hf =
    advance fuel (unescape_loop-decode fuel) out mid [] (a ∷ []) tail c _ size i (i + 1) offset n
      chars eo ei (omega arith) (omega arith) (omega arith) ec (omega arith)
      (round_short size chars i c (char_at out mid _ chars i i 0 ei ec (omega arith)) (omega arith))
unescape_loop-decode (suc fuel) out mid (c ∷ a ∷ b ∷ cs) tail size i offset n chars eo ei es en ec
      hf =
    elim (Bool-cases (c == b'%')) [
      | inl p ↦
          escape_Decodes fuel (unescape_loop-decode fuel) out mid c a b cs tail size i offset n
            chars eo ei es en ec (omega arith) p
      | inr p ↦ rw (decode_plain c a b cs p) (
          advance fuel (unescape_loop-decode fuel) out mid [] (a ∷ b ∷ cs) tail c _ size i (i + 1)
            offset n chars eo ei (omega arith) (omega arith) (omega arith) ec (omega arith)
            (round_plain size chars i c (char_at out mid _ chars i i 0 ei ec (omega arith)) p))
    ]

-- On an array `chars ++ tail` whose first `length chars` elements are given to it, `URLUnescape`
-- writes the decoded text at the front, returns its length, which is at most the old one, and
-- leaves `tail` alone; it reads out of a table's range exactly when the decoder does.
pub url_unescape-decode :
    (chars tail : List ℕ)
    → Writes (decode chars) (url_unescape (length chars) (chars ++ tail)) [] tail (length chars)
unfolding url_unescape
url_unescape-decode chars tail =
    unescape_loop-decode (length chars) [] [] chars tail (length chars) 0 0 (length chars)
      (chars ++ tail) refl refl (omega arith) (omega arith) refl (omega arith)
