-- ===== src/Request/Line/Words.antt =====
-- The loops of `TRequest`'s constructor on words of the first line and on a path.
use cxx_library.Prelude.{
  ℕ, ◌+◌, ◌-◌, ◌<◌, ◌≡◌, refl, ap, ◌∙◌, Bool, true, false, ◌||◌, some, List, [], ◌∷◌, ◌++◌, ◌==◌,
  if◌then◌else◌, length, length-append, take, drop, drop-middle, take-front, All, arith,
}
use cxx_library.Prelude.Options.{◌>>=◌}
use cxx_library.Url.Query.{parse_query_params}
use cxx_library.Request.Line.{RequestLine, Field, is_end, assign, line_chars, path_chars}

abbrev pub IsWord : ℕ → Type 0
IsWord c = (c == b' ') ≡ false

abbrev pub IsPathChar : ℕ → Type 0
IsPathChar c = ((c == b' ') ≡ false) × ((c == b'?') ≡ false)

pub piece :
    (content pre w rest : List ℕ) (off n : ℕ)
    → content ≡ pre ++ (w ++ rest)
    → off ≡ length pre
    → n ≡ length w
    → take n (drop off content) ≡ w
piece content pre w rest off n e at_pre size =
    ap (λ t. take n (drop off t)) e
    ∙ ap (λ t. take n t) (drop-middle pre (w ++ rest) off at_pre)
    ∙ take-front w rest n size

some-is_end : (rest : List ℕ) → 0 < length rest → is_end rest ≡ false
some-is_end [] h = absurd (omega arith)
some-is_end (c ∷ rest) h = refl

module _ (to_lower : List ℕ → List ℕ) (content : List ℕ) where
  word-chars :
      (i : ℕ) (w rest : List ℕ) (off : ℕ) (f : Field) (fs : List Field) (r : RequestLine) (j : ℕ)
      → All IsWord w
      → 0 < length rest
      → j ≡ i + length w
      → line_chars to_lower content i (w ++ rest) off (f ∷ fs) r
        ≡ line_chars to_lower content j rest off (f ∷ fs) r
  unfolding line_chars
  word-chars i [] rest off f fs r j h some_rest e =
      let same : i ≡ j = omega arith in
      ap (λ n. line_chars to_lower content n rest off (f ∷ fs) r) same
  word-chars i (c ∷ w) rest off f fs r j h some_rest e =
      let some_more : 0 < length (w ++ rest) = omega (arith, length-append w rest) in
      let goes_on : c == b' ' || is_end (w ++ rest) ≡ false =
        ap (λ b. b || is_end (w ++ rest)) h.0 ∙ some-is_end (w ++ rest) some_more in
      ap
        (λ (b : Bool). elim b [
          | true ↦ line_chars to_lower content (i + 1) (w ++ rest) (i + 1) fs (
              assign to_lower f
                (take (i + (if is_end (w ++ rest) then 1 else 0) - off) (drop off content)) r)
          | false ↦ line_chars to_lower content (i + 1) (w ++ rest) off (f ∷ fs) r
        ])
        goes_on
      ∙ word-chars (i + 1) w rest off f fs r j h.1 some_rest (omega arith)

  -- a word and the space behind it
  pub word-space :
      (w rest pre : List ℕ) (off : ℕ) (f : Field) (fs : List Field) (r : RequestLine) (j : ℕ)
      → content ≡ pre ++ (w ++ (b' ' ∷ rest))
      → off ≡ length pre
      → All IsWord w
      → 0 < length rest
      → j ≡ off + length w + 1
      → line_chars to_lower content off (w ++ (b' ' ∷ rest)) off (f ∷ fs) r
        ≡ line_chars to_lower content j rest j fs (assign to_lower f w r)
  unfolding line_chars
  word-space w rest pre off f fs r j e at_pre h some_rest at_j =
      let i = off + length w in
      let no_end = some-is_end rest some_rest in
      let size : i + 0 - off ≡ length w = omega arith in
      let same : i + 1 ≡ j = omega arith in
      word-chars off w (b' ' ∷ rest) off f fs r i h (omega arith) refl
      ∙ ap
          (λ b.
            line_chars to_lower content (i + 1) rest (i + 1) fs
              (assign to_lower f (take (i + (if b then 1 else 0) - off) (drop off content)) r))
          no_end
      ∙ ap (λ t. line_chars to_lower content (i + 1) rest (i + 1) fs (assign to_lower f t r))
          (piece content pre w (b' ' ∷ rest) off _ e at_pre size)
      ∙ ap (λ n. line_chars to_lower content n rest n fs (assign to_lower f w r)) same

  -- the last word, whose last char ends the line
  pub word-last :
      (i c : ℕ) (w : List ℕ) (off n : ℕ) (f : Field) (r : RequestLine)
      → All IsWord (c ∷ w)
      → n ≡ i + length (c ∷ w) - off
      → line_chars to_lower content i (c ∷ w) off (f ∷ []) r
        ≡ assign to_lower f (take n (drop off content)) r
  unfolding line_chars
  word-last i c [] off n f r h size =
      let ends : c == b' ' || true ≡ true = ap (λ b. b || true) h.0 in
      let same : i + 1 - off ≡ n = omega arith in
      ap
        (λ (b : Bool). elim b [
          | true ↦ assign to_lower f (take (i + 1 - off) (drop off content)) r
          | false ↦ r
        ])
        ends
      ∙ ap (λ k. assign to_lower f (take k (drop off content)) r) same
  word-last i c (d ∷ w) off n f r h size =
      let goes_on : c == b' ' || false ≡ false = ap (λ b. b || false) h.0 in
      ap
        (λ (b : Bool). elim b [
          | true ↦
              line_chars to_lower content (i + 1) (d ∷ w) (i + 1) []
                (assign to_lower f (take (i + 0 - off) (drop off content)) r)
          | false ↦ line_chars to_lower content (i + 1) (d ∷ w) off (f ∷ []) r
        ])
        goes_on
      ∙ word-last (i + 1) d w off n f r h.1 (omega arith)

  -- the path up to its question mark
  pub path-mark :
      (i : ℕ) (path p rest : List ℕ) (size : ℕ) (q j : ℕ) (c : ℕ)
      → All IsPathChar p
      → j ≡ i + length p
      → path_chars to_lower path i (p ++ (b'?' ∷ c ∷ rest)) false q size
        ≡ (parse_query_params to_lower (drop (j + 1) path) >>= λ ps. some (j, ps))
  unfolding path_chars
  path-mark i path [] rest size q j c h e =
      let same : i ≡ j = omega arith in
      ap (λ n. parse_query_params to_lower (drop (n + 1) path) >>= λ ps. some (n, ps)) same
  path-mark i path (d ∷ p) rest size q j c h e =
      ap
        (λ (b : Bool). elim b [
          | true ↦ path_chars to_lower path (i + 1) (p ++ (b'?' ∷ c ∷ rest)) true (i + 1) i
          | false ↦ path_chars to_lower path (i + 1) (p ++ (b'?' ∷ c ∷ rest)) false q size
        ])
        h.0.1
      ∙ path-mark (i + 1) path p rest size q j c h.1 (omega arith)
