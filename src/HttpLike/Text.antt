-- ===== src/HttpLike/Text.antt =====
-- The lines of a message, for httplike/parser/parser.cpp: how the loop over the data cuts them, and
-- how the part behind the headers cuts the request again.
use cxx_library.Prelude.{
  ℕ, zero, suc, ◌+◌, ◌≡◌, refl, sym, ap, ◌∙◌, Bool, false, List, [], ◌∷◌, ◌++◌, arith, ltb, ◌==◌,
  if◌then◌else◌, length, append_assoc, append-nil, All, if_true, if_false, Bool-cases, inl, inr,
}
use cxx_library.Blob.{BlobOps}
use cxx_library.HttpLike.Kit.{Kit}
use cxx_library.HttpLike.State.{Headers, ok, ◌>>=◌, State}
use cxx_library.HttpLike.Line.{
  is_blank, split_lines, last_line, read_header, read_headers, parse_line,
}
use cxx_library.HttpLike.Feed.{scan}

abbrev pub NoBreak : List ℕ → Type 0
NoBreak = All (λ c. (c == 10) ≡ false)

-- text that is a line of its own
abbrev pub IsText : List ℕ → Type 0
IsText w = NoBreak w × (is_blank (length w) w ≡ false)

abbrev pub join : List (List ℕ) → List ℕ
join [] = []
join (w ∷ ws) = w ++ (10 ∷ join ws)

pub split_lines-text :
    (cur w rest : List ℕ) → NoBreak w → split_lines cur (w ++ rest) ≡ split_lines (cur ++ w) rest
unfolding split_lines
split_lines-text cur [] rest h = ap (λ t. split_lines t rest) (sym (append-nil cur))
split_lines-text cur (c ∷ w) rest h =
    if_false _ _ h.0
    ∙ split_lines-text (cur ++ (c ∷ [])) w rest h.1
    ∙ ap (λ t. split_lines t rest) (append_assoc cur (c ∷ []) w)

-- The request is cut into the lines that it was made of.
pub split_lines-join :
    (ws : List (List ℕ))
    → All IsText ws
    → split_lines [] (join ws ++ (13 ∷ 10 ∷ [])) ≡ ws ++ ((13 ∷ []) ∷ [])
unfolding split_lines
split_lines-join [] h = refl
split_lines-join (w ∷ ws) h =
    ap (split_lines []) (append_assoc w (10 ∷ join ws) (13 ∷ 10 ∷ []))
    ∙ split_lines-text [] w (10 ∷ join ws ++ (13 ∷ 10 ∷ [])) h.0.0
    ∙ ap (λ t. w ∷ t) (split_lines-join ws h.1)

pub last_line-text : (cur w : List ℕ) → last_line cur (w ++ (10 ∷ [])) ≡ []
unfolding last_line
last_line-text cur [] = refl
last_line-text cur (c ∷ w) = elim (Bool-cases (c == 10)) [
  | inl p ↦ if_true _ _ p ∙ last_line-text [] w
  | inr p ↦ if_false _ _ p ∙ last_line-text (cur ++ (c ∷ [])) w
]

module _ (k : Kit) (o : BlobOps) where
  -- The loop over the data at a line.
  pub scan-line :
      (ds left m : ℕ) (w mem line : List ℕ) (n : ℕ) (s : State k o)
      → m ≡ length w + suc left
      → NoBreak w
      → scan k o ds m (w ++ (10 ∷ mem)) line n s
        ≡ parse_line k o ds line (n + length w) s >>= λ t. scan k o ds left mem mem 0 t
  unfolding scan
  scan-line ds left zero w mem line n s e h = absurd (omega arith)
  scan-line ds left (suc m) [] mem line n s e h =
      ap (λ (t : ℕ). parse_line k o ds line n s >>= λ u. scan k o ds t mem mem 0 u) (omega arith)
      ∙ ap (λ (t : ℕ). parse_line k o ds line t s >>= λ u. scan k o ds left mem mem 0 u)
          (omega arith)
  scan-line ds left (suc m) (c ∷ w) mem line n s e h =
      if_false _ _ h.0
      ∙ scan-line ds left m w mem line (n + 1) s (omega arith) h.1
      ∙ ap (λ (t : ℕ). parse_line k o ds line t s >>= λ u. scan k o ds left mem mem 0 u)
          (omega arith)

  -- The loop over the data at its last line.
  pub scan-rest :
      (ds : ℕ) (w mem line : List ℕ) (n : ℕ) (s : State k o)
      → NoBreak w
      → scan k o ds (length w) (w ++ mem) line n s
        ≡ (if ltb 0 (n + length w) then parse_line k o ds line (n + length w) s else ok s)
  unfolding scan
  scan-rest ds [] mem line n s h =
      ap (λ (t : ℕ). if ltb 0 t then parse_line k o ds line t s else ok s) (omega arith)
  scan-rest ds (c ∷ w) mem line n s h =
      if_false _ _ h.0
      ∙ scan-rest ds w mem line (n + 1) s h.1
      ∙ ap (λ (t : ℕ). if ltb 0 t then parse_line k o ds line t s else ok s) (omega arith)

  -- The blank line at the end adds no header.
  pub read_headers-blank :
      (ws : List (List ℕ)) (acc : Headers × Bool)
      → read_headers k o (ws ++ ((13 ∷ []) ∷ [])) acc ≡ read_headers k o ws acc
  unfolding read_headers read_header is_blank
  read_headers-blank [] acc = refl
  read_headers-blank (w ∷ ws) acc = read_headers-blank ws (read_header k o w acc)
